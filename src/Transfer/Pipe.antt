-- ===== src/Transfer/Pipe.antt =====
-- `FileTransfer::performPipe`: a data provider's bytes into a file, with holes for zeros.
use kdump.Prelude.{
  ℕ, zero, suc, ◌+◌, ◌-◌, Bool, true, false, ◌&&◌, List, [], ◌∷◌, ◌++◌, Bytes, ◌==◌, if◌then◌else◌,
  length, take, drop,
}
use kdump.Prelude.Effects.{done, raised, M, pure, raise, ◌>>=◌, ◌>>◌, on_error}
use kdump.Sftp.Session.{Event, prepared, finished}
use kdump.Sftp.Client.{Chunk, chunk, unreadable, Provider}

-- What a call of <stdio.h> will do: all that is asked for, or fail (an `fwrite` after some bytes).
pub data Call : Type 0 where
  works : Call
  fails : ℕ → Call

pub data PipeError : Type 0 where
  open_failed provider_failed seek_failed write_failed truncate_failed : PipeError

-- The open file, the calls to come (where the list ends, all of them work), and what the provider
-- has been told.
pub record Disk : Type 0 where
  pub content : Bytes
  pub pos : ℕ
  pub calls : List Call
  pub events : List Event

abbrev pub P : Type 0 → Type 0
P A = M Disk PipeError A

unfoldable pub zeros : ℕ → Bytes
zeros zero = []
zeros (suc n) = 0 ∷ zeros n

-- A file reads as zeros where nothing has been written before its end.
unfoldable pub pad : ℕ → Bytes → Bytes
unfolding zeros
pad n content = content ++ zeros (n - length content)

unfoldable pub write_at : ℕ → Bytes → Bytes → Bytes
unfolding pad
write_at pos new content = take pos (pad pos content) ++ new ++ drop (pos + length new) content

abbrev pub next_call : Disk → Call
next_call d = elim (d.calls) [ [] ↦ works | c ∷ cs ↦ c ]

abbrev pub called : Disk → Disk
called d = record d { calls = elim (d.calls) [ [] ↦ [] | c ∷ cs ↦ cs ] }

-- fwrite, or fputc, and the check of what it returns
unfoldable pub fwrite : Bytes → P (Unit {0})
unfolding write_at
fwrite new d = elim (next_call d) [
  | works ↦
      done tt
        (record (called d) { content = write_at d.pos new d.content; pos = d.pos + length new })
  | fails n ↦
      let some_new = take n new in
      raised write_failed (record (called d) {
        content = write_at d.pos some_new d.content;
        pos = d.pos + length some_new;
      })
]

-- fseek(fp, n, SEEK_CUR)
unfoldable pub fseek_cur : ℕ → P (Unit {0})
fseek_cur n d = elim (next_call d) [
  | works ↦ done tt (record (called d) { pos = d.pos + n })
  | fails _ ↦ raised seek_failed (called d)
]

-- rewind, and ftruncate
unfoldable pub rewind_truncate : ℕ → P (Unit {0})
unfolding pad
rewind_truncate n d = elim (next_call d) [
  | works ↦ done tt (record (called d) { content = take n (pad n d.content); pos = 0 })
  | fails _ ↦ raised truncate_failed (record (called d) { pos = 0 })
]

-- Util::isZero
unfoldable pub is_zero : Bytes → Bool
is_zero [] = true
is_zero (c ∷ s) = c == 0 && is_zero s

-- The loop: what it returns is whether the last chunk was left a hole.
unfoldable pub pipe_loop : Bool → ℕ → Bool → List Chunk → P Bool
unfolding fwrite fseek_cur is_zero
pipe_loop sparse size last [] = pure last
pipe_loop sparse size last (unreadable ∷ cs) = raise provider_failed
pipe_loop sparse size last (chunk [] ∷ cs) = pure last
pipe_loop sparse size last (chunk (c ∷ b) ∷ cs) =
    let hole = sparse && length (c ∷ b) == size && is_zero (c ∷ b) in
    (if hole then fseek_cur size else fwrite (c ∷ b)) >> pipe_loop sparse size hole cs

-- A hole at the end is closed by a byte that is cut off again.
unfoldable pub close_hole : Bool → P (Unit {0})
unfolding fwrite rewind_truncate
close_hole false d = done tt d
close_hole true d = (fwrite (0 ∷ []) >> rewind_truncate d.pos) d

unfoldable pub tell : Event → Bool → P (Unit {0})
tell event succeeds d =
    let d' = record d { events = d.events ++ event ∷ [] } in
    if succeeds then done tt d' else raised provider_failed d'

-- `opens`: whether `fopen` makes the file, which is then empty. Closing it changes nothing: what
-- `fclose` returns is not looked at.
unfoldable pub perform_pipe : Bool → Bool → ℕ → Provider → P (Unit {0})
unfolding pipe_loop close_hole tell
perform_pipe opens sparse size provider d =
    let body : P (Unit {0}) = pipe_loop sparse size false provider.chunks >>= close_hole in
    if opens
    then (tell prepared provider.prepares
          >> on_error body (tell finished provider.finishes)
          >> tell finished provider.finishes)
        (record d { content = []; pos = 0 })
    else raised open_failed d
