-- ===== src/Transfer/Content.antt =====
-- What `performPipe` leaves in the file.
use kdump.Prelude.{
  ℕ, zero, suc, ◌+◌, ◌-◌, ◌≤◌, Bool, true, false, ◌&&◌, List, [], ◌∷◌, ◌++◌, append_assoc,
  append-nil, ◌≡◌, refl, sym, ap, ◌∙◌, arith, Bytes, ◌==◌, if◌then◌else◌, length, take, drop,
  length-append, take_append_length, Bool-cases, inl, inr,
}
use kdump.Prelude.Effects.{done, raised, ◌>>=◌, ◌>>◌, on_error}
use kdump.Sftp.Session.{prepared, finished}
use kdump.Sftp.Client.{Chunk, chunk, unreadable, Provider}
use kdump.Transfer.Pipe.{
  Disk, zeros, pad, write_at, fwrite, fseek_cur, rewind_truncate, is_zero, pipe_loop, close_hole,
  tell, perform_pipe, provider_failed, P,
}

-- What a provider delivers, up to the end that it reports.
unfoldable pub delivered : List Chunk → Bytes
delivered [] = []
delivered (unreadable ∷ cs) = []
delivered (chunk [] ∷ cs) = []
delivered (chunk (c ∷ b) ∷ cs) = (c ∷ b) ++ delivered cs

-- No read fails before the end.
abbrev pub Readable : List Chunk → Type 0
Readable [] = Unit
Readable (unreadable ∷ cs) = ⊥
Readable (chunk [] ∷ cs) = Unit
Readable (chunk (c ∷ b) ∷ cs) = Readable cs

length-zeros : (n : ℕ) → length (zeros n) ≡ n
unfolding zeros
length-zeros zero = refl
length-zeros (suc n) = omega (arith, length-zeros n)

zeros-add : (m n : ℕ) → zeros (m + n) ≡ zeros m ++ zeros n
unfolding zeros
zeros-add zero n = let e : 0 + n ≡ n = omega arith in rw e
zeros-add (suc m) n =
    let e : suc m + n ≡ suc (m + n) = omega arith in rw e (ap (◌∷◌ 0) (zeros-add m n))

is_zero-zeros : (b : Bytes) → is_zero b ≡ true → b ≡ zeros (length b)
unfolding is_zero zeros
is_zero-zeros [] h = refl
is_zero-zeros (c ∷ b) h = ground (arith, is_zero-zeros b)

take_all : (n : ℕ) (s : Bytes) → length s ≡ n → take n s ≡ s
take_all n s e = let whole = take_append_length s [] in rw (append-nil s, e) at whole

drop_all : (n : ℕ) (s : Bytes) → length s ≤ n → drop n s ≡ []
drop_all zero [] h = refl
drop_all zero (c ∷ s) h = absurd (omega arith)
drop_all (suc n) [] h = refl
drop_all (suc n) (c ∷ s) h = drop_all n s (omega arith)

-- The bytes so far are the file up to its position; and the file itself, unless the last chunk was
-- left a hole.
record IsAt (hole : Bool) (bytes : Bytes) (d : Disk) : Type 0 where
  all_work : d.calls ≡ []
  padded : pad d.pos d.content ≡ bytes
  size : length bytes ≡ d.pos
  flushed : hole ≡ false → d.content ≡ bytes

content-le : (hole : Bool) (bytes : Bytes) (d : Disk) → IsAt hole bytes d → length d.content ≤ d.pos
unfolding pad
content-le hole bytes d at_end = omega (
  arith,
  ap length at_end.padded,
  length-append d.content (zeros (d.pos - length d.content)),
  length-zeros (d.pos - length d.content),
  at_end.size,
)

write_at-end :
    (hole : Bool) (bytes new : Bytes) (d : Disk)
    → IsAt hole bytes d
    → write_at d.pos new d.content ≡ bytes ++ new
unfolding write_at
write_at-end hole bytes new d at_end =
    let short = content-le hole bytes d at_end in
    let front : take d.pos (pad d.pos d.content) ≡ bytes =
      rw at_end.padded (take_all d.pos bytes at_end.size) in
    let behind = drop_all (d.pos + length new) d.content (omega arith) in
    rw (front, behind) (append-nil (bytes ++ new))

pad_self : (n : ℕ) (s : Bytes) → length s ≡ n → pad n s ≡ s
unfolding pad zeros
pad_self n s e =
    let none_missing : n - length s ≡ 0 = omega arith in rw (none_missing, append-nil s)

fwrite-IsAt :
    (hole : Bool) (bytes new : Bytes) (d : Disk)
    → IsAt hole bytes d
    → (d' : Disk) × (fwrite new d ≡ done tt d')
      × IsAt false (bytes ++ new) d'
      × (d'.events ≡ d.events)
unfolding fwrite
fwrite-IsAt hole bytes new d at_end =
    let d' : Disk = record d { content = bytes ++ new; pos = d.pos + length new } in
    let long = length-append bytes new in
    let size : length (bytes ++ new) ≡ d.pos + length new = omega (arith, long, at_end.size) in
    (
      d',
      rw (at_end.all_work, write_at-end hole bytes new d at_end),
      record {
        all_work = at_end.all_work;
        padded = pad_self (d.pos + length new) (bytes ++ new) size;
        size = size;
        flushed = λ _. refl;
      },
      refl,
    )

fseek_cur-IsAt :
    (hole : Bool) (bytes : Bytes) (n : ℕ) (d : Disk)
    → IsAt hole bytes d
    → (d' : Disk) × (fseek_cur n d ≡ done tt d')
      × IsAt true (bytes ++ zeros n) d'
      × (d'.events ≡ d.events)
unfolding fseek_cur
fseek_cur-IsAt hole bytes n d at_end =
    let d' : Disk = record d { pos = d.pos + n } in
    let short = content-le hole bytes d at_end in
    let gap : d.pos + n - length d.content ≡ d.pos - length d.content + n = omega arith in
    let padded : pad (d.pos + n) d.content ≡ bytes ++ zeros n =
      unfold pad in
      rw (gap, zeros-add (d.pos - length d.content) n)
        (sym (append_assoc d.content (zeros (d.pos - length d.content)) (zeros n))
          ∙ ap (λ t. t ++ zeros n) at_end.padded) in
    (
      d',
      rw at_end.all_work,
      record {
        all_work = at_end.all_work;
        padded = padded;
        size = omega (arith, length-append bytes (zeros n), length-zeros n, at_end.size);
        flushed = λ e. cc;
      },
      refl,
    )

bind-done :
    {A B : Type 0} (m : P A) (f : A → P B) {a : A} {d d' : Disk}
    → m d ≡ done a d'
    → (m >>= f) d ≡ f a d'
bind-done m f e = rw (◌>>=◌, e)

step-IsAt :
    (sparse : Bool) (size : ℕ) (hole : Bool) (bytes b : Bytes) (d : Disk)
    → IsAt hole bytes d
    → let leap = sparse && length b == size && is_zero b in
      (d' : Disk) × ((if leap then fseek_cur size else fwrite b) d ≡ done tt d')
      × IsAt leap (bytes ++ b) d'
      × (d'.events ≡ d.events)
step-IsAt sparse size hole bytes b d at_end =
    let leap = sparse && length b == size && is_zero b in
    elim (Bool-cases leap) [
      | inl jump ↦
          let full : length b ≡ size = ground arith in
          let zero_bytes : b ≡ zeros size = is_zero-zeros b (ground arith) ∙ ap zeros full in
          rw (jump, zero_bytes) (fseek_cur-IsAt hole bytes size d at_end)
      | inr write ↦ rw write (fwrite-IsAt hole bytes b d at_end)
    ]

pipe_loop-IsAt :
    (sparse : Bool) (size : ℕ) (hole : Bool) (cs : List Chunk) (bytes : Bytes) (d : Disk)
    → Readable cs
    → IsAt hole bytes d
    → (last : Bool) × (d' : Disk) × (pipe_loop sparse size hole cs d ≡ done last d')
      × IsAt last (bytes ++ delivered cs) d'
      × (d'.events ≡ d.events)
unfolding pipe_loop delivered
pipe_loop-IsAt sparse size hole [] bytes d h at_end =
    (hole, d, refl, rw (append-nil bytes) at_end, refl)
pipe_loop-IsAt sparse size hole (unreadable ∷ cs) bytes d h at_end = absurd h
pipe_loop-IsAt sparse size hole (chunk [] ∷ cs) bytes d h at_end =
    (hole, d, refl, rw (append-nil bytes) at_end, refl)
pipe_loop-IsAt sparse size hole (chunk (c ∷ b) ∷ cs) bytes d h at_end =
    let leap = sparse && length (c ∷ b) == size && is_zero (c ∷ b) in
    let (d1, wrote, at_next, quiet) = step-IsAt sparse size hole bytes (c ∷ b) d at_end in
    let (last, d2, looped, at_last, quiet') =
      pipe_loop-IsAt sparse size leap cs (bytes ++ c ∷ b) d1 h at_next in
    (
      last,
      d2,
      bind-done (if leap then fseek_cur size else fwrite (c ∷ b))
            (λ _. pipe_loop sparse size leap cs) wrote
          ∙ looped,
      rw (append_assoc bytes (c ∷ b) (delivered cs)) at at_last,
      quiet' ∙ quiet,
    )

truncated :
    (n : ℕ) (bytes : Bytes) (d : Disk)
    → d.calls ≡ []
    → take n (pad n d.content) ≡ bytes
    → rewind_truncate n d ≡ done tt (record d { content = bytes; pos = 0; calls = [] })
unfolding rewind_truncate pad
truncated n bytes d work cut = rw (work, cut)

close_hole_lem :
    (hole : Bool) (bytes : Bytes) (d : Disk)
    → IsAt hole bytes d
    → (d' : Disk) × (close_hole hole d ≡ done tt d') × (d'.content ≡ bytes) × (d'.events ≡ d.events)
unfolding close_hole
close_hole_lem false bytes d at_end = (d, refl, at_end.flushed refl, refl)
close_hole_lem true bytes d at_end =
    let (d1, wrote, at_next, quiet) = fwrite-IsAt true bytes (0 ∷ []) d at_end in
    let d2 : Disk = record d1 { content = bytes; pos = 0; calls = [] } in
    let enough : pad d.pos (bytes ++ 0 ∷ []) ≡ bytes ++ 0 ∷ [] =
      let over : d.pos - length (bytes ++ 0 ∷ []) ≡ 0 =
        omega (arith, length-append bytes (0 ∷ []), at_end.size) in
      unfold pad zeros in rw over (append-nil (bytes ++ 0 ∷ [])) in
    let cut : take d.pos (pad d.pos d1.content) ≡ bytes =
      rw (at_next.flushed refl, enough, ← at_end.size) (take_append_length bytes (0 ∷ [])) in
    (
      d2,
      bind-done (fwrite (0 ∷ [])) (λ _. rewind_truncate d.pos) {d = d} wrote
          ∙ truncated d.pos bytes d1 at_next.all_work cut,
      refl,
      quiet,
    )

-- The provider is finished behind a body that returns.
finish-done :
    (body : P (Unit {0})) (finishes : Bool) {d d' : Disk}
    → body d ≡ done tt d'
    → (on_error body (tell finished finishes) >> tell finished finishes) d
      ≡ tell finished finishes d'
finish-done body finishes {d} {d'} e =
    bind-done (on_error body (tell finished finishes)) (λ _. tell finished finishes)
      (rw (on_error, e))

told_finished :
    (finishes : Bool) (d : Disk)
    → tell finished finishes d ≡ (
        if finishes
        then done tt (record d { events = d.events ++ finished ∷ [] })
        else raised provider_failed (record d { events = d.events ++ finished ∷ [] }))
unfolding tell
told_finished finishes d = refl

-- Where the file can be made and no call fails, and the provider can be prepared and read: the file
-- is in the end what the provider delivers, byte for byte, whether zeros are left as holes or
-- written, whatever the buffer's size, and also where the last chunk is left a hole. The provider is
-- prepared and finished once, and what `finish` throws is thrown.
pub perform_pipe-content :
    (sparse : Bool) (size : ℕ) (provider : Provider) (d : Disk)
    → d.calls ≡ []
    → provider.prepares ≡ true
    → Readable provider.chunks
    → (d' : Disk) × (perform_pipe true sparse size provider d
        ≡ (if provider.finishes then done tt d' else raised provider_failed d'))
      × (d'.content ≡ delivered provider.chunks)
      × (d'.events ≡ d.events ++ prepared ∷ finished ∷ [])
unfolding perform_pipe tell
perform_pipe-content sparse size provider d work ready readable =
    let d0 : Disk = record d { content = []; pos = 0; events = d.events ++ prepared ∷ [] } in
    let at_start : IsAt false [] d0 = record {
      all_work = work;
      padded = unfold pad zeros in refl;
      size = refl;
      flushed = λ _. refl;
    } in
    let (last, d1, looped, at_last, quiet) =
      pipe_loop-IsAt sparse size false provider.chunks [] d0 readable at_start in
    let (d2, closed, content, quiet') =
      close_hole_lem last (delivered provider.chunks) d1 at_last in
    let body : (pipe_loop sparse size false provider.chunks >>= close_hole) d0 ≡ done tt d2 =
      bind-done (pipe_loop sparse size false provider.chunks) close_hole looped ∙ closed in
    let d' : Disk = record d2 { events = d2.events ++ finished ∷ [] } in
    let all : d2.events ++ finished ∷ [] ≡ d.events ++ prepared ∷ finished ∷ [] =
      ap (λ t. t ++ finished ∷ []) (quiet' ∙ quiet)
      ∙ append_assoc d.events (prepared ∷ []) (finished ∷ []) in
    (
      d',
      rw ready (
          finish-done (pipe_loop sparse size false provider.chunks >>= close_hole) provider.finishes
            body
          ∙ told_finished provider.finishes d2),
      content,
      all,
    )
