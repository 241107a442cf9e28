-- ===== src/Transfer/Events.antt =====
-- What the data provider sees of `performPipe`, whatever calls fail.
use kdump.Prelude.{
  ℕ, Bool, true, false, ◌&&◌, List, [], ◌∷◌, ◌++◌, append_assoc, append-nil, ◌≡◌, refl, sym, ◌∙◌,
  Bytes, arith, ◌==◌, if◌then◌else◌, length, Bool-cases, inl, inr,
}
use kdump.Prelude.Effects.{Outcome, done, raised, after, ◌>>=◌, ◌>>◌, on_error}
use kdump.Sftp.Session.{prepared, finished}
use kdump.Sftp.Client.{Chunk, chunk, unreadable, Provider}
use kdump.Sftp.Upload.{told}
use kdump.Transfer.Pipe.{
  Disk, P, PipeError, fwrite, fseek_cur, rewind_truncate, is_zero, pipe_loop, close_hole, tell,
  perform_pipe,
}

-- Code that tells the provider nothing.
IsQuiet : {A : Type 0} → P A → Type 0
IsQuiet m = (d : Disk) → (after (m d)).events ≡ d.events

fwrite-IsQuiet : (b : Bytes) → IsQuiet (fwrite b)
unfolding IsQuiet fwrite
fwrite-IsQuiet b d = ground arith

fseek_cur-IsQuiet : (n : ℕ) → IsQuiet (fseek_cur n)
unfolding IsQuiet fseek_cur
fseek_cur-IsQuiet n d = ground arith

rewind_truncate-IsQuiet : (n : ℕ) → IsQuiet (rewind_truncate n)
unfolding IsQuiet rewind_truncate
rewind_truncate-IsQuiet n d = ground arith

bind-IsQuiet :
    {A B : Type 0} (m : P A) (f : A → P B)
    → IsQuiet m
    → ((a : A) → IsQuiet (f a))
    → IsQuiet (m >>= f)
unfolding IsQuiet
bind-IsQuiet {B} m f hm hf d =
    elim (m d)
        as (λ o.
          (after o).events ≡ d.events
          → (after (elim o as (λ _. Outcome Disk PipeError B) [
            | done a d' ↦ f a d'
            | raised e d' ↦ raised e d'
          ])).events
            ≡ d.events) [ done a d' ↦ λ e. hf a d' ∙ e | raised x d' ↦ λ e. e ]
      (hm d)

pipe_loop-IsQuiet :
    (sparse : Bool) (size : ℕ) (hole : Bool) (cs : List Chunk)
    → IsQuiet (pipe_loop sparse size hole cs)
unfolding pipe_loop IsQuiet
pipe_loop-IsQuiet sparse size hole [] d = refl
pipe_loop-IsQuiet sparse size hole (unreadable ∷ cs) d = refl
pipe_loop-IsQuiet sparse size hole (chunk [] ∷ cs) d = refl
pipe_loop-IsQuiet sparse size hole (chunk (c ∷ b) ∷ cs) d =
    let leap = sparse && length (c ∷ b) == size && is_zero (c ∷ b) in
    bind-IsQuiet (if leap then fseek_cur size else fwrite (c ∷ b))
      (λ _. pipe_loop sparse size leap cs)
      (elim leap as (λ t. IsQuiet (if t then fseek_cur size else fwrite (c ∷ b))) [
        | true ↦ fseek_cur-IsQuiet size
        | false ↦ fwrite-IsQuiet (c ∷ b)
      ])
      (λ _. pipe_loop-IsQuiet sparse size leap cs) d

close_hole-IsQuiet : (hole : Bool) → IsQuiet (close_hole hole)
unfolding close_hole IsQuiet
close_hole-IsQuiet false d = refl
close_hole-IsQuiet true d =
    bind-IsQuiet (fwrite (0 ∷ [])) (λ _. rewind_truncate d.pos) (fwrite-IsQuiet (0 ∷ []))
      (λ _. rewind_truncate-IsQuiet d.pos) d

finishing-events :
    (m : P (Unit {0})) (finishes : Bool) (d : Disk)
    → IsQuiet m
    → (after ((on_error m (tell finished finishes) >> tell finished finishes) d)).events
      ≡ d.events ++ finished ∷ []
unfolding tell IsQuiet
finishing-events m finishes d quiet =
    elim (m d)
        as (λ o.
          (after o).events ≡ d.events
          → (after
              (elim (elim o as (λ _. Outcome Disk PipeError (Unit {0})) [
                | done a d' ↦ done a d'
                | raised e d' ↦
                    elim (tell finished finishes d') as (λ _. Outcome Disk PipeError (Unit {0})) [
                      | done _ d'' ↦ raised e d''
                      | raised e' d'' ↦ raised e' d''
                    ]
              ])
                as (λ _. Outcome Disk PipeError (Unit {0})) [
                  | done a d' ↦ tell finished finishes d'
                  | raised e d' ↦ raised e d'
                ])).events
            ≡ d.events ++ finished ∷ []) [
              | done a d' ↦
                  λ e. elim (Bool-cases finishes) [ inl t ↦ rw (t, e) | inr f ↦ rw (f, e) ]
              | raised x d' ↦
                  λ e. elim (Bool-cases finishes) [ inl t ↦ rw (t, e) | inr f ↦ rw (f, e) ]
            ]
      (quiet d)

-- Whatever call fails and whatever is read: a provider that is prepared is finished, once, and one
-- whose `prepare` throws is not; where the file cannot be made, the provider is left alone.
pub perform_pipe-events :
    (opens sparse : Bool) (size : ℕ) (provider : Provider) (d : Disk)
    → (after (perform_pipe opens sparse size provider d)).events
      ≡ d.events ++ (if opens then told provider else [])
unfolding perform_pipe tell
perform_pipe-events false sparse size provider d = sym (append-nil d.events)
perform_pipe-events true sparse size provider d =
    let d0 : Disk = record d { content = []; pos = 0; events = d.events ++ prepared ∷ [] } in
    let body = pipe_loop sparse size false provider.chunks in
    let q = finishing-events (body >>= close_hole) provider.finishes d0 (
      bind-IsQuiet body close_hole (pipe_loop-IsQuiet sparse size false provider.chunks)
        close_hole-IsQuiet) in
    elim (Bool-cases provider.prepares) [
      | inl t ↦ rw t (q ∙ append_assoc d.events (prepared ∷ []) (finished ∷ []))
      | inr f ↦ rw f
    ]
