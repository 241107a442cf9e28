-- ===== src/Sftp/Quiet.antt =====
-- What the requests do to the data provider.
use kdump.Prelude.{
  ℕ, zero, suc, ◌+◌, ◌-◌, Bool, true, false, List, [], ◌∷◌, Bytes, Result, ok, throw, ◌==◌,
  if◌then◌else◌, length, min, ◌≡◌, refl, ◌∙◌, arith,
}
use kdump.Sftp.Packet.{Packet, SftpError, id_mismatch, get_byte, get_int32, add_byte_vector}
use kdump.Sftp.Session.{Session, Outcome, done, raised, M, pure, raise, ◌>>=◌, ◌>>◌, lift}
use kdump.Sftp.Stream.{send_packet, recv_buffer, recv_loop, read_loop, bufsiz, recv_packet}
use kdump.Sftp.Client.{
  fxp_status, fxp_close, fxp_write, fxp_open, fxp_handle, fx_ok, next_id, last_id, request, reply,
  status, must_be_ok, createfile, closefile, writefile, Chunk, chunk, unreadable, write_chunks,
}

-- The session after an operation, whether it returned or raised.
abbrev pub after : {A : Type 0} → Outcome A → Session
after (done a s) = s
after (raised e s) = s

-- An operation that does nothing to the data provider.
pub data IsQuiet {A : Type 0} (m : M A) : Type 0 where
  quiet : ((s : Session) → (after (m s)).events ≡ s.events) → IsQuiet m

pub events_kept :
    {A : Type 0} (m : M A) → IsQuiet m → (s : Session) → (after (m s)).events ≡ s.events
events_kept m (quiet h) = h

module _ {A B : Type 0} (m : M A) (f : A → M B) where
  pub bind-IsQuiet : IsQuiet m → ((a : A) → IsQuiet (f a)) → IsQuiet (m >>= f)
  bind-IsQuiet h k = quiet (λ s.
      elim (m s)
          as (λ o.
            (after o).events ≡ s.events
            → (after (elim o [ done a s' ↦ f a s' | raised e s' ↦ raised e s' ])).events
              ≡ s.events) [ done a s' ↦ λ e. events_kept (f a) (k a) s' ∙ e | raised x s' ↦ λ e. e ]
        (events_kept m h s))

pub lift-IsQuiet : {A : Type 0} (r : Result SftpError A) → IsQuiet (lift r)
lift-IsQuiet (ok a) = quiet (λ s. refl)
lift-IsQuiet (throw e) = quiet (λ s. refl)

pub pure-IsQuiet : {A : Type 0} (a : A) → IsQuiet (pure a)
pure-IsQuiet a = quiet (λ s. refl)

pub raise-IsQuiet : {A : Type 0} (e : SftpError) → IsQuiet (raise {A = A} e)
raise-IsQuiet e = quiet (λ s. refl)

pub if-IsQuiet :
    {A : Type 0} (b : Bool) (m n : M A) → IsQuiet m → IsQuiet n → IsQuiet (if b then m else n)
if-IsQuiet true m n h k = h
if-IsQuiet false m n h k = k

pub recv_buffer-IsQuiet : (n : ℕ) → IsQuiet (recv_buffer n)
unfolding recv_buffer
recv_buffer-IsQuiet n = quiet (λ s.
    events_kept _ (lift-IsQuiet (read_loop n s.incoming []).0)
      (record s { incoming = (read_loop n s.incoming []).1 }))

pub request-IsQuiet : (type : ℕ) (arguments : Packet → Packet) → IsQuiet (request type arguments)
unfolding request next_id send_packet
request-IsQuiet type arguments = quiet (λ s. ground arith)

pub recv_loop-IsQuiet : (f n : ℕ) (p : Packet) → IsQuiet (recv_loop f n p)
unfolding recv_loop
recv_loop-IsQuiet zero n p = pure-IsQuiet p
recv_loop-IsQuiet (suc f) zero p = pure-IsQuiet p
recv_loop-IsQuiet (suc f) (suc n) p =
    bind-IsQuiet (recv_buffer (min bufsiz (suc n))) _ (recv_buffer-IsQuiet (min bufsiz (suc n)))
      (λ b. recv_loop-IsQuiet f (suc n - min bufsiz (suc n)) (add_byte_vector b p))

pub recv_packet-IsQuiet : IsQuiet recv_packet
unfolding recv_packet
recv_packet-IsQuiet =
    bind-IsQuiet (recv_buffer 4) _ (recv_buffer-IsQuiet 4)
      (λ b. bind-IsQuiet _ _ (lift-IsQuiet _) (λ (n, p). recv_loop-IsQuiet n n p))

pub reply-IsQuiet : IsQuiet reply
unfolding reply last_id
reply-IsQuiet = bind-IsQuiet recv_packet _ recv_packet-IsQuiet (λ p.
    bind-IsQuiet (lift (get_byte p)) _ (lift-IsQuiet (get_byte p)) (λ (type, q).
      bind-IsQuiet (lift (get_int32 q)) _ (lift-IsQuiet (get_int32 q)) (λ (id, r).
        bind-IsQuiet last_id _ (quiet (λ s. refl)) (λ last.
          if-IsQuiet (id == last) (pure (type, r)) (raise id_mismatch) (pure-IsQuiet (type, r))
            (raise-IsQuiet id_mismatch)))))

pub status-IsQuiet : (type : ℕ) (p : Packet) → IsQuiet (status type p)
unfolding status
status-IsQuiet type p =
    if-IsQuiet (type == fxp_status) _ _
      (bind-IsQuiet _ _ (lift-IsQuiet _) (λ (errcode, _). pure-IsQuiet errcode)) (raise-IsQuiet _)

pub must_be_ok-IsQuiet : (errcode : ℕ) → IsQuiet (must_be_ok errcode)
unfolding must_be_ok
must_be_ok-IsQuiet errcode = if-IsQuiet (errcode == fx_ok) _ _ (pure-IsQuiet tt) (raise-IsQuiet _)

-- What is done with the reply of `closefile` and of `writefile`.
pub acknowledged-IsQuiet :
    (m : M (Unit {0}))
    → IsQuiet m
    → IsQuiet (m >> (reply >>= λ (type, p). status type p >>= must_be_ok))
acknowledged-IsQuiet m h = bind-IsQuiet m _ h (λ _.
    bind-IsQuiet reply _ reply-IsQuiet
      (λ (type, p). bind-IsQuiet (status type p) _ (status-IsQuiet type p) must_be_ok-IsQuiet))

pub closefile-IsQuiet : (handle : Bytes) → IsQuiet (closefile handle)
unfolding closefile
closefile-IsQuiet handle = acknowledged-IsQuiet (request fxp_close _) (request-IsQuiet fxp_close _)

pub writefile-IsQuiet :
    (handle : Bytes) (off : ℕ) (bytes : Bytes) → IsQuiet (writefile handle off bytes)
unfolding writefile
writefile-IsQuiet handle off bytes =
    acknowledged-IsQuiet (request fxp_write _) (request-IsQuiet fxp_write _)

pub createfile-IsQuiet : (file : Bytes) → IsQuiet (createfile file)
unfolding createfile
createfile-IsQuiet file = bind-IsQuiet (request fxp_open _) _ (request-IsQuiet fxp_open _) (λ _.
    bind-IsQuiet reply _ reply-IsQuiet (λ (type, p).
      if-IsQuiet (type == fxp_handle) _ _
        (bind-IsQuiet _ _ (lift-IsQuiet _) (λ (handle, _). pure-IsQuiet handle))
        (bind-IsQuiet (status type p) _ (status-IsQuiet type p) (λ _. raise-IsQuiet _))))

pub write_chunks-IsQuiet :
    (handle : Bytes) (off : ℕ) (cs : List Chunk) → IsQuiet (write_chunks handle off cs)
unfolding write_chunks
write_chunks-IsQuiet handle off [] = pure-IsQuiet tt
write_chunks-IsQuiet handle off (unreadable ∷ cs) = raise-IsQuiet _
write_chunks-IsQuiet handle off (chunk [] ∷ cs) = pure-IsQuiet tt
write_chunks-IsQuiet handle off (chunk (c ∷ d) ∷ cs) =
    bind-IsQuiet (writefile handle off (c ∷ d)) _ (writefile-IsQuiet handle off (c ∷ d))
      (λ _. write_chunks-IsQuiet handle (off + length (c ∷ d)) cs)
