-- ===== src/Sftp/Replies.antt =====
-- The requests on the wire, and what the replies make of them.
use kdump.Prelude.{
  ℕ, ◌+◌, ◌%◌, ◌^◌, ◌<◌, List, ◌∷◌, ◌++◌, append_assoc, Bytes, ◌==◌, if◌then◌else◌, length, All,
  ◌≡◌, refl, ap, ◌∙◌, arith, Bool-cases, inl, inr,
}
use kdump.Sftp.Packet.{
  Packet, id_mismatch, sftp_error, get_byte, add_byte, add_byte_vector, add_int32, add_int64,
  add_string, new_packet,
}
use kdump.Sftp.Coding.{
  be32, be64, advance, get_int32-be32, vector-add_int32, vector-add_int64, vector-add_string,
  update_lem,
}
use kdump.Sftp.Session.{
  Write, Read, Session, Outcome, done, raised, ◌>>=◌, ◌>>◌, bind-done, bind-raised,
}
use kdump.Sftp.Stream.{recv_packet}
use kdump.Sftp.Pieces.{IsTaken, IsGot, content, send_packet-wire, recv_packet-content}
use kdump.Sftp.Client.{
  next_id, last_id, request, reply, status, must_be_ok, closefile, writefile, fxp_status, fxp_close,
  fxp_write,
}

-- A packet of the protocol.
abbrev pub frame : Bytes → Bytes
frame body = be32 (length body) ++ body

abbrev pub following : Session → ℕ
following s = (s.lastid + 1) % 2 ^ 32

-- Where an exchange leaves the client.
abbrev pub exchanged : Session → Bytes → List Write → List Read → Session
exchanged s body ws inc = record s {
  lastid = following s;
  writes = ws;
  wire = s.wire ++ frame body;
  incoming = inc;
}

pub request-wire :
    (type : ℕ) (arguments : Packet → Packet) (body : Bytes) (s : Session)
    → All IsTaken s.writes
    → ((p : Packet) → (arguments p).vector ≡ p.vector ++ body)
    → type < 256
    → (left : List Write) × (request type arguments s
        ≡ done tt (exchanged s (type ∷ be32 (following s) ++ body) left s.incoming))
unfolding request next_id
request-wire type arguments body s t v fits =
    let start = add_int32 (following s) (add_byte type new_packet) in
    let low : type % 256 ≡ type = omega arith in
    let e : (arguments start).vector ≡ 0 ∷ 0 ∷ 0 ∷ 0 ∷ type ∷ be32 (following s) ++ body =
      v start ∙ rw (vector-add_int32 (following s) (add_byte type new_packet), low) in
    let u = update_lem (type ∷ be32 (following s) ++ body) (arguments start) 0 0 0 0 e in
    let (left, sent) = send_packet-wire (arguments start) (record s { lastid = following s }) t in
    (left, sent ∙ rw u)

pub reply-content :
    (type id : ℕ) (payload more : Bytes) (s : Session)
    → id < 2 ^ 32
    → length (type ∷ be32 id ++ payload) < 2 ^ 32
    → All IsGot s.incoming
    → content s.incoming ≡ frame (type ∷ be32 id ++ payload) ++ more
    → (left : List Read) × (reply s ≡ (
        if id == s.lastid
        then done
            (type, record { vector = frame (type ∷ be32 id ++ payload); gpos = 9 })
            (record s { incoming = left })
        else raised id_mismatch (record s { incoming = left })))
      × All IsGot left
      × (content left ≡ more)
unfolding reply last_id get_byte advance
reply-content type id payload more s small fits g e =
    let body = type ∷ be32 id ++ payload in
    let (left, got_it, g', c) =
      recv_packet-content body more s fits g (e ∙ append_assoc (be32 (length body)) body more) in
    let p : Packet = record { vector = frame body; gpos = 5 } in
    let (i, _) = get_int32-be32 id p payload small refl in
    let parsed = bind-done recv_packet _ got_it in
    elim (Bool-cases (id == s.lastid)) [
      | inl t ↦ (left, parsed ∙ rw i (rw t), g', c)
      | inr f ↦ (left, parsed ∙ rw i (rw f), g', c)
    ]

-- The body of a status reply.
abbrev pub status_body : ℕ → ℕ → Bytes → Bytes
status_body id code text = fxp_status ∷ be32 id ++ be32 code ++ text

-- What a status makes of a request that wants it to be SSH_FX_OK.
abbrev pub verdict : ℕ → ℕ → Session → Outcome (Unit {0})
verdict id code s =
    if id == s.lastid
    then (if code == 0 then done tt s else raised (sftp_error code) s)
    else raised id_mismatch s

-- A request that takes any reply but SSH_FX_OK for an error.
acknowledged_lem :
    (type : ℕ) (arguments : Packet → Packet) (sent : Bytes) (id code : ℕ) (text more : Bytes)
    (s : Session)
    → type < 256
    → ((p : Packet) → (arguments p).vector ≡ p.vector ++ sent)
    → id < 2 ^ 32
    → code < 2 ^ 32
    → length (status_body id code text) < 2 ^ 32
    → All IsTaken s.writes
    → All IsGot s.incoming
    → content s.incoming ≡ frame (status_body id code text) ++ more
    → (ws : List Write) × (left : List Read) × ((request type arguments
            >> (reply >>= λ (t, p). status t p >>= must_be_ok))
          s
        ≡ verdict id code (exchanged s (type ∷ be32 (following s) ++ sent) ws left))
      × (content left ≡ more)
unfolding status must_be_ok advance
acknowledged_lem type arguments sent id code text more s low v small known fits t g e =
    let (ws, asked) = request-wire type arguments sent s t v low in
    let s1 = exchanged s (type ∷ be32 (following s) ++ sent) ws s.incoming in
    let (left, answered, g', c) =
      reply-content fxp_status id (be32 code ++ text) more s1 small fits g e in
    let s2 = record s1 { incoming = left } in
    let p : Packet = record { vector = frame (status_body id code text); gpos = 9 } in
    let (i, _) = get_int32-be32 code p text known refl in
    let first = bind-done (request type arguments) _ asked in
    elim (Bool-cases (id == s1.lastid)) [
      | inl same ↦
          let here : reply s1 ≡ done (fxp_status, p) s2 = answered ∙ rw same in
          let second = bind-done reply (λ (t, p). status t p >>= must_be_ok) here in
          elim (Bool-cases (code == 0)) [
            | inl zero_code ↦ (ws, left, first ∙ second ∙ rw (same, i) (rw zero_code), c)
            | inr other ↦ (ws, left, first ∙ second ∙ rw (same, i) (rw other), c)
          ]
      | inr differ ↦
          let here : reply s1 ≡ raised id_mismatch s2 = answered ∙ rw differ in
          let second = bind-raised reply (λ (t, p). status t p >>= must_be_ok) here in
          (ws, left, first ∙ second ∙ rw differ, c)
    ]

writefile_vector :
    (handle : Bytes) (off : ℕ) (bytes : Bytes) (p : Packet)
    → (add_byte_vector bytes
        (add_int32 (length bytes) (add_int64 off (add_string handle p)))).vector
      ≡ p.vector ++ ((be32 (length handle) ++ handle) ++ be64 off ++ be32 (length bytes) ++ bytes)
writefile_vector handle off bytes p =
    let h = be32 (length handle) ++ handle in
    rw
      (
        vector-add_int32 (length bytes) (add_int64 off (add_string handle p)),
        vector-add_int64 off (add_string handle p),
        vector-add_string handle p,
      )
      (ap (λ t. t ++ be32 (length bytes) ++ bytes) (append_assoc p.vector h (be64 off))
        ∙ ap (λ t. t ++ bytes) (append_assoc p.vector (h ++ be64 off) (be32 (length bytes)))
        ∙ append_assoc p.vector (h ++ be64 off ++ be32 (length bytes)) bytes)

module _ (id code : ℕ) (text more : Bytes) (s : Session) (small : id < 2 ^ 32)
    (known : code < 2 ^ 32) (fits : length (status_body id code text) < 2 ^ 32)
    (writable : All IsTaken s.writes) (readable : All IsGot s.incoming)
    (answer : content s.incoming ≡ frame (status_body id code text) ++ more) where
  -- On pipes that deliver in pieces of any size and do not fail, and a status packet for the answer
  -- (its identifier, its code and its length in 32 bits): `writefile` puts one packet on the wire,
  -- with the next identifier, the handle, the offset in 64 bits, the size and the bytes. It returns
  -- if the status is for this identifier and is SSH_FX_OK, raises the status's code if it is any
  -- other, and the mismatch if it is for another identifier. It takes the answer off the pipe and
  -- nothing behind it.
  pub writefile_lem :
      (handle : Bytes) (off : ℕ) (bytes : Bytes)
      → (ws : List Write) × (left : List Read) × (writefile handle off bytes s
          ≡ verdict id code (
              exchanged s
                (fxp_write ∷ be32 (following s)
                  ++ (be32 (length handle) ++ handle)
                  ++ be64 off
                  ++ be32 (length bytes)
                  ++ bytes)
                ws
                left))
        × (content left ≡ more)
  unfolding writefile
  writefile_lem handle off bytes =
      acknowledged_lem fxp_write
        (λ p.
          add_byte_vector bytes (add_int32 (length bytes) (add_int64 off (add_string handle p))))
        ((be32 (length handle) ++ handle) ++ be64 off ++ be32 (length bytes) ++ bytes) id code text
        more s (omega arith) (writefile_vector handle off bytes) small known fits writable readable
        answer

  -- On pipes that deliver in pieces of any size and do not fail, and a status packet for the answer
  -- (its identifier, its code and its length in 32 bits): `closefile` puts one packet on the wire,
  -- with the next identifier and the handle. It returns, raises the status's code or raises the
  -- mismatch by the same rule, and takes off the pipe the answer alone.
  pub closefile_lem :
      (handle : Bytes)
      → (ws : List Write) × (left : List Read) × (closefile handle s
          ≡ verdict id code (
              exchanged s
                (fxp_close ∷ be32 (following s) ++ be32 (length handle) ++ handle)
                ws
                left))
        × (content left ≡ more)
  unfolding closefile
  closefile_lem handle =
      acknowledged_lem fxp_close (add_string handle) (be32 (length handle) ++ handle) id code text
        more s (omega arith) (vector-add_string handle) small known fits writable readable answer
