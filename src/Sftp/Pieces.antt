-- ===== src/Sftp/Pieces.antt =====
-- `sendPacket` and `recvPacket` over pipes that take and give pieces of any size.
use kdump.Prelude.{
  ℕ, zero, suc, ◌+◌, ◌-◌, ◌≤◌, ◌<◌, ◌^◌, true, List, [], ◌∷◌, ◌++◌, append-nil, append_assoc, ◌≡◌,
  refl, sym, ap, ◌∙◌, arith, Bytes, ok, leb, length, take, drop, min, take-append-drop, All,
  Bool-cases, inl, inr, length-append, take_append_ge, drop_append_ge, take_append_le,
  drop_append_le, take-add, drop-drop, length-drop, take_append_length, drop_append_length,
}
use kdump.Sftp.Packet.{Packet, add_byte_vector, update}
use kdump.Sftp.Session.{Write, taken, broken, Read, got, failed, Session, done, M, bind-done}
use kdump.Sftp.Stream.{
  write_loop, send_packet, read_loop, recv_buffer, bufsiz, recv_loop, recv_packet,
}
use kdump.Sftp.Coding.{be32, get_int32-be32, advance}

-- Whatever pieces the writes take, what `sendPacket` puts on the wire is the packet, whole.
write_loop_lem :
    (ws : List Write) (buf wire : Bytes)
    → (write_loop ws buf wire).0 ≡ true
    → (write_loop ws buf wire).2 ≡ wire ++ buf
unfolding write_loop
write_loop_lem ws [] wire h = sym (append-nil wire)
write_loop_lem [] (c ∷ buf) wire h = refl
write_loop_lem (broken ∷ ws) (c ∷ buf) wire h = cc
write_loop_lem (taken n ∷ ws) (c ∷ buf) wire h =
    write_loop_lem ws (drop n (c ∷ buf)) (wire ++ take n (c ∷ buf)) h
    ∙ append_assoc wire (take n (c ∷ buf)) (drop n (c ∷ buf))
    ∙ ap (◌++◌ wire) (take-append-drop n (c ∷ buf))

-- A pipe that takes data, in pieces of any size.
abbrev pub IsTaken : Write → Type 0
IsTaken (taken n) = Unit
IsTaken broken = ⊥

write_loop-IsTaken :
    (ws : List Write) (buf wire : Bytes) → All IsTaken ws → (write_loop ws buf wire).0 ≡ true
unfolding write_loop
write_loop-IsTaken ws [] wire h = refl
write_loop-IsTaken [] (c ∷ buf) wire h = refl
write_loop-IsTaken (broken ∷ ws) (c ∷ buf) wire (x, h) = absurd x
write_loop-IsTaken (taken n ∷ ws) (c ∷ buf) wire (x, h) =
    write_loop-IsTaken ws (drop n (c ∷ buf)) (wire ++ take n (c ∷ buf)) h

-- Where no write fails, `sendPacket` puts on the wire the packet that `update` makes, whole,
-- whatever pieces the writes take.
pub send_packet-wire :
    (p : Packet) (s : Session)
    → All IsTaken s.writes
    → (left : List Write) × (send_packet p s
        ≡ done tt (record s { writes = left; wire = s.wire ++ (update p).vector }))
unfolding send_packet
send_packet-wire p s h =
    let sent = write_loop-IsTaken s.writes (update p).vector s.wire h in
    let w = write_loop_lem s.writes (update p).vector s.wire sent in
    ((write_loop s.writes (update p).vector s.wire).1, rw (sent, w))

-- A server that sends data, in pieces of any size.
abbrev pub IsGot : Read → Type 0
IsGot (got []) = ⊥
IsGot (got (c ∷ d)) = Unit
IsGot failed = ⊥

abbrev pub content : List Read → Bytes
content [] = []
content (got d ∷ inc) = d ++ content inc
content (failed ∷ inc) = content inc

IsGot-drop : (n : ℕ) (d : Bytes) → n < length d → IsGot (got (drop n d))
IsGot-drop zero [] h = absurd (omega arith)
IsGot-drop zero (c ∷ d) h = tt
IsGot-drop (suc n) [] h = absurd (omega arith)
IsGot-drop (suc n) (c ∷ d) h = IsGot-drop n d (omega arith)

-- The reads that `recvBuffer` leaves when it has returned `n` bytes.
abbrev Leaves : List Read → ℕ → List Read → Type 0
Leaves inc n rest = All IsGot rest × (content rest ≡ drop n (content inc))

read_loop-content :
    (inc : List Read) (n : ℕ) (buf : Bytes)
    → All IsGot inc
    → n ≤ length (content inc)
    → (rest : List Read) × (read_loop n inc buf ≡ (ok (buf ++ take n (content inc)), rest))
      × Leaves inc n rest
unfolding read_loop
read_loop-content inc zero buf g h = (inc, rw append-nil, (g, refl))
read_loop-content [] (suc n) buf g h = absurd (omega arith)
read_loop-content (failed ∷ inc) (suc n) buf (x, g) h = absurd x
read_loop-content (got [] ∷ inc) (suc n) buf (x, g) h = absurd x
read_loop-content (got (c ∷ d) ∷ inc) (suc n) buf (x, g) h =
    let m = suc n - length (c ∷ d) in
    elim (Bool-cases (leb (length (c ∷ d)) (suc n))) [
      | inl all ↦
          let short : length (c ∷ d) ≤ suc n = ground arith in
          let enough : m ≤ length (content inc) =
            omega (arith, length-append (c ∷ d) (content inc)) in
          let (rest, e, (gr, cr)) = read_loop-content inc m (buf ++ c ∷ d) g enough in
          let t = take_append_ge (suc n) (c ∷ d) (content inc) short in
          let u = drop_append_ge (suc n) (c ∷ d) (content inc) short in
          rw all
            (rest, e ∙ rw (append_assoc buf (c ∷ d) (take m (content inc)), t), (gr, cr ∙ sym u))
      | inr part ↦
          let long : suc n < length (c ∷ d) = ground arith in
          let t = take_append_le (suc n) (c ∷ d) (content inc) (omega arith) in
          let u = drop_append_le (suc n) (c ∷ d) (content inc) (omega arith) in
          rw part
            (got (drop (suc n) (c ∷ d)) ∷ inc, rw t, ((IsGot-drop (suc n) (c ∷ d) long, g), sym u))
    ]

-- `m` returns `a`, and takes `n` bytes off what the server sends; nothing else changes.
abbrev Takes : {A : Type 0} → M A → A → Session → ℕ → Type 0
Takes m a s n =
    (rest : List Read) × (m s ≡ done a (record s { incoming = rest })) × Leaves s.incoming n rest

recv_buffer-Takes :
    (n : ℕ) (s : Session)
    → All IsGot s.incoming
    → n ≤ length (content s.incoming)
    → Takes (recv_buffer n) (take n (content s.incoming)) s n
unfolding recv_buffer
recv_buffer-Takes n s g h =
    let (rest, e, l) = read_loop-content s.incoming n [] g h in (rest, rw (e, recv_buffer), l)

-- The size of a round's buffer.
round_bounds : (n : ℕ) → (1 ≤ min bufsiz (suc n)) × (min bufsiz (suc n) ≤ suc n)
round_bounds n = (omega arith, omega arith)

take_twice : (k m : ℕ) (c d : Bytes) → k ≤ m → d ≡ drop k c → take k c ++ take (m - k) d ≡ take m c
take_twice k m c d h e = let x : k + (m - k) ≡ m = omega arith in rw (e, take-add k (m - k) c, x)

drop_twice : (k m : ℕ) (c d : Bytes) → k ≤ m → d ≡ drop k c → drop (m - k) d ≡ drop m c
drop_twice k m c d h e = let x : k + (m - k) ≡ m = omega arith in rw (e, drop-drop k (m - k) c, x)

recv_loop-Takes :
    (f n : ℕ) (p : Packet) (s : Session)
    → n ≤ f
    → All IsGot s.incoming
    → n ≤ length (content s.incoming)
    → Takes (recv_loop f n p) (add_byte_vector (take n (content s.incoming)) p) s n
unfolding recv_loop
recv_loop-Takes zero zero p s h g e = (s.incoming, rw append-nil, (g, refl))
recv_loop-Takes zero (suc n) p s h g e = absurd (omega arith)
recv_loop-Takes (suc f) zero p s h g e = (s.incoming, rw append-nil, (g, refl))
recv_loop-Takes (suc f) (suc n) p s h g e =
    let k = min bufsiz (suc n) in
    let (low, high) = round_bounds n in
    let (rest1, e1, (g1, c1)) = recv_buffer-Takes k s g (omega arith) in
    let q = add_byte_vector (take k (content s.incoming)) p in
    let enough : suc n - k ≤ length (content rest1) =
      rw (c1, length-drop k (content s.incoming)) (omega arith) in
    let (rest2, e2, (g2, c2)) =
      recv_loop-Takes f (suc n - k) q (record s { incoming = rest1 }) (omega arith) g1 enough in
    (
      rest2,
      bind-done (recv_buffer k) (λ b. recv_loop f (suc n - k) (add_byte_vector b p)) e1
          ∙ e2
          ∙ rw (
            append_assoc p.vector (take k (content s.incoming)) (take (suc n - k) (content rest1)),
            take_twice k (suc n) (content s.incoming) (content rest1) high c1,
          ),
      (g2, c2 ∙ drop_twice k (suc n) (content s.incoming) (content rest1) high c1),
    )

-- A packet (its length in 32 bits) that the server sends without a failure, in pieces of any size
-- with anything behind it, is what `recvPacket` returns, with the reader behind the length; and
-- what is behind it is left.
pub recv_packet-content :
    (body rest : Bytes) (s : Session)
    → length body < 2 ^ 32
    → All IsGot s.incoming
    → content s.incoming ≡ be32 (length body) ++ body ++ rest
    → (left : List Read) × (recv_packet s
        ≡ done
            (record { vector = be32 (length body) ++ body; gpos = 4 })
            (record s { incoming = left }))
      × All IsGot left
      × (content left ≡ rest)
unfolding recv_packet advance
recv_packet-content body rest s b g e =
    let n = length body in
    let len = ap length e ∙ length-append (be32 n) (body ++ rest) in
    let (left1, e1, (g1, c1)) = recv_buffer-Takes 4 s g (rw len (omega arith)) in
    let head : take 4 (content s.incoming) ≡ be32 n = rw e in
    let s1 = record s { incoming = left1 } in
    let c1' : content left1 ≡ body ++ rest = c1 ∙ rw e in
    let enough : n ≤ length (content left1) = rw (c1', length-append body rest) (omega arith) in
    let start : Packet = record { vector = be32 n; gpos = 0 } in
    let (e2, _) = get_int32-be32 n start [] b refl in
    let (left2, e3, (g2, c2)) = recv_loop-Takes n n (advance 4 start) s1 (omega arith) g1 enough in
    let body_taken : take n (content left1) ≡ body = rw (c1') (take_append_length body rest) in
    (
      left2,
      bind-done (recv_buffer 4) _ e1
          ∙ rw (head, e2)
              (e3
                ∙ ap
                    (λ b.
                      done (add_byte_vector b (advance 4 start)) (record s { incoming = left2 }))
                    body_taken),
      g2,
      c2 ∙ rw (c1', drop_append_length body rest),
    )
