-- ===== src/Sftp/Coding.antt =====
-- Packets of the SFTP client: what is added to one, and the reading of it.
use kdump.Prelude.{
  ℕ, true, zero, suc, ◌+◌, ◌-◌, ◌*◌, ◌/◌, ◌%◌, ◌^◌, ◌<◌, ◌≤◌, [], ◌∷◌, ◌++◌, append_assoc, ◌≡◌,
  refl, sym, ◌∙◌, ap, some, arith, Bytes, ok, leb, length, get_elem?, take, drop,
  drop_append_length, length-append,
}
use kdump.Prelude.Bits.{bit_or-byte}
use kdump.Sftp.Packet.{
  Packet, add_int32, add_int64, add_string, get_byte, get_loop, get_int32, get_int64, get_string,
  update,
}

-- Network byte order.
abbrev pub be32 : ℕ → Bytes
be32 v = v / 2 ^ 24 % 256 ∷ v / 2 ^ 16 % 256 ∷ v / 2 ^ 8 % 256 ∷ v % 256 ∷ []

abbrev pub be64 : ℕ → Bytes
be64 v = be32 (v / 2 ^ 32) ++ be32 v

-- What has not been read yet.
abbrev pub unread : Packet → Bytes
unread p = drop p.gpos p.vector

unfoldable pub advance : ℕ → Packet → Packet
advance n p = record p { gpos = p.gpos + n }

pub vector-add_int32 : (v : ℕ) (p : Packet) → (add_int32 v p).vector ≡ p.vector ++ be32 v
unfolding add_int32
vector-add_int32 v p = let e : v / 1 ≡ v = omega arith in simp (append_assoc, e)

drop_next :
    (v : Bytes) (g x : ℕ) (r : Bytes)
    → drop g v ≡ x ∷ r
    → (get_elem? v g ≡ some x) × (drop (g + 1) v ≡ r)
drop_next [] zero x r h = cc
drop_next [] (suc g) x r h = cc
drop_next (y ∷ v) zero x r h = (cc, cc)
drop_next (y ∷ v) (suc g) x r h =
    let (found, rest) = drop_next v g x r h in
    let e : suc g + 1 ≡ suc (g + 1) = omega arith in (found, rw e rest)

get_byte-unread :
    (p : Packet) (x : ℕ) (r : Bytes)
    → unread p ≡ x ∷ r
    → (get_byte p ≡ ok (x, advance 1 p)) × (unread (advance 1 p) ≡ r)
unfolding get_byte advance
get_byte-unread p x r h =
    let (found, rest) = drop_next p.vector p.gpos x r h in (rw (found, get_byte), rest)

-- One round: the next byte is appended to what has been read, as long as 64 bits hold it.
get_loop_round :
    (i ret x : ℕ) (p : Packet) (r : Bytes)
    → unread p ≡ x ∷ r
    → x < 256
    → ret < 2 ^ 56
    → get_loop (suc i) ret p ≡ get_loop i (ret * 256 + x) (advance 1 p)
unfolding get_loop
get_loop_round i ret x p r h small fits =
    let m : ret * 256 % 2 ^ 64 ≡ ret * 256 = omega arith in
    rw ((get_byte-unread p x r h).0) (rw (m, bit_or-byte ret x small))

advance_four : (p : Packet) → advance 1 (advance 1 (advance 1 (advance 1 p))) ≡ advance 4 p
unfolding advance
advance_four p = ground arith

-- Four bytes that stand next are read as the number that they spell.
get_four :
    (i ret a b c d : ℕ) (p : Packet) (r : Bytes)
    → unread p ≡ a ∷ b ∷ c ∷ d ∷ r
    → a < 256
    → b < 256
    → c < 256
    → d < 256
    → ret < 2 ^ 32
    → (get_loop (suc (suc (suc (suc i)))) ret p
        ≡ get_loop i ((((ret * 256 + a) * 256 + b) * 256 + c) * 256 + d) (advance 4 p))
      × (unread (advance 4 p) ≡ r)
get_four i ret a b c d p r h ha hb hc hd fits =
    let h1 = (get_byte-unread p a _ h).1 in
    let h2 = (get_byte-unread (advance 1 p) b _ h1).1 in
    let h3 = (get_byte-unread (advance 1 (advance 1 p)) c _ h2).1 in
    let h4 = (get_byte-unread (advance 1 (advance 1 (advance 1 p))) d _ h3).1 in
    let four : advance 1 (advance 1 (advance 1 (advance 1 p))) ≡ advance 4 p = advance_four p in
    (
      get_loop_round _ ret a p _ h ha (omega arith)
          ∙ get_loop_round _ _ b (advance 1 p) _ h1 hb (omega arith)
          ∙ get_loop_round _ _ c (advance 1 (advance 1 p)) _ h2 hc (omega arith)
          ∙ get_loop_round _ _ d (advance 1 (advance 1 (advance 1 p))) _ h3 hd (omega arith)
          ∙ ap (get_loop i _) four,
      rw four at h4,
    )

be32_value :
    (v : ℕ)
    → v < 2 ^ 32
    → ((v / 2 ^ 24 % 256 * 256 + v / 2 ^ 16 % 256) * 256 + v / 2 ^ 8 % 256) * 256 + v % 256 ≡ v
be32_value v h = omega arith

pub get_int32-be32 :
    (v : ℕ) (p : Packet) (r : Bytes)
    → v < 2 ^ 32
    → unread p ≡ be32 v ++ r
    → (get_int32 p ≡ ok (v, advance 4 p)) × (unread (advance 4 p) ≡ r)
unfolding get_int32
get_int32-be32 v p r fits h =
    let (e, rest) =
      get_four 0 0 _ _ _ _ p r h (omega arith) (omega arith) (omega arith) (omega arith)
        (omega arith) in
    (e ∙ ap (λ t. get_loop 0 t (advance 4 p)) (omega arith), rest)

get_int64-be64 :
    (v : ℕ) (p : Packet) (r : Bytes)
    → v < 2 ^ 64
    → unread p ≡ be64 v ++ r
    → get_int64 p ≡ ok (v, advance 4 (advance 4 p))
unfolding get_int64
get_int64-be64 v p r fits h =
    let (e, rest) =
      get_four 4 0 _ _ _ _ p (be32 v ++ r) h (omega arith) (omega arith) (omega arith) (omega arith)
        (omega arith) in
    let (f, last) =
      get_four 0 (v / 2 ^ 32) _ _ _ _ (advance 4 p) r rest (omega arith) (omega arith) (omega arith)
        (omega arith) (omega arith) in
    let top : (((0 * 256 + v / 2 ^ 32 / 2 ^ 24 % 256) * 256 + v / 2 ^ 32 / 2 ^ 16 % 256) * 256
              + v / 2 ^ 32 / 2 ^ 8 % 256)
            * 256
          + v / 2 ^ 32 % 256
        ≡ v / 2 ^ 32 =
      omega arith in
    e
    ∙ ap (λ t. get_loop 4 t (advance 4 p)) top
    ∙ f
    ∙ ap (λ t. get_loop 0 t (advance 4 (advance 4 p))) (omega arith)

pub vector-add_int64 : (v : ℕ) (p : Packet) → (add_int64 v p).vector ≡ p.vector ++ be64 v
unfolding add_int64
vector-add_int64 v p =
    let e0 : v / 1 ≡ v = omega arith in
    let e1 : v / 2 ^ 32 / 2 ^ 8 ≡ v / 2 ^ 40 = omega arith in
    let e2 : v / 2 ^ 32 / 2 ^ 16 ≡ v / 2 ^ 48 = omega arith in
    let e3 : v / 2 ^ 32 / 2 ^ 24 ≡ v / 2 ^ 56 = omega arith in simp (append_assoc, e0, e1, e2, e3)

-- The reader stands at the end of the packet.
abbrev pub IsRead : Packet → Type 0
IsRead p = p.gpos ≡ length p.vector

unread_added :
    (p q : Packet) (s : Bytes)
    → IsRead p
    → q.gpos ≡ p.gpos
    → q.vector ≡ p.vector ++ s
    → unread q ≡ s
unread_added p q s h g v = rw (v, g, h) (drop_append_length p.vector s)

be32_mod : (v : ℕ) → be32 (v % 2 ^ 32) ≡ be32 v
be32_mod v =
    let e0 : v % 2 ^ 32 % 256 ≡ v % 256 = omega arith in
    let e1 : v % 2 ^ 32 / 2 ^ 8 % 256 ≡ v / 2 ^ 8 % 256 = omega arith in
    let e2 : v % 2 ^ 32 / 2 ^ 16 % 256 ≡ v / 2 ^ 16 % 256 = omega arith in
    let e3 : v % 2 ^ 32 / 2 ^ 24 % 256 ≡ v / 2 ^ 24 % 256 = omega arith in rw (e0, e1, e2, e3)

unread-add_int32 :
    (v : ℕ) (p : Packet) → IsRead p → unread (add_int32 v p) ≡ be32 (v % 2 ^ 32) ++ []
unread-add_int32 v p h =
    unread_added p (add_int32 v p) (be32 v) h (unfold add_int32 in refl) (vector-add_int32 v p)
    ∙ sym (be32_mod v)

unread-add_int64 : (v : ℕ) (p : Packet) → IsRead p → unread (add_int64 v p) ≡ be64 v ++ []
unread-add_int64 v p h =
    unread_added p (add_int64 v p) (be64 v) h (unfold add_int64 in refl) (vector-add_int64 v p)

advance_twice : (p : Packet) → advance 4 (advance 4 p) ≡ advance 8 p
unfolding advance
advance_twice p = ground arith

-- An integer that is added behind what has been read is the next one read: 32-bit integers
-- modulo 2^32, 64-bit integers below 2^64 as they are.
pub get_int-add_int :
    (v w : ℕ) (p : Packet)
    → IsRead p
    → w < 2 ^ 64
    → (get_int32 (add_int32 v p) ≡ ok (v % 2 ^ 32, advance 4 (add_int32 v p)))
      × (get_int64 (add_int64 w p) ≡ ok (w, advance 8 (add_int64 w p)))
get_int-add_int v w p h fits = (
  (get_int32-be32 (v % 2 ^ 32) (add_int32 v p) [] (omega arith) (unread-add_int32 v p h)).0,
  get_int64-be64 w (add_int64 w p) [] fits (unread-add_int64 w p h)
      ∙ rw (advance_twice (add_int64 w p)),
)

pub vector-add_string :
    (s : Bytes) (p : Packet) → (add_string s p).vector ≡ p.vector ++ (be32 (length s) ++ s)
unfolding add_string
vector-add_string s p =
    rw (vector-add_int32 (length s) p) (append_assoc p.vector (be32 (length s)) s)

take_whole : (s : Bytes) → take (length s) s ≡ s
take_whole [] = refl
take_whole (c ∷ s) = ap (◌∷◌ c) (take_whole s)

get_string_whole :
    (s : Bytes) (p q : Packet)
    → get_int32 p ≡ ok (length s, q)
    → q.gpos + length s ≤ length q.vector
    → unread q ≡ s
    → get_string p ≡ ok (s, q)
unfolding get_string
get_string_whole s p q e fits rest =
    let inside : leb (q.gpos + length s) (length q.vector) ≡ true = ground arith in
    rw (e, get_string) (rw inside (rw rest (rw (take_whole s))))

-- A string (its length in 32 bits) that is added behind what has been read is the next one read.
-- The reader then stands in front of the string's bytes, not behind them: `getString` reads the
-- length only past.
pub get_string-add_string :
    (s : Bytes) (p : Packet)
    → IsRead p
    → length s < 2 ^ 32
    → (get_string (add_string s p) ≡ ok (s, advance 4 (add_string s p)))
      × (unread (advance 4 (add_string s p)) ≡ s)
get_string-add_string s p h fits =
    let q = add_string s p in
    let v = vector-add_string s p in
    let g : q.gpos ≡ p.gpos = unfold add_string add_int32 in refl in
    let (e, rest) =
      get_int32-be32 (length s) q s fits (unread_added p q (be32 (length s) ++ s) h g v) in
    let fits_in : (advance 4 q).gpos + length s ≤ length (advance 4 q).vector =
      unfold advance in omega (arith, ap length v, length-append p.vector (be32 (length s) ++ s)) in
    (get_string_whole s q (advance 4 q) e fits_in rest, rest)

-- For a packet of at least four bytes, `update` writes over the first four the length of what
-- stands behind them, and keeps that.
pub update_lem :
    (body : Bytes) (p : Packet) (a b c d : ℕ)
    → p.vector ≡ a ∷ b ∷ c ∷ d ∷ body
    → (update p).vector ≡ be32 (length body) ++ body
unfolding update
update_lem body p a b c d h =
    let e : length (a ∷ b ∷ c ∷ d ∷ body) - 4 ≡ length body = omega arith in rw (h, e)
