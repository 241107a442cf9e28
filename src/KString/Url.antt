-- ===== src/KString/Url.antt =====
-- `StringUtil::hex2int` and `KString::decodeURL`.
use kdump.Prelude.{
  ℕ, zero, suc, ◌+◌, ◌-◌, ◌*◌, ◌/◌, ◌%◌, ◌≤◌, ◌<◌, bit_or, Bool, true, false, ◌&&◌, [], ◌∷◌, ◌≡◌,
  refl, arith, Bytes, Result, ok, throw, ◌>>=◌, ltb, leb, ◌==◌, if◌then◌else◌, within, isxdigit,
  length, All, tested, tested_lem, ==_iff, Bool-cases, inl, inr, ◌≢◌,
}

pub data HexError : Type 0 where
  -- "StringUtil::hex2int: 'c' is not a hex digit"
  not_hex_digit : ℕ → HexError

unfoldable pub hex2int : ℕ → Result HexError ℕ
hex2int c =
    if within b'0' b'9' c
    then ok (c - b'0')
    else if within b'a' b'f' c
    then ok (c - b'a' + 10)
    else if within b'A' b'F' c
    then ok (c - b'A' + 10)
    else throw (not_hex_digit c)

-- `src[i]`: behind the last character stands the terminating zero.
abbrev pub char_at : Bytes → ℕ → ℕ
char_at [] i = 0
char_at (c ∷ s) zero = c
char_at (c ∷ s) (suc i) = char_at s i

-- The test for an escape at `src`, which is followed by `r`; `end() - src` is `length r + 1`.
abbrev is_escape : ℕ → Bytes → Bool
is_escape c r =
    c == b'%' && leb 2 (length r + 1) && isxdigit (char_at r 0) && isxdigit (char_at r 1)

-- `(hex2int(c1) << 4) | hex2int(c2)`, stored in a char
decode_byte : ℕ → ℕ → Result HexError ℕ
unfolding hex2int
decode_byte c1 c2 = do hi ← hex2int c1; lo ← hex2int c2; ok (bit_or (hi * 16) lo % 256)

-- The loop from `src`; the second argument is what `src` has still to skip.
decode_from : Bool → ℕ → Bytes → Result HexError Bytes
decode_from formenc skip [] = ok []
decode_from formenc (suc k) (c ∷ r) = decode_from formenc k r
decode_from formenc zero (c ∷ r) =
    let behind = decode_from formenc 2 r in
    let next = decode_from formenc 0 r in
    let byte = decode_byte (char_at r 0) (char_at r 1) in
    if is_escape c r
    then (byte >>= λ b. behind >>= λ rest. ok (b ∷ rest))
    else next >>= λ rest. ok ((if formenc && c == b'+' then b' ' else c) ∷ rest)

unfoldable pub decode_url : Bool → Bytes → Result HexError Bytes
unfolding decode_from decode_byte
decode_url formenc s = decode_from formenc 0 s

hex2int_total : (c : ℕ) → isxdigit c ≡ true → (n : ℕ) × (hex2int c ≡ ok n) × (n < 16)
unfolding hex2int
hex2int_total c h = elim (Bool-cases (within b'0' b'9' c)) [
  | inl d ↦ (c - b'0', ground arith, ground arith)
  | inr d ↦ elim (Bool-cases (within b'a' b'f' c)) [
    | inl l ↦ (c - b'a' + 10, ground arith, ground arith)
    | inr l ↦ (c - b'A' + 10, ground arith, ground arith)
  ]
]

-- An upper-case hexadecimal digit, as RFC 3986 has percent encoding.
abbrev pub hex_digit : ℕ → ℕ
hex_digit n = if ltb n 10 then b'0' + n else b'A' + (n - 10)

-- The encoding: the bytes that `safe` names stand for themselves, any other is "%XX".
abbrev pub percent_encode : (ℕ → Bool) → Bytes → Bytes
percent_encode safe [] = []
percent_encode safe (c ∷ s) =
    let rest = percent_encode safe s in
    if safe c then c ∷ rest else b'%' ∷ hex_digit (c / 16) ∷ hex_digit (c % 16) ∷ rest

abbrev is_ok : Result HexError ℕ → ℕ → Bool
is_ok (ok b) n = b == n
is_ok (throw e) n = false

abbrev decodes : ℕ → Bool
decodes c =
    isxdigit (hex_digit (c / 16))
    && (isxdigit (hex_digit (c % 16))
        && is_ok (decode_byte (hex_digit (c / 16)) (hex_digit (c % 16))) c)

and_eq : (a b : Bool) → (a && b) ≡ true → (a ≡ true) × (b ≡ true)
and_eq a b h = ground arith

is_ok_eq : (r : Result HexError ℕ) (n : ℕ) → is_ok r n ≡ true → r ≡ ok n
is_ok_eq (ok b) n h = ground (arith, (==_iff b n).0 h)
is_ok_eq (throw e) n h = cc

decode_table : tested decodes 256 ≡ true
unfolding tested decode_byte
decode_table = refl

decode_byte-hex_digit :
    (c : ℕ)
    → c < 256
    → (isxdigit (hex_digit (c / 16)) ≡ true)
      × (isxdigit (hex_digit (c % 16)) ≡ true)
      × (decode_byte (hex_digit (c / 16)) (hex_digit (c % 16)) ≡ ok c)
decode_byte-hex_digit c h =
    let found : decodes c ≡ true = tested_lem decodes 256 decode_table c h in
    let (hi, more) = and_eq _ _ found in
    let (lo, byte) = and_eq _ _ more in (hi, lo, is_ok_eq _ c byte)

decode_from_escape :
    (formenc : Bool) (a b n : ℕ) (r : Bytes)
    → isxdigit a ≡ true
    → isxdigit b ≡ true
    → decode_byte a b ≡ ok n
    → decode_from formenc 0 (b'%' ∷ a ∷ b ∷ r) ≡ (decode_from formenc 0 r >>= λ rest. ok (n ∷ rest))
unfolding decode_from
decode_from_escape formenc a b n r ha hb e = rw e (ground arith)

decode_from_plain :
    (c : ℕ) (r : Bytes)
    → c ≢ b'%'
    → decode_from false 0 (c ∷ r) ≡ (decode_from false 0 r >>= λ rest. ok (c ∷ rest))
unfolding decode_from
decode_from_plain c r h = ground arith

-- Decoding undoes percent encoding of any bytes, whichever of them the encoder leaves as they are,
-- if it does not leave '%'.
pub decode_url-percent_encode :
    (safe : ℕ → Bool) (s : Bytes)
    → safe b'%' ≡ false
    → All (λ c. c < 256) s
    → decode_url false (percent_encode safe s) ≡ ok s
unfolding decode_url
decode_url-percent_encode safe [] h bytes = refl
decode_url-percent_encode safe (c ∷ s) h (small, bytes) =
    let ih : decode_from false 0 (percent_encode safe s) ≡ ok s =
      decode_url-percent_encode safe s h bytes in
    let (hi, lo, byte) = decode_byte-hex_digit c small in
    elim (Bool-cases (safe c)) [
      | inl plain ↦
          rw (plain, decode_from_plain c (percent_encode safe s) (λ e. cc (rw e at plain)), ih)
      | inr coded ↦ rw (
        coded,
        decode_from_escape false (hex_digit (c / 16)) (hex_digit (c % 16)) c (percent_encode safe s)
            hi lo byte,
        ih,
      )
    ]

decode_byte_total :
    (a b : ℕ)
    → isxdigit a ≡ true
    → isxdigit b ≡ true
    → (n : ℕ) × (decode_byte a b ≡ ok n) × (n < 256)
unfolding decode_byte
decode_byte_total a b ha hb =
    let (hi, e, _) = hex2int_total a ha in
    let (lo, f, _) = hex2int_total b hb in (bit_or (hi * 16) lo % 256, rw (e, f), omega arith)

decode_from_total :
    (formenc : Bool) (skip : ℕ) (s : Bytes)
    → (t : Bytes) × (decode_from formenc skip s ≡ ok t) × (length t ≤ length s - skip)
unfolding decode_from
decode_from_total formenc skip [] = ([], refl, omega arith)
decode_from_total formenc (suc k) (c ∷ r) =
    let (t, e, l) = decode_from_total formenc k r in (t, e, omega arith)
decode_from_total formenc zero (c ∷ r) =
    let (t, e, l) = decode_from_total formenc 2 r in
    let (u, f, m) = decode_from_total formenc 0 r in
    elim (Bool-cases (is_escape c r)) [
      | inl escaped ↦
          let (n, byte, _) =
            decode_byte_total (char_at r 0) (char_at r 1) (ground arith) (ground arith) in
          (n ∷ t, rw (escaped, byte, e), omega arith)
      | inr plain ↦ ((if formenc && c == b'+' then b' ' else c) ∷ u, rw (plain, f), omega arith)
    ]

-- Decoding raises no exception, and its result is no longer than the string, so that the
-- writes in place stay behind the reads.
pub decode_url_total :
    (formenc : Bool) (s : Bytes)
    → (t : Bytes) × (decode_url formenc s ≡ ok t) × (length t ≤ length s)
unfolding decode_url
decode_url_total formenc s = let (t, e, l) = decode_from_total formenc 0 s in (t, e, omega arith)

-- A byte that begins no escape is copied.
pub decode_url-cons :
    (c : ℕ) (r : Bytes)
    → c ≢ b'%'
    → decode_url false (c ∷ r) ≡ (decode_url false r >>= λ rest. ok (c ∷ rest))
unfolding decode_url
decode_url-cons c r h = decode_from_plain c r h

-- What holds of '%', of the hexadecimal digits and of the bytes that the encoder leaves as they
-- are holds of every byte of an encoded text.
pub percent_encode-All :
    (bad safe : ℕ → Bool) (s : Bytes)
    → ((c : ℕ) → safe c ≡ true → bad c ≡ false)
    → bad b'%' ≡ false
    → ((c : ℕ) → isxdigit c ≡ true → bad c ≡ false)
    → All (λ c. c < 256) s
    → All (λ c. bad c ≡ false) (percent_encode safe s)
percent_encode-All bad safe [] good mark hex h = tt
percent_encode-All bad safe (c ∷ s) good mark hex (small, h) =
    let rest = percent_encode-All bad safe s good mark hex h in
    let (hi, lo, _) = decode_byte-hex_digit c small in
    elim (Bool-cases (safe c)) [
      | inl plain ↦ rw plain (good c plain, rest)
      | inr coded ↦
          rw coded (mark, (hex (hex_digit (c / 16)) hi, (hex (hex_digit (c % 16)) lo, rest)))
    ]
