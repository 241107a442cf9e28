-- ===== src/DeviceTimeout/UnitName.antt =====
-- Names of systemd units for paths, and a reader of such names, written from systemd's rules.
use kdump.Prelude.{
  ℕ, zero, suc, ◌+◌, ◌-◌, ◌*◌, ◌≤◌, ◌<◌, Bool, true, false, ◌&&◌, ◌||◌, not, [], ◌∷◌, ◌++◌, ◌≡◌,
  refl, ap, ◌∙◌, arith, Bytes, ltb, ◌==◌, if◌then◌else◌, isdigit, isxdigit, tested, tested_lem, All,
  All-append,
}
use kdump.DeviceTimeout.Unit.{
  hex_escape, safe_unit_char, dedup, escape_char, escape_chars, escape_front, path_escape,
  skip_slash, is_slash_next,
}

hex_value : ℕ → ℕ
hex_value c = if isdigit c then c - b'0' else c - b'a' + 10

-- The two digits of an escape whose '\' has been passed.
hex_pair : Bytes → ℕ
unfolding hex_value
hex_pair (x ∷ high ∷ low ∷ s) = hex_value high * 16 + hex_value low
hex_pair _ = 0

-- '-' stands for '/', and `\xHH` for a byte; `skip` bytes of an escape are still to be passed.
pub read_name : ℕ → Bytes → Bytes
unfolding hex_pair
read_name skip [] = []
read_name (suc skip) (c ∷ s) = read_name skip s
read_name zero (c ∷ s) =
    (if c == b'-' then b'/' else if c == 92 then hex_pair s else c)
    ∷ read_name (if c == 92 then 3 else 0) s

-- What a unit's name may hold, '/' not among it.
abbrev pub UnitChar : ℕ → Type 0
UnitChar c = (safe_unit_char c || c == b'-' || c == 92) ≡ true

abbrev pub IsAscii : ℕ → Type 0
IsAscii c = c < 128

escape_reads : ℕ → Bool
unfolding hex_escape hex_pair
escape_reads c = elim (hex_escape c) [ [] ↦ false | b ∷ s ↦ hex_pair s == c ]

escape_is_safe : ℕ → Bool
unfolding hex_escape
escape_is_safe c = elim (hex_escape c) [
  | b ∷ x ∷ high ∷ low ∷ [] ↦ safe_unit_char x && safe_unit_char high && safe_unit_char low
  | _ ↦ false
]

escape_table : tested (λ c. escape_reads c && escape_is_safe c) 128 ≡ true
unfolding tested escape_reads escape_is_safe hex_value
escape_table = refl

escape_holds : (c : ℕ) → IsAscii c → (escape_reads c && escape_is_safe c) ≡ true
escape_holds c h = tested_lem (λ c. escape_reads c && escape_is_safe c) 128 escape_table c h

read_name-hex_escape :
    (c : ℕ) (s : Bytes) → IsAscii c → read_name 0 (hex_escape c ++ s) ≡ c ∷ read_name 0 s
unfolding read_name escape_reads hex_escape hex_pair
read_name-hex_escape c s h = ground (arith, escape_holds c h)

hex_escape-UnitChar : (c : ℕ) → IsAscii c → All UnitChar (hex_escape c)
unfolding escape_is_safe hex_escape
hex_escape-UnitChar c h = ground (arith, escape_holds c h)

read_name-escape_char :
    (c : ℕ) (s : Bytes) → IsAscii c → read_name 0 (escape_char c ++ s) ≡ c ∷ read_name 0 s
unfolding read_name escape_char
read_name-escape_char c s h = ground (arith, read_name-hex_escape c s h)

escape_char-UnitChar : (c : ℕ) → IsAscii c → All UnitChar (escape_char c)
unfolding escape_char
escape_char-UnitChar c h = ground (arith, hex_escape-UnitChar c h)

read_name-escape_chars : (p : Bytes) → All IsAscii p → read_name 0 (escape_chars p) ≡ p
unfolding escape_chars
read_name-escape_chars [] h = unfold read_name in refl
read_name-escape_chars (c ∷ p) h =
    read_name-escape_char c (escape_chars p) h.0 ∙ ap (◌∷◌ c) (read_name-escape_chars p h.1)

escape_chars-UnitChar : (p : Bytes) → All IsAscii p → All UnitChar (escape_chars p)
unfolding escape_chars
escape_chars-UnitChar [] h = tt
escape_chars-UnitChar (c ∷ p) h =
    All-append UnitChar (escape_char c) (escape_chars p) (escape_char-UnitChar c h.0)
      (escape_chars-UnitChar p h.1)

-- No slash follows a slash, and none is last.
abbrev pub IsClean : Bytes → Type 0
IsClean [] = Unit
IsClean (c ∷ p) = ((not (c == b'/') || not (is_slash_next p)) ≡ true) × IsClean p

dedup-IsClean_self : (p : Bytes) → IsClean p → dedup p ≡ p
unfolding dedup
dedup-IsClean_self [] h = refl
dedup-IsClean_self (c ∷ p) h = rw h.0 (ap (◌∷◌ c) (dedup-IsClean_self p h.1))

escape_front_lem :
    (p : Bytes) → All IsAscii p → (read_name 0 (escape_front p) ≡ p) × All UnitChar (escape_front p)
unfolding escape_front
escape_front_lem [] h = (unfold read_name in refl, tt)
escape_front_lem (c ∷ p) h =
    elim (c == b'.')
      as (λ dot.
        let name = if dot then hex_escape c ++ escape_chars p else escape_chars (c ∷ p) in
        (read_name 0 name ≡ c ∷ p) × All UnitChar name) [
          | true ↦ (
            read_name-hex_escape c (escape_chars p) h.0 ∙ ap (◌∷◌ c) (read_name-escape_chars p h.1),
            All-append UnitChar (hex_escape c) (escape_chars p) (hex_escape-UnitChar c h.0)
                (escape_chars-UnitChar p h.1),
          )
          | false ↦ (read_name-escape_chars (c ∷ p) h, escape_chars-UnitChar (c ∷ p) h)
        ]

-- The name that `path_escape` makes of an absolute path (of ASCII characters, and without a slash
-- that another or the end follows) holds no character but those of unit names, no '/' among them,
-- and is read back as the path behind its first slash.
pub read_name-path_escape :
    (p : Bytes)
    → All IsAscii p
    → IsClean (b'/' ∷ p)
    → (read_name 0 (path_escape (b'/' ∷ p)) ≡ p) × All UnitChar (path_escape (b'/' ∷ p))
unfolding path_escape skip_slash
read_name-path_escape p h clean =
    rw (path_escape, dedup-IsClean_self (b'/' ∷ p) clean) (escape_front_lem p h)

escape_misreads : ℕ → Bool
unfolding hex_escape
escape_misreads c = elim (hex_escape c) [
  | b ∷ x ∷ high ∷ rest ↦ ltb c 128 || not (isxdigit high)
  | _ ↦ false
]

misread_table : tested escape_misreads 256 ≡ true
unfolding tested escape_misreads
misread_table = refl

abbrev pub third : Bytes → ℕ
third (b ∷ x ∷ high ∷ rest) = high
third _ = 0

-- The escape of a byte from 128 on has no hexadecimal digit where the first one has to stand.
pub hex_escape-misreads : (c : ℕ) → 128 ≤ c → c < 256 → isxdigit (third (hex_escape c)) ≡ false
unfolding hex_escape escape_misreads
hex_escape-misreads c low high = ground (arith, tested_lem escape_misreads 256 misread_table c high)
