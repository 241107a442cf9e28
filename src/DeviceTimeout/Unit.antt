-- ===== src/DeviceTimeout/Unit.antt =====
-- `hex_escape` and `path_escape`: from a device's path to the name of its systemd unit.
use kdump.Prelude.{
  ℕ, ◌+◌, ◌-◌, ◌/◌, ◌%◌, ◌^◌, Bool, true, ◌||◌, not, [], ◌∷◌, ◌++◌, Bytes, codes, ltb, ◌==◌,
  if◌then◌else◌, isalpha, isdigit,
}

-- The argument is `unsigned`, and the result is cut to a `char`.
abbrev pub hex_digit : ℕ → ℕ
hex_digit d = (if ltb d 10 then d + b'0' else d - 10 + b'a') % 256

-- A `char` is signed: `(unsigned)c` of a byte from 128 on has its upper bits set.
abbrev pub to_unsigned : ℕ → ℕ
to_unsigned c = if ltb c 128 then c else 2 ^ 32 - 256 + c

unfoldable pub hex_escape : ℕ → Bytes
hex_escape c = 92 ∷ b'x' ∷ hex_digit (to_unsigned c / 16) ∷ hex_digit (to_unsigned c % 16) ∷ []

abbrev pub safe_unit_char : ℕ → Bool
safe_unit_char c = (isalpha c || isdigit c) || c == b':' || c == b'_' || c == b'.'

abbrev pub is_slash_next : Bytes → Bool
is_slash_next [] = true
is_slash_next (c ∷ s) = c == b'/'

-- The slashes that another slash or the end follows go.
unfoldable pub dedup : Bytes → Bytes
dedup [] = []
dedup (c ∷ s) = if not (c == b'/') || not (is_slash_next s) then c ∷ dedup s else dedup s

unfoldable pub escape_char : ℕ → Bytes
unfolding hex_escape
escape_char c =
    if c == b'/' then b'-' ∷ [] else if not (safe_unit_char c) then hex_escape c else c ∷ []

unfoldable pub escape_chars : Bytes → Bytes
unfolding escape_char
escape_chars [] = []
escape_chars (c ∷ s) = escape_char c ++ escape_chars s

-- `if (*src == '/') ++src;`
unfoldable pub skip_slash : Bytes → Bytes
skip_slash [] = []
skip_slash (c ∷ s) = if c == b'/' then s else c ∷ s

-- A '.' at the front is escaped.
unfoldable pub escape_front : Bytes → Bytes
unfolding escape_chars hex_escape
escape_front [] = []
escape_front (c ∷ s) = if c == b'.' then hex_escape c ++ escape_chars s else escape_chars (c ∷ s)

unfoldable pub path_escape : Bytes → Bytes
unfolding dedup skip_slash escape_front
path_escape path = elim (dedup path) [ [] ↦ codes "-" | c ∷ s ↦ escape_front (skip_slash (c ∷ s)) ]
