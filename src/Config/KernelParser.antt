-- ===== src/Config/KernelParser.antt =====
-- `ConfigParser`'s variables and `KernelConfigParser::parse`. The file is the list of its bytes.
use kdump.Prelude.{
  is_empty, ℕ, zero, suc, ◌+◌, ◌-◌, ◌*◌, ◌%◌, Bool, true, false, not, ◌&&◌, ◌||◌, List, [], ◌∷◌,
  ◌++◌, Option, none, some, Bytes, Result, ok, throw, ◌==◌, leb, if◌then◌else◌,
}
use kdump.Prelude.Dict.{lookup, insert}
use kdump.Quote.Kernel.{is_kernel_space}

abbrev pub Variables : Type 0
Variables = List (Bytes × Bytes)

pub data ConfigError : Type 0 where
  -- "Variable … does not exist."
  no_variable : Bytes → ConfigError
  -- "Cannot open config file …"
  cannot_open : Bytes → ConfigError

unfoldable pub add_variable : Bytes → Bytes → Variables → Variables
unfolding insert
add_variable name defvalue m = insert name defvalue m

unfoldable pub get_value : Bytes → Variables → Result ConfigError Bytes
unfolding lookup
get_value name m = elim (lookup name m) [ none ↦ throw (no_variable name) | some v ↦ ok v ]

-- `outp` points to `value` where `in_value` holds, and to `name` elsewhere.
pub record Reader : Type 0 where
  pub name : Bytes
  pub value : Bytes
  pub in_value : Bool
  pub inquote : Bool
  pub variables : Variables

abbrev pub push : Bytes → Reader → Reader
push s p = if p.in_value then record p { value = p.value ++ s } else record p { name = p.name ++ s }

-- At the end of an assignment; with no name the state stays as it is.
store : Reader → Reader
store p = if is_empty p.name then p else record p {
  name = [];
  value = [];
  in_value = false;
  variables = insert p.name p.value p.variables;
}

abbrev is_octal : ℕ → Bool
is_octal c = leb b'0' c && leb c b'7'

-- The octal digits that the loop `for (i = 0; i < 3; ++i)` reads.
octal_digits : ℕ → Bytes → Bytes
octal_digits zero r = []
octal_digits (suc i) [] = []
octal_digits (suc i) (c ∷ r) = let more = octal_digits i r in if is_octal c then c ∷ more else []

-- Three digits make a char; fewer stand for themselves behind the backslash.
octal_byte : Bytes → Bytes
octal_byte (a ∷ b ∷ c ∷ []) = ((a - b'0') * 64 + (b - b'0') * 8 + (c - b'0')) % 256 ∷ []
octal_byte seq = b'\\' ∷ seq

abbrev count : Bytes → ℕ
count [] = 0
count (c ∷ s) = suc (count s)

-- Behind a backslash; the number is how many bytes of `r` are taken.
escape : Reader → Bytes → Reader × ℕ
unfolding octal_digits octal_byte
escape p (c ∷ r) =
    let seq = octal_digits 3 (c ∷ r) in
    if c == b'\\' then (push (b'\\' ∷ []) p, 1) else (push (octal_byte seq) p, count seq)
escape p [] = (push (octal_byte []) p, 0)

-- One round of the loop, at `c` with `r` unread.
unfoldable pub step : Reader → ℕ → Bytes → Reader × ℕ
unfolding store escape is_kernel_space
step p c r =
    if c == b'"'
    then (record p { inquote = not p.inquote }, 0)
    else if c == b'=' && not p.in_value
    then (record p { in_value = true }, 0)
    else if is_kernel_space c && not p.inquote || is_empty r
    then (store p, 0)
    else if c == b'\\'
    then escape p r
    else (push (c ∷ []) p, 0)

-- The loop; the second argument is how many bytes have been taken already.
unfoldable pub parse_from : Reader → ℕ → Bytes → Reader
unfolding step
parse_from p skip [] = p
parse_from p (suc k) (c ∷ r) = parse_from p k r
parse_from p zero (c ∷ r) = let (p', k) = step p c r in parse_from p' k r

abbrev pub start : Variables → Reader
start m = record { name = []; value = []; in_value = false; inquote = false; variables = m }

unfoldable pub parse_text : Variables → Bytes → Variables
unfolding parse_from
parse_text m s = (parse_from (start m) 0 s).variables

-- `parse` on the file's content, which is `none` if the file cannot be opened.
unfoldable pub parse : Bytes → Option Bytes → Variables → Result ConfigError Variables
unfolding parse_text
parse file none m = throw (cannot_open file)
parse file (some s) m = ok (parse_text m s)
