-- ===== src/Kconfig/Value.antt =====
-- `KconfigValue` and the reading of a configuration's lines, in kconfig.cc.
use kdump.Prelude.{
  ℕ, zero, suc, ◌+◌, Bool, true, false, not, ◌&&◌, ◌||◌, List, [], ◌∷◌, ◌++◌, Option, none, some,
  Bytes, codes, Result, ok, throw, ◌>>=◌, ◌==◌, leb, if◌then◌else◌, isalpha, length, take, drop,
  equal, last_byte, erase_last,
}
use kdump.Prelude.Int.{ℤ}
use kdump.Prelude.Dict.{lookup, insert}
use kdump.KString.Search.{find, starts_with}
use kdump.KString.Trim.{trim}
use kdump.KString.Number.{is_number, as_int, number2string}

pub data Tristate : Type 0 where
  on off module_ : Tristate

pub data KconfigValue : Type 0 where
  invalid : KconfigValue
  tristate : Tristate → KconfigValue
  integer : ℤ → KconfigValue
  string : Bytes → KconfigValue

pub data KconfigError : Type 0 where
  -- "Invalid line", and "There must be at least one character after ="
  invalid_line no_value : KconfigError
  -- The value that is one quote: the source reads the byte at index -1.
  undefined_read : KconfigError

-- s.find(part) != npos
unfoldable pub holds : Bytes → Bytes → Bool
holds part [] = starts_with [] part
holds part (c ∷ s) = starts_with (c ∷ s) part || holds part s

-- str[i]: the byte behind the last is the terminator.
unfoldable pub at : ℕ → Bytes → ℕ
at n [] = 0
at zero (c ∷ s) = c
at (suc n) (c ∷ s) = at n s

-- `"is not set" or comment`. `name` is what the caller's variable holds before.
unfoldable pub from_comment : Bytes → Bytes → Result KconfigError (KconfigValue × Bytes)
from_comment name str =
    if not (holds (codes "is not set") str)
    then ok (invalid, name)
    else if not (at 1 str == b' ' && isalpha (at 2 str))
    then throw invalid_line
    else elim (find (drop 2 str) b' ') [
      | none ↦ ok (tristate off, drop 2 str)
      | some zero ↦ throw invalid_line
      | some (suc n) ↦ ok (tristate off, take (suc n) (drop 2 str))
    ]

-- One quote less at each end. The value is not empty.
unfoldable pub unquote : Bytes → Bytes
unquote value =
    let inner = if at 0 value == b'"' then drop 1 value else value in
    if last_byte inner == b'"' then erase_last inner else inner

-- A number is not blank, so that `asInt` has a result.
abbrev pub from_number : Option ℤ → Result KconfigError KconfigValue
from_number none = throw undefined_read
from_number (some n) = ok (integer n)

unfoldable pub from_value : Bytes → Result KconfigError KconfigValue
from_value value =
    if equal value (b'y' ∷ [])
    then ok (tristate on)
    else if equal value (b'm' ∷ [])
    then ok (tristate module_)
    else if is_number value
    then from_number (as_int value)
    else if equal value (b'"' ∷ [])
    then throw undefined_read
    else ok (string (unquote value))

unfoldable pub from_pair : Bytes → Result KconfigError (KconfigValue × Bytes)
from_pair str = elim (find str b'=') [
  | none ↦ throw invalid_line
  | some n ↦
      let value = drop (suc n) str in
      if leb (length str) (n + 1)
      then throw no_value
      else (from_value value >>= λ v. ok (v, take n str))
]

-- The value and the name that `fromString` leaves behind.
unfoldable pub from_string : Bytes → Bytes → Result KconfigError (KconfigValue × Bytes)
from_string name line =
    let str = trim (b'\n' ∷ []) line in
    elim str [
      | [] ↦ ok (invalid, name)
      | c ∷ s ↦ if c == b'#' then from_comment name (c ∷ s) else from_pair (c ∷ s)
    ]

unfoldable pub tristate_text : Tristate → Bytes
tristate_text on = codes "y"
tristate_text off = codes "n"
tristate_text module_ = codes "m"

unfoldable pub to_string : KconfigValue → Bytes
to_string (integer n) = codes "[int] " ++ number2string n
to_string invalid = codes "[invalid]"
to_string (string s) = codes "[string] " ++ s
to_string (tristate t) = codes "[tristate] " ++ tristate_text t

abbrev pub is_invalid : KconfigValue → Bool
is_invalid invalid = true
is_invalid _ = false

-- m_configs
abbrev pub Configs : Type 0
Configs = List (Bytes × KconfigValue)

unfoldable pub add_line : Configs → Bytes → Result KconfigError Configs
add_line configs line = do
  (value, name) ← from_string [] line
  ok (if is_invalid value then configs else insert name value configs)

-- The loop over the lines, of a file or of what the kernel tool extracts. Where a line throws, what
-- the map holds by then is not kept here.
unfoldable pub read_lines : Configs → List Bytes → Result KconfigError Configs
read_lines configs [] = ok configs
read_lines configs (line ∷ lines) = add_line configs line >>= λ next. read_lines next lines

-- `m_configs[option]`: a missing option is an invalid value, which the map then holds.
unfoldable pub get : Bytes → Configs → KconfigValue × Configs
get option configs = elim (lookup option configs) [
  | none ↦ (invalid, insert option invalid configs)
  | some value ↦ (value, configs)
]
