-- ===== src/DeviceTimeout/Args.antt =====
-- The command line's arguments: `get_arg`, `parse_args` and `get_timeout`.
use kdump.Prelude.{
  ℕ, zero, suc, ◌+◌, ◌-◌, ◌*◌, Bool, true, false, ◌&&◌, ◌||◌, not, [], ◌∷◌, ◌++◌, Option, none,
  some, Bytes, codes, ltb, leb, ◌==◌, if◌then◌else◌, length, drop, isspace, isdigit, isxdigit,
  within, equal, last_byte, erase_last, is_empty,
}

-- The C string at a pointer: what stands before the first NUL.
unfoldable pub cstr : Bytes → Bytes
cstr [] = []
cstr (c ∷ s) = if c == 0 then [] else c ∷ cstr s

unfoldable pub skipws : Bytes → Bytes
skipws [] = []
skipws (c ∷ s) = if isspace c then skipws s else c ∷ s

-- What the loop of `get_arg` passes: the argument, with NUL for its first '='; the offset behind
-- that; and the rest of the line.
pub record Arg : Type 0 where
  pub text : Bytes
  pub val : Option ℕ
  pub rest : Bytes

abbrev pub is_some : Option ℕ → Bool
is_some none = false
is_some (some n) = true

unfoldable pub arg_loop : Bool → Option ℕ → Bytes → Bytes → Arg
arg_loop inquote val text [] = record { text = text; val = val; rest = [] }
arg_loop inquote val text (c ∷ s) =
    let divides = not (c == b'"') && c == b'=' && not (is_some val) in
    if inquote || not (isspace c)
    then arg_loop (if c == b'"' then not inquote else inquote)
        (if divides then some (suc (length text)) else val)
        (text ++ (if divides then 0 else c) ∷ []) s
    else record { text = text; val = val; rest = c ∷ s }

abbrev pub starts_quote : Bytes → Bool
starts_quote [] = false
starts_quote (c ∷ s) = c == b'"'

-- `unquote` at the offset `p` of the argument, whose end is `endp`.
unfoldable pub unquote : Bytes → ℕ → Bytes × ℕ
unquote text p =
    if starts_quote (drop p text)
    then (if last_byte text == b'"' then erase_last text ++ 0 ∷ [] else text, p + 1)
    else (text, p)

-- The key, the value if there is one, and the rest of the line.
unfoldable pub finish_arg : Arg → Bytes × Option Bytes × Bytes
unfolding cstr skipws unquote
finish_arg arg =
    let (text, key) = unquote arg.text 0 in
    let rest = skipws (drop 1 arg.rest) in
    elim (arg.val) [
      | none ↦ (cstr (drop key text), none, rest)
      | some val ↦
          let (text', val') = unquote text val in
          (cstr (drop key text'), some (cstr (drop val' text')), rest)
    ]

unfoldable pub get_arg : Bytes → Bytes × Option Bytes × Bytes
unfolding arg_loop finish_arg
get_arg args = finish_arg (arg_loop false none [] args)

-- `parse_args` for a `parse` that never stops it, over the state that `parse` keeps. A round passes
-- a byte or more.
module _ {S : Type 0} (parse : Bytes → Option Bytes → S → S) where
  unfoldable pub args_from : ℕ → Bytes → S → S
  args_from zero p s = s
  args_from (suc f) [] s = s
  args_from (suc f) (c ∷ p) s =
      let (key, val, rest) = get_arg (c ∷ p) in args_from f rest (parse key val s)

  unfoldable pub parse_args : Bytes → S → S
  parse_args args s = let p = skipws args in args_from (length p) p s

-- strtoul: the digits' values; a letter is 10 and more, and any other byte is no digit.
abbrev pub digit_value : ℕ → ℕ
digit_value c =
    if isdigit c
    then c - b'0'
    else if within b'a' b'z' c
    then c - b'a' + 10
    else if within b'A' b'Z' c
    then c - b'A' + 10
    else 36

-- Without the limit of the type, and the rest of the text.
unfoldable pub digits_from : ℕ → ℕ → Bytes → ℕ × Bytes
digits_from base n [] = (n, [])
digits_from base n (c ∷ s) =
    if ltb (digit_value c) base then digits_from base (n * base + digit_value c) s else (n, c ∷ s)

abbrev pub ulong_max : ℕ
ulong_max = 18446744073709551615

abbrev pub clamp_ulong : Bool → ℕ → ℕ
clamp_ulong negative n =
    if leb n ulong_max
    then (if negative && not (n == 0) then ulong_max + 1 - n else n)
    else ulong_max

-- The prefix that tells the base: 0x before a hexadecimal digit, or 0.
abbrev pub based : Bytes → ℕ × Bytes
based (c ∷ x ∷ d ∷ s) =
    if c == b'0'
    then (if (x == b'x' || x == b'X') && isxdigit d then (16, d ∷ s) else (8, c ∷ x ∷ d ∷ s))
    else (10, c ∷ x ∷ d ∷ s)
based (c ∷ s) = if c == b'0' then (8, c ∷ s) else (10, c ∷ s)
based [] = (10, [])

abbrev pub starts_digit : Bytes → Bool
starts_digit [] = false
starts_digit (c ∷ s) = isdigit c

-- `end` is the whole text where no number stands.
unfoldable pub strtoul_unsigned : Bool → Bytes → Bytes → ℕ × Bytes
strtoul_unsigned negative s whole =
    let (base, t) = based s in
    let (n, rest) = digits_from base 0 t in
    if starts_digit s then (clamp_ulong negative n, rest) else (0, whole)

unfoldable pub strtoul_signed : Bytes → Bytes → ℕ × Bytes
strtoul_signed [] whole = (0, whole)
strtoul_signed (c ∷ s) whole =
    if c == b'-'
    then strtoul_unsigned true s whole
    else strtoul_unsigned false (if c == b'+' then s else c ∷ s) whole

unfoldable pub strtoul : Bytes → ℕ × Bytes
unfolding strtoul_signed strtoul_unsigned skipws digits_from
strtoul s = strtoul_signed (skipws s) s

-- `get_timeout` over the global `timeout`; the message for a bad number is left out.
unfoldable pub get_timeout : Bytes → Option Bytes → ℕ → ℕ
get_timeout key none timeout = timeout
get_timeout key (some val) timeout =
    let (num, rest) = strtoul val in
    if equal key (codes "rd.timeout") && not (is_empty val) && is_empty rest then num else timeout
