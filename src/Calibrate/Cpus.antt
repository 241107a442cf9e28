-- ===== src/Calibrate/Cpus.antt =====
-- `SystemCPU::count`: the number of the processors in a list such as "0-3,8", with the readings of
-- the standard streams that it makes.
use kdump.Prelude.{
  ℕ, zero, suc, ◌+◌, ◌-◌, ◌*◌, ◌%◌, ◌^◌, Bool, true, false, not, [], ◌∷◌, Option, none, some, Bytes,
  Result, ok, throw, ◌==◌, ltb, if◌then◌else◌, length, isdigit, isspace, is_empty,
}

unfoldable pub skip_spaces : Bytes → Bytes
skip_spaces [] = []
skip_spaces (c ∷ s) = if isspace c then skip_spaces s else c ∷ s

-- The value of the digits behind those of `n`, and what is behind them.
unfoldable pub digits : ℕ → Bytes → ℕ × Bytes
digits n [] = (n, [])
digits n (c ∷ s) = if isdigit c then digits (n * 10 + (c - b'0')) s else (n, c ∷ s)

-- `fin >> n` of an unsigned long: a number and the rest, or a failure, at the end of the file or not.
pub data Got : Type 0 where
  got : ℕ → Bytes → Got
  failed : Bool → Got

-- Behind the sign. A minus wraps around; a number that does not fit is a failure.
unfoldable pub unsigned_digits : Bool → Bytes → Got
unfolding digits
unsigned_digits minus [] = failed true
unsigned_digits minus (c ∷ s) =
    let (n, rest) = digits 0 (c ∷ s) in
    if not (isdigit c)
    then failed false
    else if ltb n (2 ^ 64)
    then got (if minus then (2 ^ 64 - n) % 2 ^ 64 else n) rest
    else failed (is_empty rest)

unfoldable pub signed_digits : Bytes → Got
unfolding unsigned_digits
signed_digits [] = failed true
signed_digits (c ∷ s) =
    if c == b'-'
    then unsigned_digits true s
    else if c == b'+'
    then unsigned_digits false s
    else unsigned_digits false (c ∷ s)

unfoldable pub read_number : Bytes → Got
unfolding skip_spaces signed_digits
read_number s = signed_digits (skip_spaces s)

pub data CountError : Type 0 where
  cannot_open number_format wrong_delimiter : CountError

-- What follows a number and, for a range, its end: a comma, or the end of the file; `next` is the
-- loop.
unfoldable pub delimited : (Bytes → ℕ → Result CountError ℕ) → ℕ → Bytes → Result CountError ℕ
delimited next ret [] = next [] (suc ret % 2 ^ 64)
delimited next ret (delim ∷ s) =
    if delim == b',' then next s (suc ret % 2 ^ 64) else throw wrong_delimiter

-- `ret += n2 - n1`
unfoldable pub add_range : ℕ → ℕ → ℕ → ℕ
add_range ret n1 n2 = (ret + (n2 + (2 ^ 64 - n1))) % 2 ^ 64

-- Behind "n1-".
unfoldable pub range_end : (Bytes → ℕ → Result CountError ℕ) → ℕ → ℕ → Got → Result CountError ℕ
unfolding delimited skip_spaces add_range
range_end next ret n1 (failed eof) = throw number_format
range_end next ret n1 (got n2 s) = delimited next (add_range ret n1 n2) (skip_spaces s)

-- Behind n1, without the spaces.
unfoldable pub element : (Bytes → ℕ → Result CountError ℕ) → ℕ → ℕ → Bytes → Result CountError ℕ
unfolding delimited range_end read_number
element next ret n1 [] = delimited next ret []
element next ret n1 (delim ∷ s) =
    if delim == b'-' then range_end next ret n1 (read_number s) else delimited next ret (delim ∷ s)

-- A round of the loop.
unfoldable pub round : (Bytes → ℕ → Result CountError ℕ) → ℕ → Got → Result CountError ℕ
unfolding element skip_spaces
round next ret (failed eof) = if eof then ok ret else throw number_format
round next ret (got n1 s) = element next ret n1 (skip_spaces s)

-- A round but the last one passes a byte.
unfoldable pub count_from : ℕ → Bytes → ℕ → Result CountError ℕ
unfolding round read_number
count_from zero s ret = ok ret
count_from (suc f) s ret = round (count_from f) ret (read_number s)

-- `file` is what the file holds, if it can be opened.
unfoldable pub count : Option Bytes → Result CountError ℕ
unfolding count_from
count none = throw cannot_open
count (some text) = count_from (suc (suc (length text))) text 0
