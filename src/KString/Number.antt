-- ===== src/KString/Number.antt =====
-- `KString::isNumber`, `isHexNumber`, `asInt` and `asLongLong`, and `StringUtil::number2string`.
-- The two conversions are those of the standard streams in the "C" locale.
use kdump.Prelude.{
  ℕ, zero, suc, ◌+◌, ◌-◌, ◌*◌, ◌/◌, ◌%◌, ◌^◌, ◌≤◌, ◌<◌, Bool, true, false, ◌&&◌, ◌||◌, [], ◌∷◌, ◌≡◌,
  ◌≢◌, refl, ◌∙◌, arith, Bytes, ltb, leb, ◌==◌, if◌then◌else◌, isdigit, isxdigit, isspace, All,
  Option, none, some, is_empty, ap, Bool-cases, inl, inr,
}
use kdump.Prelude.Int.{ℤ, pos, negsuc}

-- The do-while loops: at least one character, and each of the class.
all_of : (ℕ → Bool) → Bytes → Bool
all_of test [] = true
all_of test (c ∷ s) = test c && all_of test s

some_of : (ℕ → Bool) → Bytes → Bool
unfolding all_of
some_of test [] = false
some_of test (c ∷ s) = all_of test (c ∷ s)

-- ++it behind a sign
skip_sign : Bytes → Bytes
skip_sign [] = []
skip_sign (c ∷ s) = if c == b'-' || c == b'+' then s else c ∷ s

unfoldable pub is_number : Bytes → Bool
unfolding some_of skip_sign
is_number s = some_of isdigit (skip_sign s)

unfoldable pub is_hex_number : Bytes → Bool
unfolding some_of
is_hex_number s = some_of isxdigit s

-- The decimal value of the leading digits behind `n`.
read_digits : ℕ → Bytes → ℕ
read_digits n [] = n
read_digits n (c ∷ s) =
    let more = read_digits (n * 10 + (c - b'0')) s in if isdigit c then more else n

-- `>>` clamps what does not fit, and leaves 0 where no digit stands. The type's range is
-- -(max + 1) to max.
clamp_pos : ℕ → ℕ → ℤ
clamp_pos max n = if leb n max then pos n else pos max

clamp_neg : ℕ → ℕ → ℤ
clamp_neg max zero = pos 0
clamp_neg max (suc n) = if leb n max then negsuc n else negsuc max

extract_signed : ℕ → Bytes → ℤ
unfolding clamp_pos clamp_neg read_digits
extract_signed max [] = pos 0
extract_signed max (c ∷ s) =
    if c == b'-'
    then clamp_neg max (read_digits 0 s)
    else if c == b'+'
    then clamp_pos max (read_digits 0 s)
    else clamp_pos max (read_digits 0 (c ∷ s))

skip_space : Bytes → Bytes
skip_space [] = []
skip_space (c ∷ s) = let rest = skip_space s in if isspace c then rest else c ∷ s

extract : ℕ → Bytes → ℤ
unfolding extract_signed skip_space
extract max s = extract_signed max (skip_space s)

abbrev pub int_max : ℕ
int_max = 2 ^ 31 - 1

-- `>>` into a variable: where only spaces are left, it keeps what it holds.
unfoldable pub extract_int : ℤ → Bytes → ℤ
unfolding extract skip_space
extract_int old text = if is_empty (skip_space text) then old else extract int_max text

-- The result is not initialised: `none` where it stays so.
unfoldable pub as_int : Bytes → Option ℤ
unfolding extract skip_space
as_int text = if is_empty (skip_space text) then none else some (extract int_max text)

unfoldable pub as_long_long : Bytes → Option ℤ
unfolding extract skip_space
as_long_long text = if is_empty (skip_space text) then none else some (extract (2 ^ 63 - 1) text)

-- The digits of `n` before `out`; one round for each digit, on fuel.
unfoldable pub decimal : ℕ → ℕ → Bytes → Bytes
decimal zero n out = out
decimal (suc f) n out =
    let d = b'0' + n % 10 in
    let more = decimal f (n / 10) (d ∷ out) in if ltb n 10 then d ∷ out else more

unfoldable pub number2string : ℤ → Bytes
unfolding decimal
number2string (pos n) = decimal (suc n) n []
number2string (negsuc n) = b'-' ∷ decimal (suc (suc n)) (suc n) []

read_digits_digit :
    (n d : ℕ) (out : Bytes)
    → d < 10
    → read_digits n ((b'0' + d) ∷ out) ≡ read_digits (n * 10 + d) out
unfolding read_digits
read_digits_digit n d out h =
    let e : b'0' + d - b'0' ≡ d = omega arith in
    let t : isdigit (b'0' + d) ≡ true = ground arith in rw (t, e)

read_digits-decimal :
    (f n : ℕ) (out : Bytes) → n < f → read_digits 0 (decimal f n out) ≡ read_digits n out
unfolding decimal
read_digits-decimal zero n out h = absurd (omega arith)
read_digits-decimal (suc f) n out h =
    let lt : n % 10 < 10 = omega arith in
    elim (Bool-cases (ltb n 10)) [
      | inl last ↦
          let e : 0 * 10 + n % 10 ≡ n = ground arith in
          rw last (read_digits_digit 0 (n % 10) out lt ∙ rw e)
      | inr more ↦
          let e : n / 10 * 10 + n % 10 ≡ n = omega arith in
          rw more (
            read_digits-decimal f (n / 10) ((b'0' + n % 10) ∷ out) (ground arith)
            ∙ read_digits_digit (n / 10) (n % 10) out lt
            ∙ rw e)
    ]

all_of-decimal :
    (f n : ℕ) (out : Bytes)
    → n < f
    → all_of isdigit out ≡ true
    → some_of isdigit (decimal f n out) ≡ true
unfolding decimal some_of
all_of-decimal zero n out h o = absurd (omega arith)
all_of-decimal (suc f) n out h o =
    let lt : n % 10 < 10 = omega arith in
    let d : all_of isdigit ((b'0' + n % 10) ∷ out) ≡ true = ground arith in
    elim (Bool-cases (ltb n 10)) [
      | inl last ↦ rw last d
      | inr more ↦ rw more (all_of-decimal f (n / 10) ((b'0' + n % 10) ∷ out) (ground arith) d)
    ]

-- The first byte of a print is a digit.
StartsDigit : Bytes → Type 0
StartsDigit [] = ⊥
StartsDigit (c ∷ s) = isdigit c ≡ true

StartsDigit-some_of : (s : Bytes) → some_of isdigit s ≡ true → StartsDigit s
unfolding StartsDigit some_of
StartsDigit-some_of [] h = cc
StartsDigit-some_of (c ∷ s) h = ground arith

extract_digits :
    (max : ℕ) (s : Bytes) → StartsDigit s → extract max s ≡ clamp_pos max (read_digits 0 s)
unfolding extract StartsDigit
extract_digits max [] h = absurd h
extract_digits max (c ∷ s) h =
    let e : isspace c ≡ false = ground arith in
    let m : (c == b'-') ≡ false = ground arith in
    let p : (c == b'+') ≡ false = ground arith in rw (e, skip_space) (rw m (rw p))

extract_minus : (max : ℕ) (s : Bytes) → extract max (b'-' ∷ s) ≡ clamp_neg max (read_digits 0 s)
unfolding extract
extract_minus max s = refl

is_number_digits : (s : Bytes) → some_of isdigit s ≡ true → is_number s ≡ true
unfolding is_number
is_number_digits [] h = cc
is_number_digits (c ∷ s) h =
    let m : (c == b'-' || c == b'+') ≡ false = ground arith in rw (m, skip_sign) h

-- The numbers of a type with the range -(max + 1) to max.
abbrev pub InRange : ℕ → ℤ → Type 0
InRange max (pos n) = n ≤ max
InRange max (negsuc n) = n ≤ max

extract-number2string : (max : ℕ) (z : ℤ) → InRange max z → extract max (number2string z) ≡ z
unfolding number2string all_of
extract-number2string max (pos n) h =
    extract_digits max (decimal (suc n) n [])
      (StartsDigit-some_of _ (all_of-decimal (suc n) n [] (omega arith) refl))
    ∙ rw (read_digits-decimal (suc n) n [] (omega arith))
        (unfold clamp_pos read_digits in ground arith)
extract-number2string max (negsuc n) h =
    extract_minus max (decimal (suc (suc n)) (suc n) [])
    ∙ rw (read_digits-decimal (suc (suc n)) (suc n) [] (omega arith))
        (unfold clamp_neg read_digits in ground arith)

blank_digits : (s : Bytes) → StartsDigit s → is_empty (skip_space s) ≡ false
unfolding StartsDigit skip_space
blank_digits [] h = absurd h
blank_digits (c ∷ s) h = let e : isspace c ≡ false = ground arith in rw e refl

blank-number2string : (z : ℤ) → is_empty (skip_space (number2string z)) ≡ false
unfolding number2string all_of
blank-number2string (pos n) =
    blank_digits (decimal (suc n) n [])
      (StartsDigit-some_of _ (all_of-decimal (suc n) n [] (omega arith) refl))
blank-number2string (negsuc n) = unfold skip_space in refl

-- Every `int` is read back from its print, and the print passes for a number.
pub as_int-number2string :
    (z : ℤ)
    → InRange int_max z
    → (as_int (number2string z) ≡ some z) × (is_number (number2string z) ≡ true)
as_int-number2string (pos n) h = (
  unfold as_int in
      rw (blank-number2string (pos n)) (ap some (extract-number2string int_max (pos n) h)),
  unfold number2string in
      is_number_digits _ (all_of-decimal (suc n) n [] (omega arith) (unfold all_of in refl)),
)
as_int-number2string (negsuc n) h = (
  unfold as_int in
      rw (blank-number2string (negsuc n)) (ap some (extract-number2string int_max (negsuc n) h)),
  unfold number2string is_number in
      all_of-decimal (suc (suc n)) (suc n) [] (omega arith) (unfold all_of in refl),
)

pub extract_int-number2string :
    (old z : ℤ) → InRange int_max z → extract_int old (number2string z) ≡ z
extract_int-number2string old z h =
    unfold extract_int in rw (blank-number2string z) (extract-number2string int_max z h)

All-digits : (s : Bytes) → all_of isdigit s ≡ true → All (λ c. isdigit c ≡ true) s
unfolding all_of
All-digits [] h = tt
All-digits (c ∷ s) h = ground (arith, All-digits s)

every_passes : (s : Bytes) → some_of isdigit s ≡ true → (s ≢ []) × All (λ c. isdigit c ≡ true) s
unfolding some_of
every_passes [] h = cc
every_passes (c ∷ s) h = ((λ e. cc), All-digits (c ∷ s) h)

-- A natural number prints as digits, at least one.
pub number2string-digits :
    (n : ℕ) → (number2string (pos n) ≢ []) × All (λ c. isdigit c ≡ true) (number2string (pos n))
unfolding number2string
number2string-digits n =
    every_passes _ (all_of-decimal (suc n) n [] (omega arith) (unfold all_of in refl))
