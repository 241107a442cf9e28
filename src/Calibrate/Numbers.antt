-- ===== src/Calibrate/Numbers.antt =====
-- The numbers of a list of processors, written and read.
use kdump.Prelude.{
  ℕ, zero, suc, ◌+◌, ◌-◌, ◌*◌, ◌/◌, ◌%◌, ◌^◌, ◌<◌, Bool, true, false, not, [], ◌∷◌, ◌++◌, ◌≡◌, refl,
  ap, ◌∙◌, arith, Bytes, ◌==◌, ltb, isdigit, isspace, Bool-cases, inl, inr,
}
use kdump.Prelude.Int.{pos}
use kdump.KString.Number.{number2string, decimal}
use kdump.Calibrate.Cpus.{skip_spaces, digits, got, unsigned_digits, signed_digits, read_number}

digits_digit :
    (n d : ℕ) (out : Bytes) → d < 10 → digits n ((b'0' + d) ∷ out) ≡ digits (n * 10 + d) out
unfolding digits
digits_digit n d out h =
    let e : b'0' + d - b'0' ≡ d = omega arith in
    let t : isdigit (b'0' + d) ≡ true = ground arith in rw (t, e) refl

digits-decimal : (f n : ℕ) (out : Bytes) → n < f → digits 0 (decimal f n out) ≡ digits n out
unfolding decimal
digits-decimal zero n out h = absurd (omega arith)
digits-decimal (suc f) n out h =
    let lt : n % 10 < 10 = omega arith in
    elim (Bool-cases (ltb n 10)) [
      | inl last ↦
          let e : 0 * 10 + n % 10 ≡ n = ground arith in
          rw last (digits_digit 0 (n % 10) out lt ∙ ap (λ k. digits k out) e)
      | inr more ↦
          let e : n / 10 * 10 + n % 10 ≡ n = omega arith in
          rw more (
            digits-decimal f (n / 10) ((b'0' + n % 10) ∷ out) (ground arith)
            ∙ (digits_digit (n / 10) (n % 10) out lt ∙ ap (λ k. digits k out) e))
    ]

-- A text that does not go on with a digit.
abbrev pub no_digit : Bytes → Bool
no_digit [] = true
no_digit (c ∷ s) = not (isdigit c)

digits-no_digit : (n : ℕ) (s : Bytes) → no_digit s ≡ true → digits n s ≡ (n, s)
unfolding digits
digits-no_digit n [] h = refl
digits-no_digit n (c ∷ s) h = let no : isdigit c ≡ false = ground arith in rw no refl

abbrev starts_digit : Bytes → Bool
starts_digit [] = false
starts_digit (c ∷ s) = isdigit c

starts_digit-decimal : (f n : ℕ) (out : Bytes) → n < f → starts_digit (decimal f n out) ≡ true
unfolding decimal
starts_digit-decimal zero n out h = absurd (omega arith)
starts_digit-decimal (suc f) n out h =
    let t : isdigit (b'0' + n % 10) ≡ true = let lt : n % 10 < 10 = omega arith in ground arith in
    elim (Bool-cases (ltb n 10)) [
      | inl last ↦ rw last t
      | inr more ↦ rw more (starts_digit-decimal f (n / 10) ((b'0' + n % 10) ∷ out) (ground arith))
    ]

decimal-append : (f n : ℕ) (out s : Bytes) → decimal f n out ++ s ≡ decimal f n (out ++ s)
unfolding decimal
decimal-append zero n out s = refl
decimal-append (suc f) n out s = elim (Bool-cases (ltb n 10)) [
  | inl last ↦ rw last refl
  | inr more ↦ rw more (decimal-append f (n / 10) ((b'0' + n % 10) ∷ out) s)
]

skip_spaces-digit : (c : ℕ) (s : Bytes) → isdigit c ≡ true → skip_spaces (c ∷ s) ≡ c ∷ s
unfolding skip_spaces
skip_spaces-digit c s h = let no : isspace c ≡ false = ground arith in rw no refl

signed_digits-digit :
    (c : ℕ) (s : Bytes) → isdigit c ≡ true → signed_digits (c ∷ s) ≡ unsigned_digits false (c ∷ s)
unfolding signed_digits
signed_digits-digit c s h =
    let minus : (c == b'-') ≡ false = ground arith in
    let plus : (c == b'+') ≡ false = ground arith in rw minus (rw plus refl)

unsigned_digits-digit :
    (c : ℕ) (s : Bytes) {n : ℕ} {rest : Bytes}
    → isdigit c ≡ true
    → digits 0 (c ∷ s) ≡ (n, rest)
    → n < 2 ^ 64
    → unsigned_digits false (c ∷ s) ≡ got n rest
unfolding unsigned_digits
unsigned_digits-digit c s {n} {rest} h e lt =
    let fits : ltb n (2 ^ 64) ≡ true = ground arith in rw e (rw h (rw fits refl))

read_number-digits :
    (s : Bytes) {n : ℕ} {rest : Bytes}
    → starts_digit s ≡ true
    → digits 0 s ≡ (n, rest)
    → n < 2 ^ 64
    → read_number s ≡ got n rest
unfolding read_number
read_number-digits [] h e lt = absurd (cc)
read_number-digits (c ∷ s) h e lt =
    ap signed_digits (skip_spaces-digit c s h)
    ∙ (signed_digits-digit c s h ∙ unsigned_digits-digit c s h e lt)

-- A number that is written is read, up to what is no digit.
pub read_number-text :
    (n : ℕ) (s : Bytes)
    → n < 2 ^ 64
    → no_digit s ≡ true
    → read_number (number2string (pos n) ++ s) ≡ got n s
unfolding number2string
read_number-text n s lt stops =
    ap read_number (decimal-append (suc n) n [] s)
    ∙ read_number-digits (decimal (suc n) n s) (starts_digit-decimal (suc n) n s (omega arith))
        (digits-decimal (suc n) n s (omega arith) ∙ digits-no_digit n s stops) lt
