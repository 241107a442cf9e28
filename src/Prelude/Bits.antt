-- ===== src/Prelude/Bits.antt =====
-- `bit_or` at variables: the law for the lowest digit, and what a byte adds below a shifted number.
use Prim.Native.Nat.{
  ℕ, zero, suc, ◌+◌, ◌*◌, ◌/◌, ◌%◌, ◌≤◌, ◌<◌, max, bit_or, digits, bit_or-bitwise,
}
use mathlib.Core.Path.{◌≡◌, refl, ◌∙◌}
use native.Mathlib.Omega.{arith}

abbrev digit_or : ℕ → ℕ → ℕ → ℕ
digit_or a b steps = digits (λ rest. rest) max steps a b

-- As many steps as `a`, or more, give the same digits.
digit_or_steady : (a b k l : ℕ) → a ≤ k → a ≤ l → digit_or a b k ≡ digit_or a b l
digit_or_steady zero b zero zero _ _ = refl
digit_or_steady zero b (suc k) zero _ _ = refl
digit_or_steady zero b zero (suc l) _ _ = refl
digit_or_steady zero b (suc k) (suc l) _ _ = refl
digit_or_steady (suc a) b zero l below _ = absurd (omega arith)
digit_or_steady (suc a) b (suc k) zero _ below = absurd (omega arith)
digit_or_steady (suc a) b (suc k) (suc l) low high =
    let halves = digit_or_steady (suc a / 2) (b / 2) k l (omega arith) (omega arith) in
    omega (arith, halves)

zero-bit_or : (b : ℕ) → bit_or 0 b ≡ b
zero-bit_or b = bit_or-bitwise 0 b

bit_or_digit : (a b : ℕ) → bit_or a b ≡ bit_or (a / 2) (b / 2) * 2 + max (a % 2) (b % 2)
bit_or_digit (suc a) b =
    let half = suc a / 2 in
    let enough = digit_or_steady half (b / 2) a half (omega arith) (omega arith) in
    let here = bit_or-bitwise (suc a) b in
    let above = bit_or-bitwise half (b / 2) in omega (arith, here, above, enough)
bit_or_digit zero b = omega (arith, zero-bit_or (b / 2), zero-bit_or b)

bit_or-zero_below : (n a : ℕ) → a ≤ n → bit_or a 0 ≡ a
bit_or-zero_below zero (suc a) h = absurd (omega arith)
bit_or-zero_below n zero h = zero-bit_or 0
bit_or-zero_below (suc n) (suc a) h =
    omega (arith, bit_or_digit (suc a) 0, bit_or-zero_below n (suc a / 2) (omega arith))

bit_or-zero : (a : ℕ) → bit_or a 0 ≡ a
bit_or-zero a = bit_or-zero_below a a (omega arith)

-- One more bit below.
one_bit : (r b h : ℕ) → bit_or r (b / 2) ≡ h → bit_or (r * 2) b ≡ h * 2 + b % 2
one_bit r b h e =
    let half : r * 2 / 2 ≡ r = omega arith in
    let even : r * 2 % 2 ≡ 0 = omega arith in
    bit_or_digit (r * 2) b ∙ rw (half, even, e) (omega arith)

four_bits : (r b h : ℕ) → bit_or r (b / 16) ≡ h → bit_or (r * 16) b ≡ h * 16 + b % 16
four_bits r b h e =
    let e0 : bit_or r (b / 2 / 2 / 2 / 2) ≡ h =
      (let q : b / 2 / 2 / 2 / 2 ≡ b / 16 = omega arith in rw q e) in
    let e1 = one_bit r (b / 2 / 2 / 2) h e0 in
    let e2 = one_bit (r * 2) (b / 2 / 2) _ e1 in
    let e3 = one_bit (r * 2 * 2) (b / 2) _ e2 in
    let e4 = one_bit (r * 2 * 2 * 2) b _ e3 in
    let q : r * 2 * 2 * 2 * 2 ≡ r * 16 = omega arith in rw q at e4 ∙ omega arith

-- `ret <<= 8; ret |= b` appends the byte `b`.
pub bit_or-byte : (r b : ℕ) → b < 256 → bit_or (r * 256) b ≡ r * 256 + b
bit_or-byte r b h =
    let z : b / 16 / 16 ≡ 0 = omega arith in
    let e0 : bit_or r (b / 16 / 16) ≡ r = rw z (bit_or-zero r) in
    let e1 = four_bits r (b / 16) r e0 in
    let e2 = four_bits (r * 16) b _ e1 in
    let q : r * 16 * 16 ≡ r * 256 = omega arith in rw q at e2 ∙ omega arith
