-- ===== src/Prelude/Align.antt =====
-- The multiples of a number below another.
use Prim.Native.Nat.{ℕ, ◌+◌, ◌-◌, ◌*◌, ◌/◌, ◌%◌, ◌≤◌, ◌<◌}
use mathlib.Core.Path.{◌≡◌, ◌∙◌}
use native.Mathlib.Nat.{
  mod-add-div, mul-add-mod_self_left, mul-le-mul_left, le-div_iff_mul-le, div-mul-le_self,
}
use native.Mathlib.Omega.{arith}

pub down : (n a : ℕ) → n - n % a ≡ a * (n / a)
down n a = omega (arith, mod-add-div n a)

pub down-mod : (n a : ℕ) → (n - n % a) % a ≡ 0
down-mod n a = rw (down n a) (
    let e : a * (n / a) ≡ a * (n / a) + 0 = omega arith in
    rw e (mul-add-mod_self_left a (n / a) 0 ∙ omega arith))

-- It is the largest.
pub down-greatest : (n a m : ℕ) → 0 < a → m ≤ n → m % a ≡ 0 → m ≤ n - n % a
down-greatest n a m pos below h =
    let e : m ≡ a * (m / a) = omega (arith, mod-add-div m a) in
    let q : m / a ≤ n / a = (le-div_iff_mul-le pos).1 (omega (arith, div-mul-le_self m a)) in
    omega (arith, down n a, mul-le-mul_left a q)
