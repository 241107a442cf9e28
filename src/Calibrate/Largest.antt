-- ===== src/Calibrate/Largest.antt =====
-- `MemMap::largest` against the blocks below a limit.
use kdump.Prelude.{
  ℕ, ◌+◌, ◌^◌, ◌<◌, ◌≤◌, List, [], ◌∷◌, leb, ltb, ◌≡◌, refl, ◌∙◌, arith, All, ◌⊎◌, inl, inr,
  Bool-cases,
}
use kdump.Calibrate.MemMap.{MemRange, length_below, larger, largest_from, largest}
use kdump.Calibrate.Blocks.{Somewhere}

-- The block of `size` bytes at `base` lies in the range, and not above the limit.
abbrev pub Below : ℕ → ℕ → ℕ → MemRange → Type 0
Below limit base size r = (r.start ≤ base) × (base + size ≤ r.end + 1) × (base + size ≤ limit + 1)

-- A range that is not empty and does not end with the address space.
abbrev pub IsProper : MemRange → Type 0
IsProper r = (r.start ≤ r.end) × (r.end + 1 < 2 ^ 64)

abbrev pub IsLargest : ℕ → ℕ → List MemRange → Type 0
IsLargest limit size rs =
    ((base n : ℕ) → Somewhere (Below limit base n) rs → n ≤ size)
    × ((size ≡ 0) ⊎ ((base : ℕ) × Somewhere (Below limit base size) rs))

length_below_lem :
    (limit : ℕ) (r : MemRange)
    → limit < 2 ^ 64
    → IsProper r
    → r.start ≤ limit
    → (r.start + length_below limit r ≤ r.end + 1)
      × (r.start + length_below limit r ≤ limit + 1)
      × ((base n : ℕ) → Below limit base n r → n ≤ length_below limit r)
unfolding length_below
length_below_lem limit r h (low, high) s = elim (Bool-cases (leb r.end limit)) [
  | inl e ↦
      let w : r.end ≤ limit = ground arith in
      rw e (omega arith, omega arith, λ base n (a, b, c). omega arith)
  | inr e ↦
      let w : limit < r.end = ground arith in
      rw e (omega arith, omega arith, λ base n (a, b, c). omega arith)
]

larger_lem :
    (limit ret : ℕ) (r : MemRange)
    → limit < 2 ^ 64
    → IsProper r
    → (ret ≤ larger limit ret r)
      × ((base n : ℕ) → Below limit base n r → n ≤ larger limit ret r)
      × ((larger limit ret r ≡ ret) ⊎ Below limit r.start (larger limit ret r) r)
unfolding larger
larger_lem limit ret r h g = elim (Bool-cases (ltb limit r.start)) [
  | inl e ↦
      let above : limit < r.start = ground arith in
      rw e (omega arith, λ base n (a, b, c). omega arith, inl refl)
  | inr e ↦
      let under : r.start ≤ limit = ground arith in
      let (a, b, c) = length_below_lem limit r h g under in
      elim (Bool-cases (ltb ret (length_below limit r))) [
        | inl more ↦
            let m : ret < length_below limit r = ground arith in
            rw e (rw more (omega arith, c, inr (omega arith, a, b)))
        | inr less ↦
            let m : length_below limit r ≤ ret = ground arith in
            rw e (rw less (omega arith, λ base n x. omega (arith, c base n x), inl refl))
      ]
]

largest_from-IsLargest :
    (limit ret : ℕ) (rs : List MemRange)
    → limit < 2 ^ 64
    → All IsProper rs
    → (ret ≤ largest_from limit ret rs)
      × ((base n : ℕ) → Somewhere (Below limit base n) rs → n ≤ largest_from limit ret rs)
      × ((largest_from limit ret rs ≡ ret)
          ⊎ ((base : ℕ) × Somewhere (Below limit base (largest_from limit ret rs)) rs))
unfolding largest_from
largest_from-IsLargest limit ret [] h g = (omega arith, λ base n x. elim x [ ], inl refl)
largest_from-IsLargest limit ret (r ∷ rs) h (gr, g) =
    let (a, b, c) = larger_lem limit ret r h gr in
    let (a', b', c') = largest_from-IsLargest limit (larger limit ret r) rs h g in
    (
      omega arith,
      λ base n x. elim x [ inl y ↦ omega (arith, b base n y) | inr y ↦ b' base n y ],
      elim c' [
        | inl same ↦ elim c [
          | inl kept ↦ inl (same ∙ kept)
          | inr block ↦ inr (r.start, inl (rw same block))
        ]
        | inr (base, later) ↦ inr (base, inr later)
      ],
    )

-- For ranges that are not empty and do not end with the address space, and a limit in 64 bits, what
-- `largest` returns bounds every block inside a range and not above the limit, and there is such a
-- block of just that size, unless it is zero.
pub largest-IsLargest :
    (limit : ℕ) (rs : List MemRange)
    → limit < 2 ^ 64
    → All IsProper rs
    → IsLargest limit (largest limit rs) rs
unfolding largest
largest-IsLargest limit rs h g = let (_, b, c) = largest_from-IsLargest limit 0 rs h g in (b, c)
