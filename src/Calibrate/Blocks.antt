-- ===== src/Calibrate/Blocks.antt =====
-- `MemMap::find` against what it means to find a block.
use kdump.Prelude.{
  ℕ, ◌+◌, ◌-◌, ◌%◌, ◌^◌, ◌<◌, ◌≤◌, List, [], ◌∷◌, ◌++◌, leb, ltb, ◌≡◌, refl, sym, arith, All,
  All-append, ◌⊎◌, inl, inr, Bool-cases,
}
use mathlib.Core.Path.{subst}
use kdump.Prelude.Align.{down-mod, down-greatest}
use kdump.Calibrate.MemMap.{MemRange, wrap, all_ones, find_in, reverse, find}

abbrev pub Somewhere : (MemRange → Type 0) → List MemRange → Type 0
Somewhere P [] = ⊥
Somewhere P (r ∷ rs) = P r ⊎ Somewhere P rs

-- The block of `size` bytes at `base` lies in the range, and is aligned.
abbrev pub Fits : ℕ → ℕ → ℕ → MemRange → Type 0
Fits size align base r = (r.start ≤ base) × (base + size ≤ r.end + 1) × (base % align ≡ 0)

-- A range that does not end with the address space.
abbrev pub EndsBelow : MemRange → Type 0
EndsBelow r = r.end + 1 < 2 ^ 64

abbrev pub IsFound : ℕ → ℕ → ℕ → List MemRange → Type 0
IsFound size align result rs =
    Somewhere (Fits size align result) rs
    ⊎ ((result ≡ all_ones) × ((base : ℕ) → Somewhere (Fits size align base) rs → ⊥))

not_here :
    (size align result : ℕ) (r : MemRange) (rs : List MemRange)
    → ((base : ℕ) → Fits size align base r → ⊥)
    → IsFound size align result rs
    → IsFound size align result (r ∷ rs)
not_here size align result r rs misses (inl x) = inl (inr x)
not_here size align result r rs misses (inr (e, none_there)) =
    inr (e, λ base x. elim x [ inl y ↦ misses base y | inr z ↦ none_there base z ])

find_in-IsFound :
    (size align : ℕ) (rs : List MemRange)
    → 0 < align
    → All EndsBelow rs
    → IsFound size align (find_in size align rs) rs
unfolding find_in
find_in-IsFound size align [] pos h = inr (refl, λ base x. x)
find_in-IsFound size align (r ∷ rs) pos (hr, h) =
    let room = r.end + 1 - size in
    let base = room - room % align in
    let top : wrap (r.end + 1) ≡ r.end + 1 = omega arith in
    let later = find_in-IsFound size align rs pos h in
    let found : (result : ℕ)
        → find_in size align (r ∷ rs) ≡ result
        → IsFound size align result (r ∷ rs)
        → IsFound size align (find_in size align (r ∷ rs)) (r ∷ rs) =
      λ result e x. subst (λ t. IsFound size align t (r ∷ rs)) (sym e) x in
    elim (Bool-cases (ltb (r.end + 1) size)) [
      | inl small ↦
          let short : r.end + 1 < size = ground arith in
          found (find_in size align rs) (rw top (rw small))
            (not_here size align _ r rs (λ base (_, high, _). omega arith) later)
      | inr large ↦
          let long : size ≤ r.end + 1 = ground arith in
          elim (Bool-cases (leb r.start base)) [
            | inl above ↦
                let inside : r.start ≤ base = ground arith in
                found base (rw top (rw large (rw above)))
                  (inl (inl (inside, omega arith, down-mod room align)))
            | inr under ↦
                let outside : base < r.start = ground arith in
                found (find_in size align rs) (rw top (rw large (rw under))) (
                  not_here size align _ r rs
                    (λ other (low, high, aligned).
                      omega (arith, down-greatest room align other pos (omega arith) aligned))
                    later)
          ]
    ]

All-reverse : (P : MemRange → Type 0) (rs : List MemRange) → All P rs → All P (reverse rs)
unfolding reverse
All-reverse P [] h = tt
All-reverse P (r ∷ rs) (hr, h) = All-append P (reverse rs) (r ∷ []) (All-reverse P rs h) (hr, tt)

module _ (P : MemRange → Type 0) where
  Somewhere-left : (rs qs : List MemRange) → Somewhere P rs → Somewhere P (rs ++ qs)
  Somewhere-left [] qs x = elim x [ ]
  Somewhere-left (r ∷ rs) qs (inl x) = inl x
  Somewhere-left (r ∷ rs) qs (inr x) = inr (Somewhere-left rs qs x)

  Somewhere-right : (rs qs : List MemRange) → Somewhere P qs → Somewhere P (rs ++ qs)
  Somewhere-right [] qs x = x
  Somewhere-right (r ∷ rs) qs x = inr (Somewhere-right rs qs x)

  Somewhere-append :
      (rs qs : List MemRange) → Somewhere P (rs ++ qs) → Somewhere P rs ⊎ Somewhere P qs
  Somewhere-append [] qs x = inr x
  Somewhere-append (r ∷ rs) qs (inl x) = inl (inl x)
  Somewhere-append (r ∷ rs) qs (inr x) = elim (Somewhere-append rs qs x) [
    | inl y ↦ inl (inr y)
    | inr y ↦ inr y
  ]

  reverse-Somewhere : (rs : List MemRange) → Somewhere P rs → Somewhere P (reverse rs)
  unfolding reverse
  reverse-Somewhere [] x = elim x [ ]
  reverse-Somewhere (r ∷ rs) (inl x) = Somewhere-right (reverse rs) (r ∷ []) (inl x)
  reverse-Somewhere (r ∷ rs) (inr x) = Somewhere-left (reverse rs) (r ∷ []) (reverse-Somewhere rs x)

  Somewhere-reverse : (rs : List MemRange) → Somewhere P (reverse rs) → Somewhere P rs
  unfolding reverse
  Somewhere-reverse [] x = elim x [ ]
  Somewhere-reverse (r ∷ rs) x = elim (Somewhere-append (reverse rs) (r ∷ []) x) [
    | inl y ↦ inr (Somewhere-reverse rs y)
    | inr (inl y) ↦ inl y
    | inr (inr y) ↦ elim y [ ]
  ]

-- Where no range ends with the address space and the alignment is not zero, what `find` returns is
-- the base of an aligned block of the size inside a range; or it is `~0ULL`, and then no range has
-- room for such a block at all.
pub find-IsFound :
    (size align : ℕ) (rs : List MemRange)
    → 0 < align
    → All EndsBelow rs
    → IsFound size align (find size align rs) rs
unfolding find
find-IsFound size align rs pos h =
    elim (find_in-IsFound size align (reverse rs) pos (All-reverse _ rs h)) [
      | inl x ↦ inl (Somewhere-reverse _ rs x)
      | inr (e, none_there) ↦ inr (e, λ base x. none_there base (reverse-Somewhere _ rs x))
    ]
