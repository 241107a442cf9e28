-- ===== src/KernelTool/Search.antt =====
-- Which place `findBytes` gives, in the windows before the first place of a magic text and in its own.
use kdump.Prelude.{
  ℕ, zero, suc, ◌+◌, ◌-◌, ◌≤◌, ◌<◌, true, false, Option, none, some, ◌∷◌, ◌++◌, Bytes, arith, ◌≡◌,
  refl, sym, ap, Bool-cases, ltb, ◌==◌, equal, ◌∙◌, ◌⊎◌, inl, inr, length, drop, drop-drop,
  drop_append_length,
}
use kdump.KString.Search.{starts_with}
use kdump.Transfer.Pipe.{zeros}
use kdump.KernelTool.Ikconfig.{find_bytes, magic_start, magic_end}
use kdump.KernelTool.Windows.{
  Stands, First, Found, find_within-Found, padded, Keeps, got, window, length-got, length-window,
  window_stands,
}

-- A text of MAGIC_LEN bytes that does not start with a zero.
unfoldable pub IsMagic : Bytes → Type 0
IsMagic needle = (length needle ≡ 8) × ((rest : Bytes) → starts_with (0 ∷ rest) needle ≡ false)

pub magic_start-IsMagic : IsMagic magic_start
unfolding IsMagic starts_with equal
magic_start-IsMagic = (refl, λ rest. refl)

pub magic_end-IsMagic : IsMagic magic_end
unfolding IsMagic starts_with equal
magic_end-IsMagic = (refl, λ rest. refl)

pub zeros_at : (n j : ℕ) (w : Bytes) → j < n → (rest : Bytes) × (drop j (zeros n ++ w) ≡ 0 ∷ rest)
unfolding zeros
zeros_at zero j w below = absurd (omega arith)
zeros_at (suc n) zero w below = (zeros n ++ w, refl)
zeros_at (suc n) (suc j) w below = zeros_at n j w (omega arith)

pub near : (j : ℕ) → (j < 8) ⊎ ((i : ℕ) × (j ≡ 8 + i))
near j = elim (Bool-cases (ltb j 8)) [
  | inl low ↦ inl (ground arith)
  | inr high ↦ inr (j - 8, ground arith)
]

compare : (i j : ℕ) → (i < j) ⊎ ((i ≡ j) ⊎ (j < i))
compare i j = elim (Bool-cases (ltb i j)) [
  | inl low ↦ inl (ground arith)
  | inr high ↦ inr (elim (Bool-cases (i == j)) [
    | inl same ↦ inl (ground arith)
    | inr other ↦ inr (ground arith)
  ])
]

module _ (chunk : ℕ) (whole needle : Bytes) (magic : IsMagic needle) (f : ℕ) (buffer : Bytes)
    (k : Keeps chunk whole f buffer) where
  pub found :
      Found chunk
        (window chunk whole f buffer k)
        needle
        (find_bytes (window chunk whole f buffer k) needle)
  unfolding find_bytes IsMagic
  found =
      let e : length (window chunk whole f buffer k) - length needle ≡ chunk =
        omega (arith, length-window chunk whole f buffer k, magic.0) in
      rw e (find_within-Found chunk (window chunk whole f buffer k) needle)

  pub at_window :
      (i : ℕ)
      → i ≤ length (got chunk whole f buffer k)
      → starts_with (drop i (window chunk whole f buffer k)) needle
        ≡ starts_with (drop (f + i) (padded chunk whole)) needle
  unfolding IsMagic
  at_window i fits = window_stands chunk whole f buffer k i needle magic.0 fits

module _ (chunk : ℕ) (whole needle : Bytes) (x : ℕ) (magic : IsMagic needle)
    (first : First needle x whole) where
  pub behind : (j : ℕ) → drop (8 + j) (padded chunk whole) ≡ drop j whole
  unfolding zeros
  behind j =
      sym (drop-drop 8 j (padded chunk whole)) ∙ ap (drop j) (drop_append_length (zeros 8) whole)

  not_before : (j : ℕ) → j < x + 8 → starts_with (drop j (padded chunk whole)) needle ≡ false
  unfolding IsMagic First
  not_before j below = elim (near j) [
    | inl near ↦ (let (rest, e) = zeros_at 8 j whole near in rw e (magic.1 rest))
    | inr (i, e) ↦ rw (e, behind i) (first.2 i (omega arith))
  ]

  there : starts_with (drop (x + 8) (padded chunk whole)) needle ≡ true
  unfolding First Stands
  there = let e : x + 8 ≡ 8 + x = omega arith in rw (e, behind x) first.1

  module _ (f : ℕ) (buffer : Bytes) (k : Keeps chunk whole f buffer) where
    none_before :
        (o : Option ℕ)
        → Found chunk (window chunk whole f buffer k) needle o
        → f + chunk ≤ x + 8
        → o ≡ none
    unfolding Found Stands First IsMagic
    none_before none h far = refl
    none_before (some i) (below, stands, rest) far =
        let miss = not_before (f + i) (omega arith) in
        let fits : i ≤ length (got chunk whole f buffer k) =
          omega (arith, length-got chunk whole f buffer k, first.0, magic.0) in
        absurd (cc (stands, at_window chunk whole needle magic f buffer k i fits, miss))

    stands_here :
        f ≤ x + 8
        → x + 8 < f + chunk
        → starts_with (drop (x + 8 - f) (window chunk whole f buffer k)) needle ≡ true
    unfolding First IsMagic
    stands_here low high =
        let fits : x + 8 - f ≤ length (got chunk whole f buffer k) =
          omega (arith, length-got chunk whole f buffer k, first.0, magic.0) in
        let e : f + (x + 8 - f) ≡ x + 8 = omega arith in
        at_window chunk whole needle magic f buffer k (x + 8 - f) fits
        ∙ ap (λ n. starts_with (drop n (padded chunk whole)) needle) e
        ∙ there

    some_here :
        (o : Option ℕ)
        → Found chunk (window chunk whole f buffer k) needle o
        → f ≤ x + 8
        → x + 8 < f + chunk
        → o ≡ some (x + 8 - f)
    unfolding Found Stands First IsMagic
    some_here none h low high = absurd (cc (h (x + 8 - f) (omega arith), stands_here low high))
    some_here (some i) (below, stands, rest) low high = elim (compare i (x + 8 - f)) [
      | inl lower ↦
          let fits : i ≤ length (got chunk whole f buffer k) =
            omega (arith, length-got chunk whole f buffer k, first.0, magic.0) in
          absurd (
            cc (
              stands,
              at_window chunk whole needle magic f buffer k i fits,
              not_before (f + i) (omega arith),
            ))
      | inr (inl e) ↦ ap some e
      | inr (inr higher) ↦ absurd (cc (rest (x + 8 - f) higher, stands_here low high))
    ]

    -- In a window that ends before the end of the magic text, nothing is found.
    pub find_bytes-none :
        f + chunk ≤ x + 8 → find_bytes (window chunk whole f buffer k) needle ≡ none
    find_bytes-none far =
        none_before (find_bytes (window chunk whole f buffer k) needle)
          (found chunk whole needle magic f buffer k) far

    -- In the window that holds it, its place is found.
    pub find_bytes-some :
        f ≤ x + 8
        → x + 8 < f + chunk
        → find_bytes (window chunk whole f buffer k) needle ≡ some (x + 8 - f)
    find_bytes-some low high =
        some_here (find_bytes (window chunk whole f buffer k) needle)
          (found chunk whole needle magic f buffer k) low high
