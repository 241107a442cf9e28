-- ===== src/KString/Trim.antt =====
-- `KString::trim`, `ltrim` and `rtrim`.
use kdump.Prelude.{
  ℕ, suc, true, false, [], ◌∷◌, ◌++◌, ◌≡◌, refl, ap, none, some, ◌∙◌, append_assoc, append-nil, sym,
  arith, Bytes, take, drop, contains, All, Bool-cases, Option-cases, inl, inr, if◌then◌else◌,
}
use kdump.KString.Search.{find_first_not_of, find_last_not_of}

-- erase(0, find_first_not_of(chars)): at `npos` the whole string goes
unfoldable pub ltrim : Bytes → Bytes → Bytes
unfolding find_first_not_of contains
ltrim chars s = elim (find_first_not_of chars s) [ none ↦ [] | some n ↦ drop n s ]

-- erase(find_last_not_of(chars) + 1): `npos + 1` is 0
unfoldable pub rtrim : Bytes → Bytes → Bytes
unfolding find_last_not_of contains
rtrim chars s = elim (find_last_not_of chars s) [ none ↦ take 0 s | some n ↦ take (suc n) s ]

unfoldable pub trim : Bytes → Bytes → Bytes
unfolding ltrim rtrim
trim chars s = ltrim chars (rtrim chars s)

-- Only characters of the set.
abbrev pub Within : Bytes → Bytes → Type 0
Within chars = All (λ c. contains chars c ≡ true)

abbrev pub FirstKept : Bytes → Bytes → Type 0
FirstKept chars [] = Unit
FirstKept chars (c ∷ s) = contains chars c ≡ false

abbrev pub LastKept : Bytes → Bytes → Type 0
LastKept chars [] = Unit
LastKept chars (c ∷ []) = contains chars c ≡ false
LastKept chars (c ∷ d ∷ s) = LastKept chars (d ∷ s)

LastKept-tail : (chars : Bytes) (c : ℕ) (s : Bytes) → LastKept chars (c ∷ s) → LastKept chars s
LastKept-tail chars c [] h = tt
LastKept-tail chars c (d ∷ s) h = h

ltrim-cons_in :
    (chars : Bytes) (c : ℕ) (s : Bytes)
    → contains chars c ≡ true
    → ltrim chars (c ∷ s) ≡ ltrim chars s
unfolding ltrim find_first_not_of
ltrim-cons_in chars c s h = ground arith

ltrim-cons_out :
    (chars : Bytes) (c : ℕ) (s : Bytes) → contains chars c ≡ false → ltrim chars (c ∷ s) ≡ c ∷ s
unfolding ltrim find_first_not_of
ltrim-cons_out chars c s h = ground arith

pub ltrim_cut :
    (chars : Bytes) (s : Bytes)
    → (l : Bytes) × (s ≡ l ++ ltrim chars s)
      × Within chars l
      × FirstKept chars (ltrim chars s)
      × (LastKept chars s → LastKept chars (ltrim chars s))
ltrim_cut chars [] = (
  [],
  unfold ltrim find_first_not_of in refl,
  tt,
  unfold ltrim find_first_not_of in tt,
  λ h. unfold ltrim find_first_not_of in tt,
)
ltrim_cut chars (c ∷ s) =
    let (l, e, w, f, k) = ltrim_cut chars s in
    elim (Bool-cases (contains chars c)) [
      | inl drops ↦
          rw (ltrim-cons_in chars c s drops)
            (c ∷ l, ap (◌∷◌ c) e, (drops, w), f, λ h. k (LastKept-tail chars c s h))
      | inr keeps ↦ rw (ltrim-cons_out chars c s keeps) ([], refl, tt, keeps, λ h. h)
    ]

rtrim-cons :
    (chars : Bytes) (c : ℕ) (s : Bytes)
    → rtrim chars (c ∷ s) ≡ elim (find_last_not_of chars s) [
      | none ↦ if contains chars c then [] else c ∷ []
      | some n ↦ c ∷ rtrim chars s
    ]
unfolding rtrim find_last_not_of
rtrim-cons chars c s = ground arith

rtrim-none : (chars s : Bytes) → find_last_not_of chars s ≡ none → rtrim chars s ≡ []
unfolding rtrim
rtrim-none chars s h = rw (h, rtrim)

LastKept-cons_some :
    (chars : Bytes) (c : ℕ) (s : Bytes) {n : ℕ}
    → find_last_not_of chars s ≡ some n
    → LastKept chars (rtrim chars s)
    → LastKept chars (c ∷ rtrim chars s)
unfolding rtrim find_last_not_of
LastKept-cons_some chars c [] h k = cc
LastKept-cons_some chars c (d ∷ s) h k = rw (h, LastKept) (rw (h, LastKept) at k)

pub rtrim_cut :
    (chars : Bytes) (s : Bytes)
    → (r : Bytes) × (s ≡ rtrim chars s ++ r) × Within chars r × LastKept chars (rtrim chars s)
rtrim_cut chars [] =
    ([], unfold rtrim find_last_not_of in refl, tt, unfold rtrim find_last_not_of in tt)
rtrim_cut chars (c ∷ s) =
    let (r, e, w, k) = rtrim_cut chars s in
    elim (Option-cases (find_last_not_of chars s)) [
      | inl gone ↦
          let e' : s ≡ r = e ∙ rw (rtrim-none chars s gone) in
          elim (Bool-cases (contains chars c)) [
            | inl drops ↦
                rw (rtrim-cons chars c s)
                  (rw gone (rw drops (c ∷ r, ap (◌∷◌ c) e', (drops, w), tt)))
            | inr keeps ↦
                rw (rtrim-cons chars c s) (rw gone (rw keeps (r, ap (◌∷◌ c) e', w, keeps)))
          ]
      | inr (n, stays) ↦
          rw (rtrim-cons chars c s)
            (rw stays (r, ap (◌∷◌ c) e, w, LastKept-cons_some chars c s stays k))
    ]

-- Trimming takes characters of the set off both ends, only those, and all of them.
pub trim_cut :
    (chars s : Bytes)
    → (l : Bytes) × (r : Bytes) × (s ≡ l ++ (trim chars s ++ r))
      × Within chars l
      × Within chars r
      × FirstKept chars (trim chars s)
      × LastKept chars (trim chars s)
trim_cut chars s =
    let (r, e, wr, k) = rtrim_cut chars s in
    let (l, f, wl, first, last) = ltrim_cut chars (rtrim chars s) in
    unfold trim in
    (
      l,
      r,
      e ∙ ap (λ t. t ++ r) f ∙ append_assoc l (ltrim chars (rtrim chars s)) r,
      wl,
      wr,
      first,
      last k,
    )

LastKept-append :
    (chars s : Bytes) (c : ℕ) (r : Bytes) → LastKept chars (s ++ c ∷ r) → Within chars (c ∷ r) → ⊥
LastKept-append chars [] c [] h (w, _) = ground arith
LastKept-append chars [] c (d ∷ r) h (_, w) = LastKept-append chars [] d r h w
LastKept-append chars (x ∷ []) c r h w = LastKept-append chars [] c r h w
LastKept-append chars (x ∷ y ∷ s) c r h w = LastKept-append chars (y ∷ s) c r h w

-- A string that keeps both ends is kept.
pub trim_kept : (chars s : Bytes) → FirstKept chars s → LastKept chars s → trim chars s ≡ s
trim_kept chars s f k = let (l, r, e, wl, wr, _, _) = trim_cut chars s in go l r e wl wr
  where
    go :
        (l r : Bytes)
        → s ≡ l ++ (trim chars s ++ r)
        → Within chars l
        → Within chars r
        → trim chars s ≡ s
    go (c ∷ l) r e (w, _) wr =
        let kept : FirstKept chars (c ∷ (l ++ (trim chars s ++ r))) = rw e at f in
        absurd (ground arith)
    go [] [] e wl wr = sym (e ∙ append-nil (trim chars s))
    go [] (c ∷ r) e wl wr =
        let kept : LastKept chars (trim chars s ++ c ∷ r) = rw e at k in
        absurd (LastKept-append chars (trim chars s) c r kept wr)
