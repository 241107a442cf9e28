-- ===== src/KString/Search.antt =====
-- The searches of std::string that the program uses, and `KString::startsWith` and `endsWith`.
-- A position is `some n`, and `npos` is `none`.
use kdump.Prelude.{
  ℕ, zero, suc, ◌-◌, ◌≤◌, ◌<◌, Bool, true, false, List, [], ◌∷◌, ◌++◌, ◌≡◌, refl, ap, sym, ◌∙◌, ◌↔◌,
  Option, none, some, arith, Bytes, ◌==◌, leb, if◌then◌else◌, equal, equal_iff, length, take, drop,
  take-append-drop, take_append_length, contains, All, ◌≢◌, length-append, drop_append_length,
  length-drop,
}

-- s.find(c)
unfoldable pub find : Bytes → ℕ → Option ℕ
find [] c = none
find (x ∷ s) c =
    let later = find s c in
    if x == c then some 0 else elim later [ none ↦ none | some n ↦ some (suc n) ]

-- s.rfind(c)
unfoldable pub rfind : Bytes → ℕ → Option ℕ
rfind [] c = none
rfind (x ∷ s) c = elim (rfind s c) [
  | none ↦ (if x == c then some 0 else none)
  | some n ↦ some (suc n)
]

-- s.find_first_not_of(chars)
unfoldable pub find_first_not_of : Bytes → Bytes → Option ℕ
find_first_not_of chars [] = none
find_first_not_of chars (x ∷ s) =
    let later = find_first_not_of chars s in
    if contains chars x then elim later [ none ↦ none | some n ↦ some (suc n) ] else some 0

-- s.find_last_not_of(chars)
unfoldable pub find_last_not_of : Bytes → Bytes → Option ℕ
find_last_not_of chars [] = none
find_last_not_of chars (x ∷ s) = elim (find_last_not_of chars s) [
  | none ↦ (if contains chars x then none else some 0)
  | some n ↦ some (suc n)
]

-- `compare(0, part.length(), part) == 0`: the compared piece ends at the end of the string.
unfoldable pub starts_with : Bytes → Bytes → Bool
unfolding equal
starts_with s part = equal (take (length part) s) part

unfoldable pub ends_with : Bytes → Bytes → Bool
unfolding equal
ends_with s part =
    if leb (length part) (length s)
    then equal (take (length part) (drop (length s - length part) s)) part
    else false

abbrev pub Lacks : ℕ → Bytes → Type 0
Lacks c = All (λ x. x ≢ c)

pub find-append : (c : ℕ) (p s : Bytes) → Lacks c p → find (p ++ c ∷ s) c ≡ some (length p)
unfolding find
find-append c [] s h = ground arith
find-append c (x ∷ p) s h = ground (arith, find-append c p s h.1)

pub find-none : (c : ℕ) (s : Bytes) → Lacks c s → find s c ≡ none
unfolding find
find-none c [] h = refl
find-none c (x ∷ s) h = ground (arith, find-none c s h.1)

-- A position that is found splits the string at the first `c`.
pub find_sound :
    (c : ℕ) (s : Bytes) (n : ℕ)
    → find s c ≡ some n
    → (n < length s) × (s ≡ take n s ++ c ∷ drop (suc n) s) × Lacks c (take n s)
unfolding find
find_sound c [] n h = cc
find_sound c (x ∷ s) zero h = ground arith
find_sound c (x ∷ s) (suc n) h = ground (arith, find_sound c s n)

pub find-none-Lacks : (c : ℕ) (s : Bytes) → find s c ≡ none → Lacks c s
unfolding find
find-none-Lacks c [] h = tt
find-none-Lacks c (x ∷ s) h = ground (arith, find-none-Lacks c s)

-- `startsWith` holds of the strings that begin with the part, and of no other.
pub starts_with_iff :
    (s part : Bytes) → (starts_with s part ≡ true) ↔ ((r : Bytes) × (s ≡ part ++ r))
starts_with_iff s part = (
  λ h. (
    drop (length part) s,
    sym (take-append-drop (length part) s)
        ∙ ap (λ t. t ++ drop (length part) s)
            ((equal_iff (take (length part) s) part).0 (unfold starts_with in h)),
  ),
  λ (r, e).
      unfold starts_with in
      rw e ((equal_iff (take (length part) (part ++ r)) part).1 (take_append_length part r)),
)

take_all {ℓ} : {A : Type ℓ} (n : ℕ) (s : List A) → length s ≤ n → take n s ≡ s
take_all zero [] h = refl
take_all zero (x ∷ s) h = absurd (omega arith)
take_all (suc n) [] h = refl
take_all (suc n) (x ∷ s) h = ap (◌∷◌ x) (take_all n s (omega arith))

split_tail : (r part : Bytes) → drop (length (r ++ part) - length part) (r ++ part) ≡ part
split_tail r part =
    let e : length (r ++ part) - length part ≡ length r = omega (arith, length-append r part) in
    rw e (drop_append_length r part)

ends_with-drop :
    (s part : Bytes)
    → length part ≤ length s
    → ends_with s part ≡ equal (drop (length s - length part) s) part
unfolding ends_with
ends_with-drop s part h =
    let fits : leb (length part) (length s) ≡ true = ground arith in
    let short : length (drop (length s - length part) s) ≤ length part =
      omega (arith, length-drop (length s - length part) s) in
    rw (fits, take_all (length part) (drop (length s - length part) s) short)

ends_with-le : (s part : Bytes) → ends_with s part ≡ true → length part ≤ length s
unfolding ends_with
ends_with-le s part h = ground arith

-- `endsWith` holds of the strings that end with the part, and of no other.
pub ends_with_iff : (s part : Bytes) → (ends_with s part ≡ true) ↔ ((r : Bytes) × (s ≡ r ++ part))
ends_with_iff s part = (to, from)
  where
    to : ends_with s part ≡ true → (r : Bytes) × (s ≡ r ++ part)
    to h =
        let n = length s - length part in
        let same =
          (equal_iff (drop n s) part).0 (sym (ends_with-drop s part (ends_with-le s part h)) ∙ h) in
        (take n s, sym (take-append-drop n s) ∙ ap (◌++◌ (take n s)) same)

    from : ((r : Bytes) × (s ≡ r ++ part)) → ends_with s part ≡ true
    from (r, e) =
        rw
          (
            e,
            ends_with-drop (r ++ part) part (omega (arith, length-append r part)),
            split_tail r part,
          )
          ((equal_iff part part).1 refl)

rfind-none : (c : ℕ) (s : Bytes) → Lacks c s → rfind s c ≡ none
unfolding rfind
rfind-none c [] h = refl
rfind-none c (x ∷ s) h = ground (arith, rfind-none c s h.1)

pub rfind-append : (c : ℕ) (p s : Bytes) → Lacks c s → rfind (p ++ c ∷ s) c ≡ some (length p)
unfolding rfind
rfind-append c [] s h = ground (arith, rfind-none c s h)
rfind-append c (x ∷ p) s h = rw (rfind-append c p s h)

pub drop_behind {ℓ} :
    {A : Type ℓ} (p : List A) (c : A) (r : List A) → drop (suc (length p)) (p ++ c ∷ r) ≡ r
drop_behind [] c r = refl
drop_behind (x ∷ p) c r = drop_behind p c r
