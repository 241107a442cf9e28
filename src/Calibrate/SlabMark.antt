-- ===== src/Calibrate/SlabMark.antt =====
-- The columns of /proc/slabinfo, and the mark of the slab data behind the tunables.
use kdump.Prelude.{
  ℕ, zero, suc, ◌-◌, Option, none, some, length, drop, isdigit, Bool, true, false, [], ◌∷◌, ◌++◌,
  ◌≡◌, refl, ap, throw, ◌∙◌, arith, Bytes, codes, Result, ok, ◌==◌, equal, All,
}
use kdump.Prelude.Int.{pos}
use kdump.KString.Search.{starts_with}
use kdump.KString.Number.{number2string, number2string-digits}
use kdump.Transfer.Shares.{find_text}
use kdump.Calibrate.Slabs.{slabdata_mark, SlabError, behind_mark, invalid_line}

unfoldable pub spaces : ℕ → Bytes
spaces zero = []
spaces (suc n) = b' ' ∷ spaces n

-- %*lu: a number in a width, behind the spaces that it leaves.
abbrev pub padded : ℕ → ℕ → Bytes → Bytes
padded width n s = spaces (width - length (number2string (pos n))) ++ (number2string (pos n) ++ s)

abbrev pub field : ℕ → ℕ → Bytes → Bytes
field width n s = b' ' ∷ padded width n s

-- What the reader passes over: the limit, the batch count and the shared factor, and the number of
-- shared objects at the end.
pub record Tunables : Type 0 where
  pub limit : ℕ
  pub batchcount : ℕ
  pub shared : ℕ
  pub shared_avail : ℕ

abbrev pub tunables_text : Tunables → Bytes → Bytes
tunables_text t s =
    codes " : tunables" ++ field 4 t.limit (field 4 t.batchcount (field 4 t.shared s))

abbrev starts_colon : Bytes → Bool
starts_colon [] = false
starts_colon (c ∷ s) = c == b':'

-- The text where the mark stands first, with what is behind it.
Marked : Bytes → Bytes → Type 0
Marked s r =
    (k : ℕ) × (find_text s slabdata_mark ≡ some k)
    × (drop k s ≡ slabdata_mark ++ r)
    × (starts_colon s ≡ false)

find_text-later :
    (c k : ℕ) (s : Bytes)
    → starts_with (c ∷ s) slabdata_mark ≡ false
    → find_text s slabdata_mark ≡ some k
    → find_text (c ∷ s) slabdata_mark ≡ some (suc k)
unfolding find_text
find_text-later c k s not_here found =
    rw not_here (ap (λ o. elim o as (λ _. Option ℕ) [ none ↦ none | some n ↦ some (suc n) ]) found)

not_at : (c d : ℕ) (s : Bytes) → (d == b':') ≡ false → starts_with (c ∷ d ∷ s) slabdata_mark ≡ false
unfolding starts_with equal
not_at c d s apart = ground arith

Marked-cons : (c : ℕ) (s r : Bytes) → (c == b':') ≡ false → Marked s r → Marked (c ∷ s) r
unfolding Marked
Marked-cons c [] r other (k, found, dropped, apart) =
    absurd (let e : find_text [] slabdata_mark ≡ none = (unfold find_text in refl) in cc)
Marked-cons c (d ∷ s) r other (k, found, dropped, apart) =
    (suc k, find_text-later c k (d ∷ s) (not_at c d s apart) found, dropped, other)

Marked-append : (t s r : Bytes) → All (λ c. (c == b':') ≡ false) t → Marked s r → Marked (t ++ s) r
Marked-append [] s r h m = m
Marked-append (c ∷ t) s r (h, hs) m = Marked-cons c (t ++ s) r h (Marked-append t s r hs m)

no_colon : (t : Bytes) → All (λ c. isdigit c ≡ true) t → All (λ c. (c == b':') ≡ false) t
no_colon [] h = tt
no_colon (c ∷ t) (h, hs) = (ground arith, no_colon t hs)

Marked-spaces : (k : ℕ) (s r : Bytes) → Marked s r → Marked (spaces k ++ s) r
unfolding spaces
Marked-spaces zero s r m = m
Marked-spaces (suc k) s r m = Marked-cons b' ' (spaces k ++ s) r refl (Marked-spaces k s r m)

Marked-field : (w n : ℕ) (s r : Bytes) → Marked s r → Marked (field w n s) r
Marked-field w n s r m =
    let digits = no_colon (number2string (pos n)) (number2string-digits n).1 in
    Marked-cons b' ' (padded w n s) r refl (
      Marked-spaces (w - length (number2string (pos n))) (number2string (pos n) ++ s) r
        (Marked-append (number2string (pos n)) s r digits m))

Marked-mark : (r : Bytes) → Marked (slabdata_mark ++ r) r
unfolding Marked find_text starts_with equal
Marked-mark r = (0, refl, refl, refl)

behind_mark-some :
    (s : Bytes) (k : ℕ)
    → find_text s slabdata_mark ≡ some k
    → behind_mark s ≡ ok (drop (length slabdata_mark) (drop k s))
unfolding behind_mark
behind_mark-some s k found =
    ap
      (λ o. elim o as (λ _. Result SlabError Bytes) [
        | none ↦ throw invalid_line
        | some sdpos ↦ ok (drop (length slabdata_mark) (drop sdpos s))
      ])
      found

-- The mark is found behind the tunables, which begin like it.
pub behind_mark-tunables :
    (t : Tunables) (r : Bytes) → behind_mark (tunables_text t (slabdata_mark ++ r)) ≡ ok r
unfolding Marked
behind_mark-tunables t r =
    let numbers =
      Marked-field 4 t.limit _ r
        (Marked-field 4 t.batchcount _ r (Marked-field 4 t.shared _ r (Marked-mark r))) in
    let rest = field 4 t.limit (field 4 t.batchcount (field 4 t.shared (slabdata_mark ++ r))) in
    let word =
      Marked-append (codes " tunables") rest r
        (refl, (refl, (refl, (refl, (refl, (refl, (refl, (refl, (refl, tt))))))))) numbers in
    let (k, found, dropped, apart) = word in
    let colon : find_text (b':' ∷ (codes " tunables" ++ rest)) slabdata_mark ≡ some (suc k) =
      find_text-later b':' k (codes " tunables" ++ rest) (unfold starts_with equal in refl) found in
    let space : find_text (tunables_text t (slabdata_mark ++ r)) slabdata_mark
        ≡ some (suc (suc k)) =
      find_text-later b' ' (suc k) (b':' ∷ (codes " tunables" ++ rest))
        (unfold starts_with equal in refl) colon in
    behind_mark-some (tunables_text t (slabdata_mark ++ r)) (suc (suc k)) space
    ∙ ap (λ p. ok (drop 12 p)) dropped
