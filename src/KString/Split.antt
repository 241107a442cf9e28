-- ===== src/KString/Split.antt =====
-- `KString::split` and `StringVector::join`. The loop of `split` runs on fuel; the suffix from
-- `start` stands for the pair of the string and `start`. One round more than the string has
-- bytes is enough, as `join-split` shows: on too little fuel the rest of the string is lost.
use kdump.Prelude.{
  ℕ, zero, suc, ◌<◌, List, [], ◌∷◌, ◌++◌, append-nil, append_assoc, ◌≡◌, ◌≢◌, refl, sym, ap, ◌∙◌,
  none, some, arith, Bytes, length, take, drop, take_append_length, length-drop, length-append, All,
  All-append, Option-cases, inl, inr,
}
use kdump.KString.Search.{
  find, find-append, find-none, find_sound, find-none-Lacks, Lacks, drop_behind,
}

split_from : ℕ → Bytes → ℕ → List Bytes → List Bytes
split_from zero rest c ret = ret
split_from (suc f) rest c ret = elim (find rest c) [
  | none ↦ ret ++ rest ∷ []
  | some n ↦ split_from f (drop (suc n) rest) c (ret ++ take n rest ∷ [])
]

unfoldable pub split : Bytes → ℕ → List Bytes
unfolding split_from find
split s c = split_from (suc (length s)) s c []

join_from : ℕ → Bytes → List Bytes → Bytes
join_from joiner result [] = result
join_from joiner result (p ∷ ps) = join_from joiner ((result ++ joiner ∷ []) ++ p) ps

unfoldable pub join : ℕ → List Bytes → Bytes
unfolding join_from
join joiner [] = []
join joiner (p ∷ ps) = join_from joiner p ps

-- Every part with the separator before it.
abbrev led : ℕ → List Bytes → Bytes
led c [] = []
led c (p ∷ ps) = c ∷ (p ++ led c ps)

led-append : (c : ℕ) (ps qs : List Bytes) → led c (ps ++ qs) ≡ led c ps ++ led c qs
led-append c [] qs = refl
led-append c (p ∷ ps) qs = simp (led-append c ps, append_assoc)

join_from-led :
    (c : ℕ) (result : Bytes) (ps : List Bytes) → join_from c result ps ≡ result ++ led c ps
unfolding join_from
join_from-led c result [] = sym (append-nil result)
join_from-led c result (p ∷ ps) =
    rw (join_from-led c ((result ++ c ∷ []) ++ p) ps) (simp append_assoc)

led-join : (c : ℕ) (ps : List Bytes) → ps ≢ [] → led c ps ≡ c ∷ join c ps
unfolding join
led-join c [] h = absurd (h refl)
led-join c (p ∷ ps) h = rw join_from-led

snoc-ne-nil {ℓ} : {A : Type ℓ} (xs : List A) (x : A) → (xs ++ x ∷ []) ≢ []
snoc-ne-nil [] x = λ e. cc
snoc-ne-nil (y ∷ xs) x = λ e. cc

-- With fuel for the rest, what `split` returns spells the string, has a part, and keeps the
-- separator out of each part.
split_from_lem :
    (f : ℕ) (rest : Bytes) (c : ℕ) (ret : List Bytes)
    → length rest < f
    → All (Lacks c) ret
    → (led c (split_from f rest c ret) ≡ led c ret ++ c ∷ rest)
      × (split_from f rest c ret ≢ [])
      × All (Lacks c) (split_from f rest c ret)
unfolding split_from
split_from_lem zero rest c ret h clean = absurd (omega arith)
split_from_lem (suc f) rest c ret h clean = elim (Option-cases (find rest c)) [
  | inl e ↦
      rw (e, split_from)
        (
          led-append c ret (rest ∷ []) ∙ simp append-nil,
          snoc-ne-nil ret rest,
          All-append (Lacks c) ret (rest ∷ []) clean (find-none-Lacks c rest e, tt),
        )
  | inr (n, e) ↦
      let (inside, spelled, before) = find_sound c rest n e in
      let (text, some_part, parts) =
        split_from_lem f (drop (suc n) rest) c (ret ++ take n rest ∷ [])
          (omega (arith, length-drop (suc n) rest))
          (All-append (Lacks c) ret (take n rest ∷ []) clean (before, tt)) in
      rw (e, split_from)
        (
          text ∙ rw led-append (simp append_assoc (ap (λ t. led c ret ++ c ∷ t) (sym spelled))),
          some_part,
          parts,
        )
]

cons_tail : {c d : ℕ} {s t : Bytes} → ◌≡◌ {A = Bytes} (c ∷ s) (d ∷ t) → s ≡ t
cons_tail h = cc

-- Joining the parts of a split gives the string back, and no part holds the separator.
pub join-split : (s : Bytes) (c : ℕ) → (join c (split s c) ≡ s) × All (Lacks c) (split s c)
unfolding split
join-split s c =
    let (text, some_part, parts) = split_from_lem (suc (length s)) s c [] (omega arith) tt in
    (cons_tail (sym (led-join c (split_from (suc (length s)) s c []) some_part) ∙ text), parts)

split_from-led :
    (f : ℕ) (p : Bytes) (ps : List Bytes) (c : ℕ) (ret : List Bytes)
    → length (p ++ led c ps) < f
    → Lacks c p
    → All (Lacks c) ps
    → split_from f (p ++ led c ps) c ret ≡ ret ++ p ∷ ps
unfolding split_from
split_from-led zero p ps c ret h hp hps = absurd (omega arith)
split_from-led (suc f) p [] c ret h hp hps = simp append-nil (rw (find-none c p hp, split_from))
split_from-led (suc f) p (q ∷ qs) c ret h hp (hq, hqs) =
    let short : length (q ++ led c qs) < f = omega (arith, length-append p (c ∷ (q ++ led c qs))) in
    rw (find-append c p (q ++ led c qs) hp, split_from)
      (rw (drop_behind p c (q ++ led c qs), take_append_length p (c ∷ (q ++ led c qs)))
        (split_from-led f q qs c (ret ++ p ∷ []) short hq hqs ∙ append_assoc ret (p ∷ []) (q ∷ qs)))

-- Splitting a join gives the parts back, if there is a part and none holds the separator.
pub split-join : (ps : List Bytes) (c : ℕ) → ps ≢ [] → All (Lacks c) ps → split (join c ps) c ≡ ps
unfolding split join
split-join [] c h _ = absurd (h refl)
split-join (p ∷ ps) c h (hp, hps) =
    rw (join_from-led c p ps)
      (split_from-led (suc (length (p ++ led c ps))) p ps c [] (omega arith) hp hps)
