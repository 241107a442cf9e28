-- ===== src/Transfer/Targets.antt =====
-- `FileTransfer::perform`: the files of a dump over the directories of the targets.
use native.Mathlib.Nat.{mod-eq_of_lt, add-mod_left}
use kdump.Prelude.{
  ℕ, zero, suc, ◌+◌, ◌%◌, ◌≤◌, ◌<◌, Bool, true, false, List, [], ◌∷◌, ◌≡◌, refl, sym, ap, ◌∙◌, some,
  arith, Bytes, length, get_elem?, drop, ltb, if◌then◌else◌, Bool-cases, inl, inr,
}
use kdump.Kernel.Path.{append_path}

some_inj {ℓ} : {A : Type ℓ} {x y : A} → some x ≡ some y → x ≡ y
some_inj e = cc

-- `itv` is what is left of the URLs' paths in this round; a new round begins with the first again.
-- Without URLs, the source reads behind the vector.
unfoldable pub full_targets : List Bytes → List Bytes → List Bytes → List Bytes
unfolding append_path
full_targets urls itv [] = []
full_targets urls [] (target ∷ targets) = []
full_targets urls (url ∷ []) (target ∷ targets) =
    append_path url target ∷ full_targets urls urls targets
full_targets urls (url ∷ next ∷ itv) (target ∷ targets) =
    append_path url target ∷ full_targets urls (next ∷ itv) targets

-- What is done with the provider: it saves to the files itself, or is read into the first.
pub data Saving : Type 0 where
  save_to_file : List Bytes → Saving
  pipe : List Bytes → Saving

-- And the flag `*directSave`.
unfoldable pub perform : Bool → List Bytes → List Bytes → Saving × Bool
unfolding full_targets
perform true urls targets = (save_to_file (full_targets urls urls targets), true)
perform false urls targets = (pipe (full_targets urls urls targets), false)

drop-get_elem? {ℓ} :
    {A : Type ℓ} (xs : List A) (k : ℕ) {x : A}
    → get_elem? xs k ≡ some x
    → drop k xs ≡ x ∷ drop (suc k) xs
drop-get_elem? [] k h = absurd (cc)
drop-get_elem? (y ∷ xs) zero h = rw (some_inj h)
drop-get_elem? (y ∷ xs) (suc k) h = drop-get_elem? xs k h

get_elem?-lt {ℓ} :
    {A : Type ℓ} (xs : List A) (k : ℕ) → k < length xs → (x : A) × (get_elem? xs k ≡ some x)
get_elem?-lt [] k h = absurd (omega arith)
get_elem?-lt (x ∷ xs) zero h = (x, refl)
get_elem?-lt (x ∷ xs) (suc k) h = get_elem?-lt xs k (omega arith)

drop-long {ℓ} : {A : Type ℓ} (n : ℕ) (xs : List A) → length xs ≤ n → drop n xs ≡ []
drop-long zero [] h = refl
drop-long zero (x ∷ xs) h = absurd (omega arith)
drop-long (suc n) [] h = refl
drop-long (suc n) (x ∷ xs) h = drop-long n xs (omega arith)

-- The URL behind `k` in its round.
abbrev turn : ℕ → ℕ → ℕ
turn n k = if ltb (suc k) n then suc k else 0

turn_lem : (n k i : ℕ) → k < n → (turn n k + i) % n ≡ (k + suc i) % n
turn_lem n k i h = elim (Bool-cases (ltb (suc k) n)) [
  | inl more ↦ let e : suc k + i ≡ k + suc i = omega arith in rw (more, e)
  | inr last ↦
      let e : k + suc i ≡ n + i = ground arith in
      let plus : 0 + i ≡ i = omega arith in rw (last, e, plus) (sym (add-mod_left n i))
]

full_targets-step :
    (urls : List Bytes) (k : ℕ) (target : Bytes) (targets : List Bytes) {url : Bytes}
    → k < length urls
    → get_elem? urls k ≡ some url
    → full_targets urls (drop k urls) (target ∷ targets)
      ≡ append_path url target ∷ full_targets urls (drop (turn (length urls) k) urls) targets
unfolding full_targets
full_targets-step urls k target targets {url} h there =
    let e = drop-get_elem? urls k there in
    elim (Bool-cases (ltb (suc k) (length urls))) [
      | inl more ↦
          let (next, after) = get_elem?-lt urls (suc k) (ground arith) in
          let e' = drop-get_elem? urls (suc k) after in rw (more, e, e')
      | inr last ↦ let e' = drop-long (suc k) urls (ground arith) in rw (last, e, e')
    ]

full_targets-from :
    (urls : List Bytes) (k : ℕ) (targets : List Bytes) (i : ℕ) {target url : Bytes}
    → k < length urls
    → get_elem? targets i ≡ some target
    → get_elem? urls ((k + i) % length urls) ≡ some url
    → get_elem? (full_targets urls (drop k urls) targets) i ≡ some (append_path url target)
full_targets-from urls k [] i h t u = absurd (cc)
full_targets-from urls k (first ∷ targets) zero {target} {url} h t u =
    let here : (k + 0) % length urls ≡ k =
      (let plus : k + 0 ≡ k = omega arith in rw plus (mod-eq_of_lt h)) in
    let e : get_elem? urls k ≡ some url = ap (get_elem? urls) (sym here) ∙ u in
    rw (full_targets-step urls k first targets h e)
      (ap (λ x. some (append_path url x)) (some_inj t))
full_targets-from urls k (first ∷ targets) (suc i) {target} {url} h t u =
    let (at_k, e) = get_elem?-lt urls k h in
    rw (full_targets-step urls k first targets h e) (
      full_targets-from urls (turn (length urls) k) targets i (ground arith) t
        (ap (get_elem? urls) (turn_lem (length urls) k i h) ∙ u))

-- The files go to the targets in turn: the i-th file to the target i modulo their number, whatever
-- the number of the files.
pub full_targets_lem :
    (urls targets : List Bytes) (i : ℕ) {target url : Bytes}
    → 0 < length urls
    → get_elem? targets i ≡ some target
    → get_elem? urls (i % length urls) ≡ some url
    → get_elem? (full_targets urls urls targets) i ≡ some (append_path url target)
full_targets_lem urls targets i {target} {url} h t u =
    let plus : 0 + i ≡ i = omega arith in full_targets-from urls 0 targets i h t (rw plus u)
