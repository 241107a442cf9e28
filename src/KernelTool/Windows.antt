-- ===== src/KernelTool/Windows.antt =====
-- `findBytes` on the windows that the reads of kerneltool.cc leave in the buffer.
use kdump.Prelude.{
  ℕ, zero, suc, ◌+◌, ◌-◌, ◌≤◌, ◌<◌, true, false, Option, none, some, List, [], ◌∷◌, ◌++◌, Bytes,
  arith, ◌≡◌, refl, sym, ap, ◌∙◌, Bool-cases, inl, inr, length, take, drop, equal, length-append,
  length-drop, length-take_le, take-add, drop-drop, take_append_le, min, take-append-drop,
  take_append_length, drop_append_length,
}
use kdump.KString.Search.{starts_with}
use kdump.Transfer.Pipe.{zeros}
use kdump.KernelTool.Ikconfig.{one_further, find_within, refill, overlap}

-- The needle stands at this place.
unfoldable pub Stands : Bytes → ℕ → Bytes → Type 0
unfolding starts_with
Stands needle i s = starts_with (drop i s) needle ≡ true

-- It stands there, within the text, and nowhere before.
unfoldable pub First : Bytes → ℕ → Bytes → Type 0
unfolding Stands
First needle x s =
    (x + length needle ≤ length s)
    × Stands needle x s
    × ((i : ℕ) → i < x → starts_with (drop i s) needle ≡ false)

-- What `findBytes` says.
unfoldable pub Found : ℕ → Bytes → Bytes → Option ℕ → Type 0
unfolding Stands
Found n s needle none = (i : ℕ) → i < n → starts_with (drop i s) needle ≡ false
Found n s needle (some i) =
    (i < n) × Stands needle i s × ((j : ℕ) → j < i → starts_with (drop j s) needle ≡ false)

shifted :
    (i : ℕ) (s needle : Bytes)
    → starts_with (drop i (drop 1 s)) needle ≡ starts_with (drop (suc i) s) needle
shifted i s needle =
    let e : 1 + i ≡ suc i = omega arith in
    ap (λ t. starts_with t needle) (drop-drop 1 i s ∙ ap (λ n. drop n s) e)

misses_further :
    (n : ℕ) (s needle : Bytes)
    → starts_with s needle ≡ false
    → ((i : ℕ) → i < n → starts_with (drop i (drop 1 s)) needle ≡ false)
    → (i : ℕ) → i < suc n
    → starts_with (drop i s) needle ≡ false
misses_further n s needle miss h zero below = miss
misses_further n s needle miss h (suc i) below = sym (shifted i s needle) ∙ h i (omega arith)

found_further :
    (n : ℕ) (s needle : Bytes) (o : Option ℕ)
    → starts_with s needle ≡ false
    → Found n (drop 1 s) needle o
    → Found (suc n) s needle (one_further o)
unfolding Found one_further Stands
found_further n s needle none miss h = misses_further n s needle miss h
found_further n s needle (some i) miss (below, here, first) =
    (omega arith, sym (shifted i s needle) ∙ here, misses_further i s needle miss first)

pub find_within-Found : (n : ℕ) (s needle : Bytes) → Found n s needle (find_within n s needle)
unfolding Found find_within Stands
find_within-Found zero s needle = λ i below. absurd (omega arith)
find_within-Found (suc n) s needle = elim (Bool-cases (starts_with s needle)) [
  | inl here ↦ rw here (omega arith, here, λ j lower. absurd (omega arith))
  | inr miss ↦ rw miss (
      found_further n s needle (find_within n (drop 1 s) needle) miss
        (find_within-Found n (drop 1 s) needle))
]

take-drop-take {ℓ} :
    {A : Type ℓ} (n i k : ℕ) (s : List A)
    → i + k ≤ n
    → take k (drop i s) ≡ take k (drop i (take n s))
take-drop-take n zero zero s fits = refl
take-drop-take zero zero (suc k) s fits = absurd (omega arith)
take-drop-take zero (suc i) k s fits = absurd (omega arith)
take-drop-take (suc n) zero (suc k) [] fits = refl
take-drop-take (suc n) zero (suc k) (x ∷ s) fits =
    ap (◌∷◌ x) (take-drop-take n zero k s (omega arith))
take-drop-take (suc n) (suc i) k [] fits = refl
take-drop-take (suc n) (suc i) k (x ∷ s) fits = take-drop-take n i k s (omega arith)

-- What agrees up to `n` agrees on a part of it.
take-drop-prefix {ℓ} :
    {A : Type ℓ} (n i k : ℕ) (s t : List A)
    → i + k ≤ n
    → take n s ≡ take n t
    → take k (drop i s) ≡ take k (drop i t)
take-drop-prefix n i k s t fits same =
    take-drop-take n i k s fits
    ∙ ap (λ p. take k (drop i p)) same
    ∙ sym (take-drop-take n i k t fits)

-- Texts that agree up to `n` agree on what starts before, and ends by then.
starts_with_prefix :
    (n i : ℕ) (s t needle : Bytes)
    → i + length needle ≤ n
    → take n s ≡ take n t
    → starts_with (drop i s) needle ≡ starts_with (drop i t) needle
unfolding starts_with
starts_with_prefix n i s t needle fits same =
    ap (λ p. equal p needle) (take-drop-prefix n i (length needle) s t fits same)

module _ (chunk : ℕ) (whole : Bytes) where
  -- The text behind the zeros that `memset` leaves at the start.
  abbrev pub padded : Bytes
  padded = zeros 8 ++ whole

  -- The first bytes of the buffer are the last that were read.
  pub record Keeps (fileoffset : ℕ) (buffer : Bytes) : Type 0 where
    pub size : length buffer ≡ chunk + 8
    pub carried : take 8 buffer ≡ take 8 (drop fileoffset padded)

length-take {ℓ} : {A : Type ℓ} (n : ℕ) (s : List A) → length (take n s) ≡ min n (length s)
length-take zero s = omega arith
length-take (suc n) [] = omega arith
length-take (suc n) (x ∷ s) = omega (arith, length-take n s)

pub length-zeros : (n : ℕ) → length (zeros n) ≡ n
unfolding zeros
length-zeros zero = refl
length-zeros (suc n) = ap suc (length-zeros n)

take-length-take {ℓ} : {A : Type ℓ} (n : ℕ) (s : List A) → take (length (take n s)) s ≡ take n s
take-length-take n s =
    ap (take (length (take n s))) (sym (take-append-drop n s))
    ∙ take_append_length (take n s) (drop n s)

take_of_three {ℓ} :
    {A : Type ℓ} (a b c : List A) → take (length a + length b) (a ++ b ++ c) ≡ a ++ b
take_of_three a b c =
    ap (λ n. take n (a ++ b ++ c)) (sym (length-append a b)) ∙ take_append_length (a ++ b) c

module _ (chunk : ℕ) (whole : Bytes) (f : ℕ) (buffer : Bytes) (k : Keeps chunk whole f buffer) where
  abbrev pub got : Bytes
  got = take chunk (drop f whole)

  abbrev pub window : Bytes
  window = refill 8 buffer got

  behind_zeros : drop 8 (drop f (padded chunk whole)) ≡ drop f whole
  unfolding zeros
  behind_zeros =
      let e : f + 8 ≡ 8 + f = omega arith in
      drop-drop f 8 (padded chunk whole)
      ∙ ap (λ n. drop n (padded chunk whole)) e
      ∙ sym (drop-drop 8 f (padded chunk whole))
      ∙ ap (drop f) (drop_append_length (zeros 8) whole)

  length-carried : length (take 8 buffer) ≡ 8
  length-carried = length-take_le 8 buffer (omega (arith, k.size))

  window_prefix : take (8 + length got) window ≡ take (8 + length got) (drop f (padded chunk whole))
  unfolding refill
  window_prefix =
      let three = take_of_three (take 8 buffer) got (drop (8 + length got) buffer) in
      rw length-carried at three
      ∙ ap (λ p. p ++ got) k.carried
      ∙ ap (λ q. take 8 (drop f (padded chunk whole)) ++ q)
          (sym (take-length-take chunk (drop f whole)) ∙ ap (take (length got)) (sym behind_zeros))
      ∙ take-add 8 (length got) (drop f (padded chunk whole))

  pub length-got : length got ≡ min chunk (length whole - f)
  length-got = omega (arith, length-take chunk (drop f whole), length-drop f whole)

  pub length-window : length window ≡ chunk + 8
  unfolding refill
  length-window = omega (
    arith,
    length-append (take 8 buffer ++ got) (drop (8 + length got) buffer),
    length-append (take 8 buffer) got,
    length-carried,
    length-drop (8 + length got) buffer,
    k.size,
    length-got,
  )

  -- What the search sees in the window stands in the text.
  pub window_stands :
      (i : ℕ) (needle : Bytes)
      → length needle ≡ 8
      → i ≤ length got
      → starts_with (drop i window) needle ≡ starts_with (drop (f + i) (padded chunk whole)) needle
  window_stands i needle size fits =
      starts_with_prefix (8 + length got) i window (drop f (padded chunk whole)) needle
        (omega (arith, size)) window_prefix
      ∙ ap (λ t. starts_with t needle) (drop-drop f i (padded chunk whole))

  -- The buffer after a full read.
  pub overlap-Keeps : f + chunk ≤ length whole → Keeps chunk whole (f + chunk) (overlap window)
  unfolding overlap
  overlap-Keeps full = record {
    size = omega (
      arith,
      length-append (drop (length window - 8) window) (drop 8 window),
      length-drop (length window - 8) window,
      length-drop 8 window,
      length-window,
    );
    carried =
        let e : length window - 8 ≡ chunk = omega (arith, length-window) in
        let n : 8 ≤ length (drop chunk window) =
          omega (arith, length-drop chunk window, length-window) in
        rw e (take_append_le 8 (drop chunk window) (drop 8 window) n)
        ∙ take-drop-prefix (8 + length got) chunk 8 window (drop f (padded chunk whole))
            (omega (arith, length-got)) window_prefix
        ∙ ap (take 8) (drop-drop f chunk (padded chunk whole));
  }
