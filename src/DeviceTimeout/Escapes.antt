-- ===== src/DeviceTimeout/Escapes.antt =====
-- `unescape_fstab` on fields with and without an octal escape.
use kdump.Prelude.{
  ℕ, zero, suc, ◌+◌, true, false, ◌||◌, List, [], ◌∷◌, ◌++◌, append_assoc, append-nil, ◌≡◌, ◌≢◌,
  refl, sym, ap, ◌∙◌, arith, Bytes, ◌==◌, length, drop, length-append, All, All-append,
}
use kdump.DeviceTimeout.Args.{cstr}
use kdump.DeviceTimeout.Words.{NonNul, cstr_self}
use kdump.DeviceTimeout.Fstab.{isoctal, octal_value, written, unescape_fstab}

-- Neither a backslash nor NUL.
abbrev pub PlainByte : ℕ → Type 0
PlainByte c = (c == 92 || c == 0) ≡ false

NonNul-plain : (p : Bytes) → All PlainByte p → All NonNul p
NonNul-plain [] h = tt
NonNul-plain (c ∷ p) h = let e = h.0 in (ground arith, NonNul-plain p h.1)

written-plain : (p s : Bytes) → All PlainByte p → written 0 (p ++ s) ≡ p ++ written 0 s
unfolding written
written-plain [] s h = refl
written-plain (c ∷ p) s h =
    let e = h.0 in
    let step : written 0 (c ∷ p ++ s) ≡ c ∷ written 0 (p ++ s) = ground arith in
    step ∙ ap (◌∷◌ c) (written-plain p s h.1)

written-plain_self : (p : Bytes) → All PlainByte p → written 0 p ≡ p
written-plain_self p h =
    let none_behind : written 0 [] ≡ [] = unfold written in refl in
    ap (written 0) (sym (append-nil p))
    ∙ written-plain p [] h
    ∙ ap (λ t. p ++ t) none_behind
    ∙ append-nil p

abbrev pub IsOctal : ℕ → Type 0
IsOctal c = isoctal c ≡ true

written-escape :
    (a b c : ℕ) (s : Bytes)
    → IsOctal a
    → IsOctal b
    → IsOctal c
    → All PlainByte s
    → written 0 (92 ∷ a ∷ b ∷ c ∷ s) ≡ octal_value (a ∷ b ∷ c ∷ s) ∷ c ∷ s
unfolding written
written-escape a b c s ha hb hc h =
    let digit : written 0 (c ∷ s) ≡ c ∷ s = written-plain_self (c ∷ s) (ground arith, h) in
    rw (ha, hb, hc) (ap (◌∷◌ (octal_value (a ∷ b ∷ c ∷ s))) digit)

drop_add {ℓ} : {A : Type ℓ} (p s : List A) (n : ℕ) → drop (length p + n) (p ++ s) ≡ drop n s
drop_add {A} [] s n = let e : length {A = A} [] + n ≡ n = omega arith in rw e
drop_add {A} (x ∷ p) s n =
    let e : length (x ∷ p) + n ≡ suc (length p + n) = omega arith in rw e (drop_add p s n)

All-drop : (n : ℕ) (s : Bytes) → All NonNul s → All NonNul (drop n s)
All-drop zero s h = h
All-drop (suc n) [] h = tt
All-drop (suc n) (c ∷ s) h = All-drop n s h.1

-- A field without backslashes is left as it is.
pub unescape_fstab-plain : (s : Bytes) → All PlainByte s → unescape_fstab s ≡ s
unfolding unescape_fstab
unescape_fstab-plain s h =
    let all = drop_add s [] 0 in
    let e : length s + 0 ≡ length s = omega arith in
    let behind : drop (length s) s ≡ [] = rw (append-nil s, e) at all in
    rw (written-plain_self s h, behind, append-nil s) (cstr_self s (NonNul-plain s h))

module _ (p s : Bytes) (a b c : ℕ) where
  -- A field with one octal escape (of a character that is not NUL, and nothing else with a
  -- backslash) is not what it stands for: behind the character, the last digit of the escape is kept,
  -- and the last two bytes of the field stand twice.
  pub unescape_fstab-keeps_digit :
      All PlainByte p
      → All PlainByte s
      → IsOctal a
      → IsOctal b
      → IsOctal c
      → NonNul (octal_value (a ∷ b ∷ c ∷ s))
      → let char = octal_value (a ∷ b ∷ c ∷ s) in
        let result = unescape_fstab (p ++ 92 ∷ a ∷ b ∷ c ∷ s) in
        (result ≡ p ++ char ∷ c ∷ (s ++ drop (length s) (b ∷ c ∷ s))) × (result ≢ p ++ char ∷ s)
  unfolding unescape_fstab
  unescape_fstab-keeps_digit hp hs ha hb hc hv =
      let char = octal_value (a ∷ b ∷ c ∷ s) in
      let spec : Bytes = p ++ 92 ∷ a ∷ b ∷ c ∷ s in
      let out : Bytes = char ∷ c ∷ s in
      let end : Bytes = drop (length s) (b ∷ c ∷ s) in
      let digits : All NonNul (b ∷ c ∷ s) = (ground arith, (ground arith, NonNul-plain s hs)) in
      let loop : written 0 spec ≡ p ++ out =
        written-plain p (92 ∷ a ∷ b ∷ c ∷ s) hp
        ∙ ap (λ t. p ++ t) (written-escape a b c s ha hb hc hs) in
      let kept : drop (length (p ++ out)) spec ≡ end =
        rw (length-append p out) (drop_add p (92 ∷ a ∷ b ∷ c ∷ s) (length out)) in
      let nonnul : All NonNul (p ++ (out ++ end)) =
        All-append NonNul p (out ++ end) (NonNul-plain p hp) (
          hv,
          (digits.1.0, All-append NonNul s end digits.1.1 (All-drop (length s) (b ∷ c ∷ s) digits)),
        ) in
      let whole : unescape_fstab spec ≡ p ++ (out ++ end) =
        ap (λ t. cstr (t ++ drop (length t) spec)) loop
        ∙ ap (λ t. cstr ((p ++ out) ++ t)) kept
        ∙ ap cstr (append_assoc p out end)
        ∙ cstr_self (p ++ (out ++ end)) nonnul in
      let long = length-append p (out ++ end) in
      let longer = length-append s end in
      let short = length-append p (char ∷ s) in
      (whole, λ same. omega (arith, ap length (sym whole ∙ same), long, longer, short))
