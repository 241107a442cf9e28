-- ===== src/Calibrate/Ranges.antt =====
-- Lists of processors, written and counted.
use kdump.Prelude.{
  ℕ, zero, suc, ◌+◌, ◌-◌, ◌%◌, ◌^◌, ◌≤◌, ◌<◌, true, List, [], ◌∷◌, ◌++◌, append_assoc, ◌≡◌, refl,
  ap, ◌∙◌, some, arith, Bytes, Result, ok, ◌==◌, if◌then◌else◌, length, length-append, All,
  Bool-cases, inl, inr,
}
use kdump.Prelude.Int.{pos}
use kdump.KString.Number.{number2string}
use kdump.Calibrate.Cpus.{
  skip_spaces, got, signed_digits, read_number, CountError, delimited, add_range, range_end,
  element, round, count_from, count,
}
use kdump.Calibrate.Numbers.{no_digit, read_number-text}

-- The processors from the first to the second number.
abbrev pub item_text : ℕ × ℕ → Bytes
item_text r =
    if r.0 == r.1
    then number2string (pos r.0)
    else number2string (pos r.0) ++ b'-' ∷ number2string (pos r.1)

abbrev tail_text : List (ℕ × ℕ) → Bytes
tail_text [] = 10 ∷ []
tail_text (r ∷ rs) = b',' ∷ (item_text r ++ tail_text rs)

abbrev pub cpus_text : List (ℕ × ℕ) → Bytes
cpus_text [] = 10 ∷ []
cpus_text (r ∷ rs) = item_text r ++ tail_text rs

abbrev pub cpus_total : List (ℕ × ℕ) → ℕ
cpus_total [] = 0
cpus_total (r ∷ rs) = suc (r.1 - r.0) + cpus_total rs

abbrev pub IsRange : ℕ × ℕ → Type 0
IsRange r = (r.0 ≤ r.1) × (r.1 < 2 ^ 64)

no_digit-tail : (rs : List (ℕ × ℕ)) → no_digit (tail_text rs) ≡ true
no_digit-tail [] = refl
no_digit-tail (r ∷ rs) = refl

-- What follows a number that is not the start of a range.
element-tail :
    (next : Bytes → ℕ → Result CountError ℕ) (ret n : ℕ) (rs : List (ℕ × ℕ))
    → element next ret n (skip_spaces (tail_text rs))
      ≡ delimited next ret (skip_spaces (tail_text rs))
unfolding element skip_spaces
element-tail next ret n [] = refl
element-tail next ret n (r ∷ rs) = refl

element-dash :
    (next : Bytes → ℕ → Result CountError ℕ) (ret n : ℕ) (s : Bytes)
    → element next ret n (skip_spaces (b'-' ∷ s)) ≡ range_end next ret n (read_number s)
unfolding element skip_spaces
element-dash next ret n s = refl

add_range-lem :
    (ret lo hi : ℕ)
    → lo ≤ hi
    → hi < 2 ^ 64
    → ret + (hi - lo) < 2 ^ 64
    → add_range ret lo hi ≡ ret + (hi - lo)
unfolding add_range
add_range-lem ret lo hi le lt fits = omega arith

round-got :
    (next : Bytes → ℕ → Result CountError ℕ) (ret n : ℕ) (s : Bytes)
    → round next ret (got n s) ≡ element next ret n (skip_spaces s)
unfolding round
round-got next ret n s = refl

range_end-got :
    (next : Bytes → ℕ → Result CountError ℕ) (ret n1 n2 : ℕ) (s : Bytes)
    → range_end next ret n1 (got n2 s) ≡ delimited next (add_range ret n1 n2) (skip_spaces s)
unfolding range_end
range_end-got next ret n1 n2 s = refl

count_from-suc :
    (f : ℕ) (s : Bytes) (ret : ℕ)
    → count_from (suc f) s ret ≡ round (count_from f) ret (read_number s)
unfolding count_from
count_from-suc f s ret = refl

round-one :
    (next : Bytes → ℕ → Result CountError ℕ) (ret n : ℕ) (rs : List (ℕ × ℕ))
    → n < 2 ^ 64
    → round next ret (read_number (number2string (pos n) ++ tail_text rs))
      ≡ delimited next ret (skip_spaces (tail_text rs))
round-one next ret n rs lt =
    ap (round next ret) (read_number-text n (tail_text rs) lt (no_digit-tail rs))
    ∙ (round-got next ret n (tail_text rs) ∙ element-tail next ret n rs)

round-two :
    (next : Bytes → ℕ → Result CountError ℕ) (ret lo hi : ℕ) (rs : List (ℕ × ℕ))
    → lo ≤ hi
    → hi < 2 ^ 64
    → ret + (hi - lo) < 2 ^ 64
    → round next ret
        (read_number ((number2string (pos lo) ++ b'-' ∷ number2string (pos hi)) ++ tail_text rs))
      ≡ delimited next (ret + (hi - lo)) (skip_spaces (tail_text rs))
round-two next ret lo hi rs le lt fits =
    let behind = number2string (pos hi) ++ tail_text rs in
    ap (λ s. round next ret (read_number s))
      (append_assoc (number2string (pos lo)) (b'-' ∷ number2string (pos hi)) (tail_text rs))
    ∙ (ap (round next ret) (read_number-text lo (b'-' ∷ behind) (omega arith) refl)
        ∙ (round-got next ret lo (b'-' ∷ behind)
            ∙ (element-dash next ret lo behind
                ∙ (ap (range_end next ret lo)
                      (read_number-text hi (tail_text rs) lt (no_digit-tail rs))
                    ∙ (range_end-got next ret lo hi (tail_text rs)
                        ∙ ap (λ r. delimited next r (skip_spaces (tail_text rs)))
                            (add_range-lem ret lo hi le lt fits))))))

round-item :
    (next : Bytes → ℕ → Result CountError ℕ) (ret : ℕ) (r : ℕ × ℕ) (rs : List (ℕ × ℕ))
    → IsRange r
    → ret + (r.1 - r.0) < 2 ^ 64
    → round next ret (read_number (item_text r ++ tail_text rs))
      ≡ delimited next (ret + (r.1 - r.0)) (skip_spaces (tail_text rs))
round-item next ret (lo, hi) rs (le, lt) fits = elim (Bool-cases (lo == hi)) [
  | inl same ↦
      let none_more : ret + (hi - lo) ≡ ret = ground arith in
      rw (same, none_more) (round-one next ret lo rs (omega arith))
  | inr apart ↦ rw apart (round-two next ret lo hi rs le lt fits)
]

delimited-end :
    (next : Bytes → ℕ → Result CountError ℕ) (ret : ℕ)
    → suc ret < 2 ^ 64
    → delimited next ret (skip_spaces (tail_text [])) ≡ next [] (suc ret)
unfolding delimited skip_spaces
delimited-end next ret lt = let fits : suc ret % 2 ^ 64 ≡ suc ret = omega arith in ap (next []) fits

delimited-more :
    (next : Bytes → ℕ → Result CountError ℕ) (ret : ℕ) (r : ℕ × ℕ) (rs : List (ℕ × ℕ))
    → suc ret < 2 ^ 64
    → delimited next ret (skip_spaces (tail_text (r ∷ rs)))
      ≡ next (item_text r ++ tail_text rs) (suc ret)
unfolding delimited skip_spaces
delimited-more next ret r rs lt =
    let fits : suc ret % 2 ^ 64 ≡ suc ret = omega arith in
    ap (next (item_text r ++ tail_text rs)) fits

count_from-end : (f ret : ℕ) → count_from (suc f) [] ret ≡ ok ret
unfolding count_from round read_number skip_spaces signed_digits
count_from-end f ret = refl

count_from-items :
    (f : ℕ) (r : ℕ × ℕ) (rs : List (ℕ × ℕ)) (ret : ℕ)
    → IsRange r
    → All IsRange rs
    → ret + cpus_total (r ∷ rs) < 2 ^ 64
    → suc (suc (length rs)) ≤ f
    → count_from f (item_text r ++ tail_text rs) ret ≡ ok (ret + cpus_total (r ∷ rs))
count_from-items zero r rs ret h hs lt le = absurd (omega arith)
count_from-items (suc zero) r rs ret h hs lt le = absurd (omega arith)
count_from-items (suc (suc f)) r [] ret h hs lt le =
    count_from-suc (suc f) (item_text r ++ tail_text []) ret
    ∙ (round-item (count_from (suc f)) ret r [] h (omega arith)
        ∙ (delimited-end (count_from (suc f)) (ret + (r.1 - r.0)) (omega arith)
            ∙ (count_from-end f (suc (ret + (r.1 - r.0))) ∙ ap ok (omega arith))))
count_from-items (suc (suc f)) r (r' ∷ rs) ret h (h', hs) lt le =
    count_from-suc (suc f) (item_text r ++ tail_text (r' ∷ rs)) ret
    ∙ (round-item (count_from (suc f)) ret r (r' ∷ rs) h (omega arith)
        ∙ (delimited-more (count_from (suc f)) (ret + (r.1 - r.0)) r' rs (omega arith)
            ∙ (count_from-items (suc f) r' rs (suc (ret + (r.1 - r.0))) h' hs (omega arith)
                  (omega arith)
                ∙ ap ok (omega arith))))

length-tail : (rs : List (ℕ × ℕ)) → length rs ≤ length (tail_text rs)
length-tail [] = omega arith
length-tail (r ∷ rs) =
    let more = length-append (item_text r) (tail_text rs) in
    let rest = length-tail rs in omega arith

count-empty : count (some (cpus_text [])) ≡ ok 0
unfolding count count_from round read_number skip_spaces signed_digits
count-empty = refl

-- The kernel's list of processors is counted: where each range goes up, and the numbers fit in an
-- unsigned long, as their sum does, the count is the number of the processors of all ranges.
pub count-cpus :
    (rs : List (ℕ × ℕ))
    → All IsRange rs
    → cpus_total rs < 2 ^ 64
    → count (some (cpus_text rs)) ≡ ok (cpus_total rs)
unfolding count
count-cpus [] h lt = count-empty
count-cpus (r ∷ rs) (h, hs) lt =
    let more = length-append (item_text r) (tail_text rs) in
    let rest = length-tail rs in
    count_from-items (suc (suc (length (cpus_text (r ∷ rs))))) r rs 0 h hs (omega arith)
      (omega arith)
    ∙ ap ok (omega arith)
