-- ===== src/Kconfig/Lines.antt =====
-- The lines of a kernel configuration, written and read back.
use kdump.Prelude.{
  ℕ, suc, ◌+◌, ◌<◌, true, false, [], ◌∷◌, ◌++◌, append-nil, Bytes, codes, ok, ◌==◌, leb, isalpha,
  isdigit, length, equal, equal_iff, last_byte, erase_last, last_byte-append, erase_last-append,
  ◌≡◌, ◌≢◌, refl, arith, contains, All, Bool-cases, inl, inr, take_append_length, length-append,
}
use kdump.Prelude.Int.{ℤ, pos, negsuc}
use kdump.KString.Search.{starts_with, Lacks, find-append, drop_behind}
use kdump.KString.Trim.{trim, LastKept, trim_kept}
use kdump.KString.Number.{
  is_number, number2string, as_int-number2string, number2string-digits, int_max, InRange,
}
use kdump.Kconfig.Value.{
  on, off, module_, KconfigValue, invalid, tristate, integer, string, holds, at, from_comment,
  unquote, from_value, from_pair, from_string,
}

-- What the kernel's build writes for a value.
abbrev pub value_text : KconfigValue → Bytes
value_text (tristate on) = codes "y"
value_text (tristate _) = codes "m"
value_text (integer n) = number2string n
value_text (string s) = b'"' ∷ (s ++ b'"' ∷ [])
value_text invalid = []

abbrev pub line_text : Bytes → KconfigValue → Bytes
line_text name (tristate off) = b'#' ∷ b' ' ∷ (name ++ codes " is not set")
line_text name value = name ++ b'=' ∷ value_text value

-- A letter, and no space, '=' or newline behind it.
abbrev pub IsName : Bytes → Type 0
IsName [] = ⊥
IsName (c ∷ s) = (isalpha c ≡ true) × Lacks b' ' (c ∷ s) × Lacks b'=' (c ∷ s)

abbrev pub IsWritten : KconfigValue → Type 0
IsWritten invalid = ⊥
IsWritten (integer n) = InRange int_max n
IsWritten _ = Unit

not_a_letter : (s t : Bytes) → is_number t ≡ false → is_number s ≡ true → equal s t ≡ false
not_a_letter s t letter number = elim (Bool-cases (equal s t)) [
  | inl same ↦ let e : s ≡ t = (equal_iff s t).0 same in absurd (cc)
  | inr differ ↦ differ
]

from_value-number : (n : ℤ) → InRange int_max n → from_value (number2string n) ≡ ok (integer n)
unfolding from_value
from_value-number n h =
    let (value, number) = as_int-number2string n h in
    let y = not_a_letter (number2string n) (codes "y") (unfold is_number in refl) number in
    let m = not_a_letter (number2string n) (codes "m") (unfold is_number in refl) number in
    rw (y, m, number, value)

quoted_not_number : (s : Bytes) → is_number (b'"' ∷ s) ≡ false
unfolding is_number
quoted_not_number s = refl

quoted_is_longer : (s : Bytes) → equal (b'"' ∷ (s ++ b'"' ∷ [])) (b'"' ∷ []) ≡ false
unfolding equal
quoted_is_longer [] = refl
quoted_is_longer (c ∷ s) = refl

from_value-quoted : (s : Bytes) → from_value (b'"' ∷ (s ++ b'"' ∷ [])) ≡ ok (string s)
unfolding from_value unquote at last_byte erase_last
from_value-quoted s =
    let y : equal (b'"' ∷ (s ++ b'"' ∷ [])) (codes "y") ≡ false = unfold equal in refl in
    let m : equal (b'"' ∷ (s ++ b'"' ∷ [])) (codes "m") ≡ false = unfold equal in refl in
    rw (y, m, quoted_not_number (s ++ b'"' ∷ []), quoted_is_longer s)
      (rw (last_byte-append s b'"', erase_last-append s b'"', append-nil))

from_value-value_text :
    (value : KconfigValue)
    → IsWritten value
    → (value ≡ tristate off → ⊥)
    → from_value (value_text value) ≡ ok value
from_value-value_text (tristate on) w h = unfold from_value equal in refl
from_value-value_text (tristate module_) w h = unfold from_value equal in refl
from_value-value_text (tristate off) w h = absurd (h refl)
from_value-value_text (integer n) w h = from_value-number n w
from_value-value_text (string s) w h = from_value-quoted s
from_value-value_text invalid w h = elim w [ ]

abbrev newline : Bytes
newline = b'\n' ∷ []

kept_digits : (s : Bytes) → All (λ c. isdigit c ≡ true) s → LastKept newline s
unfolding contains
kept_digits [] h = tt
kept_digits (c ∷ []) (h, _) = ground arith
kept_digits (c ∷ d ∷ s) (_, h) = kept_digits (d ∷ s) h

kept_behind :
    (p : Bytes) (c : ℕ) (r : Bytes) → LastKept newline (c ∷ r) → LastKept newline (p ++ c ∷ r)
kept_behind [] c r h = h
kept_behind (x ∷ []) c r h = h
kept_behind (x ∷ y ∷ p) c r h = kept_behind (y ∷ p) c r h

kept_cons :
    (c : ℕ) (r : Bytes) → contains newline c ≡ false → LastKept newline r → LastKept newline (c ∷ r)
kept_cons c [] h k = h
kept_cons c (d ∷ r) h k = k

value_text-LastKept : (value : KconfigValue) → IsWritten value → LastKept newline (value_text value)
unfolding contains
value_text-LastKept (tristate on) w = refl
value_text-LastKept (tristate module_) w = refl
value_text-LastKept (tristate off) w = refl
value_text-LastKept (integer (pos n)) w = kept_digits _ (number2string-digits n).1
value_text-LastKept (integer (negsuc n)) w =
    let e : number2string (negsuc n) ≡ b'-' ∷ number2string (pos (suc n)) =
      unfold number2string in refl in
    rw e (
      kept_cons b'-' (number2string (pos (suc n))) refl
        (kept_digits _ (number2string-digits (suc n)).1))
value_text-LastKept (string s) w = kept_behind (b'"' ∷ s) b'"' [] refl
value_text-LastKept invalid w = elim w [ ]

not_empty : (s : Bytes) → s ≢ [] → 0 < length s
not_empty [] h = absurd (h refl)
not_empty (c ∷ s) h = omega arith

value_text_not_empty : (value : KconfigValue) → IsWritten value → 0 < length (value_text value)
value_text_not_empty (tristate on) w = omega arith
value_text_not_empty (tristate module_) w = omega arith
value_text_not_empty (tristate off) w = omega arith
value_text_not_empty (integer (pos n)) w = not_empty _ (number2string-digits n).0
value_text_not_empty (integer (negsuc n)) w = unfold number2string in omega arith
value_text_not_empty (string s) w = omega arith
value_text_not_empty invalid w = elim w [ ]

from_pair-append :
    (name text : Bytes) (value : KconfigValue)
    → Lacks b'=' name
    → 0 < length text
    → from_value text ≡ ok value
    → from_pair (name ++ b'=' ∷ text) ≡ ok (value, name)
unfolding from_pair
from_pair-append name text value h some_text e =
    let long : leb (length (name ++ b'=' ∷ text)) (length name + 1) ≡ false =
      let l = length-append name (b'=' ∷ text) in ground arith in
    rw (from_pair, find-append b'=' name text h)
      (rw (drop_behind name b'=' text, long, e, take_append_length name (b'=' ∷ text)))

letter_kept : (c : ℕ) → isalpha c ≡ true → (contains newline c ≡ false) × ((c == b'#') ≡ false)
unfolding contains
letter_kept c h = (ground arith, ground arith)

from_string-pair :
    (before name text : Bytes) (value : KconfigValue)
    → IsName name
    → 0 < length text
    → LastKept newline text
    → from_value text ≡ ok value
    → from_string before (name ++ b'=' ∷ text) ≡ ok (value, name)
unfolding from_string trim
from_string-pair before [] text value h n k e = elim h [ ]
from_string-pair before (c ∷ s) text value (letter, _, lacks) n k e =
    let (kept, not_comment) = letter_kept c letter in
    let last = kept_behind (c ∷ s) b'=' text (kept_cons b'=' text (unfold contains in refl) k) in
    let whole = trim_kept newline ((c ∷ s) ++ b'=' ∷ text) kept last in
    let pair = from_pair-append (c ∷ s) text value lacks n e in rw whole (rw not_comment pair)

holds-behind : (part p r : Bytes) → holds part r ≡ true → holds part (p ++ r) ≡ true
unfolding holds
holds-behind part [] r h = h
holds-behind part (c ∷ p) r h = ground (arith, holds-behind part p r h)

not_set_there : (s : Bytes) → holds (codes "is not set") (s ++ codes " is not set") ≡ true
not_set_there s =
    holds-behind (codes "is not set") s (codes " is not set")
      (unfold holds starts_with equal in refl)

from_comment-unset :
    (before : Bytes) (c : ℕ) (s : Bytes)
    → isalpha c ≡ true
    → Lacks b' ' (c ∷ s)
    → from_comment before (b'#' ∷ b' ' ∷ c ∷ (s ++ codes " is not set")) ≡ ok (tristate off, c ∷ s)
unfolding from_comment at
from_comment-unset before c s letter lacks =
    let there = not_set_there (b'#' ∷ b' ' ∷ c ∷ s) in
    let space = find-append b' ' (c ∷ s) (codes "is not set") lacks in
    rw (from_comment, there, letter) (rw space (rw (take_append_length s (codes " is not set"))))

from_string-unset :
    (before name : Bytes)
    → IsName name
    → from_string before (b'#' ∷ b' ' ∷ (name ++ codes " is not set")) ≡ ok (tristate off, name)
unfolding from_string trim
from_string-unset before [] h = elim h [ ]
from_string-unset before (c ∷ s) (letter, lacks, _) =
    let last =
      kept_behind (b'#' ∷ b' ' ∷ c ∷ s) b' ' (codes "is not set") (unfold contains in refl) in
    let whole =
      trim_kept newline (b'#' ∷ b' ' ∷ c ∷ (s ++ codes " is not set")) (unfold contains in refl)
        last in
    rw whole (from_comment-unset before c s letter lacks)

-- A line that the kernel's build writes for an option is read back as the option's name and value:
-- one that is on, off or a module, an integer in the range of `int`, or a quoted string of any
-- bytes. The name begins with a letter, and holds no space and no '='.
pub from_string-line_text :
    (before name : Bytes) (value : KconfigValue)
    → IsName name
    → IsWritten value
    → from_string before (line_text name value) ≡ ok (value, name)
from_string-line_text before name (tristate off) h w = from_string-unset before name h
from_string-line_text before name (tristate on) h w =
    from_string-pair before name (codes "y") (tristate on) h (omega arith) (unfold contains in refl)
      (from_value-value_text (tristate on) w (λ e. cc))
from_string-line_text before name (tristate module_) h w =
    from_string-pair before name (codes "m") (tristate module_) h (omega arith)
      (unfold contains in refl) (from_value-value_text (tristate module_) w (λ e. cc))
from_string-line_text before name (integer n) h w =
    from_string-pair before name _ (integer n) h (value_text_not_empty (integer n) w)
      (value_text-LastKept (integer n) w) (from_value-number n w)
from_string-line_text before name (string s) h w =
    from_string-pair before name _ (string s) h (value_text_not_empty (string s) w)
      (value_text-LastKept (string s) w) (from_value-quoted s)
from_string-line_text before name invalid h w = elim w [ ]
