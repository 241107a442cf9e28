-- ===== src/KString/Tests.antt =====
-- Runs of the string operations, and the theorems at inputs that meet their hypotheses.
use kdump.Prelude.{none, some, ℕ, Bool, true, false, [], ◌∷◌, ◌≡◌, refl, codes, ok, within}
use kdump.Prelude.Int.{pos, negsuc}
use kdump.KString.Url.{decode_url}
use kdump.KString.Search.{starts_with, ends_with}
use kdump.KString.Split.{split}
use kdump.KString.Trim.{trim}
use kdump.KString.Number.{as_int, as_long_long, is_number, is_hex_number}

decode_runs :
    (decode_url false (codes "a%20b%4") ≡ ok (codes "a b%4"))
    × (decode_url true (codes "a+b%zz") ≡ ok (codes "a b%zz"))
unfolding decode_url
decode_runs = (refl, refl)

split_runs : split (codes "a,,b") b',' ≡ codes "a" ∷ [] ∷ codes "b" ∷ []
unfolding split
split_runs = refl

trim_runs :
    (trim (codes " \n") (codes " a b\n ") ≡ codes "a b") × (trim (codes " ") (codes "   ") ≡ [])
unfolding trim
trim_runs = (refl, refl)

number_runs :
    (as_int (codes " -12x") ≡ some (negsuc 11))
    × (as_int (codes "99999999999") ≡ some (pos 2147483647))
    × (as_int (codes "x") ≡ some (pos 0))
    × (as_int (codes "  ") ≡ none)
    × (as_long_long (codes "99999999999") ≡ some (pos 99999999999))
    × (is_number (codes "-") ≡ false)
    × (is_hex_number (codes "0fA") ≡ true)
unfolding as_int as_long_long is_number is_hex_number
number_runs = (refl, refl, refl, refl, refl, refl, refl)

affix_runs :
    (starts_with (codes "vmlinuz-5") (codes "vmlinuz") ≡ true)
    × (ends_with (codes "5-kdump") (codes "kdump") ≡ true)
    × (ends_with (codes "mp") (codes "kdump") ≡ false)
unfolding starts_with ends_with
affix_runs = (refl, refl, refl)

abbrev letters : ℕ → Bool
letters c = within b'a' b'z' c
