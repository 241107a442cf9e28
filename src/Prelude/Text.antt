-- ===== src/Prelude/Text.antt =====
-- Texts as lists of bytes (`std::string`, `ByteVector`), and the C character classes.
use Prim.Native.Nat.{ℕ}
use Prim.Native.Char.{code}
use Prim.Native.String.{String}
use mathlib.Core.Path.{◌≡◌, refl, ap}
use mathlib.Core.Logic.{◌↔◌}
use mathlib.Core.Bool.{Bool, true, false, ◌&&◌, ◌||◌}
use mathlib.Core.List.{List, [], ◌∷◌, ◌++◌}
use native.Mathlib.Omega.{arith}
use kdump.Prelude.Tests.{leb, ◌==◌}

abbrev pub Bytes : Type 0
Bytes = List ℕ

-- The code points of a literal: its bytes, if it is ASCII.
abbrev pub codes : String → Bytes
codes String.[] = []
codes (String.◌∷◌ c s) = code c ∷ codes s

-- The classes of <cctype> in the "C" locale.
abbrev pub within : ℕ → ℕ → ℕ → Bool
within lo hi c = leb lo c && leb c hi

abbrev pub isdigit : ℕ → Bool
isdigit c = within b'0' b'9' c

abbrev pub isxdigit : ℕ → Bool
isxdigit c = isdigit c || within b'a' b'f' c || within b'A' b'F' c

abbrev pub isalpha : ℕ → Bool
isalpha c = within b'a' b'z' c || within b'A' b'Z' c

abbrev pub isspace : ℕ → Bool
isspace c = c == 32 || within 9 13 c

-- `operator==` of std::string.
unfoldable pub equal : Bytes → Bytes → Bool
equal [] [] = true
equal (x ∷ xs) (y ∷ ys) = x == y && equal xs ys
equal _ _ = false

pub equal_iff : (a b : Bytes) → (equal a b ≡ true) ↔ (a ≡ b)
unfolding equal
equal_iff [] [] = ground arith
equal_iff (x ∷ a) (y ∷ b) = ground (arith, equal_iff a b)
equal_iff _ _ = ground arith

-- Membership in a C string of characters.
unfoldable pub contains : Bytes → ℕ → Bool
contains [] c = false
contains (x ∷ xs) c = x == c || contains xs c

-- The last character of a string that is not empty, and the string without it.
unfoldable pub last_byte : Bytes → ℕ
last_byte [] = 0
last_byte (c ∷ []) = c
last_byte (c ∷ d ∷ s) = last_byte (d ∷ s)

unfoldable pub erase_last : Bytes → Bytes
erase_last [] = []
erase_last (c ∷ []) = []
erase_last (c ∷ d ∷ s) = c ∷ erase_last (d ∷ s)

pub last_byte-append : (p : Bytes) (x : ℕ) (q : Bytes) → last_byte (p ++ x ∷ q) ≡ last_byte (x ∷ q)
unfolding last_byte
last_byte-append [] x q = refl
last_byte-append (c ∷ []) x q = refl
last_byte-append (c ∷ d ∷ p) x q = last_byte-append (d ∷ p) x q

pub erase_last-append :
    (p : Bytes) (x : ℕ) (q : Bytes) → erase_last (p ++ x ∷ q) ≡ p ++ erase_last (x ∷ q)
unfolding erase_last
erase_last-append [] x q = refl
erase_last-append (c ∷ []) x q = refl
erase_last-append (c ∷ d ∷ p) x q = ap (◌∷◌ c) (erase_last-append (d ∷ p) x q)

abbrev pub is_empty : Bytes → Bool
is_empty [] = true
is_empty (c ∷ s) = false
