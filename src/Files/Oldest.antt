-- ===== src/Files/Oldest.antt =====
-- The dumps that are deleted, and those that stay.
use mathlib.Core.List.Perm
use mathlib.Core.List.{Perm}
use kdump.Prelude.{ℕ, ◌-◌, false, List, [], ◌∷◌, ◌≡◌, Bytes, ltb, if◌then◌else◌, All}
use kdump.Files.Dirs.{less}

-- The order of the names: `a` is not behind `b`.
abbrev pub Le : Bytes → Bytes → Type 0
Le a b = less b a ≡ false

abbrev pub IsSorted : List Bytes → Type 0
IsSorted [] = Unit
IsSorted (name ∷ names) = All (Le name) names × IsSorted names

-- How many go.
abbrev cut : ℕ → ℕ → ℕ
cut keep size = if ltb size keep then 0 else size - keep
