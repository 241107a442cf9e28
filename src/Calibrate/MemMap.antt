-- ===== src/Calibrate/MemMap.antt =====
-- `MemRange` and `MemMap`, on 64-bit addresses.
use kdump.Prelude.{ℕ, ◌+◌, ◌-◌, ◌%◌, ◌^◌, List, [], ◌∷◌, ◌++◌, leb, ltb, if◌then◌else◌}

-- `unsigned long long`
abbrev pub wrap : ℕ → ℕ
wrap n = n % 2 ^ 64

-- The difference of two words.
abbrev pub minus : ℕ → ℕ → ℕ
minus a b = wrap (a + (2 ^ 64 - b))

-- `~0ULL`
abbrev pub all_ones : ℕ
all_ones = 2 ^ 64 - 1

pub record MemRange : Type 0 where
  pub start : ℕ
  pub end : ℕ

unfoldable pub length : MemRange → ℕ
length r = wrap (minus r.end r.start + 1)

unfoldable pub total_from : ℕ → List MemRange → ℕ
total_from ret [] = ret
total_from ret (r ∷ rs) = total_from (wrap (ret + length r)) rs

unfoldable pub total : List MemRange → ℕ
total rs = total_from 0 rs

-- The length of the part up to the limit.
unfoldable pub length_below : ℕ → MemRange → ℕ
length_below limit r = wrap (minus (if leb r.end limit then r.end else limit) r.start + 1)

-- A round of the loop.
unfoldable pub larger : ℕ → ℕ → MemRange → ℕ
larger limit ret r =
    let size = length_below limit r in
    if ltb limit r.start then ret else (if ltb ret size then size else ret)

unfoldable pub largest_from : ℕ → ℕ → List MemRange → ℕ
largest_from limit ret [] = ret
largest_from limit ret (r ∷ rs) = largest_from limit (larger limit ret r) rs

unfoldable pub largest : ℕ → List MemRange → ℕ
largest limit rs = largest_from limit 0 rs

-- `%` by a zero alignment has no defined behaviour; the callers' is a constant.
unfoldable pub find_in : ℕ → ℕ → List MemRange → ℕ
find_in size align [] = all_ones
find_in size align (r ∷ rs) =
    let top = wrap (r.end + 1) in
    let room = top - size in
    let base = room - room % align in
    let next = find_in size align rs in
    if ltb top size then next else (if leb r.start base then base else next)

unfoldable pub reverse : List MemRange → List MemRange
reverse [] = []
reverse (r ∷ rs) = reverse rs ++ r ∷ []

-- From the last range to the first.
unfoldable pub find : ℕ → ℕ → List MemRange → ℕ
find size align rs = find_in size align (reverse rs)
