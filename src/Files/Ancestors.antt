-- ===== src/Files/Ancestors.antt =====
-- The directories that `mkdir` makes for a path, and the path without the slashes at its end.
use kdump.Prelude.{
  ℕ, suc, List, [], ◌∷◌, ◌++◌, append_assoc, append-nil, ◌≡◌, ◌≢◌, refl, ap, ◌∙◌, some, arith,
  Bytes, codes, take, contains, All,
}
use kdump.KString.Search.{Lacks, find_last_not_of}
use kdump.KString.Trim.{rtrim, LastKept}
use kdump.Files.Names.{strip}
use kdump.Files.Dirs.{mkdir_from, mkdir_paths}

find_last-LastKept :
    (c : ℕ) (s : Bytes)
    → LastKept (codes "/") (c ∷ s)
    → (n : ℕ) × (find_last_not_of (codes "/") (c ∷ s) ≡ some n) × (take (suc n) (c ∷ s) ≡ c ∷ s)
unfolding find_last_not_of
find_last-LastKept c [] h = (0, ground arith, refl)
find_last-LastKept c (d ∷ s) h =
    let (n, found, whole) = find_last-LastKept d s h in (suc n, rw found, ap (◌∷◌ c) whole)

pub strip-LastKept : (s : Bytes) → LastKept (codes "/") s → strip s ≡ s
unfolding strip rtrim find_last_not_of
strip-LastKept [] h = refl
strip-LastKept (c ∷ s) h =
    let (n, found, whole) = find_last-LastKept c s h in rw (strip, rtrim, found) whole

LastKept-append :
    (p : Bytes) (c : ℕ) (s : Bytes)
    → LastKept (codes "/") (c ∷ s)
    → LastKept (codes "/") (p ++ c ∷ s)
LastKept-append [] c s h = h
LastKept-append (x ∷ []) c s h = h
LastKept-append (x ∷ y ∷ p) c s h = LastKept-append (y ∷ p) c s h

abbrev pub IsName : Bytes → Type 0
IsName name = (name ≢ []) × Lacks b'/' name

-- The absolute path of some names.
unfoldable pub path_of : List Bytes → Bytes
path_of [] = []
path_of (name ∷ names) = b'/' ∷ name ++ path_of names

-- The paths of the first, the first two, …, and of all names, behind a path.
unfoldable pub levels : Bytes → List Bytes → List Bytes
levels above [] = []
levels above (name ∷ names) = let path = above ++ b'/' ∷ name in path ∷ levels path names

mkdir_from-name :
    (passed name s : Bytes)
    → Lacks b'/' name
    → mkdir_from passed (name ++ s) ≡ mkdir_from (passed ++ name) s
unfolding mkdir_from
mkdir_from-name passed [] s h = rw (append-nil passed)
mkdir_from-name passed (c ∷ name) s h =
    let here = h.0 in
    let step : mkdir_from passed (c ∷ name ++ s) ≡ mkdir_from (passed ++ c ∷ []) (name ++ s) =
      ground arith in
    step ∙ mkdir_from-name (passed ++ c ∷ []) name s h.1 ∙ rw (append_assoc passed (c ∷ []) name)

mkdir_from-names :
    (above name : Bytes) (names : List Bytes)
    → All IsName (name ∷ names)
    → mkdir_from (above ++ b'/' ∷ []) (name ++ path_of names) ≡ levels above (name ∷ names)
unfolding mkdir_from path_of levels
mkdir_from-names above name [] h =
    mkdir_from-name (above ++ b'/' ∷ []) name [] h.0.1
    ∙ ap (λ t. t ∷ []) (append_assoc above (b'/' ∷ []) name)
mkdir_from-names above name (next ∷ names) h =
    let path : Bytes = above ++ b'/' ∷ name in
    mkdir_from-name (above ++ b'/' ∷ []) name (b'/' ∷ next ++ path_of names) h.0.1
    ∙ ap (λ t. t ∷ mkdir_from (t ++ b'/' ∷ []) (next ++ path_of names))
        (append_assoc above (b'/' ∷ []) name)
    ∙ ap (◌∷◌ path) (mkdir_from-names path next names h.1)

LastKept-name : (name : Bytes) → IsName name → LastKept (codes "/") name
unfolding contains
LastKept-name [] h = tt
LastKept-name (c ∷ []) h = let here = h.1.0 in ground arith
LastKept-name (c ∷ d ∷ name) h = LastKept-name (d ∷ name) (λ e. cc, h.1.1)

LastKept-path_of : (names : List Bytes) → All IsName names → LastKept (codes "/") (path_of names)
unfolding path_of
LastKept-path_of [] h = tt
LastKept-path_of ([] ∷ names) h = absurd (h.0.0 refl)
LastKept-path_of ((c ∷ name) ∷ []) h = rw (append-nil name) (LastKept-name (c ∷ name) h.0)
LastKept-path_of ((c ∷ name) ∷ next ∷ names) h =
    LastKept-append (b'/' ∷ c ∷ name) b'/' (next ++ path_of names)
      (LastKept-path_of (next ∷ names) h.1)

-- For an absolute path, `mkdir` makes the directory of the first name, then that of the first two,
-- and so on to the path itself: every directory behind the one that it is in.
pub mkdir_paths-levels :
    (name : Bytes) (names : List Bytes)
    → All IsName (name ∷ names)
    → mkdir_paths (path_of (name ∷ names)) ≡ levels [] (name ∷ names)
unfolding mkdir_paths path_of
mkdir_paths-levels name names h =
    rw (mkdir_paths, strip-LastKept (path_of (name ∷ names)) (LastKept-path_of (name ∷ names) h))
      (mkdir_from-names [] name names h)
