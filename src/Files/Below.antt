-- ===== src/Files/Below.antt =====
-- Canonical paths and the root directory that is asked for.
use kdump.Prelude.{
  ℕ, zero, suc, true, false, ◌||◌, [], ◌∷◌, ◌++◌, ◌≡◌, ◌≢◌, refl, ap, ◌∙◌, Option, none, some,
  arith, Bytes, codes, Result, ok, throw, ltb, ◌==◌, if◌then◌else◌, length, take, equal, last_byte,
  is_empty, take_append_length, length-append, Bool-cases, inl, inr, List, All, take_append_le, ◌≤◌,
  last_byte-append,
}
use kdump.KString.Search.{Lacks, rfind-append}
use kdump.Files.Canonical.{
  Stat, PathError, too_many_links, skip_slashes, component, back_up, enter, visit, follow, settle,
  walk, resolve, canonical_path, canonical_in, starts_slash, max_links,
}

-- The name of an entry: it is not empty, holds no slash, and is neither "." nor "..".
abbrev pub IsName : Bytes → Type 0
IsName name =
    (is_empty name ≡ false)
    × Lacks b'/' name
    × (equal name (codes ".") ≡ false)
    × (equal name (codes "..") ≡ false)

-- The path of an entry below the root, by the names that lead to it, the last one first.
unfoldable pub path_of : Bytes → List Bytes → Bytes
path_of root [] = root
path_of root (name ∷ names) = path_of root names ++ b'/' ∷ name

-- The root, or a path that names lead to from there.
abbrev pub Below : Bytes → Bytes → Type 0
Below root p = (names : List Bytes) × (p ≡ path_of root names) × All IsName names

-- A path that ends with such a component, whatever the component is.
abbrev Entered : Bytes → Bytes → Type 0
Entered root p =
    (name : Bytes) × (names : List Bytes) × (p ≡ path_of root names ++ b'/' ∷ name)
    × Lacks b'/' name
    × All IsName names

abbrev pub Ensures : Bytes → Result PathError Bytes → Type 0
Ensures root (ok p) = Below root p
Ensures root (throw e) = Unit

component-Lacks : (p : Bytes) → Lacks b'/' (component p).0
unfolding component
component-Lacks [] = tt
component-Lacks (c ∷ p) = elim (Bool-cases (c == b'/')) [
  | inl slash ↦ rw slash tt
  | inr other ↦ rw other (ground arith, component-Lacks p)
]

back_up-entry : (p name : Bytes) → Lacks b'/' name → back_up (p ++ b'/' ∷ name) ≡ p
unfolding back_up
back_up-entry p name h =
    rw (back_up, rfind-append b'/' p name h) (take_append_length p (b'/' ∷ name))

back_up-Below : (root p : Bytes) → Entered root p → Below root (back_up p)
back_up-Below root p (name, names, e, lacks, h) =
    (names, rw e (back_up-entry (path_of root names) name lacks), h)

last_byte-Lacks :
    (name : Bytes) → is_empty name ≡ false → Lacks b'/' name → (last_byte name == b'/') ≡ false
unfolding last_byte
last_byte-Lacks [] there h = absurd (cc)
last_byte-Lacks (c ∷ []) there (h, rest) = ground arith
last_byte-Lacks (c ∷ d ∷ s) there (h, rest) = last_byte-Lacks (d ∷ s) refl rest

last_byte-slash : (name : Bytes) → is_empty name ≡ false → last_byte (b'/' ∷ name) ≡ last_byte name
unfolding last_byte
last_byte-slash [] there = absurd (cc)
last_byte-slash (c ∷ name) there = refl

length-path_of : (root : Bytes) (names : List Bytes) → length root ≤ length (path_of root names)
unfolding path_of
length-path_of root [] = omega arith
length-path_of root (name ∷ names) =
    omega (arith, length-path_of root names, length-append (path_of root names) (b'/' ∷ name))

taken :
    (root : Bytes) (names : List Bytes) (name : Bytes)
    → take (length root) (path_of root names ++ b'/' ∷ name) ≡ root
unfolding path_of
taken root [] name = take_append_length root (b'/' ∷ name)
taken root (n ∷ names) name =
    take_append_le (length root) (path_of root names ++ b'/' ∷ n) (b'/' ∷ name)
      (unfold path_of in length-path_of root (n ∷ names))
    ∙ taken root names n

module _ (root : Bytes) (open_end : (last_byte root == b'/') ≡ false) where
  path_of-open :
      (names : List Bytes) → All IsName names → (last_byte (path_of root names) == b'/') ≡ false
  unfolding path_of
  path_of-open [] h = open_end
  path_of-open (name ∷ names) (h, hs) =
      rw (last_byte-append (path_of root names) b'/' name, last_byte-slash name h.0)
        (last_byte-Lacks name h.0 h.1)

  enter-path_of :
      (p dir : Bytes) (names : List Bytes)
      → p ≡ path_of root names
      → All IsName names
      → enter p dir ≡ path_of root names ++ b'/' ∷ dir
  unfolding enter
  enter-path_of p dir names e h = rw (e, path_of-open names h) refl

  follow-Below : (p path : Bytes) → Entered root p → Below root (follow root p path)
  unfolding follow path_of
  follow-Below p path (name, names, e, lacks, h) = elim (Bool-cases (starts_slash path)) [
    | inl absolute ↦ ([], rw (absolute, e) (taken root names name), tt)
    | inr relative ↦ rw relative (back_up-Below root p (name, names, e, lacks, h))
  ]

  up-Below :
      (p : Bytes)
      → Below root p
      → Below root (if ltb (length root) (length p) then back_up p else p)
  unfolding path_of
  up-Below p ([], e, h) =
      let level : ltb (length root) (length p) ≡ false = rw e (ground arith) in rw level ([], e, tt)
  up-Below p (name ∷ names, e, (h, hs)) =
      let longer : ltb (length root) (length p) ≡ true = ground (
        arith,
        ap length e,
        length-append (path_of root names) (b'/' ∷ name),
        length-path_of root names,
      ) in
      rw longer (back_up-Below root p (name, names, e, h.1, hs))

module _ (root : Bytes) (open_end : (last_byte root == b'/') ≡ false) where
  settle-Below :
      (jump : Bytes → Bytes → Result PathError Bytes) (entered : Bytes)
      (down : Result PathError Bytes) (linked : Result PathError (Option Bytes))
      → ((p q : Bytes) → Below root p → Ensures root (jump p q))
      → Entered root entered
      → Ensures root down
      → Ensures root (settle root jump entered down linked)
  unfolding settle
  settle-Below jump entered down (throw x) keeps strict kept = tt
  settle-Below jump entered down (ok none) keeps strict kept = kept
  settle-Below jump entered down (ok (some path)) keeps strict kept =
      keeps (follow root entered path) path (follow-Below root open_end entered path strict)

module _ (lstat : Bytes → Stat) (root : Bytes) (open_end : (last_byte root == b'/') ≡ false) where
  walk-Below :
      (jump : Bytes → Bytes → Result PathError Bytes) (f : ℕ) (ret path : Bytes)
      → ((p q : Bytes) → Below root p → Ensures root (jump p q))
      → Below root ret
      → Ensures root (walk lstat root jump f ret path)
  unfolding walk path_of
  walk-Below jump zero ret path keeps at_root = at_root
  walk-Below jump (suc f) ret path keeps (names, e, h) =
      let (dir, rest) = component (skip_slashes path) in
      let lacks = component-Lacks (skip_slashes path) in
      let entered = enter ret dir in
      let at_dir = enter-path_of root open_end ret dir names e h in
      elim (Bool-cases (is_empty path)) [
        | inl done ↦ rw done (names, e, h)
        | inr more ↦ rw more (elim (Bool-cases (is_empty dir || equal dir (codes "."))) [
          | inl stay ↦ rw stay (walk-Below jump f ret rest keeps (names, e, h))
          | inr named ↦ rw named (elim (Bool-cases (equal dir (codes ".."))) [
            | inl dots ↦
                rw dots (walk-Below jump f _ rest keeps (up-Below root open_end ret (names, e, h)))
            | inr plain ↦ rw plain (
                settle-Below root open_end jump entered (walk lstat root jump f entered rest)
                  (visit (lstat entered) rest) keeps (dir, names, at_dir, lacks, h)
                  (walk-Below jump f entered rest keeps
                    (dir ∷ names, at_dir, ((ground arith, lacks, ground arith, plain), h))))
          ])
        ])
      ]

  resolve-Below :
      (links : ℕ) (ret path : Bytes)
      → Below root ret
      → Ensures root (resolve lstat root links ret path)
  unfolding resolve
  resolve-Below zero ret path at_root =
      walk-Below (λ _ _. throw too_many_links) (length path) ret path (λ p q at_p. tt) at_root
  resolve-Below (suc links) ret path at_root =
      walk-Below (resolve lstat root links) (length path) ret path (resolve-Below links) at_root

-- With a root directory that does not end in '/', the canonical path of an absolute path is the root
-- followed by names, each behind a slash, not empty, without a slash of its own, and neither "." nor
-- "..": so it is the root or lies below it, whatever links the file system holds (absolute ones, ones
-- with "..", loops) and however often the path goes up.
pub canonical_path-Below :
    (lstat : Bytes → Stat) (cwd : Option Bytes) (root path : Bytes) {p : Bytes}
    → (last_byte root == b'/') ≡ false
    → root ≢ []
    → starts_slash path ≡ true
    → canonical_path lstat cwd root path ≡ ok p
    → Below root p
unfolding canonical_path canonical_in path_of
canonical_path-Below lstat cwd root [] open_end there absolute returns = absurd (cc)
canonical_path-Below lstat cwd [] (c ∷ path) open_end there absolute returns = absurd (there refl)
canonical_path-Below lstat cwd (r ∷ root) (c ∷ path) {p} open_end there absolute returns =
    let kept =
      resolve-Below lstat (r ∷ root) open_end max_links (r ∷ root) (c ∷ path) ([], refl, tt) in
    let result : resolve lstat (r ∷ root) max_links (r ∷ root) (c ∷ path) ≡ ok p =
      rw absolute at returns in
    rw result at kept
