-- ===== src/Mounts/Longest.antt =====
-- The mount that a path is on is the longest one.
use mathlib.Core.Path.{subst}
use kdump.Prelude.{
  ℕ, suc, ◌≤◌, Bool, true, false, ◌&&◌, List, [], ◌∷◌, ◌++◌, append-nil, append_assoc, ◌≡◌, refl,
  sym, ap, ◌∙◌, Option, none, some, arith, Bytes, Result, ok, throw, ◌>>=◌, >>=-eq-ok, length, leb,
  All, All-append, Bool-cases, inl, inr,
}
use kdump.KString.Search.{starts_with}
use kdump.Files.Canonical.{Stat, PathError, canonical_path}
use kdump.Mounts.Table.{
  Mount, MountPoint, best_length, better, is_real, consider, find_from, find_mount,
}

module _ (lstat : Bytes → Stat) (cwd : Option Bytes) where
  -- The path starts with this canonical target, which has `n` bytes or more.
  abbrev pub holds_path : Bytes → ℕ → Result PathError Bytes → Bool
  holds_path cpath n (ok ctarget) = starts_with cpath ctarget && leb n (length ctarget)
  holds_path cpath n (throw e) = false

  -- The same of a mount that is no pseudo file system and no swap area.
  abbrev pub reaches : Bytes → ℕ → Mount → Bool
  reaches cpath n mount =
      is_real mount && holds_path cpath n (canonical_path lstat cwd [] mount.target)

  abbrev pub Short : Bytes → ℕ → Mount → Type 0
  Short cpath n mount = reaches cpath n mount ≡ false

  abbrev pub None : Bytes → ℕ → List Mount → Type 0
  None cpath n = All (Short cpath n)

  -- The last of the longest ones.
  abbrev pub IsLongest : Bytes → List Mount → Option MountPoint → Type 0
  IsLongest cpath table none = All (λ mount. reaches cpath 0 mount ≡ false) table
  IsLongest cpath table (some best) =
      (before behind : List Mount) × (table ≡ before ++ best.mount ∷ behind)
      × (canonical_path lstat cwd [] best.mount.target ≡ ok best.ctarget)
      × (reaches cpath (length best.ctarget) best.mount ≡ true)
      × All (λ mount. reaches cpath (suc (length best.ctarget)) mount ≡ false) before
      × All (λ mount. reaches cpath (length best.ctarget) mount ≡ false) behind

  holds_path-less :
      (cpath : Bytes) (m n : ℕ) (target : Result PathError Bytes)
      → m ≤ n
      → holds_path cpath m target ≡ false
      → holds_path cpath n target ≡ false
  holds_path-less cpath m n (ok ctarget) le h = ground arith
  holds_path-less cpath m n (throw e) le h = refl

  and-less : (a b c : Bool) → (b ≡ false → c ≡ false) → (a && b) ≡ false → (a && c) ≡ false
  and-less true b c h e = h e
  and-less false b c h e = refl

  reaches-less :
      (cpath : Bytes) (m n : ℕ) (mount : Mount)
      → m ≤ n
      → reaches cpath m mount ≡ false
      → reaches cpath n mount ≡ false
  reaches-less cpath m n mount le =
      and-less (is_real mount) _ _
        (holds_path-less cpath m n (canonical_path lstat cwd [] mount.target) le)

  reaches-known :
      (cpath : Bytes) (n : ℕ) (mount : Mount) (ctarget : Bytes)
      → canonical_path lstat cwd [] mount.target ≡ ok ctarget
      → reaches cpath n mount
        ≡ (is_real mount && (starts_with cpath ctarget && leb n (length ctarget)))
  reaches-known cpath n mount ctarget same = ap (λ r. is_real mount && holds_path cpath n r) same

  reaches-long :
      (cpath : Bytes) (n : ℕ) (mount : Mount) (ctarget : Bytes)
      → canonical_path lstat cwd [] mount.target ≡ ok ctarget
      → suc (length ctarget) ≤ n
      → reaches cpath n mount ≡ false
  reaches-long cpath n mount ctarget same le =
      let known = reaches-known cpath n mount ctarget same in
      let long : leb n (length ctarget) ≡ false = ground arith in ground arith

  pub None-less :
      (cpath : Bytes) (m n : ℕ) (table : List Mount)
      → m ≤ n
      → None cpath m table
      → None cpath n table
  None-less cpath m n [] le h = tt
  None-less cpath m n (mount ∷ table) le (h, hs) =
      (reaches-less cpath m n mount le h, None-less cpath m n table le hs)

  -- No mount seen is longer than the best one.
  pub IsLongest-None :
      (cpath : Bytes) (n : ℕ) (table : List Mount) (best : Option MountPoint)
      → IsLongest cpath table best
      → best_length best ≤ n
      → None cpath (suc n) table
  unfolding best_length
  IsLongest-None cpath n table none h le = None-less cpath 0 (suc n) table (omega arith) h
  IsLongest-None cpath n table (some best) (before, behind, split, same, there, hb, hd) le =
      let short : reaches cpath (suc n) best.mount ≡ false =
        reaches-long cpath (suc n) best.mount best.ctarget same (omega arith) in
      subst (None cpath (suc n)) (sym split) (
        All-append (Short cpath (suc n)) before (best.mount ∷ behind)
          (None-less cpath (suc (length best.ctarget)) (suc n) before (omega arith) hb)
          (short, None-less cpath (length best.ctarget) (suc n) behind (omega arith) hd))

  IsLongest-keep :
      (cpath : Bytes) (mount : Mount) (table : List Mount) (best : Option MountPoint)
      → IsLongest cpath table best
      → reaches cpath (best_length best) mount ≡ false
      → IsLongest cpath (table ++ mount ∷ []) best
  unfolding best_length
  IsLongest-keep cpath mount table none h short =
      All-append (Short cpath 0) table (mount ∷ []) h (short, tt)
  IsLongest-keep cpath mount table (some best) (before, behind, split, same, there, hb, hd) short =
      (
        before,
        behind ++ mount ∷ [],
        ap (λ t. t ++ mount ∷ []) split ∙ append_assoc before (best.mount ∷ behind) (mount ∷ []),
        same,
        there,
        hb,
        All-append (Short cpath (length best.ctarget)) behind (mount ∷ []) hd (short, tt),
      )

  IsLongest-replace :
      (cpath : Bytes) (mount : Mount) (ctarget : Bytes) (table : List Mount)
      (best : Option MountPoint)
      → IsLongest cpath table best
      → is_real mount ≡ true
      → canonical_path lstat cwd [] mount.target ≡ ok ctarget
      → (leb (best_length best) (length ctarget) && starts_with cpath ctarget) ≡ true
      → IsLongest cpath (table ++ mount ∷ []) (some (record { mount = mount; ctarget = ctarget }))
  IsLongest-replace cpath mount ctarget table best h real same taken =
      let known = reaches-known cpath (length ctarget) mount ctarget same in
      let there : reaches cpath (length ctarget) mount ≡ true = ground arith in
      let le : best_length best ≤ length ctarget = ground arith in
      (table, [], refl, same, there, IsLongest-None cpath (length ctarget) table best h le, tt)

  better-IsLongest :
      (cpath : Bytes) (mount : Mount) (ctarget : Bytes) (table : List Mount)
      (best : Option MountPoint)
      → IsLongest cpath table best
      → is_real mount ≡ true
      → canonical_path lstat cwd [] mount.target ≡ ok ctarget
      → IsLongest cpath (table ++ mount ∷ []) (better cpath best mount ctarget)
  unfolding better
  better-IsLongest cpath mount ctarget table best h real same =
      elim (Bool-cases (leb (best_length best) (length ctarget) && starts_with cpath ctarget)) [
        | inl taken ↦ rw taken (IsLongest-replace cpath mount ctarget table best h real same taken)
        | inr left ↦
            let known = reaches-known cpath (best_length best) mount ctarget same in
            rw left (IsLongest-keep cpath mount table best h (ground arith))
      ]

  consider-unreal :
      (cpath : Bytes) (best : Option MountPoint) (mount : Mount)
      → is_real mount ≡ false
      → consider lstat cwd cpath best mount ≡ ok best
  unfolding consider
  consider-unreal cpath best mount unreal = rw unreal refl

  consider-real :
      (cpath : Bytes) (best : Option MountPoint) (mount : Mount)
      → is_real mount ≡ true
      → consider lstat cwd cpath best mount ≡ (
          canonical_path lstat cwd [] mount.target
          >>= (λ ctarget. ok (better cpath best mount ctarget)))
  unfolding consider
  consider-real cpath best mount real = rw real refl

  consider-IsLongest :
      (cpath : Bytes) (mount : Mount) (table : List Mount) (best best' : Option MountPoint)
      → IsLongest cpath table best
      → consider lstat cwd cpath best mount ≡ ok best'
      → IsLongest cpath (table ++ mount ∷ []) best'
  consider-IsLongest cpath mount table best best' h e = elim (Bool-cases (is_real mount)) [
    | inl real ↦
        let (ctarget, same, next) =
          >>=-eq-ok (canonical_path lstat cwd [] mount.target)
            (λ ctarget. ok (better cpath best mount ctarget))
            (sym (consider-real cpath best mount real) ∙ e) in
        let chosen : better cpath best mount ctarget ≡ best' = cc in
        subst (IsLongest cpath (table ++ mount ∷ [])) chosen
          (better-IsLongest cpath mount ctarget table best h real same)
    | inr unreal ↦
        let kept : best ≡ best' = let e' = consider-unreal cpath best mount unreal in cc in
        subst (IsLongest cpath (table ++ mount ∷ [])) kept
          (IsLongest-keep cpath mount table best h (ground arith))
  ]

  find_from-IsLongest :
      (cpath : Bytes) (seen mounts : List Mount) (best found : Option MountPoint)
      → IsLongest cpath seen best
      → find_from lstat cwd cpath best mounts ≡ ok found
      → IsLongest cpath (seen ++ mounts) found
  find_from-IsLongest cpath seen [] best found h e =
      let end : find_from lstat cwd cpath best [] ≡ ok best = unfold find_from in refl in
      let same : best ≡ found = cc in
      subst (λ t. IsLongest cpath t found) (sym (append-nil seen))
        (subst (IsLongest cpath seen) same h)
  find_from-IsLongest cpath seen (mount ∷ mounts) best found h e =
      let stepped : (consider lstat cwd cpath best mount
            >>= (λ b. find_from lstat cwd cpath b mounts))
          ≡ ok found =
        unfold find_from in e in
      let (best', first, rest) =
        >>=-eq-ok (consider lstat cwd cpath best mount) (λ b. find_from lstat cwd cpath b mounts)
          stepped in
      subst (λ t. IsLongest cpath t found) (append_assoc seen (mount ∷ []) mounts)
        (find_from-IsLongest cpath (seen ++ mount ∷ []) mounts best' found
          (consider-IsLongest cpath mount seen best best' h first) rest)

  -- What is found for a path is the last of the longest mounts whose canonical target the path
  -- starts with, pseudo file systems and swap areas left aside; nothing is found if there is none.
  pub find_mount-IsLongest :
      (table : List Mount) (path : Bytes) {found : Option MountPoint}
      → find_mount lstat cwd table path ≡ ok found
      → (cpath : Bytes) × (canonical_path lstat cwd [] path ≡ ok cpath)
        × IsLongest cpath table found
  unfolding find_mount
  find_mount-IsLongest table path {found} e =
      let (cpath, same, next) =
        >>=-eq-ok (canonical_path lstat cwd [] path) (λ cpath. find_from lstat cwd cpath none table)
          e in
      (cpath, same, find_from-IsLongest cpath [] table none found tt next)
