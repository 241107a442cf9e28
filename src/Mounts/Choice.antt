-- ===== src/Mounts/Choice.antt =====
-- The mount point of a path, of the kernel's table or of fstab.
use mathlib.Core.Path.{subst}
use kdump.Prelude.{
  ℕ, zero, suc, ◌≤◌, false, List, [], ◌≡◌, ◌⊎◌, refl, sym, ◌∙◌, Option, none, some, arith, Bytes,
  ok, ◌>>=◌, >>=-eq-ok, length, ltb, All, Bool-cases, inl, inr,
}
use kdump.Files.Canonical.{Stat, canonical_path}
use kdump.Mounts.Table.{Mount, MountPoint, best_length, find_mount, choose_mount, path_mount_point}
use kdump.Mounts.Longest.{reaches, None, None-less, IsLongest, IsLongest-None, find_mount-IsLongest}

-- One more than the length of the canonical target.
abbrev pub size : Option MountPoint → ℕ
size none = 0
size (some best) = suc (length best.ctarget)

-- Which of the two it is, and that neither is longer.
choose_mount_lem :
    (kernel fstab : Option MountPoint)
    → let found = choose_mount kernel fstab in
      ((found ≡ kernel) ⊎ (found ≡ fstab)) × (size kernel ≤ size found) × (size fstab ≤ size found)
unfolding choose_mount
choose_mount_lem kernel none = (inl refl, omega arith, omega arith)
choose_mount_lem none (some fstab) = (inr refl, omega arith, omega arith)
choose_mount_lem (some kernel) (some fstab) =
    elim (Bool-cases (ltb (length fstab.ctarget) (length kernel.ctarget))) [
      | inl longer ↦ rw longer (inl refl, omega arith, ground arith)
      | inr shorter ↦ rw shorter (inr refl, ground arith, omega arith)
    ]

module _ (lstat : Bytes → Stat) (cwd : Option Bytes) where
  IsLongest-size :
      (cpath : Bytes) (n : ℕ) (table : List Mount) (best : Option MountPoint)
      → IsLongest lstat cwd cpath table best
      → size best ≤ n
      → None lstat cwd cpath n table
  IsLongest-size cpath n table none h le = None-less lstat cwd cpath 0 n table (omega arith) h
  IsLongest-size cpath zero table (some best) h le = absurd (omega arith)
  IsLongest-size cpath (suc n) table (some best) h le =
      IsLongest-None lstat cwd cpath n table (some best) h (unfold best_length in omega arith)

  -- The mount point of a path is the longest of one of the two tables, and no entry of either is
  -- longer.
  pub path_mount_point-IsLongest :
      (kernel fstab : List Mount) (path : Bytes) {found : Option MountPoint}
      → path_mount_point lstat cwd kernel fstab path ≡ ok found
      → (cpath : Bytes) × (canonical_path lstat cwd [] path ≡ ok cpath)
        × (IsLongest lstat cwd cpath kernel found ⊎ IsLongest lstat cwd cpath fstab found)
        × All (λ mount. reaches lstat cwd cpath (size found) mount ≡ false) kernel
        × All (λ mount. reaches lstat cwd cpath (size found) mount ≡ false) fstab
  unfolding path_mount_point
  path_mount_point-IsLongest kernel fstab path {found} e =
      let (k, first, next) =
        >>=-eq-ok (find_mount lstat cwd kernel path)
          (λ k. find_mount lstat cwd fstab path >>= (λ f. ok (choose_mount k f))) e in
      let (f, second, last) =
        >>=-eq-ok (find_mount lstat cwd fstab path) (λ f. ok (choose_mount k f)) next in
      let (cpath, there, hk) = find_mount-IsLongest lstat cwd kernel path first in
      let (cpath', there', hf') = find_mount-IsLongest lstat cwd fstab path second in
      let same : cpath' ≡ cpath = cc in
      let hf = subst (λ c. IsLongest lstat cwd c fstab f) same hf' in
      let (which, lk, lf) = choose_mount_lem k f in
      let chosen : choose_mount k f ≡ found = cc in
      let longer_k : size k ≤ size found = subst (λ o. size k ≤ size o) chosen lk in
      let longer_f : size f ≤ size found = subst (λ o. size f ≤ size o) chosen lf in
      (
        cpath,
        there,
        elim which [
          | inl is_k ↦ inl (subst (IsLongest lstat cwd cpath kernel) (sym is_k ∙ chosen) hk)
          | inr is_f ↦ inr (subst (IsLongest lstat cwd cpath fstab) (sym is_f ∙ chosen) hf)
        ],
        IsLongest-size cpath (size found) kernel k hk longer_k,
        IsLongest-size cpath (size found) fstab f hf longer_f,
      )
