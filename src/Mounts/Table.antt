-- ===== src/Mounts/Table.antt =====
-- `MountTable::find_mount` and `PathMountPoint`.
use kdump.Prelude.{
  ℕ, Bool, ◌&&◌, ◌||◌, not, List, [], ◌∷◌, Option, none, some, Bytes, Result, ok, ◌>>=◌,
  if◌then◌else◌, length, leb, ltb,
}
use kdump.KString.Search.{starts_with}
use kdump.Files.Canonical.{Stat, PathError, canonical_path}

-- What libmount says of an entry of a table.
pub record Mount : Type 0 where
  pub source : Bytes
  pub target : Bytes
  pub fstype : Bytes
  pub pseudo : Bool
  pub swap : Bool

-- A mount with its canonical target.
pub record MountPoint : Type 0 where
  pub mount : Mount
  pub ctarget : Bytes

-- `best` and `bestlen`
unfoldable pub best_length : Option MountPoint → ℕ
best_length none = 0
best_length (some best) = length best.ctarget

-- The mount of the canonical target `ctarget`, if it is no worse.
unfoldable pub better : Bytes → Option MountPoint → Mount → Bytes → Option MountPoint
unfolding best_length starts_with
better cpath best mount ctarget =
    if leb (best_length best) (length ctarget) && starts_with cpath ctarget
    then some (record { mount = mount; ctarget = ctarget })
    else best

abbrev pub is_real : Mount → Bool
is_real mount = not (mount.pseudo || mount.swap)

-- The longer of the two, or the one of fstab.
unfoldable pub choose_mount : Option MountPoint → Option MountPoint → Option MountPoint
choose_mount kernel none = kernel
choose_mount none (some fstab) = some fstab
choose_mount (some kernel) (some fstab) =
    if ltb (length fstab.ctarget) (length kernel.ctarget) then some kernel else some fstab

-- `lstat` and `cwd` are the file system.
module _ (lstat : Bytes → Stat) (cwd : Option Bytes) where
  -- A round of the loop.
  unfoldable pub consider : Bytes → Option MountPoint → Mount → Result PathError (Option MountPoint)
  unfolding better canonical_path
  consider cpath best mount =
      if is_real mount
      then canonical_path lstat cwd [] mount.target
        >>= (λ ctarget. ok (better cpath best mount ctarget))
      else ok best

  unfoldable pub find_from :
      Bytes → Option MountPoint → List Mount → Result PathError (Option MountPoint)
  unfolding consider
  find_from cpath best [] = ok best
  find_from cpath best (mount ∷ mounts) =
      consider cpath best mount >>= (λ best'. find_from cpath best' mounts)

  unfoldable pub find_mount : List Mount → Bytes → Result PathError (Option MountPoint)
  unfolding find_from canonical_path
  find_mount table path = canonical_path lstat cwd [] path >>= (λ cpath. find_from cpath none table)

  -- The tables of the kernel and of fstab.
  unfoldable pub path_mount_point :
      List Mount → List Mount → Bytes → Result PathError (Option MountPoint)
  unfolding find_mount choose_mount
  path_mount_point kernel fstab path = find_mount kernel path >>= (λ mp_kernel.
      find_mount fstab path >>= (λ mp_fstab. ok (choose_mount mp_kernel mp_fstab)))
