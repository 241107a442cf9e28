-- ===== src/Files/Delete.antt =====
-- `DeleteDumps::delete_one` and `execute`.
use kdump.Prelude.{
  ℕ, zero, suc, ◌-◌, Bool, true, List, [], ◌∷◌, Option, none, some, Bytes, ltb, if◌then◌else◌,
  length, take,
}
use kdump.Prelude.Int.{ℤ, pos, negsuc}
use kdump.Prelude.Effects.{pure, raise, ◌>>◌}
use kdump.Kernel.Path.{append_path}
use kdump.Files.Dirs.{D, out_of_range, Entry, Entries, filter_kdump_dirs, list_dir, open_dir, rmdir}

-- How many of the dumps go: all for -1; `none` where the source copies more than there are.
unfoldable pub delete_items : ℤ → ℕ → Option ℕ
delete_items (negsuc zero) size = some size
delete_items (negsuc (suc n)) size = none
delete_items (pos keep) size = if ltb size keep then some 0 else some (size - keep)

-- The dumps that go, the oldest first, of those in the directory.
unfoldable pub to_delete : ℤ → List Entry → Option (List Bytes)
unfolding delete_items list_dir filter_kdump_dirs
to_delete keep ds =
    let contents = list_dir filter_kdump_dirs ds in
    elim (delete_items keep (length contents)) [
      | none ↦ none
      | some items ↦ some (take items contents)
    ]

-- A target directory: its path, and what it holds, where it is a local one that exists.
pub record Target : Type 0 where
  pub path : Bytes
  pub local : Bool
  pub exists : Bool
  pub entries : List Entry
  -- what the dump of a name holds
  pub inside : Bytes → Entries

module _ (opens removes : Bytes → Bool) (dry_run : Bool) where
  unfoldable pub delete_all : Target → List Bytes → D (Unit {0})
  unfolding append_path rmdir
  delete_all t [] = pure tt
  delete_all t (name ∷ names) =
      (if dry_run
        then pure tt
        else rmdir opens removes true (append_path t.path name) (t.inside name))
      >> delete_all t names

  unfoldable pub delete_one : Target → ℤ → D (Unit {0})
  unfolding to_delete delete_all open_dir
  delete_one t keep =
      if t.local
      then (if t.exists
          then (open_dir opens removes t.path >> (elim (to_delete keep t.entries) [
            | none ↦ raise out_of_range
            | some names ↦ delete_all t names
          ]))
          else pure tt)
      else pure tt

  -- The loop over the targets.
  unfoldable pub delete_targets : List Target → ℤ → D (Unit {0})
  unfolding delete_one
  delete_targets [] keep = pure tt
  delete_targets (t ∷ ts) keep = delete_one t keep >> delete_targets ts keep

  -- With 0, nothing is deleted.
  unfoldable pub execute : List Target → ℤ → D (Unit {0})
  unfolding delete_targets
  execute ts (pos zero) = pure tt
  execute ts (pos (suc keep)) = delete_targets ts (pos (suc keep))
  execute ts (negsuc n) = delete_targets ts (negsuc n)
