-- ===== src/Files/Tests.antt =====
-- Runs on the file names and the directories.
use kdump.Prelude.{
  true, false, List, [], ◌∷◌, ◌++◌, ◌≡◌, refl, none, some, Bytes, codes, ok, throw, equal,
  last_byte,
}
use kdump.Prelude.Int.{pos, negsuc}
use kdump.Prelude.Effects.{done, raised}
use kdump.KString.Trim.{ltrim, rtrim}
use kdump.Files.Names.{base_name, dir_name, strip}
use kdump.Files.Canonical.{Stat, link, directory, canonical_path, resolve, too_many_links}
use kdump.Files.Below.{Below, canonical_path-Below}
use kdump.Files.Dirs.{
  Entry, Entries, end, file, dir, dt_dir, mkdir_paths, rmdir, open_failed, remove_failed,
}
use kdump.Files.Delete.{Target, to_delete}
use kdump.Files.Order.{opening, removing, contents, call_all, rmdir-contents}

names_run :
    (base_name (codes "/var/crash/") ≡ codes "crash")
    × (dir_name (codes "/var/crash/") ≡ codes "/var")
    × (dir_name (codes "/var") ≡ codes "/")
    × (base_name (codes "//") ≡ codes "/")
    × (dir_name (codes "var") ≡ codes ".")
unfolding base_name dir_name strip rtrim
names_run = (refl, refl, refl, refl, refl)

-- A file system with a link to itself, one to the root, and one upwards.
abbrev lstat : Bytes → Stat
lstat p = elim (equal p (codes "/r/loop")) [
  | true ↦ link (codes "loop")
  | false ↦ elim (equal p (codes "/r/etc")) [ true ↦ link (codes "/../../usr") | false ↦ directory ]
]

canonical_path_runs :
    (canonical_path lstat none (codes "/r") (codes "/a//b/./../c/") ≡ ok (codes "/r/a/c"))
    × (canonical_path lstat none (codes "/r") (codes "/etc/x") ≡ ok (codes "/r/usr/x"))
    × (canonical_path lstat none (codes "/r") (codes "/../../x") ≡ ok (codes "/r/x"))
    × (canonical_path lstat none (codes "/r") (codes "/loop") ≡ throw too_many_links)
    × (canonical_path lstat none [] (codes "/a/..") ≡ ok [])
    × (canonical_path lstat (some (codes "/r2")) (codes "/r") (codes "../x") ≡ ok (codes "/x"))
unfolding canonical_path resolve equal last_byte
canonical_path_runs = (refl, refl, refl, refl, refl, refl)

canonical_path-Below_example : Below (codes "/r") (codes "/r/usr/x")
unfolding canonical_path resolve equal last_byte
canonical_path-Below_example =
    canonical_path-Below lstat none (codes "/r") (codes "/etc/x") refl (λ e. cc) refl refl

mkdir_paths_run : mkdir_paths (codes "/a/b//") ≡ codes "/a" ∷ codes "/a/b" ∷ []
unfolding mkdir_paths rtrim
mkdir_paths_run = refl

abbrev tree : Entries
tree = file (codes ".") (dir (codes "d") (file (codes "x") end) (file (codes "y") end))

rmdir_runs :
    (rmdir (λ _. true) (λ _. true) true (codes "t") tree []
      ≡ done tt (codes "t/d/x" ∷ codes "t/d" ∷ codes "t/y" ∷ codes "t" ∷ []))
    × (rmdir (λ _. true) (λ p. equal p (codes "t/d/x")) true (codes "t") tree []
        ≡ raised (remove_failed (codes "t/d")) (codes "t/d/x" ∷ []))
    × (rmdir (λ p. equal p (codes "t")) (λ _. true) true (codes "t") tree []
        ≡ raised (open_failed (codes "t/d")) [])
    × (rmdir (λ _. false) (λ _. true) false (codes "t") tree [] ≡ done tt (codes "t" ∷ []))
unfolding rmdir equal rtrim ltrim
rmdir_runs = (refl, refl, refl, refl)

rmdir-contents_example :
    rmdir (λ _. true) (λ _. true) true (codes "t") tree []
    ≡ call_all
        (λ _. true)
        (λ _. true)
        (opening (codes "t") ∷ (contents (codes "t") tree ++ removing (codes "t") ∷ []))
        []
rmdir-contents_example = rmdir-contents (λ _. true) (λ _. true) (codes "t") tree []

abbrev dump : Bytes → Entry
dump name = record { name = name; d_type = dt_dir; stat_dir = true; has_vmcore = true }

abbrev dumps : List Entry
dumps =
    dump (codes "2024-02")
    ∷ dump (codes "..")
    ∷ dump (codes "2023-11")
    ∷ (record (dump (codes "lost")) { has_vmcore = false })
    ∷ dump (codes "2024-01")
    ∷ []

to_delete_runs :
    (to_delete (pos 2) dumps ≡ some (codes "2023-11" ∷ []))
    × (to_delete (pos 5) dumps ≡ some [])
    × (to_delete (negsuc 0) dumps ≡ some (codes "2023-11" ∷ codes "2024-01" ∷ codes "2024-02" ∷ []))
    × (to_delete (negsuc 1) dumps ≡ none)
unfolding to_delete equal
to_delete_runs = (refl, refl, refl, refl)

abbrev crash : Target
crash = record {
  path = codes "/var/crash";
  local = true;
  exists = true;
  entries = dumps;
  inside = λ name. end;
}
