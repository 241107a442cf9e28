-- ===== src/Files/Dirs.antt =====
-- `FilePath::mkdir`, `rmdir` and `listDir`, and the filters of directory entries.
use kdump.Prelude.{
  Bool, true, false, ◌&&◌, ◌||◌, not, List, [], ◌∷◌, ◌++◌, Bytes, codes, ltb, ◌==◌, if◌then◌else◌,
  equal,
}
use kdump.Prelude.Effects.{done, raised, M, pure, ◌>>◌}
use kdump.Kernel.Path.{append_path}
use kdump.Files.Names.{strip}

-- What the loop of `mkdir` makes, in order: `passed` is the path up to `current_slash`. The path of
-- slashes alone, where the source reads in front of the string, is left out: nothing is made.
unfoldable pub mkdir_from : Bytes → Bytes → List Bytes
mkdir_from passed [] = passed ∷ []
mkdir_from passed (c ∷ s) =
    (if c == b'/' then passed ∷ [] else []) ++ mkdir_from (passed ++ c ∷ []) s

unfoldable pub mkdir_paths : Bytes → List Bytes
unfolding strip mkdir_from
mkdir_paths path = elim (strip path) [ [] ↦ [] | c ∷ s ↦ mkdir_from (c ∷ []) s ]

pub data DirError : Type 0 where
  mkdir_failed open_failed remove_failed : Bytes → DirError
  -- not an exception: the source reads behind a list
  out_of_range : DirError

-- The calls that succeed are kept, in their order.
abbrev pub D : Type 0 → Type 0
D A = M (List Bytes) DirError A

-- mkdir(2) of each path in turn; `makes` says that it is made, or there already.
unfoldable pub make_all : (Bytes → Bool) → List Bytes → D (Unit {0})
make_all makes [] made = done tt made
make_all makes (path ∷ paths) made =
    let later = make_all makes paths (made ++ path ∷ []) in
    if makes path then later else raised (mkdir_failed path) made

unfoldable pub mkdir : (Bytes → Bool) → Bytes → D (Unit {0})
unfolding mkdir_paths make_all
mkdir makes path = make_all makes (mkdir_paths path)

-- What a directory holds: its files, and its directories with what they hold.
pub data Entries : Type 0 where
  end : Entries
  file : Bytes → Entries → Entries
  dir : Bytes → Entries → Entries → Entries

abbrev pub is_dots : Bytes → Bool
is_dots name = equal name (codes ".") || equal name (codes "..")

-- The directories that opendir(3) opens, and the paths that remove(3) or rmdir(2) removes.
module _ (opens removes : Bytes → Bool) where
  unfoldable pub open_dir : Bytes → D (Unit {0})
  open_dir path removed = if opens path then done tt removed else raised (open_failed path) removed

  unfoldable pub remove : Bytes → D (Unit {0})
  remove path removed =
      if removes path then done tt (removed ++ path ∷ []) else raised (remove_failed path) removed

  -- The loop over the entries of the directory at `path`.
  unfoldable pub clear : Bytes → Entries → D (Unit {0})
  unfolding open_dir remove append_path
  clear path end = pure tt
  clear path (file name rest) =
      (if is_dots name then pure tt else remove (append_path path name)) >> clear path rest
  clear path (dir name sub rest) =
      (if is_dots name
        then pure tt
        else (open_dir (append_path path name)
            >> clear (append_path path name) sub
            >> remove (append_path path name)))
      >> clear path rest

  -- The flag is `recursive`.
  unfoldable pub rmdir : Bool → Bytes → Entries → D (Unit {0})
  unfolding clear
  rmdir false path entries = remove path
  rmdir true path entries = open_dir path >> clear path entries >> remove path

-- d_type of <dirent.h>
pub data Kind : Type 0 where
  dt_dir dt_unknown dt_other : Kind

-- An entry, and what fstatat(2) finds: that it is a directory, and that it has a vmcore.
pub record Entry : Type 0 where
  pub name : Bytes
  pub d_type : Kind
  pub stat_dir : Bool
  pub has_vmcore : Bool

unfoldable pub filter_dots : Entry → Bool
filter_dots d = not (is_dots d.name)

unfoldable pub filter_nondirs : Entry → Bool
unfolding filter_dots
filter_nondirs d =
    filter_dots d
    && (elim (d.d_type) [ dt_dir ↦ true | dt_unknown ↦ d.stat_dir | dt_other ↦ false ])

unfoldable pub filter_kdump_dirs : Entry → Bool
unfolding filter_nondirs
filter_kdump_dirs d = filter_nondirs d && d.has_vmcore

-- `operator<` of std::string
unfoldable pub less : Bytes → Bytes → Bool
less a [] = false
less [] (y ∷ b) = true
less (x ∷ a) (y ∷ b) = ltb x y || (x == y && less a b)

-- std::sort, by insertion.
unfoldable pub insert : Bytes → List Bytes → List Bytes
unfolding less
insert name [] = name ∷ []
insert name (n ∷ names) = if less n name then n ∷ insert name names else name ∷ n ∷ names

unfoldable pub sort : List Bytes → List Bytes
unfolding insert
sort [] = []
sort (name ∷ names) = insert name (sort names)

unfoldable pub names_of : (Entry → Bool) → List Entry → List Bytes
names_of test [] = []
names_of test (d ∷ ds) = (if test d then d.name ∷ [] else []) ++ names_of test ds

unfoldable pub list_dir : (Entry → Bool) → List Entry → List Bytes
unfolding names_of sort
list_dir test ds = sort (names_of test ds)
