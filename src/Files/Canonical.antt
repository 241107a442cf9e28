-- ===== src/Files/Canonical.antt =====
-- `FilePath::getCanonicalPath`.
use kdump.Prelude.{
  ℕ, zero, suc, Bool, false, ◌||◌, [], ◌∷◌, ◌++◌, Option, none, some, Bytes, Result, ok, throw,
  codes, ltb, ◌==◌, if◌then◌else◌, length, take, equal, last_byte, is_empty,
}
use kdump.KString.Search.{rfind, starts_with}

-- What lstat(2) finds: a link with what it says, a directory, another file, nothing, or an error.
pub data Stat : Type 0 where
  link : Bytes → Stat
  directory other missing stat_error : Stat

pub data PathError : Type 0 where
  no_cwd stat_failed too_many_links not_directory : PathError

-- The slashes at the front are skipped.
unfoldable pub skip_slashes : Bytes → Bytes
skip_slashes [] = []
skip_slashes (c ∷ p) = if c == b'/' then skip_slashes p else c ∷ p

-- A component, and what is behind it.
unfoldable pub component : Bytes → Bytes × Bytes
component [] = ([], [])
component (c ∷ p) =
    let (dir, rest) = component p in if c == b'/' then ([], c ∷ p) else (c ∷ dir, rest)

-- `ret.resize(ret.rfind('/'))`. The source asks for `npos` characters where there is no slash, and
-- throws; the paths that it makes begin with one.
unfoldable pub back_up : Bytes → Bytes
unfolding rfind
back_up ret = elim (rfind ret b'/') [ none ↦ ret | some n ↦ take n ret ]

-- `if (*ret.rbegin() != '/') ret += '/'; ret += dir;`
unfoldable pub enter : Bytes → Bytes → Bytes
enter ret dir = if last_byte ret == b'/' then ret ++ dir else ret ++ b'/' ∷ dir

abbrev pub starts_slash : Bytes → Bool
starts_slash [] = false
starts_slash (c ∷ p) = c == b'/'

-- MAXSYMLINKS of <sys/param.h>
abbrev pub max_links : ℕ
max_links = 20

-- A component that is not empty, "." or "..", by what `lstat` finds: nothing, or the path of a link
-- that takes the place of the component.
unfoldable pub visit : Stat → Bytes → Result PathError (Option Bytes)
visit missing rest = ok none
visit stat_error rest = throw stat_failed
visit directory rest = ok none
visit other rest = if is_empty rest then ok none else throw not_directory
visit (link target) rest = ok (some (target ++ rest))

-- The path to go on from behind a link.
unfoldable pub follow : Bytes → Bytes → Bytes → Bytes
unfolding back_up
follow root ret path = if starts_slash path then take (length root) ret else back_up ret

-- `down` is the loop behind a component that is no link, and `jump` the loop for one link more.
unfoldable pub settle :
    Bytes
    → (Bytes → Bytes → Result PathError Bytes)
    → Bytes
    → Result PathError Bytes
    → Result PathError (Option Bytes)
    → Result PathError Bytes
unfolding follow
settle root jump entered down (throw e) = throw e
settle root jump entered down (ok none) = down
settle root jump entered down (ok (some path)) = jump (follow root entered path) path

-- `lstat` is the file system; `root` is `*rootp`. The loop is left with an error where the links are
-- too many; the outer rounds are those links, and the inner ones the components of the path that is
-- left, of which every round takes a byte.
module _ (lstat : Bytes → Stat) (root : Bytes) where
  unfoldable pub walk :
      (Bytes → Bytes → Result PathError Bytes) → ℕ → Bytes → Bytes → Result PathError Bytes
  unfolding skip_slashes component visit settle back_up enter equal
  walk jump zero ret path = ok ret
  walk jump (suc f) ret path =
      let (dir, rest) = component (skip_slashes path) in
      let entered = enter ret dir in
      let on = walk jump f ret rest in
      let up = walk jump f (if ltb (length root) (length ret) then back_up ret else ret) rest in
      let down = walk jump f entered rest in
      let linked = visit (lstat entered) rest in
      if is_empty path
      then ok ret
      else if is_empty dir || equal dir (codes ".")
      then on
      else if equal dir (codes "..")
      then up
      else settle root jump entered down linked

  -- With `links` links left.
  unfoldable pub resolve : ℕ → Bytes → Bytes → Result PathError Bytes
  unfolding walk
  resolve zero ret path = walk (λ _ _. throw too_many_links) (length path) ret path
  resolve (suc links) ret path = walk (resolve links) (length path) ret path

-- `cwd` is what getcwd(3) gives. An empty root is "/".
module _ (lstat : Bytes → Stat) (cwd : Option Bytes) where
  unfoldable pub canonical_in : Bytes → Bytes → Result PathError Bytes
  unfolding starts_with
  canonical_in root path =
      if starts_slash path then resolve lstat root max_links root path else elim cwd [
        | none ↦ throw no_cwd
        | some dir ↦
            if starts_with dir root then resolve lstat root max_links dir path else throw no_cwd
      ]

  unfoldable pub canonical_path : Bytes → Bytes → Result PathError Bytes
  unfolding canonical_in
  canonical_path root path =
      if is_empty path
      then ok path
      else canonical_in (if is_empty root then codes "/" else root) path
