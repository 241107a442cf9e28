-- ===== src/Files/Names.antt =====
-- `FilePath::baseName` and `dirName`: basename(3) and dirname(3) of <libgen.h>.
use kdump.Prelude.{suc, [], ◌∷◌, none, some, Bytes, codes, if◌then◌else◌, is_empty, take, drop}
use kdump.KString.Search.{rfind}
use kdump.KString.Trim.{rtrim}

-- The path without the slashes at its end. Of slashes alone, nothing is left.
unfoldable pub strip : Bytes → Bytes
unfolding rtrim
strip path = rtrim (codes "/") path

unfoldable pub base_name : Bytes → Bytes
unfolding strip rfind
base_name [] = codes "."
base_name (c ∷ path) =
    let s = strip (c ∷ path) in
    if is_empty s then codes "/" else elim (rfind s b'/') [ none ↦ s | some n ↦ drop (suc n) s ]

unfoldable pub dir_name : Bytes → Bytes
unfolding strip rfind
dir_name [] = codes "."
dir_name (c ∷ path) =
    let s = strip (c ∷ path) in
    if is_empty s then codes "/" else elim (rfind s b'/') [
      | none ↦ codes "."
      | some n ↦ let dir = strip (take n s) in if is_empty dir then codes "/" else dir
    ]
