-- ===== src/Kernel/Path.antt =====
-- `KernelPath`, and `FilePath::appendPath` of fileutil.cc. What `dirName` and `baseName` make of the
-- path is an argument.
use kdump.Prelude.{
  is_empty, Bool, false, not, ◌&&◌, ◌||◌, List, [], ◌∷◌, ◌++◌, Bytes, codes, ◌==◌, if◌then◌else◌,
  length, drop, equal,
}
use kdump.KString.Search.{starts_with, ends_with}
use kdump.KString.Trim.{ltrim, rtrim}

-- appendPath
unfoldable pub append_path : Bytes → Bytes → Bytes
append_path s p = rtrim (codes "/") s ++ codes "/" ++ ltrim (codes "/") p

unfoldable pub image_names : Bytes → List Bytes
image_names arch =
    if equal arch (codes "i386") || equal arch (codes "x86_64")
    then codes "vmlinuz" ∷ codes "vmlinux" ∷ []
    else if equal arch (codes "ia64")
    then codes "vmlinuz" ∷ []
    else if equal arch (codes "s390x")
    then codes "image" ∷ []
    else if equal arch (codes "aarch64")
    then codes "Image" ∷ []
    else codes "vmlinux" ∷ []

pub record KernelPath : Type 0 where
  pub directory : Bytes
  pub name : Bytes
  pub version : Bytes

abbrev pub starts_dash : Bytes → Bool
starts_dash [] = false
starts_dash (c ∷ s) = c == b'-'

-- The loop over the image names.
unfoldable pub split_name : Bytes → Bytes → List Bytes → KernelPath
split_name directory name [] = record { directory = directory; name = name; version = [] }
split_name directory name (pfx ∷ names) =
    let later = split_name directory name names in
    let rest = drop (length pfx) name in
    if starts_with name pfx
    then (if length name == length pfx
        then record { directory = directory; name = pfx; version = [] }
        else if starts_dash rest
        then record { directory = directory; name = pfx; version = drop 1 rest }
        else later)
    else later

unfoldable pub kernel_path : Bytes → Bytes → Bytes → KernelPath
kernel_path arch directory name = split_name directory name (image_names arch)

unfoldable pub is_kdump : KernelPath → Bool
is_kdump p = ends_with p.version (codes "kdump")

-- `if (!m_version.empty())`
unfoldable pub dash_version : KernelPath → Bytes
dash_version p = if is_empty p.version then [] else b'-' ∷ p.version

unfoldable pub config_path : KernelPath → Bytes
config_path p = append_path p.directory (codes "config") ++ dash_version p

unfoldable pub initrd_path : Bool → KernelPath → Bytes
initrd_path fadump p =
    append_path p.directory (codes "initrd")
    ++ dash_version p
    ++ (if not fadump && not (is_kdump p) then codes "-kdump" else [])
