-- ===== src/Save/Places.antt =====
-- Where `save_dump` finds the crashed kernel and its release, and the check of the disk space.
use kdump.Prelude.{
  ℕ, zero, suc, ◌/◌, Bool, true, false, ◌&&◌, ◌||◌, not, List, [], ◌∷◌, ◌++◌, Option, none, some,
  Bytes, codes, Result, ok, throw, ltb, if◌then◌else◌, length, drop, is_empty,
}
use kdump.KString.Search.{starts_with}
use kdump.Kernel.Path.{append_path}
use kdump.Calibrate.Cpus.{skip_spaces}
use kdump.Calibrate.Slabs.{until_space}

-- `binary`, `binaryroot`, and whether the file must be an ELF file.
pub record Place : Type 0 where
  pub binary : Bytes
  pub binaryroot : Bytes
  pub checks_elf : Bool

-- (binary = "/boot").appendPath(name); (binaryroot = m_rootdir).appendPath(binary)
unfoldable pub in_boot : Bytes → Bytes → Bool → Place
unfolding append_path
in_boot root name checks =
    let path = append_path (codes "/boot") name in
    record { binary = path; binaryroot = append_path root path; checks_elf = checks }

-- The steps 1 to 6 of `findKernel`.
unfoldable pub kernel_places : Bytes → Bytes → List Place
unfolding in_boot
kernel_places root release =
    let vmlinux = in_boot root (codes "vmlinux-" ++ release) false in
    vmlinux
    ∷ record {
      binary = vmlinux.binary ++ codes ".gz";
      binaryroot = vmlinux.binaryroot ++ codes ".gz";
      checks_elf = false;
    }
    ∷ in_boot root (codes "vmlinux-" ++ (release ++ codes ".xz")) false
    ∷ in_boot root (codes "vmlinuz-" ++ release) true
    ∷ in_boot root (codes "image-" ++ release) false
    ∷ in_boot root (codes "Image-" ++ release) false
    ∷ []

pub data PlaceError : Type 0 where
  no_kernel_image no_map no_cmdline no_version too_large : PlaceError

-- `exists` and `is_elf` are the file system.
module _ (exists is_elf : Bytes → Bool) where
  unfoldable pub suits : Place → Bool
  suits place = exists place.binaryroot && (not place.checks_elf || is_elf place.binaryroot)

  unfoldable pub first_place : List Place → Result PlaceError Bytes
  unfolding suits
  first_place [] = throw no_kernel_image
  first_place (place ∷ places) =
      let later = first_place places in if suits place then ok place.binary else later

  unfoldable pub find_dump_kernel : Bytes → Bytes → Result PlaceError Bytes
  unfolding first_place kernel_places
  find_dump_kernel root release = first_place (kernel_places root release)

  unfoldable pub find_mapfile : Bytes → Bytes → Result PlaceError Bytes
  unfolding in_boot
  find_mapfile root release =
      let place = in_boot root (codes "System.map-" ++ release) false in
      if exists place.binaryroot then ok place.binary else throw no_map

-- A target: whether its protocol is that of files, its real path, and the bytes that are free.
pub record Space : Type 0 where
  pub is_file : Bool
  pub path : Bytes
  pub free : ℕ

abbrev pub bytes_to_megabytes : ℕ → ℕ
bytes_to_megabytes bytes = bytes / 1024 / 1024

-- `checkAndDelete`, with KDUMP_FREE_DISK_SIZE as an unsigned number: the directory that is deleted, behind which the exception ends the loop.
unfoldable pub check_and_delete : ℕ → List Space → Option Bytes
check_and_delete limit [] = none
check_and_delete limit (target ∷ targets) =
    let later = check_and_delete limit targets in
    if target.is_file && ltb (bytes_to_megabytes target.free) limit then some target.path else later

abbrev pub version_prefix : Bytes
version_prefix = codes "kernelversion="

-- The loop over the words; a round but the last one passes a byte.
unfoldable pub version_from : ℕ → Bytes → Bytes → Bytes
unfolding skip_spaces until_space starts_with
version_from zero s version = version
version_from (suc f) s version =
    let (word, rest) = until_space (skip_spaces s) in
    let version' =
      if starts_with word version_prefix then drop (length version_prefix) word else version in
    let next = version_from f rest version' in if is_empty word then version else next

-- `getKernelReleaseCommandline`; `cmdline` is what the file holds, if it can be opened.
unfoldable pub release_commandline : Option Bytes → Result PlaceError Bytes
unfolding version_from
release_commandline none = throw no_cmdline
release_commandline (some text) =
    let version = version_from (suc (length text)) text [] in
    if is_empty version then throw no_version else ok version
