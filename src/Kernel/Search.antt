-- ===== src/Kernel/Search.antt =====
-- `FindKernel` of findkernel.cc: the choice of the kernel that is loaded for the dump.
use kdump.Prelude.{
  Bool, true, false, ◌&&◌, ◌||◌, not, List, [], ◌∷◌, ◌++◌, Option, none, some, Bytes, codes,
  if◌then◌else◌, is_empty, ltb, equal,
}
use kdump.Prelude.Int.{pos, negsuc}
use kdump.Prelude.Dict.{lookup}
use kdump.KString.Search.{ends_with}
use kdump.KString.Split.{split, join}
use kdump.Kconfig.Value.{
  KconfigValue, invalid, tristate, integer, string, on, off, module_, Configs,
}
use kdump.Files.Names.{base_name, dir_name}
use kdump.Kernel.Path.{append_path, image_names, kernel_path, initrd_path}

-- What the kernel image says of itself: whether it is relocatable, and its configuration.
pub record Image : Type 0 where
  pub relocatable : Bool
  pub configs : Configs

-- `Kconfig::get`; an option that is not there is made, without a value.
unfoldable pub get : Configs → Bytes → KconfigValue
unfolding lookup
get configs option = elim (lookup option configs) [ none ↦ invalid | some value ↦ value ]

abbrev pub is_on : KconfigValue → Bool
is_on (tristate on) = true
is_on (tristate off) = false
is_on (tristate module_) = false
is_on (integer n) = false
is_on (string s) = false
is_on invalid = false

-- MAXCPUS_KDUMP
abbrev pub many_cpus : KconfigValue → Bool
many_cpus (integer (pos n)) = ltb 1024 n
many_cpus (integer (negsuc n)) = false
many_cpus (tristate t) = false
many_cpus (string s) = false
many_cpus invalid = false

abbrev pub is_valid : KconfigValue → Bool
is_valid invalid = false
is_valid (tristate t) = true
is_valid (integer n) = true
is_valid (string s) = true

unfoldable pub is_kdump_kernel : Bytes → Bool
unfolding ends_with
is_kdump_kernel image = ends_with image (codes "kdump")

-- `if (strict)`
unfoldable pub strictly : Bytes → Configs → Bool
unfolding get equal
strictly arch configs =
    not (
      (equal arch (codes "i386") || equal arch (codes "x86_64"))
      && many_cpus (get configs (codes "CONFIG_NR_CPUS")))
    && not (is_valid (get configs (codes "CONFIG_PREEMPT_RT")))

unfoldable pub set_last : Bytes → List Bytes → List Bytes
set_last flavour [] = []
set_last flavour (e ∷ []) = flavour ∷ []
set_last flavour (e ∷ f ∷ es) = e ∷ set_last flavour (f ∷ es)

-- The running kernel's version with another flavour.
unfoldable pub with_flavour : Bytes → Bytes → Bytes
unfolding split join set_last
with_flavour running flavour = join b'-' (set_last flavour (split running b'-'))

-- `arch` is the machine's, `exists` the file system, and `image_of` what the images say.
module _ (arch : Bytes) (exists : Bytes → Bool) (image_of : Bytes → Image) where
  unfoldable pub suitable_for_kdump : Bytes → Bool → Bool
  unfolding is_kdump_kernel get strictly
  suitable_for_kdump image strict =
      let kt = image_of image in
      if not (is_kdump_kernel image) && not kt.relocatable
      then false
      else if is_on (get kt.configs (codes "CONFIG_X86_64_XEN"))
          || is_on (get kt.configs (codes "CONFIG_X86_XEN"))
      then false
      else if strict
      then strictly arch kt.configs
      else true

  -- The loop over the image names.
  unfoldable pub find_image : Bytes → List Bytes → Bytes
  unfolding append_path
  find_image version [] = []
  find_image version (name ∷ names) =
      let later = find_image version names in
      let kernel =
        append_path (codes "/boot") (if is_empty version then name else name ++ b'-' ∷ version) in
      if exists kernel then kernel else later

  unfoldable pub find_for_version : Bytes → Bytes
  unfolding find_image image_names
  find_for_version version = find_image version (image_names arch)

  -- One of the numbered tries; `next` is what follows.
  unfoldable pub attempt : Bytes → Bool → Bytes → Bytes
  unfolding find_for_version suitable_for_kdump
  attempt version strict next =
      let image = find_for_version version in
      if not (is_empty image) && suitable_for_kdump image strict then image else next

  unfoldable pub find_kernel_auto : Bytes → Bytes
  unfolding attempt with_flavour
  find_kernel_auto running = attempt (with_flavour running (codes "kdump")) true (
      attempt (codes "kdump") true (
        attempt running true (
          attempt (with_flavour running (codes "default")) true (
            attempt [] true (
              attempt running false
                (attempt (with_flavour running (codes "default")) false (attempt [] false [])))))))

  -- `kernelver` is KDUMP_KERNELVER, and `running` the running kernel's release.
  unfoldable pub find_kernel : Bytes → Bytes → Bytes
  unfolding find_kernel_auto
  find_kernel kernelver running =
      if is_empty kernelver
      then find_kernel_auto running
      else (let image = find_for_version kernelver in
          if not (is_empty image) && suitable_for_kdump image false then image else [])

  -- The kernel and its initrd, if there is one.
  unfoldable pub get_paths : Bool → Bytes → Bytes → Option (Bytes × Bytes)
  unfolding find_kernel kernel_path initrd_path base_name dir_name
  get_paths fadump kernelver running =
      let image = find_kernel kernelver running in
      if is_empty image
      then none
      else some (image, initrd_path fadump (kernel_path arch (dir_name image) (base_name image)))
