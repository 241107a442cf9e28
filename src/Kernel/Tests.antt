-- ===== src/Kernel/Tests.antt =====
-- Runs on the names of a kernel.
use kdump.Prelude.{
  Bool, true, false, ◌&&◌, ◌||◌, not, some, Bytes, codes, ◌≡◌, refl, [], equal, is_empty, All,
}
use kdump.Prelude.Dict.{lookup}
use kdump.KString.Split.{split, join}
use kdump.Files.Names.{base_name, dir_name}
use kdump.Kernel.Search.{
  Image, get, strictly, set_last, is_kdump_kernel, suitable_for_kdump, find_image, find_for_version,
  attempt, with_flavour, find_kernel_auto, find_kernel, get_paths,
}
use kdump.Kernel.Chosen.{accepts, versions_of, get_paths-suits, find_kernel_auto-prefers}
use kdump.KString.Search.{starts_with, ends_with}
use kdump.KString.Trim.{ltrim, rtrim}
use kdump.Kernel.Path.{
  append_path, image_names, KernelPath, split_name, kernel_path, is_kdump, dash_version,
  config_path, initrd_path,
}

abbrev installed : KernelPath
installed = record {
  directory = codes "/boot";
  name = codes "vmlinuz";
  version = codes "5.3-default";
}

runs :
    (kernel_path (codes "x86_64") (codes "/boot") (codes "vmlinuz-5.3-default") ≡ installed)
    × (config_path installed ≡ codes "/boot/config-5.3-default")
    × (initrd_path false installed ≡ codes "/boot/initrd-5.3-default-kdump")
    × (initrd_path true installed ≡ codes "/boot/initrd-5.3-default")
unfolding kernel_path split_name image_names config_path initrd_path append_path dash_version
    is_kdump equal starts_with ends_with ltrim rtrim
runs = (refl, refl, refl, refl)

-- One kernel for the running version.
abbrev there : Bytes → Bool
there = equal (codes "/boot/vmlinuz-5.3-default")

abbrev plain : Bytes → Image
plain image = record { relocatable = true; configs = [] }

get_paths_run :
    get_paths (codes "x86_64") there plain true [] (codes "5.3-default")
    ≡ some (codes "/boot/vmlinuz-5.3-default", codes "/boot/initrd-5.3-default")
unfolding get_paths find_kernel find_kernel_auto attempt with_flavour find_for_version find_image
    suitable_for_kdump is_kdump_kernel get strictly set_last kernel_path split_name image_names
    initrd_path append_path dash_version is_kdump equal starts_with ends_with ltrim rtrim base_name
    dir_name split join lookup
get_paths_run = refl

get_paths-suits_example :
    (there (codes "/boot/vmlinuz-5.3-default") ≡ true)
    × (suitable_for_kdump (codes "x86_64") there plain (codes "/boot/vmlinuz-5.3-default") false
        ≡ true)
    × (codes "/boot/initrd-5.3-default"
        ≡ initrd_path true (
            kernel_path
              (codes "x86_64")
              (dir_name (codes "/boot/vmlinuz-5.3-default"))
              (base_name (codes "/boot/vmlinuz-5.3-default"))))
get_paths-suits_example =
    get_paths-suits (codes "x86_64") there plain true [] (codes "5.3-default") get_paths_run

find_kernel_auto-prefers_example :
    let image = find_kernel_auto (codes "x86_64") there plain (codes "5.3-default") in
    All
      (λ version.
        (accepts (codes "x86_64") there plain version true
          && not (suitable_for_kdump (codes "x86_64") there plain image true))
        ≡ false)
      (versions_of (codes "5.3-default"))
    × ((is_empty image
          && (accepts (codes "x86_64") there plain (codes "5.3-default") false
              || accepts
                  (codes "x86_64")
                  there
                  plain
                  (with_flavour (codes "5.3-default") (codes "default"))
                  false
              || accepts (codes "x86_64") there plain [] false))
        ≡ false)
find_kernel_auto-prefers_example =
    find_kernel_auto-prefers (codes "x86_64") there plain (codes "5.3-default")
