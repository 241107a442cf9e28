-- ===== src/Mounts/Tests.antt =====
-- Runs on mount tables, command lines and the output of lsblk.
use kdump.Prelude.{
  false, List, [], ◌∷◌, ◌≡◌, ◌⊎◌, refl, Option, none, some, Bytes, codes, ok, All, equal, is_empty,
  last_byte, erase_last, arith,
}
use kdump.Prelude.Effects.{done}
use kdump.KString.Search.{find, starts_with, rfind}
use kdump.KString.Number.{is_number, is_hex_number, number2string}
use kdump.Files.Canonical.{
  Stat, directory, canonical_path, canonical_in, resolve, walk, skip_slashes, component, visit,
  settle, follow, back_up, enter,
}
use kdump.Mounts.Table.{
  Mount, MountPoint, find_mount, find_from, consider, better, best_length, path_mount_point,
  choose_mount,
}
use kdump.Mounts.Longest.{reaches, IsLongest}
use kdump.Mounts.Choice.{size, path_mount_point-IsLongest}
use kdump.Mounts.Root.{
  cmdline_root, root_from, root_step, read_word, take_root, remove_kparam_quotes, devroot_maj_min,
  devroot_hexhex, block_device, read_hex, hex_from, major, minor,
}
use kdump.Mounts.Parameter.{words_text}
use kdump.Mounts.Devices.{TypeMap, Outside, devices, no_device}
use kdump.Mounts.Rows.{rows_text, insert_rows, devices-rows}

abbrev all_dirs : Bytes → Stat
all_dirs path = directory

abbrev root_fs : Mount
root_fs = record {
  source = codes "/dev/sda1";
  target = codes "/";
  fstype = codes "ext4";
  pseudo = false;
  swap = false;
}

abbrev home_fs : Mount
home_fs = record root_fs { source = codes "/dev/sda2"; target = codes "/home" }

-- "/home2" is found on "/home".
found_beside :
    find_mount all_dirs none (root_fs ∷ home_fs ∷ []) (codes "/home2/dump")
    ≡ ok (some (record { mount = home_fs; ctarget = codes "/home" }))
unfolding find_mount find_from consider better best_length starts_with canonical_path canonical_in
    resolve walk skip_slashes component visit settle follow back_up enter equal rfind last_byte
found_beside = refl

found_in_fstab :
    path_mount_point all_dirs none (root_fs ∷ []) (home_fs ∷ root_fs ∷ []) (codes "/home/dump")
    ≡ ok (some (record { mount = home_fs; ctarget = codes "/home" }))
unfolding path_mount_point choose_mount find_mount find_from consider better best_length starts_with
    canonical_path canonical_in resolve walk skip_slashes component visit settle follow back_up
    enter equal rfind last_byte
found_in_fstab = refl

path_mount_point-IsLongest_example :
    let found : Option MountPoint = some (record { mount = home_fs; ctarget = codes "/home" }) in
    (cpath : Bytes) × (canonical_path all_dirs none [] (codes "/home/dump") ≡ ok cpath)
    × (IsLongest all_dirs none cpath (root_fs ∷ []) found
        ⊎ IsLongest all_dirs none cpath (home_fs ∷ root_fs ∷ []) found)
    × All (λ mount. reaches all_dirs none cpath (size found) mount ≡ false) (root_fs ∷ [])
    × All (λ mount. reaches all_dirs none cpath (size found) mount ≡ false) (home_fs ∷ root_fs ∷ [])
path_mount_point-IsLongest_example =
    path_mount_point-IsLongest all_dirs none (root_fs ∷ []) (home_fs ∷ root_fs ∷ [])
      (codes "/home/dump") found_in_fstab

abbrev boot_words : List Bytes
boot_words =
    codes "quiet" ∷ codes "root=8:1" ∷ codes "\"root=UUID=a b\"" ∷ codes "--" ∷ codes "root=x" ∷ []

root_said : cmdline_root (words_text boot_words) ≡ codes "UUID=a b"
unfolding cmdline_root root_from root_step read_word take_root remove_kparam_quotes starts_with
    equal last_byte erase_last
root_said = refl

-- major:minor, and their hexadecimal form.
devroots :
    (devroot_maj_min (codes "8:1:0") ≡ some (codes "/dev/block/8:1"))
    × (devroot_hexhex (codes "0801") ≡ some (codes "/dev/block/8:1"))
unfolding devroot_maj_min devroot_hexhex block_device find is_number is_hex_number read_hex hex_from
    major minor number2string
devroots = (refl, refl)

unresolved :
    (is_empty (cmdline_root (words_text boot_words)) ≡ false)
    × (devroot_maj_min (cmdline_root (words_text boot_words)) ≡ none)
    × (devroot_hexhex (cmdline_root (words_text boot_words)) ≡ none)
unfolding cmdline_root root_from root_step read_word take_root remove_kparam_quotes starts_with
    equal devroot_maj_min devroot_hexhex find is_hex_number last_byte erase_last
unresolved = (refl, refl, refl)

abbrev two_rows : List (Bytes × Bytes)
two_rows = (codes "xf", codes "/dev/a") ∷ ([], codes "/dev2") ∷ []

abbrev one_disk : Outside
one_disk = record {
  spec = some;
  cmdline = none;
  max_id = λ target. none;
  infos = λ target id. no_device;
  lsblk = λ args. some (rows_text two_rows);
}

abbrev one_source : TypeMap
one_source = record { sources = codes "/dev/sda1" ∷ []; devices = []; devroot = [] }

devices-rows_example :
    devices one_disk one_source
    ≡ done (insert_rows two_rows []) (record one_source { devices = insert_rows two_rows [] })
devices-rows_example = devices-rows one_disk one_source two_rows refl refl (
  (
    (refl, (refl, tt)),
    ((λ e. omega arith), ((λ e. omega arith), tt)),
    (refl, (refl, (refl, (refl, (refl, (refl, tt)))))),
  ),
  ((tt, tt, (refl, (refl, (refl, (refl, (refl, tt)))))), tt),
)
