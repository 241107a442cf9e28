-- ===== src/Mounts/Devices.antt =====
-- `Btrfs::getDeviceList` and `FilesystemTypeMap`.
use kdump.Prelude.{
  ℕ, zero, suc, Bool, true, false, ◌||◌, List, [], ◌∷◌, ◌++◌, Option, none, some, Result, ok, throw,
  ◌>>=◌, Bytes, codes, ◌==◌, if◌then◌else◌, length, take, drop, equal, is_empty,
}
use kdump.Prelude.Dict.{insert}
use kdump.Prelude.Effects.{Outcome, done, raised}
use kdump.KString.Search.{find}
use kdump.Files.Dirs.{less}
use kdump.Mounts.Table.{MountPoint}
use kdump.Mounts.Root.{RootError, resolve}

-- BTRFS_IOC_DEV_INFO for a device: no such device, another error, or the device's path.
pub data DevInfo : Type 0 where
  no_device dev_error : DevInfo
  device : Bytes → DevInfo

abbrev pub is_eol : ℕ → Bool
is_eol c = c == 13 || c == 10

-- The text of a line, and what is behind its end.
unfoldable pub cut_line : Bytes → Bytes × Bytes
cut_line [] = ([], [])
cut_line (c ∷ s) =
    let (line, rest) = cut_line s in if is_eol c then ([], c ∷ s) else (c ∷ line, rest)

-- find_first_not_of("\r\n", end)
unfoldable pub skip_eol : Bytes → Bytes
skip_eol [] = []
skip_eol (c ∷ s) = if is_eol c then skip_eol s else c ∷ s

abbrev pub Devices : Type 0
Devices = List (Bytes × Bytes)

-- A line with a space, `sep < end`, maps the path to the type.
unfoldable pub add_row : Bytes → Devices → Option ℕ → Devices
unfolding insert
add_row line devices none = devices
add_row line devices (some sep) = insert (drop (suc sep) line) (take sep line) devices

unfoldable pub add_line : Bytes → Devices → Devices
unfolding find add_row
add_line line devices = add_row line devices (find line b' ')

-- The loop over the output of lsblk; a round passes a byte.
unfoldable pub parse_lsblk : ℕ → Bytes → Devices → Devices
unfolding cut_line skip_eol add_line
parse_lsblk zero out devices = devices
parse_lsblk (suc f) [] devices = devices
parse_lsblk (suc f) (c ∷ s) devices =
    let (line, rest) = cut_line (c ∷ s) in parse_lsblk f (skip_eol rest) (add_line line devices)

-- The exceptions of the map.
pub data MapError : Type 0 where
  unresolved : RootError → MapError
  no_fs_info no_dev_info lsblk_failed : MapError

-- `for (id = 0; id <= fs_info.max_id; ++id)`, with `left` rounds left.
unfoldable pub device_list_from : (ℕ → DevInfo) → ℕ → ℕ → Result MapError (List Bytes)
device_list_from infos id zero = ok []
device_list_from infos id (suc left) =
    let rest = device_list_from infos (suc id) left in
    elim (infos id) [
      | no_device ↦ rest
      | dev_error ↦ throw no_dev_info
      | device path ↦ if is_empty path then rest else rest >>= (λ paths. ok (path ∷ paths))
    ]

-- `max_id` is what BTRFS_IOC_FS_INFO says, unless it fails.
unfoldable pub get_device_list : Option ℕ → (ℕ → DevInfo) → Result MapError (List Bytes)
unfolding device_list_from
get_device_list none infos = throw no_fs_info
get_device_list (some max_id) infos = device_list_from infos 0 (suc max_id)

-- m_sources, a std::set, in its order.
unfoldable pub insert_source : Bytes → List Bytes → List Bytes
unfolding equal less
insert_source path [] = path ∷ []
insert_source path (p ∷ ps) =
    let later = p ∷ insert_source path ps in
    if equal path p then p ∷ ps else if less path p then path ∷ p ∷ ps else later

-- The map, and the static m_devroot.
pub record TypeMap : Type 0 where
  pub sources : List Bytes
  pub devices : Devices
  pub devroot : Bytes

-- What stands outside: mnt_resolve_spec(3), the kernel's command line, the two ioctls by the mount's
-- target, and lsblk(8) with its arguments, which may fail.
pub record Outside : Type 0 where
  pub spec : Bytes → Option Bytes
  pub cmdline : Option Bytes
  pub max_id : Bytes → Option ℕ
  pub infos : Bytes → ℕ → DevInfo
  pub lsblk : List Bytes → Option Bytes

unfoldable pub add_source : Outside → Bytes → TypeMap → Outcome TypeMap MapError (Unit {0})
unfolding resolve insert_source
add_source o source tm = elim (resolve o.spec o.cmdline source tm.devroot) [
  | done path d ↦ done tt (record tm { sources = insert_source path tm.sources; devroot = d })
  | raised e d ↦ raised (unresolved e) (record tm { devroot = d })
]

unfoldable pub add_sources : Outside → List Bytes → TypeMap → Outcome TypeMap MapError (Unit {0})
unfolding add_source
add_sources o [] tm = done tt tm
add_sources o (source ∷ sources) tm = elim (add_source o source tm) [
  | done _ tm' ↦ add_sources o sources tm'
  | raised e tm' ↦ raised e tm'
]

-- `addPath`, for the mount point of the path.
unfoldable pub add_mount :
    Outside → Option MountPoint → TypeMap → Outcome TypeMap MapError (Unit {0})
unfolding add_sources add_source get_device_list equal
add_mount o none tm = done tt tm
add_mount o (some mnt) tm =
    if equal mnt.mount.fstype (codes "btrfs")
    then elim (get_device_list (o.max_id mnt.mount.target) (o.infos mnt.mount.target)) [
      | throw e ↦ raised e tm
      | ok paths ↦ add_sources o paths tm
    ]
    else add_source o mnt.mount.source tm

abbrev pub is_empty_list : List Bytes → Bool
is_empty_list [] = true
is_empty_list (p ∷ ps) = false

abbrev pub lsblk_args : List Bytes
lsblk_args =
    codes "--raw"
    ∷ codes "--noheadings"
    ∷ codes "--inverse"
    ∷ codes "--output"
    ∷ codes "FSTYPE,PATH"
    ∷ []

unfoldable pub devices : Outside → TypeMap → Outcome TypeMap MapError Devices
unfolding parse_lsblk
devices o tm =
    if is_empty_list tm.sources
    then done tm.devices tm
    else elim (o.lsblk (lsblk_args ++ tm.sources)) [
      | none ↦ raised lsblk_failed tm
      | some out ↦
          let found = parse_lsblk (length out) out tm.devices in
          done found (record tm { devices = found })
    ]
