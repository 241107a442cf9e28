-- ===== src/Transfer/Shares.antt =====
-- `NFSTransfer::translate` and `CIFSTransfer::translate`: shares that are mounted below /mnt.
use kdump.Prelude.{
  ℕ, zero, suc, ◌+◌, List, [], ◌∷◌, ◌++◌, Option, none, some, Bytes, Result, ok, throw, codes,
  if◌then◌else◌, length, take, drop, is_empty,
}
use kdump.Prelude.Int.{ℤ, pos, negsuc}
use kdump.KString.Search.{find, starts_with}
use kdump.KString.Number.{number2string}
use kdump.KString.Trim.{ltrim}
use kdump.Kernel.Path.{append_path}
use kdump.Files.Names.{base_name, dir_name}

-- The arguments of mount(8): `FileUtil::mount`, and `nfsmount` with it.
unfoldable pub option_args : List Bytes → List Bytes
option_args [] = []
option_args (o ∷ options) = codes "-o" ∷ o ∷ option_args options

unfoldable pub mount_args : Bytes → Bytes → Bytes → List Bytes → List Bytes
unfolding option_args
mount_args device mountpoint fs options =
    option_args options ++ (codes "-t" ∷ fs ∷ device ∷ mountpoint ∷ [])

unfoldable pub nfsmount_args : Bytes → Bytes → Bytes → List Bytes → List Bytes
unfolding mount_args
nfsmount_args host dir mountpoint options =
    mount_args (host ++ b':' ∷ dir) mountpoint (codes "nfs") options

-- A share that is mounted: the arguments, where, and the file URL that takes the place of the
-- target's. A failing mount throws, and is left out.
pub record Mounted : Type 0 where
  pub args : List Bytes
  pub mountpoint : Bytes
  pub url : Bytes

unfoldable pub nfs_translate : Bytes → Bytes → Mounted
unfolding append_path nfsmount_args base_name dir_name
nfs_translate host path =
    let mounted_dir = dir_name path in
    let mountpoint = append_path (append_path (codes "/mnt") host) mounted_dir in
    record {
      args = nfsmount_args host mounted_dir mountpoint (codes "nolock" ∷ []);
      mountpoint = mountpoint;
      url = codes "file://" ++ (mountpoint ++ b'/' ∷ base_name path);
    }

pub data ShareError : Type 0 where
  no_slash internal_error : ShareError

unfoldable pub user_options : Bytes → Bytes → List Bytes
user_options username password =
    if is_empty username
    then []
    else (codes "user=" ++ username)
      ∷ (if is_empty password then [] else (codes "password=" ++ password) ∷ [])

unfoldable pub port_options : ℤ → List Bytes
unfolding number2string
port_options (negsuc zero) = []
port_options (negsuc (suc n)) = (codes "port=" ++ number2string (negsuc (suc n))) ∷ []
port_options (pos n) = (codes "port=" ++ number2string (pos n)) ∷ []

-- share.find: where a text first stands in another.
unfoldable pub find_text : Bytes → Bytes → Option ℕ
unfolding starts_with
find_text [] part = if is_empty part then some 0 else none
find_text (c ∷ s) part =
    if starts_with (c ∷ s) part
    then some 0
    else elim (find_text s part) [ none ↦ none | some n ↦ some (suc n) ]

-- The share is the path's first name; what is behind it stays in the URL.
unfoldable pub cifs_translate : Bytes → ℤ → Bytes → Bytes → Bytes → Result ShareError Mounted
unfolding append_path ltrim find find_text mount_args user_options port_options
cifs_translate host port username password path =
    let trimmed = ltrim (codes "/") path in
    elim (find trimmed b'/') [
      | none ↦ throw no_slash
      | some first_slash ↦
          let share = take first_slash trimmed in
          let options = user_options username password ++ port_options port in
          elim (find_text path share) [
            | none ↦ throw internal_error
            | some share_begin ↦
                let rest = drop (share_begin + length share) path in
                ok (record {
                  args =
                      mount_args (codes "//" ++ (host ++ b'/' ∷ share)) (codes "/mnt")
                        (codes "cifs") options;
                  mountpoint = codes "/mnt";
                  url = codes "file://" ++ append_path (codes "/mnt") rest;
                })
          ]
    ]

-- The constructors mount the targets' shares in turn. One member keeps a mount point, and `close`,
-- which the destructor calls, unmounts what it keeps last.
unfoldable pub unmounted : List Mounted → List Bytes
unmounted [] = []
unmounted (m ∷ []) = m.mountpoint ∷ []
unmounted (m ∷ n ∷ ms) = unmounted (n ∷ ms)
