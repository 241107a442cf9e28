-- ===== src/DeviceTimeout/Generator.antt =====
-- The generator: the command lines that set the timeout, and the files for the fstab entries.
use kdump.Prelude.{ℕ, Bool, List, [], ◌∷◌, ◌++◌, Option, none, some, Bytes, codes, if◌then◌else◌}
use kdump.KString.Search.{starts_with, ends_with}
use kdump.KString.Number.{number2string}
use kdump.Prelude.Int.{pos}
use kdump.DeviceTimeout.Args.{cstr, parse_args, get_timeout}
use kdump.DeviceTimeout.Fstab.{unescape_fstab, evaluate_spec}
use kdump.DeviceTimeout.Unit.{path_escape}

-- A file's content is `none` where it cannot be read.
pub record Files : Type 0 where
  -- the entries of /etc/cmdline.d in the order of readdir, `none` if the directory cannot be opened
  pub cmdline_d : Option (List (Bytes × Option Bytes))
  -- `none` if access(2) fails
  pub etc_cmdline : Option (Option Bytes)
  pub proc_cmdline : Option Bytes

unfoldable pub parse_file : Option Bytes → ℕ → ℕ
unfolding parse_args get_timeout cstr
parse_file none timeout = timeout
parse_file (some content) timeout = parse_args get_timeout (cstr content) timeout

unfoldable pub parse_entries : List (Bytes × Option Bytes) → ℕ → ℕ
unfolding parse_file ends_with
parse_entries [] timeout = timeout
parse_entries ((name, content) ∷ entries) timeout =
    parse_entries entries
      (if ends_with name (codes ".conf") then parse_file content timeout else timeout)

abbrev pub parse_dir : Option (List (Bytes × Option Bytes)) → ℕ → ℕ
parse_dir none timeout = timeout
parse_dir (some entries) timeout = parse_entries entries timeout

abbrev pub parse_if_there : Option (Option Bytes) → ℕ → ℕ
parse_if_there none timeout = timeout
parse_if_there (some content) timeout = parse_file content timeout

unfoldable pub parse_cmdline_files : Files → ℕ → ℕ
unfolding parse_entries
parse_cmdline_files files timeout =
    parse_file files.proc_cmdline
      (parse_if_there files.etc_cmdline (parse_dir files.cmdline_d timeout))

-- What the generator does to the file system, as far as it succeeds.
pub data Action : Type 0 where
  make_dir : Bytes → Action
  write_file : Bytes → Bytes → Action

abbrev pub conf_text : ℕ → Bytes
conf_text timeout =
    codes "[Unit]" ++ 10 ∷ codes "JobTimeoutSec=" ++ number2string (pos timeout) ++ 10 ∷ []

abbrev pub conf_dir : Bytes → Bytes → Bytes
conf_dir unitdir unitname = unitdir ++ b'/' ∷ unitname ++ codes ".device.d"

-- `encode` is `blkid_encode_string`; `mkdir` says of a path that it is made or there already,
-- `fopen` that it can be written.
module _ (encode : Bytes → Bytes) (mkdir fopen : Bytes → Bool) where
  unfoldable pub create_conf : Bytes → ℕ → Bytes → List Action
  unfolding path_escape number2string
  create_conf unitdir timeout spec = elim (evaluate_spec encode spec) [
    | none ↦ []
    | some devname ↦
        let confpath = conf_dir unitdir (path_escape devname) in
        let file = confpath ++ codes "/timeout.conf" in
        if mkdir confpath
        then make_dir confpath
          ∷ (if fopen file then write_file file (conf_text timeout) ∷ [] else [])
        else []
  ]

  -- The entries of /etc/fstab: what is mounted, and where.
  unfoldable pub create_confs : Bytes → ℕ → List (Bytes × Bytes) → List Action
  unfolding starts_with unescape_fstab
  create_confs unitdir timeout [] = []
  create_confs unitdir timeout ((spec, file) ∷ fstab) =
      (if starts_with file (codes "/kdump/")
        then create_conf unitdir timeout (unescape_fstab spec)
        else [])
      ++ create_confs unitdir timeout fstab

  -- `main`, with the arguments and what the files hold. `none` is the failure.
  unfoldable pub main : List Bytes → Files → List (Bytes × Bytes) → Option (List Action)
  unfolding parse_cmdline_files
  main (name ∷ unitdir ∷ early ∷ late ∷ []) files fstab =
      some (create_confs unitdir (parse_cmdline_files files 0) fstab)
  main _ files fstab = none
