-- ===== src/KernelTool/Relocatable.antt =====
-- `KernelTool`: the configuration of a kernel, and whether the kernel is relocatable.
use kdump.Prelude.{
  ℕ, ◌+◌, ◌-◌, Bool, true, false, not, ◌||◌, List, [], ◌∷◌, ◌++◌, Option, none, some, map, Bytes,
  codes, Result, ok, throw, ◌>>=◌, ◌==◌, if◌then◌else◌, is_empty,
}
use kdump.Files.Names.{base_name, dir_name}
use kdump.Kconfig.Value.{Configs, KconfigError, invalid_line, no_value, undefined_read, read_lines}
use kdump.Kernel.Path.{kernel_path, config_path}
use kdump.Kernel.Search.{is_on, get, is_kdump_kernel, strictly}
use kdump.KernelTool.Ikconfig.{
  KernelError, c_string, invalid_type, invalid_config, undefined_config, bad_length,
  undefined_write, extract_kernel_config_elf, extract_kernel_config_bz_image,
}
use kdump.KernelTool.Image.{
  kt_elf, kt_elf_gz, kt_x86, kt_s390, kt_aarch64, kt_none, get_kernel_type, x86_is_relocatable,
  elf_machine, arch_from_elf_machine, is_arch_always_relocatable, has_config_relocatable,
}

-- `gzgets`, whose line ends with its newline or where the buffer is full.
unfoldable pub gets_lines : ℕ → ℕ → Bytes → Bytes → List Bytes
gets_lines limit left line [] = if is_empty line then [] else line ∷ []
gets_lines limit left line (c ∷ s) =
    let more = line ++ c ∷ [] in
    let full = c == b'\n' || left == 1 in
    let rest = gets_lines limit (if full then limit else left - 1) (if full then [] else more) s in
    if full then more ∷ rest else rest

-- The calls of `getline` on the stream.
unfoldable pub getlines : Bytes → Bytes → List Bytes
getlines line [] = if is_empty line then [] else line ∷ []
getlines line (c ∷ s) =
    let ends = c == b'\n' in
    let rest = getlines (if ends then [] else line ++ c ∷ []) s in
    if ends then line ∷ rest else rest

-- What an exception of the lines' reader is here.
abbrev pub lines_read : Result KconfigError Configs → Result KernelError Configs
lines_read (ok configs) = ok configs
lines_read (throw undefined_read) = throw undefined_config
lines_read (throw invalid_line) = throw invalid_config
lines_read (throw no_value) = throw invalid_config

-- `catch (KError &e)`
abbrev pub is_k_error : KernelError → Bool
is_k_error bad_length = false
is_k_error undefined_write = false
is_k_error undefined_config = false
is_k_error _ = true

unfoldable pub config_relocatable : Result KernelError Configs → Result KernelError Bool
unfolding get
config_relocatable (ok configs) = ok (is_on (get configs (codes "CONFIG_RELOCATABLE")))
config_relocatable (throw e) = if is_k_error e then ok false else throw e

-- The tests of `FindKernel::suitableForKdump` on a configuration.
unfoldable pub suits : Bytes → Bool → Configs → Bool
unfolding get strictly
suits arch strict configs =
    if is_on (get configs (codes "CONFIG_X86_64_XEN"))
      || is_on (get configs (codes "CONFIG_X86_XEN"))
    then false
    else if strict
    then strictly arch configs
    else true

-- `arch` is the machine's, `disk` what zlib reads of the files on disk that exist, `inflate` and
-- `gunzip` are zlib's, and `chunk` is BUFSIZ-MAGIC_LEN.
module _ (arch : Bytes) (disk : Bytes → Option Bytes) (inflate : Bytes → Option Bytes)
    (gunzip : Bytes → Bytes) (chunk : ℕ) where
  unfoldable pub extract_kernel_config : Bytes → Result KernelError Bytes
  unfolding get_kernel_type extract_kernel_config_elf extract_kernel_config_bz_image
  extract_kernel_config file = do
    type ← get_kernel_type arch file (gunzip file)
    elim type [
      | kt_none ↦ throw invalid_type
      | kt_x86 ↦ extract_kernel_config_bz_image inflate gunzip chunk file
      | _ ↦ extract_kernel_config_elf inflate chunk (gunzip file)
    ]

  -- readFromKernel
  unfoldable pub read_from_kernel : Bytes → Result KernelError Configs
  unfolding extract_kernel_config getlines read_lines
  read_from_kernel file = do
    text ← extract_kernel_config file
    lines_read (read_lines [] (getlines [] text))

  -- readFromConfig: `gzgets` takes BUFSIZ-1 bytes at most, and the line is a C string.
  unfoldable pub read_from_config : Bytes → Result KernelError Configs
  unfolding gets_lines read_lines c_string
  read_from_config text =
      lines_read (read_lines [] (map c_string (gets_lines (chunk + 7) (chunk + 7) [] text)))

  unfoldable pub on_disk : Bytes → Option Bytes → Result KernelError Configs
  unfolding read_from_config read_from_kernel
  on_disk file none = read_from_kernel file
  on_disk file (some text) = read_from_config text

  -- `path` is `m_kernel`, and `file` what it holds.
  unfoldable pub retrieve_kernel_config : Bytes → Bytes → Result KernelError Configs
  unfolding kernel_path config_path dir_name base_name on_disk
  retrieve_kernel_config path file =
      let kpath = kernel_path arch (dir_name path) (base_name path) in
      if is_empty kpath.version
      then read_from_kernel file
      else on_disk file (disk (config_path kpath))

  unfoldable pub elf_is_relocatable : Bytes → Bytes → Result KernelError Bool
  unfolding elf_machine arch_from_elf_machine is_arch_always_relocatable has_config_relocatable
      config_relocatable retrieve_kernel_config
  elf_is_relocatable path file = do
    machine ← elf_machine (gunzip file)
    if is_arch_always_relocatable (arch_from_elf_machine machine)
        then ok true
        else if has_config_relocatable (arch_from_elf_machine machine)
        then config_relocatable (retrieve_kernel_config path file)
        else ok false

  unfoldable pub is_relocatable : Bytes → Bytes → Result KernelError Bool
  unfolding get_kernel_type elf_is_relocatable x86_is_relocatable
  is_relocatable path file = do
    type ← get_kernel_type arch file (gunzip file)
    elim type [
      | kt_elf ↦ elf_is_relocatable path file
      | kt_elf_gz ↦ elf_is_relocatable path file
      | kt_x86 ↦ x86_is_relocatable file
      | kt_s390 ↦ ok true
      | kt_aarch64 ↦ ok true
      | kt_none ↦ throw invalid_type
    ]

  -- `FindKernel::suitableForKdump`, on the file itself.
  unfoldable pub suitable : Bytes → Bytes → Bool → Result KernelError Bool
  unfolding is_kdump_kernel is_relocatable retrieve_kernel_config suits
  suitable path file strict = do
    relocatable ← (if is_kdump_kernel path then ok true else is_relocatable path file)
    if not relocatable
        then ok false
        else (retrieve_kernel_config path file >>= λ configs. ok (suits arch strict configs))
