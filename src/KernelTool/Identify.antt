-- ===== src/KernelTool/Identify.antt =====
-- The subcommands of identifykernel.cc and read_ikconfig.cc, on the kernel tool's answers.
use kdump.Prelude.{
  ℕ, Bool, true, false, not, ◌&&◌, List, [], ◌∷◌, ◌++◌, Option, Bytes, codes, Result, ok, throw,
  ◌>>=◌, if◌then◌else◌,
}
use kdump.KernelTool.Ikconfig.{KernelError}
use kdump.KernelTool.Image.{
  KernelType, kt_elf, kt_elf_gz, kt_x86, kt_s390, kt_aarch64, kt_none, get_kernel_type,
}
use kdump.KernelTool.Relocatable.{is_relocatable}

pub data IdentifyError : Type 0 where
  -- "You have to specify either the -r or the -t flag.", and the one kernel image.
  no_flag no_image : IdentifyError
  -- "The specified file is not a kernel image."
  not_an_image : IdentifyError
  tool_failed : KernelError → IdentifyError

-- `parseArgs`: the image.
unfoldable pub parse_image : Bool → Bool → List Bytes → Result IdentifyError Bytes
parse_image check_type check_relocatable (image ∷ []) =
    if not check_type && not check_relocatable then throw no_flag else ok image
parse_image check_type check_relocatable _ =
    if not check_type && not check_relocatable then throw no_flag else throw no_image

abbrev pub told : KernelType → Result IdentifyError Bytes
told kt_x86 = ok (codes "x86")
told kt_elf = ok (codes "ELF")
told kt_elf_gz = ok (codes "ELF gzip")
told kt_s390 = ok (codes "S390")
told kt_aarch64 = ok (codes "Aarch64")
told kt_none = throw not_an_image

abbrev pub from_tool {ℓ} : {A : Type ℓ} → Result KernelError A → Result IdentifyError A
from_tool (ok a) = ok a
from_tool (throw e) = throw (tool_failed e)

-- What is printed, and whether the error code is NOT_RELOCATABLE.
pub record Identified : Type 0 where
  pub lines : List Bytes
  pub not_relocatable : Bool

unfoldable pub relocatable_line : Bool → Identified
relocatable_line true = record { lines = codes "Relocatable" ∷ []; not_relocatable = false }
relocatable_line false = record { lines = codes "Not relocatable" ∷ []; not_relocatable = true }

module _ (arch : Bytes) (disk : Bytes → Option Bytes) (inflate : Bytes → Option Bytes)
    (gunzip : Bytes → Bytes) (chunk : ℕ) where
  unfoldable pub type_lines : Bool → Bytes → Result IdentifyError (List Bytes)
  unfolding get_kernel_type
  type_lines false file = ok []
  type_lines true file = do
    type ← from_tool (get_kernel_type arch file (gunzip file))
    line ← told type
    ok (line ∷ [])

  unfoldable pub relocatable_lines : Bool → Bytes → Bytes → Result IdentifyError Identified
  unfolding is_relocatable relocatable_line
  relocatable_lines false path file = ok (record { lines = []; not_relocatable = false })
  relocatable_lines true path file = do
    answer ← from_tool (is_relocatable arch disk inflate gunzip chunk path file)
    ok (relocatable_line answer)

  -- `path` is the image that is named, and `file` what it holds.
  unfoldable pub identify : Bool → Bool → Bytes → Bytes → Result IdentifyError Identified
  unfolding type_lines relocatable_lines
  identify check_type check_relocatable path file = do
    types ← type_lines check_type file
    rest ← relocatable_lines check_relocatable path file
    ok (record { lines = types ++ rest.lines; not_relocatable = rest.not_relocatable })
