-- ===== src/KernelTool/Image.antt =====
-- `KernelTool` and the tests of util.cc: the type of a kernel's image, and its headers.
use kdump.Prelude.{
  ℕ, ◌+◌, ◌*◌, Bool, false, not, ◌&&◌, ◌||◌, [], ◌∷◌, ◌++◌, Bytes, codes, Result, ok, throw, ◌>>=◌,
  ◌==◌, ltb, if◌then◌else◌, length, take, drop, equal,
}
use kdump.Kconfig.Value.{at}
use kdump.KernelTool.Ikconfig.{
  KernelError, read_failed, not_a_kernel, invalid_encoding, invalid_class,
}

pub data KernelType : Type 0 where
  kt_elf kt_elf_gz kt_x86 kt_s390 kt_aarch64 kt_none : KernelType

-- S390_HEADER
abbrev pub s390_header : Bytes
s390_header =
    0 ∷ 8 ∷ 0 ∷ 0 ∷ 128 ∷ 0 ∷ 0 ∷ 0 ∷ 2 ∷ 0 ∷ 0 ∷ 24 ∷ 96 ∷ 0 ∷ 0 ∷ 80 ∷ 2 ∷ 0 ∷ 0 ∷ 104 ∷ 96 ∷ 0
    ∷ 0 ∷ 80 ∷ 64 ∷ 64 ∷ 64 ∷ 64 ∷ 64 ∷ 64 ∷ 64 ∷ 64 ∷ 64 ∷ 64 ∷ 64 ∷ 64 ∷ 64 ∷ 64 ∷ 64 ∷ 64 ∷ 64
    ∷ 64 ∷ 64 ∷ 64 ∷ 64 ∷ 64 ∷ 64 ∷ 64 ∷ 64 ∷ 64 ∷ 64 ∷ 64 ∷ 64 ∷ 64 ∷ 64 ∷ 64 ∷ 64 ∷ 64 ∷ 64 ∷ 64
    ∷ 64 ∷ 64 ∷ 64 ∷ 64 ∷ 64 ∷ 64 ∷ 64 ∷ 64 ∷ 64 ∷ 64 ∷ 64 ∷ 64 ∷ 64 ∷ 64 ∷ 64 ∷ 64 ∷ 64 ∷ 64 ∷ 64
    ∷ 64 ∷ 2 ∷ 0 ∷ 0 ∷ 240 ∷ 96 ∷ 0 ∷ 0 ∷ 80 ∷ 2 ∷ 0 ∷ 1 ∷ 64 ∷ 96 ∷ 0 ∷ 0 ∷ 80 ∷ 2 ∷ 0 ∷ 1 ∷ 144
    ∷ 96 ∷ 0 ∷ 0 ∷ 80 ∷ 2 ∷ 0 ∷ 1 ∷ 224 ∷ 96 ∷ 0 ∷ 0 ∷ 80 ∷ 2 ∷ 0 ∷ 2 ∷ 48 ∷ 96 ∷ 0 ∷ 0 ∷ 80 ∷ 2 ∷ 0
    ∷ 2 ∷ 128 ∷ 96 ∷ 0 ∷ 0 ∷ 80 ∷ 2 ∷ 0 ∷ 2 ∷ 208 ∷ 96 ∷ 0 ∷ 0 ∷ 80 ∷ 2 ∷ 0 ∷ 3 ∷ 32 ∷ 96 ∷ 0 ∷ 0
    ∷ 80 ∷ 2 ∷ 0 ∷ 3 ∷ 112 ∷ 96 ∷ 0 ∷ 0 ∷ 80 ∷ 2 ∷ 0 ∷ 3 ∷ 192 ∷ 96 ∷ 0 ∷ 0 ∷ 80 ∷ 2 ∷ 0 ∷ 4 ∷ 16
    ∷ 96 ∷ 0 ∷ 0 ∷ 80 ∷ 2 ∷ 0 ∷ 4 ∷ 96 ∷ 96 ∷ 0 ∷ 0 ∷ 80 ∷ 2 ∷ 0 ∷ 4 ∷ 176 ∷ 96 ∷ 0 ∷ 0 ∷ 80 ∷ 2 ∷ 0
    ∷ 5 ∷ 0 ∷ 96 ∷ 0 ∷ 0 ∷ 80 ∷ 2 ∷ 0 ∷ 5 ∷ 80 ∷ 96 ∷ 0 ∷ 0 ∷ 80 ∷ 2 ∷ 0 ∷ 5 ∷ 160 ∷ 96 ∷ 0 ∷ 0 ∷ 80
    ∷ 2 ∷ 0 ∷ 5 ∷ 240 ∷ 96 ∷ 0 ∷ 0 ∷ 80 ∷ 2 ∷ 0 ∷ 6 ∷ 64 ∷ 96 ∷ 0 ∷ 0 ∷ 80 ∷ 2 ∷ 0 ∷ 6 ∷ 144 ∷ 96
    ∷ 0 ∷ 0 ∷ 80 ∷ 2 ∷ 0 ∷ 6 ∷ 224 ∷ 32 ∷ 0 ∷ 0 ∷ 80 ∷ []

-- `lseek`, and a `read` that must give all.
unfoldable pub read_at : ℕ → ℕ → Bytes → Result KernelError Bytes
read_at offset size file =
    let got = take size (drop offset file) in
    if length got == size then ok got else throw read_failed

-- Integers in memory: little-endian, as on the machines that the casts are right for, and big-endian.
unfoldable pub le_value : Bytes → ℕ
le_value [] = 0
le_value (b ∷ s) = b + 256 * le_value s

unfoldable pub be_value : ℕ → Bytes → ℕ
be_value acc [] = acc
be_value acc (b ∷ s) = be_value (acc * 256 + b) s

-- isX86Kernel
unfoldable pub is_x86_kernel : Bytes → Result KernelError Bool
unfolding read_at le_value
is_x86_kernel file = do buffer ← read_at 514 4 file; ok (le_value buffer == 1400005704)

-- isS390Kernel: a file that is too short is none; `iplstart` is ignored.
unfoldable pub is_s390_kernel : Bytes → Result KernelError Bool
unfolding equal
is_s390_kernel file =
    let buffer = take (length s390_header) file in
    if ltb (length buffer) (length s390_header)
    then ok false
    else ok (equal (take 4 buffer ++ take 4 (drop 4 s390_header) ++ drop 8 buffer) s390_header)

-- isAarch64Kernel: a header of 64 bytes, with the magic number at byte 56.
unfoldable pub is_aarch64_kernel : Bytes → Result KernelError Bool
unfolding le_value
is_aarch64_kernel file =
    let buffer = take 64 file in
    if ltb (length buffer) 64
    then ok false
    else ok (le_value (take 4 (drop 56 buffer)) == 1682788929)

-- `Util::isElfFile`, of what zlib reads.
unfoldable pub is_elf_file : Bytes → Result KernelError Bool
unfolding read_at equal
is_elf_file unpacked = do buffer ← read_at 0 4 unpacked; ok (equal buffer (127 ∷ codes "ELF"))

-- `Util::isGzipFile`
unfoldable pub is_gzip_file : Bytes → Bool
unfolding at
is_gzip_file file = at 0 file == 31 && at 1 file == 139

-- `Util::isX86`
unfoldable pub is_x86 : Bytes → Bool
unfolding equal
is_x86 arch =
    equal arch (codes "i386")
    || equal arch (codes "i686")
    || equal arch (codes "i586")
    || equal arch (codes "x86_64")

abbrev pub when : KernelType → Bool → KernelType
when type answer = if answer then type else kt_none

-- `arch` is the machine's.
unfoldable pub get_kernel_type : Bytes → Bytes → Bytes → Result KernelError KernelType
unfolding is_elf_file is_gzip_file is_x86 is_x86_kernel is_s390_kernel is_aarch64_kernel equal
get_kernel_type arch file unpacked = do
  elf ← is_elf_file unpacked
  if elf
      then ok (if is_gzip_file file then kt_elf_gz else kt_elf)
      else if is_x86 arch
      then (is_x86_kernel file >>= λ answer. ok (when kt_x86 answer))
      else if equal arch (codes "s390x")
      then (is_s390_kernel file >>= λ answer. ok (when kt_s390 answer))
      else if equal arch (codes "aarch64")
      then (is_aarch64_kernel file >>= λ answer. ok (when kt_aarch64 answer))
      else ok kt_none

unfoldable pub x86_is_relocatable : Bytes → Result KernelError Bool
unfolding read_at le_value at
x86_is_relocatable file = do
  magic ← read_at 514 4 file
  if not (le_value magic == 1400005704) then throw not_a_kernel else (do
    version ← read_at 518 2 file
    if ltb (le_value version) 517
        then ok false
        else (do flag ← read_at 564 1 file; ok (not (at 0 flag == 0))))

-- ELFDATA2LSB and ELFDATA2MSB
unfoldable pub e_machine : ℕ → Bytes → Result KernelError ℕ
unfolding le_value be_value
e_machine encoding header =
    let field = take 2 (drop 18 header) in
    if encoding == 1
    then ok (le_value field)
    else if encoding == 2
    then ok (be_value 0 field)
    else throw invalid_encoding

-- The first half of `elfIsRelocatable`: the headers are 52 bytes in ELFCLASS32, 64 in ELFCLASS64.
unfoldable pub elf_machine : Bytes → Result KernelError ℕ
unfolding read_at e_machine at
elf_machine unpacked = do
  e_ident ← read_at 0 16 unpacked
  if at 4 e_ident == 1
      then (read_at 0 52 unpacked >>= λ header. e_machine (at 5 e_ident) header)
      else if at 4 e_ident == 2
      then (read_at 0 64 unpacked >>= λ header. e_machine (at 5 e_ident) header)
      else throw invalid_class

-- The values of EM_386 and the others.
unfoldable pub arch_from_elf_machine : ℕ → Bytes
arch_from_elf_machine et_machine =
    if et_machine == 3
    then codes "i386"
    else if et_machine == 20
    then codes "ppc"
    else if et_machine == 21
    then codes "ppc64"
    else if et_machine == 22
    then codes "s390"
    else if et_machine == 50
    then codes "ia64"
    else if et_machine == 62
    then codes "x86_64"
    else if et_machine == 183
    then codes "aarch64"
    else codes "unknown"

unfoldable pub is_arch_always_relocatable : Bytes → Bool
unfolding equal
is_arch_always_relocatable machine = equal machine (codes "ia64") || equal machine (codes "aarch64")

unfoldable pub has_config_relocatable : Bytes → Bool
unfolding is_x86 equal
has_config_relocatable machine =
    is_x86 machine || equal machine (codes "ppc64") || equal machine (codes "ppc")
