-- ===== src/KernelTool/Tests.antt =====
-- Runs of the kernel tool, with reads of 25 bytes.
use kdump.Prelude.{
  ℕ, suc, ◌+◌, ◌*◌, ◌<◌, ◌≤◌, Bool, true, false, not, ◌||◌, Option, none, some, List, [], ◌∷◌, ◌++◌,
  Bytes, codes, ok, throw, arith, ◌≡◌, refl, length, drop, ◌==◌, ==_iff, tested, tested_lem,
  Bool-cases, inl, inr, zero, ltb, equal,
}
use kdump.KString.Search.{starts_with, find, find-none-Lacks}
use kdump.Transfer.Pipe.{zeros}
use kdump.Kconfig.Value.{KconfigValue, tristate, on, at}
use kdump.Kconfig.File.{set_all}
use kdump.KernelTool.Ikconfig.{
  c_string, magic_start, magic_end, gzip_magic, one_further, find_within, find_bytes, refill,
  overlap, find_gzip, no_config, bad_length, extract_kernel_config_elf,
  extract_kernel_config_bz_image,
}
use kdump.KernelTool.Windows.{Stands, First}
use kdump.KernelTool.Extracted.{InWindow}
use kdump.KernelTool.Embedded.{embedded, extract_kernel_config_bz_image-embedded}
use kdump.KernelTool.Unseen.{extract_kernel_config-unseen}
use kdump.KernelTool.Image.{
  kt_elf, get_kernel_type, is_elf_file, is_gzip_file, read_at, elf_machine, e_machine, le_value,
}
use kdump.KernelTool.Relocatable.{read_from_kernel}
use kdump.KernelTool.Configured.{Built, read_from_kernel-set_all}

abbrev options : List (Bytes × KconfigValue)
options = (codes "CONFIG_RELOCATABLE", tristate on) ∷ []

abbrev text : Bytes
text = codes "CONFIG_RELOCATABLE=y\n"

-- An ELF header of 64 bytes, of an x86_64 kernel.
abbrev elf_header : Bytes
elf_header =
    127
    ∷ 69
    ∷ 76
    ∷ 70
    ∷ 2
    ∷ 1
    ∷ 1
    ∷ 0
    ∷ 0
    ∷ 0
    ∷ 0
    ∷ 0
    ∷ 0
    ∷ 0
    ∷ 0
    ∷ 0
    ∷ 2
    ∷ 0
    ∷ 62
    ∷ 0
    ∷ codes "............................................"

abbrev gzip_header : Bytes
gzip_header = codes "gzipheader"

abbrev unpacked : Bytes
unpacked = embedded elf_header gzip_header (codes "zz") (codes "....")

abbrev unzip : Bytes → Bytes
unzip s = s

abbrev inflated_text : Bytes → Option Bytes
inflated_text s = some text

abbrev no_files : Bytes → Option Bytes
no_files path = none

not-false : (b : Bool) → not b ≡ true → b ≡ false
not-false false h = refl
not-false true h = absurd (cc)

first_start : First magic_start 64 unpacked
unfolding First Stands starts_with equal tested
first_start = (
  omega arith,
  refl,
  λ i below.
      not-false (starts_with (drop i unpacked) magic_start)
        (tested_lem (λ j. not (starts_with (drop j unpacked) magic_start)) 64 refl i below),
)

first_end : First magic_end 84 unpacked
unfolding First Stands starts_with equal tested
first_end = (
  omega arith,
  refl,
  λ i below.
      not-false (starts_with (drop i unpacked) magic_end)
        (tested_lem (λ j. not (starts_with (drop j unpacked) magic_end)) 84 refl i below),
)

built : Built inflated_text 25 unpacked options
unfolding InWindow find
built = record {
  before = elf_header;
  header = gzip_header;
  deflated = codes "zz";
  after = codes "....";
  ten = refl;
  stands = refl;
  start = first_start;
  stop = first_end;
  m = 2;
  r = 22;
  n = 3;
  q = 17;
  at_start = (refl, omega arith, omega arith);
  at_end = (refl, omega arith, omega arith);
  later = omega arith;
  inflates = refl;
  fits = omega arith;
  options = (
    (
      (
        refl,
        find-none-Lacks b' ' (codes "CONFIG_RELOCATABLE") refl,
        find-none-Lacks b'=' (codes "CONFIG_RELOCATABLE") refl,
      ),
      tt,
    ),
    tt,
  );
  lines = (find-none-Lacks b'\n' (codes "CONFIG_RELOCATABLE=y") refl, tt);
  no_zero = find-none-Lacks 0 text refl;
}

type_run : get_kernel_type (codes "x86_64") unpacked unpacked ≡ ok kt_elf
unfolding get_kernel_type is_elf_file is_gzip_file read_at equal at
type_run = refl

machine_run : elf_machine unpacked ≡ ok 62
unfolding elf_machine e_machine read_at le_value at
machine_run = refl

read_from_kernel-set_all_example :
    read_from_kernel (codes "x86_64") no_files inflated_text unzip 25 unpacked
    ≡ ok (set_all [] options)
read_from_kernel-set_all_example =
    read_from_kernel-set_all (codes "x86_64") no_files inflated_text unzip 25 unpacked options built
      type_run

-- A bzImage whose compressed part starts at byte 10.
abbrev bz_file : Bytes
bz_file = zeros 10 ++ (gzip_magic ++ codes "....................")

abbrev unzip_to : Bytes → Bytes → Bytes
unzip_to content s = content

gzip_run : find_gzip 25 (length bz_file) 0 (zeros (25 + 8)) bz_file ≡ some 14
unfolding find_gzip find_bytes find_within refill overlap starts_with equal zeros one_further
gzip_run = refl

extract_kernel_config_bz_image-embedded_example :
    extract_kernel_config_bz_image inflated_text (unzip_to unpacked) 25 bz_file ≡ ok (c_string text)
unfolding built
extract_kernel_config_bz_image-embedded_example =
    extract_kernel_config_bz_image-embedded elf_header gzip_header (codes "zz") (codes "....") refl
      25 first_start first_end 2 22 3 17 built.at_start built.at_end (omega arith) inflated_text
      text refl (omega arith) (unzip_to unpacked) bz_file 14 gzip_run (λ same. cc) refl
      (omega arith)

-- The magic text ends where a read ends.
abbrev hidden : Bytes
hidden = codes "................." ++ (magic_start ++ codes ".........................")

hidden_test : (x : ℕ) → x < 50 → (x == 17 || not (starts_with (drop x hidden) magic_start)) ≡ true
unfolding tested starts_with equal
hidden_test = tested_lem (λ x. x == 17 || not (starts_with (drop x hidden) magic_start)) 50 refl

drop_past : (x : ℕ) (s : Bytes) → length s ≤ x → drop x s ≡ []
drop_past zero [] h = refl
drop_past zero (c ∷ s) h = absurd (omega arith)
drop_past (suc x) [] h = refl
drop_past (suc x) (c ∷ s) h = drop_past x s (omega arith)

second : (a b : Bool) → (a || b) ≡ true → a ≡ false → b ≡ true
second a true either absent = refl
second true false either absent = absurd (cc)
second false false either absent = absurd (cc)

not_17 : (x m r : ℕ) → x + 8 ≡ m * 25 + r → 0 < r → r < 25 → (x == 17) ≡ false
not_17 x m r at pos low = elim (Bool-cases (x == 17)) [
  | inl same ↦ let e : x ≡ 17 = (==_iff x 17).0 same in absurd (omega arith)
  | inr other ↦ other
]

hidden_unseen : (x m r : ℕ) → InWindow 25 x m r → starts_with (drop x hidden) magic_start ≡ false
unfolding InWindow
hidden_unseen x m r h = elim (Bool-cases (ltb x 50)) [
  | inl inside ↦ not-false (starts_with (drop x hidden) magic_start) (
      second (x == 17) (not (starts_with (drop x hidden) magic_start))
        (hidden_test x (ground arith)) (not_17 x m r h.0 h.1 h.2))
  | inr beyond ↦ rw (drop_past x hidden (ground arith)) (unfold starts_with equal in refl)
]

extract_kernel_config-unseen_example :
    (extract_kernel_config_elf inflated_text 25 hidden ≡ throw no_config)
    × (extract_kernel_config_bz_image inflated_text (unzip_to hidden) 25 bz_file ≡ throw bad_length)
extract_kernel_config-unseen_example =
    extract_kernel_config-unseen 25 hidden hidden_unseen 2 refl inflated_text (unzip_to hidden)
      bz_file 14 gzip_run (λ same. cc) refl
