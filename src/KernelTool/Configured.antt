-- ===== src/KernelTool/Configured.antt =====
-- A kernel's embedded configuration: from the options that its build sets to what the kernel tool
-- reads.
use kdump.Prelude.{
  ℕ, ◌+◌, ◌*◌, ◌<◌, false, List, [], ◌∷◌, ◌++◌, Option, some, map, Bytes, arith, ◌≡◌, refl, sym, ap,
  ◌∙◌, ok, ◌==◌, length, All, append_assoc, append-nil,
}
use kdump.KString.Search.{Lacks}
use kdump.Kconfig.Value.{KconfigValue}
use kdump.Kconfig.File.{entry_text, IsEntry, set_all, read_lines-entry_text}
use kdump.KernelTool.Ikconfig.{c_string, magic_start, magic_end, extract_kernel_config_elf}
use kdump.KernelTool.Windows.{First}
use kdump.KernelTool.Extracted.{InWindow}
use kdump.KernelTool.Embedded.{embedded, extract_kernel_config_elf-embedded}
use kdump.KernelTool.Image.{kt_elf, get_kernel_type}
use kdump.KernelTool.Relocatable.{getlines, extract_kernel_config, read_from_kernel}

-- The text of a configuration: a line for each option.
abbrev pub config_text : List Bytes → Bytes
config_text [] = []
config_text (line ∷ lines) = line ++ b'\n' ∷ config_text lines

getlines-line :
    (acc line s : Bytes)
    → Lacks b'\n' line
    → getlines acc (line ++ b'\n' ∷ s) ≡ (acc ++ line) ∷ getlines [] s
unfolding getlines
getlines-line acc [] s h = ap (λ l. l ∷ getlines [] s) (sym (append-nil acc))
getlines-line acc (c ∷ line) s (other, rest) =
    let ends : (c == b'\n') ≡ false = ground arith in
    rw ends (
      getlines-line (acc ++ c ∷ []) line s rest
      ∙ ap (λ l. l ∷ getlines [] s) (append_assoc acc (c ∷ []) line))

getlines-config_text :
    (lines : List Bytes) → All (Lacks b'\n') lines → getlines [] (config_text lines) ≡ lines
unfolding getlines
getlines-config_text [] h = refl
getlines-config_text (line ∷ lines) (h, rest) =
    getlines-line [] line (config_text lines) h ∙ ap (◌∷◌ line) (getlines-config_text lines rest)

c_string-Lacks : (s : Bytes) → Lacks 0 s → c_string s ≡ s
unfolding c_string
c_string-Lacks [] h = refl
c_string-Lacks (c ∷ s) (other, rest) =
    let e : (c == 0) ≡ false = ground arith in rw e (ap (◌∷◌ c) (c_string-Lacks s rest))

-- The options as the kernel's build writes them, and where the file has them.
pub record Built (inflate : Bytes → Option Bytes) (chunk : ℕ) (unpacked : Bytes)
    (entries : List (Bytes × KconfigValue)) : Type 0 where
  pub before : Bytes
  pub header : Bytes
  pub deflated : Bytes
  pub after : Bytes
  pub ten : length header ≡ 10
  pub stands : unpacked ≡ embedded before header deflated after
  pub start : First magic_start (length before) unpacked
  pub stop : First magic_end (length before + 18 + length deflated) unpacked
  -- The windows that the search sees them in.
  pub m : ℕ
  pub r : ℕ
  pub n : ℕ
  pub q : ℕ
  pub at_start : InWindow chunk (length before) m r
  pub at_end : InWindow chunk (length before + 18 + length deflated) n q
  pub later : m < n
  pub inflates : inflate deflated ≡ some (config_text (map entry_text entries))
  pub fits : length (config_text (map entry_text entries)) < length deflated * 20
  pub options : All IsEntry entries
  pub lines : All (Lacks b'\n') (map entry_text entries)
  pub no_zero : Lacks 0 (config_text (map entry_text entries))

extracted :
    (inflate : Bytes → Option Bytes) (chunk : ℕ) (unpacked : Bytes)
    (entries : List (Bytes × KconfigValue))
    → Built inflate chunk unpacked entries
    → extract_kernel_config_elf inflate chunk unpacked ≡ ok (config_text (map entry_text entries))
extracted inflate chunk unpacked entries h =
    let text = config_text (map entry_text entries) in
    let at_start : First magic_start (length h.before)
        (embedded h.before h.header h.deflated h.after) =
      rw (sym h.stands) h.start in
    let at_end : First magic_end (length h.before + 18 + length h.deflated)
        (embedded h.before h.header h.deflated h.after) =
      rw (sym h.stands) h.stop in
    ap (extract_kernel_config_elf inflate chunk) h.stands
    ∙ extract_kernel_config_elf-embedded h.before h.header h.deflated h.after h.ten chunk at_start
        at_end h.m h.r h.n h.q h.at_start h.at_end h.later inflate text h.inflates h.fits
    ∙ ap ok (c_string-Lacks text h.no_zero)

module _ (arch : Bytes) (disk : Bytes → Option Bytes) (inflate : Bytes → Option Bytes)
    (gunzip : Bytes → Bytes) (chunk : ℕ) (file : Bytes) (entries : List (Bytes × KconfigValue))
    (built : Built inflate chunk (gunzip file) entries)
    (elf : get_kernel_type arch file (gunzip file) ≡ ok kt_elf) where
  -- From an ELF kernel in which the build embeds the lines of its options, the options are read
  -- back, each with its value and nothing else. The lines have no zero byte and no newline of
  -- their own; zlib gives back their text from what was deflated, and it is less than 20 times as
  -- long; the two magic texts stand nowhere before their places, and end inside two reads, the
  -- second in a later one.
  pub read_from_kernel-set_all :
      read_from_kernel arch disk inflate gunzip chunk file ≡ ok (set_all [] entries)
  unfolding read_from_kernel extract_kernel_config
  read_from_kernel-set_all =
      rw
        (
          elf,
          extracted inflate chunk (gunzip file) entries built,
          getlines-config_text (map entry_text entries) built.lines,
          read_lines-entry_text [] entries built.options,
        )
        refl
