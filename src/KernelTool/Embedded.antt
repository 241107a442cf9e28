-- ===== src/KernelTool/Embedded.antt =====
-- The configuration that is embedded in an image is the one that is extracted.
use kdump.Prelude.{
  ℕ, ◌+◌, ◌-◌, ◌*◌, ◌<◌, true, false, Option, none, some, ◌++◌, Bytes, arith, ◌≡◌, ◌≢◌, refl, sym,
  ap, ◌∙◌, ok, ltb, ◌==◌, length, take, drop, take_append_length, drop_append_length, drop-drop,
}
use kdump.KernelTool.Ikconfig.{
  magic_start, magic_end, is_negative, is_null, c_string, inflated, extract_from_ikconfig_buffer,
  read_between, extract_kernel_config_elf, find_gzip, gzip_start, extract_kernel_config_bz_image,
}
use kdump.Transfer.Pipe.{zeros}
use kdump.KernelTool.Windows.{First}
use kdump.KernelTool.Extracted.{Finds, InWindow, search-Finds}

-- As the kernel embeds it: the compressed text stands between the two magic texts, behind a gzip
-- header of ten bytes.
abbrev pub embedded : Bytes → Bytes → Bytes → Bytes → Bytes
embedded before header deflated after =
    before ++ (magic_start ++ (header ++ (deflated ++ (magic_end ++ after))))

module _ (before header deflated after : Bytes) (ten : length header ≡ 10) where
  abbrev begins : ℕ
  begins = length before

  abbrev ends : ℕ
  ends = length before + 18 + length deflated

  between :
      drop (begins + 8 + 10) (embedded before header deflated after)
      ≡ deflated ++ (magic_end ++ after)
  between =
      let rest = header ++ (deflated ++ (magic_end ++ after)) in
      sym (drop-drop (begins + 8) 10 (embedded before header deflated after))
      ∙ ap (drop 10) (
          sym (drop-drop begins 8 (embedded before header deflated after))
          ∙ ap (drop 8) (drop_append_length before (magic_start ++ rest)))
      ∙ ap (λ n. drop n rest) (sym ten)
      ∙ drop_append_length header (deflated ++ (magic_end ++ after))

  taken :
      take
        (ends - (begins + 8 + 10))
        (drop (begins + 8 + 10) (embedded before header deflated after))
      ≡ deflated
  taken =
      let e : ends - (begins + 8 + 10) ≡ length deflated = omega arith in
      rw (e, between) (take_append_length deflated (magic_end ++ after))

  read_between-embedded :
      (inflate : Bytes → Option Bytes) (text : Bytes)
      → inflate deflated ≡ some text
      → length text < length deflated * 20
      → read_between inflate (embedded before header deflated after) (some begins) (some ends)
        ≡ ok (c_string text)
  unfolding read_between extract_from_ikconfig_buffer inflated
  read_between-embedded inflate text inflates fits =
      let order : ltb ends (begins + 8 + 10) ≡ false = ground arith in
      let size : (length deflated == ends - (begins + 8 + 10)) ≡ true = ground arith in
      let small : ltb (length deflated * 20) (length text) ≡ false = ground arith in
      let smaller : (length text == length deflated * 20) ≡ false = ground arith in
      rw (order, taken, size)
        (ap (inflated (length deflated * 20)) inflates ∙ rw (small, smaller) refl)

  module _ (chunk : ℕ) (start : First magic_start begins (embedded before header deflated after))
      (stop : First magic_end ends (embedded before header deflated after)) (m r n q : ℕ)
      (at : InWindow chunk begins m r) (at_end : InWindow chunk ends n q) (later : m < n)
      (inflate : Bytes → Option Bytes) (text : Bytes) (inflates : inflate deflated ≡ some text)
      (fits : length text < length deflated * 20) where
    -- From an ELF kernel whose data embed a configuration, its text is extracted, up to its first
    -- zero. The magic texts stand nowhere before their places, and end inside two reads, the
    -- second in a later one; the text is less than 20 times as long as what was deflated.
    pub extract_kernel_config_elf-embedded :
        extract_kernel_config_elf inflate chunk (embedded before header deflated after)
        ≡ ok (c_string text)
    unfolding extract_kernel_config_elf Finds
    extract_kernel_config_elf-embedded =
        let found =
          search-Finds is_negative chunk (embedded before header deflated after) none begins ends
            refl refl refl start stop m r n q at at_end later in
        rw (found.0, found.1) (read_between-embedded inflate text inflates fits)

    -- From a bzImage whose compressed part is found, where its place is not 8 as the source
    -- counts it, and unpacks to data in which a configuration is embedded, the configuration's
    -- text is extracted, up to its first zero. Its length and the places of the magic texts are
    -- as for an ELF kernel, and the first is not at the start of the data.
    pub extract_kernel_config_bz_image-embedded :
        (gunzip : Bytes → Bytes) (file : Bytes) (place : ℕ)
        → find_gzip chunk (length file) 0 (zeros (chunk + 8)) file ≡ some place
        → place ≢ 8
        → gunzip (drop (place - 4) file) ≡ embedded before header deflated after
        → 0 < begins
        → extract_kernel_config_bz_image inflate gunzip chunk file ≡ ok (c_string text)
    unfolding extract_kernel_config_bz_image Finds gzip_start
    extract_kernel_config_bz_image-embedded gunzip file place gzipped other unpacks pos =
        let known : (place == 8) ≡ false = ground arith in
        let begun : (begins == 0) ≡ false = ground arith in
        let ended : (ends == 0) ≡ false = ground arith in
        let found =
          search-Finds is_null chunk (embedded before header deflated after) (some 0) begins ends
            refl begun ended start stop m r n q at at_end later in
        rw (gzipped, known, unpacks, found.0, found.1)
          (read_between-embedded inflate text inflates fits)
