-- ===== src/KernelTool/Unseen.antt =====
-- What the search makes of an image without a configuration, or with one that it does not see.
use kdump.Prelude.{
  ℕ, zero, suc, ◌+◌, ◌-◌, ◌*◌, ◌≤◌, ◌<◌, Bool, true, false, Option, none, some, [], ◌∷◌, Bytes,
  arith, ◌≡◌, ◌≢◌, ◌==◌, refl, sym, ap, ◌⊎◌, inl, inr, length, drop, drop-drop, length-drop, throw,
}
use kdump.KString.Search.{starts_with}
use kdump.Transfer.Pipe.{zeros}
use kdump.KernelTool.Ikconfig.{
  find_bytes, overlap, located, Scan, scan, search, magic_start, is_negative, is_null, no_config,
  bad_length, read_between, extract_kernel_config_elf, extract_kernel_config_bz_image, find_gzip,
  gzip_start,
}
use kdump.KernelTool.Windows.{Stands, Found, padded, Keeps, got, window, length-got, overlap-Keeps}
use kdump.KernelTool.Search.{IsMagic, magic_start-IsMagic, zeros_at, near, found, at_window}
use kdump.KernelTool.Extracted.{scanning, round_for_start, InWindow, start-Keeps}

zero_or : (n : ℕ) → (n ≡ 0) ⊎ (0 < n)
zero_or zero = inl refl
zero_or (suc n) = inr (omega arith)

nothing_left : (s : Bytes) → length s ≡ 0 → s ≡ []
nothing_left [] h = refl
nothing_left (c ∷ s) h = absurd (omega arith)

scan_zero :
    (missing : Option ℕ → Bool) (chunk : ℕ) (st : Scan) (s : Bytes) → scan missing chunk 0 st s ≡ st
unfolding scan
scan_zero missing chunk st s = refl

scan_nothing :
    (missing : Option ℕ → Bool) (chunk fuel : ℕ) (st : Scan) → scan missing chunk fuel st [] ≡ st
unfolding scan
scan_nothing missing chunk zero st = refl
scan_nothing missing chunk (suc fuel) st = refl

module _ (chunk : ℕ) (whole : Bytes)
    (unseen : (x m r : ℕ)
      → InWindow chunk x m r
      → starts_with (drop x whole) magic_start ≡ false) where
  -- At no place of a window but its first.
  not_inside :
      (m r : ℕ)
      → 0 < r
      → r < chunk
      → starts_with (drop (m * chunk + r) (padded chunk whole)) magic_start ≡ false
  unfolding InWindow zeros IsMagic
  not_inside m r pos low = elim (near (m * chunk + r)) [
    | inl early ↦
        (let (rest, e) = zeros_at 8 (m * chunk + r) whole early in
          rw e (magic_start-IsMagic.1 rest))
    | inr (x, e) ↦
        rw (e, sym (drop-drop 8 x (padded chunk whole))) (unseen x m r (omega arith, pos, low))
  ]

  located_nowhere :
      (f m : ℕ) (buffer : Bytes) (k : Keeps chunk whole f buffer) (o before : Option ℕ)
      → f ≡ m * chunk
      → f + chunk ≤ length whole
      → Found chunk (window chunk whole f buffer k) magic_start o
      → located f o before ≡ before
  unfolding Found Stands located
  located_nowhere f m buffer k none before at full h = refl
  located_nowhere f m buffer k (some zero) before at full h = refl
  located_nowhere f m buffer k (some (suc p)) before at full (low, stands, rest) =
      let fits : suc p ≤ length (got chunk whole f buffer k) =
        omega (arith, length-got chunk whole f buffer k) in
      let here = at_window chunk whole magic_start magic_start-IsMagic f buffer k (suc p) fits in
      let miss : starts_with (drop (f + suc p) (padded chunk whole)) magic_start ≡ false =
        rw at (not_inside m (suc p) (omega arith) low) in
      absurd (cc (stands, here, miss))

  scan-unset :
      (missing : Option ℕ → Bool) (unset : Option ℕ)
      → missing unset ≡ true
      → (n m fuel f : ℕ) (buffer : Bytes) → Keeps chunk whole f buffer
      → f ≡ m * chunk
      → length whole ≡ f + n * chunk
      → ((scan missing chunk fuel (scanning unset unset f buffer) (drop f whole)).begin_offset
          ≡ unset)
        × ((scan missing chunk fuel (scanning unset unset f buffer) (drop f whole)).end_offset
            ≡ unset)
  scan-unset missing unset unknown n m zero f buffer k at size =
      rw (scan_zero missing chunk (scanning unset unset f buffer) (drop f whole)) (refl, refl)
  scan-unset missing unset unknown zero m (suc fuel) f buffer k at size =
      rw
        (
          nothing_left (drop f whole) (omega (arith, length-drop f whole)),
          scan_nothing missing chunk (suc fuel) (scanning unset unset f buffer),
        )
        (refl, refl)
  scan-unset missing unset unknown (suc n) m (suc fuel) f buffer k at size = elim (zero_or chunk) [
    | inl none_read ↦
        (let none : suc n * chunk ≡ suc n * 0 = ap (λ c. suc n * c) none_read in
          let size0 : length (drop f whole) ≡ 0 = omega (arith, length-drop f whole) in
          rw
            (
              nothing_left (drop f whole) size0,
              scan_nothing missing chunk (suc fuel) (scanning unset unset f buffer),
            )
            (refl, refl))
    | inr pos ↦
        (let full : f + chunk ≤ length whole = omega arith in
          rw
            (round_for_start missing chunk whole unset unknown pos fuel f buffer k full unset (
              located_nowhere f m buffer k (find_bytes (window chunk whole f buffer k) magic_start)
                unset at full (found chunk whole magic_start magic_start-IsMagic f buffer k)))
            (scan-unset missing unset unknown n (suc m) fuel (f + chunk)
              (overlap (window chunk whole f buffer k)) (overlap-Keeps chunk whole f buffer k full)
              (omega arith) (omega arith)))
  ]

  module _ (n : ℕ) (full : length whole ≡ n * chunk) where
    -- Where the data are a whole number of reads, and the magic text that starts a configuration
    -- stands nowhere in them, or only where a read ends just behind it: the function for ELF
    -- files throws that there is no configuration, and the one for bzImage, of a file that
    -- unpacks to the same data, asks for an array of negative length.
    pub extract_kernel_config-unseen :
        (inflate : Bytes → Option Bytes) (gunzip : Bytes → Bytes) (file : Bytes) (place : ℕ)
        → find_gzip chunk (length file) 0 (zeros (chunk + 8)) file ≡ some place
        → place ≢ 8
        → gunzip (drop (place - 4) file) ≡ whole
        → (extract_kernel_config_elf inflate chunk whole ≡ throw no_config)
          × (extract_kernel_config_bz_image inflate gunzip chunk file ≡ throw bad_length)
    unfolding extract_kernel_config_elf extract_kernel_config_bz_image gzip_start search
        read_between
    extract_kernel_config-unseen inflate gunzip file place gzipped other unpacks =
        let known : (place == 8) ≡ false = ground arith in
        let elf =
          scan-unset is_negative none refl n 0 (length whole) 0 (zeros (chunk + 8))
            (start-Keeps chunk whole) (omega arith) (omega arith) in
        let bz =
          scan-unset is_null (some 0) refl n 0 (length whole) 0 (zeros (chunk + 8))
            (start-Keeps chunk whole) (omega arith) (omega arith) in
        (rw elf.0 refl, rw (gzipped, known, unpacks, bz.0, bz.1) refl)
