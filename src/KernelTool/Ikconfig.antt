-- ===== src/KernelTool/Ikconfig.antt =====
-- `extractKernelConfigELF`, `extractKernelConfigbzImage`, `extractFromIKconfigBuffer`, and
-- `Util::findBytes`: the configuration that is embedded in an image. An offset is `none` where the
-- source's is negative.
use kdump.Prelude.{
  ℕ, zero, suc, ◌+◌, ◌-◌, ◌*◌, Bool, true, false, not, ◌&&◌, [], ◌∷◌, ◌++◌, Option, none, some,
  Bytes, codes, Result, ok, throw, ◌>>=◌, ◌==◌, ltb, leb, if◌then◌else◌, is_empty, length, take,
  drop,
}
use kdump.KString.Search.{starts_with}
use kdump.Transfer.Pipe.{zeros}

pub data KernelError : Type 0 where
  -- The `KSystemError`s of reads that are too short.
  read_failed : KernelError
  -- "Invalid kernel type.", "This is not a kernel image", "Invalid ELF data encoding" and class
  invalid_type not_a_kernel invalid_encoding invalid_class : KernelError
  -- "Cannot read configuration", "Magic 0x1f 0x8b 0x08 0x0 not found.", "Cannot read IKCONFIG."
  no_config no_gzip short_config inflate_failed : KernelError
  -- `new char[n]` with a negative `n`: `std::bad_array_new_length`, which is not a `KError`.
  bad_length : KernelError
  -- The terminator is written behind the array.
  undefined_write : KernelError
  -- An option of the configuration cannot be read.
  invalid_config : KernelError
  -- Or only by a read before its value.
  undefined_config : KernelError

unfoldable pub one_further : Option ℕ → Option ℕ
one_further none = none
one_further (some i) = some (suc i)

-- The loop of `findBytes`, `n` being the places that are left.
unfoldable pub find_within : ℕ → Bytes → Bytes → Option ℕ
unfolding starts_with
find_within zero s needle = none
find_within (suc n) s needle =
    let rest = find_within n (drop 1 s) needle in
    if starts_with s needle then some 0 else one_further rest

unfoldable pub find_bytes : Bytes → Bytes → Option ℕ
unfolding find_within
find_bytes haystack needle = find_within (length haystack - length needle) haystack needle

abbrev pub magic_start : Bytes
magic_start = codes "IKCFG_ST"

abbrev pub magic_end : Bytes
magic_end = codes "IKCFG_ED"

-- `gzread(fp, buffer+n, ...)`: what is not overwritten stays.
unfoldable pub refill : ℕ → Bytes → Bytes → Bytes
refill n buffer got = take n buffer ++ got ++ drop (n + length got) buffer

-- memmove(buffer, buffer+BUFSIZ-MAGIC_LEN, MAGIC_LEN)
unfoldable pub overlap : Bytes → Bytes
overlap buffer = drop (length buffer - 8) buffer ++ drop 8 buffer

-- `if (pos > 0)`, and the offset.
unfoldable pub located : ℕ → Option ℕ → Option ℕ → Option ℕ
located fileoffset none before = before
located fileoffset (some zero) before = before
located fileoffset (some (suc p)) before =
    if leb 8 (fileoffset + suc p) then some (fileoffset + suc p - 8) else none

pub record Scan : Type 0 where
  pub begin_offset : Option ℕ
  pub end_offset : Option ℕ
  pub fileoffset : ℕ
  pub buffer : Bytes

-- `begin_offset < 0`, in the ELF function.
abbrev pub is_negative : Option ℕ → Bool
is_negative none = true
is_negative (some n) = false

-- `begin_offset == 0`, in the one for bzImage.
abbrev pub is_null : Option ℕ → Bool
is_null none = false
is_null (some n) = n == 0

-- One round of the search. `missing` is the test that an offset is not known.
unfoldable pub look : (Option ℕ → Bool) → Scan → Bytes → Scan
unfolding refill overlap located find_bytes
look missing st got =
    let window = refill 8 st.buffer got in
    if missing st.begin_offset
    then record {
      begin_offset = located st.fileoffset (find_bytes window magic_start) st.begin_offset;
      end_offset = st.end_offset;
      fileoffset = st.fileoffset + length got;
      buffer = overlap window;
    }
    else record {
      begin_offset = st.begin_offset;
      end_offset = located st.fileoffset (find_bytes window magic_end) st.end_offset;
      fileoffset = st.fileoffset + length got;
      buffer = overlap window;
    }

-- `chunk` is BUFSIZ-MAGIC_LEN. The data are what the reads give, up to the end or an error.
module _ (missing : Option ℕ → Bool) (chunk : ℕ) where
  unfoldable pub scan : ℕ → Scan → Bytes → Scan
  unfolding look
  scan zero st data_ = st
  scan (suc fuel) st data_ =
      let rest = scan fuel (look missing st (take chunk data_)) (drop chunk data_) in
      if is_empty data_
      then st
      else if not (missing st.begin_offset) && not (missing st.end_offset)
      then st
      else rest

  unfoldable pub search : Option ℕ → Bytes → Scan
  unfolding scan zeros
  search unset data_ =
      scan (length data_)
        (record {
          begin_offset = unset;
          end_offset = unset;
          fileoffset = 0;
          buffer = zeros (chunk + 8);
        })
        data_

-- A C string ends at its first zero.
unfoldable pub c_string : Bytes → Bytes
c_string [] = []
c_string (c ∷ s) = if c == 0 then [] else c ∷ c_string s

-- What is made of zlib's result. `size` is that of the output.
unfoldable pub inflated : ℕ → Option Bytes → Result KernelError Bytes
unfolding c_string
inflated size none = throw inflate_failed
inflated size (some text) =
    if ltb size (length text)
    then throw inflate_failed
    else if length text == size
    then throw undefined_write
    else ok (c_string text)

-- `inflate` is zlib's, of a raw stream: what it makes of one that ends.
module _ (inflate : Bytes → Option Bytes) where
  unfoldable pub extract_from_ikconfig_buffer : Bytes → Result KernelError Bytes
  unfolding inflated
  extract_from_ikconfig_buffer buffer = inflated (length buffer * 20) (inflate buffer)

  -- What follows the search, in both functions.
  unfoldable pub read_between : Bytes → Option ℕ → Option ℕ → Result KernelError Bytes
  unfolding extract_from_ikconfig_buffer
  read_between data_ none end_offset = throw no_config
  read_between data_ (some b) none = throw no_config
  read_between data_ (some b) (some e) =
      let start = b + 8 + 10 in
      let config = take (e - start) (drop start data_) in
      if ltb e start
      then throw bad_length
      else if length config == e - start
      then extract_from_ikconfig_buffer config
      else throw short_config

  -- `data_` is what zlib reads of the file, compressed or not.
  unfoldable pub extract_kernel_config_elf : ℕ → Bytes → Result KernelError Bytes
  unfolding search read_between
  extract_kernel_config_elf chunk data_ =
      let found = search is_negative chunk none data_ in
      read_between data_ found.begin_offset found.end_offset

-- `searchfor`: the start of a gzip stream.
abbrev pub gzip_magic : Bytes
gzip_magic = 31 ∷ 139 ∷ 8 ∷ 0 ∷ []

-- The search of the compressed part of a bzImage: `fileoffset + pos`, where it is found. The read
-- leaves four bytes of the buffer, though eight are moved there.
unfoldable pub find_gzip : ℕ → ℕ → ℕ → Bytes → Bytes → Option ℕ
unfolding refill overlap find_bytes
find_gzip chunk zero fileoffset buffer file = none
find_gzip chunk (suc fuel) fileoffset buffer file =
    let got = take (chunk + 4) file in
    let window = refill 4 buffer got in
    let rest =
      find_gzip chunk fuel (fileoffset + length got) (overlap window) (drop (chunk + 4) file) in
    if is_empty file then none else elim (find_bytes window gzip_magic) [
      | none ↦ rest
      | some zero ↦ rest
      | some (suc p) ↦ some (fileoffset + suc p)
    ]

-- `begin_offset` is the place less MAGIC_LEN, then four are added to it. A `begin_offset` of 0 is
-- taken for none.
unfoldable pub gzip_start : Option ℕ → Result KernelError ℕ
gzip_start none = throw no_gzip
gzip_start (some place) = if place == 8 then throw no_gzip else ok (place - 4)

-- `gunzip` is what zlib reads from a place of the file on.
unfoldable pub extract_kernel_config_bz_image :
    (Bytes → Option Bytes) → (Bytes → Bytes) → ℕ → Bytes → Result KernelError Bytes
unfolding search read_between find_gzip gzip_start zeros
extract_kernel_config_bz_image inflate gunzip chunk file =
    gzip_start (find_gzip chunk (length file) 0 (zeros (chunk + 8)) file) >>= λ start.
    let data_ = gunzip (drop start file) in
    let found = search is_null chunk (some 0) data_ in
    read_between inflate data_ found.begin_offset found.end_offset
