-- ===== src/Mounts/Root.antt =====
-- `PathResolver`: the system's root device.
use kdump.Prelude.{
  ℕ, zero, suc, ◌+◌, ◌*◌, ◌/◌, ◌%◌, ◌-◌, ◌^◌, Bool, false, ◌&&◌, not, [], ◌∷◌, ◌++◌, Option, none,
  some, Bytes, codes, ◌==◌, ltb, if◌then◌else◌, length, take, drop, equal, last_byte, erase_last,
  is_empty, isspace,
}
use kdump.Prelude.Int.{pos}
use kdump.Prelude.Effects.{Outcome, done, raised, M}
use kdump.KString.Search.{find, starts_with}
use kdump.KString.Number.{is_number, is_hex_number, number2string}
use kdump.DeviceTimeout.Args.{starts_quote, digit_value}

unfoldable pub remove_kparam_quotes : Bytes → Bytes
remove_kparam_quotes s =
    let t = drop 1 s in
    if starts_quote s
    then (if not (is_empty t) && last_byte t == b'"' then erase_last t else t)
    else s

-- The inner loop: a word, and what is behind the space that ends it, if there is one.
unfoldable pub read_word : Bool → Bytes → Bytes × Option Bytes
read_word in_quote [] = ([], none)
read_word in_quote (c ∷ s) =
    let (word, rest) = read_word (if c == b'"' then not in_quote else in_quote) s in
    if not in_quote && isspace c then ([], some s) else (c ∷ word, rest)

-- m_devroot behind a word that is not "--".
unfoldable pub take_root : Bytes → Bytes → Bytes
unfolding remove_kparam_quotes starts_with
take_root devroot word =
    if starts_with word (codes "root=")
    then remove_kparam_quotes (drop (length (codes "root=")) word)
    else devroot

-- A round of the outer loop, behind the reading of a word; `next` is the loop.
unfoldable pub root_step : (Bytes → Bytes → Bytes) → Bytes → Bytes × Option Bytes → Bytes
unfolding remove_kparam_quotes equal take_root
root_step next devroot (read, rest) =
    let word = remove_kparam_quotes read in
    if equal word (codes "--")
    then devroot
    else elim rest [ none ↦ take_root devroot word | some s ↦ next (take_root devroot word) s ]

-- A round but the last one passes a byte.
unfoldable pub root_from : ℕ → Bytes → Bytes → Bytes
unfolding read_word root_step
root_from zero devroot s = devroot
root_from (suc f) devroot s = root_step (root_from f) devroot (read_word false s)

unfoldable pub cmdline_root : Bytes → Bytes
unfolding root_from
cmdline_root cmdline = root_from (suc (length cmdline)) [] cmdline

unfoldable pub block_device : Bytes → Bytes → Option Bytes
unfolding is_number
block_device devmajor devminor =
    if is_number devminor then some (codes "/dev/block/" ++ (devmajor ++ b':' ∷ devminor)) else none

-- What `_devroot_maj_min` makes of m_devroot; none where it returns false.
unfoldable pub devroot_maj_min : Bytes → Option Bytes
unfolding find is_number block_device
devroot_maj_min devroot = elim (find devroot b':') [
  | none ↦ none
  | some n ↦
      let devmajor = take n devroot in
      let behind = drop (suc n) devroot in
      if not (is_number devmajor) then none else elim (find behind b':') [
        | none ↦ block_device devmajor behind
        | some k ↦
            if is_number (drop (suc k) behind) then block_device devmajor (take k behind) else none
      ]
]

-- `>> std::hex` into a dev_t of 64 bits: too large a number is the largest one.
unfoldable pub hex_from : ℕ → Bytes → ℕ
hex_from n [] = n
hex_from n (c ∷ s) = hex_from (n * 16 + digit_value c) s

abbrev pub dev_max : ℕ
dev_max = 2 ^ 64 - 1

unfoldable pub read_hex : Bytes → ℕ
unfolding hex_from
read_hex s = let n = hex_from 0 s in if ltb dev_max n then dev_max else n

-- major(3) and minor(3)
unfoldable pub major : ℕ → ℕ
major dev = dev / 2 ^ 44 * 2 ^ 12 + dev / 2 ^ 8 % 2 ^ 12

unfoldable pub minor : ℕ → ℕ
minor dev = dev / 2 ^ 20 % 2 ^ 24 * 2 ^ 8 + dev % 2 ^ 8

unfoldable pub devroot_hexhex : Bytes → Option Bytes
unfolding is_hex_number read_hex major minor number2string
devroot_hexhex devroot =
    let dev = read_hex devroot in
    if is_hex_number devroot
    then some (
        codes "/dev/block/"
        ++ (number2string (pos (major dev)) ++ b':' ∷ number2string (pos (minor dev))))
    else none

pub data RootError : Type 0 where
  no_cmdline cannot_resolve : RootError

abbrev pub dev_root : Bytes
dev_root = codes "/dev/root"

-- The state is the static m_devroot. `spec` is mnt_resolve_spec(3), and `cmdline` what /proc/cmdline
-- holds, if it can be opened.
module _ (spec : Bytes → Option Bytes) (cmdline : Option Bytes) where
  -- `resolve` where m_devroot is not empty, so that `system_root` returns it.
  unfoldable pub found_spec : Bytes → Option Bytes → Outcome Bytes RootError Bytes
  unfolding equal
  found_spec devroot none = raised cannot_resolve devroot
  found_spec devroot (some path) =
      if equal path dev_root then done devroot devroot else done path devroot

  unfoldable pub resolve_known : Bytes → M Bytes RootError Bytes
  unfolding found_spec
  resolve_known s devroot = found_spec devroot (spec s)

  -- The new m_devroot is the first that is made of it.
  unfoldable pub settled :
      Option Bytes → Option Bytes → Outcome Bytes RootError Bytes → Outcome Bytes RootError Bytes
  settled (some path) hexed resolved = done path path
  settled none (some path) resolved = done path path
  settled none none (done path devroot) = done path path
  settled none none (raised e devroot) = raised e devroot

  -- Behind the reading: m_devroot is what the command line says.
  unfoldable pub settle_root : M Bytes RootError Bytes
  unfolding devroot_maj_min devroot_hexhex resolve_known settled
  settle_root devroot =
      settled (devroot_maj_min devroot) (devroot_hexhex devroot) (resolve_known devroot devroot)

  unfoldable pub system_root : M Bytes RootError Bytes
  unfolding settle_root cmdline_root
  system_root devroot =
      if is_empty devroot
      then elim cmdline [
        | none ↦ raised no_cmdline devroot
        | some text ↦
            let said = cmdline_root text in
            if is_empty said then done dev_root dev_root else settle_root said
      ]
      else done devroot devroot

  unfoldable pub resolve : Bytes → M Bytes RootError Bytes
  unfolding system_root equal
  resolve s devroot = elim (spec s) [
    | none ↦ raised cannot_resolve devroot
    | some path ↦ if equal path dev_root then system_root devroot else done path devroot
  ]
