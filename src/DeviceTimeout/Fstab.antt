-- ===== src/DeviceTimeout/Fstab.antt =====
-- `unescape_fstab` and `evaluate_spec`: from the first field of an fstab entry to a device's name.
use kdump.Prelude.{
  ℕ, zero, suc, ◌+◌, ◌-◌, ◌*◌, ◌%◌, Bool, false, ◌&&◌, ◌||◌, [], ◌∷◌, ◌++◌, Option, none, some,
  Bytes, codes, ◌==◌, if◌then◌else◌, length, take, drop, within, map,
}
use kdump.KString.Search.{find, rfind}
use kdump.Url.Parser.{tolower}
use kdump.DeviceTimeout.Args.{cstr}

abbrev pub isoctal : ℕ → Bool
isoctal c = within b'0' b'7' c

-- Three octal digits stand at the front.
abbrev pub octal3 : Bytes → Bool
octal3 (a ∷ b ∷ c ∷ s) = isoctal a && isoctal b && isoctal c
octal3 _ = false

-- The sum is what the source writes with shifts and `|`: the digits' bits do not overlap.
abbrev pub octal_value : Bytes → ℕ
octal_value (a ∷ b ∷ c ∷ s) = ((a - b'0') * 64 + (b - b'0') * 8 + (c - b'0')) % 256
octal_value _ = 0

-- What the loop writes at `q`, where `p` has still `skip` bytes to pass: `p += 3` leaves it at the
-- last digit.
unfoldable pub written : ℕ → Bytes → Bytes
written skip [] = []
written (suc skip) (c ∷ s) = written skip s
written zero (c ∷ s) =
    let escaped = c == 92 && octal3 s in
    (if escaped then octal_value s else c) ∷ written (if escaped then 2 else 0) s

-- The buffer is written over from its start, `q` never passes `p`, and no NUL is added.
unfoldable pub unescape_fstab : Bytes → Bytes
unfolding written cstr
unescape_fstab spec = cstr (written 0 spec ++ drop (length (written 0 spec)) spec)

abbrev pub is_quote : ℕ → Bool
is_quote c = c == b'"' || c == 39

-- The value behind the '=', without the quotes; `none` where they are not closed.
unfoldable pub unquote_value : Bytes → Option Bytes
unquote_value [] = some []
unquote_value (c ∷ value) =
    if is_quote c
    then elim (rfind value c) [ none ↦ none | some p ↦ some (take p value) ]
    else some (c ∷ value)

-- `encode` is `blkid_encode_string` of libblkid.
module _ (encode : Bytes → Bytes) where
  unfoldable pub evaluate_spec : Bytes → Option Bytes
  unfolding unquote_value
  evaluate_spec spec = elim (find spec b'=') [
    | none ↦ some spec
    | some eq ↦ elim (unquote_value (drop (suc eq) spec)) [
      | none ↦ none
      | some value ↦
          some (codes "/dev/disk/by-" ++ map tolower (take eq spec) ++ b'/' ∷ encode value)
    ]
  ]
