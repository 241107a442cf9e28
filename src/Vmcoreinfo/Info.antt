-- ===== src/Vmcoreinfo/Info.antt =====
-- `Vmcoreinfo`: the text of the note as a map, and the values.
use kdump.Prelude.{
  suc, Bool, false, ◌||◌, List, [], ◌∷◌, map, Option, none, some, Bytes, Result, ok, throw, ◌>>=◌,
  ◌==◌, if◌then◌else◌, take, drop, is_empty,
}
use kdump.Prelude.Int.{ℤ}
use kdump.Prelude.Dict.{lookup, insert}
use kdump.KString.Search.{find}
use kdump.KString.Split.{split}
use kdump.KString.Trim.{trim}
use kdump.KString.Number.{as_int}

abbrev pub Values : Type 0
Values = List (Bytes × Bytes)

pub data VmcoreinfoError : Type 0 where
  key_not_found : VmcoreinfoError
  -- "VMCOREINFO not found."
  note_not_found : VmcoreinfoError
  -- a read behind the end of the buffer
  undefined_read : VmcoreinfoError

-- The default set of `trim`.
abbrev pub blanks : Bytes
blanks = b' ' ∷ b'\t' ∷ b'\n' ∷ []

abbrev pub starts_nul : Bytes → Bool
starts_nul [] = false
starts_nul (c ∷ s) = c == 0

-- A line without blanks at its ends.
unfoldable pub set_line : Values → Bytes → Values
set_line m line = if is_empty line || starts_nul line then m else elim (find line b'=') [
  | none ↦ m
  | some equal ↦ insert (take equal line) (drop (suc equal) line) m
]

-- A round of the loop over the lines. `trim` changes the line.
unfoldable pub add_line : Values → Bytes → Values
add_line m text = set_line m (trim blanks text)

unfoldable pub add_lines : Values → List Bytes → Values
add_lines m [] = m
add_lines m (line ∷ lines) = add_lines (add_line m line) lines

-- `readFromELF` on the note that `readElfNote` returns.
unfoldable pub read_text : Values → Bytes → Values
read_text m note = add_lines m (split note b'\n')

unfoldable pub get_string_value : Bytes → Values → Result VmcoreinfoError Bytes
get_string_value key m = elim (lookup key m) [ none ↦ throw key_not_found | some value ↦ ok value ]

-- A value that is blank leaves the result of `asInt` as it was.
abbrev pub from_number : Option ℤ → Result VmcoreinfoError ℤ
from_number none = throw undefined_read
from_number (some n) = ok n

unfoldable pub get_int_value : Bytes → Values → Result VmcoreinfoError ℤ
get_int_value key m = get_string_value key m >>= λ value. from_number (as_int value)

unfoldable pub get_keys : Values → List Bytes
get_keys m = map (λ (key, _). key) m
