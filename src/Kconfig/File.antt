-- ===== src/Kconfig/File.antt =====
-- Whole configurations, written and read back.
use kdump.Prelude.{false, List, [], ◌∷◌, map, Bytes, ok, ◌≡◌, refl, All}
use kdump.Prelude.Dict.{insert}
use kdump.Kconfig.Value.{
  KconfigValue, invalid, tristate, integer, string, is_invalid, Configs, add_line, read_lines,
}
use kdump.Kconfig.Lines.{line_text, IsName, IsWritten, from_string-line_text}

abbrev pub entry_text : Bytes × KconfigValue → Bytes
entry_text (name, value) = line_text name value

abbrev pub IsEntry : Bytes × KconfigValue → Type 0
IsEntry (name, value) = IsName name × IsWritten value

-- Each option is set to its value, in order.
abbrev pub set_all : Configs → List (Bytes × KconfigValue) → Configs
set_all configs [] = configs
set_all configs ((name, value) ∷ entries) = set_all (insert name value configs) entries

written_valid : (value : KconfigValue) → IsWritten value → is_invalid value ≡ false
written_valid (tristate t) w = refl
written_valid (integer n) w = refl
written_valid (string s) w = refl
written_valid invalid w = elim w [ ]

add_line-line_text :
    (configs : Configs) (name : Bytes) (value : KconfigValue)
    → IsName name
    → IsWritten value
    → add_line configs (line_text name value) ≡ ok (insert name value configs)
unfolding add_line
add_line-line_text configs name value h w =
    rw (add_line, from_string-line_text [] name value h w) (rw (written_valid value w))

-- Reading the lines that are written for options, from whatever was set before, sets each option to
-- its value, in their order, and nothing else. The names and values are those that
-- `from_string-line_text` is about.
pub read_lines-entry_text :
    (configs : Configs) (entries : List (Bytes × KconfigValue))
    → All IsEntry entries
    → read_lines configs (map entry_text entries) ≡ ok (set_all configs entries)
unfolding read_lines
read_lines-entry_text configs [] h = refl
read_lines-entry_text configs ((name, value) ∷ entries) ((n, w), h) =
    rw (add_line-line_text configs name value n w)
      (read_lines-entry_text (insert name value configs) entries h)
