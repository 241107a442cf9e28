-- ===== src/Kconfig/Tests.antt =====
-- Runs of the configuration's reader.
use kdump.Prelude.{
  equal, last_byte, erase_last, List, [], ◌∷◌, map, Bytes, codes, ok, throw, ◌≡◌, refl, arith,
}
use kdump.Prelude.Int.{pos, negsuc}
use kdump.KString.Search.{find, starts_with}
use kdump.KString.Trim.{trim}
use kdump.KString.Number.{is_number, as_int}
use kdump.Kconfig.Value.{
  KconfigValue, invalid, tristate, on, off, module_, integer, string, invalid_line, no_value,
  undefined_read, holds, at, unquote, from_comment, from_value, from_pair, from_string, read_lines,
}
use kdump.Kconfig.File.{entry_text, set_all, read_lines-entry_text}

comment_runs :
    (from_string [] (codes "# CONFIG_X is not set\n") ≡ ok (tristate off, codes "CONFIG_X"))
    × (from_string [] (codes "# General setup") ≡ ok (invalid, []))
    × (from_string [] (codes "#CONFIG_X is not set") ≡ throw invalid_line)
unfolding from_string from_comment trim holds starts_with at find
comment_runs = (refl, refl, refl)

pair_runs :
    (from_string [] (codes "A=m") ≡ ok (tristate module_, codes "A"))
    × (from_string [] (codes "A=-12") ≡ ok (integer (negsuc 11), codes "A"))
    × (from_string [] (codes "A=\"x=y\"\n") ≡ ok (string (codes "x=y"), codes "A"))
    × (from_string [] (codes "A=0x10") ≡ ok (string (codes "0x10"), codes "A"))
    × (from_string [] (codes "A=") ≡ throw no_value)
    × (from_string [] (codes "A=\"") ≡ throw undefined_read)
unfolding from_string from_pair trim from_value unquote at find equal is_number as_int last_byte
    erase_last
pair_runs = (refl, refl, refl, refl, refl, refl)

abbrev entries : List (Bytes × KconfigValue)
entries = (codes "A", tristate on) ∷ (codes "B", integer (pos 7)) ∷ (codes "A", tristate off) ∷ []

read_lines-entry_text_example : read_lines [] (map entry_text entries) ≡ ok (set_all [] entries)
read_lines-entry_text_example = read_lines-entry_text [] entries (
  ((refl, (omega arith, tt), (omega arith, tt)), tt),
  (
    ((refl, (omega arith, tt), (omega arith, tt)), omega arith),
    (((refl, (omega arith, tt), (omega arith, tt)), tt), tt),
  ),
)
