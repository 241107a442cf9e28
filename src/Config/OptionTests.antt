-- ===== src/Config/OptionTests.antt =====
-- Runs on the options of the configuration.
use kdump.Prelude.{true, false, List, [], ◌∷◌, ◌≡◌, refl, some, codes, ok, arith, equal, map, All}
use kdump.Prelude.Int.{pos}
use kdump.KString.Number.{extract_int, number2string}
use kdump.Config.Options.{int_value, bool_value, value_as_string, update_value, read_cmdline}
use kdump.Config.Unchanged.{
  Change, stored, printed, changed, IsChange, Distinct, read_cmdline-execute,
}
use kdump.Config.Dump.{kernel, execute, is_printed, quote}
use kdump.Config.RoundTrip.{all_plain, is_plain}
use kdump.Quote.Kernel
use kdump.Quote.Kernel.{is_kernel_space}

-- A level that is printed, and a flag that is not.
abbrev changes : List Change
changes =
    record {
      name = codes "KDUMP_DUMPLEVEL";
      old = int_value (pos 31);
      new = int_value (pos 17);
      usage = 4;
      is_default = false;
    }
    ∷ record {
      name = codes "KDUMP_FADUMP";
      old = bool_value false;
      new = bool_value true;
      usage = 1;
      is_default = false;
    }
    ∷ []

-- Another value, and "NO".
updated :
    (update_value (int_value (pos 31)) (codes "17") ≡ int_value (pos 17))
    × (update_value (int_value (pos 31)) (codes " ") ≡ int_value (pos 31))
    × (update_value (bool_value true) (codes "No") ≡ bool_value false)
    × (update_value (bool_value false) (codes "on") ≡ bool_value true)
unfolding update_value extract_int equal
updated = (refl, refl, refl, refl)

line_run : execute kernel 4 false (map printed changes) ≡ codes "KDUMP_DUMPLEVEL=17 "
unfolding execute is_printed value_as_string number2string quote Kernel.quoted
line_run = refl

distinct : Distinct changes
unfolding equal
distinct = ((refl, tt), (tt, tt))

plain_names : All IsChange changes
unfolding all_plain is_plain is_kernel_space
plain_names = (((refl, refl), omega arith, omega arith, tt), (((refl, refl), tt, tt, tt), tt))

read_cmdline-execute_example :
    read_cmdline
      (codes "/proc/cmdline")
      (some (execute kernel 4 false (map printed changes)))
      (map stored changes)
    ≡ ok (map (changed 4 false) changes)
read_cmdline-execute_example =
    read_cmdline-execute 4 false (codes "/proc/cmdline") changes distinct plain_names
