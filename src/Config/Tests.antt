-- ===== src/Config/Tests.antt =====
-- Runs of the parser and of the printer, and the theorems at concrete configurations.
use kdump.Prelude.{true, false, List, [], ◌∷◌, ◌≡◌, refl, codes, ok, throw, none}
use kdump.Quote.Shell
use kdump.Quote.Shell.{quote_loop, is_shell_safe}
use kdump.Prelude.Dict.{insert}
use kdump.Config.KernelParser.{no_variable, add_variable, get_value, parse_text, parse, cannot_open}
use kdump.Config.Dump.{
  ConfigOption, shell, kernel, unknown_usage, parse_format, parse_usage, execute, quote,
}
use kdump.Config.RoundTrip.{set_all, all_plain, parse_text-execute}

abbrev savedir : ConfigOption
savedir = record {
  name = codes "KDUMP_SAVEDIR";
  usage = 4;
  is_default = false;
  value = codes "file:///var/my \"crash\"";
}

abbrev verbose : ConfigOption
verbose = record { name = codes "KDUMP_VERBOSE"; usage = 7; is_default = true; value = codes "3" }

abbrev options : List ConfigOption
options = savedir ∷ verbose ∷ []

parse_runs :
    (parse_text [] (codes "quiet a=\"b c\" d=\\0414\\9\n")
      ≡ (codes "quiet", []) ∷ (codes "a", codes "b c") ∷ (codes "d", codes "!4\\9") ∷ [])
    × (parse (codes "/f") none [] ≡ throw (cannot_open (codes "/f")))
unfolding parse insert
parse_runs = (refl, refl)

value_runs :
    (get_value (codes "a") (add_variable (codes "a") (codes "1") []) ≡ ok (codes "1"))
    × (get_value (codes "b") (add_variable (codes "a") (codes "1") [])
        ≡ throw (no_variable (codes "b")))
unfolding get_value add_variable
value_runs = (refl, refl)

execute_runs :
    (execute kernel 7 true options ≡ codes "KDUMP_SAVEDIR=\"file:///var/my \\042crash\\042\" ")
    × (execute shell 1 false options ≡ codes "KDUMP_VERBOSE=3\n")
unfolding execute quote quote_loop is_shell_safe Shell.quoted
execute_runs = (refl, refl)

usage_runs :
    (parse_usage (codes "dump,mkinitrd") ≡ ok 5)
    × (parse_usage (codes "all") ≡ ok 7)
    × (parse_usage (codes "dump,x") ≡ throw (unknown_usage (codes "x")))
    × (parse_format (codes "kernel") ≡ ok kernel)
unfolding parse_usage parse_format
usage_runs = (refl, refl, refl, refl)

parse_text-execute_example :
    parse_text [] (execute kernel 7 false options) ≡ set_all 7 false options []
unfolding all_plain
parse_text-execute_example =
    parse_text-execute 7 false options [] ((refl, refl), ((refl, refl), tt))
