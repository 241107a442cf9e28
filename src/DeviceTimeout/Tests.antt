-- ===== src/DeviceTimeout/Tests.antt =====
-- Runs of the generator.
use kdump.Prelude.{
  true, List, [], ◌∷◌, ◌++◌, ◌≡◌, ◌≢◌, refl, Option, none, some, Bytes, codes, arith, All, equal,
  last_byte, erase_last, ◌≤◌, length, ◌-◌,
}
use kdump.KString.Search.{find}
use kdump.DeviceTimeout.Args.{get_arg, skipws, args_from, parse_args, get_timeout, strtoul}
use kdump.DeviceTimeout.Words.{words_text, steps}
use kdump.DeviceTimeout.CommandLine.{args_from-parse_args, parse_args-words_text}
use kdump.DeviceTimeout.Fstab.{unescape_fstab, evaluate_spec}
use kdump.DeviceTimeout.Escapes.{unescape_fstab-keeps_digit}
use kdump.DeviceTimeout.Unit.{path_escape}
use kdump.DeviceTimeout.UnitName.{read_name, UnitChar, read_name-path_escape}
use kdump.DeviceTimeout.Generator.{Files, main, create_confs, create_conf, make_dir, write_file}

strtoul_runs :
    (strtoul (codes " 42s") ≡ (42, codes "s"))
    × (strtoul (codes "0x1F") ≡ (31, []))
    × (strtoul (codes "017") ≡ (15, []))
    × (strtoul (codes "s") ≡ (0, codes "s"))
    × (strtoul (codes "-1") ≡ (18446744073709551615, []))
unfolding strtoul
strtoul_runs = (refl, refl, refl, refl, refl)

get_arg_runs :
    (get_arg (codes "a=\"b c\" d") ≡ (codes "a", some (codes "b c"), codes "d"))
    × (get_arg (codes "\"a=b c\"") ≡ (codes "a", some (codes "b c"), []))
    × (get_arg (codes "quiet  x") ≡ (codes "quiet", none, codes "x"))
    × (get_arg (codes "\"") ≡ ([], none, []))
unfolding get_arg last_byte erase_last
get_arg_runs = (refl, refl, refl, refl)

abbrev line : List (Bytes × Option Bytes)
line = (codes "quiet", none) ∷ (codes "rd.timeout", some (codes "90")) ∷ []

parse_args-words_text_example :
    parse_args get_timeout (words_text line) 0 ≡ steps get_timeout line 0
parse_args-words_text_example = parse_args-words_text get_timeout line 0 (ground arith)

parse_args_runs : parse_args get_timeout (codes " quiet rd.timeout=\"90\" x=1") 0 ≡ 90
unfolding parse_args args_from get_timeout strtoul get_arg equal last_byte erase_last
parse_args_runs = refl

args_from-parse_args_example :
    (length (get_arg (codes " rd.timeout=5 q")).2 ≤ length (codes " rd.timeout=5 q") - 1)
    × (args_from get_timeout 20 (skipws (codes " rd.timeout=5 q")) 0
        ≡ parse_args get_timeout (codes " rd.timeout=5 q") 0)
args_from-parse_args_example =
    args_from-parse_args get_timeout 20 (codes " rd.timeout=5 q") 0 (omega arith)

unescape_fstab_runs :
    (unescape_fstab (codes "LABEL=a\\040bcd") ≡ codes "LABEL=a 0bcdcd")
    × (unescape_fstab (codes "/dev/sda1") ≡ codes "/dev/sda1")
unfolding unescape_fstab
unescape_fstab_runs = (refl, refl)

unescape_fstab-keeps_digit_example :
    (unescape_fstab (codes "LABEL=a\\040bcd")
      ≡ codes "LABEL=a" ++ 32 ∷ b'0' ∷ (codes "bcd" ++ codes "cd"))
    × (unescape_fstab (codes "LABEL=a\\040bcd") ≢ codes "LABEL=a" ++ 32 ∷ codes "bcd")
unescape_fstab-keeps_digit_example =
    unescape_fstab-keeps_digit (codes "LABEL=a") (codes "bcd") b'0' b'4' b'0' (ground arith)
      (ground arith) refl refl refl refl

path_escape_runs :
    (path_escape (codes "/dev//disk/by-label/a b/") ≡ codes "dev-disk-by\\x2dlabel-a\\x20b")
    × (path_escape (codes "/") ≡ codes "-")
    × (path_escape (codes "/.x") ≡ codes "\\x2ex")
unfolding path_escape
path_escape_runs = (refl, refl, refl)

read_name-path_escape_example :
    (read_name 0 (path_escape (codes "/dev/a-b c")) ≡ codes "dev/a-b c")
    × All UnitChar (path_escape (codes "/dev/a-b c"))
read_name-path_escape_example =
    read_name-path_escape (codes "dev/a-b c") (omega arith) (ground arith)

abbrev files : Files
files = record {
  cmdline_d = some ((codes "a.conf", some (codes "rd.timeout=3")) ∷ []);
  etc_cmdline = none;
  proc_cmdline = some (codes "root=/dev/sda rd.timeout=7");
}

main_runs :
    main
      (λ s. s)
      (λ _. true)
      (λ _. true)
      (codes "gen" ∷ codes "/u" ∷ codes "/e" ∷ codes "/l" ∷ [])
      files
      ((codes "UUID=12", codes "/kdump/mnt0") ∷ (codes "/dev/sda", codes "/") ∷ [])
    ≡ some (
        make_dir (codes "/u/dev-disk-by\\x2duuid-12.device.d")
        ∷ write_file
            (codes "/u/dev-disk-by\\x2duuid-12.device.d/timeout.conf")
            (codes "[Unit]" ++ 10 ∷ codes "JobTimeoutSec=7" ++ 10 ∷ [])
        ∷ [])
unfolding main create_confs create_conf parse_args args_from get_timeout strtoul get_arg equal
    evaluate_spec path_escape find
main_runs = refl
