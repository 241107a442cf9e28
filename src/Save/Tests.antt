-- ===== src/Save/Tests.antt =====
-- Runs of a dump that is saved.
use kdump.Prelude.{
  Bool, ok, some, equal, Bytes, ◌+◌, ◌≤◌, ◌==◌, true, false, ◌&&◌, not, [], ◌∷◌, ◌≡◌, refl, codes,
}
use kdump.Prelude.Int.{pos}
use kdump.Prelude.Effects.{after}
use kdump.KString.Search.{starts_with}
use kdump.Url.Parser.{same_nocase}
use kdump.Save.Command.{
  Config, contains_flag, needs_makedumpfile, unsigned_long, used_cpus, choose, parallel,
  exclude_domu, command_line, source, target_files,
}
use kdump.Save.Steps.{
  filled_vmcoreinfo, notified, checked, found_release, generated_info, pass_over, copied_kernel,
  World, begin, attempt, catch, tolerate, save, work, execute, set_error_code,
}
use kdump.Kernel.Path.{append_path}
use kdump.KString.Trim.{ltrim, rtrim}
use kdump.Calibrate.Cpus.{skip_spaces}
use kdump.Calibrate.Slabs.{until_space}
use kdump.Save.Places.{
  in_boot, kernel_places, suits, first_place, find_dump_kernel, version_from, release_commandline,
}
use kdump.Save.Reports.{started}
use kdump.Save.Parallel.{is_makedumpfile, parallel-bounded, source-needs}

-- A save that fails, where errors are passed over.
abbrev failing : World
failing = record {
  dump_exists = true;
  fills_vmcoreinfo = false;
  knows_release = false;
  finds_release = true;
  builds_transfer = true;
  saves = false;
  checks = true;
  checks_again = true;
  copies_makedumpfile = true;
  generates_info = true;
  copies_kernel = true;
  continues = true;
  copy_kernel = true;
  direct_save = true;
  use_makedumpfile = true;
}

-- The failure and then the success are notified.
told_twice : (after (execute failing started)).steps ≡ (
    filled_vmcoreinfo
    ∷ notified true
    ∷ checked
    ∷ notified false
    ∷ checked
    ∷ found_release
    ∷ generated_info
    ∷ copied_kernel
    ∷ [])
unfolding execute pass_over work save attempt begin catch tolerate set_error_code
told_twice = refl

-- NOSPLIT, with four processors of eight.
abbrev no_split : Config
no_split = record {
  dumplevel = pos 31;
  dumpformat = codes "lzo";
  cpus = pos 4;
  flags = codes "SPLIT NOSPLIT";
  makedumpfile_options = [];
  online_cpus = 8;
  xen_core = false;
}

threads_run : (parallel no_split).threads ≡ 3
unfolding parallel choose contains_flag used_cpus same_nocase starts_with
threads_run = refl

parallel-bounded_example :
    let p = parallel no_split in
    (((not (p.split == 0)) && not (p.threads == 0)) ≡ false)
    × (p.split + p.threads ≤ unsigned_long no_split.cpus)
    × (p.split + p.threads ≤ no_split.online_cpus)
    × ((same_nocase no_split.dumpformat (codes "elf") && not (p.split + p.threads == 0)) ≡ false)
parallel-bounded_example = parallel-bounded no_split

-- An invalid level is written to the command line.
abbrev split_dump : Config
split_dump = record no_split { flags = codes "SPLIT"; dumplevel = pos 99 }

raw_level :
    command_line split_dump (codes "/proc/vmcore")
    ≡ codes "makedumpfile --split  -d 99 -l /proc/vmcore"
unfolding command_line parallel choose contains_flag used_cpus same_nocase exclude_domu starts_with
raw_level = refl

-- A dump of Xen in the ELF format, with all its pages.
abbrev xen_dump : Config
xen_dump = record no_split { dumplevel = pos 0; dumpformat = codes "ELF"; xen_core = true }

runs_without_need :
    (is_makedumpfile (source xen_dump (codes "/proc/vmcore")) ≡ true)
    × (needs_makedumpfile xen_dump ≡ false)
unfolding source command_line target_files parallel choose contains_flag used_cpus exclude_domu
    same_nocase needs_makedumpfile starts_with
runs_without_need = (refl, refl)

source-needs_example : xen_dump.xen_core ≡ true
source-needs_example =
    source-needs xen_dump (codes "/proc/vmcore") runs_without_need.0 runs_without_need.1

-- The fourth place, an ELF file.
abbrev vmlinuz_there : Bytes → Bool
vmlinuz_there = equal (codes "/root/boot/vmlinuz-5.3")

found_fourth :
    find_dump_kernel vmlinuz_there (λ f. true) (codes "/root") (codes "5.3")
    ≡ ok (codes "/boot/vmlinuz-5.3")
unfolding find_dump_kernel first_place suits kernel_places in_boot append_path ltrim rtrim equal
found_fourth = refl

released : release_commandline (some (codes "quiet kernelversion=5.3 x\n")) ≡ ok (codes "5.3")
unfolding release_commandline version_from skip_spaces until_space starts_with equal
released = refl
