-- ===== src/Save/Command.antt =====
-- The dump's source and the command line of makedumpfile: `SaveDump::saveDump`, from the format on;
-- `Configuration::kdumptoolContainsFlag` and `needsMakedumpfile`.
use kdump.Prelude.{
  ℕ, zero, suc, ◌-◌, ◌^◌, Bool, true, false, ◌&&◌, not, List, [], ◌∷◌, ◌++◌, Bytes, codes, ltb,
  ◌==◌, if◌then◌else◌,
}
use kdump.Prelude.Int.{ℤ, pos, negsuc}
use kdump.KString.Number.{number2string}
use kdump.Kconfig.Value.{holds}
use kdump.Url.Parser.{same_nocase}

pub record Config : Type 0 where
  pub dumplevel : ℤ
  pub dumpformat : Bytes
  pub cpus : ℤ
  pub flags : Bytes
  pub makedumpfile_options : Bytes
  -- what the system says: the CPUs that are online, and whether the dump is Xen's
  pub online_cpus : ℕ
  pub xen_core : Bool

unfoldable pub contains_flag : Config → Bytes → Bool
unfolding holds
contains_flag config flag = holds flag config.flags

abbrev pub is_zero : ℤ → Bool
is_zero (pos n) = n == 0
is_zero (negsuc n) = false

unfoldable pub needs_makedumpfile : Config → Bool
unfolding same_nocase
needs_makedumpfile config =
    if not (is_zero config.dumplevel)
    then true
    else not (same_nocase config.dumpformat (codes "none"))
      && not (same_nocase config.dumpformat (codes "elf"))

-- A level that is not valid counts as 0.
abbrev pub valid_level : ℤ → ℤ
valid_level (pos n) = if ltb 31 n then pos 0 else pos n
valid_level (negsuc n) = pos 0

-- The conversion of an int to unsigned long.
unfoldable pub unsigned_long : ℤ → ℕ
unsigned_long (pos n) = n
unsigned_long (negsuc n) = 2 ^ 64 - suc n

-- No more CPUs than there are online.
unfoldable pub used_cpus : Config → ℕ
unfolding unsigned_long
used_cpus config =
    let cpus = unsigned_long config.cpus in
    if cpus == 0 then 0 else (if ltb config.online_cpus cpus then config.online_cpus else cpus)

-- m_split and m_threads
pub record Parallel : Type 0 where
  pub split : ℕ
  pub threads : ℕ

-- The choice by the flags SINGLE and SPLIT (without NOSPLIT), and whether the format is ELF.
unfoldable pub choose : Bool → Bool → Bool → ℕ → Parallel
choose single splits elf cpus =
    let none_used : Parallel = record { split = 0; threads = 0 } in
    if not single && ltb 1 cpus
    then (if splits
        then (if elf then none_used else record { split = cpus; threads = 0 })
        else (if elf then none_used else record { split = 0; threads = cpus - 1 }))
    else none_used

unfoldable pub parallel : Config → Parallel
unfolding choose contains_flag used_cpus same_nocase
parallel config =
    choose (contains_flag config (codes "SINGLE"))
      (contains_flag config (codes "SPLIT") && not (contains_flag config (codes "NOSPLIT")))
      (same_nocase config.dumpformat (codes "elf")) (used_cpus config)

unfoldable pub exclude_domu : Config → Bool
unfolding contains_flag
exclude_domu config = not (contains_flag config (codes "XENALLDOMAINS")) && config.xen_core

abbrev pub when : Bool → Bytes → Bytes
when b text = if b then text else []

-- The command line that saves to files; the one for a pipe ends in " -F".
unfoldable pub command_line : Config → Bytes → Bytes
unfolding parallel exclude_domu number2string same_nocase
command_line config dump =
    let p = parallel config in
    codes "makedumpfile "
    ++ (when (not (p.split == 0)) (codes "--split ")
        ++ (when (not (p.threads == 0))
              (codes "--num-threads " ++ (number2string (pos p.threads) ++ codes " "))
            ++ (config.makedumpfile_options
                ++ (codes " -d "
                    ++ (number2string config.dumplevel
                        ++ (codes " "
                            ++ (when (exclude_domu config) (codes "-X ")
                                ++ (when (same_nocase config.dumpformat (codes "elf")) (codes "-E ")
                                    ++ (when (same_nocase config.dumpformat (codes "compressed"))
                                          (codes "-c ")
                                        ++ (when (same_nocase config.dumpformat (codes "lzo"))
                                              (codes "-l ")
                                            ++ (when
                                                  (same_nocase config.dumpformat (codes "snappy"))
                                                  (codes "-p ")
                                                ++ dump)))))))))))

-- Where the dump comes from, and the files that it is saved to.
pub data Source : Type 0 where
  nothing : Source
  file : Bytes → List Bytes → Source
  makedumpfile : Bytes → Bytes → List Bytes → Source

-- vmcore1, vmcore2, …: `left` files from number `i` on.
unfoldable pub split_targets : ℕ → ℕ → List Bytes
unfolding number2string
split_targets i zero = []
split_targets i (suc left) = (codes "vmcore" ++ number2string (pos i)) ∷ split_targets (suc i) left

unfoldable pub target_files : ℕ → List Bytes
unfolding split_targets
target_files split = if split == 0 then codes "vmcore" ∷ [] else split_targets 1 split

unfoldable pub source : Config → Bytes → Source
unfolding command_line target_files parallel exclude_domu same_nocase
source config dump =
    let files = target_files (parallel config).split in
    let cmdline = command_line config dump in
    if same_nocase config.dumpformat (codes "none")
    then nothing
    else if same_nocase config.dumpformat (codes "elf")
        && is_zero (valid_level config.dumplevel)
        && not (exclude_domu config)
    then file dump files
    else makedumpfile cmdline (cmdline ++ codes " -F") files
