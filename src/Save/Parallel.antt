-- ===== src/Save/Parallel.antt =====
-- How many processes and files a dump is saved by, and when makedumpfile runs.
use kdump.Prelude.{
  ℕ, zero, suc, ◌+◌, ◌≤◌, Bool, true, false, ◌&&◌, ◌||◌, not, List, [], ◌≡◌, refl, ap, Bytes, codes,
  length, ltb, ◌-◌, arith, ◌==◌, if◌then◌else◌, Bool-cases, inl, inr,
}
use kdump.Prelude.Int.{ℤ, pos, negsuc}
use kdump.Url.Parser.{same_nocase}
use kdump.Save.Command.{
  Config, Parallel, contains_flag, needs_makedumpfile, is_zero, valid_level, unsigned_long,
  used_cpus, choose, parallel, exclude_domu, Source, nothing, file, makedumpfile, split_targets,
  target_files, source,
}

abbrev pub is_makedumpfile : Source → Bool
is_makedumpfile (makedumpfile direct pipe files) = true
is_makedumpfile (file dump files) = false
is_makedumpfile nothing = false

abbrev pub files_of : Source → List Bytes
files_of (makedumpfile direct pipe files) = files
files_of (file dump files) = files
files_of nothing = []

used_cpus-bounded :
    (config : Config)
    → (used_cpus config ≤ unsigned_long config.cpus) × (used_cpus config ≤ config.online_cpus)
unfolding used_cpus
used_cpus-bounded config = (ground arith, ground arith)

length-split_targets : (i left : ℕ) → length (split_targets i left) ≡ left
unfolding split_targets
length-split_targets i zero = refl
length-split_targets i (suc left) = ap suc (length-split_targets (suc i) left)

length-target_files : (split : ℕ) → length (target_files split) ≡ (if split == 0 then 1 else split)
unfolding target_files
length-target_files zero = refl
length-target_files (suc n) =
    let nonzero : (suc n == 0) ≡ false = ground arith in rw nonzero (length-split_targets 1 (suc n))

abbrev IsBounded : Bool → ℕ → Parallel → Type 0
IsBounded elf cpus p =
    (((not (p.split == 0)) && not (p.threads == 0)) ≡ false)
    × (p.split + p.threads ≤ cpus)
    × ((elf && not (p.split + p.threads == 0)) ≡ false)

choose-IsBounded :
    (single splits elf : Bool) (cpus : ℕ) → IsBounded elf cpus (choose single splits elf cpus)
unfolding choose
choose-IsBounded true splits elf cpus = (refl, ground arith, ground arith)
choose-IsBounded false splits elf cpus = elim (Bool-cases (ltb 1 cpus)) [
  | inl many ↦ rw many (chosen splits elf)
  | inr few ↦ rw few (refl, ground arith, ground arith)
]
  where
    chosen :
        (splits elf : Bool)
        → IsBounded elf cpus (
            if splits
            then (if elf
                then record { split = 0; threads = 0 }
                else record { split = cpus; threads = 0 })
            else (if elf
                then record { split = 0; threads = 0 }
                else record { split = 0; threads = cpus - 1 }))
    chosen true true = (refl, ground arith, refl)
    chosen true false = (ground arith, ground arith, refl)
    chosen false true = (refl, ground arith, refl)
    chosen false false = (refl, ground arith, refl)

-- A dump is never both split and saved by several threads, and an ELF dump neither; the parts, or
-- the threads beside the main one, are no more than the processors that are configured and than
-- those that are online. A negative number of processors counts as what it is as an unsigned long.
pub parallel-bounded :
    (config : Config)
    → let p = parallel config in
      (((not (p.split == 0)) && not (p.threads == 0)) ≡ false)
      × (p.split + p.threads ≤ unsigned_long config.cpus)
      × (p.split + p.threads ≤ config.online_cpus)
      × ((same_nocase config.dumpformat (codes "elf") && not (p.split + p.threads == 0)) ≡ false)
unfolding parallel
parallel-bounded config =
    let p = parallel config in
    let h : IsBounded (same_nocase config.dumpformat (codes "elf")) (used_cpus config) p =
      choose-IsBounded (contains_flag config (codes "SINGLE"))
        (contains_flag config (codes "SPLIT") && not (contains_flag config (codes "NOSPLIT")))
        (same_nocase config.dumpformat (codes "elf")) (used_cpus config) in
    let u = used_cpus-bounded config in
    let few : p.split + p.threads ≤ used_cpus config = h.1 in
    let configured : used_cpus config ≤ unsigned_long config.cpus = u.0 in
    let online : used_cpus config ≤ config.online_cpus = u.1 in (h.0, omega arith, omega arith, h.2)

-- The dump is copied as it is.
abbrev is_plain : Config → Bool
is_plain config =
    same_nocase config.dumpformat (codes "elf")
    && is_zero (valid_level config.dumplevel)
    && not (exclude_domu config)

-- There is a file for each part of a split dump, and one file otherwise; none in the format that
-- saves nothing.
pub source-files :
    (config : Config) (dump : Bytes)
    → let split = (parallel config).split in
      length (files_of (source config dump)) ≡ (
        if same_nocase config.dumpformat (codes "none")
        then 0
        else (if split == 0 then 1 else split))
unfolding source
source-files config dump =
    let count = length-target_files (parallel config).split in
    elim (Bool-cases (same_nocase config.dumpformat (codes "none"))) [
      | inl nothing_saved ↦ rw nothing_saved refl
      | inr saved ↦ elim (Bool-cases (is_plain config)) [
        | inl copied ↦ rw saved (rw copied count)
        | inr made ↦ rw saved (rw made count)
      ]
    ]

zero-valid : (level : ℤ) → is_zero level ≡ true → is_zero (valid_level level) ≡ true
zero-valid (pos zero) h = refl
zero-valid (pos (suc n)) h = absurd (ground arith)
zero-valid (negsuc n) h = absurd (cc)

spared-level :
    (config : Config) → needs_makedumpfile config ≡ false → is_zero config.dumplevel ≡ true
unfolding needs_makedumpfile
spared-level config spared = ground arith

spared-format :
    (config : Config)
    → needs_makedumpfile config ≡ false
    → (same_nocase config.dumpformat (codes "none") || same_nocase config.dumpformat (codes "elf"))
      ≡ true
unfolding needs_makedumpfile
spared-format config spared = ground arith

runs-made :
    (config : Config) (dump : Bytes)
    → is_makedumpfile (source config dump)
      ≡ (not (same_nocase config.dumpformat (codes "none")) && not (is_plain config))
unfolding source
runs-made config dump = elim (Bool-cases (same_nocase config.dumpformat (codes "none"))) [
  | inl nothing_saved ↦ rw nothing_saved refl
  | inr saved ↦ elim (Bool-cases (is_plain config)) [
    | inl copied ↦ rw saved (rw copied refl)
    | inr made ↦ rw saved (rw made refl)
  ]
]

xen-excluded : (config : Config) → exclude_domu config ≡ true → config.xen_core ≡ true
unfolding exclude_domu
xen-excluded config h = ground arith

-- Where makedumpfile runs although the configuration has no need of it, the dump is one of Xen.
pub source-needs :
    (config : Config) (dump : Bytes)
    → is_makedumpfile (source config dump) ≡ true
    → needs_makedumpfile config ≡ false
    → config.xen_core ≡ true
source-needs config dump runs spared =
    let level_zero = spared-level config spared in
    let format = spared-format config spared in
    let valid = zero-valid config.dumplevel level_zero in
    let made = runs-made config dump in xen-excluded config (ground arith)
