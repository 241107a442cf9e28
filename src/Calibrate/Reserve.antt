-- ===== src/Calibrate/Reserve.antt =====
-- `Calibrate::execute` on x86_64: the required memory in KiB, and where it is placed. What the
-- configuration and the kernel say is a record; none stands for a query that throws.
use kdump.Prelude.{
  ℕ, ◌+◌, ◌-◌, ◌*◌, ◌/◌, ◌^◌, Bool, ◌||◌, List, [], ◌∷◌, Option, none, some, Bytes, codes, ltb, leb,
  ◌==◌, if◌then◌else◌,
}
use kdump.KString.Search.{starts_with}
use kdump.Calibrate.MemMap.{wrap, minus, MemRange, find}

abbrev pub mb : ℕ → ℕ
mb x = x * 1024

unfoldable pub shr_round_up : ℕ → ℕ → ℕ
shr_round_up n amt = minus (wrap (n + 2 ^ amt)) 1 / 2 ^ amt

-- The constants for x86_64, and those that all architectures share.
abbrev pub def_reserve_kb : ℕ
def_reserve_kb = 192 * 1024

abbrev pub kernel_kb : ℕ
kernel_kb = 38 * 1024

abbrev pub kernel_init_kb : ℕ
kernel_init_kb = 5 * 1024

abbrev pub init_kb : ℕ
init_kb = 51 * 1024

abbrev pub init_net_kb : ℕ
init_net_kb = 3 * 1024

abbrev pub kernel_dynamic_kb : ℕ
kernel_dynamic_kb = 8 * 1024

abbrev pub user_base_kb : ℕ
user_base_kb = 56 * 1024

abbrev pub user_net_kb : ℕ
user_net_kb = 10 * 1024

abbrev pub max_bitmap_kb : ℕ
max_bitmap_kb = 32 * 1024

abbrev pub minlow_kb : ℕ
minlow_kb = 72 * 1024

pub record Slab : Type 0 where
  pub name : Bytes
  pub num_slabs : ℕ
  pub pages_per_slab : ℕ

pub record Machine : Type 0 where
  pub pagesize : ℕ
  -- mm.total()
  pub total : ℕ
  pub needs_network : Option Bool
  pub needs_makedumpfile : Bool
  -- bytes
  pub framebuffers : Option ℕ
  -- KiB, of the encrypted device that needs most; 0 where that cannot be found out
  pub crypto_mem : ℕ
  -- empty where they cannot be found out
  pub slabs : List Slab
  pub kdump_cpus : ℕ
  -- numOnline() + numOffline()
  pub system_cpus : Option ℕ

unfoldable pub ramfs : Bool → ℕ
ramfs net = if net then init_kb + init_net_kb else init_kb

-- 50 is INITRD_COMPRESS.
unfoldable pub boot_size : Bool → ℕ
boot_size net = kernel_kb + kernel_init_kb + ramfs net * 50 / 100 + ramfs net

abbrev pub def_bootsize : ℕ
def_bootsize =
    kernel_kb + kernel_init_kb + init_kb + init_net_kb + (init_kb + init_net_kb) * 50 / 100

unfoldable pub framebuffer_kb : Option ℕ → ℕ
framebuffer_kb none = 2 * (768 * 4)
framebuffer_kb (some size) = wrap (2 * size) / 1024

unfoldable pub is_constant : Slab → Bool
is_constant slab = starts_with slab.name (codes "Acpi-") || starts_with slab.name (codes "ftrace_")

unfoldable pub add_slabs : ℕ → ℕ → List Slab → ℕ
add_slabs pagesize required [] = required
add_slabs pagesize required (slab ∷ slabs) =
    let slabsize = wrap (wrap (slab.num_slabs * slab.pages_per_slab) * pagesize) / 1024 in
    add_slabs pagesize (if is_constant slab then wrap (required + slabsize) else required) slabs

unfoldable pub user_kb : Machine → Bool → ℕ
user_kb m net =
    let memtotal = shr_round_up m.total 10 in
    let bitmapsz = shr_round_up (memtotal / m.pagesize) 2 in
    let base = if net then user_base_kb + user_net_kb else user_base_kb in
    if m.needs_makedumpfile
    then wrap (
        base
        + (if ltb max_bitmap_kb bitmapsz then max_bitmap_kb else bitmapsz)
        + 96 * shr_round_up memtotal 27)
    else base

-- Before the memory that grows with the estimate itself.
unfoldable pub static_kb : Machine → Bool → ℕ
static_kb m net =
    let kernel = kernel_kb + ramfs net + kernel_dynamic_kb in
    let devices = wrap (wrap (kernel + framebuffer_kb m.framebuffers) + m.crypto_mem) in
    wrap (add_slabs m.pagesize devices m.slabs + user_kb m net)

-- Dirty pages and in-flight I/O: MB(100) - MB(DIRTY_RATIO) - DIRTY_RATIO * BUF_PER_DIRTY_MB
unfoldable pub with_dirty : ℕ → ℕ
with_dirty required = wrap (required * mb 100) / (mb 100 - mb 20 - 20 * 64)

-- "large hashes": MB(1024) - KERNEL_HASH_PER_MB
unfoldable pub with_hashes : ℕ → ℕ
with_hashes required = wrap (required * mb 1024) / (mb 1024 - 232 * 8)

-- SIZE_STRUCT_PAGE is 64.
unfoldable pub with_memmap : ℕ → ℕ → ℕ
with_memmap pagesize prev =
    let maxpfn = minus (wrap (prev * pagesize) / minus pagesize 64) prev / 64 in
    wrap (prev + maxpfn * 64)

unfoldable pub run_size : Machine → Bool → ℕ
run_size m net = with_memmap m.pagesize (with_hashes (with_dirty (static_kb m net)))

-- The try block and its catch: the required memory and the memory needed at boot.
unfoldable pub required_kb : Machine → ℕ × ℕ
required_kb m = elim m.needs_network [
  | none ↦ (def_reserve_kb, def_bootsize)
  | some net ↦
      let run = run_size m net in
      let required = if ltb run (boot_size net) then boot_size net else run in
      if m.kdump_cpus == 0
      then elim m.system_cpus [
        | none ↦ (def_reserve_kb, boot_size net)
        | some _ ↦ (required, boot_size net)
      ]
      else (required, boot_size net)
]

-- Low and high memory for what is required, with the estimated base of the crash area.
unfoldable pub place_at : ℕ → ℕ → ℕ → ℕ × ℕ
place_at base required bootsize =
    let above = leb (2 ^ 32) (wrap (base + wrap (required * 2 ^ 10))) in
    let more = if above then wrap (required + mb 64) else required in
    let high = if ltb minlow_kb more then more - minlow_kb else 0 in
    if ltb base (2 ^ 32)
    then (0, more)
    else (minlow_kb, if ltb high bootsize then bootsize else high)

unfoldable pub place : List MemRange → ℕ → ℕ → ℕ × ℕ
place ranges required bootsize =
    place_at (find (wrap (required * 2 ^ 10)) (16 * 2 ^ 20) ranges) required bootsize
