-- ===== src/Calibrate/Covers.antt =====
-- The reserved memory, and what it is for.
use kdump.Prelude.{
  ℕ, ◌+◌, ◌*◌, ◌^◌, ◌≤◌, ◌<◌, Bool, true, false, List, some, ◌≡◌, ap, arith, Option-cases, inl, inr,
}
use kdump.Calibrate.MemMap.{wrap, MemRange, find}
use kdump.Calibrate.Reserve.{
  Machine, ramfs, boot_size, def_reserve_kb, with_dirty, with_hashes, with_memmap, run_size,
  static_kb, required_kb, place_at, place,
}

with_dirty_more : (r : ℕ) → r < 2 ^ 44 → (r ≤ with_dirty r) × (with_dirty r ≤ 2 * r)
unfolding with_dirty
with_dirty_more r h = (omega arith, omega arith)

with_hashes_more : (r : ℕ) → r < 2 ^ 43 → (r ≤ with_hashes r) × (with_hashes r ≤ 2 * r)
unfolding with_hashes
with_hashes_more r h = (omega arith, omega arith)

with_memmap_more : (r : ℕ) → r < 2 ^ 50 → (r ≤ with_memmap 4096 r) × (with_memmap 4096 r ≤ 2 * r)
unfolding with_memmap
with_memmap_more r h = (omega arith, omega arith)

place_at-covers :
    (base required bootsize : ℕ)
    → required < 2 ^ 50
    → bootsize ≤ required
    → (required ≤ (place_at base required bootsize).0 + (place_at base required bootsize).1)
      × (bootsize ≤ (place_at base required bootsize).1)
unfolding place_at
place_at-covers base required bootsize h b = (ground arith, ground arith)

run_size_more :
    (m : Machine) (net : Bool)
    → m.pagesize ≡ 4096
    → static_kb m net < 2 ^ 42
    → (static_kb m net ≤ run_size m net) × (run_size m net ≤ 8 * static_kb m net)
unfolding run_size
run_size_more m net p h =
    let s = static_kb m net in
    let (a, a') = with_dirty_more s (omega arith) in
    let (b, b') = with_hashes_more (with_dirty s) (omega arith) in
    let (c, c') = with_memmap_more (with_hashes (with_dirty s)) (omega arith) in
    let e : run_size m net ≡ with_memmap 4096 (with_hashes (with_dirty s)) =
      ap (λ t. with_memmap t (with_hashes (with_dirty s))) p in
    (omega arith, omega arith)

boot_size_bound : (net : Bool) → boot_size net ≤ def_reserve_kb
unfolding boot_size ramfs
boot_size_bound true = omega arith
boot_size_bound false = omega arith

-- A dump kernel's run, and its boot, with the defaults where something cannot be found out.
required_kb_bounds :
    (m : Machine)
    → m.pagesize ≡ 4096
    → ((net : Bool) → static_kb m net < 2 ^ 42)
    → ((required_kb m).1 ≤ (required_kb m).0) × ((required_kb m).0 < 2 ^ 50)
unfolding required_kb
required_kb_bounds m p h = elim (Option-cases m.needs_network) [
  | inl unknown ↦ rw (required_kb, unknown) (omega arith, omega arith)
  | inr (net, known) ↦
      let b = boot_size_bound net in
      let (_, r) = run_size_more m net p (h net) in
      let s = h net in
      elim (Option-cases m.system_cpus) [
        | inl none_known ↦ rw (required_kb, known) (rw none_known (ground arith, ground arith))
        | inr (cpus, counted) ↦ rw (required_kb, known) (rw counted (ground arith, ground arith))
      ]
]

-- With pages of 4 KiB and less than 2^42 KiB of memory that does not depend on the estimate: the
-- memory that is asked for is enough to boot; low and high memory together are no less than it,
-- wherever the crash area is expected; and the high part alone is enough to boot. It holds with the
-- default sizes too, where the configuration or the number of CPUs cannot be found out.
pub place-covers :
    (ranges : List MemRange) (m : Machine)
    → m.pagesize ≡ 4096
    → ((net : Bool) → static_kb m net < 2 ^ 42)
    → ((required_kb m).1 ≤ (required_kb m).0)
      × ((required_kb m).0
          ≤ (place ranges (required_kb m).0 (required_kb m).1).0
            + (place ranges (required_kb m).0 (required_kb m).1).1)
      × ((required_kb m).1 ≤ (place ranges (required_kb m).0 (required_kb m).1).1)
unfolding place
place-covers ranges m p h =
    let (boot, fits) = required_kb_bounds m p h in
    let base = find (wrap ((required_kb m).0 * 2 ^ 10)) (16 * 2 ^ 20) ranges in
    let (both, high) = place_at-covers base (required_kb m).0 (required_kb m).1 fits boot in
    (boot, both, high)

-- With pages of 4 KiB and less than 2^42 KiB of memory that does not depend on the estimate (the
-- kernel, the initramfs, devices, slabs and user space): where the configuration and the CPUs are
-- known, the memory that is asked for covers it.
pub required_kb-static :
    (m : Machine) (net : Bool) (cpus : ℕ)
    → m.pagesize ≡ 4096
    → static_kb m net < 2 ^ 42
    → m.needs_network ≡ some net
    → m.system_cpus ≡ some cpus
    → static_kb m net ≤ (required_kb m).0
unfolding required_kb
required_kb-static m net cpus p h known counted =
    let (r, _) = run_size_more m net p h in rw (required_kb, known) (rw counted (ground arith))
