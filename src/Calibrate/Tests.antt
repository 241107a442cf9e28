-- ===== src/Calibrate/Tests.antt =====
-- Runs on a small memory map.
use kdump.Prelude.{
  Bytes, ◌++◌, none, if◌then◌else◌, equal, ℕ, ◌-◌, ok, throw, Bool, true, false, some, codes, ◌+◌,
  ◌≤◌, ◌<◌, ◌^◌, List, [], ◌∷◌, ◌≡◌, refl, arith,
}
use kdump.Calibrate.MemMap.{
  MemRange, length, total_from, total, length_below, larger, largest_from, largest, find_in,
  reverse, find, all_ones,
}
use kdump.Calibrate.Blocks.{IsFound, find-IsFound}
use kdump.KString.Search.{starts_with}
use kdump.Calibrate.Reserve.{
  Machine, shr_round_up, ramfs, boot_size, framebuffer_kb, is_constant, add_slabs, user_kb,
  static_kb, with_dirty, with_hashes, with_memmap, run_size, required_kb, place,
}
use kdump.Calibrate.Covers.{place-covers}
use kdump.Calibrate.Cpus.{
  skip_spaces, digits, unsigned_digits, signed_digits, read_number, wrong_delimiter, delimited,
  add_range, range_end, element, round, count_from, count,
}
use kdump.Calibrate.Slabs.{
  SlabInfo, slab, until_space, valid_number, number, behind_mark, slab_data, slab_fields, slab_info,
  next_line, getline, strtoul10_digits, strtoul10_signed, strtoul10, minor_ends, check_version,
  read_slabs, get_info,
}
use kdump.Calibrate.SlabMark.{Tunables, spaces}
use kdump.Calibrate.SlabText.{slab_text, slab_info-text}
use kdump.Calibrate.Hyper.{read_str, hyper_info}
use kdump.Calibrate.Guest.{caps_text, any_control_d, hyper_info-caps}
use kdump.Calibrate.Framebuffers.{
  valid_content, height_behind, virtual_height, read_stride, framebuffer_size, is_framebuffer,
  add_sizes, framebuffers_size,
}
use kdump.Prelude.Dict.{insert}
use kdump.KString.Number.{number2string, decimal}
use kdump.DeviceTimeout.Args.{cstr}
use kdump.Transfer.Shares.{find_text}
use kdump.Calibrate.Ranges.{cpus_text, cpus_total, count-cpus}

-- 640 KiB, and from 1 MiB to 64 MiB.
abbrev ranges : List MemRange
ranges = record { start = 0; end = 655359 } ∷ record { start = 1048576; end = 67108863 } ∷ []

runs :
    (total ranges ≡ 66715648)
    × (largest 2097151 ranges ≡ 1048576)
    × (find 1048576 1048576 ranges ≡ 66060288)
    × (find 268435456 1048576 ranges ≡ all_ones)
unfolding total total_from length largest largest_from larger length_below find find_in reverse
runs = (refl, refl, refl, refl)

find-IsFound_example : IsFound 1048576 1048576 (find 1048576 1048576 ranges) ranges
find-IsFound_example =
    find-IsFound 1048576 1048576 ranges (omega arith) (omega arith, (omega arith, tt))

-- 8 GiB, with makedumpfile and the network.
abbrev machine : Machine
machine = record {
  pagesize = 4096;
  total = 8589934592;
  needs_network = some true;
  needs_makedumpfile = true;
  framebuffers = some 8294400;
  crypto_mem = 0;
  slabs =
      record { name = codes "Acpi-State"; num_slabs = 8; pages_per_slab = 1 }
      ∷ record { name = codes "dentry"; num_slabs = 9; pages_per_slab = 1 }
      ∷ [];
  kdump_cpus = 1;
  system_cpus = some 4;
}

required_run : required_kb machine ≡ (241368, 126976)
unfolding required_kb run_size with_memmap with_hashes with_dirty static_kb user_kb add_slabs
    is_constant framebuffer_kb boot_size ramfs shr_round_up starts_with
required_run = refl

static_small : (net : Bool) → static_kb machine net < 2 ^ 42
unfolding static_kb user_kb add_slabs is_constant framebuffer_kb ramfs shr_round_up starts_with
static_small true = omega arith
static_small false = omega arith

place-covers_example :
    ((required_kb machine).1 ≤ (required_kb machine).0)
    × ((required_kb machine).0
        ≤ (place ranges (required_kb machine).0 (required_kb machine).1).0
          + (place ranges (required_kb machine).0 (required_kb machine).1).1)
    × ((required_kb machine).1 ≤ (place ranges (required_kb machine).0 (required_kb machine).1).1)
place-covers_example = place-covers ranges machine refl static_small

-- Five processors; a range that goes down wraps around.
count_runs :
    (count (some (codes "0-3,8\n")) ≡ ok 5)
    × (count (some (codes "3-1")) ≡ ok (2 ^ 64 - 1))
    × (count (some (codes "0-3 8")) ≡ throw wrong_delimiter)
unfolding count count_from round element range_end add_range delimited read_number signed_digits
    unsigned_digits digits skip_spaces
count_runs = (refl, refl, refl)

abbrev cpu_list : List (ℕ × ℕ)
cpu_list = (0, 3) ∷ (8, 8) ∷ []

count-cpus_example : count (some (cpus_text cpu_list)) ≡ ok (cpus_total cpu_list)
count-cpus_example =
    count-cpus cpu_list ((omega arith, omega arith), ((omega arith, omega arith), tt)) (omega arith)

abbrev dentries : SlabInfo
dentries = record {
  name = codes "dentry";
  active_objs = 100;
  num_objs = 120;
  obj_size = 192;
  obj_per_slab = 21;
  pages_per_slab = 1;
  active_slabs = 6;
  num_slabs = 6;
}

abbrev no_tunables : Tunables
no_tunables = record { limit = 0; batchcount = 0; shared = 0; shared_avail = 0 }

written_line :
    slab_text dentries no_tunables
    ≡ codes
        "dentry               100    120    192   21    1 : tunables    0    0    0 : slabdata      6      6      0"
unfolding spaces number2string decimal
written_line = refl

slab_info-text_example : slab_info (slab_text dentries no_tunables) ≡ ok (slab dentries)
slab_info-text_example = slab_info-text dentries no_tunables (
  refl,
  (refl, (refl, (refl, (refl, (refl, (refl, tt)))))),
  omega arith,
  omega arith,
  omega arith,
  omega arith,
  omega arith,
  omega arith,
  omega arith,
)

-- A file with its version, a comment and a slab.
info_run :
    get_info (some (codes "slabinfo - version: 2.1\n# name\n" ++ slab_text dentries no_tunables))
    ≡ ok ((codes "dentry", dentries) ∷ [])
unfolding get_info getline check_version read_slabs slab_info slab_fields slab_data number
    valid_number behind_mark until_space next_line strtoul10 strtoul10_signed strtoul10_digits
    minor_ends read_number signed_digits unsigned_digits digits skip_spaces starts_with find_text
    cstr insert number2string decimal equal spaces
info_run = refl

abbrev two_caps : List Bytes
two_caps = codes "xs" ∷ codes "control_d" ∷ []

hyper_info-caps_example :
    (hyper_info (some (codes "xen\n")) none (some (caps_text two_caps ++ 10 ∷ []))).guest_variant
    ≡ (if equal (read_str (some (codes "xen\n"))) (codes "xen")
        then (if any_control_d two_caps then codes "Dom0" else codes "DomU")
        else [])
hyper_info-caps_example =
    hyper_info-caps (some (codes "xen\n")) none two_caps []
      (
        ((λ e. omega arith), ((λ e. omega arith), tt)),
        (
          (
            (λ e. omega arith),
            (
              (λ e. omega arith),
              (
                (λ e. omega arith),
                (
                  (λ e. omega arith),
                  (
                    (λ e. omega arith),
                    (
                      (λ e. omega arith),
                      ((λ e. omega arith), ((λ e. omega arith), ((λ e. omega arith), tt))),
                    ),
                  ),
                ),
              ),
            ),
          ),
          tt,
        ),
      )
      (
        ((λ e. omega arith), ((λ e. omega arith), tt)),
        (
          (
            (λ e. omega arith),
            (
              (λ e. omega arith),
              (
                (λ e. omega arith),
                (
                  (λ e. omega arith),
                  (
                    (λ e. omega arith),
                    (
                      (λ e. omega arith),
                      ((λ e. omega arith), ((λ e. omega arith), ((λ e. omega arith), tt))),
                    ),
                  ),
                ),
              ),
            ),
          ),
          tt,
        ),
      )

framebuffers_run :
    framebuffers_size
      (λ name. some (codes "1024,768\n"))
      (λ name. some (codes "4096\n"))
      (codes "fb0" ∷ codes "fbcon" ∷ [])
    ≡ ok 3145728
unfolding framebuffers_size add_sizes is_framebuffer framebuffer_size virtual_height read_stride
    height_behind valid_content strtoul10 strtoul10_signed strtoul10_digits read_number
    signed_digits unsigned_digits digits skip_spaces starts_with equal
framebuffers_run = refl
