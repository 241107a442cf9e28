-- ===== src/Calibrate/Hyper.antt =====
-- `HyperInfo`: the hypervisor that the system runs on.
use kdump.Prelude.{
  ℕ, zero, suc, Bool, false, ◌||◌, [], Option, none, some, Bytes, codes, if◌then◌else◌, length,
  take, drop, equal,
}
use kdump.KString.Search.{find}
use kdump.Calibrate.Slabs.{next_line}

pub record HyperInfo : Type 0 where
  pub type : Bytes
  pub guest_type : Bytes
  pub guest_variant : Bytes

-- `read_str`: the first line, or nothing where the file cannot be opened.
unfoldable pub read_str : Option Bytes → Bytes
unfolding next_line
read_str none = []
read_str (some text) = (next_line text).0

abbrev pub control_d : Bytes
control_d = codes "control_d"

-- A round at the capabilities `s`, where the next comma is; `next` is the loop.
unfoldable pub after_cut : (Bytes → Bool) → Bytes → Option ℕ → Bool
unfolding equal
after_cut next s none = equal s control_d
after_cut next s (some len) = equal (take len s) control_d || next (drop (suc len) s)

-- The loop over the capabilities from `pos` on; a round but the last one passes a comma.
unfoldable pub has_control_d : ℕ → Bytes → Bool
unfolding find after_cut
has_control_d zero s = false
has_control_d (suc f) s = after_cut (has_control_d f) s (find s b',')

-- The three files.
unfoldable pub hyper_info : Option Bytes → Option Bytes → Option Bytes → HyperInfo
unfolding read_str has_control_d equal
hyper_info type_file guest_type_file capabilities =
    let caps = read_str capabilities in
    let variant = if has_control_d (suc (length caps)) caps then codes "Dom0" else codes "DomU" in
    record {
      type = read_str type_file;
      guest_type = read_str guest_type_file;
      guest_variant = if equal (read_str type_file) (codes "xen") then variant else [];
    }
