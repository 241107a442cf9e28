-- ===== src/KernelTool/Header.antt =====
-- The ELF header that `elfIsRelocatable` reads.
use kdump.Prelude.{ℕ, ◌/◌, ◌%◌, Bool, ◌∷◌, ◌++◌, Bytes, if◌then◌else◌}

-- e_ident up to the class and the data encoding, its rest and e_type: 12 bytes.
abbrev ident : Bool → Bool → Bytes → Bytes
ident wide big behind =
    127 ∷ 69 ∷ 76 ∷ 70 ∷ (if wide then 2 else 1) ∷ (if big then 2 else 1) ∷ behind

-- A half word in the byte order.
abbrev half : Bool → ℕ → Bytes → Bytes
half big n s = if big then n / 256 ∷ n % 256 ∷ s else n % 256 ∷ n / 256 ∷ s

abbrev pub machine_header : Bool → Bool → Bytes → ℕ → Bytes → Bytes
machine_header wide big behind machine rest = ident wide big behind ++ half big machine rest
