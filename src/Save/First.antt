-- ===== src/Save/First.antt =====
-- The kernel that is saved with the dump is the first one that is there.
use kdump.Prelude.{
  Bool, true, false, ◌&&◌, List, [], ◌∷◌, ◌++◌, ◌≡◌, Bytes, codes, Result, ok, throw, All,
  if◌then◌else◌,
}
use kdump.Kernel.Path.{append_path}
use kdump.Save.Places.{Place, PlaceError, no_kernel_image}

-- The files that a kernel of the release may be, in the order in which the first is taken, each with
-- whether it must be an ELF file.
abbrev pub candidates : Bytes → List (Bytes × Bool)
candidates release =
    (codes "/boot/vmlinux-" ++ release, false)
    ∷ (codes "/boot/vmlinux-" ++ release ++ codes ".gz", false)
    ∷ (codes "/boot/vmlinux-" ++ release ++ codes ".xz", false)
    ∷ (codes "/boot/vmlinuz-" ++ release, true)
    ∷ (codes "/boot/image-" ++ release, false)
    ∷ (codes "/boot/Image-" ++ release, false)
    ∷ []

module _ (exists is_elf : Bytes → Bool) (root : Bytes) where
  -- The file is there, below the root directory, and an ELF file if it must be.
  abbrev pub is_there : Bytes × Bool → Bool
  is_there (path, elf) =
      exists (append_path root path) && (if elf then is_elf (append_path root path) else true)

  -- The first candidate that is there, or none is.
  abbrev pub IsFirst : List (Bytes × Bool) → Result PlaceError Bytes → Type 0
  IsFirst files (ok binary) =
      (before behind : List (Bytes × Bool)) × (elf : Bool) × (files
        ≡ before ++ (binary, elf) ∷ behind)
      × (is_there (binary, elf) ≡ true)
      × All (λ file. is_there file ≡ false) before
  IsFirst files (throw e) = (e ≡ no_kernel_image) × All (λ file. is_there file ≡ false) files

  -- The place of a candidate.
  abbrev place_of : Bytes × Bool → Place
  place_of (path, elf) = record {
    binary = path;
    binaryroot = append_path root path;
    checks_elf = elf;
  }

  abbrev places_of : List (Bytes × Bool) → List Place
  places_of [] = []
  places_of (file ∷ files) = place_of file ∷ places_of files
