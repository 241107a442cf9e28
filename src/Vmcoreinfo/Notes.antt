-- ===== src/Vmcoreinfo/Notes.antt =====
-- `readVmcoreinfoFromNotes`: the walk over the notes of an ELF segment. The two header types have
-- the same fields of 32 bits, so that the branches on the class of the file do the same.
use kdump.Prelude.{
  ℕ, zero, suc, ◌+◌, ◌*◌, ◌/◌, ◌%◌, ◌^◌, Bool, true, false, [], ◌∷◌, ◌++◌, Bytes, codes, Result, ok,
  throw, ◌>>=◌, ◌==◌, ltb, leb, if◌then◌else◌, length, take, drop, ◌&&◌,
}
use kdump.Vmcoreinfo.Info.{VmcoreinfoError, note_not_found, undefined_read}

-- A 32-bit field, on a machine that puts the low byte first.
unfoldable pub word : Bytes → Result VmcoreinfoError ℕ
word (a ∷ b ∷ c ∷ d ∷ s) = ok (a + b * 2 ^ 8 + c * 2 ^ 16 + d * 2 ^ 24)
word _ = throw undefined_read

-- `strncmp` with a name and its terminator: it stops at the first byte that differs.
unfoldable pub same_name : Bytes → Bytes → Result VmcoreinfoError Bool
same_name [] s = ok true
same_name (c ∷ name) [] = throw undefined_read
same_name (c ∷ name) (d ∷ s) = let rest = same_name name s in if c == d then rest else ok false

-- (n + 3) & ~3, in 32 bits
unfoldable pub round4 : ℕ → ℕ
round4 n = (n + 3) % 2 ^ 32 / 4 * 4

pub data Kind : Type 0 where
  xen_note plain_note other_note : Kind

-- The two comparisons, of the bytes behind a header.
unfoldable pub note_kind : Bytes → Result VmcoreinfoError Kind
note_kind s = do
  xen ← same_name (codes "VMCOREINFO_XEN" ++ 0 ∷ []) s
  if xen
      then ok xen_note
      else (same_name (codes "VMCOREINFO" ++ 0 ∷ []) s >>= λ plain.
          ok (if plain then plain_note else other_note))

pub record Note : Type 0 where
  pub namesz : ℕ
  pub descsz : ℕ
  pub kind : Kind

unfoldable pub read_note : Bytes → ℕ → Result VmcoreinfoError Note
read_note buffer offset = do
  namesz ← word (drop offset buffer)
  descsz ← word (drop (offset + 4) buffer)
  kind ← note_kind (drop (offset + 12) buffer)
  ok (record { namesz = namesz; descsz = descsz; kind = kind })

-- offset_vmcoreinfo, size_vmcoreinfo and m_xenVmcoreinfo
pub record Found : Type 0 where
  pub offset : ℕ
  pub size : ℕ
  pub is_xen : Bool

unfoldable pub found_at : ℕ → Note → Found → Found
found_at offset note found = elim note.kind [
  | xen_note ↦ record {
    offset = offset + (12 + round4 note.namesz);
    size = note.descsz;
    is_xen = true;
  }
  | plain_note ↦ record {
    offset = offset + (12 + round4 note.namesz);
    size = note.descsz;
    is_xen = found.is_xen;
  }
  | other_note ↦ found
]

abbrev pub is_plain : Kind → Bool
is_plain plain_note = true
is_plain _ = false

unfoldable pub note_end : ℕ → Note → ℕ
note_end offset note = offset + (12 + round4 note.namesz + round4 note.descsz)

-- The loop. A round moves by 12 bytes at least, so as many rounds as bytes are enough.
unfoldable pub walk : ℕ → Bytes → ℕ → Found → Result VmcoreinfoError Found
walk zero buffer offset found = ok found
walk (suc f) buffer offset found =
    if ltb offset (length buffer)
    then (read_note buffer offset >>= λ note.
        if is_plain note.kind
        then ok (found_at offset note found)
        else walk f buffer (note_end offset note) (found_at offset note found))
    else ok found

unfoldable pub read_notes : Bool → Bytes → Result VmcoreinfoError (Bytes × Bool)
read_notes is_xen buffer =
    walk (length buffer) buffer 0 (record { offset = 0; size = 0; is_xen = is_xen }) >>= λ found.
    if (found.offset == 0) && (found.size == 0)
    then throw note_not_found
    else if leb (found.offset + found.size) (length buffer)
    then ok (take found.size (drop found.offset buffer), found.is_xen)
    else throw undefined_read
