-- ===== src/Vmcoreinfo/Tests.antt =====
-- Runs on a note and on its text.
use kdump.Prelude.{List, ◌++◌, ◌∷◌, [], false, Bytes, codes, ok, throw, ◌≡◌, refl, arith, equal}
use kdump.Prelude.Int.{pos}
use kdump.Prelude.Dict.{lookup, insert}
use kdump.KString.Search.{find}
use kdump.KString.Split.{split}
use kdump.KString.Trim.{trim}
use kdump.KString.Number.{as_int}
use kdump.Vmcoreinfo.Info.{
  set_line, add_line, add_lines, read_text, get_string_value, get_int_value, key_not_found,
  note_not_found, undefined_read,
}
use kdump.Vmcoreinfo.Notes.{
  word, same_name, round4, note_kind, read_note, found_at, note_end, walk, read_notes,
}
use kdump.Vmcoreinfo.Encoded.{NoteText, note_text, xen_name-Lacks, info_name-Lacks}
use kdump.Vmcoreinfo.Segment.{notes_text, xen_seen, info_note, read_notes-notes_text}

abbrev note : Bytes
note = codes "OSRELEASE=5.3\n\nNUMBER(x)=42\nSYMBOL"

text_runs :
    (get_string_value (codes "OSRELEASE") (read_text [] note) ≡ ok (codes "5.3"))
    × (get_int_value (codes "NUMBER(x)") (read_text [] note) ≡ ok (pos 42))
    × (get_string_value (codes "SYMBOL") (read_text [] note) ≡ throw key_not_found)
unfolding get_string_value get_int_value read_text add_lines add_line set_line lookup insert find
    split trim as_int equal
text_runs = (refl, refl, refl)

abbrev core : Bytes
core =
    5
    ∷ 0
    ∷ 0
    ∷ 0
    ∷ 2
    ∷ 0
    ∷ 0
    ∷ 0
    ∷ 1
    ∷ 0
    ∷ 0
    ∷ 0
    ∷ (codes "CORE" ++ 0 ∷ 0 ∷ 0 ∷ 0 ∷ 9 ∷ 9 ∷ 0 ∷ 0 ∷ [])

abbrev info : Bytes
info =
    11
    ∷ 0
    ∷ 0
    ∷ 0
    ∷ 3
    ∷ 0
    ∷ 0
    ∷ 0
    ∷ 0
    ∷ 0
    ∷ 0
    ∷ 0
    ∷ (codes "VMCOREINFO" ++ 0 ∷ 0 ∷ (codes "A=1" ++ 0 ∷ []))

note_runs :
    (read_notes false (core ++ info) ≡ ok (codes "A=1", false))
    × (read_notes false core ≡ throw note_not_found)
    × (read_notes false (5 ∷ 0 ∷ []) ≡ throw undefined_read)
unfolding read_notes walk read_note word note_kind same_name round4 found_at note_end
note_runs = (refl, refl, refl)

abbrev notes_before : List NoteText
notes_before =
    record { name = codes "CORE"; type = 1; desc = 9 ∷ 9 ∷ [] }
    ∷ record { name = codes "VMCOREINFO_XEN"; type = 0; desc = codes "X=1" }
    ∷ []

read_notes-notes_text_example :
    read_notes false (notes_text notes_before ++ (note_text (info_note 0 (codes "A=1")) ++ 7 ∷ []))
    ≡ ok (codes "A=1", xen_seen false notes_before)
read_notes-notes_text_example =
    read_notes-notes_text false notes_before 0 (codes "A=1") (7 ∷ [])
      (
        (
          (
            (omega arith, (omega arith, (omega arith, (omega arith, tt)))),
            omega arith,
            omega arith,
          ),
          unfold equal in refl,
        ),
        (((xen_name-Lacks, omega arith, omega arith), unfold equal in refl), tt),
      )
      (info_name-Lacks, omega arith, omega arith)
