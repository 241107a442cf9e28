-- ===== src/Vmcoreinfo/Segment.antt =====
-- A segment of notes, written and read back.
use kdump.Prelude.{
  ℕ, ◌+◌, ◌-◌, ◌≤◌, Bool, true, false, List, [], ◌∷◌, ◌++◌, append_assoc, append-nil, Bytes, codes,
  Result, ok, ◌==◌, ltb, leb, equal, if◌then◌else◌, length, drop, length-append, drop_append_length,
  take_append_length, drop-drop, ◌≡◌, refl, sym, ap, ◌∙◌, arith, All, Bool-cases, inl, inr,
}
use kdump.Vmcoreinfo.Info.{VmcoreinfoError}
use kdump.Vmcoreinfo.Notes.{round4, read_note, Found, found_at, is_plain, walk, read_notes}
use kdump.Vmcoreinfo.Walk.{walk_lem}
use kdump.Vmcoreinfo.Encoded.{
  NoteText, zeros, note_text, IsNote, kind_of, header, read_note-note_text, note_end-note_text,
  length-note_text,
}

abbrev pub notes_text : List NoteText → Bytes
notes_text [] = []
notes_text (n ∷ ns) = note_text n ++ notes_text ns

-- Any note but VMCOREINFO itself.
abbrev pub IsOther : NoteText → Type 0
IsOther n = IsNote n × (is_plain (kind_of n.name) ≡ false)

-- Whether Xen's note is among them.
abbrev pub xen_seen : Bool → List NoteText → Bool
xen_seen x [] = x
xen_seen x (n ∷ ns) = xen_seen (if equal (codes "VMCOREINFO_XEN") n.name then true else x) ns

abbrev pub info_note : ℕ → Bytes → NoteText
info_note type desc = record { name = codes "VMCOREINFO"; type = type; desc = desc }

is_xen-found_at :
    (offset : ℕ) (n : NoteText) (found : Found)
    → IsOther n
    → (found_at offset (header n) found).is_xen
      ≡ (if equal (codes "VMCOREINFO_XEN") n.name then true else found.is_xen)
unfolding found_at
is_xen-found_at offset n found (_, other) =
    elim (Bool-cases (equal (codes "VMCOREINFO_XEN") n.name)) [
      | inl e ↦ rw e
      | inr e ↦ elim (Bool-cases (equal (codes "VMCOREINFO") n.name)) [
        | inl e' ↦ let bad : true ≡ false = rw (e, e') at other in cc
        | inr e' ↦ rw (e, e')
      ]
    ]

inside :
    (p : Bytes) (n : NoteText) (r : Bytes)
    → IsNote n
    → ltb (length p) (length (p ++ (note_text n ++ r))) ≡ true
inside p n r h =
    let a = length-append p (note_text n ++ r) in
    let b = length-append (note_text n) r in let c = length-note_text n h in ground arith

-- The walk from a note that is not VMCOREINFO goes on behind it.
walk_past :
    (b p : Bytes) (n : NoteText) (r : Bytes) (found : Found)
    → b ≡ p ++ (note_text n ++ r)
    → IsOther n
    → walk (length b) b (length p) found
      ≡ walk (length b) b (length (p ++ note_text n)) (found_at (length p) (header n) found)
walk_past b p n r found e (h, other) =
    let i : ltb (length p) (length b) ≡ true = rw e (inside p n r h) in
    let note : read_note b (length p) ≡ ok (header n) = rw e (read_note-note_text p n r h) in
    walk_lem b (length p) found ∙ rw (i, note) (rw (other, note_end-note_text p n h))

walk_to :
    (b p : Bytes) (n : NoteText) (r : Bytes) (found : Found)
    → b ≡ p ++ (note_text n ++ r)
    → IsNote n
    → is_plain (kind_of n.name) ≡ true
    → walk (length b) b (length p) found ≡ ok (found_at (length p) (header n) found)
walk_to b p n r found e h plain =
    let i : ltb (length p) (length b) ≡ true = rw e (inside p n r h) in
    let note : read_note b (length p) ≡ ok (header n) = rw e (read_note-note_text p n r h) in
    walk_lem b (length p) found ∙ rw (i, note) (rw plain)

abbrev result : ℕ → Bytes → Bool → Result VmcoreinfoError Found
result start desc x =
    ok (record { offset = start + (12 + round4 11); size = length desc; is_xen = x })

walk_notes :
    (b p : Bytes) (others : List NoteText) (type : ℕ) (desc r : Bytes) (found : Found)
    → b ≡ p ++ (notes_text others ++ (note_text (info_note type desc) ++ r))
    → All IsOther others
    → IsNote (info_note type desc)
    → walk (length b) b (length p) found
      ≡ result (length (p ++ notes_text others)) desc (xen_seen found.is_xen others)
walk_notes b p [] type desc r found e h i =
    walk_to b p (info_note type desc) r found e i (unfold equal in refl)
    ∙ rw (append-nil p) (unfold found_at equal in refl)
walk_notes b p (n ∷ ns) type desc r found e (hn, h) i =
    let tail = notes_text ns ++ (note_text (info_note type desc) ++ r) in
    let e1 : b ≡ p ++ (note_text n ++ tail) =
      e
      ∙ ap (◌++◌ p)
          (append_assoc (note_text n) (notes_text ns) (note_text (info_note type desc) ++ r)) in
    let e2 : b ≡ (p ++ note_text n) ++ tail = e1 ∙ sym (append_assoc p (note_text n) tail) in
    let rest =
      walk_notes b (p ++ note_text n) ns type desc r (found_at (length p) (header n) found) e2 h
        i in
    walk_past b p n tail found e1 hn
    ∙ rest
    ∙ rw (is_xen-found_at (length p) n found hn, append_assoc p (note_text n) (notes_text ns))

-- The descriptor in a segment, behind the notes before it.
descriptor :
    (others : List NoteText) (type : ℕ) (desc r : Bytes)
    → IsNote (info_note type desc)
    → drop
        (length (notes_text others) + (12 + round4 11))
        (notes_text others ++ (note_text (info_note type desc) ++ r))
      ≡ desc ++ (zeros (round4 (length desc) - length desc) ++ r)
unfolding round4
descriptor others type desc r h =
    let tail = note_text (info_note type desc) ++ r in
    sym (drop-drop (length (notes_text others)) 24 (notes_text others ++ tail))
    ∙ ap (drop 24) (drop_append_length (notes_text others) tail)
    ∙ append_assoc desc (zeros (round4 (length desc) - length desc)) r

descriptor_fits :
    (others : List NoteText) (type : ℕ) (desc r : Bytes)
    → IsNote (info_note type desc)
    → length (notes_text others) + (12 + round4 11) + length desc
      ≤ length (notes_text others ++ (note_text (info_note type desc) ++ r))
descriptor_fits others type desc r h =
    let n = info_note type desc in
    let a = length-append (notes_text others) (note_text n ++ r) in
    let b = length-append (note_text n) r in
    let c : length (note_text n) ≡ 12 + round4 11 + round4 (length desc) = length-note_text n h in
    let (_, _, small) = h in
    let d : length desc ≤ round4 (length desc) = unfold round4 in omega arith in omega arith

-- From a segment that holds any notes but VMCOREINFO, then a VMCOREINFO note, then anything, the
-- descriptor of that note is read, whole, and that the file is Xen's if one of the notes before is
-- (or if it was known). The names hold no NUL, and the sizes are in 32 bits with their filling.
pub read_notes-notes_text :
    (x : Bool) (others : List NoteText) (type : ℕ) (desc r : Bytes)
    → All IsOther others
    → IsNote (info_note type desc)
    → read_notes x (notes_text others ++ (note_text (info_note type desc) ++ r))
      ≡ ok (desc, xen_seen x others)
unfolding read_notes
read_notes-notes_text x others type desc r h i =
    let b = notes_text others ++ (note_text (info_note type desc) ++ r) in
    let start : Found = record { offset = 0; size = 0; is_xen = x } in
    let e = walk_notes b [] others type desc r start refl h i in
    let offset = length (notes_text others) + (12 + round4 11) in
    let there : (offset == 0) ≡ false = ground arith in
    let fits = descriptor_fits others type desc r i in
    let fits' : leb (offset + length desc) (length b) ≡ true = ground arith in
    let d = descriptor others type desc r i in
    rw (read_notes, e)
      (rw there (
        rw fits'
          (rw d (rw (take_append_length desc (zeros (round4 (length desc) - length desc) ++ r))))))
