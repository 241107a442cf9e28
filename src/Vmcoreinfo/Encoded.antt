-- ===== src/Vmcoreinfo/Encoded.antt =====
-- The notes of a segment, written and read back.
use kdump.Prelude.{
  ℕ, zero, suc, ◌+◌, ◌-◌, ◌/◌, ◌%◌, ◌^◌, ◌<◌, false, [], ◌∷◌, ◌++◌, append_assoc, Bytes, codes, ok,
  ◌==◌, equal, if◌then◌else◌, length, drop, length-append, drop_append_length, drop-drop, ◌≡◌, refl,
  sym, ap, ◌∙◌, arith, Bool-cases, inl, inr,
}
use kdump.KString.Search.{Lacks}
use kdump.Vmcoreinfo.Notes.{
  word, same_name, round4, Kind, xen_note, plain_note, other_note, note_kind, Note, read_note,
  note_end,
}

abbrev pub le32 : ℕ → Bytes
le32 v = v % 256 ∷ v / 2 ^ 8 % 256 ∷ v / 2 ^ 16 % 256 ∷ v / 2 ^ 24 % 256 ∷ []

word-le32 : (v : ℕ) (r : Bytes) → v < 2 ^ 32 → word (le32 v ++ r) ≡ ok v
unfolding word
word-le32 v r h = ap ok (omega arith)

-- Strings with a terminator are told apart whatever stands behind them.
same_name-equal :
    (t n r : Bytes) → Lacks 0 t → Lacks 0 n → same_name (t ++ 0 ∷ []) (n ++ 0 ∷ r) ≡ ok (equal t n)
unfolding same_name equal
same_name-equal [] [] r h k = refl
same_name-equal [] (d ∷ n) r h (k, _) = let e : (0 == d) ≡ false = ground arith in rw e
same_name-equal (c ∷ t) [] r (h, _) k = let e : (c == 0) ≡ false = ground arith in rw e
same_name-equal (c ∷ t) (d ∷ n) r (_, h) (_, k) =
    let rest = same_name-equal t n r h k in
    elim (Bool-cases (c == d)) [ inl e ↦ rw rest (rw e) | inr e ↦ rw rest (rw e) ]

abbrev pub zeros : ℕ → Bytes
zeros zero = []
zeros (suc n) = 0 ∷ zeros n

-- A note's name with its terminator, and its descriptor, each filled up to four bytes.
pub record NoteText : Type 0 where
  pub name : Bytes
  pub type : ℕ
  pub desc : Bytes

abbrev pub filled : Bytes → Bytes
filled s = s ++ zeros (round4 (length s) - length s)

abbrev pub note_text : NoteText → Bytes
note_text n =
    le32 (length n.name + 1)
    ++ le32 (length n.desc)
    ++ le32 n.type
    ++ filled (n.name ++ 0 ∷ [])
    ++ filled n.desc

length-zeros : (n : ℕ) → length (zeros n) ≡ n
length-zeros zero = refl
length-zeros (suc n) = ap suc (length-zeros n)

pub length-filled : (s : Bytes) → length s + 3 < 2 ^ 32 → length (filled s) ≡ round4 (length s)
unfolding round4
length-filled s h =
    let z = length-zeros (round4 (length s) - length s) in
    let a = length-append s (zeros (round4 (length s) - length s)) in omega (arith, a, z)

-- No NUL in the name, and sizes that 32 bits hold with the filling.
abbrev pub IsNote : NoteText → Type 0
IsNote n = Lacks 0 n.name × (length n.name + 4 < 2 ^ 32) × (length n.desc + 3 < 2 ^ 32)

abbrev pub kind_of : Bytes → Kind
kind_of name =
    if equal (codes "VMCOREINFO_XEN") name
    then xen_note
    else if equal (codes "VMCOREINFO") name
    then plain_note
    else other_note

pub xen_name-Lacks : Lacks 0 (codes "VMCOREINFO_XEN")
xen_name-Lacks = (
  omega arith,
  (
    omega arith,
    (
      omega arith,
      (
        omega arith,
        (
          omega arith,
          (
            omega arith,
            (
              omega arith,
              (
                omega arith,
                (
                  omega arith,
                  (omega arith, (omega arith, (omega arith, (omega arith, (omega arith, tt))))),
                ),
              ),
            ),
          ),
        ),
      ),
    ),
  ),
)

pub info_name-Lacks : Lacks 0 (codes "VMCOREINFO")
info_name-Lacks = (
  omega arith,
  (
    omega arith,
    (
      omega arith,
      (
        omega arith,
        (
          omega arith,
          (omega arith, (omega arith, (omega arith, (omega arith, (omega arith, tt))))),
        ),
      ),
    ),
  ),
)

note_kind-name : (n r : Bytes) → Lacks 0 n → note_kind (n ++ 0 ∷ r) ≡ ok (kind_of n)
unfolding note_kind
note_kind-name n r h =
    let xen = same_name-equal (codes "VMCOREINFO_XEN") n r xen_name-Lacks h in
    let plain = same_name-equal (codes "VMCOREINFO") n r info_name-Lacks h in
    elim (Bool-cases (equal (codes "VMCOREINFO_XEN") n)) [
      | inl e ↦ rw xen (rw e)
      | inr e ↦ elim (Bool-cases (equal (codes "VMCOREINFO") n)) [
        | inl e' ↦ rw (xen, plain) (rw e (rw e'))
        | inr e' ↦ rw (xen, plain) (rw e (rw e'))
      ]
    ]

abbrev pub header : NoteText → Note
header n = record { namesz = length n.name + 1; descsz = length n.desc; kind = kind_of n.name }

behind_name : (n z d r : Bytes) → (((n ++ 0 ∷ []) ++ z) ++ d) ++ r ≡ n ++ 0 ∷ (z ++ (d ++ r))
behind_name n z d r =
    append_assoc ((n ++ 0 ∷ []) ++ z) d r
    ∙ append_assoc (n ++ 0 ∷ []) z (d ++ r)
    ∙ append_assoc n (0 ∷ []) (z ++ (d ++ r))

pub read_note-note_text :
    (p : Bytes) (n : NoteText) (r : Bytes)
    → IsNote n
    → read_note (p ++ (note_text n ++ r)) (length p) ≡ ok (header n)
unfolding read_note
read_note-note_text p n r (lacks, name_fits, desc_fits) =
    let b = p ++ (note_text n ++ r) in
    let at0 : drop (length p) b ≡ note_text n ++ r = drop_append_length p (note_text n ++ r) in
    let at4 : drop (length p + 4) b ≡ drop 4 (note_text n ++ r) =
      sym (drop-drop (length p) 4 b) ∙ ap (drop 4) at0 in
    let at12 : drop (length p + 12) b ≡ drop 12 (note_text n ++ r) =
      sym (drop-drop (length p) 12 b) ∙ ap (drop 12) at0 in
    let w0 : word (note_text n ++ r) ≡ ok (length n.name + 1) =
      word-le32 (length n.name + 1) _ (omega arith) in
    let w4 : word (drop 4 (note_text n ++ r)) ≡ ok (length n.desc) =
      word-le32 (length n.desc) _ (omega arith) in
    let k : note_kind (drop 12 (note_text n ++ r)) ≡ ok (kind_of n.name) =
      ap note_kind (behind_name n.name _ (filled n.desc) r) ∙ note_kind-name n.name _ lacks in
    rw (at0, at4, at12, w0, w4, k)

pub length-note_text :
    (n : NoteText)
    → IsNote n
    → length (note_text n) ≡ 12 + round4 (length n.name + 1) + round4 (length n.desc)
length-note_text n (_, name_fits, desc_fits) =
    let full = n.name ++ 0 ∷ [] in
    let l = length-append n.name (0 ∷ []) in
    let a = length-filled full (omega arith) in
    let a' : length (filled full) ≡ round4 (length n.name + 1) = a ∙ ap round4 (omega arith) in
    let b = length-filled n.desc desc_fits in
    let c = length-append (filled full) (filled n.desc) in omega arith

pub note_end-note_text :
    (p : Bytes) (n : NoteText)
    → IsNote n
    → note_end (length p) (header n) ≡ length (p ++ note_text n)
unfolding note_end
note_end-note_text p n h = omega (arith, length-append p (note_text n), length-note_text n h)
