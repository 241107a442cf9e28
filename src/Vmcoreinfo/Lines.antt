-- ===== src/Vmcoreinfo/Lines.antt =====
-- The text of a VMCOREINFO note, written and read back.
use kdump.Prelude.{
  ℕ, false, List, [], ◌∷◌, ◌++◌, map, Bytes, ◌==◌, ◌≡◌, ◌≢◌, refl, ap, ◌∙◌, arith, contains, All,
  All-append, take_append_length,
}
use kdump.Prelude.Dict.{insert}
use kdump.KString.Search.{Lacks, find-append, drop_behind}
use kdump.KString.Split.{join, split-join}
use kdump.KString.Trim.{LastKept, trim_kept}
use kdump.Vmcoreinfo.Info.{Values, blanks, set_line, add_line, add_lines, read_text}

abbrev pub line_text : Bytes × Bytes → Bytes
line_text (key, value) = key ++ b'=' ∷ value

abbrev pub text : List (Bytes × Bytes) → Bytes
text entries = join b'\n' (map line_text entries)

-- Neither holds a newline; the key holds no '=', and is not empty; the first byte is no blank and
-- no NUL, and the last byte of the value is no blank.
abbrev pub IsEntry : Bytes × Bytes → Type 0
IsEntry ([], value) = ⊥
IsEntry (c ∷ s, value) =
    (contains blanks c ≡ false)
    × (c ≢ 0)
    × Lacks b'=' (c ∷ s)
    × Lacks b'\n' (c ∷ s)
    × Lacks b'\n' value
    × LastKept blanks (b'=' ∷ value)

abbrev pub set_all : Values → List (Bytes × Bytes) → Values
set_all m [] = m
set_all m ((key, value) ∷ entries) = set_all (insert key value m) entries

kept_behind :
    (p : Bytes) (c : ℕ) (r : Bytes) → LastKept blanks (c ∷ r) → LastKept blanks (p ++ c ∷ r)
kept_behind [] c r h = h
kept_behind (x ∷ []) c r h = h
kept_behind (x ∷ y ∷ p) c r h = kept_behind (y ∷ p) c r h

set_line-append :
    (m : Values) (c : ℕ) (s value : Bytes)
    → c ≢ 0
    → Lacks b'=' (c ∷ s)
    → set_line m ((c ∷ s) ++ b'=' ∷ value) ≡ insert (c ∷ s) value m
unfolding set_line
set_line-append m c s value nul equal =
    let n : (c == 0) ≡ false = ground arith in
    rw n (
      rw (find-append b'=' (c ∷ s) value equal)
        (rw (drop_behind s b'=' value, take_append_length s (b'=' ∷ value))))

add_line-line_text :
    (m : Values) (key value : Bytes)
    → IsEntry (key, value)
    → add_line m (line_text (key, value)) ≡ insert key value m
unfolding add_line
add_line-line_text m [] value h = elim h [ ]
add_line-line_text m (c ∷ s) value (first, nul, equal, _, _, last) =
    ap (set_line m)
      (trim_kept blanks ((c ∷ s) ++ b'=' ∷ value) first (kept_behind (c ∷ s) b'=' value last))
    ∙ set_line-append m c s value nul equal

lines_Lack :
    (entries : List (Bytes × Bytes))
    → All IsEntry entries
    → All (Lacks b'\n') (map line_text entries)
lines_Lack [] h = tt
lines_Lack (([], value) ∷ entries) (x, h) = elim x [ ]
lines_Lack ((c ∷ s, value) ∷ entries) ((_, _, _, k, v, _), h) =
    (All-append (λ x. x ≢ b'\n') (c ∷ s) (b'=' ∷ value) k (omega arith, v), lines_Lack entries h)

add_lines-text :
    (m : Values) (entries : List (Bytes × Bytes))
    → All IsEntry entries
    → add_lines m (map line_text entries) ≡ set_all m entries
unfolding add_lines
add_lines-text m [] h = refl
add_lines-text m ((key, value) ∷ entries) (x, h) =
    rw (add_lines, add_line-line_text m key value x) (add_lines-text (insert key value m) entries h)

-- The lines that are written for keys and values, one at least, set each key to its value, in their
-- order, and nothing else.
pub read_text-text :
    (m : Values) (entry : Bytes × Bytes) (entries : List (Bytes × Bytes))
    → All IsEntry (entry ∷ entries)
    → read_text m (text (entry ∷ entries)) ≡ set_all m (entry ∷ entries)
unfolding read_text
read_text-text m entry entries h =
    let parts =
      split-join (map line_text (entry ∷ entries)) b'\n' (λ e. cc)
        (lines_Lack (entry ∷ entries) h) in
    rw (read_text, parts) (add_lines-text m (entry ∷ entries) h)
