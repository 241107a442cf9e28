-- ===== src/Mounts/Rows.antt =====
-- The output of lsblk, written and read.
use kdump.Prelude.{
  ℕ, zero, suc, ◌≤◌, false, List, [], ◌∷◌, ◌++◌, ◌≡◌, refl, ap, ◌∙◌, some, arith, Bytes, length,
  take, drop, take_append_length, length-append, All,
}
use kdump.Prelude.Dict.{insert}
use kdump.Prelude.Effects.{done}
use kdump.KString.Search.{find, find-append, Lacks, drop_behind}
use kdump.Mounts.Devices.{
  Devices, is_eol, cut_line, skip_eol, add_row, add_line, parse_lsblk, TypeMap, Outside, lsblk_args,
  is_empty_list, devices,
}

-- Text of one line.
abbrev pub InLine : Bytes → Type 0
InLine = All (λ c. is_eol c ≡ false)

-- A type without a space, and a path.
abbrev pub IsRow : Bytes × Bytes → Type 0
IsRow row = InLine row.0 × Lacks b' ' row.0 × InLine row.1

abbrev row_line : Bytes × Bytes → Bytes
row_line row = row.0 ++ b' ' ∷ row.1

abbrev pub rows_text : List (Bytes × Bytes) → Bytes
rows_text [] = []
rows_text (row ∷ rows) = (row.0 ++ b' ' ∷ row.1) ++ 10 ∷ rows_text rows

abbrev pub insert_rows : List (Bytes × Bytes) → Devices → Devices
insert_rows [] ds = ds
insert_rows (row ∷ rows) ds = insert_rows rows (insert row.1 row.0 ds)

cut_line-append :
    (line rest : Bytes) → InLine line → cut_line (line ++ 10 ∷ rest) ≡ (line, 10 ∷ rest)
unfolding cut_line
cut_line-append [] rest h = refl
cut_line-append (c ∷ line) rest (h, hs) = rw h (rw (cut_line-append line rest hs) refl)

InLine-row : (row : Bytes × Bytes) → IsRow row → InLine (row_line row)
InLine-row (t, p) (ht, hl, hp) = go t ht
  where
    go : (t : Bytes) → InLine t → InLine (t ++ b' ' ∷ p)
    go [] h = (refl, hp)
    go (c ∷ t) (h, hs) = (h, go t hs)

skip_eol-rows :
    (rows : List (Bytes × Bytes)) → All IsRow rows → skip_eol (rows_text rows) ≡ rows_text rows
unfolding skip_eol
skip_eol-rows [] h = refl
skip_eol-rows (([], p) ∷ rows) h = refl
skip_eol-rows ((c ∷ t, p) ∷ rows) (((h, ht), hl, hp), hs) = rw h refl

add_line-found :
    (line : Bytes) (sep : ℕ) (ds : Devices)
    → find line b' ' ≡ some sep
    → add_line line ds ≡ insert (drop (suc sep) line) (take sep line) ds
add_line-found line sep ds h = unfold add_line in ap (add_row line ds) h ∙ (unfold add_row in refl)

add_line-row :
    (row : Bytes × Bytes) (ds : Devices)
    → IsRow row
    → add_line (row_line row) ds ≡ insert row.1 row.0 ds
add_line-row (t, p) ds (ht, hl, hp) =
    add_line-found (t ++ b' ' ∷ p) (length t) ds (find-append b' ' t p hl)
    ∙ (ap (λ path. insert path (take (length t) (t ++ b' ' ∷ p)) ds) (drop_behind t b' ' p)
        ∙ ap (λ type. insert p type ds) (take_append_length t (b' ' ∷ p)))

parse_lsblk-line :
    (f : ℕ) (line rest : Bytes) (ds : Devices)
    → InLine line
    → parse_lsblk (suc f) (line ++ 10 ∷ rest) ds
      ≡ parse_lsblk f (skip_eol (10 ∷ rest)) (add_line line ds)
unfolding parse_lsblk
parse_lsblk-line f [] rest ds h = refl
parse_lsblk-line f (c ∷ line) rest ds h = rw (cut_line-append (c ∷ line) rest h) refl

parse_lsblk-rows :
    (f : ℕ) (rows : List (Bytes × Bytes)) (ds : Devices)
    → All IsRow rows
    → length (rows_text rows) ≤ f
    → parse_lsblk f (rows_text rows) ds ≡ insert_rows rows ds
parse_lsblk-rows zero [] ds h le = unfold parse_lsblk in refl
parse_lsblk-rows (suc f) [] ds h le = unfold parse_lsblk in refl
parse_lsblk-rows zero (row ∷ rows) ds h le =
    let long = length-append (row_line row) (10 ∷ rows_text rows) in absurd (omega arith)
parse_lsblk-rows (suc f) (row ∷ rows) ds (h, hs) le =
    let long = length-append (row_line row) (10 ∷ rows_text rows) in
    let line = parse_lsblk-line f (row_line row) (rows_text rows) ds (InLine-row row h) in
    let skipped : skip_eol (10 ∷ rows_text rows) ≡ rows_text rows =
      unfold skip_eol in skip_eol-rows rows hs in
    line
    ∙ (ap (λ s. parse_lsblk f s (add_line (row_line row) ds)) skipped
        ∙ (ap (λ d. parse_lsblk f (rows_text rows) d) (add_line-row row ds h)
            ∙ parse_lsblk-rows f rows (insert row.1 row.0 ds) hs (omega arith)))

-- The types that lsblk prints are the ones that the devices get: where it prints rows of a type
-- without a space and a path, each path of a row is mapped to the row's type, in their order; lsblk
-- is run if there are sources.
pub devices-rows :
    (o : Outside) (tm : TypeMap) (rows : List (Bytes × Bytes))
    → is_empty_list tm.sources ≡ false
    → o.lsblk (lsblk_args ++ tm.sources) ≡ some (rows_text rows)
    → All IsRow rows
    → devices o tm
      ≡ done (insert_rows rows tm.devices) (record tm { devices = insert_rows rows tm.devices })
unfolding devices
devices-rows o tm rows any printed h =
    let found = parse_lsblk-rows (length (rows_text rows)) rows tm.devices h (omega arith) in
    rw any (rw printed (rw found refl))
