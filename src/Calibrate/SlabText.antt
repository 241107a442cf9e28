-- ===== src/Calibrate/SlabText.antt =====
-- A line of /proc/slabinfo, written and read.
use kdump.Prelude.{
  ℕ, zero, suc, ◌-◌, ◌<◌, ◌^◌, length, Bool, true, false, not, [], ◌∷◌, ◌++◌, ◌≡◌, refl, sym, ap,
  ◌∙◌, arith, Bytes, Result, ok, ◌>>=◌, ◌==◌, isspace, All,
}
use kdump.Prelude.Int.{pos}
use kdump.KString.Number.{number2string}
use kdump.Calibrate.Cpus.{skip_spaces, got, read_number}
use kdump.Calibrate.Numbers.{no_digit, read_number-text}
use kdump.Calibrate.Slabs.{
  slabdata_mark, SlabInfo, slab, SlabError, until_space, valid_number, number, slab_data,
  slab_fields, slab_info,
}
use kdump.Calibrate.SlabMark.{spaces, padded, field, Tunables, tunables_text, behind_mark-tunables}

abbrev data_text : SlabInfo → Tunables → Bytes
data_text si t = padded 6 si.active_slabs (field 6 si.num_slabs (field 6 t.shared_avail []))

abbrev fields_text : SlabInfo → Tunables → Bytes
fields_text si t = field 6 si.active_objs (
    field 6 si.num_objs (
      field 6 si.obj_size (
        field 4 si.obj_per_slab
          (field 4 si.pages_per_slab (tunables_text t (slabdata_mark ++ data_text si t))))))

-- A line of the kernel's: "%-17s %6lu %6lu %6u %4u %4d", " : tunables %4u %4u %4u" and
-- " : slabdata %6lu %6lu %6lu".
abbrev pub slab_text : SlabInfo → Tunables → Bytes
slab_text si t = si.name ++ (spaces (17 - length si.name) ++ fields_text si t)

-- A name without spaces that does not start with '#', and fields that are unsigned longs.
abbrev name_fits : Bytes → Bool
name_fits [] = false
name_fits (c ∷ s) = not (c == b'#')

abbrev pub IsWritten : SlabInfo → Type 0
IsWritten si =
    (name_fits si.name ≡ true)
    × All (λ c. isspace c ≡ false) si.name
    × (si.active_objs < 2 ^ 64)
    × (si.num_objs < 2 ^ 64)
    × (si.obj_size < 2 ^ 64)
    × (si.obj_per_slab < 2 ^ 64)
    × (si.pages_per_slab < 2 ^ 64)
    × (si.active_slabs < 2 ^ 64)
    × (si.num_slabs < 2 ^ 64)

until_space-append :
    (word s : Bytes)
    → All (λ c. isspace c ≡ false) word
    → until_space (word ++ b' ' ∷ s) ≡ (word, b' ' ∷ s)
unfolding until_space
until_space-append [] s h = refl
until_space-append (c ∷ word) s (h, hs) = rw h (rw (until_space-append word s hs) refl)

read_number_space : (s : Bytes) → read_number (b' ' ∷ s) ≡ read_number s
unfolding read_number skip_spaces
read_number_space s = refl

valid_number-got : (n : ℕ) (s : Bytes) → valid_number (got n s) ≡ ok (n, s)
unfolding valid_number
valid_number-got n s = refl

read_number-spaces : (k : ℕ) (s : Bytes) → read_number (spaces k ++ s) ≡ read_number s
unfolding spaces
read_number-spaces zero s = refl
read_number-spaces (suc k) s = read_number_space (spaces k ++ s) ∙ read_number-spaces k s

number-padded :
    (w n : ℕ) (s : Bytes) → n < 2 ^ 64 → no_digit s ≡ true → number (padded w n s) ≡ ok (n, s)
number-padded w n s lt stops =
    let read =
      read_number-spaces (w - length (number2string (pos n))) (number2string (pos n) ++ s)
      ∙ read_number-text n s lt stops in
    unfold number in ap valid_number read ∙ valid_number-got n s

number-field :
    (w n : ℕ) (s : Bytes) → n < 2 ^ 64 → no_digit s ≡ true → number (field w n s) ≡ ok (n, s)
number-field w n s lt stops =
    let read = read_number_space (padded w n s) in
    unfold number in ap valid_number read ∙ (unfold number in number-padded w n s lt stops)

bind-ok :
    {A B : Type 0} (m : Result SlabError A) (next : A → Result SlabError B) (a : A) (b : B)
    → m ≡ ok a
    → next a ≡ ok b
    → (m >>= next) ≡ ok b
bind-ok m next a b h e = ap (λ r. r >>= next) h ∙ e

slab_data-text :
    (si : SlabInfo) (t : Tunables) (active num : ℕ)
    → active < 2 ^ 64
    → num < 2 ^ 64
    → slab_data si (padded 6 active (field 6 num (field 6 t.shared_avail [])))
      ≡ ok (slab (record si { active_slabs = active; num_slabs = num }))
unfolding slab_data
slab_data-text si t active num ha hn =
    let done_all = slab (record si { active_slabs = active; num_slabs = num }) in
    bind-ok _ _ (active, _) done_all (number-padded 6 active _ ha refl)
      (bind-ok _ _ (num, _) done_all (number-field 6 num _ hn refl) refl)

-- The fields behind the name are read.
slab_fields-text :
    (si : SlabInfo) (t : Tunables) (s : Bytes)
    → IsWritten si
    → number s ≡ number (fields_text si t)
    → slab_fields si.name s ≡ ok (slab si)
unfolding slab_fields
slab_fields-text si t s (named, apart, h1, h2, h3, h4, h5, h6, h7) same =
    let empty : SlabInfo = record si { active_slabs = 0; num_slabs = 0 } in
    bind-ok _ _ (si.active_objs, _) (slab si) (same ∙ number-field 6 si.active_objs _ h1 refl)
      (bind-ok _ _ (si.num_objs, _) (slab si) (number-field 6 si.num_objs _ h2 refl)
        (bind-ok _ _ (si.obj_size, _) (slab si) (number-field 6 si.obj_size _ h3 refl)
          (bind-ok _ _ (si.obj_per_slab, _) (slab si) (number-field 4 si.obj_per_slab _ h4 refl)
            (bind-ok _ _ (si.pages_per_slab, _) (slab si)
              (number-field 4 si.pages_per_slab _ h5 refl)
              (bind-ok _ (slab_data empty) (data_text si t) (slab si)
                (behind_mark-tunables t (data_text si t))
                (slab_data-text empty t si.active_slabs si.num_slabs h6 h7))))))

slab_info-named :
    (name rest : Bytes)
    → name_fits name ≡ true
    → All (λ c. isspace c ≡ false) name
    → slab_info (name ++ b' ' ∷ rest) ≡ slab_fields name (b' ' ∷ rest)
unfolding slab_info
slab_info-named [] rest fits h = absurd (cc)
slab_info-named (c ∷ name) rest fits (h, hs) =
    let skipped : skip_spaces ((c ∷ name) ++ b' ' ∷ rest) ≡ (c ∷ name) ++ b' ' ∷ rest =
      unfold skip_spaces in rw h refl in
    let word = until_space-append (c ∷ name) rest (h, hs) in
    let other : (c == b'#') ≡ false = ground arith in rw skipped (rw word (rw other refl))

-- The padding of the name, in front of the space of the first field.
padding : (k : ℕ) (s : Bytes) → spaces k ++ b' ' ∷ s ≡ b' ' ∷ (spaces k ++ s)
unfolding spaces
padding zero s = refl
padding (suc k) s = ap (◌∷◌ b' ') (padding k s)

-- A line of /proc/slabinfo, in the format that the kernel writes it with (columns padded with spaces,
-- the tunables in front of the slab data), is read back: every field, whatever the tunables are, where
-- the name has no spaces and does not start with '#', and the numbers are unsigned longs.
pub slab_info-text :
    (si : SlabInfo) (t : Tunables) → IsWritten si → slab_info (slab_text si t) ≡ ok (slab si)
slab_info-text si t h =
    let k = 17 - length si.name in
    let rest = padded 6 si.active_objs (
      field 6 si.num_objs (
        field 6 si.obj_size (
          field 4 si.obj_per_slab
            (field 4 si.pages_per_slab (tunables_text t (slabdata_mark ++ data_text si t)))))) in
    let same : number (b' ' ∷ (spaces k ++ rest)) ≡ number (fields_text si t) =
      (unfold number in
        ap valid_number (
          read_number_space (spaces k ++ rest)
          ∙ read_number-spaces k rest
          ∙ sym (read_number_space rest))) in
    ap (λ s. slab_info (si.name ++ s)) (padding k rest)
    ∙ slab_info-named si.name (spaces k ++ rest) h.0 h.1
    ∙ slab_fields-text si t (b' ' ∷ (spaces k ++ rest)) h same
