-- ===== src/Calibrate/Slabs.antt =====
-- `SlabInfo` and `SlabInfos`: /proc/slabinfo.
use kdump.Prelude.{
  ℕ, zero, suc, ◌-◌, ◌%◌, ◌^◌, Bool, true, false, ◌||◌, not, List, [], ◌∷◌, Option, none, some,
  Bytes, codes, Result, ok, throw, ◌>>=◌, ◌==◌, ltb, if◌then◌else◌, length, drop, isdigit, isspace,
  is_empty,
}
use kdump.Prelude.Dict.{insert}
use kdump.KString.Search.{starts_with}
use kdump.DeviceTimeout.Args.{cstr}
use kdump.Transfer.Shares.{find_text}
use kdump.Calibrate.Cpus.{skip_spaces, digits, Got, got, failed, read_number}

pub record SlabInfo : Type 0 where
  pub name : Bytes
  pub active_objs : ℕ
  pub num_objs : ℕ
  pub obj_size : ℕ
  pub obj_per_slab : ℕ
  pub pages_per_slab : ℕ
  pub active_slabs : ℕ
  pub num_slabs : ℕ

pub data SlabLine : Type 0 where
  comment : SlabLine
  slab : SlabInfo → SlabLine

pub data SlabError : Type 0 where
  invalid_line open_failed invalid_version unsupported_version : SlabError

-- `ss >> m_name`: the word behind the spaces, and the rest.
unfoldable pub until_space : Bytes → Bytes × Bytes
until_space [] = ([], [])
until_space (c ∷ s) =
    let (word, rest) = until_space s in if isspace c then ([], c ∷ s) else (c ∷ word, rest)

-- A number, or an invalid line.
unfoldable pub valid_number : Got → Result SlabError (ℕ × Bytes)
valid_number (got n rest) = ok (n, rest)
valid_number (failed eof) = throw invalid_line

unfoldable pub number : Bytes → Result SlabError (ℕ × Bytes)
unfolding read_number valid_number
number s = valid_number (read_number s)

abbrev pub slabdata_mark : Bytes
slabdata_mark = codes " : slabdata "

-- What is behind the mark.
unfoldable pub behind_mark : Bytes → Result SlabError Bytes
unfolding find_text
behind_mark s = elim (find_text s slabdata_mark) [
  | none ↦ throw invalid_line
  | some sdpos ↦ ok (drop (length slabdata_mark) (drop sdpos s))
]

abbrev starts_hash : Bytes → Bool
starts_hash [] = false
starts_hash (c ∷ s) = c == b'#'

-- The fields behind the mark.
unfoldable pub slab_data : SlabInfo → Bytes → Result SlabError SlabLine
unfolding number
slab_data si s = do
  (active_slabs, s1) ← number s
  (num_slabs, s2) ← number s1
  ok (slab (record si { active_slabs = active_slabs; num_slabs = num_slabs }))

-- The fields behind the name; the last two are set by `slab_data`.
unfoldable pub slab_fields : Bytes → Bytes → Result SlabError SlabLine
unfolding number behind_mark slab_data
slab_fields name s0 = do
  (active_objs, s1) ← number s0
  (num_objs, s2) ← number s1
  (obj_size, s3) ← number s2
  (obj_per_slab, s4) ← number s3
  (pages_per_slab, s5) ← number s4
  let si : SlabInfo = record {
    name = name;
    active_objs = active_objs;
    num_objs = num_objs;
    obj_size = obj_size;
    obj_per_slab = obj_per_slab;
    pages_per_slab = pages_per_slab;
    active_slabs = 0;
    num_slabs = 0;
  }
  behind_mark s5 >>= slab_data si

unfoldable pub slab_info : Bytes → Result SlabError SlabLine
unfolding until_space skip_spaces slab_fields
slab_info line =
    let (name, rest) = until_space (skip_spaces line) in
    if is_empty name
    then throw invalid_line
    else if starts_hash name
    then ok comment
    else slab_fields name rest

-- The text of a line, and what is behind its end.
unfoldable pub next_line : Bytes → Bytes × Bytes
next_line [] = ([], [])
next_line (c ∷ s) = let (line, rest) = next_line s in if c == 10 then ([], s) else (c ∷ line, rest)

-- istream::getline into a buffer for `max` characters: it fails at the end of the file, and where
-- the line is longer.
unfoldable pub getline : ℕ → Bytes → Option (Bytes × Bytes)
unfolding next_line cstr
getline max s =
    let (line, rest) = next_line s in
    if is_empty s || ltb max (length line) then none else some (cstr line, rest)

-- strtoul(3) to the base 10; none where no number stands.
unfoldable pub strtoul10_digits : Bool → Bytes → Option (ℕ × Bytes)
unfolding digits
strtoul10_digits minus [] = none
strtoul10_digits minus (c ∷ s) =
    let (n, rest) = digits 0 (c ∷ s) in
    if not (isdigit c)
    then none
    else if ltb n (2 ^ 64)
    then some (if minus then (2 ^ 64 - n) % 2 ^ 64 else n, rest)
    else some (2 ^ 64 - 1, rest)

unfoldable pub strtoul10_signed : Bytes → Option (ℕ × Bytes)
unfolding strtoul10_digits
strtoul10_signed [] = none
strtoul10_signed (c ∷ s) =
    if c == b'-'
    then strtoul10_digits true s
    else if c == b'+'
    then strtoul10_digits false s
    else strtoul10_digits false (c ∷ s)

unfoldable pub strtoul10 : Bytes → Option (ℕ × Bytes)
unfolding strtoul10_signed skip_spaces
strtoul10 s = strtoul10_signed (skip_spaces s)

abbrev pub verhdr : Bytes
verhdr = codes "slabinfo - version: "

-- The minor version behind the dot; the line ends there.
unfoldable pub minor_ends : Bytes → Bool
unfolding strtoul10
minor_ends [] = false
minor_ends (c ∷ s) =
    if c == b'.'
    then elim (strtoul10 s) [ none ↦ false | some (minor, rest) ↦ is_empty rest ]
    else false

unfoldable pub check_version : Bytes → Result SlabError (Unit {0})
unfolding starts_with strtoul10 minor_ends
check_version line =
    if not (starts_with line verhdr)
    then throw invalid_version
    else elim (strtoul10 (drop (length verhdr) line)) [
      | none ↦ throw invalid_version
      | some (major, rest) ↦
          if not (minor_ends rest)
          then throw invalid_version
          else (if major == 2 then ok tt else throw unsupported_version)
    ]

-- The loop over the lines; a round passes a byte.
unfoldable pub read_slabs :
    ℕ → Bytes → List (Bytes × SlabInfo) → Result SlabError (List (Bytes × SlabInfo))
unfolding getline slab_info insert
read_slabs zero s info = ok info
read_slabs (suc f) s info = elim (getline 2047 s) [
  | none ↦ ok info
  | some (line, rest) ↦ slab_info line >>= (λ si. elim si [
    | comment ↦ read_slabs f rest info
    | slab one ↦ read_slabs f rest (insert one.name one info)
  ])
]

-- `getInfo`; `file` is what the file holds, if it can be opened.
unfoldable pub get_info : Option Bytes → Result SlabError (List (Bytes × SlabInfo))
unfolding getline check_version read_slabs
get_info none = throw open_failed
get_info (some text) = elim (getline 99 text) [
  | none ↦ throw invalid_version
  | some (line, rest) ↦ check_version line >>= (λ _. read_slabs (length rest) rest [])
]
