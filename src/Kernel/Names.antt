-- ===== src/Kernel/Names.antt =====
-- What a kernel's file names are made of.
use kdump.Prelude.{
  is_empty, true, false, not, ◌&&◌, List, [], ◌∷◌, ◌++◌, append_assoc, append-nil, Bytes, codes,
  ◌==◌, ==_iff, if◌then◌else◌, length, drop, ◌≡◌, refl, sym, ap, ◌∙◌, ◌⊎◌, inl, inr, arith,
  Bool-cases, drop_append_length, length-append,
}
use mathlib.Core.Path.{subst}
use kdump.KString.Search.{starts_with, ends_with, starts_with_iff, ends_with_iff}
use kdump.KString.Trim.{ltrim, rtrim, Within, FirstKept, LastKept, ltrim_cut, rtrim_cut}
use kdump.Kernel.Path.{
  append_path, image_names, KernelPath, starts_dash, split_name, kernel_path, is_kdump,
  dash_version, initrd_path,
}

-- Appending leaves one '/' at the joint: the slashes at the end of the path and at the start of what
-- is appended go, and nothing else.
pub append_path_cut :
    (s p : Bytes)
    → (t q l r : Bytes) × (append_path s p ≡ t ++ b'/' ∷ q)
      × (s ≡ t ++ r)
      × (p ≡ l ++ q)
      × Within (codes "/") r
      × Within (codes "/") l
      × LastKept (codes "/") t
      × FirstKept (codes "/") q
unfolding append_path
append_path_cut s p =
    let (r, e, w, k) = rtrim_cut (codes "/") s in
    let (l, e', w', f, _) = ltrim_cut (codes "/") p in
    (
      rtrim (codes "/") s,
      ltrim (codes "/") p,
      l,
      r,
      append_assoc (rtrim (codes "/") s) (codes "/") (ltrim (codes "/") p),
      e,
      e',
      w,
      w',
      k,
      f,
    )

abbrev pub Among : Bytes → List Bytes → Type 0
Among s [] = ⊥
Among s (x ∷ xs) = (s ≡ x) ⊎ Among s xs

-- An image name alone, or with a dash and the version behind it; or any other name, with no version.
abbrev pub IsSplit : Bytes → List Bytes → KernelPath → Type 0
IsSplit base names p =
    (Among p.name names × (base ≡ p.name) × (p.version ≡ []))
    ⊎ (Among p.name names × (base ≡ p.name ++ b'-' ∷ p.version))
    ⊎ ((p.name ≡ base) × (p.version ≡ []))

skip_name :
    (base pfx : Bytes) (names : List Bytes) (p : KernelPath)
    → IsSplit base names p
    → IsSplit base (pfx ∷ names) p
skip_name base pfx names p (inl (among, x, y)) = inl (inr among, x, y)
skip_name base pfx names p (inr (inl (among, x))) = inr (inl (inr among, x))
skip_name base pfx names p (inr (inr x)) = inr (inr x)

no_rest : (pfx r : Bytes) → length (pfx ++ r) ≡ length pfx → r ≡ []
no_rest pfx [] h = refl
no_rest pfx (c ∷ r) h = absurd (omega (arith, length-append pfx (c ∷ r)))

dash_first : (r : Bytes) → starts_dash r ≡ true → r ≡ b'-' ∷ drop 1 r
dash_first [] h = cc
dash_first (c ∷ r) h = let e : c ≡ b'-' = (==_iff c b'-').0 h in rw e

split_name-IsSplit :
    (directory base : Bytes) (names : List Bytes)
    → IsSplit base names (split_name directory base names)
unfolding split_name
split_name-IsSplit directory base [] = inr (inr (refl, refl))
split_name-IsSplit directory base (pfx ∷ names) =
    let later =
      skip_name base pfx names (split_name directory base names)
        (split_name-IsSplit directory base names) in
    let is : (p : KernelPath)
        → split_name directory base (pfx ∷ names) ≡ p
        → IsSplit base (pfx ∷ names) p
        → IsSplit base (pfx ∷ names) (split_name directory base (pfx ∷ names)) =
      λ p e x. subst (IsSplit base (pfx ∷ names)) (sym e) x in
    let next = split_name directory base names in
    elim (Bool-cases (starts_with base pfx)) [
      | inr other ↦ is next (rw other) later
      | inl there ↦
          let (r, e) = (starts_with_iff base pfx).0 there in
          let rest : drop (length pfx) base ≡ r = rw e (drop_append_length pfx r) in
          elim (Bool-cases (length base == length pfx)) [
            | inl same ↦
                let n : r ≡ [] =
                  no_rest pfx r (ap length (sym e) ∙ (==_iff (length base) (length pfx)).0 same) in
                is (record { directory = directory; name = pfx; version = [] }) (rw there (rw same))
                  (inl (inl refl, e ∙ rw n (append-nil pfx), refl))
            | inr longer ↦ elim (Bool-cases (starts_dash r)) [
              | inl dash ↦
                  is (record { directory = directory; name = pfx; version = drop 1 r })
                    (rw there (rw longer (rw rest (rw dash))))
                    (inr (inl (inl refl, e ∙ ap (◌++◌ pfx) (dash_first r dash))))
              | inr letter ↦ is next (rw there (rw longer (rw rest (rw letter)))) later
            ]
          ]
    ]

-- The parts of a kernel's path: the file name is an image name of the architecture alone, or one
-- with a dash and the version behind it; or it is taken as it is, with no version.
pub kernel_path-IsSplit :
    (arch directory base : Bytes)
    → IsSplit base (image_names arch) (kernel_path arch directory base)
unfolding kernel_path
kernel_path-IsSplit arch directory base = split_name-IsSplit directory base (image_names arch)

named_kdump :
    (start r : Bytes) (p : KernelPath)
    → p.version ≡ r ++ codes "kdump"
    → is_kdump p ≡ true
    → start ++ dash_version p ++ (if not false && not (is_kdump p) then codes "-kdump" else [])
      ≡ (start ++ b'-' ∷ r) ++ codes "kdump"
unfolding dash_version
named_kdump start r p e k =
    let full : is_empty p.version ≡ false = rw e (not_empty_append r) in
    rw k (
      rw full (
        append-nil (start ++ b'-' ∷ p.version)
        ∙ rw e (sym (append_assoc start (b'-' ∷ r) (codes "kdump")))))
  where
    not_empty_append : (t : Bytes) → is_empty (t ++ codes "kdump") ≡ false
    not_empty_append [] = refl
    not_empty_append (c ∷ t) = refl

named_plain :
    (start : Bytes) (p : KernelPath)
    → is_kdump p ≡ false
    → start ++ dash_version p ++ (if not false && not (is_kdump p) then codes "-kdump" else [])
      ≡ (start ++ dash_version p ++ b'-' ∷ []) ++ codes "kdump"
named_plain start p k =
    rw k (sym (append_assoc (start ++ dash_version p) (b'-' ∷ []) (codes "kdump")))

-- The initrd of a dump kernel without fadump ends in "kdump", whether the kernel's version does or
-- not: the running system's initrd is never taken for it.
pub initrd_path-kdump : (p : KernelPath) → ends_with (initrd_path false p) (codes "kdump") ≡ true
unfolding initrd_path
initrd_path-kdump p =
    let start = append_path p.directory (codes "initrd") in
    elim (Bool-cases (is_kdump p)) [
      | inl kdump ↦
          let (r, e) = (ends_with_iff p.version (codes "kdump")).0 (unfold is_kdump in kdump) in
          (ends_with_iff (initrd_path false p) (codes "kdump")).1
            (start ++ b'-' ∷ r, named_kdump start r p e kdump)
      | inr plain ↦
          (ends_with_iff (initrd_path false p) (codes "kdump")).1
            (start ++ dash_version p ++ b'-' ∷ [], named_plain start p plain)
    ]
