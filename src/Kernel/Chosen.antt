-- ===== src/Kernel/Chosen.antt =====
-- The kernel that is found: what it is, and which others it is preferred to.
use mathlib.Core.Path.{subst}
use kdump.Prelude.{
  Bool, true, false, ◌&&◌, ◌||◌, not, List, [], ◌∷◌, ◌++◌, ◌≡◌, refl, sym, ap, ◌∙◌, none, some,
  arith, Bytes, codes, if◌then◌else◌, is_empty, All, Bool-cases, inl, inr,
}
use kdump.Kernel.Path.{append_path, image_names, kernel_path, initrd_path}
use kdump.Files.Names.{base_name, dir_name}
use kdump.Kernel.Search.{
  Image, suitable_for_kdump, find_image, find_for_version, attempt, with_flavour, find_kernel_auto,
  find_kernel, get_paths,
}

-- The versions that are tried with the strict tests.
abbrev pub versions_of : Bytes → List Bytes
versions_of running =
    with_flavour running (codes "kdump")
    ∷ codes "kdump"
    ∷ running
    ∷ with_flavour running (codes "default")
    ∷ []
    ∷ []

module _ (arch : Bytes) (exists : Bytes → Bool) (image_of : Bytes → Image) where
  abbrev suits : Bytes → Bool → Bool
  suits = suitable_for_kdump arch exists image_of

  -- Whether a version has a kernel that suits.
  abbrev pub accepts : Bytes → Bool → Bool
  accepts version strict =
      let image = find_for_version arch exists image_of version in
      not (is_empty image) && suitable_for_kdump arch exists image_of image strict

  abbrev Accepts : Bytes → Bool → Type 0
  Accepts version strict = accepts version strict ≡ true

  suits_loosely :
      (image : Bytes) (strict : Bool) → suits image strict ≡ true → suits image false ≡ true
  unfolding suitable_for_kdump
  suits_loosely image strict h = ground arith

  find_image-exists :
      (version : Bytes) (names : List Bytes)
      → is_empty (find_image arch exists image_of version names) ≡ false
      → exists (find_image arch exists image_of version names) ≡ true
  unfolding find_image
  find_image-exists version [] h = absurd (cc)
  find_image-exists version (name ∷ names) h =
      let kernel =
        append_path (codes "/boot") (if is_empty version then name else name ++ b'-' ∷ version) in
      elim (Bool-cases (exists kernel)) [
        | inl there ↦ rw there there
        | inr missing ↦ rw missing (find_image-exists version names (rw missing at h))
      ]

  -- The tries, in their order, as a list.
  first : List (Bytes × Bool) → Bytes
  first [] = []
  first ((version, strict) ∷ tries) = attempt arch exists image_of version strict (first tries)

  IsGood : Bytes → Type 0
  IsGood image = (exists image ≡ true) × (suits image false ≡ true)

  accepted-IsGood :
      (version : Bytes) (strict : Bool)
      → Accepts version strict
      → IsGood (find_for_version arch exists image_of version)
  unfolding IsGood
  accepted-IsGood version strict h =
      let image = find_for_version arch exists image_of version in
      let there : is_empty image ≡ false = ground arith in
      (
        unfold find_for_version in find_image-exists version (image_names arch) there,
        suits_loosely image strict (ground arith),
      )

  attempt-accepted :
      (version : Bytes) (strict : Bool) (next : Bytes)
      → Accepts version strict
      → attempt arch exists image_of version strict next
        ≡ find_for_version arch exists image_of version
  attempt-accepted version strict next h = unfold attempt in rw h

  attempt-refused :
      (version : Bytes) (strict : Bool) (next : Bytes)
      → (not (is_empty (find_for_version arch exists image_of version))
          && suits (find_for_version arch exists image_of version) strict)
        ≡ false
      → attempt arch exists image_of version strict next ≡ next
  attempt-refused version strict next h = unfold attempt in rw h

  first-IsGood :
      (tries : List (Bytes × Bool)) → is_empty (first tries) ≡ false → IsGood (first tries)
  unfolding first
  first-IsGood [] h = absurd (cc)
  first-IsGood ((version, strict) ∷ tries) h = elim (Bool-cases (accepts version strict)) [
    | inl yes_there ↦
        rw (attempt-accepted version strict (first tries) yes_there)
          (accepted-IsGood version strict yes_there)
    | inr none_there ↦
        let same = attempt-refused version strict (first tries) none_there in
        rw same (first-IsGood tries (rw same at h))
  ]

  strict_tries : List Bytes → List (Bytes × Bool)
  strict_tries [] = []
  strict_tries (version ∷ versions) = (version, true) ∷ strict_tries versions

  -- Every strict try that would be accepts makes the choice strictly suitable.
  abbrev Prefers : Bytes → List Bytes → Type 0
  Prefers image = All (λ version. Accepts version true → suits image true ≡ true)

  Prefers-good :
      (image : Bytes) (versions : List Bytes) → suits image true ≡ true → Prefers image versions
  Prefers-good image [] h = tt
  Prefers-good image (version ∷ versions) h = (λ _. h, Prefers-good image versions h)

  first-Prefers :
      (versions : List Bytes) (rest : List (Bytes × Bool))
      → Prefers (first (strict_tries versions ++ rest)) versions
  unfolding first strict_tries
  first-Prefers [] rest = tt
  first-Prefers (version ∷ versions) rest =
      let next = first (strict_tries versions ++ rest) in
      let later = first-Prefers versions rest in
      elim (Bool-cases (accepts version true)) [
        | inl yes_there ↦
            subst (λ image. Prefers image (version ∷ versions))
              (sym (attempt-accepted version true next yes_there))
              (Prefers-good (find_for_version arch exists image_of version) (version ∷ versions)
                (ground arith))
        | inr none_there ↦
            subst (λ image. Prefers image (version ∷ versions))
              (sym (attempt-refused version true next none_there)) (λ accepted. absurd (cc), later)
      ]

  first-none :
      (tries : List (Bytes × Bool))
      → is_empty (first tries) ≡ true
      → All (λ t. accepts t.0 t.1 ≡ false) tries
  unfolding first
  first-none [] h = tt
  first-none ((version, strict) ∷ tries) h = elim (Bool-cases (accepts version strict)) [
    | inl yes_there ↦
        let same = attempt-accepted version strict (first tries) yes_there in
        let gone = rw same at h in absurd (ground arith)
    | inr none_there ↦
        let same = attempt-refused version strict (first tries) none_there in
        (none_there, first-none tries (rw same at h))
  ]

  loose_tries : Bytes → List (Bytes × Bool)
  loose_tries running =
      (running, false) ∷ (with_flavour running (codes "default"), false) ∷ ([], false) ∷ []

  find_kernel_auto-first :
      (running : Bytes)
      → find_kernel_auto arch exists image_of running
        ≡ first (strict_tries (versions_of running) ++ loose_tries running)
  unfolding find_kernel_auto first strict_tries loose_tries
  find_kernel_auto-first running = refl

  find_kernel-automatic :
      (kernelver running : Bytes)
      → is_empty kernelver ≡ true
      → find_kernel arch exists image_of kernelver running
        ≡ find_kernel_auto arch exists image_of running
  unfolding find_kernel
  find_kernel-automatic kernelver running automatic = rw automatic

  find_kernel-chosen :
      (kernelver running : Bytes)
      → is_empty kernelver ≡ false
      → find_kernel arch exists image_of kernelver running ≡ first ((kernelver, false) ∷ [])
  unfolding find_kernel first attempt
  find_kernel-chosen kernelver running chosen = rw chosen

  find_kernel-IsGood :
      (kernelver running : Bytes)
      → is_empty (find_kernel arch exists image_of kernelver running) ≡ false
      → IsGood (find_kernel arch exists image_of kernelver running)
  find_kernel-IsGood kernelver running h = elim (Bool-cases (is_empty kernelver)) [
    | inl automatic ↦
        let same =
          find_kernel-automatic kernelver running automatic ∙ find_kernel_auto-first running in
        rw same (first-IsGood _ (rw same at h))
    | inr chosen ↦
        let same = find_kernel-chosen kernelver running chosen in
        rw same (first-IsGood _ (rw same at h))
  ]

  get_paths-none :
      (fadump : Bool) (kernelver running : Bytes)
      → is_empty (find_kernel arch exists image_of kernelver running) ≡ true
      → get_paths arch exists image_of fadump kernelver running ≡ none
  get_paths-none fadump kernelver running nothing = unfold get_paths in rw nothing

  get_paths-some :
      (fadump : Bool) (kernelver running : Bytes)
      → is_empty (find_kernel arch exists image_of kernelver running) ≡ false
      → let found = find_kernel arch exists image_of kernelver running in
        get_paths arch exists image_of fadump kernelver running
        ≡ some (found, initrd_path fadump (kernel_path arch (dir_name found) (base_name found)))
  get_paths-some fadump kernelver running there = unfold get_paths in rw there

  -- The kernel that is found, by the configured version or automatically: it is there, and suits a
  -- dump without the strict tests; and the initrd is the one of its path.
  pub get_paths-suits :
      (fadump : Bool) (kernelver running : Bytes) {image initrd : Bytes}
      → get_paths arch exists image_of fadump kernelver running ≡ some (image, initrd)
      → (exists image ≡ true)
        × (suitable_for_kdump arch exists image_of image false ≡ true)
        × (initrd ≡ initrd_path fadump (kernel_path arch (dir_name image) (base_name image)))
  unfolding IsGood
  get_paths-suits fadump kernelver running {image} {initrd} h =
      let found = find_kernel arch exists image_of kernelver running in
      elim (Bool-cases (is_empty found)) [
        | inl nothing ↦ let e = get_paths-none fadump kernelver running nothing in absurd (cc)
        | inr there ↦
            let e = get_paths-some fadump kernelver running there in
            let same : found ≡ image = cc in
            let behind : initrd_path fadump (kernel_path arch (dir_name found) (base_name found))
                ≡ initrd =
              cc in
            let good = find_kernel-IsGood kernelver running there in
            (
              rw same at (good.0),
              rw same at (good.1),
              sym behind
                  ∙ ap (λ f. initrd_path fadump (kernel_path arch (dir_name f) (base_name f))) same,
            )
      ]

  Prefers-accepts :
      (image : Bytes) (versions : List Bytes)
      → Prefers image versions
      → All (λ version. (accepts version true && not (suits image true)) ≡ false) versions
  Prefers-accepts image [] h = tt
  Prefers-accepts image (version ∷ versions) (h, hs) = elim (Bool-cases (accepts version true)) [
    | inl accepted ↦ (let good = h accepted in ground arith, Prefers-accepts image versions hs)
    | inr refused ↦ (ground arith, Prefers-accepts image versions hs)
  ]

  nobody :
      (empty a b c : Bool)
      → (empty ≡ true → (a ≡ false) × (b ≡ false) × (c ≡ false))
      → (empty && (a || b || c)) ≡ false
  nobody true a b c h =
      let r = h refl in let r0 = r.0 in let r1 = r.1 in let r2 = r.2 in ground arith
  nobody false a b c h = refl

  -- The kernel that is found automatically meets the strict tests if any kernel of the five
  -- versions that are tried does; and where none is found, there is none that suits for the running
  -- version, for its default flavour and for no version, not even without the strict tests.
  pub find_kernel_auto-prefers :
      (running : Bytes)
      → let image = find_kernel_auto arch exists image_of running in
        All
          (λ version.
            (accepts version true && not (suitable_for_kdump arch exists image_of image true))
            ≡ false)
          (versions_of running)
        × ((is_empty image
              && (accepts running false
                  || accepts (with_flavour running (codes "default")) false
                  || accepts [] false))
            ≡ false)
  unfolding strict_tries loose_tries
  find_kernel_auto-prefers running =
      let same = find_kernel_auto-first running in
      let image = first (strict_tries (versions_of running) ++ loose_tries running) in
      let preferred =
        Prefers-accepts image (versions_of running)
          (first-Prefers (versions_of running) (loose_tries running)) in
      (
        rw same preferred,
        rw same (
            nobody (is_empty image) _ _ _ (λ nothing.
              let loose =
                (first-none (strict_tries (versions_of running) ++ loose_tries running)
                  nothing).1.1.1.1.1 in
              (loose.0, loose.1.0, loose.1.1.0))),
      )
