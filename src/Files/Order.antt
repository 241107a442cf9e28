-- ===== src/Files/Order.antt =====
-- The order in which `rmdir` opens directories and removes what they hold.
use mathlib.Core.Path.{fun_ext}
use kdump.Prelude.{
  Bool, true, List, [], ◌∷◌, ◌++◌, ◌≡◌, refl, sym, ap, ◌∙◌, Bytes, if◌then◌else◌, Bool-cases, inl,
  inr,
}
use kdump.Prelude.Effects.{Outcome, done, raised, pure, ◌>>◌}
use kdump.Kernel.Path.{append_path}
use kdump.Files.Dirs.{D, DirError, Entries, end, file, dir, is_dots, open_dir, remove, clear, rmdir}

-- The calls that `rmdir` makes, of opendir(3) and of remove(3) or rmdir(2).
pub data Call : Type 0 where
  opening removing : Bytes → Call

-- The calls for all that is below a directory: each directory is opened in front of what it holds, and
-- removed behind it.
unfoldable pub contents : Bytes → Entries → List Call
unfolding append_path
contents path end = []
contents path (file name rest) =
    (if is_dots name then [] else removing (append_path path name) ∷ []) ++ contents path rest
contents path (dir name sub rest) =
    (if is_dots name
      then []
      else opening (append_path path name)
        ∷ (contents (append_path path name) sub ++ removing (append_path path name) ∷ []))
    ++ contents path rest

same : {A : Type 0} {m n : D A} → ((s : List Bytes) → m s ≡ n s) → m ≡ n
same h = fun_ext h

>>-pure : (m : D (Unit {0})) → (m >> pure tt) ≡ m
>>-pure m = same (λ s.
    elim (m s)
      as (λ o.
        (elim o as (λ _. Outcome (List Bytes) DirError (Unit {0})) [
          | done _ s' ↦ done tt s'
          | raised e s' ↦ raised e s'
        ])
        ≡ o) [ done _ s' ↦ refl | raised e s' ↦ refl ])

-- The calls are made one by one, until one fails.
module _ (opens removes : Bytes → Bool) where
  unfoldable pub call : Call → D (Unit {0})
  call (opening path) = open_dir opens removes path
  call (removing path) = remove opens removes path

  unfoldable pub call_all : List Call → D (Unit {0})
  call_all [] = pure tt
  call_all (c ∷ cs) = call c >> call_all cs

  >>-assoc : (m n o : D (Unit {0})) → ((m >> n) >> o) ≡ (m >> (n >> o))
  >>-assoc m n o = same (λ s.
      elim (m s)
        as (λ r.
          (elim (elim r as (λ _. Outcome (List Bytes) DirError (Unit {0})) [
            | done _ s' ↦ n s'
            | raised e s' ↦ raised e s'
          ])
            as (λ _. Outcome (List Bytes) DirError (Unit {0})) [
              | done _ s' ↦ o s'
              | raised e s' ↦ raised e s'
            ])
          ≡ (elim r as (λ _. Outcome (List Bytes) DirError (Unit {0})) [
            | done _ s' ↦ (n >> o) s'
            | raised e s' ↦ raised e s'
          ])) [ done _ s' ↦ refl | raised e s' ↦ refl ])

  call_all-append : (xs ys : List Call) → call_all (xs ++ ys) ≡ (call_all xs >> call_all ys)
  unfolding call_all
  call_all-append [] ys = refl
  call_all-append (x ∷ xs) ys =
      ap (λ (m : D (Unit {0})). call x >> m) (call_all-append xs ys)
      ∙ sym (>>-assoc (call x) (call_all xs) (call_all ys))

  -- A directory's calls, around those for what it holds.
  around : Bytes → List Call → List Call
  around path below = opening path ∷ (below ++ removing path ∷ [])

  call_all-around :
      (path : Bytes) (below : List Call) (inside : D (Unit {0}))
      → inside ≡ call_all below
      → call_all (around path below)
        ≡ (open_dir opens removes path >> inside >> remove opens removes path)
  unfolding call_all call around
  call_all-around path below inside e =
      ap (λ (m : D (Unit {0})). open_dir opens removes path >> m)
        (call_all-append below (removing path ∷ [])
          ∙ ap (λ (m : D (Unit {0})). call_all below >> m) (>>-pure (remove opens removes path))
          ∙ ap (λ (m : D (Unit {0})). m >> remove opens removes path) (sym e))
      ∙ sym (>>-assoc (open_dir opens removes path) inside (remove opens removes path))

  clear-contents :
      (path : Bytes) (entries : Entries)
      → clear opens removes path entries ≡ call_all (contents path entries)
  unfolding clear contents around
  clear-contents path end = unfold call_all in refl
  clear-contents path (file name rest) =
      let later = clear-contents path rest in
      elim (Bool-cases (is_dots name)) [
        | inl dots ↦ rw (dots, later)
        | inr named ↦ rw (named, later) (unfold call_all call in refl)
      ]
  clear-contents path (dir name sub rest) =
      let inside = append_path path name in
      let below = contents inside sub in
      let later = clear-contents path rest in
      let first =
        call_all-around inside below (clear opens removes inside sub) (clear-contents inside sub) in
      elim (Bool-cases (is_dots name)) [
        | inl dots ↦ rw (dots, later)
        | inr named ↦
            rw (named, later)
              (sym (
                call_all-append (around inside below) (contents path rest)
                ∙ ap (λ (m : D (Unit {0})). m >> call_all (contents path rest)) first))
      ]

  -- The recursive `rmdir` opens the directory, removes what is below it and then the directory itself:
  -- each directory is opened in front of what it holds and removed behind it, in the order of the
  -- entries, and the first call that fails ends the run with its exception, with just the paths in
  -- front of it removed. "." and ".." are left alone.
  pub rmdir-contents :
      (path : Bytes) (entries : Entries) (removed : List Bytes)
      → rmdir opens removes true path entries removed
        ≡ call_all (opening path ∷ (contents path entries ++ removing path ∷ [])) removed
  unfolding rmdir around
  rmdir-contents path entries removed =
      ap (λ (m : D (Unit {0})). m removed)
        (sym (
          call_all-around path (contents path entries) (clear opens removes path entries)
            (clear-contents path entries)))
