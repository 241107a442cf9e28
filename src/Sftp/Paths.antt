-- ===== src/Sftp/Paths.antt =====
-- The levels of `mkpath`.
use kdump.Prelude.{
  ℕ, zero, suc, ◌≤◌, ◌<◌, [], ◌∷◌, none, some, Bytes, codes, if◌then◌else◌, length, take, ◌≡◌, ap,
  arith, Option-cases, inl, inr,
}
use mathlib.Core.Path.{fun_ext}
use kdump.KString.Search.{rfind, find_last_not_of}
use kdump.KString.Trim.{rtrim}
use kdump.Sftp.Session.{Session, Outcome, M, pure, ◌>>=◌, ◌>>◌}
use kdump.Sftp.Client.{exists, parent, make_directory, mkpath_from, mkpath}

rfind_below : (s : Bytes) (c n : ℕ) → rfind s c ≡ some n → n < length s
unfolding rfind
rfind_below [] c n h = ground arith
rfind_below (x ∷ s) c n h = elim (Option-cases (rfind s c)) [
  | inl e ↦ ground arith
  | inr (k, e) ↦ let b = rfind_below s c k e in ground arith
]

length-take_least : (n : ℕ) (s : Bytes) → (length (take n s) ≤ n) × (length (take n s) ≤ length s)
length-take_least zero s = (omega arith, omega arith)
length-take_least (suc n) [] = (omega arith, omega arith)
length-take_least (suc n) (x ∷ s) = let (a, b) = length-take_least n s in (omega arith, omega arith)

length-rtrim : (chars s : Bytes) → length (rtrim chars s) ≤ length s
unfolding rtrim
length-rtrim chars s = elim (Option-cases (find_last_not_of chars s)) [
  | inl e ↦ rw (length, e) (omega arith)
  | inr (k, e) ↦ rw (length, e) (length-take_least (suc k) s).1
]

parent_shorter : (path dir : Bytes) → parent path ≡ some dir → length dir < length path
unfolding parent
parent_shorter path dir h =
    let trimmed = rtrim (codes "/") path in
    elim (Option-cases (rfind trimmed 47)) [
      | inl e ↦ ground arith
      | inr (zero, e) ↦ ground arith
      | inr (suc k, e) ↦
          let b = rfind_below trimmed 47 (suc k) e in
          let l = length-rtrim (codes "/") path in
          let t = (length-take_least (suc k) trimmed).0 in ground arith
    ]

parents_agree :
    (path : Bytes) (f g : Bytes → M (Unit {0}))
    → ((dir : Bytes) (s : Session) → length dir < length path → f dir s ≡ g dir s)
    → (elim (parent path) as (λ _. M (Unit {0})) [ none ↦ pure tt | some dir ↦ f dir ])
      ≡ (elim (parent path) as (λ _. M (Unit {0})) [ none ↦ pure tt | some dir ↦ g dir ])
parents_agree path f g h = elim (Option-cases (parent path)) [
  | inl e ↦ rw e
  | inr (dir, e) ↦ rw e (fun_ext (λ s. h dir s (parent_shorter path dir e)))
]

-- A level, on what is done for the parent.
abbrev level : Bytes → Session → M (Unit {0}) → Outcome (Unit {0})
level path s up =
    (exists path >>= λ there. if there then pure tt else (up >> make_directory path)) s

mkpath_from-fuel :
    (f g : ℕ) (path : Bytes) (s : Session)
    → length path < f
    → length path < g
    → mkpath_from f path s ≡ mkpath_from g path s
unfolding mkpath_from
mkpath_from-fuel (suc f) (suc g) path s h k = ap (level path s) (
    parents_agree path (mkpath_from f) (mkpath_from g)
      (λ dir s' l. mkpath_from-fuel f g dir s' (omega arith) (omega arith)))
mkpath_from-fuel zero g path s h k = absurd (omega arith)
mkpath_from-fuel (suc f) zero path s h k = absurd (omega arith)

-- `mkpath` is the recursion that the source writes: a path that exists is left alone, any other is
-- made after its parent, if it has one, with `mkpath` itself for the parent. The levels that the
-- model gives it are never used up.
pub mkpath_lem :
    (path : Bytes) (s : Session)
    → mkpath path s
      ≡ (exists path >>= λ there.
            if there
            then pure tt
            else (elim (parent path) [ none ↦ pure tt | some dir ↦ mkpath dir ]
                >> make_directory path))
          s
unfolding mkpath mkpath_from
mkpath_lem path s = ap (level path s) (
    parents_agree path (mkpath_from (length path)) mkpath (λ dir s' l.
      mkpath_from-fuel (length path) (suc (length dir)) dir s' (omega arith) (omega arith)))
