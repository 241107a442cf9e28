-- ===== src/Config/RoundTrip.antt =====
-- What `dump_config` prints for the kernel, and `KernelConfigParser` on it.
use kdump.Prelude.{
  is_empty, ℕ, Bool, true, false, ◌&&◌, ◌||◌, not, List, [], ◌∷◌, ◌++◌, append-nil, append_assoc,
  ◌≡◌, refl, sym, ap, ◌∙◌, arith, Bytes, ◌==◌, if◌then◌else◌, All, Bool-cases, inl, inr, ◌⊎◌,
  ==_iff,
}
use kdump.Prelude.Dict.{insert}
use kdump.Quote.Kernel
use kdump.Quote.Kernel.{is_kernel_space, kernel_item, kernel_body, has_space, quoted-kernel_body}
use kdump.Config.KernelParser.{Variables, Reader, step, parse_from, start, parse_text}
use kdump.Config.Dump.{ConfigOption, kernel, is_printed, quote, assignment, execute}

-- A byte that stands for itself in a name: no space, and none of '"', '=' and backslash.
unfoldable pub is_plain : ℕ → Bool
unfolding is_kernel_space
is_plain c = not (c == b'"' || c == b'=' || c == b'\\' || is_kernel_space c)

unfoldable pub all_plain : Bytes → Bool
unfolding is_plain
all_plain [] = true
all_plain (c ∷ n) = is_plain c && all_plain n

-- A variable's name: it is not empty, and each of its bytes stands for itself.
abbrev pub IsName : Bytes → Type 0
IsName n = (is_empty n ≡ false) × (all_plain n ≡ true)

all_plain-cons :
    (c : ℕ) (n : Bytes) → all_plain (c ∷ n) ≡ true → (is_plain c ≡ true) × (all_plain n ≡ true)
unfolding all_plain
all_plain-cons c n h = ground arith

step_name :
    (p : Reader) (c x : ℕ) (r : Bytes)
    → p.in_value ≡ false
    → is_plain c ≡ true
    → parse_from p 0 (c ∷ x ∷ r) ≡ parse_from (record p { name = p.name ++ c ∷ [] }) 0 (x ∷ r)
unfolding parse_from is_plain
step_name p c x r v h = ground arith

pub read_name :
    (n : Bytes) (p : Reader) (r : Bytes)
    → p.in_value ≡ false
    → all_plain n ≡ true
    → parse_from p 0 (n ++ b'=' ∷ r)
      ≡ parse_from (record p { name = p.name ++ n; in_value = true }) 0 r
read_name [] p r v h = rw append-nil (unfold parse_from in ground arith)
read_name (c ∷ []) p r v h =
    step_name p c b'=' r v (all_plain-cons c [] h).0
    ∙ read_name [] (record p { name = p.name ++ c ∷ [] }) r v (all_plain-cons c [] h).1
    ∙ rw append-nil
read_name (c ∷ d ∷ n) p r v h =
    let (one, hs) = all_plain-cons c (d ∷ n) h in
    step_name p c d (n ++ b'=' ∷ r) v one
    ∙ read_name (d ∷ n) (record p { name = p.name ++ c ∷ [] }) r v hs
    ∙ rw append_assoc

-- What is read behind an item that stands for the byte `c` in a value.
abbrev ReadsItem : Reader → Bytes → ℕ → Type 0
ReadsItem p item c =
    (x : ℕ) (r : Bytes)
    → parse_from p 0 (item ++ x ∷ r) ≡ parse_from (record p { value = p.value ++ c ∷ [] }) 0 (x ∷ r)

step_quote : (p : Reader) → p.in_value ≡ true → ReadsItem p (b'\\' ∷ b'0' ∷ b'4' ∷ b'2' ∷ []) b'"'
unfolding parse_from
step_quote p v x r = ground arith

step_backslash : (p : Reader) → p.in_value ≡ true → ReadsItem p (b'\\' ∷ b'\\' ∷ []) b'\\'
unfolding parse_from
step_backslash p v x r = ground arith

step_other :
    (p : Reader) (c : ℕ)
    → p.in_value ≡ true
    → (c == b'"') ≡ false
    → (c == b'\\') ≡ false
    → (is_kernel_space c && not p.inquote) ≡ false
    → ReadsItem p (c ∷ []) c
unfolding parse_from
step_other p c v a b q x r = ground arith

step_item :
    (p : Reader) (c : ℕ)
    → p.in_value ≡ true
    → (is_kernel_space c && not p.inquote) ≡ false
    → ReadsItem p (kernel_item c) c
unfolding kernel_item
step_item p c v q x r = elim (Bool-cases (c == b'"')) [
  | inl is ↦ rw is (step_quote p v x r ∙ rw (sym ((==_iff c b'"').0 is)))
  | inr not_quote ↦ elim (Bool-cases (c == b'\\')) [
    | inl is ↦ rw not_quote (rw is (step_backslash p v x r ∙ rw (sym ((==_iff c b'\\').0 is))))
    | inr other ↦ rw not_quote (rw other (step_other p c v not_quote other q x r))
  ]
]

has_space-true : (s : Bytes) → has_space s true ≡ true
unfolding has_space
has_space-true [] = refl
has_space-true (c ∷ s) = ground (arith, has_space-true s)

has_space-cons :
    (c : ℕ) (s : Bytes)
    → has_space (c ∷ s) false ≡ false
    → (is_kernel_space c ≡ false) × (has_space s false ≡ false)
unfolding has_space
has_space-cons c s h = ground (arith, has_space-true s)

reads_behind :
    (p : Reader) (item : Bytes) (c : ℕ)
    → ReadsItem p item c
    → (t : Bytes) (x : ℕ) (r : Bytes)
    → parse_from p 0 (item ++ (t ++ x ∷ r))
      ≡ parse_from (record p { value = p.value ++ c ∷ [] }) 0 (t ++ x ∷ r)
reads_behind p item c h [] x r = h x r
reads_behind p item c h (y ∷ t) x r = h y (t ++ x ∷ r)

-- In quotes, or if it holds no space, a value is read whole.
pub read_body :
    (v : Bytes) (p : Reader) (x : ℕ) (r : Bytes)
    → p.in_value ≡ true
    → (has_space v false ≡ false) ⊎ (p.inquote ≡ true)
    → parse_from p 0 (kernel_body v ++ x ∷ r)
      ≡ parse_from (record p { value = p.value ++ v }) 0 (x ∷ r)
unfolding kernel_body
read_body [] p x r h q = rw append-nil
read_body (c ∷ v) p x r h q =
    let first : (is_kernel_space c && not p.inquote) ≡ false = ground (arith, has_space-cons c v) in
    let later : (has_space v false ≡ false) ⊎ (p.inquote ≡ true) =
      ground (arith, has_space-cons c v) in
    ap (parse_from p 0) (append_assoc (kernel_item c) (kernel_body v) (x ∷ r))
    ∙ reads_behind p (kernel_item c) c (step_item p c h first) (kernel_body v) x r
    ∙ read_body v (record p { value = p.value ++ c ∷ [] }) x r h later
    ∙ rw append_assoc

abbrev pub at_value : Bytes → Bytes → Bool → Variables → Reader
at_value n v q m = record { name = n; value = v; in_value = true; inquote = q; variables = m }

open_quote :
    (n v : Bytes) (m : Variables) (r : Bytes)
    → parse_from (at_value n v false m) 0 (b'"' ∷ r) ≡ parse_from (at_value n v true m) 0 r
unfolding parse_from
open_quote n v m r = refl

end_quote :
    (n v : Bytes) (m : Variables) (r : Bytes)
    → parse_from (at_value n v true m) 0 (b'"' ∷ r) ≡ parse_from (at_value n v false m) 0 r
unfolding parse_from
end_quote n v m r = refl

read_quoted :
    (n v : Bytes) (m : Variables) (x : ℕ) (r : Bytes)
    → parse_from (at_value n [] false m) 0 (Kernel.quoted v ++ x ∷ r)
      ≡ parse_from (at_value n v false m) 0 (x ∷ r)
read_quoted n v m x r = rw (quoted-kernel_body v) (elim (Bool-cases (has_space v false)) [
  | inl spaces ↦ rw spaces (
      rw append_assoc (
        open_quote n [] m (kernel_body v ++ b'"' ∷ x ∷ r)
        ∙ read_body v (at_value n [] true m) b'"' (x ∷ r) refl (inr refl)
        ∙ end_quote n v m (x ∷ r)))
  | inr none_there ↦ rw none_there (read_body v (at_value n [] false m) x r refl (inl none_there))
])

delim_is_plain : (x : ℕ) → is_kernel_space x ≡ true → (x == b'"') ≡ false
unfolding is_kernel_space
delim_is_plain x s = ground arith

read_delim :
    (n v : Bytes) (m : Variables) (x : ℕ) (r : Bytes)
    → is_empty n ≡ false
    → is_kernel_space x ≡ true
    → parse_from (at_value n v false m) 0 (x ∷ r) ≡ parse_from (start (insert n v m)) 0 r
unfolding parse_from step
read_delim [] v m x r h s = cc
read_delim (c ∷ n) v m x r h s = ground (arith, delim_is_plain x s)

read_assignment :
    (o : ConfigOption) (m : Variables) (r : Bytes)
    → IsName o.name
    → parse_from (start m) 0 (assignment kernel o ++ r)
      ≡ parse_from (start (insert o.name o.value m)) 0 r
unfolding assignment quote
read_assignment o m r (some_name, plain) =
    ap (parse_from (start m) 0) (simp append_assoc)
    ∙ read_name o.name (start m) _ refl plain
    ∙ read_quoted o.name o.value m b' ' r
    ∙ read_delim o.name o.value m b' ' r some_name (unfold is_kernel_space in refl)

-- The variables that a configuration sets, one after the other.
abbrev pub set_all : ℕ → Bool → List ConfigOption → Variables → Variables
set_all usage nodefault [] m = m
set_all usage nodefault (o ∷ os) m =
    set_all usage nodefault os (if is_printed usage nodefault o then insert o.name o.value m else m)

-- What `dump_config` prints for the kernel command line is read back by `KernelConfigParser`,
-- whatever bytes the values hold: each option that is printed sets its variable to its value,
-- and nothing else is set. The names are not empty, and hold no space, '"', '=' or backslash.
pub parse_text-execute :
    (usage : ℕ) (nodefault : Bool) (os : List ConfigOption) (m : Variables)
    → All (λ o. IsName o.name) os
    → parse_text m (execute kernel usage nodefault os) ≡ set_all usage nodefault os m
unfolding parse_text execute
parse_text-execute usage nodefault [] m h = refl
parse_text-execute usage nodefault (o ∷ os) m (h, hs) =
    elim (Bool-cases (is_printed usage nodefault o)) [
      | inl printed ↦ rw printed (
          ap (λ (p : Reader). p.variables) (read_assignment o m _ h)
          ∙ parse_text-execute usage nodefault os (insert o.name o.value m) hs)
      | inr skipped ↦ rw skipped (parse_text-execute usage nodefault os m hs)
    ]
