-- ===== src/Config/Losses.antt =====
-- Where `KernelConfigParser::parse` loses input: a last byte with no separator behind it, and all
-- that follows an assignment with no name.
use kdump.Prelude.{
  is_empty, ℕ, zero, suc, true, false, [], ◌∷◌, ◌++◌, ◌≡◌, ◌≢◌, refl, ap, ◌∙◌, arith, Bytes, inl,
}
use kdump.Prelude.Dict.{insert}
use kdump.Quote.Kernel.{kernel_body, has_space}
use kdump.Config.KernelParser.{Variables, Reader, step, parse_from, start, parse_text}
use kdump.Config.RoundTrip.{IsName, read_name, read_body, at_value}

read_last :
    (n v : Bytes) (m : Variables) (c : ℕ)
    → is_empty n ≡ false
    → c ≢ b'"'
    → parse_from (at_value n v false m) 0 (c ∷ []) ≡ start (insert n v m)
unfolding parse_from
read_last [] v m c h q = cc
read_last (x ∷ n) v m c h q = ground arith

-- If the file ends right behind a value, the value's last byte `c` is lost: the variable is set
-- to what stands before it. (The value is written as `KernelQuotedString` does, with no space,
-- and its last byte is not '"'.)
pub parse_text-drops_last :
    (n v : Bytes) (m : Variables) (c : ℕ)
    → IsName n
    → has_space v false ≡ false
    → c ≢ b'"'
    → parse_text m (n ++ b'=' ∷ (kernel_body v ++ c ∷ [])) ≡ insert n v m
unfolding parse_text
parse_text-drops_last n v m c (some_name, plain) spaces q =
    ap (λ (p : Reader). p.variables)
      (read_name n (start m) (kernel_body v ++ c ∷ []) refl plain
        ∙ read_body v (at_value n [] false m) c [] refl (inl spaces)
        ∙ read_last n v m c some_name q)

-- A name that is empty while a value is read.
abbrev pub IsNameless : Reader → Type 0
IsNameless p = (p.name ≡ []) × (p.in_value ≡ true)

step-IsNameless :
    (p : Reader) (c : ℕ) (r : Bytes)
    → IsNameless p
    → IsNameless (step p c r).0 × ((step p c r).0.variables ≡ p.variables)
unfolding step
step-IsNameless p c [] h = ground arith
step-IsNameless p c (x ∷ r) h = ground arith

parse_from-IsNameless :
    (s : Bytes) (p : Reader) (k : ℕ) → IsNameless p → (parse_from p k s).variables ≡ p.variables
unfolding parse_from
parse_from-IsNameless [] p zero h = refl
parse_from-IsNameless [] p (suc k) h = refl
parse_from-IsNameless (c ∷ r) p zero h =
    let (keeps, same) = step-IsNameless p c r h in
    parse_from-IsNameless r (step p c r).0 (step p c r).1 keeps ∙ same
parse_from-IsNameless (c ∷ r) p (suc k) h = parse_from-IsNameless r p k h

-- Behind a '=' with no name before it, nothing is set any more, whatever the file still holds.
pub parse_text-nameless : (m : Variables) (s : Bytes) → parse_text m (b'=' ∷ s) ≡ m
unfolding parse_text
parse_text-nameless m s =
    (unfold parse_from in refl)
    ∙ parse_from-IsNameless s
        (record { name = []; value = []; in_value = true; inquote = false; variables = m }) 0
        (refl, refl)
