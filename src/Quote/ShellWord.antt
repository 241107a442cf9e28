-- ===== src/Quote/ShellWord.antt =====
-- The quoted string of `ShellQuotedString`, and a reader of the words of a shell.
use kdump.Prelude.{
  ℕ, Bool, true, false, List, [], ◌∷◌, ◌++◌, append-nil, append_assoc, ◌≡◌, refl, sym, ap, ◌∙◌,
  Option, none, some, arith, Bytes, codes, ◌==◌, if◌then◌else◌, is_empty, contains, Bool-cases, inl,
  inr, ==_iff, last_byte-append, erase_last-append, last_byte, erase_last,
}
use kdump.Quote.Shell.{apostrophe, is_shell_safe, quote_loop, close_quote, quoted}

-- The characters that mean something to a shell outside quotes (POSIX, 2.2 Quoting).
abbrev shell_special : Bytes
shell_special = codes "|&;<>()$`\\\"' \t\n*?[#~=%"

unfoldable pub is_special : ℕ → Bool
unfolding contains
is_special c = contains shell_special c

-- How a shell reads a word: `none` if a quote stays open, or if a special character stands
-- outside quotes, so that the text is no plain word. The flag says whether a single quote is open.
unfoldable pub shell_word : Bool → Bytes → Option Bytes
unfolding is_special
shell_word true [] = none
shell_word false [] = some []
shell_word true (c ∷ s) =
    let outside = shell_word false s in
    let inside = shell_word true s in
    if c == apostrophe then outside else elim inside [ none ↦ none | some t ↦ some (c ∷ t) ]
shell_word false (c ∷ []) = if is_special c then none else some (c ∷ [])
shell_word false (c ∷ d ∷ s) =
    let inside = shell_word true (d ∷ s) in
    let escaped = shell_word false s in
    let plain = shell_word false (d ∷ s) in
    if c == apostrophe
    then inside
    else if c == b'\\'
    then (if d == b'\n' then none else elim escaped [ none ↦ none | some t ↦ some (d ∷ t) ])
    else if is_special c
    then none
    else elim plain [ none ↦ none | some t ↦ some (c ∷ t) ]

abbrev one_word : Option Bytes → Option (List Bytes)
one_word none = none
one_word (some word) = some (word ∷ [])

-- The words that a shell reads in a text that is one word or none: nothing at all is no word.
unfoldable pub read_words : Bytes → Option (List Bytes)
unfolding shell_word
read_words text = if is_empty text then some [] else one_word (shell_word false text)

if-append {ℓ} :
    {A : Type ℓ} (b : Bool) (p : List A) (x y : List A)
    → (if b then p ++ x else p ++ y) ≡ p ++ (if b then x else y)
if-append true p x y = refl
if-append false p x y = refl

-- What one byte adds to `ret`, and what all add.
behind : ℕ → Bytes
behind c = if c == apostrophe then codes "\\''" else []

body : Bytes → Bytes
body [] = []
body (c ∷ s) = c ∷ (behind c ++ body s)

unsafe : Bytes → Bool → Bool
unsafe [] q = q
unsafe (c ∷ s) q = unsafe s (if is_shell_safe c then q else true)

quote_loop-body : (s ret : Bytes) (q : Bool) → quote_loop s ret q ≡ (ret ++ body s, unsafe s q)
unfolding quote_loop body unsafe behind
quote_loop-body [] ret q = rw append-nil
quote_loop-body (c ∷ s) ret q =
    quote_loop-body s ((ret ++ c ∷ []) ++ behind c) (if is_shell_safe c then q else true)
    ∙ simp append_assoc

-- The quoted text behind the opening quote, closed.
tail : ℕ → Bytes → Bytes
tail c [] = if c == apostrophe then codes "'\\'" else c ∷ apostrophe ∷ []
tail c (d ∷ s) = c ∷ (behind c ++ tail d s)

close_quote-append :
    (p : Bytes) (x : ℕ) (q : Bytes) → close_quote (p ++ x ∷ q) ≡ p ++ close_quote (x ∷ q)
unfolding close_quote
close_quote-append p x q =
    rw (last_byte-append p x q, erase_last-append p x q, append_assoc p (x ∷ q))
      (if-append (last_byte (x ∷ q) == apostrophe) p _ _)

close_quote_last : (c : ℕ) → close_quote (c ∷ (behind c ++ [])) ≡ tail c []
unfolding close_quote tail behind last_byte erase_last
close_quote_last c = ground arith

close_quote-tail : (p : Bytes) (c : ℕ) (s : Bytes) → close_quote (p ++ body (c ∷ s)) ≡ p ++ tail c s
unfolding body
close_quote-tail p c [] = close_quote-append p c (behind c ++ []) ∙ ap (◌++◌ p) (close_quote_last c)
close_quote-tail p c (d ∷ s) =
    let q : Bytes = p ++ c ∷ behind c in
    ap close_quote (sym (append_assoc p (c ∷ behind c) (body (d ∷ s))))
    ∙ close_quote-tail q d s
    ∙ append_assoc p (c ∷ behind c) (tail d s)
    ∙ (unfold tail in refl)

shell_word_item :
    (c : ℕ) (r t : Bytes)
    → shell_word true r ≡ some t
    → shell_word true (c ∷ (behind c ++ r)) ≡ some (c ∷ t)
unfolding shell_word behind
shell_word_item c [] t h = cc
shell_word_item c (x ∷ r) t h = elim (Bool-cases (c == apostrophe)) [
  | inl is ↦ ground (arith, (==_iff c apostrophe).0 is)
  | inr is ↦ rw (is, behind) (rw h)
]

shell_word-tail : (c : ℕ) (s : Bytes) → shell_word true (tail c s) ≡ some (c ∷ s)
unfolding tail
shell_word-tail c [] = unfold shell_word in ground arith
shell_word-tail c (d ∷ s) = shell_word_item c (tail d s) (d ∷ s) (shell_word-tail d s)

unsafe-true : (s : Bytes) → unsafe s true ≡ true
unfolding unsafe
unsafe-true [] = refl
unsafe-true (c ∷ s) = elim (Bool-cases (is_shell_safe c)) [
  | inl e ↦ rw e (unsafe-true s)
  | inr e ↦ rw e (unsafe-true s)
]

is_shell_safe-cons :
    (c : ℕ) (s : Bytes)
    → unsafe (c ∷ s) false ≡ false
    → (is_shell_safe c ≡ true) × (unsafe s false ≡ false)
unfolding unsafe
is_shell_safe-cons c s h = elim (Bool-cases (is_shell_safe c)) [
  | inl e ↦ (e, rw e at h)
  | inr e ↦ cc (unsafe-true s, (let h' : unsafe s true ≡ false = rw e at h in h'))
]

is_special-is_shell_safe : (c : ℕ) → is_shell_safe c ≡ true → is_special c ≡ false
unfolding is_special is_shell_safe
is_special-is_shell_safe c h = ground arith

body_safe : (s : Bytes) → unsafe s false ≡ false → body s ≡ s
unfolding body behind
body_safe [] h = refl
body_safe (c ∷ s) h =
    let (safe, rest) = is_shell_safe-cons c s h in
    let e : (c == apostrophe) ≡ false = unfold is_shell_safe in ground arith in
    rw e (ap (◌∷◌ c) (body_safe s rest))

shell_word_safe : (s : Bytes) → unsafe s false ≡ false → shell_word false s ≡ some s
unfolding shell_word
shell_word_safe [] h = refl
shell_word_safe (c ∷ []) h = rw (is_special-is_shell_safe c (is_shell_safe-cons c [] h).0)
shell_word_safe (c ∷ d ∷ s) h =
    let (safe, rest) = is_shell_safe-cons c (d ∷ s) h in
    let e : (c == apostrophe) ≡ false = unfold is_shell_safe in ground arith in
    let b : (c == b'\\') ≡ false = unfold is_shell_safe in ground arith in
    rw e (rw b (rw (is_special-is_shell_safe c safe) (rw (shell_word_safe (d ∷ s) rest))))

shell_word_open : (t : Bytes) → shell_word false (apostrophe ∷ t) ≡ shell_word true t
unfolding shell_word
shell_word_open [] = refl
shell_word_open (c ∷ t) = refl

shell_word-quoted_all : (s : Bytes) → shell_word false (quoted s) ≡ some s
unfolding quoted
shell_word-quoted_all [] = unfold quote_loop shell_word in refl
shell_word-quoted_all (c ∷ s) =
    rw (quote_loop-body (c ∷ s) [] false) (elim (Bool-cases (unsafe (c ∷ s) false)) [
      | inl needed ↦ rw needed (
          rw (close_quote-tail (apostrophe ∷ []) c s)
            (shell_word_open (tail c s) ∙ shell_word-tail c s))
      | inr plain ↦ rw plain (rw (body_safe (c ∷ s) plain) (shell_word_safe (c ∷ s) plain))
    ])

quoted-cons : (c : ℕ) (s : Bytes) → is_empty (quoted (c ∷ s)) ≡ false
unfolding quoted shell_word
quoted-cons c s = not_nil (quoted (c ∷ s)) (shell_word-quoted_all (c ∷ s))
  where
    not_nil : (t : Bytes) → shell_word false t ≡ some (c ∷ s) → is_empty t ≡ false
    not_nil [] h = absurd (cc)
    not_nil (d ∷ t) h = refl

-- A shell reads the quoted text of a string that is not empty as one word, which is the string: no
-- special character stands outside quotes, and no quote stays open. That of the empty string it reads
-- as no word.
pub read_words-quoted :
    (s : Bytes) → read_words (quoted s) ≡ (if is_empty s then some [] else some (s ∷ []))
unfolding read_words
read_words-quoted [] = unfold quoted quote_loop in refl
read_words-quoted (c ∷ s) = rw (quoted-cons c s) (ap one_word (shell_word-quoted_all (c ∷ s)))
