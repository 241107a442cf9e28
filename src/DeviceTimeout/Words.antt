-- ===== src/DeviceTimeout/Words.antt =====
-- The words of a command line, and `parse_args` on them.
use kdump.Prelude.{
  ℕ, suc, ◌+◌, true, false, ◌||◌, List, [], ◌∷◌, ◌++◌, append_assoc, append-nil, ◌≡◌, ◌≢◌, refl, ap,
  ◌∙◌, Option, none, some, arith, Bytes, ◌==◌, length, drop, isspace, last_byte, erase_last,
  last_byte-append, erase_last-append, All,
}
use kdump.DeviceTimeout.Args.{cstr, skipws, arg_loop, unquote, finish_arg, get_arg}

abbrev pub KeyByte : ℕ → Type 0
KeyByte c = (isspace c || c == b'"' || c == b'=' || c == 0) ≡ false

abbrev pub ValueByte : ℕ → Type 0
ValueByte c = (c == b'"' || c == 0) ≡ false

abbrev pub NonNul : ℕ → Type 0
NonNul c = (c == 0) ≡ false

-- A key alone, or with a value in quotes, and a space behind.
unfoldable pub word_text : Bytes → Option Bytes → Bytes
word_text key none = key ++ b' ' ∷ []
word_text key (some val) = key ++ (b'=' ∷ b'"' ∷ val ++ b'"' ∷ b' ' ∷ [])

abbrev pub IsKey : Bytes → Type 0
IsKey [] = ⊥
IsKey (c ∷ s) = KeyByte c × All KeyByte s

abbrev pub IsWord : Bytes × Option Bytes → Type 0
IsWord (key, none) = IsKey key
IsWord (key, some val) = IsKey key × All ValueByte val

pub cstr-append : (p s : Bytes) → All NonNul p → cstr (p ++ 0 ∷ s) ≡ p
unfolding cstr
cstr-append [] s h = refl
cstr-append (c ∷ p) s h = rw h.0 (ap (◌∷◌ c) (cstr-append p s h.1))

pub cstr_self : (p : Bytes) → All NonNul p → cstr p ≡ p
unfolding cstr
cstr_self [] h = refl
cstr_self (c ∷ p) h = rw h.0 (ap (◌∷◌ c) (cstr_self p h.1))

NonNul-key : (p : Bytes) → All KeyByte p → All NonNul p
NonNul-key [] h = tt
NonNul-key (c ∷ p) h = let e = h.0 in (ground arith, NonNul-key p h.1)

NonNul-IsKey : (p : Bytes) → IsKey p → All NonNul p
NonNul-IsKey [] h = tt
NonNul-IsKey (c ∷ p) h = NonNul-key (c ∷ p) h

NonNul-value : (p : Bytes) → All ValueByte p → All NonNul p
NonNul-value [] h = tt
NonNul-value (c ∷ p) h = let e = h.0 in (ground arith, NonNul-value p h.1)

arg_loop-key :
    (text p s : Bytes)
    → All KeyByte p
    → arg_loop false none text (p ++ s) ≡ arg_loop false none (text ++ p) s
unfolding arg_loop
arg_loop-key text [] s h = rw (append-nil text)
arg_loop-key text (c ∷ p) s h =
    let e = h.0 in
    let step : arg_loop false none text (c ∷ p ++ s)
        ≡ arg_loop false none (text ++ c ∷ []) (p ++ s) =
      ground arith in
    step ∙ arg_loop-key (text ++ c ∷ []) p s h.1 ∙ rw (append_assoc text (c ∷ []) p)

arg_loop-value :
    (n : ℕ) (text p s : Bytes)
    → All ValueByte p
    → arg_loop true (some n) text (p ++ s) ≡ arg_loop true (some n) (text ++ p) s
unfolding arg_loop
arg_loop-value n text [] s h = rw (append-nil text)
arg_loop-value n text (c ∷ p) s h =
    let e = h.0 in
    let step : arg_loop true (some n) text (c ∷ p ++ s)
        ≡ arg_loop true (some n) (text ++ c ∷ []) (p ++ s) =
      ground arith in
    step ∙ arg_loop-value n (text ++ c ∷ []) p s h.1 ∙ rw (append_assoc text (c ∷ []) p)

-- The loop stops behind a key that stands alone.
loop-key :
    (p s : Bytes)
    → All KeyByte p
    → arg_loop false none [] (p ++ b' ' ∷ s) ≡ record { text = p; val = none; rest = b' ' ∷ s }
unfolding arg_loop
loop-key p s h = arg_loop-key [] p (b' ' ∷ s) h

quoted_arg : Bytes → Bytes → Bytes
quoted_arg p v = p ++ (0 ∷ b'"' ∷ v ++ b'"' ∷ [])

-- And behind a value in quotes.
loop-quoted :
    (p v s : Bytes)
    → All KeyByte p
    → All ValueByte v
    → arg_loop false none [] (p ++ (b'=' ∷ b'"' ∷ v ++ b'"' ∷ b' ' ∷ s))
      ≡ record { text = quoted_arg p v; val = some (suc (length p)); rest = b' ' ∷ s }
unfolding arg_loop quoted_arg
loop-quoted p v s h k =
    arg_loop-key [] p (b'=' ∷ b'"' ∷ v ++ b'"' ∷ b' ' ∷ s) h
    ∙ arg_loop-value (suc (length p)) ((p ++ 0 ∷ []) ++ b'"' ∷ []) v (b'"' ∷ b' ' ∷ s) k
    ∙ simp append_assoc

unquote-key : (p s : Bytes) → IsKey p → unquote (p ++ s) 0 ≡ (p ++ s, 0)
unfolding unquote
unquote-key [] s h = absurd h
unquote-key (c ∷ p) s h = let e = h.0 in ground arith

unquote-closed :
    (text : Bytes) (n : ℕ) (q : Bytes)
    → drop n text ≡ b'"' ∷ q
    → last_byte text ≡ b'"'
    → unquote text n ≡ (erase_last text ++ 0 ∷ [], n + 1)
unfolding unquote
unquote-closed text n q front last = rw (unquote, front, last)

drop-key : (p s : Bytes) (c : ℕ) → drop (suc (length p)) (p ++ c ∷ s) ≡ s
drop-key [] s c = refl
drop-key (x ∷ p) s c = drop-key p s c

drop-key_quote : (p s : Bytes) (c d : ℕ) → drop (suc (length p) + 1) (p ++ c ∷ d ∷ s) ≡ s
drop-key_quote [] s c d = refl
drop-key_quote (x ∷ p) s c d =
    let e : suc (length (x ∷ p)) + 1 ≡ suc (suc (length p) + 1) = omega arith in
    rw e (drop-key_quote p s c d)

unquote-quoted :
    (p v : Bytes)
    → unquote (quoted_arg p v) (suc (length p))
      ≡ (p ++ (0 ∷ b'"' ∷ v ++ 0 ∷ []), suc (length p) + 1)
unfolding quoted_arg last_byte erase_last
unquote-quoted p v =
    let whole : Bytes = quoted_arg p v in
    let front = drop-key p (b'"' ∷ v ++ b'"' ∷ []) 0 in
    let regroup : whole ≡ (p ++ (0 ∷ b'"' ∷ v)) ++ b'"' ∷ [] = simp append_assoc in
    let last = ap last_byte regroup ∙ last_byte-append (p ++ (0 ∷ b'"' ∷ v)) b'"' [] in
    let erased : erase_last whole ≡ p ++ (0 ∷ b'"' ∷ v) =
      ap erase_last regroup ∙ erase_last-append (p ++ (0 ∷ b'"' ∷ v)) b'"' [] ∙ append-nil _ in
    unquote-closed whole (suc (length p)) (v ++ b'"' ∷ []) front last
    ∙ ap (λ t. (t ++ 0 ∷ [], suc (length p) + 1)) erased
    ∙ ap (λ t. (t, suc (length p) + 1)) (append_assoc p (0 ∷ b'"' ∷ v) (0 ∷ []))

finish_arg-key :
    (key s : Bytes)
    → IsKey key
    → finish_arg (record { text = key; val = none; rest = b' ' ∷ s }) ≡ (key, none, skipws s)
unfolding finish_arg
finish_arg-key [] s h = absurd h
finish_arg-key (c ∷ key) s h =
    let first : unquote (c ∷ key) 0 ≡ (c ∷ key, 0) =
      let e = h.0 in unfold unquote in ground arith in
    rw (first, cstr_self (c ∷ key) (NonNul-key (c ∷ key) h))

finish_arg-quoted :
    (key val s : Bytes)
    → IsKey key
    → All ValueByte val
    → finish_arg
        (record { text = quoted_arg key val; val = some (suc (length key)); rest = b' ' ∷ s })
      ≡ (key, some val, skipws s)
unfolding finish_arg
finish_arg-quoted key val s h k =
    let first : unquote (quoted_arg key val) 0 ≡ (quoted_arg key val, 0) =
      unfold quoted_arg in unquote-key key (0 ∷ b'"' ∷ val ++ b'"' ∷ []) h in
    let named = cstr-append key (b'"' ∷ val ++ 0 ∷ []) (NonNul-IsKey key h) in
    let valued =
      ap cstr (drop-key_quote key (val ++ 0 ∷ []) 0 b'"')
      ∙ cstr-append val [] (NonNul-value val k) in
    rw (first, unquote-quoted key val, named, valued)

IsKey-bytes : (key : Bytes) → IsKey key → All KeyByte key
IsKey-bytes [] h = tt
IsKey-bytes (c ∷ key) h = h

-- An argument is taken off the line, with the spaces behind it.
pub get_arg-word_text :
    (key : Bytes) (val : Option Bytes) (s : Bytes)
    → IsWord (key, val)
    → get_arg (word_text key val ++ s) ≡ (key, val, skipws s)
unfolding get_arg word_text
get_arg-word_text key none s h =
    ap get_arg (append_assoc key (b' ' ∷ []) s)
    ∙ ap finish_arg (loop-key key s (IsKey-bytes key h))
    ∙ finish_arg-key key s h
get_arg-word_text key (some val) s h =
    ap get_arg (append_assoc key (b'=' ∷ b'"' ∷ val ++ b'"' ∷ b' ' ∷ []) s)
    ∙ ap (λ t. get_arg (key ++ (b'=' ∷ b'"' ∷ t))) (append_assoc val (b'"' ∷ b' ' ∷ []) s)
    ∙ ap finish_arg (loop-quoted key val s (IsKey-bytes key h.0) h.1)
    ∙ finish_arg-quoted key val s h.0 h.1

unfoldable pub words_text : List (Bytes × Option Bytes) → Bytes
unfolding word_text
words_text [] = []
words_text ((key, val) ∷ words) = word_text key val ++ words_text words

-- A parser's steps, one for each word.
module _ {S : Type 0} (parse : Bytes → Option Bytes → S → S) where
  unfoldable pub steps : List (Bytes × Option Bytes) → S → S
  steps [] s = s
  steps ((key, val) ∷ words) s = steps words (parse key val s)

skipws-key : (key s : Bytes) → IsKey key → skipws (key ++ s) ≡ key ++ s
unfolding skipws
skipws-key [] s h = absurd h
skipws-key (c ∷ key) s h = let e = h.0 in ground arith

pub skipws-word_text :
    (key : Bytes) (val : Option Bytes) (s : Bytes)
    → IsWord (key, val)
    → skipws (word_text key val ++ s) ≡ word_text key val ++ s
unfolding word_text
skipws-word_text key none s h = rw (append_assoc key (b' ' ∷ []) s) (skipws-key key (b' ' ∷ s) h)
skipws-word_text key (some val) s h =
    let behind : Bytes = b'=' ∷ b'"' ∷ val ++ b'"' ∷ b' ' ∷ [] in
    rw (append_assoc key behind s) (skipws-key key (behind ++ s) h.0)

pub word_text-ne-nil :
    (key : Bytes) (val : Option Bytes) (s : Bytes) → IsWord (key, val) → word_text key val ++ s ≢ []
unfolding word_text
word_text-ne-nil [] none s h = absurd h
word_text-ne-nil [] (some val) s h = absurd h.0
word_text-ne-nil (c ∷ key) none s h = λ e. cc
word_text-ne-nil (c ∷ key) (some val) s h = λ e. cc
