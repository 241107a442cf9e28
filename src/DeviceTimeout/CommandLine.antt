-- ===== src/DeviceTimeout/CommandLine.antt =====
-- `parse_args` as the loop that the source writes, and command lines made of words.
use kdump.Prelude.{
  ℕ, zero, suc, ◌-◌, ◌≤◌, Bool, false, ◌&&◌, ◌||◌, not, List, [], ◌∷◌, ◌++◌, ◌≡◌, ◌≢◌, refl, ◌∙◌,
  Option, none, some, arith, Bytes, ◌==◌, if◌then◌else◌, length, drop, length-drop, isspace, All,
  Bool-cases, inl, inr,
}
use kdump.DeviceTimeout.Args.{
  Arg, skipws, arg_loop, is_some, finish_arg, get_arg, args_from, parse_args,
}
use kdump.DeviceTimeout.Words.{
  IsWord, word_text, words_text, steps, get_arg-word_text, skipws-word_text, word_text-ne-nil,
}

length-skipws : (s : Bytes) → length (skipws s) ≤ length s
unfolding skipws
length-skipws [] = omega arith
length-skipws (c ∷ s) = ground (arith, length-skipws s)

skipws-skipws : (s : Bytes) → skipws (skipws s) ≡ skipws s
unfolding skipws
skipws-skipws [] = refl
skipws-skipws (c ∷ s) = ground (arith, skipws-skipws s)

length-arg_loop :
    (inquote : Bool) (val : Option ℕ) (text s : Bytes)
    → length (arg_loop inquote val text s).rest ≤ length s
unfolding arg_loop
length-arg_loop inquote val text [] = omega arith
length-arg_loop inquote val text (c ∷ s) =
    let divides = not (c == b'"') && c == b'=' && not (is_some val) in
    let later =
      length-arg_loop (if c == b'"' then not inquote else inquote)
        (if divides then some (suc (length text)) else val)
        (text ++ (if divides then 0 else c) ∷ []) s in
    elim (Bool-cases (inquote || not (isspace c))) [
      | inl more ↦ rw more (omega (arith, later))
      | inr stop ↦ rw stop (omega arith)
    ]

rest_of : Bytes × Option Bytes × Bytes → Bytes
rest_of (key, val, rest) = rest

length-finish_arg : (arg : Arg) → length (rest_of (finish_arg arg)) ≤ length arg.rest - 1
unfolding finish_arg rest_of
length-finish_arg arg =
    let shorter = length-skipws (drop 1 arg.rest) in
    let fewer = length-drop 1 arg.rest in
    elim (arg.val)
      as (λ v. length (rest_of (finish_arg (record arg { val = v }))) ≤ length arg.rest - 1) [
        | none ↦ omega (arith, shorter, fewer)
        | some n ↦ omega (arith, shorter, fewer)
      ]

length-get_arg : (c : ℕ) (p : Bytes) → length (get_arg (c ∷ p)).2 ≤ length p
unfolding get_arg rest_of
length-get_arg c p = omega (
  arith,
  length-finish_arg (arg_loop false none [] (c ∷ p)),
  length-arg_loop false none [] (c ∷ p),
)

skipws-get_arg : (s : Bytes) → skipws (get_arg s).2 ≡ (get_arg s).2
unfolding get_arg finish_arg
skipws-get_arg s =
    let arg = arg_loop false none [] s in
    elim (arg.val)
      as (λ v.
        skipws (finish_arg (record arg { val = v })).2 ≡ (finish_arg (record arg { val = v })).2) [
          | none ↦ skipws-skipws (drop 1 arg.rest)
          | some n ↦ skipws-skipws (drop 1 arg.rest)
        ]

length-rest : (args : Bytes) → length (get_arg args).2 ≤ length args - 1
length-rest [] = unfold get_arg finish_arg arg_loop skipws in omega arith
length-rest (c ∷ p) = let fewer = length-get_arg c p in omega arith

module _ {S : Type 0} (parse : Bytes → Option Bytes → S → S) where
  -- One round more than `f` for `g` is the same, if both are enough.
  args_from_steady :
      (f g : ℕ) (p : Bytes) (s : S)
      → length p ≤ f
      → length p ≤ g
      → args_from parse f p s ≡ args_from parse g p s
  unfolding args_from
  args_from_steady zero zero p s hf hg = refl
  args_from_steady zero (suc g) [] s hf hg = refl
  args_from_steady zero (suc g) (c ∷ p) s hf hg = absurd (omega arith)
  args_from_steady (suc f) zero [] s hf hg = refl
  args_from_steady (suc f) zero (c ∷ p) s hf hg = absurd (omega arith)
  args_from_steady (suc f) (suc g) [] s hf hg = refl
  args_from_steady (suc f) (suc g) (c ∷ p) s hf hg =
      let fewer = length-get_arg c p in
      let (key, val, rest) = get_arg (c ∷ p) in
      args_from_steady f g rest (parse key val s) (omega arith) (omega arith)

  -- One round of the loop.
  round : Bytes → S → S
  round [] s = s
  round (c ∷ p) s =
      let (key, val, rest) = get_arg (c ∷ p) in parse_args parse rest (parse key val s)

  parse_args-from : (p : Bytes) (s : S) → args_from parse (length p) p s ≡ round p s
  unfolding parse_args args_from round
  parse_args-from [] s = refl
  parse_args-from (c ∷ p) s =
      let fewer = length-get_arg c p in
      let steady = skipws-get_arg (c ∷ p) in
      let (key, val, rest) = get_arg (c ∷ p) in
      rw steady
        (args_from_steady (length p) (length rest) rest (parse key val s) fewer (omega arith))

  parse_args_lem :
      (args : Bytes) (s : S)
      → parse_args parse args s ≡ (elim (skipws args) [
        | [] ↦ s
        | c ∷ p ↦ let (key, val, rest) = get_arg (c ∷ p) in parse_args parse rest (parse key val s)
      ])
  unfolding parse_args round
  parse_args_lem args s =
      parse_args-from (skipws args) s
      ∙ elim (skipws args)
          as (λ p. round p s ≡ (elim p [
            | [] ↦ s
            | c ∷ p ↦
                let (key, val, rest) = get_arg (c ∷ p) in parse_args parse rest (parse key val s)
          ])) [ [] ↦ refl | c ∷ p ↦ refl ]

  -- The loop ends: an argument that is taken off makes the command line shorter, by a character at
  -- least, so that as many rounds as the line has characters are enough for every parser, and any
  -- larger number gives the same result.
  pub args_from-parse_args :
      (fuel : ℕ) (args : Bytes) (s : S)
      → length args ≤ fuel
      → (length (get_arg args).2 ≤ length args - 1)
        × (args_from parse fuel (skipws args) s ≡ parse_args parse args s)
  unfolding parse_args
  args_from-parse_args fuel args s enough =
      let shorter = length-skipws args in
      (
        length-rest args,
        args_from_steady fuel (length (skipws args)) (skipws args) s (omega arith) (omega arith),
      )

  parse_args-skipws :
      (args : Bytes) (s : S) → parse_args parse (skipws args) s ≡ parse_args parse args s
  unfolding parse_args
  parse_args-skipws args s = rw (skipws-skipws args)

  parse_args-get_arg :
      (args : Bytes) (key : Bytes) (val : Option Bytes) (rest : Bytes) (s : S)
      → skipws args ≡ args
      → args ≢ []
      → get_arg args ≡ (key, val, rest)
      → parse_args parse args s ≡ parse_args parse rest (parse key val s)
  parse_args-get_arg [] key val rest s steady there e = absurd (there refl)
  parse_args-get_arg (c ∷ p) key val rest s steady there e =
      parse_args_lem (c ∷ p) s ∙ rw (steady, e)

  -- The words of a command line are parsed in their order, each once: the keys hold no space, '"',
  -- '=' or NUL, and are not empty; the values in quotes hold no '"' or NUL, and may hold spaces.
  pub parse_args-words_text :
      (words : List (Bytes × Option Bytes)) (s : S)
      → All IsWord words
      → parse_args parse (words_text words) s ≡ steps parse words s
  unfolding words_text steps
  parse_args-words_text [] s h = unfold parse_args args_from skipws in refl
  parse_args-words_text ((key, val) ∷ words) s h =
      let line = words_text words in
      parse_args-get_arg (word_text key val ++ line) key val (skipws line) s
        (skipws-word_text key val line h.0) (word_text-ne-nil key val line h.0)
        (get_arg-word_text key val line h.0)
      ∙ parse_args-skipws line (parse key val s)
      ∙ parse_args-words_text words (parse key val s) h.1
