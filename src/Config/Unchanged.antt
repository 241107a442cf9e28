-- ===== src/Config/Unchanged.antt =====
-- What `readCmdLine` makes of a command line that `dump_config` prints.
use kdump.Prelude.{
  ℕ, Bool, true, false, List, [], ◌∷◌, map, ◌≡◌, refl, ap, sym, ◌∙◌, none, some, Bytes, Result, ok,
  throw, equal, equal_iff, All, if◌then◌else◌, Bool-cases, inl, inr,
}
use kdump.Prelude.Dict.{lookup, insert, lookup-insert}
use kdump.KString.Number.{extract_int-number2string, InRange, int_max}
use kdump.Config.KernelParser.{Variables, ConfigError, no_variable, add_variable, get_value, parse}
use kdump.Config.Dump.{ConfigOption, kernel, is_printed, execute}
use kdump.Config.RoundTrip.{IsName, set_all, parse_text-execute}
use kdump.Config.Options.{
  Value, string_value, int_value, bool_value, StoredOption, value_as_string, update_value,
  add_variables, update_options, read_cmdline,
}

-- The value is one of its type in C++.
abbrev pub Fits : Value → Type 0
Fits (string_value s) = Unit
Fits (int_value n) = InRange int_max n
Fits (bool_value b) = Unit

abbrev pub SameType : Value → Value → Type 0
SameType (string_value a) (string_value b) = Unit
SameType (int_value a) (int_value b) = Unit
SameType (bool_value a) (bool_value b) = Unit
SameType _ _ = ⊥

-- An option of the program that reads the command line, with the value it has there, and as the program
-- that prints it has it.
pub record Change : Type 0 where
  pub name : Bytes
  pub old : Value
  pub new : Value
  pub usage : ℕ
  pub is_default : Bool

abbrev pub stored : Change → StoredOption
stored c = record { name = c.name; value = c.old }

abbrev pub printed : Change → ConfigOption
printed c = record {
  name = c.name;
  usage = c.usage;
  is_default = c.is_default;
  value = value_as_string c.new;
}

-- Its value is the new one if it is printed.
abbrev pub changed : ℕ → Bool → Change → StoredOption
changed usage nodefault c = record {
  name = c.name;
  value = if is_printed usage nodefault (printed c) then c.new else c.old;
}

abbrev pub IsChange : Change → Type 0
IsChange c = IsName c.name × Fits c.old × Fits c.new × SameType c.old c.new

-- No name stands twice.
abbrev Others : Bytes → List Change → Type 0
Others name = All (λ c. equal c.name name ≡ false)

abbrev pub Distinct : List Change → Type 0
Distinct [] = Unit
Distinct (c ∷ cs) = Others c.name cs × Distinct cs

update_value-value_as_string :
    (old new : Value) → SameType old new → Fits new → update_value old (value_as_string new) ≡ new
unfolding update_value value_as_string
update_value-value_as_string (string_value a) (string_value s) t h = refl
update_value-value_as_string (int_value a) (int_value n) t h =
    ap int_value (extract_int-number2string a n h)
update_value-value_as_string (bool_value a) (bool_value true) t h = unfold equal in refl
update_value-value_as_string (bool_value a) (bool_value false) t h = unfold equal in refl
update_value-value_as_string (string_value a) (int_value n) t h = absurd t
update_value-value_as_string (string_value a) (bool_value b) t h = absurd t
update_value-value_as_string (int_value a) (string_value s) t h = absurd t
update_value-value_as_string (int_value a) (bool_value b) t h = absurd t
update_value-value_as_string (bool_value a) (string_value s) t h = absurd t
update_value-value_as_string (bool_value a) (int_value n) t h = absurd t

same_type : (v : Value) → SameType v v
same_type (string_value a) = tt
same_type (int_value a) = tt
same_type (bool_value a) = tt

equal_refl : (s : Bytes) → equal s s ≡ true
equal_refl s = (equal_iff s s).1 refl

equal-swap : (a b : Bytes) → equal a b ≡ false → equal b a ≡ false
equal-swap a b h = elim (Bool-cases (equal b a)) [
  | inl same ↦
      (let e : a ≡ b = sym ((equal_iff b a).0 same) in absurd (cc (h, (equal_iff a b).1 e)))
  | inr other ↦ other
]

lookup-insert_other :
    (k j : Bytes) (v : Bytes) (m : Variables)
    → equal k j ≡ false
    → lookup j (insert k v m) ≡ lookup j m
lookup-insert_other k j v m h = lookup-insert k j v m ∙ rw h refl

lookup-insert_same : (k v : Bytes) (m : Variables) → lookup k (insert k v m) ≡ some v
lookup-insert_same k v m = lookup-insert k k v m ∙ rw (equal_refl k) refl

lookup-add_variables :
    (name : Bytes) (cs : List Change) (m : Variables)
    → Others name cs
    → lookup name (add_variables (map stored cs) m) ≡ lookup name m
unfolding add_variables add_variable
lookup-add_variables name [] m h = refl
lookup-add_variables name (c ∷ cs) m (h, hs) =
    lookup-add_variables name cs (insert c.name (value_as_string c.old) m) hs
    ∙ lookup-insert_other c.name name (value_as_string c.old) m h

-- The variable of an option holds a value.
abbrev Holds : Variables → (Change → Value) → Change → Type 0
Holds m value c = lookup c.name m ≡ some (value_as_string (value c))

abbrev old_value : Change → Value
old_value c = c.old

add_variables-Holds :
    (cs : List Change) (m : Variables)
    → Distinct cs
    → All (Holds (add_variables (map stored cs) m) old_value) cs
unfolding add_variables add_variable
add_variables-Holds [] m h = tt
add_variables-Holds (c ∷ cs) m (h, hs) =
    let m' = insert c.name (value_as_string c.old) m in
    (
      lookup-add_variables c.name cs m' h ∙ lookup-insert_same c.name (value_as_string c.old) m,
      add_variables-Holds cs m' hs,
    )

module _ (usage : ℕ) (nodefault : Bool) where
  abbrev new_value : Change → Value
  new_value c = if is_printed usage nodefault (printed c) then c.new else c.old

  -- The variables behind one option of the command line.
  abbrev set_one : Change → Variables → Variables
  set_one c m =
      if is_printed usage nodefault (printed c) then insert c.name (value_as_string c.new) m else m

  lookup-set_one_other :
      (c : Change) (name : Bytes) (m : Variables)
      → equal c.name name ≡ false
      → lookup name (set_one c m) ≡ lookup name m
  lookup-set_one_other c name m h = elim (Bool-cases (is_printed usage nodefault (printed c))) [
    | inl shown ↦ rw shown (lookup-insert_other c.name name (value_as_string c.new) m h)
    | inr hidden ↦ rw hidden refl
  ]

  lookup-set_one_same :
      (c : Change) (m : Variables)
      → Holds m old_value c
      → lookup c.name (set_one c m) ≡ some (value_as_string (new_value c))
  lookup-set_one_same c m h = elim (Bool-cases (is_printed usage nodefault (printed c))) [
    | inl shown ↦ rw shown (lookup-insert_same c.name (value_as_string c.new) m)
    | inr hidden ↦ rw hidden h
  ]

  lookup-set_all :
      (name : Bytes) (cs : List Change) (m : Variables)
      → Others name cs
      → lookup name (set_all usage nodefault (map printed cs) m) ≡ lookup name m
  lookup-set_all name [] m h = refl
  lookup-set_all name (c ∷ cs) m (h, hs) =
      lookup-set_all name cs (set_one c m) hs ∙ lookup-set_one_other c name m h

  keep-Others :
      (c : Change) (cs : List Change) (m : Variables)
      → Others c.name cs
      → All (Holds m old_value) cs
      → All (Holds (set_one c m) old_value) cs
  keep-Others c [] m h k = tt
  keep-Others c (d ∷ cs) m (h, hs) (k, ks) =
      (lookup-set_one_other c d.name m (equal-swap d.name c.name h) ∙ k, keep-Others c cs m hs ks)

  set_all-Holds :
      (cs : List Change) (m : Variables)
      → Distinct cs
      → All (Holds m old_value) cs
      → All (Holds (set_all usage nodefault (map printed cs) m) new_value) cs
  set_all-Holds [] m h k = tt
  set_all-Holds (c ∷ cs) m (h, hs) (k, ks) = (
    lookup-set_all c.name cs (set_one c m) h ∙ lookup-set_one_same c m k,
    set_all-Holds cs (set_one c m) hs (keep-Others c cs m h ks),
  )

  get_value-some :
      (name v : Bytes) (m : Variables) → lookup name m ≡ some v → get_value name m ≡ ok v
  unfolding get_value
  get_value-some name v m h =
      ap
        (λ o. elim o as (λ _. Result ConfigError Bytes) [
          | none ↦ throw (no_variable name)
          | some v ↦ ok v
        ])
        h

  updated_value :
      (c : Change) → IsChange c → update_value c.old (value_as_string (new_value c)) ≡ new_value c
  updated_value c (named, old, new, same) =
      elim (Bool-cases (is_printed usage nodefault (printed c))) [
        | inl shown ↦ rw shown (update_value-value_as_string c.old c.new same new)
        | inr hidden ↦ rw hidden (update_value-value_as_string c.old c.old (same_type c.old) old)
      ]

  update_options-Holds :
      (cs : List Change) (m : Variables)
      → All (Holds m new_value) cs
      → All IsChange cs
      → update_options (map stored cs) m ≡ ok (map (changed usage nodefault) cs)
  unfolding update_options
  update_options-Holds [] m h f = refl
  update_options-Holds (c ∷ cs) m (h, hs) (f, fs) =
      rw (get_value-some c.name (value_as_string (new_value c)) m h)
        (rw (update_options-Holds cs m hs fs) (rw (updated_value c f) refl))

  names_of : (cs : List Change) → All IsChange cs → All (λ o. IsName o.name) (map printed cs)
  names_of [] h = tt
  names_of (c ∷ cs) (h, hs) = (h.0, names_of cs hs)

  -- From a command line that `dump_config` prints, `readCmdLine` takes just the options that are
  -- printed: each of these has the value that was printed, and each other one keeps its own. No name
  -- stands twice, and the names are such as `parse_text-execute` is about; the two values of an option
  -- are of one type, and its integers fit in an int.
  pub read_cmdline-execute :
      (filename : Bytes) (cs : List Change)
      → Distinct cs
      → All IsChange cs
      → read_cmdline filename
          (some (execute kernel usage nodefault (map printed cs)))
          (map stored cs)
        ≡ ok (map (changed usage nodefault) cs)
  unfolding read_cmdline parse
  read_cmdline-execute filename cs h f =
      let m = add_variables (map stored cs) [] in
      rw (parse_text-execute usage nodefault (map printed cs) m (names_of cs f)) (
        update_options-Holds cs (set_all usage nodefault (map printed cs) m)
          (set_all-Holds cs m h (add_variables-Holds cs [] h)) f)
