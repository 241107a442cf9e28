-- ===== src/Prelude/Effects.antt =====
-- Code that keeps a state and throws: an exception keeps the state.
pub data Outcome (S E A : Type 0) : Type 0 where
  done : A → S → Outcome S E A
  raised : E → S → Outcome S E A

abbrev pub M : Type 0 → Type 0 → Type 0 → Type 0
M S E A = S → Outcome S E A

abbrev pub pure : {S E A : Type 0} → A → M S E A
pure a s = done a s

abbrev pub raise : {S E A : Type 0} → E → M S E A
raise e s = raised e s

infixl 5 ◌>>=◌ ◌>>◌
abbrev pub ◌>>=◌ : {S E A B : Type 0} → M S E A → (A → M S E B) → M S E B
◌>>=◌ m f s = elim (m s) [ done a s' ↦ f a s' | raised e s' ↦ raised e s' ]

abbrev pub ◌>>◌ : {S E B : Type 0} → M S E (Unit {0}) → M S E B → M S E B
m >> k = m >>= λ _. k

-- try { m } catch (...) { cleanup; throw; }
abbrev pub on_error : {S E A : Type 0} → M S E A → M S E (Unit {0}) → M S E A
on_error m cleanup s = elim (m s) [
  | done a s' ↦ done a s'
  | raised e s' ↦ elim (cleanup s') [ done _ s'' ↦ raised e s'' | raised e' s'' ↦ raised e' s'' ]
]

-- The state at the end, however it comes.
abbrev pub after : {S E A : Type 0} → Outcome S E A → S
after (done a s) = s
after (raised e s) = s
