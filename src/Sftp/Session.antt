-- ===== src/Sftp/Session.antt =====
-- The state of an `SFTPTransfer`, and its operations' monad. The pipes to and from the server are
-- lists of what the calls of `write` and `read` will do. An exception keeps the state.
use kdump.Prelude.{ℕ, List, Bytes, Result, ok, throw, ◌≡◌}
use kdump.Sftp.Packet.{SftpError}

-- write(fd, p, n): it takes some of the bytes (at most n), or fails. Where the list ends, every
-- call takes all.
pub data Write : Type 0 where
  taken : ℕ → Write
  broken : Write

-- read(fd, p, n): the bytes that are there (at most n of them are returned, and the others stay),
-- or a failure. No bytes, and the end of the list, are the end of the file.
pub data Read : Type 0 where
  got : Bytes → Read
  failed : Read

-- What the client does to the data provider.
pub data Event : Type 0 where
  prepared finished : Event

pub record Session : Type 0 where
  pub lastid : ℕ
  pub incoming : List Read
  pub writes : List Write
  -- all that has been written, in order
  pub wire : Bytes
  pub events : List Event

pub data Outcome (A : Type 0) : Type 0 where
  done : A → Session → Outcome A
  raised : SftpError → Session → Outcome A

abbrev pub M : Type 0 → Type 0
M A = Session → Outcome A

abbrev pub pure : {A : Type 0} → A → M A
pure a s = done a s

abbrev pub raise : {A : Type 0} → SftpError → M A
raise e s = raised e s

infixl 5 ◌>>=◌ ◌>>◌
abbrev pub ◌>>=◌ : {A B : Type 0} → M A → (A → M B) → M B
◌>>=◌ m f s = elim (m s) [ done a s' ↦ f a s' | raised e s' ↦ raised e s' ]

abbrev pub ◌>>◌ : {B : Type 0} → M (Unit {0}) → M B → M B
m >> k = m >>= λ _. k

abbrev pub lift : {A : Type 0} → Result SftpError A → M A
lift (ok a) s = done a s
lift (throw e) s = raised e s

-- try { m } catch (...) { cleanup; throw; }
abbrev pub on_error : {A : Type 0} → M A → M (Unit {0}) → M A
on_error m cleanup s = elim (m s) [
  | done a s' ↦ done a s'
  | raised e s' ↦ elim (cleanup s') [ done _ s'' ↦ raised e s'' | raised e' s'' ↦ raised e' s'' ]
]

module _ {A B : Type 0} (m : M A) (f : A → M B) where
  pub bind-done : {a : A} {s s' : Session} → m s ≡ done a s' → (m >>= f) s ≡ f a s'
  bind-done e = rw (◌>>=◌, e)

  pub bind-raised : {e : SftpError} {s s' : Session} → m s ≡ raised e s' → (m >>= f) s ≡ raised e s'
  bind-raised e = rw (◌>>=◌, e)
