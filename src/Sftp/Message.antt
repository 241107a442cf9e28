-- ===== src/Sftp/Message.antt =====
-- `KSFTPErrorCode::message` in sshtransfer.cc.
use kdump.Prelude.{
  ℕ, zero, suc, ◌<◌, ◌≤◌, Bool, true, false, not, ◌||◌, List, [], ◌∷◌, none, some, Bytes, codes,
  ◌==◌, ==_iff, equal, equal_iff, get_elem?, length, tested, tested_lem, ◌≡◌, ◌≢◌, refl, ◌∙◌, arith,
  ltb, Bool-cases, inl, inr,
}

-- By the codes of the protocol, which are 0 to 21.
abbrev pub messages : List Bytes
messages =
    codes "OK"
    ∷ codes "End of file"
    ∷ codes "No such file"
    ∷ codes "Permission denied"
    ∷ codes "Failure"
    ∷ codes "Bad message"
    ∷ codes "No connection"
    ∷ codes "Connection lost"
    ∷ codes "Operation unsupported"
    ∷ codes "Invalid handle"
    ∷ codes "No such path"
    ∷ codes "File already exists"
    ∷ codes "Write protect"
    ∷ codes "No media"
    ∷ codes "No space on file system"
    ∷ codes "Quote exceeded"
    ∷ codes "Unknown principal"
    ∷ codes "Lock conflict"
    ∷ codes "Directory not empty"
    ∷ codes "Not a directory"
    ∷ codes "Invalid file name"
    ∷ codes "Link loop"
    ∷ []

unfoldable pub message : ℕ → Bytes
message code = elim (get_elem? messages code) [ none ↦ codes "Unknown error" | some msg ↦ msg ]

known : ℕ → Bool
known a = not (equal (message a) (codes "Unknown error"))

apart : ℕ → ℕ → Bool
apart a b = not (equal (message a) (message b)) || a == b

outside : (xs : List Bytes) (i : ℕ) → length xs ≤ i → get_elem? xs i ≡ none
outside [] i h = refl
outside (x ∷ xs) zero h = absurd (omega arith)
outside (x ∷ xs) (suc i) h = outside xs i (omega arith)

unknown_above : (b : ℕ) → 22 ≤ b → message b ≡ codes "Unknown error"
unfolding message
unknown_above b h = rw (message, outside messages b h)

apart_table : tested (λ a. tested (apart a) 22) 22 ≡ true
unfolding tested apart message equal
apart_table = refl

known_table : tested known 22 ≡ true
unfolding tested known message equal
known_table = refl

same_message : (a b : ℕ) → a < 22 → message a ≡ message b → a ≡ b
unfolding apart known
same_message a b h e =
    let same : equal (message a) (message b) ≡ true = (equal_iff (message a) (message b)).1 e in
    let table = tested_lem (λ x. tested (apart x) 22) 22 apart_table a h in
    elim (Bool-cases (ltb b 22)) [
      | inl small ↦
          let small' : b < 22 = ground arith in
          let cell : (not (equal (message a) (message b)) || a == b) ≡ true =
            tested_lem (apart a) 22 table b small' in
          let cell' : (a == b) ≡ true = rw same at cell in (==_iff a b).0 cell'
      | inr large ↦
          let k : not (equal (message a) (codes "Unknown error")) ≡ true =
            tested_lem known 22 known_table a h in
          let u : message a ≡ codes "Unknown error" = e ∙ unknown_above b (ground arith) in
          let v : equal (message a) (codes "Unknown error") ≡ true =
            (equal_iff (message a) (codes "Unknown error")).1 u in
          let bad : false ≡ true = rw v at k in cc
    ]

-- A code of the protocol is known by its message: no other code, of the protocol or not, has the
-- same.
pub message-distinct : (a b : ℕ) → a < 22 → a ≢ b → message a ≢ message b
message-distinct a b h differ e = differ (same_message a b h e)
