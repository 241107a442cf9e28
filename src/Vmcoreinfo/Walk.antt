-- ===== src/Vmcoreinfo/Walk.antt =====
-- The rounds of the walk over the notes.
use kdump.Prelude.{
  ℕ, zero, suc, ◌+◌, ◌≤◌, false, Bytes, Result, ok, throw, ◌>>=◌, ltb, if◌then◌else◌, length, ◌≡◌,
  refl, arith, Bool-cases, inl, inr,
}
use kdump.Vmcoreinfo.Info.{VmcoreinfoError}
use kdump.Vmcoreinfo.Notes.{Note, note_end, read_note, is_plain, found_at, Found, walk}

note_end-later : (offset : ℕ) (note : Note) → offset + 12 ≤ note_end offset note
unfolding note_end
note_end-later offset note = omega arith

walk-fuel :
    (f g : ℕ) (buffer : Bytes) (offset : ℕ) (found : Found)
    → length buffer ≤ offset + f
    → length buffer ≤ offset + g
    → walk f buffer offset found ≡ walk g buffer offset found
unfolding walk
walk-fuel zero zero buffer offset found h k = refl
walk-fuel zero (suc g) buffer offset found h k =
    let e : ltb offset (length buffer) ≡ false = ground arith in rw e
walk-fuel (suc f) zero buffer offset found h k =
    let e : ltb offset (length buffer) ≡ false = ground arith in rw e
walk-fuel (suc f) (suc g) buffer offset found h k = elim (Bool-cases (ltb offset (length buffer))) [
  | inr past ↦ rw past
  | inl inside ↦ rw inside (
      fun_result (read_note buffer offset) (λ note. elim (Bool-cases (is_plain note.kind)) [
        | inl plain ↦ rw plain
        | inr other ↦
            let l = note_end-later offset note in
            rw other (
              walk-fuel f g buffer (note_end offset note) (found_at offset note found) (omega arith)
                (omega arith))
      ]))
]
  where
    fun_result :
        {A B : Type 0} (m : Result VmcoreinfoError A) {k l : A → Result VmcoreinfoError B}
        → ((a : A) → k a ≡ l a)
        → (m >>= k) ≡ (m >>= l)
    fun_result (ok a) e = e a
    fun_result (throw x) e = refl

-- The walk is the loop that the source writes, from any offset: it ends at the end of the buffer or
-- at the first VMCOREINFO note, and goes on behind any other. The rounds that the model gives it
-- are never used up.
pub walk_lem :
    (buffer : Bytes) (offset : ℕ) (found : Found)
    → walk (length buffer) buffer offset found ≡ (
        if ltb offset (length buffer)
        then (read_note buffer offset >>= λ note.
            if is_plain note.kind
            then ok (found_at offset note found)
            else walk (length buffer) buffer (note_end offset note) (found_at offset note found))
        else ok found)
unfolding walk
walk_lem buffer offset found =
    walk-fuel (length buffer) (suc (length buffer)) buffer offset found (omega arith) (omega arith)
