-- ===== src/Transfer/Buffer.antt =====
-- `BufferDataProvider` as what a transfer sees of it.
use kdump.Prelude.{
  ℕ, zero, suc, ◌<◌, Bool, true, List, [], ◌∷◌, ◌++◌, ◌≡◌, refl, ap, ◌∙◌, arith, Bytes,
  if◌then◌else◌, length, take, drop, min, take-append-drop, length-drop, is_empty,
}
use kdump.Prelude.Effects.{done}
use kdump.Sftp.Session.{prepared, finished}
use kdump.Sftp.Client.{Chunk, chunk, Provider}
use kdump.Transfer.Provider.{buffer_get_data}
use kdump.Transfer.Pipe.{Disk, perform_pipe}
use kdump.Transfer.Content.{delivered, Readable, perform_pipe-content}

-- What the calls of `getData` give, up to the first that gives nothing.
unfoldable pub buffer_chunks : ℕ → ℕ → Bytes → List Chunk
unfolding buffer_get_data
buffer_chunks zero maxread s = []
buffer_chunks (suc f) maxread s =
    let (got, left) = buffer_get_data maxread s in
    let later = buffer_chunks f maxread left in chunk got ∷ (if is_empty got then [] else later)

-- The buffer of a provider, in calls of `getData` with `maxread`.
unfoldable pub buffer_provider : ℕ → Bytes → Provider
unfolding buffer_chunks
buffer_provider maxread s = record {
  prepares = true;
  finishes = true;
  chunks = buffer_chunks (suc (length s)) maxread s;
}

take-min : (n : ℕ) (s : Bytes) → take (min n (length s)) s ≡ take n s
take-min zero s = let e : min 0 (length s) ≡ 0 = omega arith in rw e
take-min (suc n) [] = let e : min (suc n) (length {A = ℕ} []) ≡ 0 = omega arith in rw e
take-min (suc n) (c ∷ s) =
    let e : min (suc n) (length (c ∷ s)) ≡ suc (min n (length s)) = omega arith in
    rw e (ap (◌∷◌ c) (take-min n s))

drop-min : (n : ℕ) (s : Bytes) → drop (min n (length s)) s ≡ drop n s
drop-min zero s = let e : min 0 (length s) ≡ 0 = omega arith in rw e
drop-min (suc n) [] = let e : min (suc n) (length {A = ℕ} []) ≡ 0 = omega arith in rw e
drop-min (suc n) (c ∷ s) =
    let e : min (suc n) (length (c ∷ s)) ≡ suc (min n (length s)) = omega arith in
    rw e (drop-min n s)

-- A call on bytes that are left takes one at least.
buffer_get_data-cons :
    (n : ℕ) (c : ℕ) (s : Bytes) → buffer_get_data (suc n) (c ∷ s) ≡ (c ∷ take n s, drop n s)
unfolding buffer_get_data
buffer_get_data-cons n c s =
    let e : min (suc n) (length (c ∷ s)) ≡ suc (min n (length s)) = omega arith in
    rw (e, take-min n s, drop-min n s) (ground arith)

buffer_get_data-nil : (n : ℕ) → buffer_get_data (suc n) [] ≡ ([], [])
unfolding buffer_get_data
buffer_get_data-nil n = let e : min (suc n) (length {A = ℕ} []) ≡ 0 = omega arith in rw e

-- The chunks are the buffer, and no read fails.
buffer_chunks_lem :
    (f n : ℕ) (s : Bytes)
    → length s < f
    → (delivered (buffer_chunks f (suc n) s) ≡ s) × Readable (buffer_chunks f (suc n) s)
unfolding buffer_chunks delivered
buffer_chunks_lem zero n s enough = absurd (omega arith)
buffer_chunks_lem (suc f) n [] enough = rw (buffer_get_data-nil n) (refl, tt)
buffer_chunks_lem (suc f) n (c ∷ s) enough =
    let (whole, readable) = buffer_chunks_lem f n (drop n s) (omega (arith, length-drop n s)) in
    rw (buffer_get_data-cons n c s)
      (ap (λ t. c ∷ take n s ++ t) whole ∙ ap (◌∷◌ c) (take-append-drop n s), readable)

-- A buffer that is sent to a file is the file: whatever is in it, whatever the size of the
-- transfer's own buffer (not zero), and with or without holes for zeros. It is read to its end, and
-- the provider is prepared and finished once.
pub perform_pipe-buffer :
    (sparse : Bool) (size : ℕ) (s : Bytes) (d : Disk)
    → 0 < size
    → d.calls ≡ []
    → (d' : Disk) × (perform_pipe true sparse size (buffer_provider size s) d ≡ done tt d')
      × (d'.content ≡ s)
      × (d'.events ≡ d.events ++ prepared ∷ finished ∷ [])
unfolding buffer_provider
perform_pipe-buffer sparse zero s d pos work = absurd (omega arith)
perform_pipe-buffer sparse (suc n) s d pos work =
    let (whole, readable) = buffer_chunks_lem (suc (length s)) n s (omega arith) in
    let (d', ends, content, events) =
      perform_pipe-content sparse (suc n) (buffer_provider (suc n) s) d work refl readable in
    (d', ends, content ∙ whole, events)
