-- ===== src/KernelTool/Extracted.antt =====
-- The search for the configuration that is embedded in an image, and what is extracted.
use kdump.Prelude.{
  ℕ, zero, suc, ◌+◌, ◌-◌, ◌*◌, ◌≤◌, ◌<◌, Bool, true, false, Option, some, [], ◌∷◌, Bytes, arith,
  ◌≡◌, ◌∙◌, ap, refl, inl, inr, length, take, drop, drop-drop, Bool-cases, is_empty, length-drop,
  leb,
}
use kdump.Transfer.Pipe.{zeros}
use kdump.KernelTool.Ikconfig.{
  find_bytes, refill, overlap, located, Scan, look, scan, search, magic_start, magic_end,
}
use kdump.KernelTool.Windows.{First, Keeps, length-zeros, got, window, length-got, overlap-Keeps}
use kdump.KernelTool.Search.{
  find_bytes-none, find_bytes-some, magic_start-IsMagic, magic_end-IsMagic,
}

abbrev pub scanning : Option ℕ → Option ℕ → ℕ → Bytes → Scan
scanning b e f buffer = record { begin_offset = b; end_offset = e; fileoffset = f; buffer = buffer }

unfoldable pub Finds : Scan → ℕ → ℕ → Type 0
Finds st b e = (st.begin_offset ≡ some b) × (st.end_offset ≡ some e)

located_at :
    (f n x : ℕ) (before : Option ℕ) → 0 < n → f + n ≡ x + 8 → located f (some n) before ≡ some x
unfolding located
located_at f zero x before pos e = absurd (omega arith)
located_at f (suc p) x before pos e =
    let big : leb 8 (f + suc p) ≡ true = ground arith in
    let same : f + suc p - 8 ≡ x = omega arith in rw (big, same) refl

module _ (missing : Option ℕ → Bool) (chunk : ℕ) where
  scan_done :
      (fuel : ℕ) (st : Scan) (data_ : Bytes)
      → missing st.begin_offset ≡ false
      → missing st.end_offset ≡ false
      → scan missing chunk fuel st data_ ≡ st
  unfolding scan
  scan_done zero st data_ hb he = refl
  scan_done (suc fuel) st data_ hb he = elim (Bool-cases (is_empty data_)) [
    | inl none_left ↦ rw none_left refl
    | inr more ↦ rw (more, hb, he) refl
  ]

  scan_on :
      (fuel : ℕ) (b e : Option ℕ) (f : ℕ) (buffer data_ : Bytes)
      → 0 < length data_
      → missing e ≡ true
      → scan missing chunk (suc fuel) (scanning b e f buffer) data_
        ≡ scan missing chunk fuel
            (look missing (scanning b e f buffer) (take chunk data_))
            (drop chunk data_)
  unfolding scan
  scan_on fuel b e f buffer [] more he = absurd (omega arith)
  scan_on fuel b e f buffer (c ∷ s) more he = elim (Bool-cases (missing b)) [
    | inl hb ↦ rw hb refl
    | inr hb ↦ rw (hb, he) refl
  ]

  look_for_start :
      (b e : Option ℕ) (f : ℕ) (buffer got : Bytes)
      → missing b ≡ true
      → look missing (scanning b e f buffer) got
        ≡ scanning
            (located f (find_bytes (refill 8 buffer got) magic_start) b)
            e
            (f + length got)
            (overlap (refill 8 buffer got))
  unfolding look
  look_for_start b e f buffer got hb = rw hb refl

  look_for_end :
      (b e : Option ℕ) (f : ℕ) (buffer got : Bytes)
      → missing b ≡ false
      → look missing (scanning b e f buffer) got
        ≡ scanning b
            (located f (find_bytes (refill 8 buffer got) magic_end) e)
            (f + length got)
            (overlap (refill 8 buffer got))
  unfolding look
  look_for_end b e f buffer got hb = rw hb refl

  -- A full read, before the start is found and behind it.
  module _ (whole : Bytes) (unset : Option ℕ) (unknown : missing unset ≡ true)
      (some_read : 0 < chunk) (fuel f : ℕ) (buffer : Bytes) (k : Keeps chunk whole f buffer)
      (full : f + chunk ≤ length whole) (next : Option ℕ) where
    abbrev pub seen : Bytes
    seen = window chunk whole f buffer k

    all_read : length (take chunk (drop f whole)) ≡ chunk
    all_read = omega (arith, length-got chunk whole f buffer k)

    pub round_for_start :
        located f (find_bytes seen magic_start) unset ≡ next
        → scan missing chunk (suc fuel) (scanning unset unset f buffer) (drop f whole)
          ≡ scan missing chunk fuel
              (scanning next unset (f + chunk) (overlap seen))
              (drop (f + chunk) whole)
    round_for_start found =
        scan_on fuel unset unset f buffer (drop f whole) (omega (arith, length-drop f whole))
          unknown
        ∙ rw
            (
              look_for_start unset unset f buffer (take chunk (drop f whole)) unknown,
              found,
              all_read,
              drop-drop f chunk whole,
            )
            refl

    round_for_end :
        (b : ℕ)
        → missing (some b) ≡ false
        → located f (find_bytes seen magic_end) unset ≡ next
        → scan missing chunk (suc fuel) (scanning (some b) unset f buffer) (drop f whole)
          ≡ scan missing chunk fuel
              (scanning (some b) next (f + chunk) (overlap seen))
              (drop (f + chunk) whole)
    round_for_end b begun found =
        scan_on fuel (some b) unset f buffer (drop f whole) (omega (arith, length-drop f whole))
          unknown
        ∙ rw
            (
              look_for_end (some b) unset f buffer (take chunk (drop f whole)) begun,
              found,
              all_read,
              drop-drop f chunk whole,
            )
            refl

  module _ (whole : Bytes) (unset : Option ℕ) (b e : ℕ) (unknown : missing unset ≡ true)
      (begun : missing (some b) ≡ false) (ended : missing (some e) ≡ false)
      (start : First magic_start b whole) (stop : First magic_end e whole)
      (some_read : 0 < chunk) where
    scan_to_end :
        (j r fuel f : ℕ) (buffer : Bytes)
        → Keeps chunk whole f buffer
        → e + 8 ≡ f + j * chunk + r
        → 0 < r
        → r < chunk
        → j < fuel
        → Finds (scan missing chunk fuel (scanning (some b) unset f buffer) (drop f whole)) b e
    unfolding Finds First located
    scan_to_end j r zero f buffer k at pos low enough = absurd (omega arith)
    scan_to_end zero r (suc fuel) f buffer k at pos low enough =
        let here =
          find_bytes-some chunk whole magic_end e magic_end-IsMagic stop f buffer k (omega arith)
            (omega arith) in
        let at_e = located_at f (e + 8 - f) e unset (omega arith) (omega arith) in
        rw
          (
            scan_on fuel (some b) unset f buffer (drop f whole)
                (omega (arith, length-drop f whole, stop.0)) unknown,
            look_for_end (some b) unset f buffer (take chunk (drop f whole)) begun,
            here,
            at_e,
            scan_done fuel
                (scanning (some b) (some e) (f + length (take chunk (drop f whole)))
                  (overlap (refill 8 buffer (take chunk (drop f whole)))))
                (drop chunk (drop f whole)) begun ended,
          )
          (refl, refl)
    scan_to_end (suc j) r (suc fuel) f buffer k at pos low enough =
        let full : f + chunk ≤ length whole = omega (arith, stop.0) in
        let missed =
          find_bytes-none chunk whole magic_end e magic_end-IsMagic stop f buffer k (omega arith) in
        rw
          (round_for_end whole unset unknown some_read fuel f buffer k full unset b begun
            (ap (λ o. located f o unset) missed))
          (scan_to_end j r fuel (f + chunk) (overlap (refill 8 buffer (take chunk (drop f whole))))
            (overlap-Keeps chunk whole f buffer k full) (omega arith) pos low (omega arith))

    scan_to_start :
        (m r j q fuel f : ℕ) (buffer : Bytes)
        → Keeps chunk whole f buffer
        → b + 8 ≡ f + m * chunk + r
        → (0 < r) × (r < chunk)
        → e + 8 ≡ f + m * chunk + chunk + j * chunk + q
        → (0 < q) × (q < chunk)
        → m + 1 + j < fuel
        → Finds (scan missing chunk fuel (scanning unset unset f buffer) (drop f whole)) b e
    unfolding First located
    scan_to_start m r j q zero f buffer k at inside at_e inside_e enough = absurd (omega arith)
    scan_to_start zero r j q (suc fuel) f buffer k at inside at_e inside_e enough =
        let here =
          find_bytes-some chunk whole magic_start b magic_start-IsMagic start f buffer k
            (omega arith) (omega (arith, inside.1)) in
        let at_b = located_at f (b + 8 - f) b unset (omega (arith, inside.0)) (omega arith) in
        let full : f + chunk ≤ length whole = omega (arith, stop.0) in
        rw
          (round_for_start whole unset unknown some_read fuel f buffer k full (some b)
            (ap (λ o. located f o unset) here ∙ at_b))
          (scan_to_end j q fuel (f + chunk) (overlap (refill 8 buffer (take chunk (drop f whole))))
            (overlap-Keeps chunk whole f buffer k full) (omega arith) inside_e.0 inside_e.1
            (omega arith))
    scan_to_start (suc m) r j q (suc fuel) f buffer k at inside at_e inside_e enough =
        let full : f + chunk ≤ length whole = omega (arith, stop.0) in
        let missed =
          find_bytes-none chunk whole magic_start b magic_start-IsMagic start f buffer k
            (omega arith) in
        rw
          (round_for_start whole unset unknown some_read fuel f buffer k full unset
            (ap (λ o. located f o unset) missed))
          (scan_to_start m r j q fuel (f + chunk)
            (overlap (refill 8 buffer (take chunk (drop f whole))))
            (overlap-Keeps chunk whole f buffer k full) (omega arith) inside (omega arith) inside_e
            (omega arith))

pub le_mul : (m c : ℕ) → 0 < c → m ≤ m * c
le_mul zero c pos = omega arith
le_mul (suc m) c pos = omega (arith, le_mul m c pos)

pub start-Keeps : (chunk : ℕ) (whole : Bytes) → Keeps chunk whole 0 (zeros (chunk + 8))
unfolding zeros
start-Keeps chunk whole = record {
  size = length-zeros (chunk + 8);
  carried =
      let e : chunk + 8 ≡ suc (suc (suc (suc (suc (suc (suc (suc chunk))))))) = omega arith in
      rw e refl;
}

-- Where a place is among the windows: each starts MAGIC_LEN bytes before what its read gives, and one
-- that is at the start of a window is not seen.
unfoldable pub InWindow : ℕ → ℕ → ℕ → ℕ → Type 0
InWindow chunk x m r = (x + 8 ≡ m * chunk + r) × (0 < r) × (r < chunk)

pub search-Finds :
    (missing : Option ℕ → Bool) (chunk : ℕ) (whole : Bytes) (unset : Option ℕ) (b e : ℕ)
    → missing unset ≡ true
    → missing (some b) ≡ false
    → missing (some e) ≡ false
    → First magic_start b whole
    → First magic_end e whole
    → (m r n q : ℕ) → InWindow chunk b m r
    → InWindow chunk e n q
    → m < n
    → Finds (search missing chunk unset whole) b e
unfolding search First InWindow
search-Finds missing chunk whole unset b e unknown begun ended start stop m r n q at at_e later =
    let j = n - (m + 1) in
    let split : n ≡ m + 1 + j = omega arith in
    let times : n * chunk ≡ (m + 1 + j) * chunk = ap (λ i. i * chunk) split in
    let fuel : m + 1 + j < length whole =
      omega (arith, at_e.0, at_e.1, stop.0, le_mul n chunk (omega (arith, at.2))) in
    scan_to_start missing chunk whole unset b e unknown begun ended start stop
      (omega (arith, at.1, at.2)) m r j q (length whole) 0 (zeros (chunk + 8))
      (start-Keeps chunk whole) (omega (arith, at.0)) (at.1, at.2) (omega (arith, at_e.0, times))
      (at_e.1, at_e.2) fuel
