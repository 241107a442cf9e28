-- ===== src/Calibrate/Guest.antt =====
-- The capabilities of a Xen guest, written and read.
use kdump.Prelude.{
  ℕ, zero, suc, ◌≤◌, Bool, false, ◌||◌, List, [], ◌∷◌, ◌++◌, append-nil, ◌≡◌, ◌≢◌, refl, ap, ◌∙◌,
  Option, some, arith, Bytes, codes, ◌==◌, if◌then◌else◌, length, length-append, drop,
  take_append_length, equal, All, All-append,
}
use kdump.KString.Search.{find-append, find-none, Lacks, drop_behind}
use kdump.Calibrate.Slabs.{next_line}
use kdump.Calibrate.Hyper.{read_str, control_d, after_cut, has_control_d, hyper_info}

abbrev commas : List Bytes → Bytes
commas [] = []
commas (p ∷ ps) = b',' ∷ (p ++ commas ps)

abbrev pub caps_text : List Bytes → Bytes
caps_text [] = []
caps_text (p ∷ ps) = p ++ commas ps

abbrev pub any_control_d : List Bytes → Bool
any_control_d [] = false
any_control_d (p ∷ ps) = equal p control_d || any_control_d ps

has_control_d-last :
    (f : ℕ) (p : Bytes) → Lacks b',' p → has_control_d (suc f) p ≡ equal p control_d
unfolding has_control_d after_cut
has_control_d-last f p h = ap (after_cut (has_control_d f) p) (find-none b',' p h)

has_control_d-next :
    (f : ℕ) (p s : Bytes)
    → Lacks b',' p
    → has_control_d (suc f) (p ++ b',' ∷ s) ≡ (equal p control_d || has_control_d f s)
unfolding has_control_d after_cut
has_control_d-next f p s h =
    ap (after_cut (has_control_d f) (p ++ b',' ∷ s)) (find-append b',' p s h)
    ∙ (ap (λ t. equal t control_d || has_control_d f (drop (suc (length p)) (p ++ b',' ∷ s)))
          (take_append_length p (b',' ∷ s))
        ∙ ap (λ t. equal p control_d || has_control_d f t) (drop_behind p b',' s))

has_control_d-commas :
    (f : ℕ) (p : Bytes) (ps : List Bytes)
    → Lacks b',' p
    → All (Lacks b',') ps
    → suc (length ps) ≤ f
    → has_control_d f (p ++ commas ps) ≡ any_control_d (p ∷ ps)
has_control_d-commas zero p ps h hs le = absurd (omega arith)
has_control_d-commas (suc f) p [] h hs le =
    ap (has_control_d (suc f)) (append-nil p) ∙ (has_control_d-last f p h ∙ ground arith)
has_control_d-commas (suc f) p (q ∷ ps) h (hq, hs) le =
    has_control_d-next f p (q ++ commas ps) h
    ∙ ap (λ b. equal p control_d || b) (has_control_d-commas f q ps hq hs (omega arith))

length-commas : (ps : List Bytes) → length ps ≤ length (commas ps)
length-commas [] = omega arith
length-commas (p ∷ ps) =
    let more = length-append p (commas ps) in let rest = length-commas ps in omega arith

has_control_d-caps :
    (ps : List Bytes)
    → All (Lacks b',') ps
    → has_control_d (suc (length (caps_text ps))) (caps_text ps) ≡ any_control_d ps
has_control_d-caps [] h = has_control_d-last 0 [] tt ∙ (unfold equal in refl)
has_control_d-caps (p ∷ ps) (h, hs) =
    let more = length-append p (commas ps) in
    let rest = length-commas ps in
    has_control_d-commas (suc (length (caps_text (p ∷ ps)))) p ps h hs (omega arith)

next_line-append : (line rest : Bytes) → Lacks 10 line → (next_line (line ++ 10 ∷ rest)).0 ≡ line
unfolding next_line
next_line-append [] rest h = refl
next_line-append (c ∷ line) rest (h, hs) =
    let other : (c == 10) ≡ false = ground arith in
    rw other (rw (next_line-append line rest hs) refl)

Lacks-commas : (ps : List Bytes) → All (Lacks 10) ps → Lacks 10 (commas ps)
Lacks-commas [] h = tt
Lacks-commas (p ∷ ps) (h, hs) =
    ((λ e. omega arith), All-append (λ c. c ≢ 10) p (commas ps) h (Lacks-commas ps hs))

Lacks-caps : (ps : List Bytes) → All (Lacks 10) ps → Lacks 10 (caps_text ps)
Lacks-caps [] h = tt
Lacks-caps (p ∷ ps) (h, hs) = All-append (λ c. c ≢ 10) p (commas ps) h (Lacks-commas ps hs)

-- Of a system on Xen, the guest is Dom0 if one of the capabilities, which are read up to the end of
-- the first line and stand between commas, is "control_d", and DomU otherwise; on any other system,
-- the variant is empty.
pub hyper_info-caps :
    (type guest_type : Option Bytes) (ps : List Bytes) (rest : Bytes)
    → All (Lacks b',') ps
    → All (Lacks 10) ps
    → (hyper_info type guest_type (some (caps_text ps ++ 10 ∷ rest))).guest_variant ≡ (
        if equal (read_str type) (codes "xen")
        then (if any_control_d ps then codes "Dom0" else codes "DomU")
        else [])
unfolding hyper_info
hyper_info-caps type guest_type ps rest apart inline =
    let line : read_str (some (caps_text ps ++ 10 ∷ rest)) ≡ caps_text ps =
      unfold read_str in next_line-append (caps_text ps) rest (Lacks-caps ps inline) in
    rw line (rw (has_control_d-caps ps apart) refl)
