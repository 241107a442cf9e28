-- ===== src/Save/Reports.antt =====
-- What a run of `save_dump` reports.
use kdump.Prelude.{Bool, true, false, ◌&&◌, ◌||◌, not, [], ◌∷◌, ◌≡◌, refl, arith, if◌then◌else◌}
use kdump.Prelude.Effects.{Outcome, done, raised, after, pure}
use kdump.Save.Steps.{filled_vmcoreinfo, has_release, SaveError, Run, World, S}

abbrev pub started : Run
started = record { failed = false; steps = [] }

-- Nothing that is tried fails, VMCOREINFO and the search of the release left aside.
abbrev pub all_work : World → Bool
all_work w =
    w.dump_exists
    && w.builds_transfer
    && w.saves
    && w.checks
    && (w.direct_save || not w.use_makedumpfile || w.copies_makedumpfile)
    && w.generates_info
    && (not (has_release w) || not w.copy_kernel || w.copies_kernel)

abbrev pub returns : Outcome Run SaveError (Unit {0}) → Bool
returns (done a r) = true
returns (raised e r) = false

-- A step that works if `ok`: where it does not, the error code is set, and the run goes on only if
-- errors are to be passed over.
abbrev Tolerant : Bool → Bool → S → Type 0
Tolerant continues ok m =
    (r : Run) → (returns (m r) ≡ (ok || continues)) × ((after (m r)).failed ≡ (r.failed || not ok))

nothing-Tolerant : (continues : Bool) → Tolerant continues true (pure tt)
nothing-Tolerant continues r = (refl, ground arith)

abbrev behind_info : Run
behind_info = record { failed = false; steps = filled_vmcoreinfo ∷ [] }

-- Whether the steps work, in their order.
abbrev in_order : World → Bool
in_order w =
    (((((w.saves && true) && (if w.saves then w.checks else w.checks_again))
          && (not (not w.direct_save && w.use_makedumpfile) || w.copies_makedumpfile))
        && true)
      && w.generates_info)
    && (not (has_release w) || not w.copy_kernel || w.copies_kernel)
