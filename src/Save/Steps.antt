-- ===== src/Save/Steps.antt =====
-- `SaveDump::execute` as a sequence of steps that may fail.
use kdump.Prelude.{Bool, true, false, ◌&&◌, ◌||◌, not, List, [], ◌∷◌, ◌++◌, if◌then◌else◌}
use kdump.Prelude.Effects.{done, raised, M, pure, raise, ◌>>◌}

pub data Step : Type 0 where
  -- a notification, of a failure or of success
  notified : Bool → Step
  filled_vmcoreinfo checked copied_makedumpfile found_release generated_info copied_kernel : Step

-- The exception that ends a run, by the step that raised it.
pub data SaveError : Type 0 where
  no_vmcoreinfo no_release : SaveError
  no_dump no_transfer save_failed too_large no_makedumpfile no_info no_kernel : SaveError

-- Whether the error code is set, and the steps that have been begun.
pub record Run : Type 0 where
  pub failed : Bool
  pub steps : List Step

-- What will come of the steps. `checks` is the first call of `checkAndDelete`, and `checks_again` the
-- second one, after a failure to save.
pub record World : Type 0 where
  pub dump_exists : Bool
  -- whether `fillVmcoreinfo` returns, whether the crashed kernel's release is known then (it may be
  -- given by an option), and whether `getKernelReleaseCommandline` returns one
  pub fills_vmcoreinfo : Bool
  pub knows_release : Bool
  pub finds_release : Bool
  pub builds_transfer : Bool
  pub saves : Bool
  pub checks : Bool
  pub checks_again : Bool
  pub copies_makedumpfile : Bool
  pub generates_info : Bool
  pub copies_kernel : Bool
  -- the configuration: KDUMP_CONTINUE_ON_ERROR, KDUMP_COPY_KERNEL
  pub continues : Bool
  pub copy_kernel : Bool
  -- what saving leaves: m_usedDirectSave, m_useMakedumpfile
  pub direct_save : Bool
  pub use_makedumpfile : Bool

abbrev pub S : Type 0
S = M Run SaveError (Unit {0})

unfoldable pub set_error_code : S
set_error_code r = done tt (record r { failed = true })

unfoldable pub begin : Step → S
begin step r = done tt (record r { steps = r.steps ++ step ∷ [] })

unfoldable pub attempt : Step → Bool → SaveError → S
unfolding begin
attempt step succeeds error = begin step >> (if succeeds then pure tt else raise error)

-- try { m } catch (KError) { handler(error) }
unfoldable pub catch : S → (SaveError → S) → S
catch m handler r = elim (m r) [ done a r' ↦ done a r' | raised e r' ↦ handler e r' ]

-- The handler of the steps behind the saving.
unfoldable pub tolerate : Bool → SaveError → S
unfolding set_error_code
tolerate continues error = set_error_code >> (if continues then pure tt else raise error)

-- The handler that only logs.
unfoldable pub pass_over : Step → Bool → SaveError → S
unfolding attempt catch
pass_over step succeeds error = catch (attempt step succeeds error) (λ _. pure tt)

-- m_crashrelease.size() > 0, behind the search on the command line.
abbrev pub has_release : World → Bool
has_release w = w.knows_release || w.finds_release

-- Whether saving succeeds, whether `checkAndDelete` does, and KDUMP_CONTINUE_ON_ERROR.
unfoldable pub save : Bool → Bool → Bool → S
unfolding attempt begin catch set_error_code
save saves checks continues = catch (if saves then pure tt else raise save_failed) (λ error.
    set_error_code
    >> begin (notified true)
    >> catch (attempt checked checks too_large) (λ _. pure tt)
    >> (if continues then pure tt else raise error))

-- `execute` from the saving on.
unfoldable pub work : World → S
unfolding save attempt begin catch tolerate pass_over
work w =
    save w.saves w.checks w.continues
    >> begin (notified false)
    >> catch (attempt checked (if w.saves then w.checks else w.checks_again) too_large)
        (tolerate w.continues)
    >> catch
        (if not w.direct_save && w.use_makedumpfile
          then attempt copied_makedumpfile w.copies_makedumpfile no_makedumpfile
          else pure tt)
        (tolerate w.continues)
    >> (if w.knows_release then pure tt else pass_over found_release w.finds_release no_release)
    >> catch (attempt generated_info w.generates_info no_info) (tolerate w.continues)
    >> (if has_release w
        then catch
            (if w.copy_kernel then attempt copied_kernel w.copies_kernel no_kernel else pure tt)
            (tolerate w.continues)
        else pure tt)

unfoldable pub execute : World → S
unfolding work pass_over
execute w =
    (if w.dump_exists then pure tt else raise no_dump)
    >> pass_over filled_vmcoreinfo w.fills_vmcoreinfo no_vmcoreinfo
    >> (if w.builds_transfer then pure tt else raise no_transfer)
    >> work w
