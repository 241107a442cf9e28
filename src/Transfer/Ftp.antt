-- ===== src/Transfer/Ftp.antt =====
-- `FTPTransfer::perform` and `open`.
use mathlib.Core.Path.{subst}
use kdump.Prelude.{
  Bool, true, false, ◌&&◌, List, [], ◌∷◌, ◌++◌, append_assoc, ◌≡◌, refl, sym, Bytes, if◌then◌else◌,
}
use kdump.Prelude.Effects.{done, raised, M, ◌>>◌, after}
use kdump.Kernel.Path.{append_path}
use kdump.Sftp.Session.{Event, prepared, finished}

pub data FtpError : Type 0 where
  curl_error provider_failed : FtpError

-- What the provider has been told, and its error flag.
pub record Provider : Type 0 where
  pub events : List Event
  pub error : Bool

abbrev pub F : Type 0
F = M Provider FtpError (Unit {0})

-- What will come of the calls: both `curl_easy_setopt` of `open`, `prepare`, `curl_easy_perform`,
-- and the two calls of `finish` that there may be.
pub record Run : Type 0 where
  pub opens : Bool
  pub prepares : Bool
  pub transfers : Bool
  pub finishes : Bool
  pub finishes_again : Bool

unfoldable pub tell : Event → Bool → F
tell event succeeds p =
    let p' = record p { events = p.events ++ event ∷ [] } in
    if succeeds then done tt p' else raised provider_failed p'

-- catch (...) { setError(true); finish(); throw; }
unfoldable pub on_failure : Bool → F → F
unfolding tell
on_failure finishes m p = elim (m p) [
  | done a p' ↦ done a p'
  | raised e p' ↦ (tell finished finishes >> (λ p''. raised e p'')) (record p' { error = true })
]

unfoldable pub perform : Run → F
unfolding on_failure tell
perform run p =
    let transfer : F = λ p. if run.transfers then done tt p else raised curl_error p in
    let body : F = tell prepared run.prepares >> transfer >> tell finished run.finishes in
    if run.opens
    then on_failure (if run.prepares && run.transfers then run.finishes_again else run.finishes)
        body p
    else raised curl_error p

-- CURLOPT_URL
unfoldable pub full_url : Bytes → Bytes → Bytes
unfolding append_path
full_url url target_file = append_path url target_file

-- What the provider sees of a run.
abbrev pub told : Run → List Event
told run =
    if run.prepares && run.transfers
    then prepared ∷ finished ∷ (if run.finishes then [] else finished ∷ [])
    else prepared ∷ finished ∷ []

-- The result of a run, by what it does.
abbrev Told : Run → Provider → Type 0
Told run p =
    let all = run.prepares && run.transfers && run.finishes in
    let end = after (perform run p) in
    (end.events ≡ p.events ++ told run)
    × (end.error ≡ (if all then p.error else true))
    × (all ≡ true → perform run p ≡ done tt end)

perform-cases :
    (prepares transfers finishes again : Bool) (p : Provider)
    → Told
        (record {
          opens = true;
          prepares = prepares;
          transfers = transfers;
          finishes = finishes;
          finishes_again = again;
        })
        p
unfolding perform on_failure tell
perform-cases true true true again p =
    (append_assoc p.events (prepared ∷ []) (finished ∷ []), refl, λ _. refl)
perform-cases true true false true p = (simp append_assoc, refl, λ e. cc)
perform-cases true true false false p = (simp append_assoc, refl, λ e. cc)
perform-cases true false true again p =
    (append_assoc p.events (prepared ∷ []) (finished ∷ []), refl, λ e. cc)
perform-cases true false false again p =
    (append_assoc p.events (prepared ∷ []) (finished ∷ []), refl, λ e. cc)
perform-cases false transfers true again p =
    (append_assoc p.events (prepared ∷ []) (finished ∷ []), refl, λ e. cc)
perform-cases false transfers false again p =
    (append_assoc p.events (prepared ∷ []) (finished ∷ []), refl, λ e. cc)

-- After every run that opens the target, the provider has been finished: also where `prepare` has
-- thrown, and twice where the first `finish` throws. The error flag is set unless nothing fails;
-- and if nothing fails the run returns.
pub perform-told :
    (run : Run) (p : Provider)
    → run.opens ≡ true
    → let all = run.prepares && run.transfers && run.finishes in
      let end = after (perform run p) in
      (end.events ≡ p.events ++ told run)
      × (end.error ≡ (if all then p.error else true))
      × (all ≡ true → perform run p ≡ done tt end)
perform-told run p opened =
    subst (λ opens. Told (record run { opens = opens }) p) (sym opened)
      (perform-cases run.prepares run.transfers run.finishes run.finishes_again p)
