-- ===== src/Transfer/Provider.antt =====
-- The data providers of dataprovider.cc. `getProgress` is kept as the calls that it is sent.
use kdump.Prelude.{
  ℕ, ◌+◌, Bool, true, not, List, [], ◌∷◌, ◌++◌, Option, none, some, Bytes, Result, ok, throw, ltb,
  ◌==◌, if◌then◌else◌, length, take, drop, min,
}

-- What the progress indicator is told.
pub data Progress : Type 0 where
  start : Progress
  stop : Bool → Progress
  progressed : ℕ → ℕ → Progress

-- `AbstractDataProvider`: whether it has an indicator, its error flag, and what it has told.
pub record Base : Type 0 where
  pub has_progress : Bool
  pub error : Bool
  pub told : List Progress

abbrev pub tell : Progress → Base → Base
tell p b = if b.has_progress then record b { told = b.told ++ p ∷ [] } else b

unfoldable pub prepare : Base → Base
prepare b = tell start b

unfoldable pub finish : Base → Base
finish b = tell (stop (not b.error)) b

unfoldable pub set_error : Bool → Base → Base
set_error error b = record b { error = error }

pub data ProviderError : Type 0 where
  cannot_save cannot_open cannot_seek not_opened read_error process_failed : ProviderError

-- `AbstractDataProvider::saveToFile`
unfoldable pub save_to_file : List Bytes → Result ProviderError (Unit {0})
save_to_file targets = throw cannot_save

-- What an `fread` of at most n bytes finds: bytes, of which it takes n and leaves the others, or
-- errno set and no byte. No bytes, and the end of the list, are the end of the file.
pub data Fread : Type 0 where
  bytes : Bytes → Fread
  errno_set : Fread

unfoldable pub fread : ℕ → List Fread → Result ProviderError Bytes × List Fread
fread n [] = (ok [], [])
fread n (errno_set ∷ rs) = (throw read_error, rs)
fread n (bytes b ∷ rs) =
    if ltb n (length b) then (ok (take n b), bytes (drop n b) ∷ rs) else (ok b, rs)

-- `FileDataProvider`: `file` is what the open file will give.
pub record FileProvider : Type 0 where
  pub base : Base
  pub file : Option (List Fread)
  pub size : ℕ
  pub pos : ℕ

-- What `fopen` and the two calls of `lseek` say of the file.
pub record Opened : Type 0 where
  pub opens : Option (List Fread)
  pub size_found : Option ℕ
  pub rewinds : Bool

unfoldable pub file_prepare : Opened → FileProvider → Result ProviderError (Unit {0}) × FileProvider
unfolding prepare
file_prepare o p = elim (o.opens) [
  | none ↦ (throw cannot_open, record p { file = none })
  | some reads ↦
      let p' = record p { file = some reads } in
      elim (o.size_found) [
        | none ↦ (throw cannot_seek, p')
        | some size ↦
            if o.rewinds
            then (ok tt, record p' { size = size; base = prepare p.base })
            else (throw cannot_seek, record p' { size = size })
      ]
]

-- A read; `seen` is what lseek says of the position behind it.
unfoldable pub file_get_data : ℕ → ℕ → FileProvider → Result ProviderError Bytes × FileProvider
unfolding fread set_error
file_get_data maxread seen p = elim (p.file) [
  | none ↦ (throw not_opened, p)
  | some reads ↦
      let (result, rest) = fread maxread reads in
      elim result [
        | throw e ↦ (throw e, record p { file = some rest; base = set_error true p.base })
        | ok data_read ↦ (
          ok data_read,
          record p {
            file = some rest;
            pos = p.pos + length data_read;
            base = tell (progressed seen p.size) p.base;
          },
        )
      ]
]

unfoldable pub file_finish : FileProvider → FileProvider
unfolding finish
file_finish p = record p { file = none; base = finish p.base }

-- `BufferDataProvider::getData`: what is copied, and what is left.
unfoldable pub buffer_get_data : ℕ → Bytes → Bytes × Bytes
buffer_get_data maxread s =
    let size = min maxread (length s) in if size == 0 then ([], s) else (take size s, drop size s)

-- `ProcessDataProvider`: `process` is what the pipe will give, once `popen` has made it.
pub record ProcessProvider : Type 0 where
  pub base : Base
  pub process : Option (List Fread)

unfoldable pub process_prepare :
    Option (List Fread) → ProcessProvider → Result ProviderError (Unit {0}) × ProcessProvider
process_prepare none p = (throw cannot_open, record p { process = none })
process_prepare (some reads) p = (ok tt, record p { process = some reads })

unfoldable pub process_get_data : ℕ → ProcessProvider → Result ProviderError Bytes × ProcessProvider
unfolding fread set_error
process_get_data maxread p = elim (p.process) [
  | none ↦ (throw not_opened, p)
  | some reads ↦
      let (result, rest) = fread maxread reads in
      elim result [
        | throw e ↦ (throw e, record p { process = some rest; base = set_error true p.base })
        | ok data_read ↦ (ok data_read, record p { process = some rest })
      ]
]

-- `status` is the exit status of the process.
unfoldable pub process_finish :
    ℕ → ProcessProvider → Result ProviderError (Unit {0}) × ProcessProvider
process_finish status p =
    let p' = record p { process = none } in
    if status == 0 then (ok tt, p') else (throw process_failed, p')

-- The command line of `ProcessDataProvider::saveToFile`, and what comes of its exit status.
unfoldable pub direct_command : Bytes → List Bytes → Bytes
direct_command cmdline [] = cmdline
direct_command cmdline (target ∷ targets) = direct_command (cmdline ++ b' ' ∷ target) targets

unfoldable pub process_save : (Bytes → ℕ) → Bytes → List Bytes → Result ProviderError (Unit {0})
unfolding direct_command
process_save system cmdline targets =
    if system (direct_command cmdline targets) == 0 then ok tt else throw process_failed
