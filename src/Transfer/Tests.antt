-- ===== src/Transfer/Tests.antt =====
-- Runs of the data providers and the transfers.
use kdump.Prelude.{
  true, false, List, [], ◌∷◌, ◌++◌, ◌≡◌, refl, some, Bytes, codes, arith, ok, throw,
}
use kdump.Prelude.Int.{negsuc}
use kdump.Prelude.Effects.{done, raised, after}
use kdump.KString.Trim.{rtrim}
use kdump.Sftp.Session.{prepared, finished}
use kdump.Sftp.Client.{chunk, Provider}
use kdump.Sftp.Upload.{told}
use kdump.Transfer.Provider.{
  Base, progressed, FileProvider, bytes, errno_set, file_get_data, file_finish, not_opened,
  read_error, direct_command,
}
use kdump.Transfer.Pipe.{Disk, fails, works, perform_pipe, seek_failed}
use kdump.Transfer.Content.{delivered, perform_pipe-content}
use kdump.Transfer.Events.{perform_pipe-events}
use kdump.Transfer.Buffer.{buffer_provider, perform_pipe-buffer}
use kdump.Transfer.Shares.{nfs_translate, cifs_translate, no_slash}
use kdump.Transfer.Ftp
use kdump.Transfer.Ftp.{Run, perform-told}

abbrev provider : Provider
provider = record {
  prepares = true;
  finishes = true;
  chunks = chunk (7 ∷ 0 ∷ []) ∷ chunk (0 ∷ 0 ∷ []) ∷ chunk (5 ∷ []) ∷ chunk (0 ∷ 0 ∷ []) ∷ [];
}

abbrev disk : Disk
disk = record { content = []; pos = 0; calls = []; events = [] }

perform_pipe_runs :
    perform_pipe true true 2 provider disk
    ≡ done tt (record {
      content = 7 ∷ 0 ∷ 0 ∷ 0 ∷ 5 ∷ 0 ∷ 0 ∷ [];
      pos = 0;
      calls = [];
      events = prepared ∷ finished ∷ [];
    })
unfolding perform_pipe
perform_pipe_runs = refl

perform_pipe_fails :
    perform_pipe true true 2 provider (record disk { calls = works ∷ fails 0 ∷ [] })
    ≡ raised seek_failed
        (record { content = 7 ∷ 0 ∷ []; pos = 2; calls = []; events = prepared ∷ finished ∷ [] })
unfolding perform_pipe
perform_pipe_fails = refl

perform_pipe-content_example :
    (d' : Disk) × (perform_pipe true true 2 provider disk ≡ done tt d')
    × (d'.content ≡ delivered provider.chunks)
    × (d'.events ≡ [] ++ prepared ∷ finished ∷ [])
perform_pipe-content_example = perform_pipe-content true 2 provider disk refl refl tt

perform_pipe-events_example :
    (after (perform_pipe true false 2 provider (record disk { calls = fails 1 ∷ [] }))).events
    ≡ [] ++ told provider
perform_pipe-events_example =
    perform_pipe-events true false 2 provider (record disk { calls = fails 1 ∷ [] })

perform_pipe-buffer_example :
    (d' : Disk) × (perform_pipe true true 3 (buffer_provider 3 (codes "kdump dump")) disk
      ≡ done tt d')
    × (d'.content ≡ codes "kdump dump")
    × (d'.events ≡ [] ++ prepared ∷ finished ∷ [])
perform_pipe-buffer_example =
    perform_pipe-buffer true 3 (codes "kdump dump") disk (omega arith) refl

abbrev urls : List Bytes
urls = codes "/a" ∷ codes "/b" ∷ []

abbrev files : List Bytes
files = codes "vmcore1" ∷ codes "vmcore2" ∷ codes "vmcore3" ∷ []

abbrev broken_run : Run
broken_run = record {
  opens = true;
  prepares = true;
  transfers = true;
  finishes = false;
  finishes_again = true;
}

abbrev fresh : Ftp.Provider
fresh = record { events = []; error = false }

perform-told_example :
    let end = after (Ftp.perform broken_run fresh) in
    (end.events ≡ [] ++ Ftp.told broken_run)
    × (end.error ≡ true)
    × (false ≡ true → Ftp.perform broken_run fresh ≡ done tt end)
perform-told_example = perform-told broken_run fresh refl

shares_run :
    ((nfs_translate (codes "host") (codes "/export/dumps")).url
      ≡ codes "file:///mnt/host/export/dumps")
    × ((nfs_translate (codes "host") (codes "/export/dumps")).args
        ≡ codes "-o"
          ∷ codes "nolock"
          ∷ codes "-t"
          ∷ codes "nfs"
          ∷ codes "host:/export"
          ∷ codes "/mnt/host/export"
          ∷ [])
    × (cifs_translate (codes "host") (negsuc 0) [] [] (codes "/share") ≡ throw no_slash)
unfolding nfs_translate cifs_translate rtrim
shares_run = (refl, refl, refl)

abbrev base : Base
base = record { has_progress = true; error = false; told = [] }

abbrev opened : FileProvider
opened = record {
  base = base;
  file = some (bytes (codes "abc") ∷ errno_set ∷ []);
  size = 3;
  pos = 0;
}

file_provider_runs :
    (file_get_data 2 2 opened ≡ (
      ok (codes "ab"),
      record opened {
        file = some (bytes (codes "c") ∷ errno_set ∷ []);
        pos = 2;
        base = record base { told = progressed 2 3 ∷ [] };
      },
    ))
    × ((file_get_data 2 0 (record opened { file = some (errno_set ∷ []) })).0 ≡ throw read_error)
    × ((file_get_data 2 0 (file_finish opened)).0 ≡ throw not_opened)
    × (direct_command (codes "makedumpfile") files ≡ codes "makedumpfile vmcore1 vmcore2 vmcore3")
unfolding file_get_data file_finish direct_command
file_provider_runs = (refl, refl, refl, refl)
