-- ===== src/Sftp/Tests.antt =====
-- Runs of the SFTP client.
use kdump.Prelude.{◌≡◌, refl, arith, codes, true, some, none, List, [], ◌∷◌, ◌++◌, All}
use kdump.Prelude.Int.{negsuc}
use kdump.Sftp.Packet.{Packet}
use kdump.Sftp.Message.{message}
use kdump.Sftp.Coding.{be32, be64}
use kdump.KString.Search.{rfind}
use kdump.KString.Trim.{rtrim}
use kdump.Sftp.Session.{Write, taken, Read, got, Session, done, raised}
use kdump.Sftp.Stream.{recv_packet}
use kdump.Sftp.Pieces.{recv_packet-content, content, IsGot}
use kdump.Sftp.Client.{
  fxp_write, writefile, parent, chunk, Provider, perform, createfile, make_args,
}
use kdump.Sftp.Quiet.{after}
use kdump.Sftp.Upload.{told, perform-events}
use kdump.Sftp.Replies.{exchanged, status_body, verdict, writefile_lem}

parent_runs :
    (parent (codes "/var/crash//") ≡ some (codes "/var"))
    × (parent (codes "/var") ≡ none)
    × (parent (codes "/") ≡ none)
    × (parent (codes "a/b") ≡ some (codes "a"))
unfolding parent rfind rtrim
parent_runs = (refl, refl, refl, refl)

make_args_runs :
    make_args (codes "root") (negsuc 0) (codes "host")
    ≡ codes "-F"
      ∷ codes "/kdump/.ssh/config"
      ∷ codes "-l"
      ∷ codes "root"
      ∷ codes "-s"
      ∷ codes "host"
      ∷ codes "sftp"
      ∷ []
unfolding make_args
make_args_runs = refl

abbrev packet : Packet
packet = record { vector = 1 ∷ 2 ∷ []; gpos = 2 }

abbrev built : Packet
built = record { vector = 0 ∷ 0 ∷ 0 ∷ 0 ∷ 7 ∷ 8 ∷ []; gpos = 0 }

-- Three short writes; the answer to the next request, which is "OK", in three pieces, and another
-- byte.
abbrev session : Session
session = record {
  lastid = 4;
  incoming =
      got (0 ∷ 0 ∷ [])
      ∷ got (0 ∷ 9 ∷ 101 ∷ 0 ∷ 0 ∷ 0 ∷ 5 ∷ [])
      ∷ got (0 ∷ 0 ∷ 0 ∷ 0 ∷ 77 ∷ [])
      ∷ [];
  writes = taken 3 ∷ taken 0 ∷ taken 1 ∷ [];
  wire = 42 ∷ [];
  events = [];
}

recv_packet-content_example :
    (left : List Read) × (recv_packet session
      ≡ done
          (record { vector = be32 9 ++ status_body 5 0 []; gpos = 4 })
          (record session { incoming = left }))
    × All IsGot left
    × (content left ≡ 77 ∷ [])
recv_packet-content_example =
    recv_packet-content (status_body 5 0 []) (77 ∷ []) session (omega arith) (tt, (tt, (tt, tt)))
      refl

writefile_lem_example :
    (ws : List Write) × (left : List Read) × (writefile (codes "f1") 8192 (1 ∷ 2 ∷ []) session
      ≡ verdict 5 0 (
          exchanged session
            (fxp_write ∷ be32 5 ++ (be32 2 ++ codes "f1") ++ be64 8192 ++ be32 2 ++ 1 ∷ 2 ∷ [])
            ws
            left))
    × (content left ≡ 77 ∷ [])
writefile_lem_example =
    writefile_lem 5 0 [] (77 ∷ []) session (omega arith) (omega arith) (omega arith)
      (tt, (tt, (tt, tt))) (tt, (tt, (tt, tt))) refl (codes "f1") 8192 (1 ∷ 2 ∷ [])

-- A handle for an answer, and no more: the write fails, and so does the closing of the file.
abbrev served : Session
served = record {
  lastid = 4;
  incoming = got (be32 10 ++ 102 ∷ be32 5 ++ be32 1 ++ 65 ∷ []) ∷ [];
  writes = [];
  wire = [];
  events = [];
}

abbrev provider : Provider
provider = record { prepares = true; finishes = true; chunks = chunk (1 ∷ 2 ∷ []) ∷ [] }

perform-events_example :
    (after (perform provider (codes "/d/vmcore") served)).events
    ≡ [] ++ (elim (createfile (codes "/d/vmcore") served) [
      | done _ _ ↦ told provider
      | raised _ _ ↦ []
    ])
perform-events_example = perform-events provider (codes "/d/vmcore") served

-- The answer "No such file".
abbrev missing : Session
missing = record session { incoming = got (be32 9 ++ status_body 5 2 []) ∷ [] }

message_runs : (message 2 ≡ codes "No such file") × (message 22 ≡ codes "Unknown error")
unfolding message
message_runs = (refl, refl)
