-- ===== src/Sftp/Client.antt =====
-- `SFTPTransfer`: the requests, their replies, and `perform`, in sshtransfer.cc.
use kdump.Prelude.{
  ℕ, zero, suc, ◌+◌, ◌%◌, ◌^◌, Bool, true, false, List, [], ◌∷◌, ◌++◌, Option, none, some, Bytes,
  codes, ◌==◌, if◌then◌else◌, length, take,
}
use kdump.Prelude.Int.{ℤ, pos, negsuc}
use kdump.KString.Search.{rfind}
use kdump.KString.Trim.{rtrim}
use kdump.KString.Number.{number2string}
use kdump.Sftp.Packet.{
  Packet, id_mismatch, invalid_response, sftp_error, provider_error, new_packet, add_byte,
  add_byte_vector, add_int32, add_int64, add_string, get_byte, get_int32, get_string,
}
use kdump.Sftp.Session.{
  Event, prepared, finished, done, raised, M, pure, raise, ◌>>=◌, ◌>>◌, lift, on_error,
}
use kdump.Sftp.Stream.{send_packet, recv_packet}

-- SSH_FXP_…
abbrev pub fxp_init : ℕ
fxp_init = 1

abbrev pub fxp_version : ℕ
fxp_version = 2

abbrev pub fxp_open : ℕ
fxp_open = 3

abbrev pub fxp_close : ℕ
fxp_close = 4

abbrev pub fxp_write : ℕ
fxp_write = 6

abbrev pub fxp_mkdir : ℕ
fxp_mkdir = 14

abbrev pub fxp_stat : ℕ
fxp_stat = 17

abbrev pub fxp_status : ℕ
fxp_status = 101

abbrev pub fxp_handle : ℕ
fxp_handle = 102

abbrev pub fxp_attrs : ℕ
fxp_attrs = 105

-- SSH_FX_…
abbrev pub fx_ok : ℕ
fx_ok = 0

abbrev pub fx_no_such_file : ℕ
fx_no_such_file = 2

-- SSH_FXF_WRITE | SSH_FXF_CREAT | SSH_FXF_TRUNC
abbrev pub open_flags : ℕ
open_flags = 26

unfoldable pub next_id : M ℕ
next_id s = let id = (s.lastid + 1) % 2 ^ 32 in done id (record s { lastid = id })

unfoldable pub last_id : M ℕ
last_id s = done s.lastid s

-- `pkt.addByte(type); pkt.addInt32(nextId());`, what is added behind it, and `sendPacket(pkt)`.
unfoldable pub request : ℕ → (Packet → Packet) → M (Unit {0})
request type arguments =
    next_id >>= λ id. send_packet (arguments (add_int32 id (add_byte type new_packet)))

-- What every reply is read with: its type, and the identifier, which must be the request's.
unfoldable pub reply : M (ℕ × Packet)
reply = do
  pkt ← recv_packet
  (type, pkt) ← lift (get_byte pkt)
  (id, pkt) ← lift (get_int32 pkt)
  last ← last_id
  if id == last then pure (type, pkt) else raise id_mismatch

-- A status reply: its code. Any other is the error.
unfoldable pub status : ℕ → Packet → M ℕ
status type pkt =
    if type == fxp_status
    then (lift (get_int32 pkt) >>= λ (errcode, _). pure errcode)
    else raise (invalid_response type)

unfoldable pub must_be_ok : ℕ → M (Unit {0})
must_be_ok errcode = if errcode == fx_ok then pure tt else raise (sftp_error errcode)

unfoldable pub exists : Bytes → M Bool
exists file = do
  request fxp_stat (add_string file)
  (type, pkt) ← reply
  if type == fxp_attrs
      then pure true
      else (status type pkt >>= λ errcode.
          if errcode == fx_no_such_file then pure false else raise (sftp_error errcode))

-- The directory that `mkpath` calls itself for.
unfoldable pub parent : Bytes → Option Bytes
parent path =
    let dir = rtrim (codes "/") path in
    elim (rfind dir 47) [ none ↦ none | some zero ↦ none | some (suc n) ↦ some (take (suc n) dir) ]

unfoldable pub make_directory : Bytes → M (Unit {0})
make_directory path = do
  request fxp_mkdir (λ p. add_int32 0 (add_string path p))
  (type, pkt) ← reply
  errcode ← status type pkt
  must_be_ok errcode

-- A directory's path is shorter than the path, so `length path` levels are enough.
unfoldable pub mkpath_from : ℕ → Bytes → M (Unit {0})
mkpath_from zero path = pure tt
mkpath_from (suc f) path = do
  there ← exists path
  if there
      then pure tt
      else (elim (parent path) [ none ↦ pure tt | some dir ↦ mkpath_from f dir ]
          >> make_directory path)

unfoldable pub mkpath : Bytes → M (Unit {0})
mkpath path = mkpath_from (suc (length path)) path

unfoldable pub createfile : Bytes → M Bytes
createfile file = do
  request fxp_open (λ p. add_int32 0 (add_int32 open_flags (add_string file p)))
  (type, pkt) ← reply
  if type == fxp_handle
      then (lift (get_string pkt) >>= λ (handle, _). pure handle)
      else (status type pkt >>= λ errcode. raise (sftp_error errcode))

unfoldable pub closefile : Bytes → M (Unit {0})
closefile handle = do
  request fxp_close (add_string handle)
  (type, pkt) ← reply
  errcode ← status type pkt
  must_be_ok errcode

unfoldable pub writefile : Bytes → ℕ → Bytes → M (Unit {0})
writefile handle off bytes = do
  request fxp_write
      (λ p. add_byte_vector bytes (add_int32 (length bytes) (add_int64 off (add_string handle p))))
  (type, pkt) ← reply
  errcode ← status type pkt
  must_be_ok errcode

-- What a data provider will do: `prepare` and `finish` return or throw, and so does each `getData`.
-- No bytes, and the end of the list, are the end of the data.
pub data Chunk : Type 0 where
  chunk : Bytes → Chunk
  unreadable : Chunk

pub record Provider : Type 0 where
  pub prepares : Bool
  pub finishes : Bool
  pub chunks : List Chunk

unfoldable pub tell : Event → Bool → M (Unit {0})
tell event succeeds s =
    let s' = record s { events = s.events ++ event ∷ [] } in
    if succeeds then done tt s' else raised provider_error s'

unfoldable pub write_chunks : Bytes → ℕ → List Chunk → M (Unit {0})
write_chunks handle off [] = pure tt
write_chunks handle off (unreadable ∷ cs) = raise provider_error
write_chunks handle off (chunk [] ∷ cs) = pure tt
write_chunks handle off (chunk (c ∷ d) ∷ cs) =
    writefile handle off (c ∷ d) >> write_chunks handle (off + length (c ∷ d)) cs

unfoldable pub upload : Bytes → Provider → M (Unit {0})
upload handle provider =
    tell prepared provider.prepares
    >> on_error (write_chunks handle 0 provider.chunks) (tell finished provider.finishes)
    >> tell finished provider.finishes

-- `fp` is the target's path with the file's name behind it.
unfoldable pub perform : Provider → Bytes → M (Unit {0})
perform provider fp = do
  handle ← createfile fp
  on_error (upload handle provider) (closefile handle)
  closefile handle

-- The rest of the constructor once ssh runs: the version, which `m_proto_ver` keeps for the log.
unfoldable pub start : Bytes → M ℕ
start path = do
  send_packet (add_int32 3 (add_byte fxp_init new_packet))
  pkt ← recv_packet
  (type, pkt) ← lift (get_byte pkt)
  version ← if type == fxp_version then lift (get_int32 pkt) else raise (invalid_response type)
  mkpath path
  pure (version.0)

-- The arguments of `ssh`. A port of -1 is none.
unfoldable pub make_args : Bytes → ℤ → Bytes → List Bytes
make_args username port hostname =
    codes "-F" ∷ codes "/kdump/.ssh/config" ∷ codes "-l" ∷ username ∷ []
    ++ port_args port
    ++ codes "-s" ∷ hostname ∷ codes "sftp" ∷ []
  where
    port_args : ℤ → List Bytes
    port_args (negsuc zero) = []
    port_args (negsuc (suc n)) = codes "-p" ∷ number2string (negsuc (suc n)) ∷ []
    port_args (pos n) = codes "-p" ∷ number2string (pos n) ∷ []
