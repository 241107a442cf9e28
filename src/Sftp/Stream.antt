-- ===== src/Sftp/Stream.antt =====
-- `sendPacket`, `recvBuffer` and `recvPacket` over short writes and short reads.
use kdump.Prelude.{
  ℕ, zero, suc, ◌-◌, Bool, true, false, List, [], ◌∷◌, ◌++◌, Bytes, Result, ok, throw, leb,
  if◌then◌else◌, length, take, drop, min,
}
use kdump.Sftp.Packet.{
  Packet, SftpError, write_failed, read_failed, unexpected_eof, add_byte_vector, get_int32, update,
}
use kdump.Sftp.Session.{Write, taken, broken, Read, got, failed, done, raised, M, pure, ◌>>=◌, lift}

-- The loop `while (buflen)`: whether all was written, and the calls left and the wire after it.
unfoldable pub write_loop : List Write → Bytes → Bytes → Bool × List Write × Bytes
write_loop ws [] wire = (true, ws, wire)
write_loop [] (c ∷ buf) wire = (true, [], wire ++ c ∷ buf)
write_loop (broken ∷ ws) (c ∷ buf) wire = (false, ws, wire)
write_loop (taken n ∷ ws) (c ∷ buf) wire =
    write_loop ws (drop n (c ∷ buf)) (wire ++ take n (c ∷ buf))

unfoldable pub send_packet : Packet → M (Unit {0})
unfolding write_loop update
send_packet pkt s =
    let (sent, ws, wire) = write_loop s.writes (update pkt).vector s.wire in
    let s' = record s { writes = ws; wire = wire } in
    if sent then done tt s' else raised write_failed s'

-- `recvBuffer`: `n` bytes more, behind those in `buf`, and the reads left.
unfoldable pub read_loop : ℕ → List Read → Bytes → Result SftpError Bytes × List Read
read_loop zero inc buf = (ok buf, inc)
read_loop (suc n) [] buf = (throw unexpected_eof, [])
read_loop (suc n) (failed ∷ inc) buf = (throw read_failed, inc)
read_loop (suc n) (got [] ∷ inc) buf = (throw unexpected_eof, inc)
read_loop (suc n) (got (c ∷ d) ∷ inc) buf =
    let more = read_loop (suc n - length (c ∷ d)) inc (buf ++ c ∷ d) in
    if leb (length (c ∷ d)) (suc n)
    then more
    else (ok (buf ++ take (suc n) (c ∷ d)), got (drop (suc n) (c ∷ d)) ∷ inc)

unfoldable pub recv_buffer : ℕ → M Bytes
unfolding read_loop
recv_buffer n s =
    let (result, inc) = read_loop n s.incoming [] in lift result (record s { incoming = inc })

-- glibc's BUFSIZ
abbrev pub bufsiz : ℕ
bufsiz = 8192

-- The loop `while (length > 0)`. A round reads a byte at least, so `length` rounds are enough.
unfoldable pub recv_loop : ℕ → ℕ → Packet → M Packet
recv_loop zero len pkt = pure pkt
recv_loop (suc f) zero pkt = pure pkt
recv_loop (suc f) (suc n) pkt = recv_buffer (min bufsiz (suc n)) >>= λ buffer.
    recv_loop f (suc n - min bufsiz (suc n)) (add_byte_vector buffer pkt)

unfoldable pub recv_packet : M Packet
recv_packet = do
  buffer ← recv_buffer 4
  (len, pkt) ← lift (get_int32 (record { vector = buffer; gpos = 0 }))
  recv_loop len len pkt
