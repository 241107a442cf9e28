-- ===== src/Sftp/Packet.antt =====
-- `SFTPPacket`. `m_vector.at` raises `std::out_of_range`; a string read past the end of the vector
-- has no defined behaviour in C++, which is the error `undefined_read` here.
use kdump.Prelude.{
  ℕ, zero, suc, ◌+◌, ◌-◌, ◌*◌, ◌/◌, ◌%◌, ◌^◌, [], ◌∷◌, ◌++◌, none, some, Bytes, Result, ok, throw,
  ◌>>=◌, leb, if◌then◌else◌, length, get_elem?, take, drop, bit_or,
}

pub data SftpError : Type 0 where
  out_of_range undefined_read : SftpError
  -- "SFTP request/reply id mismatch"
  id_mismatch : SftpError
  -- "Invalid response to …: type n"
  invalid_response : ℕ → SftpError
  -- KSFTPError with its code
  sftp_error : ℕ → SftpError
  -- sendPacket and recvBuffer
  write_failed read_failed unexpected_eof : SftpError
  -- what the data provider throws
  provider_error : SftpError

pub record Packet : Type 0 where
  pub vector : Bytes
  pub gpos : ℕ

-- The constructor: room for the length.
abbrev pub new_packet : Packet
new_packet = record { vector = 0 ∷ 0 ∷ 0 ∷ 0 ∷ []; gpos = 0 }

abbrev pub set_data : Bytes → Packet → Packet
set_data val p = record p { vector = val; gpos = 0 }

-- `unsigned char`
abbrev pub add_byte : ℕ → Packet → Packet
add_byte val p = record p { vector = p.vector ++ val % 256 ∷ [] }

abbrev pub add_byte_vector : Bytes → Packet → Packet
add_byte_vector val p = record p { vector = p.vector ++ val }

-- The loops `for (i = n - 1; i >= 0; --i)`; `& 0xff` keeps the low byte.
add_loop : ℕ → ℕ → Packet → Packet
add_loop zero val p = p
add_loop (suc i) val p =
    add_loop i val (record p { vector = p.vector ++ val / 2 ^ (i * 8) % 256 ∷ [] })

unfoldable pub add_int32 : ℕ → Packet → Packet
unfolding add_loop
add_int32 val p = add_loop 4 val p

unfoldable pub add_int64 : ℕ → Packet → Packet
unfolding add_loop
add_int64 val p = add_loop 8 val p

unfoldable pub add_string : Bytes → Packet → Packet
unfolding add_int32
add_string val p = add_byte_vector val (add_int32 (length val) p)

-- m_vector.at(m_gpos++)
unfoldable pub get_byte : Packet → Result SftpError (ℕ × Packet)
get_byte p = elim (get_elem? p.vector p.gpos) [
  | none ↦ throw out_of_range
  | some b ↦ ok (b, record p { gpos = p.gpos + 1 })
]

-- The loops with `ret <<= 8; ret |= …`, in 64 bits.
unfoldable pub get_loop : ℕ → ℕ → Packet → Result SftpError (ℕ × Packet)
unfolding get_byte
get_loop zero ret p = ok (ret, p)
get_loop (suc i) ret p = get_byte p >>= λ (b, q). get_loop i (bit_or (ret * 256 % 2 ^ 64) b) q

unfoldable pub get_int32 : Packet → Result SftpError (ℕ × Packet)
unfolding get_loop
get_int32 p = get_loop 4 0 p

unfoldable pub get_int64 : Packet → Result SftpError (ℕ × Packet)
unfolding get_loop
get_int64 p = get_loop 8 0 p

-- `m_gpos` stays in front of the string's bytes.
unfoldable pub get_string : Packet → Result SftpError (Bytes × Packet)
unfolding get_int32
get_string p = get_int32 p >>= λ (len, q).
    if leb (q.gpos + len) (length q.vector)
    then ok (take len (drop q.gpos q.vector), q)
    else throw undefined_read

-- The length in front; the vector holds four bytes at least, since it is built on `new_packet`.
unfoldable pub update : Packet → Packet
update p =
    let len = length p.vector - 4 in
    record p {
      vector =
          len / 2 ^ 24 % 256 ∷ len / 2 ^ 16 % 256 ∷ len / 2 ^ 8 % 256 ∷ len % 256 ∷ drop 4 p.vector;
    }
