-- ===== src/Server/Wire/Frames.antt =====
-- Packets on the connection: `sendPacket` and `recvPacket` of src/pkgsftp/packet.go, without the
-- allocator, which `NewServer` does not set.
use azure_s_sftp.Base.{
  ℕ, ◌%◌, List, [], ◌∷◌, ◌++◌, Option, none, some, codes, length, take, drop, ltb, eqb,
  if◌then◌else◌, Error, Result, ok, err,
}
use azure_s_sftp.Server.Packets.{unmarshal_uint}
use azure_s_sftp.Server.Wire.{marshal_uint32}

-- The bytes that `sendPacket` writes for the encoding of a packet.
unfoldable pub send_packet : List ℕ → List ℕ
send_packet bb = marshal_uint32 (length bb % 4294967296) ++ bb

abbrev pub unexpected_eof : Error
unexpected_eof = Error.other (codes "unexpected EOF")

-- `io.ReadFull` on a connection that delivers these bytes and then ends: the bytes read, and those
-- that follow.
unfoldable pub read_full : ℕ → List ℕ → Result (List ℕ × List ℕ)
read_full n b =
    if ltb (length b) n
    then (if eqb (length b) 0 then err Error.eof else err unexpected_eof)
    else ok (take n b, drop n b)

abbrev pub max_msg_length : ℕ
max_msg_length = 262144

abbrev pub long_packet : Error
long_packet = Error.other (codes "packet too long")

-- An error, a run-time panic, or the type of a packet, its bytes and what follows on the connection.
pub data Received : Type 0 where
  failed : Error → Received
  panicked : Received
  frame : ℕ → List ℕ → List ℕ → Received

-- `b[0], b[1:length]`: an empty packet has no first byte.
unfoldable pub split_type : Result (List ℕ × List ℕ) → Received
split_type (err e) = Received.failed e
split_type (ok ([], rest)) = Received.panicked
split_type (ok (kind ∷ b, rest)) = Received.frame kind b rest

unfoldable pub recv_body : ℕ → List ℕ → Received
recv_body n b =
    if ltb max_msg_length n then Received.failed long_packet else split_type (read_full n b)

-- `unmarshalUint32` on the four bytes, which panics on fewer.
unfoldable pub recv_length : Option (ℕ × List ℕ) → List ℕ → Received
recv_length none b = Received.panicked
recv_length (some (n, _)) b = recv_body n b

unfoldable pub recv_header : Result (List ℕ × List ℕ) → Received
recv_header (err e) = Received.failed e
recv_header (ok (header, rest)) = recv_length (unmarshal_uint 4 0 header) rest

unfoldable pub recv_packet : List ℕ → Received
recv_packet b = recv_header (read_full 4 b)
