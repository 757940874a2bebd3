-- ===== src/Server/Wire.antt =====
-- The fields of a packet on the wire: the functions of src/pkgsftp/packet.go that append a field to
-- a packet and that read one from it, with the chains of `else if` of the `UnmarshalBinary` methods.
-- Which packets they make up is in Wire/Decode and Wire/Encode.
pub mod Fields
pub mod Decode
pub mod Encode
pub mod Fits
pub mod Requests
pub mod Extensions
pub mod RoundTrip
pub mod Frames
pub mod Framing
pub mod Session
pub mod Served
pub mod Crash
use azure_s_sftp.Base.{
  ℕ, ◌/◌, ◌%◌, Bool, true, false, List, [], ◌∷◌, ◌++◌, Option, none, some, Text, length, take, drop,
  ltb, if◌then◌else◌,
}
use azure_s_sftp.Server.Packets.{unmarshal_uint}

-- `marshalUint32(b, v)`, `marshalUint64` and `marshalString`: what they append to `b`.
unfoldable pub marshal_uint32 : ℕ → List ℕ
marshal_uint32 v = v / 16777216 % 256 ∷ v / 65536 % 256 ∷ v / 256 % 256 ∷ v % 256 ∷ []

unfoldable pub marshal_uint64 : ℕ → List ℕ
unfolding marshal_uint32
marshal_uint64 v = marshal_uint32 (v / 4294967296 % 4294967296) ++ marshal_uint32 (v % 4294967296)

unfoldable pub marshal_string : Text → List ℕ
unfolding marshal_uint32
marshal_string v = marshal_uint32 (length v % 4294967296) ++ v

-- `unmarshalStringSafe`: `none` is the error of a packet that is too short.
unfoldable pub unmarshal_string : List ℕ → Option (Text × List ℕ)
unfolding unmarshal_uint
unmarshal_string b = elim (unmarshal_uint 4 0 b) [
  | none ↦ none
  | some (n, rest) ↦ if ltb (length rest) n then none else some (take n rest, drop n rest)
]

-- What is left to read, and whether a field was missing. Behind a missing field nothing is read:
-- the fields that follow keep their zero values.
pub record Reader : Type 0 where
  pub rest : List ℕ
  pub short : Bool

abbrev pub reader : List ℕ → Reader
reader b = record { rest = b; short = false }

abbrev pub too_short : Reader
too_short = record { rest = []; short = true }

-- One step of a chain that reads a number of that many bytes, or a string.
unfoldable pub uint_field : ℕ → Reader → ℕ × Reader
unfolding unmarshal_uint
uint_field width r = if r.short then (0, r) else elim (unmarshal_uint width 0 r.rest) [
  | none ↦ (0, too_short)
  | some (v, rest) ↦ (v, reader rest)
]

unfoldable pub string_field : Reader → Text × Reader
unfolding unmarshal_string
string_field r = if r.short then ([], r) else elim (unmarshal_string r.rest) [
  | none ↦ ([], too_short)
  | some (v, rest) ↦ (v, reader rest)
]
