-- ===== src/Server/Wire/Fields.antt =====
-- A field that was appended is read again, whatever stands behind it.
use azure_s_sftp.Base.{
  ℕ, ◌+◌, ◌*◌, ◌/◌, ◌%◌, ◌<◌, ◌++◌, List, ◌≡◌, ap, Text, length, length-append, take-append,
  drop-append, arith, some,
}
use azure_s_sftp.Server.Packets.{unmarshal_uint}
use azure_s_sftp.Server.Wire.{
  marshal_uint32, marshal_uint64, marshal_string, unmarshal_string, reader, uint_field,
  string_field,
}

-- Four bytes, read from the first on.
four_bytes :
    (acc v : ℕ)
    → v < 4294967296
    → (((acc * 256 + v / 16777216 % 256) * 256 + v / 65536 % 256) * 256 + v / 256 % 256) * 256
        + v % 256
      ≡ acc * 4294967296 + v
four_bytes acc v h = omega arith

pub unmarshal_uint-marshal_uint32 :
    (v : ℕ) (rest : List ℕ)
    → v < 4294967296
    → unmarshal_uint 4 0 (marshal_uint32 v ++ rest) ≡ some (v, rest)
unfolding unmarshal_uint marshal_uint32
unmarshal_uint-marshal_uint32 v rest h = ap (λ n. some (n, rest)) (omega (arith, four_bytes 0 v h))

pub uint_field-marshal_uint32 :
    (v : ℕ) (rest : List ℕ)
    → v < 4294967296
    → uint_field 4 (reader (marshal_uint32 v ++ rest)) ≡ (v, reader rest)
unfolding uint_field unmarshal_uint marshal_uint32
uint_field-marshal_uint32 v rest h = ap (λ n. (n, reader rest)) (omega (arith, four_bytes 0 v h))

pub uint_field-marshal_uint64 :
    (v : ℕ) (rest : List ℕ)
    → v < 18446744073709551616
    → uint_field 8 (reader (marshal_uint64 v ++ rest)) ≡ (v, reader rest)
unfolding uint_field unmarshal_uint marshal_uint64 marshal_uint32
uint_field-marshal_uint64 v rest h =
    ap (λ n. (n, reader rest))
      (rw (four_bytes 0 (v / 4294967296 % 4294967296) (omega arith)) (
        rw
          (four_bytes (0 * 4294967296 + v / 4294967296 % 4294967296) (v % 4294967296) (omega arith))
          (omega arith)))

pub string_field-marshal_string :
    (v : Text) (rest : List ℕ)
    → length v < 4294967296
    → string_field (reader (marshal_string v ++ rest)) ≡ (v, reader rest)
unfolding string_field unmarshal_string unmarshal_uint marshal_string marshal_uint32
string_field-marshal_string v rest h =
    rw (four_bytes 0 (length v % 4294967296) (omega arith))
      (ground (arith, length-append v rest, take-append v rest, drop-append v rest))
