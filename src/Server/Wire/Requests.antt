-- ===== src/Server/Wire/Requests.antt =====
-- The round trip of the requests of fixed form: src/pkgsftp/packet.go.
use azure_s_sftp.Base.{
  ℕ, ◌<◌, List, [], ◌++◌, ◌≡◌, refl, Text, length, append-nil, take, take-append, arith,
}
use azure_s_sftp.Server.{Packet}
use azure_s_sftp.Server.Wire.{marshal_uint32, marshal_uint64, marshal_string, reader}
use azure_s_sftp.Server.Wire.Fields.{
  uint_field-marshal_uint32, uint_field-marshal_uint64, string_field-marshal_string,
}
use azure_s_sftp.Server.Wire.Decode.{
  good, unpacked, unmarshal_id_string, unmarshal_two_strings, unmarshal_open, unmarshal_mkdir,
  unmarshal_read, write_data, unmarshal_write, unmarshal_setstat,
}
use azure_s_sftp.Server.Wire.Fits.{IsWord, IsString}

pub id_string_lem :
    (ctor : ℕ → Text → Packet) (id : ℕ) (s : Text)
    → IsWord id
    → IsString s
    → unmarshal_id_string ctor (marshal_uint32 id ++ (marshal_string s ++ [])) ≡ good (ctor id s)
unfolding unmarshal_id_string unpacked
id_string_lem ctor id s hi hs =
    simp (uint_field-marshal_uint32 _ _ hi, string_field-marshal_string _ _ hs) refl

pub two_strings_lem :
    (ctor : ℕ → Text → Text → Packet) (id : ℕ) (s t : Text)
    → IsWord id
    → IsString s
    → IsString t
    → unmarshal_two_strings ctor
        (marshal_uint32 id ++ (marshal_string s ++ (marshal_string t ++ [])))
      ≡ good (ctor id s t)
unfolding unmarshal_two_strings unpacked
two_strings_lem ctor id s t hi hs ht =
    simp
      (
        uint_field-marshal_uint32 _ _ hi,
        string_field-marshal_string _ _ hs,
        string_field-marshal_string _ _ ht,
      )
      refl

pub setstat_lem :
    (ctor : ℕ → Text → ℕ → List ℕ → Packet) (id : ℕ) (s : Text) (flags : ℕ) (b : List ℕ)
    → IsWord id
    → IsString s
    → IsWord flags
    → unmarshal_setstat ctor
        (marshal_uint32 id ++ (marshal_string s ++ (marshal_uint32 flags ++ b)))
      ≡ good (ctor id s flags b)
unfolding unmarshal_setstat unpacked
setstat_lem ctor id s flags b hi hs hf =
    simp
      (
        uint_field-marshal_uint32 _ _ hi,
        string_field-marshal_string _ _ hs,
        uint_field-marshal_uint32 _ _ hf,
      )
      refl

pub open_lem :
    (id : ℕ) (p : Text) (pflags flags : ℕ)
    → IsWord id
    → IsString p
    → IsWord pflags
    → IsWord flags
    → unmarshal_open (
        marshal_uint32 id
        ++ (marshal_string p ++ (marshal_uint32 pflags ++ (marshal_uint32 flags ++ []))))
      ≡ good (Packet.open_path id p pflags)
unfolding unmarshal_open unpacked
open_lem id p pflags flags hi hp hpf hf =
    simp
      (
        uint_field-marshal_uint32 _ _ hi,
        string_field-marshal_string _ _ hp,
        uint_field-marshal_uint32 _ _ hpf,
        uint_field-marshal_uint32 _ _ hf,
      )
      refl

pub mkdir_lem :
    (id : ℕ) (p : Text) (flags : ℕ)
    → IsWord id
    → IsString p
    → IsWord flags
    → unmarshal_mkdir (marshal_uint32 id ++ (marshal_string p ++ (marshal_uint32 flags ++ [])))
      ≡ good (Packet.mkdir id p)
unfolding unmarshal_mkdir unpacked
mkdir_lem id p flags hi hp hf =
    simp
      (
        uint_field-marshal_uint32 _ _ hi,
        string_field-marshal_string _ _ hp,
        uint_field-marshal_uint32 _ _ hf,
      )
      refl

pub read_lem :
    (id : ℕ) (h : Text) (offset len : ℕ)
    → IsWord id
    → IsString h
    → offset < 18446744073709551616
    → IsWord len
    → unmarshal_read (
        marshal_uint32 id
        ++ (marshal_string h ++ (marshal_uint64 offset ++ (marshal_uint32 len ++ []))))
      ≡ good (Packet.read id h offset len)
unfolding unmarshal_read unpacked
read_lem id h offset len hi hh ho hl =
    simp
      (
        uint_field-marshal_uint32 _ _ hi,
        string_field-marshal_string _ _ hh,
        uint_field-marshal_uint64 _ _ ho,
        uint_field-marshal_uint32 _ _ hl,
      )
      refl

take_all : (bs : List ℕ) → take (length bs) bs ≡ bs
take_all bs = rw append-nil at (take-append bs [])

write_data_lem : (bs : List ℕ) → IsString bs → write_data (length bs) (reader bs) ≡ (bs, reader bs)
unfolding write_data
write_data_lem bs h = ground (arith, take_all bs)

pub write_lem :
    (id : ℕ) (h : Text) (offset : ℕ) (bs : List ℕ)
    → IsWord id
    → IsString h
    → offset < 18446744073709551616
    → IsString bs
    → unmarshal_write (
        marshal_uint32 id
        ++ (marshal_string h ++ (marshal_uint64 offset ++ (marshal_uint32 (length bs) ++ bs))))
      ≡ good (Packet.write id h offset bs)
unfolding unmarshal_write unpacked
write_lem id h offset bs hi hh ho hl =
    simp
      (
        uint_field-marshal_uint32 _ _ hi,
        string_field-marshal_string _ _ hh,
        uint_field-marshal_uint64 _ _ ho,
        uint_field-marshal_uint32 _ _ hl,
        write_data_lem bs hl,
      )
      refl
