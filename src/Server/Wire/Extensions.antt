-- ===== src/Server/Wire/Extensions.antt =====
-- The round trip of the init packet with its pairs, and of the extended requests:
-- src/pkgsftp/packet.go.
use azure_s_sftp.Base.{
  ℕ, zero, suc, ◌+◌, ◌≤◌, ◌<◌, List, [], ◌∷◌, ◌++◌, ◌≡◌, refl, ◌∙◌, Text, length, length-append,
  All, arith,
}
use azure_s_sftp.Server.{Packet, Extension}
use azure_s_sftp.Server.Wire.{marshal_uint32, marshal_string, reader}
use azure_s_sftp.Server.Wire.Fields.{uint_field-marshal_uint32, string_field-marshal_string}
use azure_s_sftp.Server.Wire.Decode.{
  good, unpacked, extension_pairs, unmarshal_init, unmarshal_statvfs, unmarshal_two_paths,
  unmarshal_specific, unmarshal_extended, statvfs_name, posix_rename_name, hardlink_name,
}
use azure_s_sftp.Server.Wire.Encode.{marshal_pairs}
use azure_s_sftp.Server.Wire.Fits.{IsWord, IsString}

marshal_string_longer :
    (s : Text) (b : List ℕ) → length (marshal_string s ++ b) ≡ 4 + (length s + length b)
unfolding marshal_string marshal_uint32
marshal_string_longer s b = omega (arith, length-append s b)

marshal_pairs_cons :
    (n c : Text) (pairs : List (Text × Text))
    → marshal_pairs ((n, c) ∷ pairs) ≡ marshal_string n ++ (marshal_string c ++ marshal_pairs pairs)
unfolding marshal_pairs
marshal_pairs_cons n c pairs = refl

one_pair :
    (fuel : ℕ) (n c : Text) (b : List ℕ)
    → IsString n
    → IsString c
    → extension_pairs (suc fuel) (reader (marshal_string n ++ (marshal_string c ++ b)))
      ≡ extension_pairs fuel (reader b)
unfolding extension_pairs
one_pair fuel n c b hn hc =
    simp
      (
        string_field-marshal_string _ _ hn,
        string_field-marshal_string _ _ hc,
        marshal_string_longer n (marshal_string c ++ b),
      )
      (ground arith)

pairs_longer :
    (n c : Text) (pairs : List (Text × Text))
    → length (marshal_pairs pairs) < length (marshal_pairs ((n, c) ∷ pairs))
pairs_longer n c pairs = rw (marshal_pairs_cons n c pairs) (
    omega (
      arith,
      marshal_string_longer n (marshal_string c ++ marshal_pairs pairs),
      marshal_string_longer c (marshal_pairs pairs),
    ))

-- Every pair takes eight bytes at least, and the reading ends with the bytes.
extension_pairs_lem :
    (fuel : ℕ) (pairs : List (Text × Text))
    → All (λ (pair : Text × Text). IsString pair.0 × IsString pair.1) pairs
    → length (marshal_pairs pairs) ≤ fuel
    → extension_pairs fuel (reader (marshal_pairs pairs)) ≡ reader []
extension_pairs_lem zero [] h hf = unfold extension_pairs marshal_pairs in refl
extension_pairs_lem (suc fuel) [] h hf = unfold extension_pairs marshal_pairs in refl
extension_pairs_lem zero ((n, c) ∷ pairs) h hf = absurd (omega (arith, pairs_longer n c pairs))
extension_pairs_lem (suc fuel) ((n, c) ∷ pairs) ((hn, hc), hs) hf =
    rw (marshal_pairs_cons n c pairs) (
      one_pair fuel n c (marshal_pairs pairs) hn hc
      ∙ extension_pairs_lem fuel pairs hs (omega (arith, pairs_longer n c pairs)))

pub init_lem :
    (version : ℕ) (pairs : List (Text × Text))
    → IsWord version
    → All (λ (pair : Text × Text). IsString pair.0 × IsString pair.1) pairs
    → unmarshal_init (marshal_uint32 version ++ marshal_pairs pairs) ≡ good Packet.init
unfolding unmarshal_init unpacked
init_lem version pairs hv hp =
    simp
      (
        uint_field-marshal_uint32 _ _ hv,
        extension_pairs_lem (length (marshal_uint32 version ++ marshal_pairs pairs)) pairs hp
            (omega (arith, length-append (marshal_uint32 version) (marshal_pairs pairs))),
      )
      refl

pub statvfs_lem :
    (id : ℕ) (p : Text)
    → IsWord id
    → IsString p
    → unmarshal_extended
        (marshal_uint32 id ++ (marshal_string statvfs_name ++ (marshal_string p ++ [])))
      ≡ good (Packet.extended id (Extension.statvfs p))
unfolding unmarshal_extended unmarshal_specific unmarshal_statvfs unpacked
statvfs_lem id p hi hp =
    simp
      (
        uint_field-marshal_uint32 _ _ hi,
        string_field-marshal_string statvfs_name (marshal_string p ++ []) (omega arith),
        string_field-marshal_string _ _ hp,
      )
      refl

two_paths_lem :
    (ext : Text) (ctor : Text → Text → Extension) (id : ℕ) (p q : Text)
    → IsWord id
    → IsString ext
    → IsString p
    → IsString q
    → unmarshal_two_paths ctor (
        marshal_uint32 id ++ (marshal_string ext ++ (marshal_string p ++ (marshal_string q ++ []))))
      ≡ good (Packet.extended id (ctor p q))
unfolding unmarshal_two_paths unpacked
two_paths_lem ext ctor id p q hi he hp hq =
    simp
      (
        uint_field-marshal_uint32 _ _ hi,
        string_field-marshal_string _ _ he,
        string_field-marshal_string _ _ hp,
        string_field-marshal_string _ _ hq,
      )
      refl

-- A packet that is read as an extended one with a name.
extended_lem :
    (ext : Text) (id : ℕ) (b : List ℕ)
    → IsWord id
    → IsString ext
    → unmarshal_extended (marshal_uint32 id ++ (marshal_string ext ++ b))
      ≡ unmarshal_specific id ext (marshal_uint32 id ++ (marshal_string ext ++ b))
unfolding unmarshal_extended
extended_lem ext id b hi he =
    simp (uint_field-marshal_uint32 _ _ hi, string_field-marshal_string _ _ he) refl

pub posix_rename_lem :
    (id : ℕ) (p q : Text)
    → IsWord id
    → IsString p
    → IsString q
    → unmarshal_extended (
        marshal_uint32 id
        ++ (marshal_string posix_rename_name ++ (marshal_string p ++ (marshal_string q ++ []))))
      ≡ good (Packet.extended id (Extension.posix_rename p q))
posix_rename_lem id p q hi hp hq =
    extended_lem posix_rename_name id (marshal_string p ++ (marshal_string q ++ [])) hi
      (omega arith)
    ∙ (unfold unmarshal_specific in
        two_paths_lem posix_rename_name Extension.posix_rename id p q hi (omega arith) hp hq)

pub hardlink_lem :
    (id : ℕ) (p q : Text)
    → IsWord id
    → IsString p
    → IsString q
    → unmarshal_extended (
        marshal_uint32 id
        ++ (marshal_string hardlink_name ++ (marshal_string p ++ (marshal_string q ++ []))))
      ≡ good (Packet.extended id (Extension.hardlink p q))
hardlink_lem id p q hi hp hq =
    extended_lem hardlink_name id (marshal_string p ++ (marshal_string q ++ [])) hi (omega arith)
    ∙ (unfold unmarshal_specific in
        two_paths_lem hardlink_name Extension.hardlink id p q hi (omega arith) hp hq)
