-- ===== src/Server/Wire/Encode.antt =====
-- The `MarshalBinary` methods of the requests in src/pkgsftp/packet.go, with which a client makes
-- the bytes of a packet.
use azure_s_sftp.Base.{ℕ, List, [], ◌∷◌, ◌++◌, Option, none, some, Text, length}
use azure_s_sftp.Server.{Packet, Extension}
use azure_s_sftp.Server.Wire.{marshal_uint32, marshal_uint64, marshal_string}
use azure_s_sftp.Server.Wire.Decode.{statvfs_name, posix_rename_name, hardlink_name}

-- The fields that the server does not use: the version and the pairs of an init packet, the `Flags`
-- of an open and of a mkdir request.
pub record Unused : Type 0 where
  pub version : ℕ
  pub pairs : List (Text × Text)
  pub flags : ℕ

unfoldable pub marshal_pairs : List (Text × Text) → List ℕ
unfolding marshal_string
marshal_pairs [] = []
marshal_pairs ((name, content) ∷ pairs) =
    marshal_string name ++ (marshal_string content ++ marshal_pairs pairs)

-- `marshalIDString`
unfoldable pub marshal_id_string : ℕ → ℕ → Text → List ℕ
unfolding marshal_uint32 marshal_string
marshal_id_string kind id str = kind ∷ (marshal_uint32 id ++ (marshal_string str ++ []))

unfoldable pub marshal_two_strings : ℕ → ℕ → Text → Text → List ℕ
unfolding marshal_uint32 marshal_string
marshal_two_strings kind id s t =
    kind ∷ (marshal_uint32 id ++ (marshal_string s ++ (marshal_string t ++ [])))

unfoldable pub marshal_setstat : ℕ → ℕ → Text → ℕ → List ℕ → List ℕ
unfolding marshal_uint32 marshal_string
marshal_setstat kind id name flags attrs =
    kind ∷ (marshal_uint32 id ++ (marshal_string name ++ (marshal_uint32 flags ++ attrs)))

unfoldable pub marshal_two_paths : Text → ℕ → Text → Text → List ℕ
unfolding marshal_uint32 marshal_string
marshal_two_paths ext id old new =
    200
    ∷ (marshal_uint32 id
        ++ (marshal_string ext ++ (marshal_string old ++ (marshal_string new ++ []))))

-- `MarshalBinary`; `none` is a packet that no method encodes. `Length` of a write is the number of
-- its bytes, as the clients set it.
unfoldable pub marshal_binary : Unused → Packet → Option (List ℕ)
unfolding marshal_pairs marshal_id_string marshal_two_strings marshal_setstat marshal_two_paths
    marshal_uint64
marshal_binary u Packet.init = some (1 ∷ (marshal_uint32 u.version ++ marshal_pairs u.pairs))
marshal_binary u (Packet.open_path id path pflags) = some (
    3
    ∷ (marshal_uint32 id
        ++ (marshal_string path ++ (marshal_uint32 pflags ++ (marshal_uint32 u.flags ++ [])))))
marshal_binary u (Packet.close id h) = some (marshal_id_string 4 id h)
marshal_binary u (Packet.read id h offset len) = some (
    5
    ∷ (marshal_uint32 id
        ++ (marshal_string h ++ (marshal_uint64 offset ++ (marshal_uint32 len ++ [])))))
marshal_binary u (Packet.write id h offset bs) = some (
    6
    ∷ (marshal_uint32 id
        ++ (marshal_string h ++ (marshal_uint64 offset ++ (marshal_uint32 (length bs) ++ bs)))))
marshal_binary u (Packet.lstat id p) = some (marshal_id_string 7 id p)
marshal_binary u (Packet.fstat id h) = some (marshal_id_string 8 id h)
marshal_binary u (Packet.setstat id p flags b) = some (marshal_setstat 9 id p flags b)
marshal_binary u (Packet.fsetstat id h flags b) = some (marshal_setstat 10 id h flags b)
marshal_binary u (Packet.opendir id p) = some (marshal_id_string 11 id p)
marshal_binary u (Packet.readdir id h) = some (marshal_id_string 12 id h)
marshal_binary u (Packet.remove id p) = some (marshal_id_string 13 id p)
marshal_binary u (Packet.mkdir id p) =
    some (14 ∷ (marshal_uint32 id ++ (marshal_string p ++ (marshal_uint32 u.flags ++ []))))
marshal_binary u (Packet.rmdir id p) = some (marshal_id_string 15 id p)
marshal_binary u (Packet.realpath id p) = some (marshal_id_string 16 id p)
marshal_binary u (Packet.stat id p) = some (marshal_id_string 17 id p)
marshal_binary u (Packet.rename id p q) = some (marshal_two_strings 18 id p q)
marshal_binary u (Packet.readlink id p) = some (marshal_id_string 19 id p)
marshal_binary u (Packet.symlink id p q) = some (marshal_two_strings 20 id p q)
marshal_binary u (Packet.extended id (Extension.statvfs p)) =
    some (200 ∷ (marshal_uint32 id ++ (marshal_string statvfs_name ++ (marshal_string p ++ []))))
marshal_binary u (Packet.extended id (Extension.posix_rename p q)) =
    some (marshal_two_paths posix_rename_name id p q)
marshal_binary u (Packet.extended id (Extension.hardlink p q)) =
    some (marshal_two_paths hardlink_name id p q)
marshal_binary u (Packet.extended id Extension.unsupported) = none
marshal_binary u (Packet.foreign id) = none
