-- ===== src/Server/Wire/Decode.antt =====
-- `makePacket` of src/pkgsftp/packet-typing.go and the `UnmarshalBinary` methods of the requests in
-- src/pkgsftp/packet.go.
use azure_s_sftp.Base.{
  ℕ, zero, suc, ◌%◌, List, [], ◌∷◌, Option, none, some, Text, codes, ◌==◌, length, take, ltb, eqb,
  if◌then◌else◌, Error,
}
use azure_s_sftp.Server.{Packet, Extension}
use azure_s_sftp.Server.Packets.{short_packet}
use azure_s_sftp.Server.Wire.{Reader, reader, too_short, uint_field, string_field}

-- What `makePacket` returns: no packet is a nil one. A packet that could not be read to its end
-- comes with the error, and its missing fields are zero. In a `setstat` or an `fsetstat` that came
-- with an error `Attrs` is nil, where here stands the empty list.
pub record Made : Type 0 where
  pub packet : Option Packet
  pub error : Option Error

abbrev pub unknown_extended : Error
unknown_extended = Error.other (codes "unknown extended packet")

abbrev pub unhandled_type : Error
unhandled_type = Error.other (codes "unhandled packet type")

abbrev pub good : Packet → Made
good p = record { packet = some p; error = none }

unfoldable pub unpacked : Packet → Reader → Made
unpacked p r = record { packet = some p; error = if r.short then some short_packet else none }

-- `unmarshalIDString`
unfoldable pub unmarshal_id_string : (ℕ → Text → Packet) → List ℕ → Made
unfolding unpacked uint_field string_field
unmarshal_id_string ctor b =
    let (id, r) = uint_field 4 (reader b) in let (s, r) = string_field r in unpacked (ctor id s) r

-- Two strings: a rename and a symbolic link.
unfoldable pub unmarshal_two_strings : (ℕ → Text → Text → Packet) → List ℕ → Made
unfolding unpacked uint_field string_field
unmarshal_two_strings ctor b =
    let (id, r) = uint_field 4 (reader b) in
    let (s, r) = string_field r in let (t, r) = string_field r in unpacked (ctor id s t) r

-- The pairs of names and data behind the version, as long as there are bytes; each takes some.
unfoldable pub extension_pairs : ℕ → Reader → Reader
unfolding string_field
extension_pairs zero r = r
extension_pairs (suc fuel) r =
    let (name, r1) = string_field r in
    let (data_text, r2) = string_field r1 in
    let last = extension_pairs fuel r2 in if eqb (length r.rest) 0 then r else last

unfoldable pub unmarshal_init : List ℕ → Made
unfolding unpacked uint_field extension_pairs
unmarshal_init b =
    let (version, r) = uint_field 4 (reader b) in
    unpacked Packet.init (extension_pairs (length b) r)

unfoldable pub unmarshal_open : List ℕ → Made
unfolding unpacked uint_field string_field
unmarshal_open b =
    let (id, r) = uint_field 4 (reader b) in
    let (path, r) = string_field r in
    let (pflags, r) = uint_field 4 r in
    let (flags, r) = uint_field 4 r in unpacked (Packet.open_path id path pflags) r

unfoldable pub unmarshal_mkdir : List ℕ → Made
unfolding unpacked uint_field string_field
unmarshal_mkdir b =
    let (id, r) = uint_field 4 (reader b) in
    let (path, r) = string_field r in
    let (flags, r) = uint_field 4 r in unpacked (Packet.mkdir id path) r

unfoldable pub unmarshal_read : List ℕ → Made
unfolding unpacked uint_field string_field
unmarshal_read b =
    let (id, r) = uint_field 4 (reader b) in
    let (handle, r) = string_field r in
    let (offset, r) = uint_field 8 r in
    let (len, r) = uint_field 4 r in unpacked (Packet.read id handle offset len) r

-- The data of a write: as many bytes as `Length` says, or none if there are fewer.
unfoldable pub write_data : ℕ → Reader → List ℕ × Reader
write_data len r =
    if r.short
    then ([], r)
    else if ltb (length r.rest % 4294967296) len
    then ([], too_short)
    else (take len r.rest, r)

unfoldable pub unmarshal_write : List ℕ → Made
unfolding unpacked uint_field string_field write_data
unmarshal_write b =
    let (id, r) = uint_field 4 (reader b) in
    let (handle, r) = string_field r in
    let (offset, r) = uint_field 8 r in
    let (len, r) = uint_field 4 r in
    let (bs, r) = write_data len r in unpacked (Packet.write id handle offset bs) r

-- `Attrs` is all that stands behind the flags.
unfoldable pub unmarshal_setstat : (ℕ → Text → ℕ → List ℕ → Packet) → List ℕ → Made
unfolding unpacked uint_field string_field
unmarshal_setstat ctor b =
    let (id, r) = uint_field 4 (reader b) in
    let (name, r) = string_field r in
    let (flags, r) = uint_field 4 r in unpacked (ctor id name flags r.rest) r

-- The specific packets read the whole packet again, from its identifier on.
unfoldable pub unmarshal_statvfs : List ℕ → Made
unfolding unpacked uint_field string_field
unmarshal_statvfs b =
    let (id, r) = uint_field 4 (reader b) in
    let (name, r) = string_field r in
    let (path, r) = string_field r in unpacked (Packet.extended id (Extension.statvfs path)) r

unfoldable pub unmarshal_two_paths : (Text → Text → Extension) → List ℕ → Made
unfolding unpacked uint_field string_field
unmarshal_two_paths ctor b =
    let (id, r) = uint_field 4 (reader b) in
    let (name, r) = string_field r in
    let (old, r) = string_field r in
    let (new, r) = string_field r in unpacked (Packet.extended id (ctor old new)) r

abbrev pub statvfs_name : Text
statvfs_name = codes "statvfs@openssh.com"

abbrev pub posix_rename_name : Text
posix_rename_name = codes "posix-rename@openssh.com"

abbrev pub hardlink_name : Text
hardlink_name = codes "hardlink@openssh.com"

unfoldable pub unmarshal_specific : ℕ → Text → List ℕ → Made
unfolding ◌==◌ unmarshal_statvfs unmarshal_two_paths
unmarshal_specific id name b =
    if name == statvfs_name
    then unmarshal_statvfs b
    else if name == posix_rename_name
    then unmarshal_two_paths Extension.posix_rename b
    else if name == hardlink_name
    then unmarshal_two_paths Extension.hardlink b
    else record {
      packet = some (Packet.extended id Extension.unsupported);
      error = some unknown_extended;
    }

-- `sshFxpExtendedPacket.UnmarshalBinary`
unfoldable pub unmarshal_extended : List ℕ → Made
unfolding unpacked uint_field string_field unmarshal_specific
unmarshal_extended b =
    let (id, r) = uint_field 4 (reader b) in
    let (name, r) = string_field r in
    if r.short
    then unpacked (Packet.extended id Extension.unsupported) r
    else unmarshal_specific id name b

-- The requests by the number of their type, but for `sshFxpExtended`, which is 200.
abbrev pub parsers : List (ℕ × (List ℕ → Made))
parsers =
    (1, unmarshal_init)
    ∷ (3, unmarshal_open)
    ∷ (4, unmarshal_id_string Packet.close)
    ∷ (5, unmarshal_read)
    ∷ (6, unmarshal_write)
    ∷ (7, unmarshal_id_string Packet.lstat)
    ∷ (8, unmarshal_id_string Packet.fstat)
    ∷ (9, unmarshal_setstat Packet.setstat)
    ∷ (10, unmarshal_setstat Packet.fsetstat)
    ∷ (11, unmarshal_id_string Packet.opendir)
    ∷ (12, unmarshal_id_string Packet.readdir)
    ∷ (13, unmarshal_id_string Packet.remove)
    ∷ (14, unmarshal_mkdir)
    ∷ (15, unmarshal_id_string Packet.rmdir)
    ∷ (16, unmarshal_id_string Packet.realpath)
    ∷ (17, unmarshal_id_string Packet.stat)
    ∷ (18, unmarshal_two_strings Packet.rename)
    ∷ (19, unmarshal_id_string Packet.readlink)
    ∷ (20, unmarshal_two_strings Packet.symlink)
    ∷ (200, unmarshal_extended)
    ∷ []

unfoldable pub parse_by : List (ℕ × (List ℕ → Made)) → ℕ → List ℕ → Made
parse_by [] kind b = record { packet = none; error = some unhandled_type }
parse_by ((k, parse) ∷ table) kind b =
    let rest = parse_by table kind b in if eqb k kind then parse b else rest

-- `makePacket`
unfoldable pub make_packet : ℕ → List ℕ → Made
unfolding parse_by
make_packet kind b = parse_by parsers kind b
