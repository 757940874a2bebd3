-- ===== src/Server/Wire/RoundTrip.antt =====
-- What a client encodes, `makePacket` reads: src/pkgsftp/packet.go and packet-typing.go.
use azure_s_sftp.Base.{ℕ, List, ◌∷◌, Option, some, ◌≡◌}
use azure_s_sftp.Server.{Packet, Extension}
use azure_s_sftp.Server.Wire.Decode.{Made, good, make_packet}
use azure_s_sftp.Server.Wire.Encode.{Unused, marshal_binary}
use azure_s_sftp.Server.Wire.Fits.{Fits, UnusedFits}
use azure_s_sftp.Server.Wire.Requests.{
  id_string_lem, two_strings_lem, setstat_lem, open_lem, mkdir_lem, read_lem, write_lem,
}
use azure_s_sftp.Server.Wire.Extensions.{init_lem, statvfs_lem, posix_rename_lem, hardlink_lem}

-- Two encodings that are the same bytes are read as the same packet.
same :
    (k : ℕ) (c : List ℕ) (kind : ℕ) (b : List ℕ) (m : Made)
    → Option.some (k ∷ c) ≡ some (kind ∷ b)
    → make_packet k c ≡ m
    → make_packet kind b ≡ m
same k c kind b m e h = cc

-- `makePacket` reads what `MarshalBinary` wrote: the packet of that type with all its fields, and
-- no error. For a packet that a client can encode, whose numbers and lengths, also of the unused
-- fields, fit into their fields.
pub make_packet-marshal_binary :
    (u : Unused) (p : Packet) (kind : ℕ) (b : List ℕ)
    → UnusedFits u
    → Fits p
    → marshal_binary u p ≡ some (kind ∷ b)
    → make_packet kind b ≡ good p
unfolding make_packet marshal_binary Fits UnusedFits
make_packet-marshal_binary u Packet.init kind b hu hp e =
    same 1 _ kind b _ e (init_lem u.version u.pairs hu.0 hu.2)
make_packet-marshal_binary u (Packet.open_path id p f) kind b hu hp e =
    same 3 _ kind b _ e (open_lem id p f u.flags hp.0 hp.1 hp.2 hu.1)
make_packet-marshal_binary u (Packet.close id h) kind b hu hp e =
    same 4 _ kind b _ e (id_string_lem Packet.close id h hp.0 hp.1)
make_packet-marshal_binary u (Packet.read id h o n) kind b hu hp e =
    same 5 _ kind b _ e (read_lem id h o n hp.0 hp.1 hp.2 hp.3)
make_packet-marshal_binary u (Packet.write id h o bs) kind b hu hp e =
    same 6 _ kind b _ e (write_lem id h o bs hp.0 hp.1 hp.2 hp.3)
make_packet-marshal_binary u (Packet.lstat id h) kind b hu hp e =
    same 7 _ kind b _ e (id_string_lem Packet.lstat id h hp.0 hp.1)
make_packet-marshal_binary u (Packet.fstat id h) kind b hu hp e =
    same 8 _ kind b _ e (id_string_lem Packet.fstat id h hp.0 hp.1)
make_packet-marshal_binary u (Packet.setstat id h f bs) kind b hu hp e =
    same 9 _ kind b _ e (setstat_lem Packet.setstat id h f bs hp.0 hp.1 hp.2)
make_packet-marshal_binary u (Packet.fsetstat id h f bs) kind b hu hp e =
    same 10 _ kind b _ e (setstat_lem Packet.fsetstat id h f bs hp.0 hp.1 hp.2)
make_packet-marshal_binary u (Packet.opendir id h) kind b hu hp e =
    same 11 _ kind b _ e (id_string_lem Packet.opendir id h hp.0 hp.1)
make_packet-marshal_binary u (Packet.readdir id h) kind b hu hp e =
    same 12 _ kind b _ e (id_string_lem Packet.readdir id h hp.0 hp.1)
make_packet-marshal_binary u (Packet.remove id h) kind b hu hp e =
    same 13 _ kind b _ e (id_string_lem Packet.remove id h hp.0 hp.1)
make_packet-marshal_binary u (Packet.mkdir id p) kind b hu hp e =
    same 14 _ kind b _ e (mkdir_lem id p u.flags hp.0 hp.1 hu.1)
make_packet-marshal_binary u (Packet.rmdir id h) kind b hu hp e =
    same 15 _ kind b _ e (id_string_lem Packet.rmdir id h hp.0 hp.1)
make_packet-marshal_binary u (Packet.realpath id h) kind b hu hp e =
    same 16 _ kind b _ e (id_string_lem Packet.realpath id h hp.0 hp.1)
make_packet-marshal_binary u (Packet.stat id h) kind b hu hp e =
    same 17 _ kind b _ e (id_string_lem Packet.stat id h hp.0 hp.1)
make_packet-marshal_binary u (Packet.readlink id h) kind b hu hp e =
    same 19 _ kind b _ e (id_string_lem Packet.readlink id h hp.0 hp.1)
make_packet-marshal_binary u (Packet.rename id p q) kind b hu hp e =
    same 18 _ kind b _ e (two_strings_lem Packet.rename id p q hp.0 hp.1 hp.2)
make_packet-marshal_binary u (Packet.symlink id p q) kind b hu hp e =
    same 20 _ kind b _ e (two_strings_lem Packet.symlink id p q hp.0 hp.1 hp.2)
make_packet-marshal_binary u (Packet.extended id (Extension.statvfs p)) kind b hu hp e =
    same 200 _ kind b _ e (statvfs_lem id p hp.0 hp.1)
make_packet-marshal_binary u (Packet.extended id (Extension.posix_rename p q)) kind b hu hp e =
    same 200 _ kind b _ e (posix_rename_lem id p q hp.0 hp.1 hp.2)
make_packet-marshal_binary u (Packet.extended id (Extension.hardlink p q)) kind b hu hp e =
    same 200 _ kind b _ e (hardlink_lem id p q hp.0 hp.1 hp.2)
make_packet-marshal_binary u (Packet.extended id Extension.unsupported) kind b hu hp e = cc
make_packet-marshal_binary u (Packet.foreign id) kind b hu hp e = cc
