-- ===== src/Server/Wire/Fits.antt =====
-- The numbers and lengths of a request that its fields on the wire can hold.
use azure_s_sftp.Base.{ℕ, ◌<◌, Text, length, All}
use azure_s_sftp.Server.{Packet, Extension}
use azure_s_sftp.Server.Wire.Encode.{Unused}

abbrev pub IsWord : ℕ → Type 0
IsWord n = n < 4294967296

abbrev pub IsString : Text → Type 0
IsString s = IsWord (length s)

-- Numbers and lengths that the fields of the packet hold.
unfoldable pub Fits : Packet → Type 0
Fits Packet.init = Unit
Fits (Packet.open_path id p pflags) = IsWord id × IsString p × IsWord pflags
Fits (Packet.read id h offset len) =
    IsWord id × IsString h × (offset < 18446744073709551616) × IsWord len
Fits (Packet.write id h offset bs) =
    IsWord id × IsString h × (offset < 18446744073709551616) × IsString bs
Fits (Packet.setstat id p flags b) = IsWord id × IsString p × IsWord flags
Fits (Packet.fsetstat id p flags b) = IsWord id × IsString p × IsWord flags
Fits (Packet.rename id p q) = IsWord id × IsString p × IsString q
Fits (Packet.symlink id p q) = IsWord id × IsString p × IsString q
Fits (Packet.close id p) = IsWord id × IsString p
Fits (Packet.lstat id p) = IsWord id × IsString p
Fits (Packet.fstat id p) = IsWord id × IsString p
Fits (Packet.opendir id p) = IsWord id × IsString p
Fits (Packet.readdir id p) = IsWord id × IsString p
Fits (Packet.remove id p) = IsWord id × IsString p
Fits (Packet.mkdir id p) = IsWord id × IsString p
Fits (Packet.rmdir id p) = IsWord id × IsString p
Fits (Packet.realpath id p) = IsWord id × IsString p
Fits (Packet.stat id p) = IsWord id × IsString p
Fits (Packet.readlink id p) = IsWord id × IsString p
Fits (Packet.extended id (Extension.statvfs p)) = IsWord id × IsString p
Fits (Packet.extended id (Extension.posix_rename p q)) = IsWord id × IsString p × IsString q
Fits (Packet.extended id (Extension.hardlink p q)) = IsWord id × IsString p × IsString q
Fits (Packet.extended id Extension.unsupported) = IsWord id
Fits (Packet.foreign id) = IsWord id

unfoldable pub UnusedFits : Unused → Type 0
UnusedFits u =
    IsWord u.version
    × IsWord u.flags
    × All (λ (pair : Text × Text). IsString pair.0 × IsString pair.1) u.pairs
