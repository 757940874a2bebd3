-- ===== src/Server/Attrs.antt =====
-- src/pkgsftp/attrs.go: the attributes of a file on the wire, and its mode in the terms of the
-- protocol. With cgo on Linux, `fileStatFromInfoOs` is that of src/pkgsftp/attrs_unix.go.
pub mod Modes
pub mod Read
use Prim.Native.Nat.{bit_and}
use azure_s_sftp.Base.{
  ℕ, zero, suc, ◌+◌, ◌*◌, ◌/◌, ◌%◌, Bool, true, false, ◌&&◌, ◌||◌, not, List, [], ◌∷◌, ◌++◌, Option,
  none, some, Text, eqb, if◌then◌else◌,
}
use azure_s_sftp.Server.{FileMode, Stat, Info}
use azure_s_sftp.Server.Wire.{
  marshal_uint32, marshal_uint64, Reader, reader, uint_field, string_field,
}

-- What the wire tells of a file: `FileStat`.
pub record FileStat : Type 0 where
  pub size : ℕ
  pub mode : ℕ
  pub mtime : ℕ
  pub atime : ℕ
  pub uid : ℕ
  pub gid : ℕ
  pub extended : List (Text × Text)

abbrev pub empty_stat : FileStat
empty_stat = record { size = 0; mode = 0; mtime = 0; atime = 0; uid = 0; gid = 0; extended = [] }

abbrev pub bit_of : Bool → ℕ
bit_of b = if b then 1 else 0

-- No bit of `os.ModeType` is set.
abbrev pub is_regular : FileMode → Bool
is_regular m =
    not (m.dir || m.symlink || m.named_pipe || m.socket || m.device || m.char_device || m.irregular)

-- The four bits of the file's type: those of `S_IFREG` 1000, `S_IFSOCK` 1100, `S_IFLNK` 1010,
-- `S_IFBLK` 0110, `S_IFDIR` 0100, `S_IFCHR` 0010 and `S_IFIFO` 0001, put together as `|=` does.
unfoldable pub type_bits : FileMode → ℕ
type_bits m =
    8 * bit_of (m.symlink || m.socket || is_regular m)
    + 4 * bit_of (m.device && not m.char_device || m.dir || m.socket)
    + 2 * bit_of (m.device || m.symlink)
    + bit_of m.named_pipe

-- `fromFileMode`: the type, the three bits of execution and the permissions stand side by side.
unfoldable pub from_file_mode : FileMode → ℕ
unfolding type_bits
from_file_mode m =
    type_bits m * 4096
    + bit_of m.setuid * 2048
    + bit_of m.setgid * 1024
    + bit_of m.sticky * 512
    + m.perm

-- The mode with the type of these four bits; an unknown type sets nothing.
unfoldable pub mode_of : ℕ → Bool → Bool → Bool → ℕ → FileMode
mode_of t setuid setgid sticky perm = record {
  perm = perm;
  dir = eqb t 4;
  symlink = eqb t 10;
  device = eqb t 6 || eqb t 2;
  char_device = eqb t 2;
  named_pipe = eqb t 1;
  socket = eqb t 12;
  irregular = false;
  setuid = setuid;
  setgid = setgid;
  sticky = sticky;
}

abbrev pub is_set : ℕ → Bool
is_set n = eqb n 1

-- `toFileMode`
unfoldable pub to_file_mode : ℕ → FileMode
unfolding mode_of
to_file_mode n =
    mode_of (n / 4096 % 16) (is_set (n / 2048 % 2)) (is_set (n / 1024 % 2)) (is_set (n / 512 % 2))
      (n % 512)

-- `fileStatFromInfo`: the attributes that are told, as flags, and their values.
unfoldable pub file_stat_from_info : Info → ℕ × FileStat
unfolding from_file_mode
file_stat_from_info fi =
    let stat = record empty_stat {
      size = fi.size;
      mode = from_file_mode fi.mode;
      mtime = fi.mtime % 4294967296;
      atime = fi.mtime % 4294967296;
    } in
    elim fi.sys [ none ↦ (13, stat) | some st ↦ (15, record stat { uid = st.uid; gid = st.gid }) ]

abbrev pub part : ℕ → ℕ → List ℕ → List ℕ
part flags bit bytes = if eqb (bit_and flags bit) 0 then [] else bytes

unfoldable pub marshal_stat : ℕ × FileStat → List ℕ
unfolding marshal_uint32 marshal_uint64
marshal_stat (flags, st) =
    marshal_uint32 flags
    ++ (part flags 1 (marshal_uint64 st.size)
        ++ (part flags 2 (marshal_uint32 st.uid ++ marshal_uint32 st.gid)
            ++ (part flags 4 (marshal_uint32 st.mode)
                ++ part flags 8 (marshal_uint32 st.atime ++ marshal_uint32 st.mtime))))

-- `marshalFileInfo`: what it appends.
unfoldable pub marshal_file_info : Info → List ℕ
unfolding file_stat_from_info marshal_stat
marshal_file_info fi = marshal_stat (file_stat_from_info fi)

-- An attribute is read if all bits of its flag are set. That bytes are missing is not an error:
-- the values that follow are zero.
abbrev pub flag_field : ℕ → ℕ → ℕ → Reader → ℕ × Reader
flag_field flags bit width r = if eqb (bit_and flags bit) bit then uint_field width r else (0, r)

unfoldable pub extended_fields : ℕ → Reader → List (Text × Text) × Reader
unfolding string_field
extended_fields zero r = ([], r)
extended_fields (suc count) r =
    let (kind, r1) = string_field r in
    let (content, r2) = string_field r1 in
    let (ext, r3) = extended_fields count r2 in ((kind, content) ∷ ext, r3)

unfoldable pub counted_fields : ℕ × Reader → List (Text × Text) × Reader
unfolding extended_fields
counted_fields (count, r) = extended_fields count r

-- `getFileStat`
unfoldable pub get_file_stat : ℕ → Reader → FileStat × Reader
unfolding uint_field counted_fields
get_file_stat flags r0 =
    let (size, r1) = flag_field flags 1 8 r0 in
    let (uid, r2) = flag_field flags 2 4 r1 in
    let (gid, r3) = flag_field flags 2 4 r2 in
    let (mode, r4) = flag_field flags 4 4 r3 in
    let (atime, r5) = flag_field flags 8 4 r4 in
    let (mtime, r6) = flag_field flags 8 4 r5 in
    let (extended, r7) =
      if eqb (bit_and flags 2147483648) 2147483648
      then counted_fields (uint_field 4 r6)
      else ([], r6) in
    (
      record {
        size = size;
        mode = mode;
        mtime = mtime;
        atime = atime;
        uid = uid;
        gid = gid;
        extended = extended;
      },
      reader r7.rest,
    )

-- `unmarshalAttrs`: without the four bytes of the flags it panics, which the reader tells.
unfoldable pub unmarshal_attrs : Reader → FileStat × Reader
unfolding uint_field get_file_stat
unmarshal_attrs r =
    let (flags, r1) = uint_field 4 r in
    if r1.short then (empty_stat, r1) else get_file_stat flags r1
