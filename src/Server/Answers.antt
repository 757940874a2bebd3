-- ===== src/Server/Answers.antt =====
-- The `MarshalBinary` methods of the answers in src/pkgsftp/packet.go and src/pkgsftp/server.go,
-- and how the methods of the client in src/pkgsftp/client.go read them.
pub mod Listing
pub mod Understood
pub mod Exchange
pub mod Conversation
use azure_s_sftp.Base.{
  ℕ, zero, suc, List, [], ◌∷◌, ◌++◌, Option, none, some, Text, codes, length, take, ltb, eqb,
  if◌then◌else◌, Error,
}
use azure_s_sftp.Server.{Info, Statfs, NameAttr, Response}
use azure_s_sftp.Server.Wire.{
  marshal_uint32, marshal_uint64, marshal_string, Reader, reader, too_short, uint_field,
  string_field,
}
use azure_s_sftp.Server.Attrs.{FileStat, marshal_file_info, unmarshal_attrs}

-- `sftpProtocolVersion`
abbrev pub protocol_version : ℕ
protocol_version = 3

-- `supportedSFTPExtensions`
abbrev pub sftp_extensions : List (Text × Text)
sftp_extensions =
    (codes "hardlink@openssh.com", codes "1") ∷ (codes "posix-rename@openssh.com", codes "1") ∷ []

-- `emptyFileStat` is the number 0 of flags.
unfoldable pub marshal_entry_info : Option Info → List ℕ
marshal_entry_info none = marshal_uint32 0
marshal_entry_info (some fi) = marshal_file_info fi

-- `sshFxpNameAttr.MarshalBinary`
unfoldable pub marshal_name_attr : NameAttr → List ℕ
marshal_name_attr a =
    marshal_string a.name ++ (marshal_string a.long_name ++ marshal_entry_info a.info)

unfoldable pub marshal_name_attrs : List NameAttr → List ℕ
marshal_name_attrs [] = []
marshal_name_attrs (a ∷ attrs) = marshal_name_attr a ++ marshal_name_attrs attrs

unfoldable pub marshal_extensions : List (Text × Text) → List ℕ
marshal_extensions [] = []
marshal_extensions ((name, content) ∷ es) =
    marshal_string name ++ (marshal_string content ++ marshal_extensions es)

unfoldable pub marshal_words : List ℕ → List ℕ
marshal_words [] = []
marshal_words (v ∷ vs) = marshal_uint64 v ++ marshal_words vs

-- The fields of a `StatVFS` behind its identifier, as `statvfsFromStatfst` fills them in: the free
-- inodes for others are all free ones, and the identifier of the file system is left at 0.
unfoldable pub statvfs_fields : Statfs → List ℕ
statvfs_fields st =
    st.bsize ∷ st.frsize ∷ st.blocks ∷ st.bfree ∷ st.bavail ∷ st.files ∷ st.ffree ∷ st.ffree ∷ 0
    ∷ st.flags ∷ st.namelen ∷ []

-- The text of a status: `err.Error()`, or none where no error is told.
abbrev pub status_text : (Error → Text) → Option Error → Text
status_text error_text none = []
status_text error_text (some e) = error_text e

-- `MarshalBinary` of each answer; `marshalStatus` of src/pkgsftp/client.go writes a status.
unfoldable pub marshal_answer : (Error → Text) → Response → List ℕ
marshal_answer text Response.version =
    2 ∷ (marshal_uint32 protocol_version ++ marshal_extensions sftp_extensions)
marshal_answer text (Response.status id code e) =
    101
    ∷ (marshal_uint32 id
        ++ (marshal_uint32 code ++ (marshal_string (status_text text e) ++ marshal_string [])))
marshal_answer text (Response.handle id h) = 102 ∷ (marshal_uint32 id ++ marshal_string h)
marshal_answer text (Response.content id bs) =
    103 ∷ (marshal_uint32 id ++ (marshal_uint32 (length bs) ++ bs))
marshal_answer text (Response.name id attrs) =
    104 ∷ (marshal_uint32 id ++ (marshal_uint32 (length attrs) ++ marshal_name_attrs attrs))
marshal_answer text (Response.attrs id fi) = 105 ∷ (marshal_uint32 id ++ marshal_file_info fi)
marshal_answer text (Response.file_system id st) =
    201 ∷ (marshal_uint32 id ++ marshal_words (statvfs_fields st))

-- What a client takes an answer for. Of an entry of a directory it keeps no long name.
pub data Answer : Type 0 where
  version : ℕ → Answer
  status : ℕ → ℕ → Text → Text → Answer
  handle : ℕ → Text → Answer
  content : ℕ → List ℕ → Answer
  names : ℕ → List (Text × FileStat) → Answer
  attrs : ℕ → FileStat → Answer
  file_system : ℕ → List ℕ → Answer

-- An entry of a list of names: the loop of `ReadDir`.
unfoldable pub entry_field : Reader → (Text × FileStat) × Reader
entry_field r =
    let (name, r1) = string_field r in
    let (long_name, r2) = string_field r1 in let (st, r3) = unmarshal_attrs r2 in ((name, st), r3)

unfoldable pub entry_fields : ℕ → Reader → List (Text × FileStat) × Reader
entry_fields zero r = ([], r)
entry_fields (suc count) r =
    let (e, r1) = entry_field r in let (es, r2) = entry_fields count r1 in (e ∷ es, r2)

unfoldable pub word_fields : ℕ → Reader → List ℕ × Reader
word_fields zero r = ([], r)
word_fields (suc count) r =
    let (v, r1) = uint_field 8 r in let (vs, r2) = word_fields count r1 in (v ∷ vs, r2)

-- `none` is a run-time panic, or the error of a packet that is too short.
abbrev pub complete : Answer × Reader → Option Answer
complete (a, r) = if r.short then none else some a

-- `unmarshalStatus`: that a text is missing is not an error.
unfoldable pub read_status : ℕ → Reader → Option Answer
read_status id r =
    let (code, r1) = uint_field 4 r in
    let (msg, r2) = string_field r1 in
    let (lang, r3) = string_field r2 in complete (Answer.status id code msg lang, r1)

unfoldable pub read_handle : ℕ → Reader → Option Answer
read_handle id r = let (h, r1) = string_field r in complete (Answer.handle id h, r1)

-- `sshFxpDataPacket.UnmarshalBinary`, behind the identifier.
unfoldable pub read_content : ℕ → Reader → Option Answer
read_content id r =
    let (n, r1) = uint_field 4 r in
    complete (Answer.content id (take n r1.rest), if ltb (length r1.rest) n then too_short else r1)

unfoldable pub counted_entries : ℕ × Reader → List (Text × FileStat) × Reader
counted_entries (count, r) = entry_fields count r

unfoldable pub read_names : ℕ → Reader → Option Answer
read_names id r =
    let (es, r1) = counted_entries (uint_field 4 r) in complete (Answer.names id es, r1)

unfoldable pub read_attrs : ℕ → Reader → Option Answer
read_attrs id r = let (st, r1) = unmarshal_attrs r in complete (Answer.attrs id st, r1)

unfoldable pub read_file_system : ℕ → Reader → Option Answer
read_file_system id r = let (vs, r1) = word_fields 11 r in complete (Answer.file_system id vs, r1)

-- The answer by the type of its packet, its identifier read.
unfoldable pub read_answer : ℕ → ℕ × Reader → Option Answer
read_answer kind (id, r) =
    if eqb kind 2
    then complete (Answer.version id, r)
    else if eqb kind 101
    then read_status id r
    else if eqb kind 102
    then read_handle id r
    else if eqb kind 103
    then read_content id r
    else if eqb kind 104
    then read_names id r
    else if eqb kind 105
    then read_attrs id r
    else if eqb kind 201
    then read_file_system id r
    else none

-- Every answer starts with four bytes: the identifier of its request, or the version.
unfoldable pub unmarshal_answer : ℕ → List ℕ → Option Answer
unmarshal_answer kind b = read_answer kind (uint_field 4 (reader b))
