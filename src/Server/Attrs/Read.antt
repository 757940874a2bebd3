-- ===== src/Server/Attrs/Read.antt =====
-- The attributes of a file are read as they were written.
use azure_s_sftp.Base.{
  ℕ, ◌%◌, ◌<◌, ◌≡◌, refl, List, [], ◌++◌, append_assoc, Option, none, some, inl, inr, Option-cases,
  arith,
}
use azure_s_sftp.Server.{Info, Stat}
use azure_s_sftp.Server.Wire.{marshal_uint32, marshal_uint64, reader}
use azure_s_sftp.Server.Wire.Fits.{IsWord}
use azure_s_sftp.Server.Wire.Fields.{uint_field-marshal_uint32, uint_field-marshal_uint64}
use azure_s_sftp.Server.Attrs.{
  FileStat, empty_stat, from_file_mode, file_stat_from_info, marshal_stat, marshal_file_info,
  get_file_stat, unmarshal_attrs,
}
use azure_s_sftp.Server.Attrs.Modes.{from_file_mode-lt}

-- The values of the attributes that are always told fit into their fields.
abbrev StatFits : FileStat → Type 0
StatFits st = (st.size < 18446744073709551616) × IsWord st.mode × IsWord st.atime × IsWord st.mtime

module _ (st : FileStat) (rest : List ℕ) (fits : StatFits st) where
  abbrev times_bytes : List ℕ
  times_bytes = marshal_uint32 st.atime ++ (marshal_uint32 st.mtime ++ rest)

  abbrev mode_bytes : List ℕ
  mode_bytes = marshal_uint32 st.mode ++ times_bytes

  layout :
      marshal_stat (13, st) ++ rest ≡ marshal_uint32 13 ++ (marshal_uint64 st.size ++ mode_bytes)
  unfolding marshal_stat
  layout = simp append_assoc refl

  read_without_owner :
      get_file_stat 13 (reader (marshal_uint64 st.size ++ mode_bytes))
      ≡ (record st { uid = 0; gid = 0; extended = [] }, reader rest)
  unfolding get_file_stat
  read_without_owner =
      rw
        (
          uint_field-marshal_uint64 st.size mode_bytes fits.0,
          uint_field-marshal_uint32 st.mode times_bytes fits.1,
          uint_field-marshal_uint32 st.atime (marshal_uint32 st.mtime ++ rest) fits.2,
          uint_field-marshal_uint32 st.mtime rest fits.3,
        )
        refl

  without_owner :
      unmarshal_attrs (reader (marshal_stat (13, st) ++ rest))
      ≡ (record st { uid = 0; gid = 0; extended = [] }, reader rest)
  unfolding unmarshal_attrs
  without_owner =
      rw (layout, uint_field-marshal_uint32 13 (marshal_uint64 st.size ++ mode_bytes) (omega arith))
        read_without_owner

  module _ (owner : IsWord st.uid × IsWord st.gid) where
    abbrev owner_bytes : List ℕ
    owner_bytes = marshal_uint32 st.uid ++ (marshal_uint32 st.gid ++ mode_bytes)

    layout_with_owner :
        marshal_stat (15, st) ++ rest ≡ marshal_uint32 15 ++ (marshal_uint64 st.size ++ owner_bytes)
    unfolding marshal_stat
    layout_with_owner = simp append_assoc refl

    read_with_owner :
        get_file_stat 15 (reader (marshal_uint64 st.size ++ owner_bytes))
        ≡ (record st { extended = [] }, reader rest)
    unfolding get_file_stat
    read_with_owner =
        rw
          (
            uint_field-marshal_uint64 st.size owner_bytes fits.0,
            uint_field-marshal_uint32 st.uid (marshal_uint32 st.gid ++ mode_bytes) owner.0,
            uint_field-marshal_uint32 st.gid mode_bytes owner.1,
            uint_field-marshal_uint32 st.mode times_bytes fits.1,
            uint_field-marshal_uint32 st.atime (marshal_uint32 st.mtime ++ rest) fits.2,
            uint_field-marshal_uint32 st.mtime rest fits.3,
          )
          refl

    with_owner :
        unmarshal_attrs (reader (marshal_stat (15, st) ++ rest))
        ≡ (record st { extended = [] }, reader rest)
    unfolding unmarshal_attrs
    with_owner =
        rw
          (
            layout_with_owner,
            uint_field-marshal_uint32 15 (marshal_uint64 st.size ++ owner_bytes) (omega arith),
          )
          read_with_owner

abbrev OwnerFits : Option Stat → Type 0
OwnerFits none = Unit
OwnerFits (some st) = IsWord st.uid × IsWord st.gid

-- What the fields on the wire hold of a file's information.
abbrev pub InfoFits : Info → Type 0
InfoFits fi = (fi.size < 18446744073709551616) × (fi.mode.perm < 512) × OwnerFits fi.sys

-- What is told of every file.
abbrev told : Info → FileStat
told fi = record empty_stat {
  size = fi.size;
  mode = from_file_mode fi.mode;
  mtime = fi.mtime % 4294967296;
  atime = fi.mtime % 4294967296;
}

told-StatFits :
    (fi : Info) → fi.size < 18446744073709551616 → fi.mode.perm < 512 → StatFits (told fi)
told-StatFits fi size perm =
    let b = from_file_mode-lt fi.mode perm in (size, omega arith, omega arith, omega arith)

told_without_owner : (fi : Info) → fi.sys ≡ none → file_stat_from_info fi ≡ (13, told fi)
unfolding file_stat_from_info
told_without_owner fi h = rw (h, file_stat_from_info)

told_with_owner :
    (fi : Info) (st : Stat)
    → fi.sys ≡ some st
    → file_stat_from_info fi ≡ (15, record (told fi) { uid = st.uid; gid = st.gid })
unfolding file_stat_from_info
told_with_owner fi st h = rw (h, file_stat_from_info)

marshal_file_info_lem : (fi : Info) → marshal_file_info fi ≡ marshal_stat (file_stat_from_info fi)
unfolding marshal_file_info
marshal_file_info_lem fi = refl

-- The attributes of a file that the server sends are read by a client as they were, whatever
-- follows them, and nothing of what follows is taken. For sizes and owners that their fields hold,
-- and permissions below 512.
pub unmarshal_attrs-marshal_file_info :
    (fi : Info) (rest : List ℕ)
    → InfoFits fi
    → unmarshal_attrs (reader (marshal_file_info fi ++ rest))
      ≡ ((file_stat_from_info fi).1, reader rest)
unmarshal_attrs-marshal_file_info fi rest (size, perm, owner) =
    let fits = told-StatFits fi size perm in
    elim (Option-cases fi.sys) [
      | inl h ↦
          rw (marshal_file_info_lem fi, told_without_owner fi h) (without_owner (told fi) rest fits)
      | inr (st, h) ↦
          rw (marshal_file_info_lem fi, told_with_owner fi st h)
            (with_owner (record (told fi) { uid = st.uid; gid = st.gid }) rest fits (rw h at owner))
    ]
