-- ===== src/Server/Answers/Listing.antt =====
-- Lists on the wire: the entries of a directory, and the words of a file system's state.
use azure_s_sftp.Base.{
  ℕ, ◌<◌, ◌≡◌, refl, List, [], ◌∷◌, ◌++◌, append_assoc, map, Option, none, some, length, All, arith,
}
use azure_s_sftp.Server.{Info, NameAttr}
use azure_s_sftp.Server.Wire.{marshal_uint32, marshal_uint64, marshal_string, reader}
use azure_s_sftp.Server.Wire.Fits.{IsString}
use azure_s_sftp.Server.Wire.Fields.{
  uint_field-marshal_uint32, uint_field-marshal_uint64, string_field-marshal_string,
}
use azure_s_sftp.Server.Attrs.{
  FileStat, empty_stat, file_stat_from_info, unmarshal_attrs, get_file_stat,
}
use azure_s_sftp.Server.Attrs.Read.{InfoFits, unmarshal_attrs-marshal_file_info}
use azure_s_sftp.Server.Answers.{
  marshal_entry_info, marshal_name_attr, marshal_name_attrs, marshal_words, entry_field,
  entry_fields, word_fields,
}

-- What a client learns of a file that is listed.
unfoldable pub stat_of : Option Info → FileStat
stat_of none = empty_stat
stat_of (some fi) = (file_stat_from_info fi).1

abbrev EntryInfoFits : Option Info → Type 0
EntryInfoFits none = Unit
EntryInfoFits (some fi) = InfoFits fi

abbrev pub NameAttrFits : NameAttr → Type 0
NameAttrFits a = IsString a.name × IsString a.long_name × EntryInfoFits a.info

no_attrs :
    (rest : List ℕ)
    → unmarshal_attrs (reader (marshal_uint32 0 ++ rest)) ≡ (empty_stat, reader rest)
unfolding unmarshal_attrs get_file_stat
no_attrs rest = rw (uint_field-marshal_uint32 0 rest (omega arith)) refl

unmarshal_attrs-marshal_entry_info :
    (i : Option Info) (rest : List ℕ)
    → EntryInfoFits i
    → unmarshal_attrs (reader (marshal_entry_info i ++ rest)) ≡ (stat_of i, reader rest)
unfolding marshal_entry_info stat_of
unmarshal_attrs-marshal_entry_info none rest h = no_attrs rest
unmarshal_attrs-marshal_entry_info (some fi) rest h = unmarshal_attrs-marshal_file_info fi rest h

name_attr_layout :
    (a : NameAttr) (rest : List ℕ)
    → marshal_name_attr a ++ rest
      ≡ marshal_string a.name ++ (marshal_string a.long_name ++ (marshal_entry_info a.info ++ rest))
unfolding marshal_name_attr
name_attr_layout a rest = simp append_assoc refl

entry_field-marshal_name_attr :
    (a : NameAttr) (rest : List ℕ)
    → NameAttrFits a
    → entry_field (reader (marshal_name_attr a ++ rest)) ≡ ((a.name, stat_of a.info), reader rest)
unfolding entry_field
entry_field-marshal_name_attr a rest (name, long_name, info) =
    let behind = marshal_entry_info a.info ++ rest in
    rw
      (
        name_attr_layout a rest,
        string_field-marshal_string a.name (marshal_string a.long_name ++ behind) name,
        string_field-marshal_string a.long_name behind long_name,
        unmarshal_attrs-marshal_entry_info a.info rest info,
      )
      refl

pub entry_fields-marshal_name_attrs :
    (attrs : List NameAttr) (rest : List ℕ)
    → All NameAttrFits attrs
    → entry_fields (length attrs) (reader (marshal_name_attrs attrs ++ rest))
      ≡ (map (λ a. (a.name, stat_of a.info)) attrs, reader rest)
unfolding entry_fields marshal_name_attrs
entry_fields-marshal_name_attrs [] rest h = refl
entry_fields-marshal_name_attrs (a ∷ attrs) rest (ha, hs) =
    rw
      (
        append_assoc (marshal_name_attr a) (marshal_name_attrs attrs) rest,
        entry_field-marshal_name_attr a (marshal_name_attrs attrs ++ rest) ha,
        entry_fields-marshal_name_attrs attrs rest hs,
      )
      refl

abbrev pub IsLong : ℕ → Type 0
IsLong v = v < 18446744073709551616

pub word_fields-marshal_words :
    (vs : List ℕ) (rest : List ℕ)
    → All IsLong vs
    → word_fields (length vs) (reader (marshal_words vs ++ rest)) ≡ (vs, reader rest)
unfolding word_fields marshal_words
word_fields-marshal_words [] rest h = refl
word_fields-marshal_words (v ∷ vs) rest (hv, hs) =
    rw
      (
        append_assoc (marshal_uint64 v) (marshal_words vs) rest,
        uint_field-marshal_uint64 v (marshal_words vs ++ rest) hv,
        word_fields-marshal_words vs rest hs,
      )
      refl
