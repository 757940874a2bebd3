-- ===== src/Server/Answers/Understood.antt =====
-- What a client makes of an answer.
use azure_s_sftp.Base.{
  ℕ, ◌≡◌, refl, ap, ◌∙◌, List, [], ◌∷◌, ◌++◌, append-nil, map, Option, none, some, Text, length,
  take-append, Error, All, arith,
}
use azure_s_sftp.Server.{Info, Statfs, NameAttr, Response}
use azure_s_sftp.Server.Wire.{marshal_uint32, marshal_string, reader}
use azure_s_sftp.Server.Wire.Fits.{IsWord, IsString}
use azure_s_sftp.Server.Wire.Fields.{uint_field-marshal_uint32, string_field-marshal_string}
use azure_s_sftp.Server.Attrs.{file_stat_from_info, marshal_file_info}
use azure_s_sftp.Server.Attrs.Read.{InfoFits, unmarshal_attrs-marshal_file_info}
use azure_s_sftp.Server.Answers.{
  protocol_version, sftp_extensions, marshal_extensions, marshal_name_attrs, marshal_words,
  word_fields, statvfs_fields, status_text, marshal_answer, Answer, read_status, read_handle,
  read_content, counted_entries, read_names, read_attrs, read_file_system, read_answer,
  unmarshal_answer,
}
use azure_s_sftp.Server.Answers.Listing.{
  stat_of, NameAttrFits, entry_fields-marshal_name_attrs, IsLong, word_fields-marshal_words,
}

-- The answer as its packet tells it.
unfoldable pub told_answer : (Error → Text) → Response → Answer
told_answer text Response.version = Answer.version protocol_version
told_answer text (Response.status id code e) = Answer.status id code (status_text text e) []
told_answer text (Response.handle id h) = Answer.handle id h
told_answer text (Response.content id bs) = Answer.content id bs
told_answer text (Response.name id attrs) =
    Answer.names id (map (λ a. (a.name, stat_of a.info)) attrs)
told_answer text (Response.attrs id fi) = Answer.attrs id (file_stat_from_info fi).1
told_answer text (Response.file_system id st) = Answer.file_system id (statvfs_fields st)

-- The numbers and lengths of an answer that its fields on the wire can hold.
unfoldable pub AnswerFits : (Error → Text) → Response → Type 0
AnswerFits text Response.version = Unit
AnswerFits text (Response.status id code e) =
    IsWord id × IsWord code × IsString (status_text text e)
AnswerFits text (Response.handle id h) = IsWord id × IsString h
AnswerFits text (Response.content id bs) = IsWord id × IsString bs
AnswerFits text (Response.name id attrs) =
    IsWord id × IsWord (length attrs) × All NameAttrFits attrs
AnswerFits text (Response.attrs id fi) = IsWord id × InfoFits fi
AnswerFits text (Response.file_system id st) = IsWord id × All IsLong (statvfs_fields st)

-- A packet is read by its first byte.
unfoldable pub read_packet : List ℕ → Option Answer
read_packet [] = none
read_packet (kind ∷ b) = unmarshal_answer kind b

with_id :
    (kind id : ℕ) (b : List ℕ)
    → IsWord id
    → unmarshal_answer kind (marshal_uint32 id ++ b) ≡ read_answer kind (id, reader b)
unfolding unmarshal_answer
with_id kind id b h = ap (read_answer kind) (uint_field-marshal_uint32 id b h)

read_status_lem :
    (id code : ℕ) (msg lang : Text)
    → IsWord code
    → IsString msg
    → IsString lang
    → read_status id (reader (marshal_uint32 code ++ (marshal_string msg ++ marshal_string lang)))
      ≡ some (Answer.status id code msg lang)
unfolding read_status
read_status_lem id code msg lang hc hm hl =
    rw
      (
        uint_field-marshal_uint32 code (marshal_string msg ++ marshal_string lang) hc,
        string_field-marshal_string msg (marshal_string lang) hm,
        rw append-nil at (string_field-marshal_string lang [] hl),
      )
      refl

read_handle_lem :
    (id : ℕ) (h : Text)
    → IsString h
    → read_handle id (reader (marshal_string h)) ≡ some (Answer.handle id h)
unfolding read_handle
read_handle_lem id h fits = rw (rw append-nil at (string_field-marshal_string h [] fits)) refl

read_content_lem :
    (id : ℕ) (bs : List ℕ)
    → IsString bs
    → read_content id (reader (marshal_uint32 (length bs) ++ bs)) ≡ some (Answer.content id bs)
unfolding read_content
read_content_lem id bs fits =
    rw (uint_field-marshal_uint32 (length bs) bs fits)
      (ground (arith, rw append-nil at (take-append bs [])))

read_names_lem :
    (id : ℕ) (attrs : List NameAttr)
    → IsWord (length attrs)
    → All NameAttrFits attrs
    → read_names id (reader (marshal_uint32 (length attrs) ++ marshal_name_attrs attrs))
      ≡ some (Answer.names id (map (λ a. (a.name, stat_of a.info)) attrs))
unfolding read_names counted_entries
read_names_lem id attrs n h =
    rw
      (
        uint_field-marshal_uint32 (length attrs) (marshal_name_attrs attrs) n,
        rw append-nil at (entry_fields-marshal_name_attrs attrs [] h),
      )
      refl

read_attrs_lem :
    (id : ℕ) (fi : Info)
    → InfoFits fi
    → read_attrs id (reader (marshal_file_info fi))
      ≡ some (Answer.attrs id (file_stat_from_info fi).1)
unfolding read_attrs
read_attrs_lem id fi h = rw (rw append-nil at (unmarshal_attrs-marshal_file_info fi [] h)) refl

words_of_file_system :
    (st : Statfs)
    → All IsLong (statvfs_fields st)
    → word_fields 11 (reader (marshal_words (statvfs_fields st))) ≡ (statvfs_fields st, reader [])
unfolding statvfs_fields
words_of_file_system st h = rw append-nil at (word_fields-marshal_words (statvfs_fields st) [] h)

read_file_system_lem :
    (id : ℕ) (st : Statfs)
    → All IsLong (statvfs_fields st)
    → read_file_system id (reader (marshal_words (statvfs_fields st)))
      ≡ some (Answer.file_system id (statvfs_fields st))
unfolding read_file_system
read_file_system_lem id st h = rw (words_of_file_system st h) refl

pub unmarshal_answer-marshal_answer :
    (text : Error → Text) (r : Response)
    → AnswerFits text r
    → read_packet (marshal_answer text r) ≡ some (told_answer text r)
unfolding read_packet marshal_answer told_answer AnswerFits read_answer
unmarshal_answer-marshal_answer text Response.version h =
    with_id 2 protocol_version (marshal_extensions sftp_extensions) (omega arith)
unmarshal_answer-marshal_answer text (Response.status id code e) (i, c, m) =
    with_id 101 id _ i ∙ read_status_lem id code (status_text text e) [] c m (omega arith)
unmarshal_answer-marshal_answer text (Response.handle id h) (i, fits) =
    with_id 102 id _ i ∙ read_handle_lem id h fits
unmarshal_answer-marshal_answer text (Response.content id bs) (i, fits) =
    with_id 103 id _ i ∙ read_content_lem id bs fits
unmarshal_answer-marshal_answer text (Response.name id attrs) (i, n, fits) =
    with_id 104 id _ i ∙ read_names_lem id attrs n fits
unmarshal_answer-marshal_answer text (Response.attrs id fi) (i, fits) =
    with_id 105 id _ i ∙ read_attrs_lem id fi fits
unmarshal_answer-marshal_answer text (Response.file_system id st) (i, fits) =
    with_id 201 id _ i ∙ read_file_system_lem id st fits
