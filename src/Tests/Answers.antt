-- ===== src/Tests/Answers.antt =====
-- Answers on the wire at concrete data.
use azure_s_sftp.Base.{◌≡◌, refl, true, false, List, [], ◌∷◌, ◌++◌, some, Text, codes, arith, Error}
use azure_s_sftp.Server.{Packet, Response, itoa}
use azure_s_sftp.Server.LongName.{run_ls, type_char, run_ls_type_word, year_or_time}
use azure_s_sftp.Server.Wire.{reader, marshal_uint32, marshal_string}
use azure_s_sftp.Server.Wire.Fits.{Fits}
use azure_s_sftp.Server.Attrs.{
  from_file_mode, to_file_mode, file_stat_from_info, marshal_file_info, unmarshal_attrs,
}
use azure_s_sftp.Server.Attrs.Modes.{Kind, plain_mode, to_file_mode-from_file_mode}
use azure_s_sftp.Server.Attrs.Read.{unmarshal_attrs-marshal_file_info}
use azure_s_sftp.Server.Answers.{marshal_answer}
use azure_s_sftp.Tests.Hosts.{plain, a_file, a_date}

-- The line of a listing, and the mode 0100644.
listed :
    (run_ls (λ t. a_date) (codes "/x") a_file
      ≡ codes "-rw-r--r--    1 1000     100             3 Sep 13 12:26 a")
    × (from_file_mode plain ≡ 33188)
unfolding run_ls run_ls_type_word type_char year_or_time itoa from_file_mode
listed = (refl, refl)

to_file_mode-from_file_mode_example :
    to_file_mode (from_file_mode (plain_mode Kind.directory false true false 493))
    ≡ plain_mode Kind.directory false true false 493
to_file_mode-from_file_mode_example =
    to_file_mode-from_file_mode Kind.directory false true false 493 (omega arith)

unmarshal_attrs-marshal_file_info_example :
    unmarshal_attrs (reader (marshal_file_info a_file ++ (7 ∷ [])))
    ≡ ((file_stat_from_info a_file).1, reader (7 ∷ []))
unmarshal_attrs-marshal_file_info_example =
    unmarshal_attrs-marshal_file_info a_file (7 ∷ [])
      (omega arith, omega arith, (omega arith, omega arith))

abbrev text : Error → Text
text e = codes "failure"

abbrev failure : Response
failure = Response.status 8 4 (some (Error.errno 9))

failure_bytes :
    marshal_answer text failure
    ≡ 101
      ∷ 0
      ∷ 0
      ∷ 0
      ∷ 8
      ∷ 0
      ∷ 0
      ∷ 0
      ∷ 4
      ∷ 0
      ∷ 0
      ∷ 0
      ∷ 7
      ∷ (codes "failure" ++ (0 ∷ 0 ∷ 0 ∷ 0 ∷ []))
unfolding marshal_answer marshal_uint32 marshal_string
failure_bytes = refl

-- The information of a file, and a read of a handle that was not given.
abbrev requests : List Packet
requests = Packet.stat 7 (codes "/a") ∷ Packet.read 8 (codes "1") 0 5 ∷ []
