-- ===== src/Tests/Sessions.antt =====
-- Sessions of src/pkgsftp/server.go at concrete data.
use azure_s_sftp.Base.{
  List, Distinct, if◌then◌else◌, ◌⊎◌, ◌≡◌, refl, false, [], ◌∷◌, none, some, codes, ◌==◌, All,
  arith, Error, ok, err,
}
use azure_s_sftp.FilePath.{clean, join, join_slash, is_abs}
use azure_s_sftp.Server.Status.{status_from_error}
use azure_s_sftp.FilePath.Segments.{IsName}
use azure_s_sftp.User.{User, no_user}
use azure_s_sftp.Tests.Hosts.{a_file, a_date}
use azure_s_sftp.Server.{
  Server, File, Call, Host, Packet, Response, get_user_jail_path, chroot_of, next_handle,
  get_handle, close_handle, new_server,
}
use azure_s_sftp.Server.Packets.{handle_packet, open_mode, serve_packet, open_respond}
use azure_s_sftp.Server.Jail.{IsJailed}
use azure_s_sftp.Server.Serving.{worker}
use azure_s_sftp.Server.Requests.{Makes, held, calls_after, requests_climb}
use azure_s_sftp.Server.Escape.{climbing}
use azure_s_sftp.Server.Handles.{IsNumbered, next_handle_fresh, close_handle_lem}
use azure_s_sftp.Server.Serving.{handles_given, serve}
use azure_s_sftp.Server.Fresh.{serve-Distinct}

abbrev alice : User
alice = record no_user { jail_directory = codes "alice" }

abbrev session : Server
session = record {
  read_only = false;
  open_files = [];
  handle_count = 0;
  user = alice;
  jail_path = codes "/mnt/staging";
  calls = [];
}

session-IsJailed : IsJailed session (codes "mnt") (codes "staging" ∷ [])
unfolding join_slash ◌==◌
session-IsJailed = ground arith

bob_IsName : All IsName (codes "bob" ∷ codes "report.txt" ∷ [])
unfolding ◌==◌
bob_IsName = ground arith

-- The same request, run.
climbs_run :
    get_user_jail_path session (codes "../bob/report.txt") ≡ codes "/mnt/staging/bob/report.txt"
unfolding get_user_jail_path chroot_of clean join is_abs
climbs_run = refl

-- An operating system on which every call succeeds.
abbrev host : Host
host = record {
  info = λ before c. ok (a_file);
  act = λ before c. none;
  text = λ before c. ok (codes "/target");
  file = λ before c. ok (record { name = codes "/mnt/staging/alice/a"; fd = 5 });
  bytes = λ before c. (1 ∷ 2 ∷ [], some Error.eof);
  names = λ before c. ok (a_file ∷ []);
  file_system = λ before c. err (Error.errno 38);
  date = λ before t. a_date;
  working_directory = ok (codes "/");
}

abbrev upload : File
upload = record { name = codes "/mnt/staging/alice/a"; fd = 5 }

next_handle_fresh_example :
    let (svr', h) = next_handle session upload in
    (get_handle session h ≡ none)
    × (get_handle svr' (codes "1")
        ≡ (if h == codes "1" then some upload else get_handle session (codes "1")))
    × IsNumbered svr'
next_handle_fresh_example = next_handle_fresh session upload (codes "1") tt

abbrev opened_session : Server
opened_session = (next_handle session upload).0

close_handle_lem_example :
    let (svr', e) = close_handle (λ f. none) opened_session (codes "1") in
    (get_handle svr' (codes "2")
      ≡ (if codes "1" == codes "2" then none else get_handle opened_session (codes "2")))
    × IsNumbered svr'
    × (((f : File) × (get_handle opened_session (codes "1") ≡ some f) × (e ≡ none))
        ⊎ ((get_handle opened_session (codes "1") ≡ none)
            × (svr' ≡ opened_session)
            × (e ≡ some (Error.errno 9))))
close_handle_lem_example =
    close_handle_lem (λ f. none) opened_session (codes "1") (codes "2") next_handle_fresh_example.2

-- A read of a file whose handle is open, and the handles that are given.
handles_run :
    (handle_packet host session (Packet.read 3 (codes "1") 0 100)
      ≡ some (session, Response.status 3 4 (some (Error.errno 9))))
    × ((next_handle session upload).1 ≡ codes "1")
    × (calls_after (handle_packet host opened_session (Packet.read 3 (codes "1") 0 99999))
        ≡ some (Call.read_at upload 0 32768 ∷ []))
unfolding handle_packet get_handle next_handle status_from_error
handles_run = (refl, refl, refl)

-- A file is opened, closed and opened again.
abbrev again : List Packet
again =
    Packet.open_path 1 (codes "/a") 1
    ∷ Packet.close 2 (codes "1")
    ∷ Packet.open_path 3 (codes "/a") 1
    ∷ []

serve-Distinct_example : Distinct (handles_given (serve host (λ p. 0) session again).1)
serve-Distinct_example = serve-Distinct host (λ p. 0) session again

again_runs : handles_given (serve host (λ p. 0) session again).1 ≡ codes "1" ∷ codes "2" ∷ []
unfolding serve handles_given serve_packet handle_packet open_respond open_mode next_handle
    status_from_error close_handle
again_runs = refl

abbrev asked_before : List Packet
asked_before = Packet.open_path 1 (codes "/a") 1 ∷ Packet.realpath 2 (codes ".") ∷ []

abbrev later : Server
later = (worker host (λ p. 0) (new_server alice (codes "/mnt/staging")) asked_before).0

alice-IsJailed :
    IsJailed (new_server alice (codes "/mnt/staging")) (codes "mnt") (codes "staging" ∷ [])
unfolding new_server
alice-IsJailed = session-IsJailed

requests_climb_example : All (Makes host (λ p. 0) later) (
    held host
      (λ p. 0)
      3
      (climbing (codes "bob") (codes "report.txt" ∷ []))
      (codes "/mnt/staging/bob/report.txt"))
unfolding ◌==◌ new_server join_slash
requests_climb_example =
    requests_climb host (λ p. 0) alice (codes "mnt") (codes "staging" ∷ []) alice-IsJailed
      asked_before refl 3 (codes "bob") (codes "report.txt" ∷ []) bob_IsName
