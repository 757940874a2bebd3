-- ===== src/Lib.antt =====
-- sSFTP: an SFTP server for Azure that holds what users upload in a staging directory, has every
-- file scanned for viruses, and moves it to a clean or a quarantine directory.
--
-- How the program's parts work together: `ConfigService` loads and validates ssftp.yaml. The SFTP
-- service accepts logins, which `UserGov` checks against the accounts of the configuration, and
-- starts for each channel a `Server` of the SFTP protocol, which works for one user below the
-- staging or the clean directory. The file watcher walks through the staging directory in rounds,
-- leaves out what is still being uploaded or downloaded, and hands the other files one by one to
-- the overlord, which has each scanned by clamd, moves it by the answer, and posts a webhook if a
-- virus was found. Clients of other SFTP servers bring files from them into the staging directory,
-- and take files of the clean directory to them.
--
-- Which file models which part of the repository:
-- - Base: Booleans, texts, lists, errors and integers that all files share. A text is the list of
--   its bytes. FilePath: what the program uses of Go's path/filepath (on Unix) and strings. Files:
--   what it uses of package os, on a file system that is a function from paths to nodes, in which
--   any call can fail; a failed copy leaves part of the content at the destination.
-- - User: src/user/usergov.go. `User`, `Credentials` (`Auth`), `auth_pass`, `auth_public_key`.
-- - Server: src/pkgsftp/server.go. `get_user_jail_path`, `next_handle`, `get_handle`,
--   `close_handle`; Server/Types has the packets and the state, Server/Packets `handle_packet` with
--   every `respond` method and `serve_packet`, one round of a worker, Server/Serving a session from
--   its first packet to the end of its stream, Server/Status the codes of errors. What the operating
--   system answers is a record of functions, `Host`, which may depend on all earlier calls of the
--   session; the session keeps the list of its calls.
-- - Server/Wire: the bytes of a session. Server/Wire and Wire/Decode have what reads a request in
--   src/pkgsftp/packet.go and packet-typing.go (`make_packet`), Wire/Encode the encodings with which
--   a client writes it, Wire/Frames `send_packet` and `recv_packet`, Wire/Session the loop of
--   `Serve` on the bytes that a connection delivers before it ends, run-time panics included.
-- - Server/Manager: src/pkgsftp/packet-manager.go, the controller that gets requests and answers in
--   any order and sends the answers in the order of the requests; Manager/Dispatch which requests
--   the workers have at the same time, as a step relation. Server/Reaches and Server/Kept are
--   about what the requests of a session change in its state, Server/Requests about the paths that
--   they work on.
-- - Server/Attrs: src/pkgsftp/attrs.go, the attributes and the mode of a file on the wire.
--   Server/LongName: `runLs` of src/pkgsftp/server_unix.go, the line of a listing. Server/Answers: the
--   encodings of the answers, and how a client reads them (src/pkgsftp/client.go, conn.go);
--   Answers/Exchange has the streams of both directions. Files whose build depends on the platform
--   are those of Linux with cgo.
-- - Config: src/ssftp/config.go (Config/Types, Config/Load) and src/ssftp/configvalidator.go
--   (Config/Validator). A round of the loader works on what reading the file gave. The YAML parser
--   and `url.Parse` are parameters.
-- - Clamav: src/ssftp/clamav.go. `scan_file`, with clamd as a function from paths to answers.
-- - FileWatcher: src/ssftp/filewatcher.go. FileWatcher/Upload has
--   `check_scavenged_files_upload_state` and what it calls, FileWatcher/Scavenge a round of
--   `ScavengeUploadedFiles`, FileWatcher/Move `move_file_between_drives` and `move_file_by_status`.
-- - Overlord: src/ssftp/overlord.go. Overlord/Scans has the two cases of the select loop as
--   functions, Overlord/Pipeline the goroutines of a batch as a step relation, Overlord/Changes the
--   start of the program (src/ssftp/main.go) and the events of the configuration file.
--   Overlord/Homes, Batches and Placed are about a batch of files, Overlord/Rounds puts the round of
--   the file watcher, the goroutines and the moves together, Overlord/Sent and Turns any number of
--   rounds, each under its own configuration and with its own answers of clamd, and what others do
--   to the file system in between; Overlord/Posts is about the webhook.
-- - Service: src/ssftp/sftpservice.go. The login callbacks, `open_channel`, `end_session` and
--   `remove_server`; Service/Logins has the events of a service and their runs, Service/HostKey
--   `gen_ssh_key`.
-- - Webhook: src/webhook/webhook.go.
-- - SftpClient: src/sftpclient/sftpclient.go. SftpClient/Download has `download_files_recursive`
--   (SftpClient/Names, Incoming and Arrived follow a run of it),
--   SftpClient/Upload `upload_files_recursive`, SftpClient/Keys how a client logs in, and
--   SftpClient/Clients the clients that the overlord makes and starts. The server at the other end
--   is a record of functions, `Remote`, on a state of its own.
-- - Tests: runs on small inputs, and for each result below an instance of it.
--
-- State is passed on explicitly: an operation takes the state and returns the new one. Numbers are
-- natural numbers; the lengths and codes that the program computes with stay far below the bounds
-- of its integers. The counter of handles is an `int` that a session would have to open 2^63 files to
-- overflow. The program's loops run over lists and are structural recursions, but for
-- `strconv.Itoa`, which divides by ten as often as its fuel says: `itoa n` gives it `n + 1`, and
-- as each division makes a number that is not zero smaller, that is enough, as `itoa_injective`
-- uses. The loop of `Serve` has one round more than there are bytes, and each round but the last
-- takes five bytes at least. Where the wire has 32 or 64 bits, and for the number of a request, the
-- wrap-around is written out. The loop that loads the configuration runs over the contents that
-- its rounds find.
--
-- Not modelled: logging and src/logc; the SSH protocol, dialling and the listener; the request
-- server in src/pkgsftp and its client, which the program does not use, but for what reads answers,
-- and src/putty, a copy of a library. Channels without a buffer are one step of both
-- sides. Where a session is run, workers that handle packets at the same time are taken one after the
-- other, as the handles are under a lock.
pub mod Base
pub mod FilePath
pub mod User
pub mod Server
pub mod SftpClient
pub mod Config
pub mod Clamav
pub mod Files
pub mod FileWatcher
pub mod Service
pub mod Webhook
pub mod Overlord
pub mod Tests
