-- ===== src/Tests/Clients.antt =====
-- Clients of other servers at concrete data.
use azure_s_sftp.Base.{
  ◌⊎◌, ◌≡◌, refl, true, false, List, [], ◌∷◌, none, some, Text, codes, ◌==◌, ok, err,
  ne_of_eq_false, All, arith, replace_first, Error, if◌then◌else◌, is_not_exist, occurs, has_prefix,
}
use azure_s_sftp.FilePath.{base}
use azure_s_sftp.FilePath.Segments.{IsName}
use azure_s_sftp.Files.{
  folder, file, Files, open_read, stat, create, copy, remove, rename, parent_exists, ancestors,
}
use azure_s_sftp.FileWatcher.Move.{removed}
use azure_s_sftp.Config.Types.{Config, ConfigService, empty_config, staging_path, clean_path}
use azure_s_sftp.FileWatcher.Scavenge.{Visit}
use azure_s_sftp.SftpClient.{
  DownloaderConfig, UploaderConfig, UploadPaths, no_paths, Remote, set_uploader_file_paths,
  create_local_dir, set_downloader_full_local_staging_and_remote_path,
}
use azure_s_sftp.SftpClient.Download.{
  Download, download_loop, download_file, local_download_path, download_files_recursive,
}
use azure_s_sftp.SftpClient.Hidden.{Hidden, download_loop-Hidden}
use azure_s_sftp.SftpClient.Arrived.{HasArrived, Others, download_files_recursive_arrives}
use azure_s_sftp.SftpClient.Kept.{Kept, download_file-Kept}
use azure_s_sftp.SftpClient.Upload.{Upload, upload_file, upload_loop}
use azure_s_sftp.SftpClient.Batch.{archived, upload_loop_keeps}
use azure_s_sftp.SftpClient.Uploads.{IsDelivered, upload_file-IsDelivered}
use azure_s_sftp.SftpClient.Keys.{KeyTools}

-- A server that has every file, and keeps the paths that were removed or written.
abbrev remote : Remote (List Text)
remote = record {
  getwd = λ r. ok (codes "/home");
  stat = λ r p. none;
  open_read = λ r p. none;
  content = λ r p. (codes "hi", none);
  remove = λ r p. (none, p ∷ r);
  mkdir_all = λ r p. (none, r);
  create = λ r p. (none, r);
  open_write = λ r p. (none, r);
  write = λ r p bs. (none, p ∷ r);
}

-- Folders everywhere, but for one file and for the files that are not there yet.
abbrev upload : Text
upload = codes "/mnt/ssftp/clean/out/a/x.txt"

abbrev files : Files
files = record {
  node = λ p.
      if p == upload
      then some (file (codes "hi"))
      else if p == codes "/mnt/ssftp/staging/in/x.txt.download"
      then none
      else if p == codes "/mnt/ssftp/staging/in/x.txt"
      then none
      else if p == codes "/mnt/ssftp/archive/out/a/x.txt"
      then none
      else some folder;
  fault = λ c. none;
  partial = λ t. [];
}

abbrev config : Config
config = record empty_config {
  staging_path = staging_path;
  clean_path = clean_path;
  enable_sftp_client_downloader = true;
  client_downloaders =
      record {
        name = codes "in";
        host = codes "h";
        port = 22;
        username = codes "u";
        password = codes "p";
        privatekey_path = [];
        privatekey_passphrase = [];
        local_staging_directory = codes "in";
        remote_directory = codes "drop";
        delete_remote_file_after_download = true;
        override_existing_file = true;
      }
      ∷ [];
}

abbrev downloader : DownloaderConfig
downloader = record {
  dl_name = codes "in";
  host = codes "h";
  port = 22;
  delete_remote_file_after_download = true;
  override_existing_file = true;
  username = codes "u";
  password = codes "p";
  private_key_path = [];
  privatekey_passphrase = [];
  local_staging_base_directory = staging_path;
  local_staging_directory = codes "in";
  remote_directory = codes "drop";
  full_local_staging_dir = codes "/mnt/ssftp/staging/in";
  full_remote_dir = codes "/home/drop";
}

abbrev begun : Download (List Text)
begun = record { files = files; remote = []; pending = [] }

abbrev visits : List Visit
visits =
    record { path = codes "/home/drop"; is_dir = true; error = none }
    ∷ record { path = codes "/home/drop/x.txt"; is_dir = false; error = none }
    ∷ []

download_loop-Hidden_example :
    Hidden downloader remote
      (codes "/mnt/ssftp/staging/in/x.txt")
      files
      (download_loop downloader remote begun visits).1.files
download_loop-Hidden_example =
    download_loop-Hidden downloader remote begun visits (codes "/mnt/ssftp/staging/in/x.txt")

download_file-Kept_example :
    Kept downloader remote begun
      (codes "/home/drop/x.txt")
      (local_download_path downloader (codes "/home/drop/x.txt"))
      (download_file downloader remote begun (codes "/home/drop/x.txt")).1
download_file-Kept_example = download_file-Kept downloader remote begun (codes "/home/drop/x.txt")

-- The run removes the remote file, and the renaming of the local one is deferred.
download_runs :
    ((download_loop downloader remote begun visits).1.remote ≡ codes "/home/drop/x.txt" ∷ [])
    × ((download_loop downloader remote begun visits).1.pending
        ≡ codes "/mnt/ssftp/staging/in/x.txt.download" ∷ [])
unfolding download_loop stat is_not_exist create
download_runs = (refl, refl)

abbrev leaving : DownloaderConfig
leaving = record downloader { delete_remote_file_after_download = false }

abbrev incoming : List Text
incoming = codes "/home/drop/x.txt" ∷ codes "/home/drop/b/y.txt" ∷ []

abbrev two_files : List Visit
two_files =
    record { path = codes "/home/drop"; is_dir = true; error = none }
    ∷ record { path = codes "/home/drop/x.txt"; is_dir = false; error = none }
    ∷ record { path = codes "/home/drop/c"; is_dir = false; error = some Error.eof }
    ∷ record { path = codes "/home/drop/b/y.txt"; is_dir = false; error = none }
    ∷ []

-- The local directory is there and has an old version of the second file.
abbrev local : Files
local = record files {
  node = λ p.
      if p == codes "/mnt/ssftp/staging/in"
      then some folder
      else if p == codes "/mnt/ssftp/staging/in/y.txt"
      then some (file (codes "old"))
      else none;
}

download_files_recursive_arrives_example :
    let (e, fs, r) = download_files_recursive remote leaving local [] two_files in
    (e ≡ none)
    × (r ≡ [])
    × All (HasArrived leaving remote [] fs) incoming
    × ((x : Text) → Others leaving remote [] x incoming → fs.node x ≡ local.node x)
unfolding ◌==◌ occurs has_prefix parent_exists ancestors
    set_downloader_full_local_staging_and_remote_path base
download_files_recursive_arrives_example =
    download_files_recursive_arrives remote leaving local [] two_files refl refl (λ c. refl) refl
      (
        record {
          opens = refl;
          whole = refl;
          plain = refl;
          unused = refl;
          vacant = λ e. absurd (cc);
          parent = refl;
        },
        (
          record {
            opens = refl;
            whole = refl;
            plain = refl;
            unused = refl;
            vacant = λ e. absurd (cc);
            parent = refl;
          },
          tt,
        ),
      )
      (
        (
          ne_of_eq_false (codes "/mnt/ssftp/staging/in/x.txt") (codes "/mnt/ssftp/staging/in/y.txt")
              refl,
          tt,
        ),
        (tt, tt),
      )

-- Two files of one name in different remote directories, the second of which cannot be read to its
-- end: what came in of the second gets the name of the first, which the server has removed.
abbrev half : Remote (List Text)
half = record remote {
  content = λ r p.
      if p == codes "/home/drop/b/x.txt" then (codes "h", some Error.eof) else (codes "hi", none);
}

abbrev namesakes : List Visit
namesakes =
    record { path = codes "/home/drop/a/x.txt"; is_dir = false; error = none }
    ∷ record { path = codes "/home/drop/b/x.txt"; is_dir = false; error = none }
    ∷ []

half_runs :
    ((download_files_recursive half downloader files [] namesakes).1.node
        (codes "/mnt/ssftp/staging/in/x.txt")
      ≡ some (file (codes "h")))
    × ((download_files_recursive half downloader files [] namesakes).2
        ≡ codes "/home/drop/a/x.txt" ∷ [])
unfolding download_files_recursive set_downloader_full_local_staging_and_remote_path stat
    create_local_dir is_not_exist create remove rename replace_first
half_runs = (refl, refl)

abbrev keeping : DownloaderConfig
keeping = record downloader { override_existing_file = false }

abbrev uploader : UploaderConfig
uploader = record {
  upl_name = codes "out";
  host = codes "h";
  port = 22;
  username = codes "u";
  password = codes "p";
  private_key_path = [];
  privatekey_passphrase = [];
  local_clean_base_directory = clean_path;
  local_remote_upload_archive_base_path = codes "/mnt/ssftp/archive";
  local_directory_to_upload = codes "out";
  remote_directory = codes "drop";
  override_remote_existing_file = true;
}

abbrev paths : UploadPaths
paths = record no_paths {
  full_local_clean_upload_dir = codes "/mnt/ssftp/clean/out";
  archive_base_dir = codes "/mnt/ssftp/archive";
  full_remote_dir = codes "/home/drop";
}

abbrev waiting : Upload (List Text)
waiting = record { files = files; remote = [] }

upload_file-IsDelivered_example :
    IsDelivered uploader remote
      (set_uploader_file_paths uploader paths upload)
      (codes "hi")
      (upload_file uploader remote paths waiting upload)
unfolding set_uploader_file_paths ◌==◌
upload_file-IsDelivered_example =
    upload_file-IsDelivered uploader remote paths waiting upload (codes "hi")
      (ne_of_eq_false _ _ refl) refl

upload_runs :
    ((upload_file uploader remote paths waiting upload).remote ≡ codes "/home/drop/x.txt" ∷ [])
    × ((upload_file uploader remote paths waiting upload).files.node upload ≡ none)
    × ((upload_file uploader remote paths waiting upload).files.node
          (codes "/mnt/ssftp/archive/out/a/x.txt")
        ≡ some (file (codes "hi")))
unfolding upload_file ◌==◌ open_read stat create copy removed remove
upload_runs = (refl, refl, refl)

abbrev upload_dir : List Text
upload_dir = codes "mnt" ∷ codes "ssftp" ∷ codes "clean" ∷ codes "out" ∷ []

abbrev archive : List Text
archive = codes "mnt" ∷ codes "ssftp" ∷ codes "archive" ∷ []

abbrev remote_segments : List Text
remote_segments = codes "home" ∷ codes "drop" ∷ []

upload_dir-IsName : All IsName upload_dir
unfolding ◌==◌
upload_dir-IsName = ground arith

archive-IsName : All IsName archive
unfolding ◌==◌
archive-IsName = ground arith

remote_segments-IsName : All IsName remote_segments
unfolding ◌==◌
remote_segments-IsName = ground arith

place_IsName : All IsName (codes "a" ∷ codes "out" ∷ codes "x.txt" ∷ [])
unfolding ◌==◌
place_IsName = ground arith

abbrev service : ConfigService
service = record { config = config; valid = true }

-- A PuTTY key that is not encrypted.
abbrev tools : KeyTools Text Text
tools = record {
  read_file = λ p. ok (codes "ppk");
  decode = λ b. none;
  decrypt_pem_block = λ b p. err Error.eof;
  parse_pkcs1 = λ b. ok b;
  parse_ec = λ b. ok b;
  parse_dsa = λ b. ok b;
  putty_encryption = λ p. ok (codes "none");
  putty_key = λ p o. ok (codes "key");
  new_signer = λ o. ok (codes "signer");
  parse_private_key = λ b. ok b;
}

abbrev second : Text
second = codes "/mnt/ssftp/clean/out/b/x.txt"

upload_loop_keeps_example :
    let u' = upload_loop uploader remote paths waiting (second ∷ upload ∷ []) in
    (u'.files.node upload ≡ some (file (codes "hi")))
    ⊎ (u'.files.node (archived uploader remote paths upload) ≡ some (file (codes "hi")))
unfolding set_uploader_file_paths ◌==◌
upload_loop_keeps_example =
    upload_loop_keeps uploader remote paths waiting (second ∷ []) [] upload (codes "hi")
      (ne_of_eq_false _ _ refl) ((ne_of_eq_false _ _ refl, ne_of_eq_false _ _ refl), tt) tt tt refl
