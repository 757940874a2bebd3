-- ===== src/SftpClient.antt =====
-- src/sftpclient/sftpclient.go: the client that downloads files from other SFTP servers into the
-- staging directory, and uploads files of the clean directory to them. The protocol's client is
-- github.com/pkg/sftp, a parameter.
pub mod Download
pub mod Hidden
pub mod Kept
pub mod Names
pub mod Incoming
pub mod Arrived
pub mod Mirrored
pub mod Clients
pub mod Keys
pub mod Started
pub mod Upload
pub mod Uploads
pub mod Batch
use azure_s_sftp.Base.{
  ℕ, Bool, true, false, not, List, [], ◌∷◌, Option, none, some, Text, ◌==◌, if◌then◌else◌, Error,
  Result, ok, err, is_not_exist, is_exist, replace_first, codes,
}
use azure_s_sftp.FilePath.{clean, join, base, split_dir}
use azure_s_sftp.Files.{Node, Files, stat, mkdir, mkdir_all}

pub record DownloaderConfig : Type 0 where
  pub dl_name : Text
  pub host : Text
  pub port : ℕ
  pub delete_remote_file_after_download : Bool
  pub override_existing_file : Bool
  pub username : Text
  pub password : Text
  pub private_key_path : Text
  pub privatekey_passphrase : Text
  pub local_staging_base_directory : Text
  pub local_staging_directory : Text
  pub remote_directory : Text
  pub full_local_staging_dir : Text
  pub full_remote_dir : Text

pub record UploaderConfig : Type 0 where
  pub upl_name : Text
  pub host : Text
  pub port : ℕ
  pub username : Text
  pub password : Text
  pub private_key_path : Text
  pub privatekey_passphrase : Text
  pub local_clean_base_directory : Text
  pub local_remote_upload_archive_base_path : Text
  pub local_directory_to_upload : Text
  pub remote_directory : Text
  pub override_remote_existing_file : Bool

-- The fields that are read or set.
pub record UploadPaths : Type 0 where
  pub full_local_clean_upload_dir : Text
  pub full_local_file_path : Text
  pub archive_base_dir : Text
  pub full_archive_dir : Text
  pub full_archive_file_path : Text
  pub full_remote_dir : Text
  pub full_remote_file_path : Text
  pub sub_dirs_difference_only : Text

-- `UploadPaths{}`
abbrev pub no_paths : UploadPaths
no_paths = record {
  full_local_clean_upload_dir = [];
  full_local_file_path = [];
  archive_base_dir = [];
  full_archive_dir = [];
  full_archive_file_path = [];
  full_remote_dir = [];
  full_remote_file_path = [];
  sub_dirs_difference_only = [];
}

-- What a connection to another server is asked, on a state of that server: its directory, whether
-- a path can be looked at, whether a file can be opened for reading and what reading it to its end
-- gives, with the error met there; and the calls that change something, which may do so and fail.
pub record Remote (R : Type 0) : Type 0 where
  pub getwd : R → Result Text
  pub stat : R → Text → Option Error
  pub open_read : R → Text → Option Error
  pub content : R → Text → Text × Option Error
  pub remove : R → Text → Option Error × R
  pub mkdir_all : R → Text → Option Error × R
  pub create : R → Text → Option Error × R
  pub open_write : R → Text → Option Error × R
  pub write : R → Text → Text → Option Error × R

unfoldable pub is_dir_file_exist : Files → Text → Bool
is_dir_file_exist fs p = elim (stat fs p) [ ok n ↦ true | err e ↦ not (is_not_exist e) ]

-- An error is logged, and no caller looks at it.
unfoldable pub create_local_dir : Files → Text → Files
unfolding is_dir_file_exist
create_local_dir fs dir = if not (is_dir_file_exist fs dir) then (mkdir fs dir).1 else fs

unfoldable pub ensure_dir : Files → Text → Files
ensure_dir fs p = elim (stat fs p) [ ok n ↦ fs | err e ↦ (mkdir_all fs p).1 ]

-- The working directory of the connection and the configured directory in it.
unfoldable pub remote_dir : Result Text → Text → Text
unfolding ◌==◌
remote_dir (err e) configured = configured
remote_dir (ok wd) configured = if not (configured == []) then join (wd ∷ configured ∷ []) else wd

module _ {R : Type 0} (rem : Remote R) where
  unfoldable pub is_remote_file_exist : R → Text → Bool
  is_remote_file_exist r p = elim (rem.stat r p) [ none ↦ true | some e ↦ is_exist e ]

  -- The paths of uploads, which are cleared here, are not read by a downloader.
  unfoldable pub set_downloader_full_local_staging_and_remote_path :
      R → DownloaderConfig → DownloaderConfig
  unfolding remote_dir join
  set_downloader_full_local_staging_and_remote_path r c = record c {
    full_remote_dir = remote_dir (rem.getwd r) c.remote_directory;
    full_local_staging_dir = join (c.local_staging_base_directory ∷ c.local_staging_directory ∷ []);
  }

  unfoldable pub set_uploader_full_local_clean_and_remote_path :
      R → UploaderConfig → UploadPaths → UploadPaths
  unfolding remote_dir join
  set_uploader_full_local_clean_and_remote_path r c p = record p {
    archive_base_dir = c.local_remote_upload_archive_base_path;
    full_remote_dir = remote_dir (rem.getwd r) c.remote_directory;
    full_local_clean_upload_dir =
        join (c.local_clean_base_directory ∷ c.local_directory_to_upload ∷ []);
  }

unfoldable pub set_uploader_file_paths : UploaderConfig → UploadPaths → Text → UploadPaths
unfolding join base clean split_dir replace_first
set_uploader_file_paths c p upload_file_path =
    let cleansed = clean (split_dir upload_file_path) in
    let sub_dirs = replace_first cleansed p.full_local_clean_upload_dir [] in
    let name_only = base upload_file_path in
    let archive_dir = join (p.archive_base_dir ∷ c.local_directory_to_upload ∷ sub_dirs ∷ []) in
    record p {
      full_local_file_path = upload_file_path;
      sub_dirs_difference_only = sub_dirs;
      full_remote_file_path = join (p.full_remote_dir ∷ name_only ∷ []);
      full_archive_dir = archive_dir;
      full_archive_file_path = join (archive_dir ∷ name_only ∷ []);
    }
