-- ===== src/Config/Types.antt =====
-- The types of src/ssftp/config.go: the Yaml schema, the configuration and its parts.
use azure_s_sftp.Base.{ℕ, Bool, false, List, [], Text, codes}
use azure_s_sftp.User.{User}

pub record Webhook : Type 0 where
  pub name : Text
  pub url : Text

-- `Properties` is a Go map: a key that is missing reads as the empty text.
pub record LogDest : Type 0 where
  pub kind : Text
  pub properties : Text → Text

pub record ClientDownloader : Type 0 where
  pub name : Text
  pub host : Text
  pub port : ℕ
  pub username : Text
  pub password : Text
  pub privatekey_path : Text
  pub privatekey_passphrase : Text
  pub local_staging_directory : Text
  pub remote_directory : Text
  pub delete_remote_file_after_download : Bool
  pub override_existing_file : Bool

pub record ClientUploader : Type 0 where
  pub name : Text
  pub host : Text
  pub port : ℕ
  pub username : Text
  pub password : Text
  pub privatekey_path : Text
  pub privatekey_passphrase : Text
  pub local_directory_to_upload : Text
  pub remote_directory : Text
  pub override_remote_existing_file : Bool

-- `SSFTPYaml`, with the two lists of `SSFTPYamlUsers`.
pub record SsftpYaml : Type 0 where
  pub sftp_port : ℕ
  pub enable_virus_scan : Bool
  pub enable_file_scavenging : Bool
  pub enable_sftp_client_downloader : Bool
  pub enable_sftp_client_uploader : Bool
  pub log_dests : List LogDest
  pub staging_dir_users : List User
  pub clean_dir_users : List User
  pub webhooks : List Webhook
  pub client_downloaders : List ClientDownloader
  pub client_uploaders : List ClientUploader

pub record Config : Type 0 where
  pub sftp_port : ℕ
  pub enable_virus_scan : Bool
  pub enable_file_scavenging : Bool
  pub enable_sftp_client_downloader : Bool
  pub enable_sftp_client_uploader : Bool
  pub staging_path : Text
  pub local_remote_upload_archive_base_path : Text
  pub clean_path : Text
  pub quarantine_path : Text
  pub log_dests : List LogDest
  pub users : List User
  pub webhooks : List Webhook
  pub client_downloaders : List ClientDownloader
  pub client_uploaders : List ClientUploader

-- `ConfigService`; the lock is not kept.
pub record ConfigService : Type 0 where
  pub config : Config
  pub valid : Bool

-- `&Config{}`
abbrev pub empty_config : Config
empty_config = record {
  sftp_port = 0;
  enable_virus_scan = false;
  enable_file_scavenging = false;
  enable_sftp_client_downloader = false;
  enable_sftp_client_uploader = false;
  staging_path = [];
  local_remote_upload_archive_base_path = [];
  clean_path = [];
  quarantine_path = [];
  log_dests = [];
  users = [];
  webhooks = [];
  client_downloaders = [];
  client_uploaders = [];
}

unfoldable pub new_config_service : ConfigService
new_config_service = record { config = empty_config; valid = false }

abbrev pub system_config_path : Text
system_config_path = codes "/mnt/ssftp/system/ssftp.yaml"

abbrev pub system_config_file_name : Text
system_config_file_name = codes "ssftp.yaml"

abbrev pub staging_path : Text
staging_path = codes "/mnt/ssftp/staging"

abbrev pub upload_archive_base_path : Text
upload_archive_base_path = codes "/mnt/ssftp/uploadarchive"

abbrev pub clean_path : Text
clean_path = codes "/mnt/ssftp/clean"

abbrev pub quarantine_path : Text
quarantine_path = codes "/mnt/ssftp/quarantine"

abbrev pub virus_found_webhook : Text
virus_found_webhook = codes "virusFound"
