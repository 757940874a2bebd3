-- ===== src/SftpClient/Clients.antt =====
-- `Overlord.NewSFTPClients` of src/ssftp/overlord.go: the clients that a configuration asks for.
use azure_s_sftp.Base.{◌&&◌, if◌then◌else◌, Error, List, [], ◌∷◌, ◌++◌, map, Option, none, some}
use azure_s_sftp.Config.Types.{Config, ConfigService, ClientDownloader, ClientUploader}
use azure_s_sftp.SftpClient.{DownloaderConfig, UploaderConfig, UploadPaths, no_paths}

-- `SftpClient`, before it is connected.
pub record SftpClient : Type 0 where
  pub dl_config : Option DownloaderConfig
  pub upl_config : Option UploaderConfig
  pub uploadpaths : UploadPaths

unfoldable pub new_sftp_client : Option DownloaderConfig → Option UploaderConfig → SftpClient
new_sftp_client d u = record { dl_config = d; upl_config = u; uploadpaths = no_paths }

unfoldable pub downloader_of : Config → ClientDownloader → DownloaderConfig
downloader_of c v = record {
  dl_name = v.name;
  host = v.host;
  port = v.port;
  delete_remote_file_after_download = v.delete_remote_file_after_download;
  override_existing_file = v.override_existing_file;
  username = v.username;
  password = v.password;
  private_key_path = v.privatekey_path;
  privatekey_passphrase = v.privatekey_passphrase;
  local_staging_base_directory = c.staging_path;
  local_staging_directory = v.local_staging_directory;
  remote_directory = v.remote_directory;
  full_local_staging_dir = [];
  full_remote_dir = [];
}

unfoldable pub uploader_of : Config → ClientUploader → UploaderConfig
uploader_of c v = record {
  upl_name = v.name;
  host = v.host;
  port = v.port;
  username = v.username;
  password = v.password;
  private_key_path = v.privatekey_path;
  privatekey_passphrase = v.privatekey_passphrase;
  local_clean_base_directory = c.clean_path;
  local_remote_upload_archive_base_path = c.local_remote_upload_archive_base_path;
  local_directory_to_upload = v.local_directory_to_upload;
  remote_directory = v.remote_directory;
  override_remote_existing_file = v.override_remote_existing_file;
}

unfoldable pub new_sftp_clients : Config → List SftpClient
unfolding new_sftp_client downloader_of uploader_of
new_sftp_clients c =
    map (λ v. new_sftp_client (some (downloader_of c v)) none) c.client_downloaders
    ++ map (λ v. new_sftp_client none (some (uploader_of c v))) c.client_uploaders

-- A round of `StartSftpClientsDownloadFiles`, by what each client's connecting gives: the
-- downloaders that are started. While the configuration is not valid the round waits.
unfoldable pub started_downloads :
    (DownloaderConfig → Option Error) → List SftpClient → List DownloaderConfig
started_downloads connect [] = []
started_downloads connect (v ∷ vs) =
    let rest = started_downloads connect vs in
    elim v.dl_config [ none ↦ rest | some d ↦ elim (connect d) [ none ↦ d ∷ rest | some e ↦ rest ] ]

unfoldable pub start_sftp_clients_download_files :
    ConfigService → (DownloaderConfig → Option Error) → List SftpClient → List DownloaderConfig
unfolding started_downloads
start_sftp_clients_download_files cs connect clients =
    if cs.valid && cs.config.enable_sftp_client_downloader
    then started_downloads connect clients
    else []

unfoldable pub started_uploads :
    (UploaderConfig → Option Error) → List SftpClient → List UploaderConfig
started_uploads connect [] = []
started_uploads connect (v ∷ vs) =
    let rest = started_uploads connect vs in
    elim v.upl_config [
      | none ↦ rest
      | some u ↦ elim (connect u) [ none ↦ u ∷ rest | some e ↦ rest ]
    ]

unfoldable pub start_sftp_clients_upload_files :
    ConfigService → (UploaderConfig → Option Error) → List SftpClient → List UploaderConfig
unfolding started_uploads
start_sftp_clients_upload_files cs connect clients =
    if cs.valid && cs.config.enable_sftp_client_uploader
    then started_uploads connect clients
    else []
