-- ===== src/SftpClient/Started.antt =====
-- Which clients a round starts.
use azure_s_sftp.Base.{
  ◌≡◌, refl, Bool, true, false, ◌&&◌, List, [], ◌∷◌, ◌++◌, map, Option, none, some, select,
  if◌then◌else◌, Error, Option-cases, inl, inr, ap,
}
use azure_s_sftp.Config.Types.{Config, ConfigService, ClientDownloader, ClientUploader}
use azure_s_sftp.SftpClient.{DownloaderConfig, UploaderConfig}
use azure_s_sftp.SftpClient.Clients.{
  new_sftp_client, downloader_of, uploader_of, new_sftp_clients, started_downloads, started_uploads,
  start_sftp_clients_download_files, start_sftp_clients_upload_files,
}

abbrev pub is_connected : Option Error → Bool
is_connected none = true
is_connected (some e) = false

module _ (c : Config) where
  downloads_of_uploaders :
      (connect : DownloaderConfig → Option Error) (us : List ClientUploader)
      → started_downloads connect (map (λ v. new_sftp_client none (some (uploader_of c v))) us) ≡ []
  unfolding started_downloads new_sftp_client
  downloads_of_uploaders connect [] = refl
  downloads_of_uploaders connect (u ∷ us) = downloads_of_uploaders connect us

  downloads_of_downloaders :
      (connect : DownloaderConfig → Option Error) (vs : List ClientDownloader)
      (us : List ClientUploader)
      → started_downloads connect (
          map (λ v. new_sftp_client (some (downloader_of c v)) none) vs
          ++ map (λ v. new_sftp_client none (some (uploader_of c v))) us)
        ≡ select (λ d. is_connected (connect d)) (map (downloader_of c) vs)
  unfolding started_downloads new_sftp_client
  downloads_of_downloaders connect [] us = downloads_of_uploaders connect us
  downloads_of_downloaders connect (v ∷ vs) us =
      let ih = downloads_of_downloaders connect vs us in
      elim (Option-cases (connect (downloader_of c v))) [
        | inl h ↦ rw h (ap (λ ds. downloader_of c v ∷ ds) ih)
        | inr (e, h) ↦ rw h ih
      ]

  uploads_of_uploaders :
      (connect : UploaderConfig → Option Error) (us : List ClientUploader)
      → started_uploads connect (map (λ v. new_sftp_client none (some (uploader_of c v))) us)
        ≡ select (λ d. is_connected (connect d)) (map (uploader_of c) us)
  unfolding started_uploads new_sftp_client
  uploads_of_uploaders connect [] = refl
  uploads_of_uploaders connect (u ∷ us) =
      let ih = uploads_of_uploaders connect us in
      elim (Option-cases (connect (uploader_of c u))) [
        | inl h ↦ rw h (ap (λ ds. uploader_of c u ∷ ds) ih)
        | inr (e, h) ↦ rw h ih
      ]

  uploads_of_downloaders :
      (connect : UploaderConfig → Option Error) (vs : List ClientDownloader)
      (us : List ClientUploader)
      → started_uploads connect (
          map (λ v. new_sftp_client (some (downloader_of c v)) none) vs
          ++ map (λ v. new_sftp_client none (some (uploader_of c v))) us)
        ≡ select (λ d. is_connected (connect d)) (map (uploader_of c) us)
  unfolding started_uploads new_sftp_client
  uploads_of_downloaders connect [] us = uploads_of_uploaders connect us
  uploads_of_downloaders connect (v ∷ vs) us = uploads_of_downloaders connect vs us

-- With the clients of a configuration, a round of downloads starts those of its downloaders that
-- connect, each with its own settings and the staging directory, in their order, and a round of
-- uploads likewise those of its uploaders; both start none while the configuration is not valid
-- or the setting for them is off.
started-new_sftp_clients :
    (cs : ConfigService) (dial : DownloaderConfig → Option Error)
    (call : UploaderConfig → Option Error)
    → let clients = new_sftp_clients cs.config in
      (start_sftp_clients_download_files cs dial clients ≡ (
        if cs.valid && cs.config.enable_sftp_client_downloader
        then select
            (λ d. is_connected (dial d))
            (map (downloader_of cs.config) cs.config.client_downloaders)
        else []))
      × (start_sftp_clients_upload_files cs call clients ≡ (
          if cs.valid && cs.config.enable_sftp_client_uploader
          then select
              (λ d. is_connected (call d))
              (map (uploader_of cs.config) cs.config.client_uploaders)
          else []))
unfolding new_sftp_clients start_sftp_clients_download_files start_sftp_clients_upload_files
started-new_sftp_clients cs dial call = (
  ap (λ ds. if cs.valid && cs.config.enable_sftp_client_downloader then ds else [])
      (downloads_of_downloaders cs.config dial cs.config.client_downloaders
        cs.config.client_uploaders),
  ap (λ ds. if cs.valid && cs.config.enable_sftp_client_uploader then ds else [])
      (uploads_of_downloaders cs.config call cs.config.client_downloaders
        cs.config.client_uploaders),
)
