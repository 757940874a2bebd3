-- ===== src/FileWatcher/Scavenge.antt =====
-- One round of `ScavengeUploadedFiles`: the walk through the staging directory and the batch of
-- files that it hands on.
use azure_s_sftp.Base.{
  Bool, true, false, not, List, [], ◌∷◌, ◌++◌, Option, none, some, Text, codes, ◌==◌, if◌then◌else◌,
  Error,
}
use azure_s_sftp.FilePath.{ext}
use azure_s_sftp.Server.{Server, File}
use azure_s_sftp.Config.Types.{ConfigService}
use azure_s_sftp.FileWatcher.Types.{FileUploadContext}
use azure_s_sftp.FileWatcher.Upload.{
  Times, is_empty, check_scavenged_files_upload_state, get_sftp_open_files,
}

unfoldable pub is_scavenged_file_download_state : Text → Bool
unfolding ext
is_scavenged_file_download_state path = ext path == codes ".download"

-- A call that `filepath.Walk` makes of its callback: the path, with whether it is a directory, or
-- with the error that the walk met there.
pub record Visit : Type 0 where
  pub path : Text
  pub is_dir : Bool
  pub error : Option Error

-- The callback: it appends to `files`, and returns nil in every case.
unfoldable pub visit : List FileUploadContext → Visit → List FileUploadContext
unfolding is_scavenged_file_download_state
visit files v = elim v.error [
  | some e ↦ files
  | none ↦
      if not v.is_dir
      then if not (is_scavenged_file_download_state v.path)
        then files ++ (record { path = v.path } ∷ [])
        else files
      else files
]

unfoldable pub walk : List FileUploadContext → List Visit → List FileUploadContext
unfolding visit
walk files [] = files
walk files (v ∷ visits) = walk (visit files v) visits

-- How a round ends: the configuration is not valid yet, scavenging is switched off, the walk
-- failed, no file was found, all files are still open, or a batch is handed on. The open files
-- that were closed stand beside it.
pub data Round : Type 0 where
  not_valid disabled walk_failed nothing : Round
  all_open : List File → Round
  batch : List FileUploadContext → List File → Round

unfoldable pub handed_on : List FileUploadContext × Bool × List File → Round
handed_on (files, true, closed) = batch files closed
handed_on (files, false, closed) = all_open closed

unfoldable pub scavenge_round :
    ConfigService → List Visit → Option Error → Times → List Server → Round
scavenge_round cs visits walk_error t servers =
    let files = walk [] visits in
    if not cs.valid
    then not_valid
    else if not cs.config.enable_file_scavenging
    then disabled
    else elim walk_error [
      | some e ↦ walk_failed
      | none ↦
          if is_empty files
          then nothing
          else handed_on (check_scavenged_files_upload_state t (get_sftp_open_files servers) files)
    ]
