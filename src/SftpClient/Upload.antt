-- ===== src/SftpClient/Upload.antt =====
-- `UploadFilesRecursive`: the files of the clean directory are written to the server one after the
-- other, and moved to the archive.
use azure_s_sftp.Base.{
  not, ◌&&◌, List, [], ◌∷◌, Option, none, some, Text, if◌then◌else◌, Error, Result, ok, err,
  is_not_exist, enoent,
}
use azure_s_sftp.Files.{Node, folder, file, FileCall, Files, open_read, create}
use azure_s_sftp.FileWatcher.Scavenge.{Visit}
use azure_s_sftp.FileWatcher.Move.{copied, copy_from}
use azure_s_sftp.SftpClient.{
  UploaderConfig, UploadPaths, Remote, is_dir_file_exist, ensure_dir, is_remote_file_exist,
  set_uploader_full_local_clean_and_remote_path, set_uploader_file_paths,
}

-- From the creation of the file in the archive on.
unfoldable pub archive_created :
    Text → Text → Result Node → Result (Unit {0}) × Files → Option Error × Files
unfolding copied copy_from
archive_created src dest source (err e, fs) = (some e, fs)
archive_created src dest source (ok u, fs) = copied src (copy_from fs dest src source)

-- Only an error that says that the file is not there ends the move.
unfoldable pub archive_opened : Files → Text → Text → Result Node → Option Error × Files
unfolding archive_created
archive_opened fs src dest (ok n) = archive_created src dest (ok n) (create fs dest)
archive_opened fs src dest (err e) =
    if is_not_exist e then (some e, fs) else archive_created src dest (err e) (create fs dest)

unfoldable pub move_uploaded_file_from_clean_to_archive : UploadPaths → Files → Option Error × Files
unfolding ensure_dir is_dir_file_exist archive_opened
move_uploaded_file_from_clean_to_archive p fs =
    let fs' = ensure_dir fs p.full_archive_dir in
    let src = p.full_local_file_path in
    if not (is_dir_file_exist fs' src)
    then (none, fs')
    else archive_opened fs' src p.full_archive_file_path (open_read fs' src)

-- The files that the walk through the clean directory finds.
unfoldable pub files_to_upload : List Visit → List Text
files_to_upload [] = []
files_to_upload (v ∷ visits) =
    let rest = files_to_upload visits in
    elim v.error [ some e ↦ rest | none ↦ if not v.is_dir then v.path ∷ rest else rest ]

pub record Upload (R : Type 0) : Type 0 where
  pub files : Files
  pub remote : R

module _ (c : UploaderConfig) {R : Type 0} (rem : Remote R) where
  -- `io.Copy` from an open local file into an open remote file.
  unfoldable pub send : Files → R → Text → Text → Option Error × R
  send fs r to from = elim (fs.node from) [
    | none ↦ (some (Error.path_error (Error.errno enoent)), r)
    | some n ↦ elim n [
      | folder ↦ (some (Error.path_error (Error.errno 21)), r)
      | file bs ↦ elim (fs.fault (FileCall.on_copy to from)) [
        | some e ↦ (some e, (rem.write r to (fs.partial bs)).1)
        | none ↦ rem.write r to bs
      ]
    ]
  ]

  unfoldable pub sent : UploadPaths → Files → Option Error × R → Upload R
  unfolding move_uploaded_file_from_clean_to_archive
  sent p fs (some e, r) = record { files = fs; remote = r }
  sent p fs (none, r) = record {
    files = (move_uploaded_file_from_clean_to_archive p fs).1;
    remote = r;
  }

  unfoldable pub remote_opened_for_writing : UploadPaths → Files → Option Error × R → Upload R
  unfolding sent send
  remote_opened_for_writing p fs (some e, r) = record { files = fs; remote = r }
  remote_opened_for_writing p fs (none, r) =
      sent p fs (send fs r p.full_remote_file_path p.full_local_file_path)

  unfoldable pub remote_created : UploadPaths → Files → Option Error × R → Upload R
  unfolding remote_opened_for_writing
  remote_created p fs (some e, r) = record { files = fs; remote = r }
  remote_created p fs (none, r) =
      remote_opened_for_writing p fs (rem.open_write r p.full_remote_file_path)

  -- What is done with a file once it is open and its paths are set.
  unfoldable pub upload_to : UploadPaths → Upload R → Upload R
  unfolding is_remote_file_exist remote_created
  upload_to p u =
      if is_remote_file_exist rem u.remote p.full_remote_file_path
        && not c.override_remote_existing_file
      then u
      else remote_created p u.files (rem.create u.remote p.full_remote_file_path)

  -- The body of the loop over the files; an error is logged, and the loop goes on.
  unfoldable pub upload_file : UploadPaths → Upload R → Text → Upload R
  unfolding set_uploader_file_paths upload_to
  upload_file p u v = elim (open_read u.files v) [
    | err e ↦ u
    | ok n ↦ upload_to (set_uploader_file_paths c p v) u
  ]

  unfoldable pub upload_loop : UploadPaths → Upload R → List Text → Upload R
  unfolding upload_file
  upload_loop p u [] = u
  upload_loop p u (v ∷ vs) = upload_loop p (upload_file p u v) vs

  -- From the result of creating the remote directory on. An error of the walk is not returned:
  -- what is returned is the earlier error, nil.
  unfoldable pub directory_made :
      UploadPaths → Files → List Visit → Option Error → Option Error × R → Option Error × Upload R
  unfolding upload_loop files_to_upload
  directory_made p fs visits walk_error (some e, r) = (some e, record { files = fs; remote = r })
  directory_made p fs visits (some w) (none, r) = (none, record { files = fs; remote = r })
  directory_made p fs visits none (none, r) =
      (none, upload_loop p (record { files = fs; remote = r }) (files_to_upload visits))

  -- The whole function, by what the walk through the clean directory reports.
  unfoldable pub upload_files_recursive :
      Upload R → UploadPaths → List Visit → Option Error → Option Error × Upload R
  unfolding ensure_dir set_uploader_full_local_clean_and_remote_path directory_made
  upload_files_recursive u p visits walk_error =
      let p' = set_uploader_full_local_clean_and_remote_path rem u.remote c p in
      let fs = ensure_dir (ensure_dir u.files p'.archive_base_dir) p'.full_local_clean_upload_dir in
      directory_made p' fs visits walk_error (rem.mkdir_all u.remote p'.full_remote_dir)
