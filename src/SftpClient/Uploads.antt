-- ===== src/SftpClient/Uploads.antt =====
-- A file leaves the clean directory only for the archive, and only once it was sent.
use azure_s_sftp.Base.{
  ◌≡◌, ◌≢◌, refl, ◌∙◌, not, ◌&&◌, ◌⊎◌, inl, inr, [], Option, none, some, Text, Error, Result, ok,
  err, is_not_exist, arith, Bool-cases,
}
use azure_s_sftp.Files.{Node, file, Files, put, stat, create, open_read, mkdir_all}
use azure_s_sftp.Files.Laws.{put_ne, create-WritesOrFails, mkdir_all-Grows}
use azure_s_sftp.FileWatcher.Moved.{IsSafe, copied-IsSafe}
use azure_s_sftp.SftpClient.{
  UploaderConfig, UploadPaths, Remote, is_dir_file_exist, ensure_dir, is_remote_file_exist,
  set_uploader_file_paths,
}
use azure_s_sftp.SftpClient.Upload.{
  archive_created, archive_opened, move_uploaded_file_from_clean_to_archive, Upload, send, sent,
  remote_opened_for_writing, remote_created, upload_to, upload_file,
}

pub ensure_dir_kept :
    (fs : Files) (p q : Text) (n : Node) → fs.node q ≡ some n → (ensure_dir fs p).node q ≡ some n
unfolding ensure_dir
ensure_dir_kept fs p q n h = go (stat fs p)
  where
    go :
        (r : Result Node)
        → (elim r as (λ _. Files) [ ok m ↦ fs | err e ↦ (mkdir_all fs p).1 ]).node q ≡ some n
    go (ok m) = h
    go (err e) = (mkdir_all-Grows fs p).kept q n h

module _ (src dest c : Text) (apart : dest ≢ src) where
  archive_created-IsSafe :
      (fs : Files) (source : Result Node)
      → fs.node src ≡ some (file c)
      → IsSafe src dest c (archive_created src dest source (create fs dest))
  unfolding archive_created
  archive_created-IsSafe fs source here = elim (create-WritesOrFails fs dest) [
    | inl (e, h) ↦ rw h (inl here)
    | inr h ↦ rw h (
        copied-IsSafe src dest c apart (put fs dest (some (file []))) source
          (put_ne fs dest src _ apart ∙ here))
  ]

  archive_opened-IsSafe :
      (fs : Files) (source : Result Node)
      → fs.node src ≡ some (file c)
      → IsSafe src dest c (archive_opened fs src dest source)
  unfolding archive_opened
  archive_opened-IsSafe fs (ok n) here = archive_created-IsSafe fs (ok n) here
  archive_opened-IsSafe fs (err e) here = elim (Bool-cases (is_not_exist e)) [
    | inl t ↦ rw t (inl here)
    | inr t ↦ rw t (archive_created-IsSafe fs (err e) here)
  ]

-- Moving an uploaded file to the archive never loses its content, whatever calls fail: it is
-- still in the clean directory, or the move reports no error, the archive has it, and it has left
-- the clean directory.
move_uploaded_file_from_clean_to_archive-IsSafe :
    (p : UploadPaths) (c : Text)
    → p.full_archive_file_path ≢ p.full_local_file_path
    → (fs : Files) → fs.node p.full_local_file_path ≡ some (file c)
    → IsSafe p.full_local_file_path p.full_archive_file_path c
        (move_uploaded_file_from_clean_to_archive p fs)
unfolding move_uploaded_file_from_clean_to_archive
move_uploaded_file_from_clean_to_archive-IsSafe p c apart fs here =
    let fs' = ensure_dir fs p.full_archive_dir in
    let still = ensure_dir_kept fs p.full_archive_dir p.full_local_file_path (file c) here in
    elim (Bool-cases (is_dir_file_exist fs' p.full_local_file_path)) [
      | inr t ↦ rw t (inl still)
      | inl t ↦ rw t (
          archive_opened-IsSafe p.full_local_file_path p.full_archive_file_path c apart fs'
            (open_read fs' p.full_local_file_path) still)
    ]

module _ (c : UploaderConfig) {R : Type 0} (rem : Remote R) where
  -- The file is still in the clean directory, or the server took all of it without an error and
  -- the archive has it.
  abbrev pub IsDelivered : UploadPaths → Text → Upload R → Type 0
  IsDelivered p bs u =
      (u.files.node p.full_local_file_path ≡ some (file bs))
      ⊎ ((r : R) × (rem.write r p.full_remote_file_path bs ≡ (none, u.remote))
          × (u.files.node p.full_archive_file_path ≡ some (file bs))
          × (u.files.node p.full_local_file_path ≡ none))

  module _ (p : UploadPaths) (bs : Text) (apart : p.full_archive_file_path ≢ p.full_local_file_path)
      (fs : Files) (here : fs.node p.full_local_file_path ≡ some (file bs)) where
    sent-IsDelivered :
        (r : R) (o : Option Error × R)
        → ((r' : R) → o ≡ (none, r') → rem.write r p.full_remote_file_path bs ≡ (none, r'))
        → IsDelivered p bs (sent c rem p fs o)
    unfolding sent
    sent-IsDelivered r (some e, r') w = inl here
    sent-IsDelivered r (none, r') w =
        elim (move_uploaded_file_from_clean_to_archive-IsSafe p bs apart fs here) [
          | inl still ↦ inl still
          | inr m ↦ inr (r, w r' refl, m.1, m.2)
        ]

    send_whole :
        (r r' : R)
        → send c rem fs r p.full_remote_file_path p.full_local_file_path ≡ (none, r')
        → rem.write r p.full_remote_file_path bs ≡ (none, r')
    unfolding send
    send_whole r r' h = ground (arith, here, h)

    opened-IsDelivered :
        (o : Option Error × R) → IsDelivered p bs (remote_opened_for_writing c rem p fs o)
    unfolding remote_opened_for_writing
    opened-IsDelivered (some e, r) = inl here
    opened-IsDelivered (none, r) =
        sent-IsDelivered r (send c rem fs r p.full_remote_file_path p.full_local_file_path)
          (λ r' h. send_whole r r' h)

    created-IsDelivered : (o : Option Error × R) → IsDelivered p bs (remote_created c rem p fs o)
    unfolding remote_created
    created-IsDelivered (some e, r) = inl here
    created-IsDelivered (none, r) = opened-IsDelivered (rem.open_write r p.full_remote_file_path)

    upload_to-IsDelivered :
        (r : R) → IsDelivered p bs (upload_to c rem p (record { files = fs; remote = r }))
    unfolding upload_to
    upload_to-IsDelivered r =
        elim (Bool-cases (
          is_remote_file_exist rem r p.full_remote_file_path
          && not c.override_remote_existing_file)) [
            | inl t ↦ rw t (inl here)
            | inr t ↦ rw t (created-IsDelivered (rem.create r p.full_remote_file_path))
          ]

  -- Whatever fails, on either side, a file of the clean directory that is uploaded, and whose path
  -- in the archive is another, is still there afterwards, or the server took all of its content without an error at the file's remote path,
  -- the archive has it, and it has left the clean directory.
  pub upload_file-IsDelivered :
      (p : UploadPaths) (u : Upload R) (v bs : Text)
      → let q = set_uploader_file_paths c p v in
        q.full_archive_file_path ≢ v
        → u.files.node v ≡ some (file bs)
        → IsDelivered q bs (upload_file c rem p u v)
  unfolding upload_file set_uploader_file_paths
  upload_file-IsDelivered p u v bs apart here = go (open_read u.files v)
    where
      go :
          (o : Result Node)
          → IsDelivered (set_uploader_file_paths c p v) bs (elim o as (λ _. Upload R) [
            | err e ↦ u
            | ok n ↦ upload_to c rem (set_uploader_file_paths c p v) u
          ])
      go (err e) = inl here
      go (ok n) =
          upload_to-IsDelivered (set_uploader_file_paths c p v) bs apart u.files here u.remote
