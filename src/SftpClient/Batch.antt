-- ===== src/SftpClient/Batch.antt =====
-- A run over several files: no upload loses the content of another file.
use azure_s_sftp.Base.{
  ◌++◌, ◌≡◌, ◌≢◌, refl, ◌∙◌, not, ◌&&◌, ◌⊎◌, inl, inr, List, [], ◌∷◌, Option, none, some, Text,
  Error, Result, ok, err, is_not_exist, Bool-cases, Option-cases, All,
}
use azure_s_sftp.Files.{Node, folder, file, FileCall, Files, put, create, copy, remove, open_read}
use azure_s_sftp.Files.Laws.{put_ne, create-WritesOrFails, remove-WritesOrFails}
use azure_s_sftp.FileWatcher.Move.{copied, copy_from, removed}
use azure_s_sftp.SftpClient.{
  UploaderConfig, UploadPaths, Remote, is_dir_file_exist, ensure_dir, is_remote_file_exist,
  set_uploader_file_paths,
}
use azure_s_sftp.SftpClient.Upload.{
  archive_created, archive_opened, move_uploaded_file_from_clean_to_archive, Upload, send, sent,
  remote_opened_for_writing, remote_created, upload_to, upload_file, upload_loop,
}
use azure_s_sftp.SftpClient.Uploads.{ensure_dir_kept, upload_file-IsDelivered}

module _ (src dest q : Text) (not_src : src ≢ q) (not_dest : dest ≢ q) where
  copy_apart : (fs : Files) → (copy fs dest src).1.node q ≡ fs.node q
  unfolding copy
  copy_apart fs = elim (Option-cases (fs.node src)) [
    | inl h ↦ rw (h, copy)
    | inr (folder, h) ↦ rw (h, copy)
    | inr (file c, h) ↦ elim (Option-cases (fs.fault (FileCall.on_copy dest src))) [
      | inl g ↦ rw (h, g, copy) (put_ne fs dest q _ not_dest)
      | inr (e, g) ↦ rw (h, g, copy) (put_ne fs dest q _ not_dest)
    ]
  ]

  copy_from_apart :
      (fs : Files) (source : Result Node) → (copy_from fs dest src source).1.node q ≡ fs.node q
  unfolding copy_from
  copy_from_apart fs (ok n) = copy_apart fs
  copy_from_apart fs (err e) = refl

  removed_apart : (fs : Files) → (removed (remove fs src)).1.node q ≡ fs.node q
  unfolding removed
  removed_apart fs = elim (remove-WritesOrFails fs src) [
    | inl (e, h) ↦ rw h
    | inr h ↦ rw h (put_ne fs src q none not_src)
  ]

  copied_apart : (r : Result (Unit {0}) × Files) → (copied src r).1.node q ≡ r.1.node q
  unfolding copied
  copied_apart (ok u, fs) = removed_apart fs
  copied_apart (err e, fs) = refl

  created_apart :
      (fs : Files) (source : Result Node)
      → (archive_created src dest source (create fs dest)).1.node q ≡ fs.node q
  unfolding archive_created
  created_apart fs source = elim (create-WritesOrFails fs dest) [
    | inl (e, h) ↦ rw h
    | inr h ↦ rw h (
        copied_apart (copy_from (put fs dest (some (file []))) dest src source)
        ∙ (copy_from_apart (put fs dest (some (file []))) source ∙ put_ne fs dest q _ not_dest))
  ]

  opened_apart :
      (fs : Files) (source : Result Node) → (archive_opened fs src dest source).1.node q ≡ fs.node q
  unfolding archive_opened
  opened_apart fs (ok n) = created_apart fs (ok n)
  opened_apart fs (err e) = elim (Bool-cases (is_not_exist e)) [
    | inl t ↦ rw t
    | inr t ↦ rw t (created_apart fs (err e))
  ]

-- What is at a path that is neither the file nor its place in the archive stays there.
move_kept :
    (p : UploadPaths) (q : Text) (n : Node)
    → p.full_local_file_path ≢ q
    → p.full_archive_file_path ≢ q
    → (fs : Files) → fs.node q ≡ some n
    → (move_uploaded_file_from_clean_to_archive p fs).1.node q ≡ some n
unfolding move_uploaded_file_from_clean_to_archive
move_kept p q n s d fs h =
    let fs' = ensure_dir fs p.full_archive_dir in
    let still = ensure_dir_kept fs p.full_archive_dir q n h in
    elim (Bool-cases (is_dir_file_exist fs' p.full_local_file_path)) [
      | inr t ↦ rw t still
      | inl t ↦ rw t (
          opened_apart p.full_local_file_path p.full_archive_file_path q s d fs'
            (open_read fs' p.full_local_file_path)
          ∙ still)
    ]

module _ (c : UploaderConfig) {R : Type 0} (rem : Remote R) where
  module _ (p : UploadPaths) (q : Text) (n : Node) (not_src : p.full_local_file_path ≢ q)
      (not_dest : p.full_archive_file_path ≢ q) (fs : Files) (h : fs.node q ≡ some n) where
    sent_kept : (o : Option Error × R) → (sent c rem p fs o).files.node q ≡ some n
    unfolding sent
    sent_kept (some e, r) = h
    sent_kept (none, r) = move_kept p q n not_src not_dest fs h

    opened_kept :
        (o : Option Error × R) → (remote_opened_for_writing c rem p fs o).files.node q ≡ some n
    unfolding remote_opened_for_writing
    opened_kept (some e, r) = h
    opened_kept (none, r) =
        sent_kept (send c rem fs r p.full_remote_file_path p.full_local_file_path)

    created_kept : (o : Option Error × R) → (remote_created c rem p fs o).files.node q ≡ some n
    unfolding remote_created
    created_kept (some e, r) = h
    created_kept (none, r) = opened_kept (rem.open_write r p.full_remote_file_path)

    upload_to_kept :
        (r : R) → (upload_to c rem p (record { files = fs; remote = r })).files.node q ≡ some n
    unfolding upload_to
    upload_to_kept r =
        elim (Bool-cases (
          is_remote_file_exist rem r p.full_remote_file_path
          && not c.override_remote_existing_file)) [
            | inl t ↦ rw t h
            | inr t ↦ rw t (created_kept (rem.create r p.full_remote_file_path))
          ]

  module _ (p : UploadPaths) where
    -- Where a file goes in the archive.
    abbrev pub archived : Text → Text
    archived v = (set_uploader_file_paths c p v).full_archive_file_path

    upload_file_kept :
        (u : Upload R) (v q : Text) (n : Node)
        → v ≢ q
        → archived v ≢ q
        → u.files.node q ≡ some n
        → (upload_file c rem p u v).files.node q ≡ some n
    unfolding upload_file set_uploader_file_paths
    upload_file_kept u v q n s d h = go (open_read u.files v)
      where
        go :
            (o : Result Node)
            → (elim o as (λ _. Upload R) [
              | err e ↦ u
              | ok m ↦ upload_to c rem (set_uploader_file_paths c p v) u
            ]).files.node
                q
              ≡ some n
        go (err e) = h
        go (ok m) = upload_to_kept (set_uploader_file_paths c p v) q n s d u.files h u.remote

    -- The uploads of the other files do not touch the path.
    abbrev pub IsApart : Text → List Text → Type 0
    IsApart q = All (λ v. (v ≢ q) × (archived v ≢ q))

    loop_kept :
        (u : Upload R) (vs : List Text) (q : Text) (n : Node)
        → IsApart q vs
        → u.files.node q ≡ some n
        → (upload_loop c rem p u vs).files.node q ≡ some n
    unfolding upload_loop
    loop_kept u [] q n a h = h
    loop_kept u (v ∷ vs) q n a h =
        loop_kept (upload_file c rem p u v) vs q n a.1 (upload_file_kept u v q n a.0.0 a.0.1 h)

    after_own :
        (u : Upload R) (after : List Text) (v bs : Text)
        → archived v ≢ v
        → IsApart v after
        → IsApart (archived v) after
        → u.files.node v ≡ some (file bs)
        → let u' = upload_loop c rem p (upload_file c rem p u v) after in
          (u'.files.node v ≡ some (file bs)) ⊎ (u'.files.node (archived v) ≡ some (file bs))
    unfolding set_uploader_file_paths
    after_own u after v bs n a b h = elim (upload_file-IsDelivered c rem p u v bs n h) [
      | inl still ↦ inl (loop_kept (upload_file c rem p u v) after v (file bs) a still)
      | inr m ↦ inr (loop_kept (upload_file c rem p u v) after (archived v) (file bs) b m.2)
    ]

    -- Whatever fails, on either side, a run over the files to upload loses the content of none: it
    -- is where it was, or at the file's place in the archive, which is another path. This holds of
    -- each file that no other file to upload and no other's place in the archive is equal to, and
    -- whose own place in the archive none of those that come after it meets.
    pub upload_loop_keeps :
        (u : Upload R) (before after : List Text) (v bs : Text)
        → archived v ≢ v
        → IsApart v before
        → IsApart v after
        → IsApart (archived v) after
        → u.files.node v ≡ some (file bs)
        → let u' = upload_loop c rem p u (before ++ (v ∷ after)) in
          (u'.files.node v ≡ some (file bs)) ⊎ (u'.files.node (archived v) ≡ some (file bs))
    unfolding upload_loop
    upload_loop_keeps u [] after v bs n x a b h = after_own u after v bs n a b h
    upload_loop_keeps u (w ∷ before) after v bs n x a b h =
        upload_loop_keeps (upload_file c rem p u w) before after v bs n x.1 a b
          (upload_file_kept u w v (file bs) x.0.0 x.0.1 h)
