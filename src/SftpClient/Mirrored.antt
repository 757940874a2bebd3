-- ===== src/SftpClient/Mirrored.antt =====
-- Where an uploaded file goes.
use azure_s_sftp.Base.{
  ℕ, ◌≡◌, refl, sym, ◌∙◌, ap, true, List, [], ◌∷◌, ◌++◌, append-nil, Text, All, All-append,
  has_prefix-append, replace_first, drop-append,
}
use azure_s_sftp.FilePath.{
  slash, split_slash, join_slash, is_abs, push_all, push, clean, join, base, split_dir,
}
use azure_s_sftp.FilePath.Segments.{
  IsName, split_slash-append, push_all-append, split_slash_single, push_all_names,
}
use azure_s_sftp.FilePath.Clean.{
  rooted, clean_abs, push_all_joined, push_all-rooted, join_slash-append, join_name,
}
use azure_s_sftp.FilePath.Parts.{dir_of_snoc, base_of_snoc}
use mathlib.Core.List.{reverse, reverse-append, reverse-reverse}
use azure_s_sftp.SftpClient.{UploaderConfig, UploadPaths, set_uploader_file_paths}

replace_first_prefix :
    (a : ℕ) (p s new : Text) → replace_first ((a ∷ p) ++ s) (a ∷ p) new ≡ new ++ s
unfolding replace_first
replace_first_prefix a p s new =
    rw (has_prefix-append (a ∷ p) s) (ap (λ t. new ++ t) (drop-append (a ∷ p) s))

-- The path of sub-directories, empty if there are none.
abbrev pub below_path : List Text → Text
below_path [] = []
below_path (y ∷ s) = rooted (y ∷ s)

rooted_below :
    (x : Text) (r ds : List Text) → rooted ((x ∷ r) ++ ds) ≡ rooted (x ∷ r) ++ below_path ds
unfolding join_slash
rooted_below x r [] = ap rooted (append-nil (x ∷ r)) ∙ sym (append-nil (rooted (x ∷ r)))
rooted_below x r (y ∷ s) = ap (λ t. slash ∷ t) (join_slash-append x r y s)

below_stack :
    (ds stack : List Text)
    → All IsName ds
    → push_all true (split_slash (below_path ds)) stack ≡ reverse ds ++ stack
unfolding push_all push split_slash
below_stack [] stack h = refl
below_stack (y ∷ s) stack h = push_all-rooted (y ∷ s) stack h

join_below :
    (bs : List Text) (l : Text) (ds : List Text)
    → All IsName bs
    → IsName l
    → All IsName ds
    → join (rooted bs ∷ l ∷ below_path ds ∷ []) ≡ rooted ((bs ++ (l ∷ [])) ++ ds)
unfolding join join_slash is_abs
join_below bs l ds hb hl hd =
    clean_abs (rooted bs ++ (slash ∷ (l ++ (slash ∷ below_path ds)))) refl
    ∙ (ap (λ ys. rooted (reverse ys))
          (push_all_joined bs (l ++ (slash ∷ below_path ds)) hb
            ∙ (ap (λ ys. push_all true ys (reverse bs)) (split_slash-append l (below_path ds))
                ∙ (push_all-append true (split_slash l) (split_slash (below_path ds)) (reverse bs)
                    ∙ (below_stack ds _ hd
                        ∙ ap (λ ys. reverse ds ++ ys)
                            (ap (λ ys. push_all true ys (reverse bs))
                                (split_slash_single l hl.no_slash)
                              ∙ (push_all_names true (l ∷ []) (reverse bs) (hl, tt)
                                  ∙ sym (reverse-append bs (l ∷ []))))))))
        ∙ ap rooted (
            ap reverse (sym (reverse-append (bs ++ (l ∷ [])) ds))
            ∙ reverse-reverse ((bs ++ (l ∷ [])) ++ ds)))

module _ (c : UploaderConfig) (p : UploadPaths) (x : Text) (r bs rs ds : List Text) (name : Text)
    (is_upload_dir : p.full_local_clean_upload_dir ≡ rooted (x ∷ r))
    (is_archive : p.archive_base_dir ≡ rooted bs) (is_remote : p.full_remote_dir ≡ rooted rs)
    (names : All IsName (x ∷ r)) (archive_names : All IsName bs) (remote_names : All IsName rs)
    (sub_names : All IsName ds) (local_name : IsName c.local_directory_to_upload)
    (file_name : IsName name) where
  upload_path : Text
  upload_path = rooted (((x ∷ r) ++ ds) ++ (name ∷ []))

  is_base : base upload_path ≡ name
  unfolding upload_path
  is_base = base_of_snoc x (r ++ ds) name file_name

  is_sub_dirs :
      replace_first (clean (split_dir upload_path)) p.full_local_clean_upload_dir [] ≡ below_path ds
  unfolding upload_path
  is_sub_dirs =
      ap (λ t. replace_first t p.full_local_clean_upload_dir [])
        (dir_of_snoc x (r ++ ds) name (All-append IsName (x ∷ r) ds names sub_names) file_name
          ∙ rooted_below x r ds)
      ∙ (ap (λ t. replace_first (rooted (x ∷ r) ++ below_path ds) t []) is_upload_dir
          ∙ replace_first_prefix slash (join_slash (x ∷ r)) (below_path ds) [])

  is_archive_dir :
      join (p.archive_base_dir ∷ c.local_directory_to_upload ∷ below_path ds ∷ [])
      ≡ rooted ((bs ++ (c.local_directory_to_upload ∷ [])) ++ ds)
  is_archive_dir =
      ap (λ t. join (t ∷ c.local_directory_to_upload ∷ below_path ds ∷ [])) is_archive
      ∙ join_below bs c.local_directory_to_upload ds archive_names local_name sub_names

  -- With clean rooted paths for the directory to upload, which is not the root, for the archive and
  -- for the remote directory, and with names for the configured directory, the sub-directories and
  -- the file: a file found in sub-directories of the directory to upload is archived in the same
  -- sub-directories of that directory's archive, under its name. On the server it goes, whatever
  -- sub-directories it was in, into the remote directory itself, so files of one name meet there.
  set_uploader_file_paths_lem :
      let q = set_uploader_file_paths c p (rooted (((x ∷ r) ++ ds) ++ (name ∷ []))) in
      (q.full_archive_file_path
        ≡ rooted (((bs ++ (c.local_directory_to_upload ∷ [])) ++ ds) ++ (name ∷ [])))
      × (q.full_remote_file_path ≡ rooted (rs ++ (name ∷ [])))
  unfolding set_uploader_file_paths upload_path
  set_uploader_file_paths_lem = (
    ap
          (λ t. join (
            join (p.archive_base_dir ∷ c.local_directory_to_upload ∷ t ∷ [])
            ∷ base upload_path
            ∷ []))
          is_sub_dirs
        ∙ (ap (λ t. join (t ∷ base upload_path ∷ [])) is_archive_dir
            ∙ (ap (λ t. join (rooted ((bs ++ (c.local_directory_to_upload ∷ [])) ++ ds) ∷ t ∷ []))
                  is_base
                ∙ join_name ((bs ++ (c.local_directory_to_upload ∷ [])) ++ ds) name
                    (All-append IsName (bs ++ (c.local_directory_to_upload ∷ [])) ds
                      (All-append IsName bs _ archive_names (local_name, tt)) sub_names)
                    file_name)),
    ap (λ t. join (p.full_remote_dir ∷ t ∷ [])) is_base
        ∙ (ap (λ t. join (t ∷ name ∷ [])) is_remote ∙ join_name rs name remote_names file_name),
  )
