-- ===== src/FileWatcher/Destination.antt =====
-- A scanned file keeps its place below the directory that it is moved to.
use azure_s_sftp.Base.{
  ℕ, ◌≡◌, ◌≢◌, sym, ◌∙◌, ap, false, ◌⊎◌, inl, inr, ◌∷◌, ◌++◌, none, some, Text, occurs, replace_all,
  replace_all-leading, if◌then◌else◌, Bool-cases,
}
use mathlib.Core.List.{append_cancel_right}
use azure_s_sftp.Files.{file, Files}
use azure_s_sftp.Config.Types.{Config}
use azure_s_sftp.Clamav.{ClamAvScanResult}
use azure_s_sftp.FileWatcher.Move.{destination, move_file_by_status}
use azure_s_sftp.FileWatcher.Moved.{move_file_between_drives-IsSafe}

-- The directory that files with such a scan result belong in.
abbrev pub target : Config → ClamAvScanResult → Text
target c r = if r.virus_found then c.quarantine_path else c.clean_path

module _ (c : Config) (r : ClamAvScanResult) (a : ℕ) (staging rest : Text)
    (is_staging : c.staging_path ≡ a ∷ staging) (in_staging : r.file_path ≡ (a ∷ staging) ++ rest)
    (once : occurs (a ∷ staging) rest ≡ false) where
  replaced : (to : Text) → replace_all r.file_path c.staging_path to ≡ to ++ rest
  replaced to = rw (is_staging, in_staging) (replace_all-leading a staging rest to once)

  pub destination-target : destination c r ≡ target c r ++ rest
  unfolding destination
  destination-target = elim (Bool-cases r.virus_found) [
    | inl y ↦ rw y (replaced c.quarantine_path)
    | inr n ↦ rw n (replaced c.clean_path)
  ]

  apart : target c r ≢ c.staging_path → destination c r ≢ r.file_path
  apart n e = n (
      append_cancel_right (target c r) c.staging_path rest
        (sym destination-target ∙ (e ∙ (in_staging ∙ ap (λ t. t ++ rest) (sym is_staging)))))

  -- A file of the staging directory is moved to the same place below the quarantine directory if a
  -- virus was found, below the clean directory if not, provided that these are not the staging
  -- directory and that the staging path does not occur again in the file's path. Its content is
  -- not lost, whatever fails: it is there and the file has left the staging directory, or the
  -- file is still where it was.
  pub move_file_by_status-target :
      target c r ≢ c.staging_path
      → (fs : Files) (content : Text) → fs.node r.file_path ≡ some (file content)
      → let (dest, fs') = move_file_by_status c fs r in
        (dest ≡ target c r ++ rest)
        × ((fs'.node r.file_path ≡ some (file content))
            ⊎ ((fs'.node dest ≡ some (file content)) × (fs'.node r.file_path ≡ none)))
  unfolding move_file_by_status
  move_file_by_status-target n fs content h = (
    destination-target,
    elim (move_file_between_drives-IsSafe r.file_path (destination c r) content (apart n) fs h) [
      | inl still ↦ inl still
      | inr moved ↦ inr (moved.1, moved.2)
    ],
  )
