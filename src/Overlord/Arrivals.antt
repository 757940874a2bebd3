-- ===== src/Overlord/Arrivals.antt =====
-- When a scanned file reaches its directory.
use azure_s_sftp.Base.{ℕ, ◌≡◌, ◌≢◌, ◌∙◌, ap, true, ◌∷◌, ◌++◌, none, some, Text, Apart, Apart-append}
use azure_s_sftp.FilePath.{dir}
use azure_s_sftp.Files.{folder, file, parent_exists, ancestors}
use azure_s_sftp.Files.Laws.{IsFaultless}
use azure_s_sftp.Config.Types.{ConfigService}
use azure_s_sftp.FileWatcher.Move.{move_file_between_drives}
use azure_s_sftp.FileWatcher.Frame.{move_file_between_drives_works}
use azure_s_sftp.Overlord.Scans.{Services, World, process_file}
use azure_s_sftp.Overlord.Homes.{home, moved_to, process_file-files}
use azure_s_sftp.Overlord.Batches.{staged, IsOnce, below-staged}

module _ (sv : Services) (cs : ConfigService) (a : ℕ) (staging : Text)
    (is_staging : cs.config.staging_path ≡ a ∷ staging) where
  -- A file of the staging directory for which clamd's answer, or the setting, names a directory
  -- arrives there, with its content, and leaves the staging directory. This holds when the path of
  -- the staging directory does not occur again in the file's path below it, neither that path nor
  -- that of the directory it goes to is a beginning of the other, no call of the file system meets
  -- an error beyond those that the tree gives rise to, the directory of its destination is there,
  -- and its destination is not a directory itself.
  pub process_file_arrives :
      (w : World) (rest to c : Text)
      → IsOnce cs rest
      → home sv cs (staged cs rest) ≡ some to
      → Apart to cs.config.staging_path
      → IsFaultless w.files
      → w.files.node (staged cs rest) ≡ some (file c)
      → w.files.node (dir (to ++ rest)) ≡ some folder
      → parent_exists w.files (ancestors (to ++ rest)) ≡ true
      → w.files.node (to ++ rest) ≢ some folder
      → let fs = (process_file sv cs w (staged cs rest)).files in
        (fs.node (to ++ rest) ≡ some (file c)) × (fs.node (staged cs rest) ≡ none)
  process_file_arrives w rest to c once at apart clear here folder_there parent free =
      let src = staged cs rest in
      let files = process_file-files sv cs w src ∙ ap (moved_to sv cs src w.files) at in
      let moved =
        move_file_between_drives_works src (to ++ rest) w.files c
          (Apart-append to cs.config.staging_path rest rest apart) clear here folder_there parent
          free in
      let there : moved_to sv cs src w.files (some to)
          ≡ (move_file_between_drives w.files src (to ++ rest)).1 =
        ap (λ dest. (move_file_between_drives w.files src dest).1)
          (below-staged sv cs a staging is_staging rest to once) in
      rw (files, there) (moved.1, moved.2)
