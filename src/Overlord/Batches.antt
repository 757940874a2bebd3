-- ===== src/Overlord/Batches.antt =====
-- What scanning and moving a whole batch of files leaves of each of them, and of all other files.
use azure_s_sftp.Base.{
  ℕ, ◌≡◌, ◌≢◌, refl, sym, subst, false, ◌⊎◌, List, [], ◌∷◌, ◌++◌, map, Option, none, some, Text,
  occurs, replace_all-leading, All,
}
use azure_s_sftp.Files.{file, Files}
use azure_s_sftp.Files.Laws.{SameFile, SameFile-refl, SameFile-trans}
use azure_s_sftp.Config.Types.{ConfigService}
use azure_s_sftp.FileWatcher.Move.{move_file_between_drives}
use azure_s_sftp.FileWatcher.Frame.{move_file_between_drives-Keeps}
use azure_s_sftp.Overlord.Scans.{Services, World, process_file, process_files}
use azure_s_sftp.Overlord.Handling.{below}
use azure_s_sftp.Overlord.Homes.{home, moved_to, process_file-files}

-- The staging path does not occur again in the file's path.
abbrev pub IsOnce : ConfigService → Text → Type 0
IsOnce cs rest = occurs cs.config.staging_path rest ≡ false

-- No file is at the path.
abbrev pub IsVacant : Text → Files → Type 0
IsVacant q fs = (d : Text) → fs.node q ≢ some (file d)

-- The path of what stands below the staging directory as `rest`.
abbrev pub staged : ConfigService → Text → Text
staged cs rest = cs.config.staging_path ++ rest

module _ (sv : Services) (cs : ConfigService) where
  -- Where the content of a file of the staging directory is: still there if it has no home;
  -- otherwise at its home and no longer there, or still there since its move failed.
  abbrev pub IsPlacedAt : Option Text → Text → Text → Files → Type 0
  IsPlacedAt none rest c fs = fs.node (staged cs rest) ≡ some (file c)
  IsPlacedAt (some to) rest c fs =
      ((fs.node (to ++ rest) ≡ some (file c)) × IsVacant (staged cs rest) fs)
      ⊎ (fs.node (staged cs rest) ≡ some (file c))

  abbrev pub IsPlaced : Text → Text → Files → Type 0
  IsPlaced rest c fs = IsPlacedAt (home sv cs (staged cs rest)) rest c fs

  -- The path is neither that of the file, nor that of its home.
  abbrev pub IsElsewhere : Text → Text → Type 0
  IsElsewhere q rest =
      (q ≢ staged cs rest) × ((to : Text) → home sv cs (staged cs rest) ≡ some to → q ≢ to ++ rest)

  module _ (a : ℕ) (staging : Text) (is_staging : cs.config.staging_path ≡ a ∷ staging) where
    pub below-staged : (rest to : Text) → IsOnce cs rest → below cs (staged cs rest) to ≡ to ++ rest
    below-staged rest to once =
        rw is_staging (
          replace_all-leading a staging rest to
            (subst (λ p. occurs p rest ≡ false) is_staging once))

    pub process_file-SameFile :
        (w : World) (rest q : Text)
        → IsOnce cs rest
        → IsElsewhere q rest
        → SameFile q w.files (process_file sv cs w (staged cs rest)).files
    process_file-SameFile w rest q once (out, apart) =
        rw (process_file-files sv cs w (staged cs rest))
          (at_home (home sv cs (staged cs rest)) apart)
      where
        at_home :
            (h : Option Text)
            → ((to : Text) → h ≡ some to → q ≢ to ++ rest)
            → SameFile q w.files (moved_to sv cs (staged cs rest) w.files h)
        at_home none n = SameFile-refl q w.files
        at_home (some to) n =
            subst
              (λ dest.
                SameFile q w.files (move_file_between_drives w.files (staged cs rest) dest).1)
              (sym (below-staged rest to once))
              (move_file_between_drives-Keeps (staged cs rest) (to ++ rest) w.files q out
                (n to refl))

    -- A batch of files that are elsewhere leaves a file as it is.
    pub process_files-SameFile :
        (w : World) (rests : List Text) (q : Text)
        → All (IsOnce cs) rests
        → All (IsElsewhere q) rests
        → SameFile q w.files (process_files sv cs w (map (staged cs) rests)).files
    unfolding process_files
    process_files-SameFile w [] q once out = SameFile-refl q w.files
    process_files-SameFile w (rest ∷ rests) q once out =
        let w' = process_file sv cs w (staged cs rest) in
        SameFile-trans w.files w'.files (process_files sv cs w' (map (staged cs) rests)).files
          (process_file-SameFile w rest q once.0 out.0)
          (process_files-SameFile w' rests q once.1 out.1)
