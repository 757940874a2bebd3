-- ===== src/Overlord/Homes.antt =====
-- Where the files of the staging directory go by the answers of clamd.
use azure_s_sftp.Base.{
  ◌≡◌, refl, ◌∙◌, ap, Bool, true, false, ◌⊎◌, inl, inr, Option, none, some, Text, codes, ◌==◌,
  if◌then◌else◌, Result, ok, err, Bool-cases, Result-cases,
}
use azure_s_sftp.Files.{Files}
use azure_s_sftp.Config.Types.{ConfigService}
use azure_s_sftp.Webhook.{Post}
use azure_s_sftp.Clamav.{ClamdResponse}
use azure_s_sftp.FileWatcher.Move.{move_file_between_drives}
use azure_s_sftp.Overlord.Scans.{Services, World, process_file}
use azure_s_sftp.Overlord.Handling.{
  answered, as_clean, below, moved, with_post, process_file-answered,
}

with_post-files : (o : Option Post) (w : World) → (with_post o w).files ≡ w.files
with_post-files none w = refl
with_post-files (some p) w = refl

module _ (sv : Services) (cs : ConfigService) where
  unfoldable pub answer_home : Result ClamdResponse → Option Text
  answer_home (err e) = none
  answer_home (ok r) =
      some (if r.status == codes "FOUND" then cs.config.quarantine_path else cs.config.clean_path)

  -- The directory that a file belongs in by the answer of clamd about it; none, if clamd cannot
  -- be asked.
  unfoldable pub home : Text → Option Text
  unfolding answer_home
  home path =
      if cs.config.enable_virus_scan then answer_home (sv.clamd path) else some cs.config.clean_path

  abbrev pub moved_to : Text → Files → Option Text → Files
  moved_to path fs none = fs
  moved_to path fs (some to) = (move_file_between_drives fs path (below cs path to)).1

  answered-files :
      (w : World) (path : Text) (r : Result ClamdResponse)
      → (answered sv cs w path r).files ≡ moved_to path w.files (answer_home r)
  unfolding answer_home
  answered-files w path (err e) = refl
  answered-files w path (ok r) = elim (Bool-cases (r.status == codes "FOUND")) [
    | inl y ↦ rw y (with_post-files _ (moved path (below cs path cs.config.quarantine_path) w))
    | inr n ↦ rw n
  ]

  pub process_file-files :
      (w : World) (path : Text)
      → (process_file sv cs w path).files ≡ moved_to path w.files (home path)
  unfolding home
  process_file-files w path =
      ap (λ v. v.files) (process_file-answered sv cs w path)
      ∙ by_setting cs.config.enable_virus_scan
    where
      by_setting :
          (enabled : Bool)
          → (if enabled then answered sv cs w path (sv.clamd path) else as_clean sv cs w path).files
            ≡ moved_to path w.files
                (if enabled then answer_home (sv.clamd path) else some cs.config.clean_path)
      by_setting true = answered-files w path (sv.clamd path)
      by_setting false = refl

  pub home_cases :
      (path : Text)
      → (home path ≡ none)
        ⊎ ((home path ≡ some cs.config.quarantine_path) ⊎ (home path ≡ some cs.config.clean_path))
  unfolding home answer_home
  home_cases path = elim (Bool-cases cs.config.enable_virus_scan) [
    | inr off ↦ inr (inr (rw off))
    | inl on ↦ elim (Result-cases (sv.clamd path)) [
      | inr (e, h) ↦ inl (rw (on, h))
      | inl (r, h) ↦ elim (Bool-cases (r.status == codes "FOUND")) [
        | inl y ↦ inr (inl (rw (on, h, y)))
        | inr n ↦ inr (inr (rw (on, h, n)))
      ]
    ]
  ]
