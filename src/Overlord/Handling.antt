-- ===== src/Overlord/Handling.antt =====
-- What becomes of a file by the answer of the scanner.
use azure_s_sftp.Base.{
  ◌≡◌, refl, List, Bool, true, false, inl, inr, [], ◌∷◌, ◌++◌, Option, none, some, Text, codes,
  ◌==◌, eq_iff, replace_all, if◌then◌else◌, Result, ok, err, arith, Bool-cases,
}
use azure_s_sftp.Files.{Files}
use azure_s_sftp.Clamav.{ClamdResponse, convert_clamd_status_to_local_enum, scanned, scan_file}
use azure_s_sftp.Config.Types.{ConfigService, virus_found_webhook}
use azure_s_sftp.Config.Load.{get_web_hook}
use azure_s_sftp.FileWatcher.Move.{destination, move_file_between_drives, move_file_by_status}
use azure_s_sftp.Webhook.{Post, call_virus_found_webhook}
use azure_s_sftp.Overlord.Scans.{Services, World, handle_scan, process_file, process_files, posted}

-- The path of a file below another directory.
abbrev pub below : ConfigService → Text → Text → Text
below cs path to = replace_all path cs.config.staging_path to

abbrev pub moved : Text → Text → World → World
moved path dest w = record w { files = (move_file_between_drives w.files path dest).1 }

-- A post is added, if there is one.
abbrev pub with_post : Option Post → World → World
with_post none w = w
with_post (some p) w = record w { posts = w.posts ++ (p ∷ []) }

finds_virus :
    (status : Text) → (convert_clamd_status_to_local_enum status).1 ≡ (status == codes "FOUND")
unfolding convert_clamd_status_to_local_enum ◌==◌
finds_virus status = ground (arith, eq_iff status (codes "OK"), eq_iff status (codes "ERROR"))

posted-with_post :
    (o : Option Post) (fs : Files) (w : World)
    → record { files = fs; posts = posted w.posts o } ≡ with_post o (record w { files = fs })
posted-with_post none fs w = refl
posted-with_post (some p) fs w = refl

module _ (sv : Services) (cs : ConfigService) where
  abbrev pub as_clean : World → Text → World
  as_clean w path = moved path (below cs path cs.config.clean_path) w

  abbrev pub as_virus : World → Text → Text → World
  as_virus w path message =
      let dest = below cs path cs.config.quarantine_path in
      with_post
        (call_virus_found_webhook sv.url_parses (get_web_hook cs virus_found_webhook)
          (record { username = []; scan_message = message; file_path = dest }))
        (moved path dest w)

  -- What the answer of clamd leads to.
  abbrev pub answered : World → Text → Result ClamdResponse → World
  answered w path (err e) = w
  answered w path (ok r) =
      if r.status == codes "FOUND" then as_virus w path r.raw else as_clean w path

  handle-answered :
      (w : World) (path : Text) (r : Result ClamdResponse)
      → handle_scan sv cs w (scanned sv.error_text path r) ≡ answered w path r
  unfolding handle_scan scanned move_file_by_status destination
  handle-answered w path (err e) = refl
  handle-answered w path (ok r) = elim (Bool-cases (r.status == codes "FOUND")) [
    | inl y ↦
        rw (finds_virus r.status, y)
          (posted-with_post
            (call_virus_found_webhook sv.url_parses (get_web_hook cs virus_found_webhook) (record {
              username = [];
              scan_message = r.raw;
              file_path = below cs path cs.config.quarantine_path;
            }))
            (move_file_between_drives w.files path (below cs path cs.config.quarantine_path)).1 w)
    | inr n ↦ rw (finds_virus r.status, n)
  ]

  by_setting :
      (w : World) (path : Text) (enabled : Bool)
      → handle_scan sv cs w (scan_file sv.error_text sv.clamd path enabled)
        ≡ (if enabled then answered w path (sv.clamd path) else as_clean w path)
  unfolding scan_file handle_scan move_file_by_status destination
  by_setting w path true = handle-answered w path (sv.clamd path)
  by_setting w path false = refl

  -- Nothing is done about a file that clamd cannot be asked about. For one that clamd answers
  -- `FOUND` about the move to the quarantine directory is tried, and the webhook of a virus called
  -- with the new path and the answer. For every other answer, also `ERROR`, and when the scan is
  -- switched off, the move to the clean directory is tried.
  pub process_file-answered :
      (w : World) (path : Text)
      → process_file sv cs w path
        ≡ (if cs.config.enable_virus_scan then answered w path (sv.clamd path) else as_clean w path)
  unfolding process_file
  process_file-answered w path = by_setting w path cs.config.enable_virus_scan

  pub process_files-append :
      (w : World) (done rest : List Text)
      → process_files sv cs w (done ++ rest) ≡ process_files sv cs (process_files sv cs w done) rest
  unfolding process_files
  process_files-append w [] rest = refl
  process_files-append w (p ∷ done) rest = process_files-append (process_file sv cs w p) done rest
