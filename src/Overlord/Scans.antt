-- ===== src/Overlord/Scans.antt =====
-- What the loop of `Overlord.Start` does with the result of a scan.
use azure_s_sftp.Base.{
  Bool, List, [], ◌∷◌, ◌++◌, Option, none, some, Text, if◌then◌else◌, Error, Result,
}
use azure_s_sftp.Files.{Files}
use azure_s_sftp.Clamav.{ClamAvScanResult, ClamdResponse, scan_file}
use azure_s_sftp.Config.Types.{ConfigService, virus_found_webhook}
use azure_s_sftp.Config.Load.{get_web_hook}
use azure_s_sftp.FileWatcher.Move.{move_file_by_status}
use azure_s_sftp.Webhook.{Post, call_virus_found_webhook}

-- What the outside of a file system is asked: whether a text is an address, how an error reads,
-- and what clamd answers about a path.
pub record Services : Type 0 where
  pub url_parses : Text → Bool
  pub error_text : Error → Text
  pub clamd : Text → Result ClamdResponse

-- The file system and the requests that were posted, the latest last.
pub record World : Type 0 where
  pub files : Files
  pub posts : List Post

abbrev pub posted : List Post → Option Post → List Post
posted ps none = ps
posted ps (some p) = ps ++ (p ∷ [])

module _ (sv : Services) (cs : ConfigService) where
  -- The webhook of a virus is called with the path that the file was moved to.
  report : Text × Files → ClamAvScanResult → World → World
  report (dest, fs) r w =
      let url = get_web_hook cs virus_found_webhook in
      let post =
        call_virus_found_webhook sv.url_parses url
          (record { username = []; scan_message = r.message; file_path = dest }) in
      record { files = fs; posts = if r.virus_found then posted w.posts post else w.posts }

  -- The case of `scanEvent`, up to the signal on `ScanDone`.
  unfoldable pub handle_scan : World → ClamAvScanResult → World
  unfolding report
  handle_scan w r = if r.is_error then w else report (move_file_by_status cs.config w.files r) r w

  -- A file is scanned, and the result handled.
  unfoldable pub process_file : World → Text → World
  unfolding handle_scan
  process_file w path =
      handle_scan w (scan_file sv.error_text sv.clamd path cs.config.enable_virus_scan)

  unfoldable pub process_files : World → List Text → World
  process_files w [] = w
  process_files w (path ∷ paths) = process_files (process_file w path) paths
