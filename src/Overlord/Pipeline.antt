-- ===== src/Overlord/Pipeline.antt =====
-- The goroutines that carry a batch of files from the file watcher through the overlord and the
-- scanner: `notifyOverlordProcessScavengedFiles`, the select loop of `Overlord.Start`, and a
-- goroutine of `ScanFile` for each file. The channels have no buffer, so a send and its receive
-- are one step.
use azure_s_sftp.Base.{◌≡◌, List, [], ◌∷◌, ◌++◌, Text}
use azure_s_sftp.Clamav.{scan_file}
use azure_s_sftp.Config.Types.{ConfigService}
use azure_s_sftp.Overlord.Scans.{Services, World, handle_scan}

-- Where the file watcher stands: before sending the first of the files left, waiting for
-- `ScanDone`, or behind `BatchedScavengedFilesProcessDone`.
pub data Watcher : Type 0 where
  sending : List Text → Watcher
  awaiting : Text → List Text → Watcher
  finished : Watcher

-- The overlord waits in its select, or has handled a result and sends on `ScanDone`.
pub data Loop : Type 0 where
  selecting signalling : Loop

pub record Pipeline : Type 0 where
  pub watcher : Watcher
  pub loop : Loop
  -- The files whose `ScanFile` has been started and has not sent its result.
  pub scanning : List Text
  pub world : World

unfoldable pub start : List Text → World → Pipeline
start files w = record { watcher = sending files; loop = selecting; scanning = []; world = w }

module _ (sv : Services) (cs : ConfigService) where
  pub data Step (s : Pipeline) (t : Pipeline) : Type 0 where
    -- `fileCreateChangeEvent`: the overlord starts a scan.
    pick :
        (path : Text) (rest : List Text)
        → s.watcher ≡ sending (path ∷ rest)
        → s.loop ≡ selecting
        → t ≡ record s { watcher = awaiting path rest; scanning = path ∷ s.scanning }
        → Step s t
    -- `scanEvent`: a scanner sends its result, and the overlord handles it.
    result :
        (before : List Text) (path : Text) (after : List Text)
        → s.scanning ≡ before ++ (path ∷ after)
        → s.loop ≡ selecting
        → t ≡ record s {
          loop = signalling;
          scanning = before ++ after;
          world =
              handle_scan sv cs s.world
                (scan_file sv.error_text sv.clamd path cs.config.enable_virus_scan);
        }
        → Step s t
    -- `ScanDone`
    scan_done :
        (path : Text) (rest : List Text)
        → s.watcher ≡ awaiting path rest
        → s.loop ≡ signalling
        → t ≡ record s { watcher = sending rest; loop = selecting }
        → Step s t
    -- `BatchedScavengedFilesProcessDone`
    batch_done : s.watcher ≡ sending [] → t ≡ record s { watcher = finished } → Step s t

  pub data Reach (s : Pipeline) : Pipeline → Type 0 where
    here : Reach s s
    next : {t u : Pipeline} → Reach s t → Step t u → Reach s u
