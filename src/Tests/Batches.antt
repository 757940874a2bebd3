-- ===== src/Tests/Batches.antt =====
-- Batches of the staging directory at concrete data.
use azure_s_sftp.Base.{
  ◌≡◌, ◌<◌, refl, true, false, ◌⊎◌, List, [], ◌∷◌, ◌++◌, none, some, Text, codes, ◌==◌, ◌*◌,
  ne_of_eq_false, All, ok, occurs, if◌then◌else◌,
}
use azure_s_sftp.FilePath.{ext}
use azure_s_sftp.Files.{folder, file, Files}
use azure_s_sftp.Server.{Server, File}
use azure_s_sftp.Config.Types.{
  Config, ConfigService, empty_config, staging_path, clean_path, quarantine_path,
}
use azure_s_sftp.Clamav.{ClamAvScanResult, ScanStatus}
use azure_s_sftp.FileWatcher.Upload.{
  Times, minute, get_sftp_open_files, check_scavenged_files_upload_state,
}
use azure_s_sftp.FileWatcher.Scavenge.{
  Visit, batch, walk, handed_on, is_scavenged_file_download_state, scavenge_round,
}
use azure_s_sftp.FileWatcher.Ready.{
  is_idle, settled_candidates, scavenge_round-batch, scavenge_round_hands_on,
}
use azure_s_sftp.FileWatcher.Move.{move_file_by_status}
use azure_s_sftp.FileWatcher.Destination.{move_file_by_status-target}
use azure_s_sftp.Overlord.Scans.{Services, World, process_file, process_files}
use azure_s_sftp.Overlord.Pipeline.{
  Pipeline, sending, awaiting, finished, selecting, signalling, start, Step, pick, result,
  scan_done, batch_done, Reach, here, next,
}
use azure_s_sftp.Overlord.Refines.{steps_left, Reach-process_files, Reach-advances, Reach-shrinks}

abbrev upload : Text
upload = codes "/mnt/ssftp/staging/a/x.txt"

abbrev files : Files
files = record {
  node = λ p. if p == upload then some (file (codes "hi")) else some folder;
  fault = λ c. none;
  partial = λ t. [];
}

abbrev config : Config
config = record empty_config {
  enable_virus_scan = true;
  enable_file_scavenging = true;
  staging_path = staging_path;
  clean_path = clean_path;
  quarantine_path = quarantine_path;
}

abbrev service : ConfigService
service = record { config = config; valid = true }

abbrev infected : ClamAvScanResult
infected = record {
  file_path = upload;
  message = codes "Eicar FOUND";
  status = ScanStatus.virus;
  virus_found = true;
  is_error = false;
}

move_file_by_status-target_example :
    let (dest, fs') = move_file_by_status config files infected in
    (dest ≡ codes "/mnt/ssftp/quarantine" ++ codes "/a/x.txt")
    × ((fs'.node upload ≡ some (file (codes "hi")))
        ⊎ ((fs'.node dest ≡ some (file (codes "hi"))) × (fs'.node upload ≡ none)))
unfolding ◌==◌ occurs
move_file_by_status-target_example =
    move_file_by_status-target config infected 47 (codes "mnt/ssftp/staging") (codes "/a/x.txt")
      refl refl refl (ne_of_eq_false quarantine_path staging_path refl) files (codes "hi") refl

abbrev visits : List Visit
visits =
    record { path = codes "/mnt/ssftp/staging/a"; is_dir = true; error = none }
    ∷ record { path = upload; is_dir = false; error = none }
    ∷ record { path = codes "/mnt/ssftp/staging/a/y.download"; is_dir = false; error = none }
    ∷ []

abbrev times : Times
times = record { now = λ p. 200 * minute; mod_time = λ p. ok (80 * minute) }

-- A session has the file open, and it was written two hours ago.
abbrev server : Server
server = record {
  read_only = false;
  open_files = (codes "1", record { name = upload; fd = 4 }) ∷ [];
  handle_count = 1;
  user = record {
    jail_directory = codes "a";
    readonly = false;
    auth = record { username = codes "a"; password = codes "b"; public_key = [] };
    is_clean_dir_user = false;
  };
  jail_path = staging_path;
  calls = [];
}

round_run :
    scavenge_round service visits none times (server ∷ [])
    ≡ batch (record { path = upload } ∷ []) (record { name = upload; fd = 4 } ∷ [])
unfolding scavenge_round walk handed_on check_scavenged_files_upload_state get_sftp_open_files ◌==◌
    ext
round_run = refl

scavenge_round-batch_example :
    (service.valid ≡ true)
    × (config.enable_file_scavenging ≡ true)
    × ((record { path = upload } ∷ []) ≡ settled_candidates service visits times (server ∷ []))
    × All {A = File} (λ o. is_idle times o.name ≡ true) (record { name = upload; fd = 4 } ∷ [])
scavenge_round-batch_example =
    scavenge_round-batch service visits times (server ∷ []) none (record { path = upload } ∷ [])
      (record { name = upload; fd = 4 } ∷ []) round_run

scavenge_round_hands_on_example :
    (closed : List File) × (scavenge_round service visits none times (server ∷ [])
      ≡ batch (settled_candidates service visits times (server ∷ [])) closed)
unfolding get_sftp_open_files is_scavenged_file_download_state ◌==◌ ext
scavenge_round_hands_on_example =
    scavenge_round_hands_on service visits times (server ∷ []) refl refl refl

-- clamd answers that every file has a virus.
abbrev services : Services
services = record {
  url_parses = λ u. true;
  error_text = λ e. [];
  clamd = λ p. ok (record { status = codes "FOUND"; raw = codes "Eicar FOUND" });
}

abbrev world : World
world = record { files = files; posts = [] }

abbrev p0 : Pipeline
p0 = start (upload ∷ []) world

abbrev p1 : Pipeline
p1 = record p0 { watcher = awaiting upload []; scanning = upload ∷ [] }

abbrev p2 : Pipeline
p2 = record p1 {
  loop = signalling;
  scanning = [];
  world = process_file services service world upload;
}

abbrev p3 : Pipeline
p3 = record p2 { watcher = sending []; loop = selecting }

abbrev p4 : Pipeline
p4 = record p3 { watcher = finished }

picked : Reach services service p0 p1
unfolding start
picked = next here (pick upload [] refl refl refl)

whole_batch : Reach services service p0 p4
unfolding start process_file
whole_batch =
    next
      (next (next picked (result [] upload [] refl refl refl)) (scan_done upload [] refl refl refl))
      (batch_done refl refl)

Reach-process_files_example :
    (p4.world ≡ process_files services service world (upload ∷ [])) × (p4.scanning ≡ [])
Reach-process_files_example =
    Reach-process_files services service (upload ∷ []) world p4 whole_batch refl

Reach-advances_example : (p1.watcher ≡ finished) ⊎ ((t : Pipeline) × Step services service p1 t)
Reach-advances_example = Reach-advances services service (upload ∷ []) world p1 picked

Reach-shrinks_example : steps_left p1 < steps_left p0
unfolding start
Reach-shrinks_example =
    Reach-shrinks services service (upload ∷ []) world p0 p1 here (pick upload [] refl refl refl)
