-- ===== src/Tests/Rounds.antt =====
-- A round of the file watcher at concrete data.
use azure_s_sftp.Base.{
  ◌*◌, ◌≡◌, refl, true, false, List, [], ◌∷◌, ◌++◌, none, some, Text, codes, ◌==◌, ne_of_eq_false,
  ok, err, sym, Error, occurs, has_prefix, if◌then◌else◌,
}
use azure_s_sftp.FilePath.{dir, ext}
use azure_s_sftp.Files.{folder, file, Files, parent_exists, ancestors}
use azure_s_sftp.Server.{Server}
use azure_s_sftp.Config.Types.{
  Config, ConfigService, empty_config, staging_path, clean_path, quarantine_path,
}
use azure_s_sftp.FileWatcher.Upload.{
  Times, minute, get_sftp_open_files, check_scavenged_files_upload_state,
}
use azure_s_sftp.FileWatcher.Scavenge.{Visit, batch, walk, handed_on, scavenge_round}
use azure_s_sftp.Overlord.Scans.{Services, World, process_file, handle_scan}
use azure_s_sftp.Clamav.{scan_file, scanned}
use azure_s_sftp.Overlord.Pipeline.{
  Pipeline, finished, selecting, start, pick, result, scan_done, batch_done, Reach, here, next,
}
use azure_s_sftp.Overlord.Homes.{home}
use azure_s_sftp.Overlord.Batches.{staged}
use azure_s_sftp.Overlord.Rounds.{open_file_stays}
use azure_s_sftp.Overlord.Sent.{IsSeen, directories, IsPlacedBy}
use azure_s_sftp.Overlord.Turns.{Turns, round, begun, taken, HasSent, Turns-IsPlacedBy}
use azure_s_sftp.Overlord.Arrivals.{process_file_arrives}

abbrev shut : Text
shut = codes "/a/x.txt"

abbrev uploading : Text
uploading = codes "/a/y.txt"

abbrev config : Config
config = record empty_config {
  enable_virus_scan = true;
  enable_file_scavenging = true;
  staging_path = staging_path;
  clean_path = clean_path;
  quarantine_path = quarantine_path;
}

abbrev service : ConfigService
service = record { config = config; valid = true }

-- Two files of the staging directory; all other paths are directories, but for the place that the
-- first goes to.
abbrev files : Files
files = record {
  node = λ p.
      if p == staged service shut
      then some (file (codes "one"))
      else if p == staged service uploading
      then some (file (codes "two"))
      else if p == clean_path ++ shut
      then none
      else some folder;
  fault = λ c. none;
  partial = λ t. [];
}

abbrev visits_before : List Visit
visits_before = record { path = codes "/mnt/ssftp/staging/a"; is_dir = true; error = none } ∷ []

abbrev visit : Visit
visit = record { path = staged service shut; is_dir = false; error = none }

abbrev visits_after : List Visit
visits_after = record { path = staged service uploading; is_dir = false; error = none } ∷ []

abbrev times : Times
times = record { now = λ p. 100 * minute; mod_time = λ p. ok (80 * minute) }

-- A session has the second file open.
abbrev server : Server
server = record {
  read_only = false;
  open_files = (codes "1", record { name = staged service uploading; fd = 4 }) ∷ [];
  handle_count = 1;
  user = record {
    jail_directory = codes "a";
    readonly = false;
    auth = record { username = codes "a"; password = codes "b"; public_key = [] };
    is_clean_dir_user = false;
  };
  jail_path = staging_path;
  calls = [];
}

round_run :
    scavenge_round service (visits_before ++ (visit ∷ visits_after)) none times (server ∷ [])
    ≡ batch (record { path = staged service shut } ∷ []) []
unfolding scavenge_round walk handed_on check_scavenged_files_upload_state get_sftp_open_files ◌==◌
    ext
round_run = refl

-- clamd answers that every file is clean.
abbrev services : Services
services = record {
  url_parses = λ u. true;
  error_text = λ e. [];
  clamd = λ p. ok (record { status = codes "OK"; raw = codes "OK" });
}

abbrev world : World
world = record { files = files; posts = [] }

abbrev at_end : Pipeline
at_end = record {
  watcher = finished;
  loop = selecting;
  scanning = [];
  world = process_file services service world (staged service shut);
}

whole_round : Reach services service (start (staged service shut ∷ []) world) at_end
unfolding start process_file
whole_round =
    next
      (next
        (next (next here (pick (staged service shut) [] refl refl refl))
          (result [] (staged service shut) [] refl refl refl))
        (scan_done (staged service shut) [] refl refl refl))
      (batch_done refl refl)

visits-IsSeen : IsSeen service world (visits_before ++ (visit ∷ visits_after))
unfolding ◌==◌ occurs has_prefix
visits-IsSeen = (
  ((codes "/a", refl, refl), ((shut, refl, refl), ((uploading, refl, refl), tt))),
  (
    (
      ne_of_eq_false (codes "/mnt/ssftp/staging/a") (staged service shut) refl,
      (ne_of_eq_false (codes "/mnt/ssftp/staging/a") (staged service uploading) refl, tt),
    ),
    ((ne_of_eq_false (staged service shut) (staged service uploading) refl, tt), (tt, tt)),
  ),
  (λ e. absurd (cc), ((λ e. (codes "one", refl)), ((λ e. (codes "two", refl)), tt))),
)

-- clamd cannot be asked, and another port is configured.
abbrev silent : Services
silent = record services { clamd = λ p. err Error.eof }

abbrev earlier : ConfigService
earlier = record { config = record config { sftp_port = 23 }; valid = true }

earlier-IsSeen : IsSeen earlier world (visits_before ++ (visit ∷ visits_after))
unfolding ◌==◌ occurs has_prefix
earlier-IsSeen = (
  ((codes "/a", refl, refl), ((shut, refl, refl), ((uploading, refl, refl), tt))),
  (
    (
      ne_of_eq_false (codes "/mnt/ssftp/staging/a") (staged service shut) refl,
      (ne_of_eq_false (codes "/mnt/ssftp/staging/a") (staged service uploading) refl, tt),
    ),
    ((ne_of_eq_false (staged service shut) (staged service uploading) refl, tt), (tt, tt)),
  ),
  (λ e. absurd (cc), ((λ e. (codes "one", refl)), ((λ e. (codes "two", refl)), tt))),
)

abbrev tried : World
tried = process_file silent earlier world (staged service shut)

abbrev tried_end : Pipeline
tried_end = record { watcher = finished; loop = selecting; scanning = []; world = tried }

first_run :
    scavenge_round earlier (visits_before ++ (visit ∷ visits_after)) none times (server ∷ [])
    ≡ batch (record { path = staged service shut } ∷ []) []
unfolding scavenge_round walk handed_on check_scavenged_files_upload_state get_sftp_open_files ◌==◌
    ext
first_run = refl

first_round : Reach silent earlier (start (staged service shut ∷ []) world) tried_end
unfolding start process_file
first_round =
    next
      (next
        (next (next here (pick (staged service shut) [] refl refl refl))
          (result [] (staged service shut) [] refl refl refl))
        (scan_done (staged service shut) [] refl refl refl))
      (batch_done refl refl)

tried_same : tried ≡ world
unfolding process_file scan_file handle_scan scanned
tried_same = refl

-- A round in which clamd is silent, and one in which it answers.
abbrev history : Turns (directories service) shut world at_end.world
history =
    taken
      (taken begun (
        round silent earlier (visits_before ++ (visit ∷ visits_after)) none times (server ∷ [])
          (record { path = staged service shut } ∷ []) [] tried_end refl earlier-IsSeen first_run
          first_round refl (sym tried_same)))
      (round services service (visits_before ++ (visit ∷ visits_after)) none times (server ∷ [])
        (record { path = staged service shut } ∷ []) [] at_end refl visits-IsSeen round_run
        whole_round refl refl)

Turns-IsPlacedBy_example :
    IsPlacedBy
      (directories service)
      (HasSent (directories service) shut history)
      shut
      (codes "one")
      at_end.world.files
unfolding ◌==◌ has_prefix
Turns-IsPlacedBy_example =
    Turns-IsPlacedBy (directories service) 47 (codes "mnt/ssftp/staging") refl
      ((refl, refl), (refl, refl), (refl, refl)) shut (codes "one") world at_end.world history refl

open_file_stays_example :
    at_end.world.files.node (staged service uploading) ≡ some (file (codes "two"))
unfolding get_sftp_open_files ◌==◌ occurs has_prefix
open_file_stays_example =
    open_file_stays services service 47 (codes "mnt/ssftp/staging") refl
      ((refl, refl), (refl, refl), (refl, refl)) times (server ∷ [])
      (visits_before ++ (visit ∷ visits_after)) none (record { path = staged service shut } ∷ []) []
      world at_end uploading (codes "two")
      ((codes "/a", refl, refl), ((shut, refl, refl), ((uploading, refl, refl), tt))) round_run
      whole_round refl refl refl refl

process_file_arrives_example :
    let fs = (process_file services service world (staged service shut)).files in
    (fs.node (clean_path ++ shut) ≡ some (file (codes "one")))
    × (fs.node (staged service shut) ≡ none)
unfolding home ◌==◌ occurs has_prefix dir parent_exists ancestors
process_file_arrives_example =
    process_file_arrives services service 47 (codes "mnt/ssftp/staging") refl world shut clean_path
      (codes "one") refl refl (refl, refl) (λ c. refl) refl refl refl (cc)
