-- ===== src/Clamav.antt =====
-- src/ssftp/clamav.go: a file is scanned by clamd and the answer put into the program's terms. The
-- client of clamd is github.com/dutchcoders/go-clamd: a parameter that gives, for a path, a
-- response or an error.
use azure_s_sftp.Base.{Bool, true, false, Text, codes, ◌==◌, if◌then◌else◌, Result, ok, err, Error}

-- `OK`, `Virus` and `Error`.
pub data ScanStatus : Type 0 where
  clean virus error : ScanStatus

pub record ClamAvScanResult : Type 0 where
  pub file_path : Text
  pub message : Text
  pub status : ScanStatus
  pub virus_found : Bool
  pub is_error : Bool

-- The fields of clamd's response that are read.
pub record ClamdResponse : Type 0 where
  pub status : Text
  pub raw : Text

unfoldable pub convert_clamd_status_to_local_enum : Text → ScanStatus × Bool
convert_clamd_status_to_local_enum status =
    if status == codes "OK"
    then (ScanStatus.clean, false)
    else if status == codes "FOUND"
    then (ScanStatus.virus, true)
    else if status == codes "ERROR"
    then (ScanStatus.error, false)
    else (ScanStatus.error, false)

module _ (error_text : Error → Text) where
  unfoldable pub scanned : Text → Result ClamdResponse → ClamAvScanResult
  scanned path (err e) =
      let (status, vf) = convert_clamd_status_to_local_enum (codes "ERROR") in
      record {
        file_path = path;
        message = error_text e;
        status = status;
        virus_found = vf;
        is_error = true;
      }
  scanned path (ok result) =
      let (status, vf) = convert_clamd_status_to_local_enum result.status in
      record {
        file_path = path;
        message = result.raw;
        status = status;
        virus_found = vf;
        is_error = false;
      }

  -- The result that `ScanFile` sends on its channel.
  unfoldable pub scan_file : (Text → Result ClamdResponse) → Text → Bool → ClamAvScanResult
  unfolding scanned
  scan_file clamd path enable_virus_scan =
      if enable_virus_scan
      then scanned path (clamd path)
      else let (status, vf) = convert_clamd_status_to_local_enum (codes "OK") in
        record {
          file_path = path;
          message = codes "ClamAV scan disabled in config";
          status = status;
          virus_found = false;
          is_error = false;
        }
