-- ===== src/FileWatcher/Upload.antt =====
-- Which files of the staging directory are still being uploaded: `checkScavengedFilesUploadState`
-- and the functions that it calls.
use azure_s_sftp.Base.{
  ℕ, ◌-◌, ◌/◌, Bool, true, false, not, List, [], ◌∷◌, ◌++◌, map, Option, none, some, Text, ◌==◌,
  leb, if◌then◌else◌, Error, Result, ok, err, ℤ, pos, negsuc, minus,
}
use azure_s_sftp.Server.{Server, File}
use azure_s_sftp.FileWatcher.Types.{FileUploadContext, upload_time_limit_min}

-- What the check reads of the world, in nanoseconds: the clock at the time when a path is looked
-- at, and the modification time that `os.Stat` gives for it, or its error.
pub record Times : Type 0 where
  pub now : Text → ℕ
  pub mod_time : Text → Result ℕ

abbrev pub minute : ℕ
minute = 60000000000

-- `int(time.Since(t).Minutes())`, rounded towards zero; negative for a time to come.
unfoldable pub upload_time_duration_mins : ℕ → ℕ → ℤ
upload_time_duration_mins now t =
    if leb t now then pos ((now - t) / minute) else minus ((t - now) / minute)

abbrev pub reaches_limit : ℤ → Bool
reaches_limit (pos n) = leb upload_time_limit_min n
reaches_limit (negsuc n) = false

-- The time that `fileModTime` returns, which is the present on an error.
unfoldable pub file_mod_time : Times → Text → ℕ × Option Error
file_mod_time t p = elim (t.mod_time p) [ ok m ↦ (m, none) | err e ↦ (t.now p, some e) ]

unfoldable pub is_scavenged_file_in_open_file_list : Text → List File → Bool
is_scavenged_file_in_open_file_list sfile [] = false
is_scavenged_file_in_open_file_list sfile (o ∷ opens) =
    let rest = is_scavenged_file_in_open_file_list sfile opens in
    if o.name == sfile then true else rest

-- The results of `isSFTPOpenFileTimeup`, without the time as a text.
pub record Timeup : Type 0 where
  pub file : Option File
  pub is_timeup : Bool
  pub dur_min : ℤ
  pub error : Option Error

unfoldable pub open_file_timeup : ℕ → File → ℕ × Option Error → Timeup
unfolding upload_time_duration_mins
open_file_timeup now o (m, some e) = record {
  file = some o;
  is_timeup = false;
  dur_min = pos 0;
  error = some e;
}
open_file_timeup now o (m, none) =
    let dur_min = upload_time_duration_mins now m in
    record { file = some o; is_timeup = reaches_limit dur_min; dur_min = dur_min; error = none }

unfoldable pub is_sftp_open_file_timeup : Times → Text → List File → Timeup
unfolding open_file_timeup file_mod_time upload_time_duration_mins
is_sftp_open_file_timeup t scavenged_file [] =
    let (m, e) = file_mod_time t scavenged_file in
    record {
      file = none;
      is_timeup = false;
      dur_min = upload_time_duration_mins (t.now scavenged_file) m;
      error = e;
    }
is_sftp_open_file_timeup t scavenged_file (o ∷ opens) =
    let rest = is_sftp_open_file_timeup t scavenged_file opens in
    if scavenged_file == o.name
    then open_file_timeup (t.now scavenged_file) o (file_mod_time t o.name)
    else rest

-- The files that are handed on, and the open files that are closed on the way.
abbrev pub Checked : Type 0
Checked = List FileUploadContext × List File

abbrev close_into : Option File → List File → List File
close_into none closed = closed
close_into (some o) closed = o ∷ closed

-- What the loop does with a file that is open.
unfoldable pub check_open : FileUploadContext → Timeup → Checked → Checked
check_open f r (handed, closed) = elim r.error [
  | some e ↦ (handed, closed)
  | none ↦ if r.is_timeup then (f ∷ handed, close_into r.file closed) else (handed, closed)
]

unfoldable pub check_files : Times → List File → List FileUploadContext → Checked
unfolding is_scavenged_file_in_open_file_list is_sftp_open_file_timeup check_open
check_files t opens [] = ([], [])
check_files t opens (f ∷ files) =
    let (handed, closed) = check_files t opens files in
    if is_scavenged_file_in_open_file_list f.path opens
    then check_open f (is_sftp_open_file_timeup t f.path opens) (handed, closed)
    else (f ∷ handed, closed)

abbrev pub is_empty {ℓ} : {A : Type ℓ} → List A → Bool
is_empty [] = true
is_empty (x ∷ xs) = false

-- The files to hand on, whether there are any, and the open files that are closed.
unfoldable pub check_scavenged_files_upload_state :
    Times → List File → List FileUploadContext → List FileUploadContext × Bool × List File
unfolding check_files
check_scavenged_files_upload_state t opens files =
    let (handed, closed) = check_files t opens files in
    if is_empty opens then (files, true, []) else (handed, not (is_empty handed), closed)

-- The open files of all sessions. Go walks through a map in any order; here it is the order of
-- the association list.
unfoldable pub get_sftp_open_files : List Server → List File
get_sftp_open_files [] = []
get_sftp_open_files (v ∷ servers) = map (λ (h, o). o) v.open_files ++ get_sftp_open_files servers
