-- ===== src/FileWatcher/Types.antt =====
-- The types of src/ssftp/filewatcher.go, and its limit on the idle time of an upload.
use azure_s_sftp.Base.{ℕ, Text}

pub record FileUploadContext : Type 0 where
  pub path : Text

-- The time and the size of `ScavengedFileProcessContext` are not read by anyone.
pub record ScavengedFileProcessContext : Type 0 where
  pub name : Text
  pub path : Text

-- `UploadTimeLimitMin` of src/ssftp/overlord.go.
abbrev pub upload_time_limit_min : ℕ
upload_time_limit_min = 120
