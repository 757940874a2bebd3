-- ===== src/Config/Load.antt =====
-- The loader of src/ssftp/config.go: what one round does to the service, and the rounds until one
-- of them succeeds; the lookups of a log property and of a webhook.
use azure_s_sftp.Base.{
  Bool, true, false, List, [], ◌∷◌, ◌++◌, map, Option, none, some, Text, codes, ◌==◌, if◌then◌else◌,
  Result, ok, err,
}
use azure_s_sftp.User.{User}
use azure_s_sftp.Config.Types.{
  Webhook, LogDest, SsftpYaml, Config, ConfigService, system_config_path, staging_path,
  upload_archive_base_path, clean_path, quarantine_path,
}
use azure_s_sftp.Config.Validator.{new_config_validator, validate}

-- `os.Getenv("env") == "dev"`
abbrev pub is_dev : Text → Bool
is_dev env = env == codes "dev"

unfoldable pub get_yaml_config_path : Text → Text
get_yaml_config_path env =
    if is_dev env
    then codes "/mnt/c/weixian/projects/Azure-Scanned-File-Transfer/src/ssftp/ssftp.yaml"
    else system_config_path

abbrev pub as_clean_dir_user : User → User
as_clean_dir_user v = record v { is_clean_dir_user = true }

-- The first loop, and the second one, which marks the users of the clean directory.
unfoldable pub merge_staging_clean_dir_users : SsftpYaml → List User
merge_staging_clean_dir_users y = y.staging_dir_users ++ map as_clean_dir_user y.clean_dir_users

unfoldable pub set_paths : Text → Config → Config
set_paths env c =
    if is_dev env
    then record c {
      staging_path = codes "/mnt/c/ssftp/staging";
      local_remote_upload_archive_base_path = codes "/mnt/c/ssftp/uploadarchive";
      clean_path = codes "/mnt/c/ssftp/clean";
      quarantine_path = codes "/mnt/c/ssftp/quarantine";
    }
    else record c {
      staging_path = staging_path;
      local_remote_upload_archive_base_path = upload_archive_base_path;
      clean_path = clean_path;
      quarantine_path = quarantine_path;
    }

-- The assignments under the lock.
unfoldable pub copy_schema : SsftpYaml → Config → Config
unfolding merge_staging_clean_dir_users
copy_schema y c = record c {
  sftp_port = y.sftp_port;
  webhooks = y.webhooks;
  log_dests = y.log_dests;
  enable_file_scavenging = y.enable_file_scavenging;
  enable_sftp_client_downloader = y.enable_sftp_client_downloader;
  enable_sftp_client_uploader = y.enable_sftp_client_uploader;
  enable_virus_scan = y.enable_virus_scan;
  users = merge_staging_clean_dir_users y;
  client_downloaders = y.client_downloaders;
  client_uploaders = y.client_uploaders;
}

module _ (url_parses : Text → Bool) (env : Text) where
  -- The service after the validation, which has put the default port into the configuration.
  judge : ConfigService → Config → ConfigService × Bool
  judge cs c =
      let (cv, messages, accepted) = validate url_parses (new_config_validator c) in
      (record cs { config = cv.config; valid = accepted }, accepted)

  -- One round of the loop on what reading and parsing the file gave: the service after it, and
  -- whether the loop ends.
  unfoldable pub load_round : ConfigService → Result SsftpYaml → ConfigService × Bool
  unfolding judge
  load_round cs (err e) = (record cs { valid = false }, false)
  load_round cs (ok y) =
      judge (record cs { valid = false }) (copy_schema y (set_paths env cs.config))

  -- The rounds of `LoadYamlConfig`, for what each of them finds in the file; `none` if none of
  -- them ends the loop.
  unfoldable pub load_yaml_config : ConfigService → List (Result SsftpYaml) → Option ConfigService
  load_yaml_config cs [] = none
  load_yaml_config cs (r ∷ rs) =
      let (cs', done) = load_round cs r in
      elim done [ true ↦ some cs' | false ↦ load_yaml_config cs' rs ]

log_dest_prop : Text → Text → List LogDest → Text
log_dest_prop kind prop [] = []
log_dest_prop kind prop (v ∷ vs) =
    let rest = log_dest_prop kind prop vs in if v.kind == kind then v.properties prop else rest

unfoldable pub get_log_dest_prop : ConfigService → Text → Text → Text
unfolding log_dest_prop
get_log_dest_prop cs kind prop = log_dest_prop kind prop cs.config.log_dests

web_hook : Text → List Webhook → Text
web_hook kind [] = []
web_hook kind (v ∷ vs) = let rest = web_hook kind vs in if v.name == kind then v.url else rest

unfoldable pub get_web_hook : ConfigService → Text → Text
unfolding web_hook
get_web_hook cs kind = web_hook kind cs.config.webhooks
