-- ===== src/Overlord/Changes.antt =====
-- How the configuration gets into the running program, and how a change of its file does:
-- `main` (src/ssftp/main.go), `NewOverlord` and `watchConfigFileChanges` (src/ssftp/overlord.go),
-- `registerConfigFileChangeEvent` (src/ssftp/filewatcher.go).
use azure_s_sftp.Base.{
  Bool, true, false, ◌&&◌, not, List, [], ◌∷◌, Option, none, some, Text, ◌==◌, if◌then◌else◌,
  Result,
}
use azure_s_sftp.User.{UserGov, new_user_gov, set_users}
use azure_s_sftp.Config.Types.{
  SsftpYaml, ConfigService, new_config_service, system_config_file_name,
}
use azure_s_sftp.Config.Load.{load_yaml_config}
use azure_s_sftp.SftpClient.Clients.{SftpClient, new_sftp_clients}

-- The fields of `Overlord` that the configuration decides. The accounts are those that the SFTP
-- service checks logins against: both hold the same pointer.
pub record Overlord : Type 0 where
  pub confsvc : ConfigService
  pub usergov : UserGov
  pub sftpclients : List SftpClient

-- `NewOverlord`, which calls `NewSFTPClients`.
unfoldable pub new_overlord : ConfigService → UserGov → Overlord
new_overlord cs ug = record { confsvc = cs; usergov = ug; sftpclients = new_sftp_clients cs.config }

-- An event of github.com/radovskyb/watcher, with its operation as far as it is told apart.
pub data WatchOp : Type 0 where
  create write other : WatchOp

pub record WatchEvent : Type 0 where
  pub is_dir : Bool
  pub op : WatchOp
  pub name : Text

abbrev is_create_or_write : WatchOp → Bool
is_create_or_write WatchOp.other = false
is_create_or_write _ = true

unfoldable pub is_config_change : WatchEvent → Bool
unfolding ◌==◌
is_config_change e =
    not e.is_dir && (is_create_or_write e.op && (system_config_file_name == e.name))

-- The case of `watchConfigFileChanges`, once the configuration is loaded.
unfoldable pub config_changed : Overlord → ConfigService → Overlord
config_changed ol cs = record {
  confsvc = cs;
  usergov = set_users ol.usergov cs.config.users;
  sftpclients = new_sftp_clients cs.config;
}

abbrev changed : Overlord → Option ConfigService → Option Overlord
changed ol none = none
changed ol (some cs) = some (config_changed ol cs)

module _ (url_parses : Text → Bool) (env : Text) where
  -- `main`, for what the rounds of the loader find in the file; `none` while it waits for a valid
  -- configuration.
  unfoldable pub start : List (Result SsftpYaml) → Option Overlord
  start rounds = elim (load_yaml_config url_parses env new_config_service rounds) [
    | none ↦ none
    | some cs ↦ some (new_overlord cs (new_user_gov cs.config.users))
  ]

  -- An event of the watched file, with what the rounds of the loader find; `none` while the
  -- watcher waits for a valid configuration.
  unfoldable pub register_config_file_change_event :
      Overlord → WatchEvent → List (Result SsftpYaml) → Option Overlord
  register_config_file_change_event ol e rounds =
      if is_config_change e
      then changed ol (load_yaml_config url_parses env ol.confsvc rounds)
      else some ol

  -- The events one after the other, each with its rounds.
  unfoldable pub watch : Overlord → List (WatchEvent × List (Result SsftpYaml)) → Option Overlord
  watch ol [] = some ol
  watch ol ((e, rounds) ∷ events) = elim (register_config_file_change_event ol e rounds) [
    | none ↦ none
    | some ol' ↦ watch ol' events
  ]
