-- ===== src/Tests/Accounts.antt =====
-- Accounts and configurations at concrete data.
use azure_s_sftp.Base.{
  List, Result, ◌≡◌, ◌↔◌, refl, true, false, [], ◌∷◌, ◌++◌, none, some, codes, ◌==◌, All, arith,
  Error, ok, err,
}
use azure_s_sftp.User.{User, UserGov, new_user_gov, no_user, auth_pass, auth_public_key}
use azure_s_sftp.User.Auth.{
  PassOutcome, KeyOutcome, auth_pass-PassOutcome, auth_public_key-KeyOutcome,
}
use azure_s_sftp.Config.Types.{SsftpYaml, empty_config, new_config_service}
use azure_s_sftp.Config.Validator.{new_config_validator, validate}
use azure_s_sftp.Config.Valid.{IsWellFormed}
use azure_s_sftp.Config.Accepts.{with_port, validate-IsWellFormed}
use azure_s_sftp.Config.Load.{load_yaml_config}
use azure_s_sftp.Config.Loaded.{schema_config, Fails, load_yaml_config_first}
use azure_s_sftp.SftpClient.Clients.{new_sftp_clients}
use azure_s_sftp.Overlord.Changes.{
  Overlord, WatchEvent, WatchOp, is_config_change, new_overlord, start,
  register_config_file_change_event, watch,
}
use azure_s_sftp.Overlord.InForce.{InForce, watch-start-InForce, change_in_force}

abbrev alice : User
alice = record {
  jail_directory = codes "alice";
  readonly = false;
  auth = record {
    username = codes "alice";
    password = codes "secret";
    public_key = codes "ssh-rsa A";
  };
  is_clean_dir_user = false;
}

abbrev gov : UserGov
gov = record { users = alice ∷ [] }

auth_pass-PassOutcome_example :
    PassOutcome
      (codes "alice")
      (codes "secret")
      (alice ∷ [])
      (auth_pass gov (codes "alice") (codes "secret"))
auth_pass-PassOutcome_example = auth_pass-PassOutcome gov (codes "alice") (codes "secret")

auth_pass_run :
    (auth_pass gov (codes "alice") (codes "secret") ≡ (alice, true))
    × (auth_pass gov (codes "alice") (codes "wrong") ≡ (no_user, false))
unfolding auth_pass ◌==◌
auth_pass_run = (refl, refl)

auth_public_key-KeyOutcome_example :
    KeyOutcome
      (λ t. ok t)
      (λ k. k)
      (codes "alice")
      (codes "ssh-rsa A")
      (alice ∷ [])
      (auth_public_key (λ t. ok t) (λ k. k) gov (codes "alice") (codes "ssh-rsa A"))
auth_public_key-KeyOutcome_example =
    auth_public_key-KeyOutcome (λ t. ok t) (λ k. k) gov (codes "alice") (codes "ssh-rsa A")

abbrev yaml : SsftpYaml
yaml = record {
  sftp_port = 0;
  enable_virus_scan = true;
  enable_file_scavenging = true;
  enable_sftp_client_downloader = false;
  enable_sftp_client_uploader = false;
  log_dests = [];
  staging_dir_users = alice ∷ [];
  clean_dir_users = [];
  webhooks = record { name = codes "virusFound"; url = codes "http://hook" } ∷ [];
  client_downloaders = [];
  client_uploaders = [];
}

-- The user of the staging directory has no password.
abbrev bad_yaml : SsftpYaml
bad_yaml = record yaml { staging_dir_users = no_user ∷ [] }

validate-IsWellFormed_example :
    let (cv, msg, accepted) = validate (λ u. true) (new_config_validator empty_config) in
    ((accepted ≡ true) ↔ IsWellFormed (λ u. true) empty_config)
    × (cv.config ≡ with_port empty_config)
validate-IsWellFormed_example = validate-IsWellFormed (λ u. true) empty_config

yaml-IsWellFormed : IsWellFormed (λ u. true) (schema_config [] yaml)
unfolding schema_config
yaml-IsWellFormed = ground arith

bad_yaml-Fails : All (Fails (λ u. true) []) (err Error.eof ∷ ok bad_yaml ∷ [])
unfolding schema_config
bad_yaml-Fails = (tt, (λ w. w.users.0.0 refl, tt))

-- The event of a file of that name that was written.
abbrev written : WatchEvent
written = record { is_dir = false; op = WatchOp.write; name = codes "ssftp.yaml" }

-- The program as it runs on a configuration.
abbrev overlord_on : SsftpYaml → Overlord
overlord_on y =
    let c = with_port (schema_config [] y) in
    record {
      confsvc = record { config = c; valid = true };
      usergov = new_user_gov c.users;
      sftpclients = new_sftp_clients c;
    }

loaded :
    load_yaml_config (λ u. true) [] new_config_service (ok yaml ∷ [])
    ≡ some (record { config = with_port (schema_config [] yaml); valid = true })
loaded = load_yaml_config_first (λ u. true) [] new_config_service [] [] yaml tt yaml-IsWellFormed

started : start (λ u. true) [] (ok yaml ∷ []) ≡ some (overlord_on yaml)
unfolding start new_overlord
started = rw (loaded, start) refl

abbrev other_yaml : SsftpYaml
other_yaml = record yaml { sftp_port = 22 }

other_yaml-IsWellFormed : IsWellFormed (λ u. true) (schema_config [] other_yaml)
unfolding schema_config
other_yaml-IsWellFormed = ground arith

change_in_force_example :
    (register_config_file_change_event
        (λ u. true)
        []
        (overlord_on yaml)
        written
        (err Error.eof ∷ ok bad_yaml ∷ [])
      ≡ none)
    × (register_config_file_change_event
          (λ u. true)
          []
          (overlord_on yaml)
          written
          ((err Error.eof ∷ ok bad_yaml ∷ []) ++ (ok other_yaml ∷ ok bad_yaml ∷ []))
        ≡ some (overlord_on other_yaml))
change_in_force_example =
    change_in_force (λ u. true) [] (overlord_on yaml) written (err Error.eof ∷ ok bad_yaml ∷ [])
      (ok bad_yaml ∷ []) other_yaml (unfold is_config_change in refl) bad_yaml-Fails
      other_yaml-IsWellFormed

abbrev changes : List (WatchEvent × List (Result SsftpYaml))
changes = (written, (err Error.eof ∷ ok bad_yaml ∷ []) ++ (ok other_yaml ∷ ok bad_yaml ∷ [])) ∷ []

watched : watch (λ u. true) [] (overlord_on yaml) changes ≡ some (overlord_on other_yaml)
unfolding watch
watched = rw (change_in_force_example.1, watch) refl

watch-start-InForce_example : InForce (λ u. true) [] (overlord_on other_yaml)
watch-start-InForce_example =
    watch-start-InForce (λ u. true) [] (ok yaml ∷ []) changes (overlord_on yaml)
      (overlord_on other_yaml) started watched
