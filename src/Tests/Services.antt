-- ===== src/Tests/Services.antt =====
-- The service and its sessions at concrete data.
use azure_s_sftp.Base.{
  ℕ, ◌≡◌, refl, true, false, not, [], ◌∷◌, ◌++◌, none, Text, codes, ◌==◌, eqb, select, All, Result,
  ok,
}
use azure_s_sftp.Files.{Files}
use azure_s_sftp.User.{User, UserGov, auth_pass}
use azure_s_sftp.Server.{new_server}
use azure_s_sftp.Config.Types.{Config, empty_config, staging_path, clean_path}
use azure_s_sftp.Service.{Session, Service, remove_server, Ended}
use azure_s_sftp.Service.Removal.{remove_server_lem}
use azure_s_sftp.Service.Logins.{password, channel, ended, users_loaded, step, run}
use azure_s_sftp.Service.Users.{IsOpened, channel_of_last_login, run-IsOpened}

abbrev named : Text → User
named n = record {
  jail_directory = n;
  readonly = true;
  auth = record { username = n; password = codes "pw"; public_key = [] };
  is_clean_dir_user = false;
}

abbrev files : Files
files = record { node = λ p. none; fault = λ c. none; partial = λ t. t }

abbrev gov : UserGov
gov = record { users = named (codes "alice") ∷ named (codes "bob") ∷ [] }

abbrev config : Config
config = record empty_config { staging_path = staging_path; clean_path = clean_path }

abbrev service : Service
service = record { usrgov = gov; login_user = named []; servers = []; made = 0; files = files }

abbrev parse : Text → Result Text
parse t = ok t

abbrev same : Text → Text
same t = t

bob_logs_in : auth_pass gov (codes "bob") (codes "pw") ≡ (named (codes "bob"), true)
unfolding auth_pass ◌==◌
bob_logs_in = refl

-- Alice has logged in over connection 1 before, and bob over connection 2: the channel of
-- connection 1 gets bob's session.
abbrev after_alice : Service
after_alice = run parse same config service (password 1 (codes "alice") (codes "pw") ∷ [])

channel_of_last_login_example :
    let before =
      run parse same config service
        (password 2 (codes "bob") (codes "pw") ∷ users_loaded [] ∷ ended 0 Ended.at_eof ∷ []) in
    (step parse same config before (channel 1 (codes "session"))).servers
    ≡ before.servers
      ++ (record { id = before.made; server = new_server (named (codes "bob")) staging_path } ∷ [])
channel_of_last_login_example =
    channel_of_last_login parse same config service 2 1 (codes "bob") (codes "pw")
      (named (codes "bob")) (users_loaded [] ∷ ended 0 Ended.at_eof ∷ []) bob_logs_in (tt, (tt, tt))

run-IsOpened_example :
    All
      (IsOpened config)
      (run parse same config service
        (channel 1 (codes "session") ∷ ended 0 Ended.at_eof ∷ [])).servers
run-IsOpened_example =
    run-IsOpened parse same config service (channel 1 (codes "session") ∷ ended 0 Ended.at_eof ∷ [])
      tt

abbrev session : ℕ → Session
session n = record { id = n; server = new_server (named (codes "alice")) staging_path }

remove_server_lem_example :
    remove_server (session 1 ∷ session 2 ∷ session 3 ∷ []) 2
    ≡ session 1 ∷ select (λ s. not (eqb s.id 2)) (session 2 ∷ session 3 ∷ [])
remove_server_lem_example = remove_server_lem (session 1) (session 2 ∷ session 3 ∷ []) 2
