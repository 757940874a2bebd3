-- ===== src/Overlord/InForce.antt =====
-- One configuration is in force in all parts of the program.
use azure_s_sftp.Base.{
  some_injective, none, ◌≡◌, refl, ap, sym, ◌∙◌, Bool, true, inl, inr, List, [], ◌∷◌, ◌++◌, All,
  some, Text, Result, ok, Bool-cases, Option-cases, subst,
}
use azure_s_sftp.User.{new_user_gov, set_users}
use azure_s_sftp.Config.Types.{SsftpYaml, ConfigService, new_config_service}
use azure_s_sftp.Config.Valid.{IsWellFormed}
use azure_s_sftp.Config.Accepts.{with_port}
use azure_s_sftp.Config.Load.{load_round, load_yaml_config}
use azure_s_sftp.Config.Loaded.{
  schema_config, Fails, load_yaml_config_first, load_yaml_config-Fails, load_round_cases,
}
use azure_s_sftp.SftpClient.Clients.{new_sftp_clients}
use azure_s_sftp.Overlord.Changes.{
  Overlord, new_overlord, WatchEvent, is_config_change, config_changed, start,
  register_config_file_change_event, watch,
}

module _ (url_parses : Text → Bool) (env : Text) where
  -- The service holds the configuration of a well-formed file.
  abbrev pub IsLoaded : ConfigService → Type 0
  IsLoaded cs =
      (y : SsftpYaml) × IsWellFormed url_parses (schema_config env y)
      × (cs ≡ record { config = with_port (schema_config env y); valid = true })

  load_ends :
      (cs cs' : ConfigService) (r : Result SsftpYaml) (rounds : List (Result SsftpYaml))
      → load_round url_parses env cs r ≡ (cs', true)
      → load_yaml_config url_parses env cs (r ∷ rounds) ≡ some cs'
  unfolding load_yaml_config
  load_ends cs cs' r rounds h = rw (h, load_yaml_config) (ap (λ x. some x.0) h)

  load_yaml_config-IsLoaded :
      (cs cs' : ConfigService) (rounds : List (Result SsftpYaml))
      → load_yaml_config url_parses env cs rounds ≡ some cs'
      → IsLoaded cs'
  unfolding load_yaml_config
  load_yaml_config-IsLoaded cs cs' [] e = absurd cc
  load_yaml_config-IsLoaded cs cs' (r ∷ rounds) e = elim (load_round_cases url_parses env cs r) [
    | inl h ↦
        load_yaml_config-IsLoaded (load_round url_parses env cs r).0 cs' rounds
          (rw (h, load_yaml_config) at e)
    | inr (y, w, h) ↦ (y, w, some_injective cs' _ (sym e ∙ load_ends cs _ r rounds h))
  ]

  -- The accounts and the clients are those of the configuration that is loaded.
  abbrev pub InForce : Overlord → Type 0
  InForce ol =
      IsLoaded ol.confsvc
      × (ol.usergov ≡ new_user_gov ol.confsvc.config.users)
      × (ol.sftpclients ≡ new_sftp_clients ol.confsvc.config)

  config_changed-InForce :
      (ol : Overlord) (cs : ConfigService) → IsLoaded cs → InForce (config_changed ol cs)
  unfolding config_changed set_users new_user_gov
  config_changed-InForce ol cs h = (h, refl, refl)

  event-InForce :
      (ol ol' : Overlord) (e : WatchEvent) (rounds : List (Result SsftpYaml))
      → InForce ol
      → register_config_file_change_event url_parses env ol e rounds ≡ some ol'
      → InForce ol'
  unfolding register_config_file_change_event
  event-InForce ol ol' e rounds h eq = elim (Bool-cases (is_config_change e)) [
    | inr other ↦ subst InForce (some_injective ol ol' (rw other at eq)) h
    | inl is ↦ elim (Option-cases (load_yaml_config url_parses env ol.confsvc rounds)) [
      | inl n ↦ absurd (cc (rw (is, n) at eq))
      | inr (cs, l) ↦
          subst InForce (some_injective (config_changed ol cs) ol' (rw (is, l) at eq))
            (config_changed-InForce ol cs (load_yaml_config-IsLoaded ol.confsvc cs rounds l))
    ]
  ]

  watch-InForce :
      (ol ol' : Overlord) (events : List (WatchEvent × List (Result SsftpYaml)))
      → InForce ol
      → watch url_parses env ol events ≡ some ol'
      → InForce ol'
  unfolding watch
  watch-InForce ol ol' [] h eq = subst InForce (some_injective ol ol' eq) h
  watch-InForce ol ol' ((e, rounds) ∷ events) h eq =
      elim (Option-cases (register_config_file_change_event url_parses env ol e rounds)) [
        | inl n ↦ absurd (cc (rw (n, watch) at eq))
        | inr (next, l) ↦
            watch-InForce next ol' events (event-InForce ol next e rounds h l) (rw (l, watch) at eq)
      ]

  start-InForce :
      (ol : Overlord) (rounds : List (Result SsftpYaml))
      → start url_parses env rounds ≡ some ol
      → InForce ol
  unfolding start new_overlord
  start-InForce ol rounds eq =
      elim (Option-cases (load_yaml_config url_parses env new_config_service rounds)) [
        | inl n ↦ absurd (cc (rw (n, start) at eq))
        | inr (cs, l) ↦
            subst InForce
              (some_injective (new_overlord cs (new_user_gov cs.config.users)) ol
                (rw (l, start) at eq))
              (load_yaml_config-IsLoaded new_config_service cs rounds l, refl, refl)
      ]

  -- Since the start of the program, and after any events of the watched files that it is done with:
  -- the configuration service holds, marked as valid, the configuration of a file that was well
  -- formed, with the default port if it has none; logins are checked against the accounts of that
  -- file, and the SFTP clients are those that it asks for.
  pub watch-start-InForce :
      (rounds : List (Result SsftpYaml)) (events : List (WatchEvent × List (Result SsftpYaml)))
      (first last : Overlord)
      → start url_parses env rounds ≡ some first
      → watch url_parses env first events ≡ some last
      → InForce last
  watch-start-InForce rounds events first last s w =
      watch-InForce first last events (start-InForce first rounds s) w

  -- A change of the configuration file: while every round fails, because the file cannot be read or
  -- parsed or is not well formed, the watcher waits. With the first file that is well formed it goes
  -- on, and from then on the configuration is that of the file, logins are checked against its
  -- accounts and the SFTP clients are its own. For an event that a file of that name was created or
  -- written.
  pub change_in_force :
      (ol : Overlord) (e : WatchEvent) (failed rest : List (Result SsftpYaml)) (y : SsftpYaml)
      → is_config_change e ≡ true
      → All (Fails url_parses env) failed
      → IsWellFormed url_parses (schema_config env y)
      → let c = with_port (schema_config env y) in
        (register_config_file_change_event url_parses env ol e failed ≡ none)
        × (register_config_file_change_event url_parses env ol e (failed ++ (ok y ∷ rest))
            ≡ some (record {
              confsvc = record { config = c; valid = true };
              usergov = new_user_gov c.users;
              sftpclients = new_sftp_clients c;
            }))
  unfolding register_config_file_change_event config_changed set_users new_user_gov
  change_in_force ol e failed rest y is f w = (
    rw is (rw (load_yaml_config-Fails url_parses env ol.confsvc failed f) refl),
    rw is (rw (load_yaml_config_first url_parses env ol.confsvc failed rest y f w) refl),
  )
