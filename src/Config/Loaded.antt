-- ===== src/Config/Loaded.antt =====
-- What the loader ends with: the first file that holds a well-formed configuration.
use azure_s_sftp.Base.{
  ◌≡◌, refl, ap, Bool, true, false, ◌⊎◌, inl, inr, List, [], ◌∷◌, ◌++◌, none, some, Text, Result,
  ok, err, All, Bool-cases, arith,
}
use azure_s_sftp.Config.Types.{SsftpYaml, Config, ConfigService, empty_config}
use azure_s_sftp.Config.Validator.{new_config_validator, validate}
use azure_s_sftp.Config.Valid.{IsWellFormed}
use azure_s_sftp.Config.Accepts.{with_port, validate-IsWellFormed}
use azure_s_sftp.Config.Load.{set_paths, copy_schema, load_round, load_yaml_config}

-- The configuration that a file stands for: its settings, and the paths of the environment.
unfoldable pub schema_config : Text → SsftpYaml → Config
unfolding copy_schema set_paths
schema_config env y = copy_schema y (set_paths env empty_config)

-- Nothing of an earlier configuration is left.
copy_schema_fresh :
    (env : Text) (y : SsftpYaml) (c : Config)
    → copy_schema y (set_paths env c) ≡ schema_config env y
unfolding schema_config
copy_schema_fresh env y c = ground arith

module _ (url_parses : Text → Bool) (env : Text) where
  -- A round that the loop does not end with: the file cannot be read or parsed, or what it holds
  -- is not well formed.
  abbrev pub Fails : Result SsftpYaml → Type 0
  Fails (err e) = Unit
  Fails (ok y) = ¬ IsWellFormed url_parses (schema_config env y)

  load_round-Fails :
      (cs : ConfigService) (r : Result SsftpYaml)
      → Fails r
      → (load_round url_parses env cs r).1 ≡ false
  unfolding load_round
  load_round-Fails cs (err e) f = refl
  load_round-Fails cs (ok y) f =
      rw (copy_schema_fresh env y cs.config)
        (elim (Bool-cases (validate url_parses (new_config_validator (schema_config env y))).2) [
          | inl good ↦
              absurd (f ((validate-IsWellFormed url_parses (schema_config env y)).0.0 good))
          | inr bad ↦ bad
        ])

  load_round_ends :
      (cs : ConfigService) (y : SsftpYaml)
      → IsWellFormed url_parses (schema_config env y)
      → load_round url_parses env cs (ok y)
        ≡ (record { config = with_port (schema_config env y); valid = true }, true)
  unfolding load_round
  load_round_ends cs y w =
      let (accepted, config) = validate-IsWellFormed url_parses (schema_config env y) in
      rw (copy_schema_fresh env y cs.config) (rw (accepted.1 w, config))

  -- The loader passes over every round that fails. It ends at the first file that is well formed,
  -- with that file's configuration marked as valid and nothing left of what it held before.
  pub load_yaml_config_first :
      (cs : ConfigService) (failed rest : List (Result SsftpYaml)) (y : SsftpYaml)
      → All Fails failed
      → IsWellFormed url_parses (schema_config env y)
      → load_yaml_config url_parses env cs (failed ++ (ok y ∷ rest))
        ≡ some (record { config = with_port (schema_config env y); valid = true })
  unfolding load_yaml_config
  load_yaml_config_first cs [] rest y f w =
      rw (load_round_ends cs y w, load_yaml_config) (ap (λ r. some r.0) (load_round_ends cs y w))
  load_yaml_config_first cs (r ∷ failed) rest y f w =
      rw (load_round-Fails cs r f.0, load_yaml_config)
        (load_yaml_config_first (load_round url_parses env cs r).0 failed rest y f.1 w)

  -- While every round fails, the loader does not end.
  pub load_yaml_config-Fails :
      (cs : ConfigService) (failed : List (Result SsftpYaml))
      → All Fails failed
      → load_yaml_config url_parses env cs failed ≡ none
  unfolding load_yaml_config
  load_yaml_config-Fails cs [] f = refl
  load_yaml_config-Fails cs (r ∷ failed) f =
      rw (load_round-Fails cs r f.0, load_yaml_config)
        (load_yaml_config-Fails (load_round url_parses env cs r).0 failed f.1)

  -- A round fails, or the file that it found is well formed and in the service.
  pub load_round_cases :
      (cs : ConfigService) (r : Result SsftpYaml)
      → ((load_round url_parses env cs r).1 ≡ false)
        ⊎ ((y : SsftpYaml) × IsWellFormed url_parses (schema_config env y)
            × (load_round url_parses env cs r
                ≡ (record { config = with_port (schema_config env y); valid = true }, true)))
  load_round_cases cs (err e) = inl (load_round-Fails cs (err e) tt)
  load_round_cases cs (ok y) =
      elim (Bool-cases (validate url_parses (new_config_validator (schema_config env y))).2) [
        | inl good ↦
            let w = (validate-IsWellFormed url_parses (schema_config env y)).0.0 good in
            inr (y, w, load_round_ends cs y w)
        | inr bad ↦ inl (
            load_round-Fails cs (ok y) (λ w.
              absurd (cc (bad, (validate-IsWellFormed url_parses (schema_config env y)).0.1 w))))
      ]
