-- ===== src/Config/Accepts.antt =====
-- The validator accepts exactly the well-formed configurations, and sets the default port.
use azure_s_sftp.Base.{
  Distinct, ◌≡◌, ◌≢◌, ◌↔◌, inl, inr, refl, Bool, true, List, [], ◌∷◌, map, Text, eqb, if◌then◌else◌,
  All, arith, Bool-cases,
}
use azure_s_sftp.User.{User}
use azure_s_sftp.Config.Types.{Config}
use azure_s_sftp.Config.Validator.{
  ConfigValidator, new_config_validator, validate_port_set_default, each, downloader_name_check,
  downloader_check, directories_check, downloader_names_check, uploader_names_check,
  validate_downloaders, uploader_name_check, uploader_check, validate_uploaders, clean_dir_check,
  validate_users_clean_dir, staging_dir_check, validate_users_staging_dir, webhook_check,
  validate_webhook, validate,
}
use azure_s_sftp.Config.Valid.{
  GoodWebhook, GoodDownloader, GoodUploader, GoodUser, CleanUser, StagingUser, IsWellFormed,
  Keeps-then, Steps, Steps-then, each-Steps, duplicate_check-Steps, downloader_name_check-Steps,
  downloader_check-Steps, uploader_name_check-Steps, uploader_check-Steps, clean_dir_check-Steps,
  staging_dir_check-Steps, webhook_check-Steps,
}

abbrev DownloadersGood : Config → Type 0
DownloadersGood c =
    ((All (λ d. d.name ≢ []) c.client_downloaders
        × Distinct (map (λ d. d.name) c.client_downloaders))
      × Distinct (map (λ d. d.local_staging_directory) c.client_downloaders))
    × All GoodDownloader c.client_downloaders

validate_downloaders-Steps :
    (cv : ConfigValidator) → Steps (DownloadersGood cv.config) cv (validate_downloaders cv)
unfolding validate_downloaders
validate_downloaders-Steps cv =
    let ds = cv.config.client_downloaders in
    Keeps-then
      (λ v. directories_check ds (downloader_names_check ds (each downloader_name_check ds v)))
      (each downloader_check ds)
      (Keeps-then (λ v. downloader_names_check ds (each downloader_name_check ds v))
        (directories_check ds)
        (Keeps-then (each downloader_name_check ds) (downloader_names_check ds)
          (each-Steps _ downloader_name_check downloader_name_check-Steps ds)
          (duplicate_check-Steps _ _))
        (duplicate_check-Steps _ _))
      (each-Steps _ downloader_check downloader_check-Steps ds) cv

abbrev UploadersGood : Config → Type 0
UploadersGood c =
    (All (λ u. u.name ≢ []) c.client_uploaders × Distinct (map (λ u. u.name) c.client_uploaders))
    × All GoodUploader c.client_uploaders

validate_uploaders-Steps :
    (cv : ConfigValidator) → Steps (UploadersGood cv.config) cv (validate_uploaders cv)
unfolding validate_uploaders
validate_uploaders-Steps cv =
    let us = cv.config.client_uploaders in
    Keeps-then (λ v. uploader_names_check us (each uploader_name_check us v))
      (each uploader_check us)
      (Keeps-then (each uploader_name_check us) (uploader_names_check us)
        (each-Steps _ uploader_name_check uploader_name_check-Steps us) (duplicate_check-Steps _ _))
      (each-Steps _ uploader_check uploader_check-Steps us) cv

validate_users_clean_dir-Steps :
    (cv : ConfigValidator) → Steps (All CleanUser cv.config.users) cv (validate_users_clean_dir cv)
unfolding validate_users_clean_dir
validate_users_clean_dir-Steps cv =
    each-Steps CleanUser clean_dir_check clean_dir_check-Steps cv.config.users cv

validate_users_staging_dir-Steps :
    (cv : ConfigValidator)
    → Steps (All StagingUser cv.config.users) cv (validate_users_staging_dir cv)
unfolding validate_users_staging_dir
validate_users_staging_dir-Steps cv =
    each-Steps StagingUser staging_dir_check staging_dir_check-Steps cv.config.users cv

user_iff : (u : User) → (CleanUser u × StagingUser u) ↔ GoodUser u
user_iff u = ground arith

users_iff : (us : List User) → (All CleanUser us × All StagingUser us) ↔ All GoodUser us
users_iff [] = (λ h. tt, λ h. (tt, tt))
users_iff (u ∷ us) =
    let (to, from) = users_iff us in
    let one : (CleanUser u × StagingUser u) ↔ GoodUser u = user_iff u in
    (
      λ ((c, cs), (s, ss)). (one.0 (c, s), to (cs, ss)),
      λ (g, gs). let (c, s) = one.1 g in let (cs, ss) = from gs in ((c, cs), (s, ss)),
    )

-- The configuration with the default port in place of no port.
abbrev pub with_port : Config → Config
with_port c = record c { sftp_port = if eqb c.sftp_port 0 then 2002 else c.sftp_port }

abbrev ported : Config → ConfigValidator
ported c = record { config = with_port c; is_ok = true; error_messages = [] }

validate_port_set_default_lem :
    (c : Config) → validate_port_set_default (new_config_validator c) ≡ ported c
unfolding validate_port_set_default new_config_validator
validate_port_set_default_lem c = elim (Bool-cases (eqb c.sftp_port 0)) [
  | inl unset ↦ rw unset
  | inr set ↦ rw set
]

module _ (url_parses : Text → Bool) where
  abbrev AllGood : Config → Type 0
  AllGood c =
      (((All (GoodWebhook url_parses) c.webhooks × DownloadersGood c) × UploadersGood c)
        × All CleanUser c.users)
      × All StagingUser c.users

  validate_webhook-Steps :
      (cv : ConfigValidator)
      → Steps (All (GoodWebhook url_parses) cv.config.webhooks) cv (validate_webhook url_parses cv)
  unfolding validate_webhook
  validate_webhook-Steps cv =
      each-Steps (GoodWebhook url_parses) (webhook_check url_parses)
        (webhook_check-Steps url_parses) cv.config.webhooks cv

  checks-Steps :
      (a : ConfigValidator)
      → Steps (AllGood a.config) a (
          validate_users_staging_dir (
            validate_users_clean_dir
              (validate_uploaders (validate_downloaders (validate_webhook url_parses a)))))
  checks-Steps a =
      let b = validate_webhook url_parses a in
      let c = validate_downloaders b in
      let d = validate_uploaders c in
      let e = validate_users_clean_dir d in
      Steps-then (λ k. All StagingUser k.users) a e (validate_users_staging_dir e)
        (Steps-then (λ k. All CleanUser k.users) a d e
          (Steps-then UploadersGood a c d
            (Steps-then DownloadersGood a b c (validate_webhook-Steps a)
              (validate_downloaders-Steps b))
            (validate_uploaders-Steps c))
          (validate_users_clean_dir-Steps d))
        (validate_users_staging_dir-Steps e)

  AllGood-iff : (c : Config) → AllGood (with_port c) ↔ IsWellFormed url_parses c
  AllGood-iff c = (
    λ h. record {
      webhooks = h.0.0.0.0;
      downloader_names = h.0.0.0.1.0.0.0;
      distinct_downloaders = h.0.0.0.1.0.0.1;
      distinct_directories = h.0.0.0.1.0.1;
      downloaders = h.0.0.0.1.1;
      uploader_names = h.0.0.1.0.0;
      distinct_uploaders = h.0.0.1.0.1;
      uploaders = h.0.0.1.1;
      users = (users_iff c.users).0 (h.0.1, h.1);
    },
    λ w.
        let (clean, staging) = (users_iff c.users).1 w.users in
        (
          (
            (
              (
                w.webhooks,
                (
                  ((w.downloader_names, w.distinct_downloaders), w.distinct_directories),
                  w.downloaders,
                ),
              ),
              ((w.uploader_names, w.distinct_uploaders), w.uploaders),
            ),
            clean,
          ),
          staging,
        ),
  )

  -- A configuration is accepted exactly if it is well formed. Validating it changes nothing in it
  -- but the port, which gets its default if there is none.
  pub validate-IsWellFormed :
      (c : Config)
      → let (cv, msg, accepted) = validate url_parses (new_config_validator c) in
        ((accepted ≡ true) ↔ IsWellFormed url_parses c) × (cv.config ≡ with_port c)
  unfolding validate
  validate-IsWellFormed c =
      let a = ported c in
      let (same, good) = checks-Steps a in
      let (to, from) = AllGood-iff c in
      rw (validate_port_set_default_lem c)
        ((λ h. to (good.0 h).0, λ w. good.1 (from w, refl)), same)
