-- ===== src/Config/Validator.antt =====
-- src/ssftp/configvalidator.go: the checks of a configuration, and the messages that they write.
-- `net/url`'s parser is a parameter: whether it takes a text.
use azure_s_sftp.Base.{
  Bool, true, false, ◌&&◌, not, List, [], ◌∷◌, ◌++◌, Text, codes, String, ◌==◌, eqb, if◌then◌else◌,
  any, length, map,
}
use azure_s_sftp.User.{User}
use azure_s_sftp.Config.Types.{Webhook, ClientDownloader, ClientUploader, Config}

pub record ConfigValidator : Type 0 where
  pub config : Config
  pub is_ok : Bool
  pub error_messages : List Text

abbrev pub valid_webhook_names : List Text
valid_webhook_names = codes "virusFound" ∷ []

unfoldable pub new_config_validator : Config → ConfigValidator
new_config_validator c = record { config = c; is_ok = true; error_messages = [] }

unfoldable pub to_newline_string : List Text → Text
to_newline_string [] = []
to_newline_string (v ∷ vs) = v ++ (codes "\n" ++ to_newline_string vs)

-- `strings.Join(s, ", ")`
unfoldable pub to_delimited_string : List Text → Text
to_delimited_string [] = []
to_delimited_string (v ∷ []) = v
to_delimited_string (v ∷ (w ∷ vs)) = v ++ (codes ", " ++ to_delimited_string (w ∷ vs))

-- The pieces that `fmt.Sprintf` puts behind the format for arguments that no verb took.
extra_arguments : List Text → Text
extra_arguments [] = []
extra_arguments (a ∷ []) = codes "string=" ++ a
extra_arguments (a ∷ (b ∷ r)) = codes "string=" ++ (a ++ (codes ", " ++ extra_arguments (b ∷ r)))

extra : List Text → Text
extra [] = []
extra (a ∷ r) = codes "%!(EXTRA " ++ (extra_arguments (a ∷ r) ++ codes ")")

-- `fmt.Sprintf` for formats whose only verb is `%s`, on text arguments: an argument that is
-- missing or superfluous is reported in the text.
unfoldable pub sprintf : Text → List Text → Text
unfolding extra extra_arguments
sprintf [] args = extra args
sprintf (c ∷ []) args = c ∷ extra args
sprintf (c ∷ (d ∷ f)) [] =
    if eqb c 37 && eqb d 115 then codes "%!s(MISSING)" ++ sprintf f [] else c ∷ sprintf (d ∷ f) []
sprintf (c ∷ (d ∷ f)) (a ∷ args) =
    if eqb c 37 && eqb d 115 then a ++ sprintf f args else c ∷ sprintf (d ∷ f) (a ∷ args)

unfoldable pub add_errf : ConfigValidator → Text → List Text → ConfigValidator
add_errf cv template args = record cv {
  is_ok = false;
  error_messages = cv.error_messages ++ (sprintf template args ∷ []);
}

-- A check that adds a message.
abbrev pub err_when : Bool → String → List Text → ConfigValidator → ConfigValidator
err_when b template args cv = if b then add_errf cv (codes template) args else cv

unfoldable pub validate_port_set_default : ConfigValidator → ConfigValidator
validate_port_set_default cv =
    if eqb cv.config.sftp_port 0
    then record cv { config = record (cv.config) { sftp_port = 2002 } }
    else cv

unfoldable pub is_valid_webhook_name : Text → Bool
is_valid_webhook_name name = any (λ w. w == name) valid_webhook_names

-- The elements that stand in the list before, in the order in which they come again: the Go code
-- keeps the ones seen in a map, here the list `seen`.
unfoldable pub dup_elements : List Text → List Text → List Text
dup_elements seen [] = []
dup_elements seen (v ∷ s) =
    let known = any (λ w. w == v) seen in
    let rest = dup_elements (if known then seen else v ∷ seen) s in if known then v ∷ rest else rest

unfoldable pub has_dup_elements : List Text → List Text × Bool
unfolding dup_elements
has_dup_elements s =
    let dup_elems = dup_elements [] s in
    if eqb (length dup_elems) 0 then (dup_elems, false) else (dup_elems, true)

-- A loop that runs a check for every element.
unfoldable pub each {ℓ} :
    {A : Type ℓ}
    → (A → ConfigValidator → ConfigValidator)
    → List A
    → ConfigValidator
    → ConfigValidator
each check [] cv = cv
each check (v ∷ vs) cv = each check vs (check v cv)

abbrev pub downloader_name_check : ClientDownloader → ConfigValidator → ConfigValidator
downloader_name_check v =
    err_when (eqb (length v.name) 0) "ConfigValidator - Downloader name cannot be empty"
      (v.name ∷ [])

abbrev pub downloader_check : ClientDownloader → ConfigValidator → ConfigValidator
downloader_check v cv =
    err_when (eqb (length v.local_staging_directory) 0)
      "ConfigValidator - Downloader %s LocalStagingDirectory cannot be empty" (v.name ∷ [])
      (err_when (eqb (length v.host) 0) "ConfigValidator - Downloader %s host cannot be empty"
        (v.name ∷ [])
        (err_when (eqb v.port 0) "ConfigValidator - Downloader %s port cannot be empty" [] cv))

unfoldable pub duplicate_check : List Text → String → ConfigValidator → ConfigValidator
duplicate_check names template cv =
    let (s, has_dup) = has_dup_elements names in
    err_when has_dup template (to_newline_string s ∷ []) cv

abbrev duplicate_name_message : String
duplicate_name_message =
    "ConfigValidator - Downloader Name are unique identifier and must be unique, %s"

abbrev duplicate_directory_message : String
duplicate_directory_message =
    "ConfigValidator - Downloader LocalStagingDirectory %s is duplicated. This will cause Downloaders to override downloaded files in same LocalStagingDirectory"

abbrev duplicate_uploader_message : String
duplicate_uploader_message =
    "ConfigValidator - Uploader Name are unique identifier and must be unique, %s"

abbrev pub downloader_names_check : List ClientDownloader → ConfigValidator → ConfigValidator
downloader_names_check ds = duplicate_check (map (λ v. v.name) ds) duplicate_name_message

abbrev pub directories_check : List ClientDownloader → ConfigValidator → ConfigValidator
directories_check ds =
    duplicate_check (map (λ v. v.local_staging_directory) ds) duplicate_directory_message

unfoldable pub validate_downloaders : ConfigValidator → ConfigValidator
validate_downloaders cv =
    let ds = cv.config.client_downloaders in
    each downloader_check ds
      (directories_check ds (downloader_names_check ds (each downloader_name_check ds cv)))

abbrev pub uploader_name_check : ClientUploader → ConfigValidator → ConfigValidator
uploader_name_check v =
    err_when (eqb (length v.name) 0) "ConfigValidator - Uploader name cannot be empty" []

abbrev pub uploader_check : ClientUploader → ConfigValidator → ConfigValidator
uploader_check v cv =
    err_when (eqb (length v.host) 0) "ConfigValidator - Uploader %s host cannot be empty"
      (v.name ∷ [])
      (err_when (eqb v.port 0) "ConfigValidator - Uploader %s port cannot be empty" (v.name ∷ [])
        cv)

abbrev pub uploader_names_check : List ClientUploader → ConfigValidator → ConfigValidator
uploader_names_check us = duplicate_check (map (λ v. v.name) us) duplicate_uploader_message

unfoldable pub validate_uploaders : ConfigValidator → ConfigValidator
validate_uploaders cv =
    let us = cv.config.client_uploaders in
    each uploader_check us (uploader_names_check us (each uploader_name_check us cv))

abbrev pub clean_dir_check : User → ConfigValidator → ConfigValidator
clean_dir_check v cv =
    if not v.is_clean_dir_user
    then cv
    else err_when (eqb (length v.jail_directory) 0)
        "ConfigValidator - Users.cleanDir directory cannot be empty, either (*) to pin to root directory or a given directory name"
        []
        (err_when (eqb (length v.auth.password) 0)
          "ConfigValidator - Users.cleanDir Password cannot be empty even though Public Key authn is used"
          []
          (err_when (eqb (length v.auth.username) 0)
            "ConfigValidator - Users.cleanDir Username cannot be empty" [] cv))

unfoldable pub validate_users_clean_dir : ConfigValidator → ConfigValidator
validate_users_clean_dir cv = each clean_dir_check cv.config.users cv

abbrev pub staging_dir_check : User → ConfigValidator → ConfigValidator
staging_dir_check v cv =
    if v.is_clean_dir_user
    then cv
    else err_when (eqb (length v.jail_directory) 0)
        "ConfigValidator - Users.stagingDir - directory cannot be empty" []
        (err_when (v.jail_directory == codes "*")
          "ConfigValidator - Users.stagingDir - Root(*) is not permitted in Staging directory, only Clean directory can have Root(*)"
          []
          (err_when (eqb (length v.auth.password) 0)
            "ConfigValidator - Users.stagingDir - Password cannot be empty even though Public Key authn is used"
            []
            (err_when (eqb (length v.auth.username) 0)
              "ConfigValidator - Users.stagingDir Username cannot be empty" [] cv)))

unfoldable pub validate_users_staging_dir : ConfigValidator → ConfigValidator
validate_users_staging_dir cv = each staging_dir_check cv.config.users cv

module _ (url_parses : Text → Bool) where
  abbrev pub webhook_check : Webhook → ConfigValidator → ConfigValidator
  webhook_check v cv =
      err_when (not (url_parses v.url)) "ConfigValidator - Webhook Url %s is invalid" (v.url ∷ []) (
        err_when (not (is_valid_webhook_name v.name))
          "ConfigValidator - Webhook name %s is invalid. Valid names are %s"
          (v.name ∷ to_delimited_string valid_webhook_names ∷ []) cv)

  unfoldable pub validate_webhook : ConfigValidator → ConfigValidator
  validate_webhook cv = each webhook_check cv.config.webhooks cv

  -- The configuration is shared with the caller: the port that is set by default comes back in it.
  unfoldable pub validate : ConfigValidator → ConfigValidator × Text × Bool
  validate cv =
      let done = validate_users_staging_dir (
        validate_users_clean_dir (
          validate_uploaders
            (validate_downloaders (validate_webhook (validate_port_set_default cv))))) in
      (done, to_newline_string done.error_messages, done.is_ok)
