-- ===== src/Config/Valid.antt =====
-- When the validator accepts a configuration, against a description of what it asks for.
use azure_s_sftp.Base.{
  Distinct, ℕ, ◌≡◌, ◌≢◌, ◌↔◌, ◌⊎◌, refl, subst, ◌∙◌, Bool, true, false, List, [], ◌∷◌, map, Text,
  codes, String, ◌==◌, eq_iff, eqb, All, any, length, arith, Bool-cases, inl, inr,
}
use azure_s_sftp.User.{User}
use azure_s_sftp.Config.Types.{Webhook, ClientDownloader, ClientUploader, Config}
use azure_s_sftp.Config.Validator.{
  ConfigValidator, add_errf, err_when, each, is_valid_webhook_name, dup_elements, has_dup_elements,
  duplicate_check, downloader_name_check, downloader_check, uploader_name_check, uploader_check,
  clean_dir_check, staging_dir_check, webhook_check,
}

-- A webhook has the one name that there is, and an address that can be parsed.
abbrev pub GoodWebhook : (Text → Bool) → Webhook → Type 0
GoodWebhook url_parses w = (w.name ≡ codes "virusFound") × (url_parses w.url ≡ true)

abbrev pub GoodDownloader : ClientDownloader → Type 0
GoodDownloader d = (d.port ≢ 0) × (d.host ≢ []) × (d.local_staging_directory ≢ [])

abbrev pub GoodUploader : ClientUploader → Type 0
GoodUploader u = (u.port ≢ 0) × (u.host ≢ [])

-- `*` is for the users of the clean directory.
abbrev pub GoodUser : User → Type 0
GoodUser u =
    (u.auth.username ≢ [])
    × (u.auth.password ≢ [])
    × (u.jail_directory ≢ [])
    × ((u.is_clean_dir_user ≡ true) ⊎ (u.jail_directory ≢ codes "*"))

pub record IsWellFormed (url_parses : Text → Bool) (c : Config) : Type 0 where
  pub webhooks : All (GoodWebhook url_parses) c.webhooks
  pub downloader_names : All (λ d. d.name ≢ []) c.client_downloaders
  pub distinct_downloaders : Distinct (map (λ d. d.name) c.client_downloaders)
  pub distinct_directories : Distinct (map (λ d. d.local_staging_directory) c.client_downloaders)
  pub downloaders : All GoodDownloader c.client_downloaders
  pub uploader_names : All (λ u. u.name ≢ []) c.client_uploaders
  pub distinct_uploaders : Distinct (map (λ u. u.name) c.client_uploaders)
  pub uploaders : All GoodUploader c.client_uploaders
  pub users : All GoodUser c.users

-- What a step of the validator does: the configuration stays, and the result stays good exactly
-- if the condition holds.
abbrev pub Steps : Type 0 → ConfigValidator → ConfigValidator → Type 0
Steps P cv cv' = (cv'.config ≡ cv.config) × ((cv'.is_ok ≡ true) ↔ (P × (cv.is_ok ≡ true)))

pub Steps-trans :
    {P Q : Type 0} (a b c : ConfigValidator) → Steps P a b → Steps Q b c → Steps (P × Q) a c
Steps-trans a b c (e, p) (f, q) = (
  f ∙ e,
  (
    λ h. let (hq, hb) = q.0 h in let (hp, ha) = p.0 hb in ((hp, hq), ha),
    λ (h, ha). q.1 (h.1, p.1 (h.0, ha)),
  ),
)

err_when-Steps :
    (b : Bool) (t : String) (args : List Text) (cv : ConfigValidator)
    → Steps (b ≡ false) cv (err_when b t args cv)
unfolding add_errf
err_when-Steps b t args cv = ground arith

pub each-Steps :
    {A : Type 0} (P : A → Type 0) (check : A → ConfigValidator → ConfigValidator)
    → ((v : A) (cv : ConfigValidator) → Steps (P v) cv (check v cv))
    → (vs : List A) (cv : ConfigValidator) → Steps (All P vs) cv (each check vs cv)
unfolding each
each-Steps P check h [] cv = (refl, (λ e. (tt, e), λ x. x.1))
each-Steps P check h (v ∷ vs) cv =
    Steps-trans cv (check v cv) (each check vs (check v cv)) (h v cv)
      (each-Steps P check h vs (check v cv))

not_empty_iff : (s : Text) → (eqb (length s) 0 ≡ false) ↔ (s ≢ [])
not_empty_iff [] = (λ h. cc, λ h. absurd (h refl))
not_empty_iff (a ∷ s) = (λ h. λ e. cc, λ h. ground arith)

not_zero_iff : (n : ℕ) → (eqb n 0 ≡ false) ↔ (n ≢ 0)
not_zero_iff n = ground arith

-- A step of the validator that keeps the result exactly under a condition.
abbrev pub Keeps : Type 0 → (ConfigValidator → ConfigValidator) → Type 0
Keeps P f = (cv : ConfigValidator) → Steps P cv (f cv)

pub Keeps-then :
    {P Q : Type 0} (f g : ConfigValidator → ConfigValidator)
    → Keeps P f
    → Keeps Q g
    → Keeps (P × Q) (λ cv. g (f cv))
Keeps-then f g p q cv = Steps-trans cv (f cv) (g (f cv)) (p cv) (q (f cv))

Steps-iff : {P Q : Type 0} (a b : ConfigValidator) → P ↔ Q → Steps P a b → Steps Q a b
Steps-iff a b (f, g) (e, p) =
    (e, (λ h. let (hp, ha) = p.0 h in (f hp, ha), λ (q, ha). p.1 (g q, ha)))

pub Steps-then :
    {P : Type 0} (Q : Config → Type 0) (a b c : ConfigValidator)
    → Steps P a b
    → Steps (Q b.config) b c
    → Steps (P × Q a.config) a c
Steps-then Q a b c s t = Steps-trans a b c s (subst (λ k. Steps (Q k) b c) s.0 t)

err_when_iff :
    {P : Type 0} (b : Bool) (t : String) (args : List Text)
    → (b ≡ false) ↔ P
    → (cv : ConfigValidator) → Steps P cv (err_when b t args cv)
err_when_iff b t args i cv = Steps-iff cv (err_when b t args cv) i (err_when-Steps b t args cv)

not_known :
    (w v : Text) (seen : List Text)
    → (any (λ u. u == w) (v ∷ seen) ≡ false) ↔ ((v ≢ w) × (any (λ u. u == w) seen ≡ false))
not_known w v seen = ground (arith, eq_iff v w)

All-both :
    (v : Text) (seen s : List Text)
    → All (λ w. any (λ u. u == w) (v ∷ seen) ≡ false) s
      ↔ (All (λ w. v ≢ w) s × All (λ w. any (λ u. u == w) seen ≡ false) s)
All-both v seen [] = (λ h. (tt, tt), λ h. tt)
All-both v seen (w ∷ s) =
    let (to, from) = All-both v seen s in
    let (one, two) = not_known w v seen in
    (
      λ (h, hs). let (x, y) = one h in let (xs, ys) = to hs in ((x, xs), (y, ys)),
      λ ((x, xs), (y, ys)). (two (x, y), from (xs, ys)),
    )

dup_elements-Distinct :
    (seen s : List Text)
    → (eqb (length (dup_elements seen s)) 0 ≡ true)
      ↔ (All (λ w. any (λ u. u == w) seen ≡ false) s × Distinct s)
unfolding dup_elements
dup_elements-Distinct seen [] = (λ h. (tt, tt), λ h. refl)
dup_elements-Distinct seen (v ∷ s) = elim (Bool-cases (any (λ u. u == v) seen)) [
  | inl known ↦ rw known (λ h. ground arith, λ ((h, hs), d). cc)
  | inr new ↦
      let (to, from) = dup_elements-Distinct (v ∷ seen) s in
      let (split, join) = All-both v seen s in
      rw new (
        λ h. let (a, d) = to h in let (x, y) = split a in ((refl, y), (x, d)),
        λ ((h, y), (x, d)). from (join (x, y), d),
      )
]

has_dup_elements-Distinct : (s : List Text) → ((has_dup_elements s).1 ≡ false) ↔ Distinct s
unfolding has_dup_elements
has_dup_elements-Distinct s =
    let (to, from) = dup_elements-Distinct [] s in
    elim (Bool-cases (eqb (length (dup_elements [] s)) 0)) [
      | inl none_twice ↦ rw none_twice (λ h. (to none_twice).1, λ d. refl)
      | inr some_twice ↦ rw some_twice (λ h. cc, λ d. cc (from (all_new s, d)))
    ]
  where
    all_new : (xs : List Text) → All (λ w. any (λ u. u == w) [] ≡ false) xs
    all_new [] = tt
    all_new (x ∷ xs) = (refl, all_new xs)

pub duplicate_check-Steps :
    (names : List Text) (t : String) (cv : ConfigValidator)
    → Steps (Distinct names) cv (duplicate_check names t cv)
unfolding duplicate_check
duplicate_check-Steps names t = err_when_iff _ t _ (has_dup_elements-Distinct names)

-- The checks of one element: each reports what is missing, and leaves the configuration alone.
pub downloader_name_check-Steps :
    (d : ClientDownloader) (cv : ConfigValidator)
    → Steps (d.name ≢ []) cv (downloader_name_check d cv)
unfolding add_errf
downloader_name_check-Steps d cv = ground (arith, not_empty_iff d.name)

pub downloader_check-Steps :
    (d : ClientDownloader) (cv : ConfigValidator)
    → Steps (GoodDownloader d) cv (downloader_check d cv)
unfolding add_errf
downloader_check-Steps d cv =
    ground (arith, not_empty_iff d.host, not_empty_iff d.local_staging_directory)

pub uploader_name_check-Steps :
    (u : ClientUploader) (cv : ConfigValidator) → Steps (u.name ≢ []) cv (uploader_name_check u cv)
unfolding add_errf
uploader_name_check-Steps u cv = ground (arith, not_empty_iff u.name)

pub uploader_check-Steps :
    (u : ClientUploader) (cv : ConfigValidator) → Steps (GoodUploader u) cv (uploader_check u cv)
unfolding add_errf
uploader_check-Steps u cv = ground (arith, not_empty_iff u.host)

-- The conditions on a user of the clean directory, met by every other user.
abbrev pub CleanUser : User → Type 0
CleanUser u =
    (u.is_clean_dir_user ≡ false)
    ⊎ ((u.auth.username ≢ []) × (u.auth.password ≢ []) × (u.jail_directory ≢ []))

abbrev pub StagingUser : User → Type 0
StagingUser u =
    (u.is_clean_dir_user ≡ true)
    ⊎ ((u.auth.username ≢ [])
        × (u.auth.password ≢ [])
        × (u.jail_directory ≢ codes "*")
        × (u.jail_directory ≢ []))

pub clean_dir_check-Steps :
    (u : User) (cv : ConfigValidator) → Steps (CleanUser u) cv (clean_dir_check u cv)
unfolding add_errf
clean_dir_check-Steps u cv = ground (
  arith,
  not_empty_iff u.auth.username,
  not_empty_iff u.auth.password,
  not_empty_iff u.jail_directory,
)

pub staging_dir_check-Steps :
    (u : User) (cv : ConfigValidator) → Steps (StagingUser u) cv (staging_dir_check u cv)
unfolding add_errf
staging_dir_check-Steps u cv = ground (
  arith,
  not_empty_iff u.auth.username,
  not_empty_iff u.auth.password,
  not_empty_iff u.jail_directory,
  eq_iff u.jail_directory (codes "*"),
)

pub webhook_check-Steps :
    (url_parses : Text → Bool) (w : Webhook) (cv : ConfigValidator)
    → Steps (GoodWebhook url_parses w) cv (webhook_check url_parses w cv)
unfolding add_errf is_valid_webhook_name
webhook_check-Steps url_parses w cv = ground (arith, eq_iff (codes "virusFound") w.name)
