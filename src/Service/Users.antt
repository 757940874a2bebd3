-- ===== src/Service/Users.antt =====
-- Whose session a channel becomes.
use azure_s_sftp.Base.{
  ℕ, ◌≡◌, refl, ◌∙◌, ap, Bool, true, false, List, [], ◌∷◌, ◌++◌, Option, none, some, Text, codes,
  ◌==◌, if◌then◌else◌, Error, Result, All, All-append, select, Bool-cases, inl, inr,
}
use azure_s_sftp.User.{User, UserGov, auth_pass, auth_public_key}
use azure_s_sftp.Server.{new_server}
use azure_s_sftp.Config.Types.{Config}
use azure_s_sftp.Service.{
  Session, Service, passed, key_passed, password_callback, public_key_callback, open_channel,
  remove_from, remove_server, Ended, end_session,
}
use azure_s_sftp.Service.Removal.{is_other, remove_server_lem}
use azure_s_sftp.Service.Logins.{
  Event, password, public_key, channel, ended, users_loaded, step, run,
}

-- The directory that the sessions of a user are set up with.
abbrev pub share : Config → User → Text
share c u = if u.is_clean_dir_user then c.clean_path else c.staging_path

-- The session is set up for its user, and not as a read-only one.
pub record IsOpened (c : Config) (s : Session) : Type 0 where
  pub in_share : s.server.jail_path ≡ share c s.server.user
  pub writable : s.server.read_only ≡ false

All-select :
    (P : Session → Type 0) (f : Session → Bool) (xs : List Session) → All P xs → All P (select f xs)
All-select P f [] h = tt
All-select P f (x ∷ xs) h = elim (Bool-cases (f x)) [
  | inl y ↦ rw y (h.0, All-select P f xs h.1)
  | inr n ↦ rw n (All-select P f xs h.1)
]

All-remove_server :
    (P : Session → Type 0) (xs : List Session) (x : ℕ) → All P xs → All P (remove_server xs x)
All-remove_server P [] x h = unfold remove_server remove_from in tt
All-remove_server P (s ∷ xs) x h =
    rw (remove_server_lem s xs x) (h.0, All-select P (is_other x) xs h.1)

opens_for :
    (c : Config) (ss : Service) (u : User)
    → ss.login_user ≡ u
    → (open_channel c ss (codes "session")).servers
      ≡ ss.servers ++ (record { id = ss.made; server = new_server u (share c u) } ∷ [])
unfolding open_channel ◌==◌
opens_for c ss u e =
    ap (λ v. ss.servers ++ (record { id = ss.made; server = new_server v (share c v) } ∷ [])) e

module _ {Key : Type 0} (parse_authorized_key : Text → Result Key) (marshal : Key → Text)
    (c : Config) where
  -- The event is no successful login, by the accounts of that moment.
  abbrev pub IsQuiet : UserGov → Event Key → Type 0
  IsQuiet ug (password conn name pass) = (auth_pass ug name pass).1 ≡ false
  IsQuiet ug (public_key conn name key) =
      (auth_public_key parse_authorized_key marshal ug name key).1 ≡ false
  IsQuiet ug (channel conn t) = Unit
  IsQuiet ug (ended x how) = Unit
  IsQuiet ug (users_loaded users) = Unit

  -- No event of the run is a successful login.
  abbrev pub AreQuiet : Service → List (Event Key) → Type 0
  AreQuiet ss [] = Unit
  AreQuiet ss (e ∷ es) =
      IsQuiet ss.usrgov e × AreQuiet (step parse_authorized_key marshal c ss e) es

  passed_quiet :
      (ss : Service) (r : User × Bool) → r.1 ≡ false → (passed c ss r).0.login_user ≡ ss.login_user
  passed_quiet ss (u, true) h = cc
  passed_quiet ss (u, false) h = refl

  key_passed_quiet :
      (ss : Service) (r : User × Bool × Option Error)
      → r.1 ≡ false
      → (key_passed c ss r).0.login_user ≡ ss.login_user
  key_passed_quiet ss (u, true, some e) h = cc
  key_passed_quiet ss (u, true, none) h = cc
  key_passed_quiet ss (u, false, some e) h = refl
  key_passed_quiet ss (u, false, none) h = refl

  channel_quiet : (ss : Service) (t : Text) → (open_channel c ss t).login_user ≡ ss.login_user
  unfolding open_channel
  channel_quiet ss t = elim (Bool-cases (t == codes "session")) [
    | inl y ↦ rw y refl
    | inr n ↦ rw n refl
  ]

  step_quiet :
      (ss : Service) (e : Event Key)
      → IsQuiet ss.usrgov e
      → (step parse_authorized_key marshal c ss e).login_user ≡ ss.login_user
  unfolding step password_callback public_key_callback end_session
  step_quiet ss (password conn name pass) q = passed_quiet ss (auth_pass ss.usrgov name pass) q
  step_quiet ss (public_key conn name key) q = key_passed_quiet ss _ q
  step_quiet ss (channel conn t) q = channel_quiet ss t
  step_quiet ss (ended x Ended.at_eof) q = refl
  step_quiet ss (ended x Ended.with_error) q = refl
  step_quiet ss (ended x Ended.clean) q = refl
  step_quiet ss (users_loaded users) q = refl

  run_quiet :
      (ss : Service) (es : List (Event Key))
      → AreQuiet ss es
      → (run parse_authorized_key marshal c ss es).login_user ≡ ss.login_user
  unfolding run
  run_quiet ss [] q = refl
  run_quiet ss (e ∷ es) q =
      run_quiet (step parse_authorized_key marshal c ss e) es q.1 ∙ step_quiet ss e q.0

  -- A session belongs to whoever logged in last: after a login by password, and with no successful
  -- login behind it, whatever else happens and however often the accounts are loaded again, a
  -- channel of any connection gets a session for the account of that login, also a channel of
  -- another connection, which logged in before as somebody else.
  pub channel_of_last_login :
      (ss : Service) (conn other : ℕ) (name pass : Text) (u : User) (quiet : List (Event Key))
      → auth_pass ss.usrgov name pass ≡ (u, true)
      → AreQuiet (step parse_authorized_key marshal c ss (password conn name pass)) quiet
      → let before = run parse_authorized_key marshal c ss (password conn name pass ∷ quiet) in
        (step parse_authorized_key marshal c before (channel other (codes "session"))).servers
        ≡ before.servers ++ (record { id = before.made; server = new_server u (share c u) } ∷ [])
  unfolding step run password_callback
  channel_of_last_login ss conn other name pass u quiet h q =
      let after = (passed c ss (auth_pass ss.usrgov name pass)).0 in
      opens_for c (run parse_authorized_key marshal c after quiet) u
        (run_quiet after quiet q ∙ ap (λ r. (passed c ss r).0.login_user) h)

  abbrev AllOpened : Service → Type 0
  AllOpened ss = All (IsOpened c) ss.servers

  passed-AllOpened : (ss : Service) (r : User × Bool) → AllOpened ss → AllOpened (passed c ss r).0
  passed-AllOpened ss (u, true) h = h
  passed-AllOpened ss (u, false) h = h

  key_passed-AllOpened :
      (ss : Service) (r : User × Bool × Option Error)
      → AllOpened ss
      → AllOpened (key_passed c ss r).0
  key_passed-AllOpened ss (u, b, some e) h = h
  key_passed-AllOpened ss (u, true, none) h = h
  key_passed-AllOpened ss (u, false, none) h = h

  channel-AllOpened : (ss : Service) (t : Text) → AllOpened ss → AllOpened (open_channel c ss t)
  unfolding open_channel new_server
  channel-AllOpened ss t h = elim (Bool-cases (t == codes "session")) [
    | inl y ↦
        rw y
          (All-append (IsOpened c) ss.servers _ h (record { in_share = refl; writable = refl }, tt))
    | inr n ↦ rw n h
  ]

  step-AllOpened :
      (ss : Service) (e : Event Key)
      → AllOpened ss
      → AllOpened (step parse_authorized_key marshal c ss e)
  unfolding step password_callback public_key_callback end_session
  step-AllOpened ss (password conn name pass) h =
      passed-AllOpened ss (auth_pass ss.usrgov name pass) h
  step-AllOpened ss (public_key conn name key) h = key_passed-AllOpened ss _ h
  step-AllOpened ss (channel conn t) h = channel-AllOpened ss t h
  step-AllOpened ss (ended x Ended.at_eof) h = All-remove_server (IsOpened c) ss.servers x h
  step-AllOpened ss (ended x Ended.with_error) h = h
  step-AllOpened ss (ended x Ended.clean) h = h
  step-AllOpened ss (users_loaded users) h = h

  -- Whatever happens to a service whose sessions are so, each session in its list has the jail
  -- directory of its user's kind, the clean or the staging directory, and is not read-only,
  -- whatever the account's `readonly` says.
  pub run-IsOpened :
      (ss : Service) (es : List (Event Key))
      → All (IsOpened c) ss.servers
      → All (IsOpened c) (run parse_authorized_key marshal c ss es).servers
  unfolding run
  run-IsOpened ss [] h = h
  run-IsOpened ss (e ∷ es) h =
      run-IsOpened (step parse_authorized_key marshal c ss e) es (step-AllOpened ss e h)
