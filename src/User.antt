-- ===== src/User.antt =====
-- src/user/usergov.go: the login accounts and the check of a name with a password or a public key.
-- The parsing and the marshalling of SSH keys are those of golang.org/x/crypto/ssh, parameters here.
pub mod Auth
use azure_s_sftp.Base.{
  ◌≡◌, Bool, true, false, ◌&&◌, List, [], ◌∷◌, Option, none, some, Text, ◌==◌, if◌then◌else◌, Error,
  Result, ok, err,
}

-- `Auth`
pub record Credentials : Type 0 where
  pub username : Text
  pub password : Text
  pub public_key : Text

pub record User : Type 0 where
  pub jail_directory : Text
  pub readonly : Bool
  pub auth : Credentials
  pub is_clean_dir_user : Bool

pub record UserGov : Type 0 where
  pub users : List User

-- `User{}`
abbrev pub no_user : User
no_user = record {
  jail_directory = [];
  readonly = false;
  auth = record { username = []; password = []; public_key = [] };
  is_clean_dir_user = false;
}

unfoldable pub new_user_gov : List User → UserGov
new_user_gov users = record { users = users }

unfoldable pub set_users : UserGov → List User → UserGov
set_users ug users = record ug { users = users }

-- The test of `AuthPass` on one account.
abbrev pub accepts : Text → Text → User → Bool
accepts name pass v = v.auth.username == name && v.auth.password == pass

auth_pass_loop : List User → Text → Text → User × Bool
auth_pass_loop [] name pass = (no_user, false)
auth_pass_loop (v ∷ users) name pass =
    let rest = auth_pass_loop users name pass in if accepts name pass v then (v, true) else rest

unfoldable pub auth_pass : UserGov → Text → Text → User × Bool
unfolding auth_pass_loop
auth_pass ug name pass = auth_pass_loop ug.users name pass

module _ {Key : Type 0} (parse_authorized_key : Text → Result Key) (marshal : Key → Text) where
  -- The body of `AuthPublicKey`'s loop once the names agree, and what the rest of the loop gives.
  abbrev check_key :
      User → Result Key → Key → User × Bool × Option Error → User × Bool × Option Error
  check_key v (err e) key rest = (v, false, some e)
  check_key v (ok k) key rest = if marshal k == marshal key then (v, true, none) else rest

  auth_public_key_loop : List User → Text → Key → User × Bool × Option Error
  auth_public_key_loop [] name key = (no_user, false, none)
  auth_public_key_loop (v ∷ users) name key =
      let rest = auth_public_key_loop users name key in
      if v.auth.username == name
      then check_key v (parse_authorized_key v.auth.public_key) key rest
      else rest

  unfoldable pub auth_public_key : UserGov → Text → Key → User × Bool × Option Error
  unfolding auth_public_key_loop
  auth_public_key ug name key = auth_public_key_loop ug.users name key
