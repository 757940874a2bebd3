-- ===== src/Service/Logins.antt =====
-- What happens to the service over time: logins of its connections, channels, ends of sessions, and
-- new users from a configuration that was loaded again.
use azure_s_sftp.Base.{List, [], ◌∷◌, ℕ, Text, Result}
use azure_s_sftp.Files.{Files}
use azure_s_sftp.User.{User, UserGov, no_user, set_users}
use azure_s_sftp.Config.Types.{Config}
use azure_s_sftp.Service.{
  Service, password_callback, public_key_callback, open_channel, Ended, end_session,
}

-- `NewSFTPService`
unfoldable pub new_sftp_service : UserGov → Files → Service
new_sftp_service usrgov fs = record {
  usrgov = usrgov;
  login_user = no_user;
  servers = [];
  made = 0;
  files = fs;
}

-- The first number of a login or a channel is that of the connection which it comes over. The
-- service does not look at it.
pub data Event (Key : Type 0) : Type 0 where
  password : ℕ → Text → Text → Event Key
  public_key : ℕ → Text → Key → Event Key
  channel : ℕ → Text → Event Key
  ended : ℕ → Ended → Event Key
  users_loaded : List User → Event Key

module _ {Key : Type 0} (parse_authorized_key : Text → Result Key) (marshal : Key → Text)
    (c : Config) where
  unfoldable pub step : Service → Event Key → Service
  step ss (password conn name pass) = (password_callback c ss name pass).0
  step ss (public_key conn name key) =
      (public_key_callback parse_authorized_key marshal c ss name key).0
  step ss (channel conn channel_type) = open_channel c ss channel_type
  step ss (ended x how) = end_session ss x how
  step ss (users_loaded users) = record ss { usrgov = set_users ss.usrgov users }

  unfoldable pub run : Service → List (Event Key) → Service
  run ss [] = ss
  run ss (e ∷ es) = run (step ss e) es
