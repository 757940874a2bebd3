-- ===== src/Service.antt =====
-- src/ssftp/sftpservice.go: logins, the sessions that the service opens, and their removal. SSH
-- itself, golang.org/x/crypto/ssh, calls the service with what a connection offers.
pub mod Logins
pub mod Removal
pub mod Users
pub mod HostKey
pub mod KeyStays
use azure_s_sftp.Base.{
  ℕ, zero, suc, ◌+◌, ◌-◌, Bool, true, false, not, List, [], ◌∷◌, ◌++◌, Option, none, some, Text,
  codes, ◌==◌, eqb, leb, length, take, drop, get_elem?, if◌then◌else◌, Error, Result, ok, err,
  is_not_exist,
}
use azure_s_sftp.FilePath.{join}
use azure_s_sftp.Files.{Node, Files, stat, mkdir}
use azure_s_sftp.User.{User, UserGov, no_user, set_users, auth_pass, auth_public_key}
use azure_s_sftp.Server.{Server, new_server}
use azure_s_sftp.Config.Types.{Config}

-- A `*sftp.Server` of the list of servers: `id` tells which one it is.
pub record Session : Type 0 where
  pub id : ℕ
  pub server : Server

-- `SFTPService`, with the file system that the logins make directories in, and the number of
-- servers that were made.
pub record Service : Type 0 where
  pub usrgov : UserGov
  pub login_user : User
  pub servers : List Session
  pub made : ℕ
  pub files : Files

abbrev made_if_missing : Files → Text → Result Node → Files
made_if_missing fs path (ok n) = fs
made_if_missing fs path (err e) = if is_not_exist e then (mkdir fs path).1 else fs

-- `UserGov.CreateUserDir` of src/user/usergov.go.
unfoldable pub create_user_dir : Files → Text → Text → Files
create_user_dir fs base_dir name =
    let dir_path = join (base_dir ∷ name ∷ []) in made_if_missing fs dir_path (stat fs dir_path)

-- The directory that a login makes.
unfoldable pub create_login_dir : Config → User → Files → Files
create_login_dir c u fs =
    if u.is_clean_dir_user
    then if not (u.jail_directory == codes "*")
      then create_user_dir fs c.clean_path u.jail_directory
      else fs
    else create_user_dir fs c.staging_path u.jail_directory

abbrev pub logged_in : Config → Service → User → Service
logged_in c ss usr = record ss { login_user = usr; files = create_login_dir c usr ss.files }

abbrev pub passed : Config → Service → User × Bool → Service × Bool
passed c ss (usr, true) = (logged_in c ss usr, true)
passed c ss (usr, false) = (ss, false)

-- `PasswordCallback`: whether the login is accepted.
unfoldable pub password_callback : Config → Service → Text → Text → Service × Bool
password_callback c ss name pass = passed c ss (auth_pass ss.usrgov name pass)

abbrev pub key_passed : Config → Service → User × Bool × Option Error → Service × Bool
key_passed c ss (usr, found, some e) = (ss, false)
key_passed c ss (usr, true, none) = (logged_in c ss usr, true)
key_passed c ss (usr, false, none) = (ss, false)

module _ {Key : Type 0} (parse_authorized_key : Text → Result Key) (marshal : Key → Text) where
  -- `PublicKeyCallback`
  unfoldable pub public_key_callback : Config → Service → Text → Key → Service × Bool
  public_key_callback c ss name key =
      key_passed c ss (auth_public_key parse_authorized_key marshal ss.usrgov name key)

-- A channel that a client opens: only a session is accepted, and a server is made for the user
-- who logged in last.
unfoldable pub open_channel : Config → Service → Text → Service
open_channel c ss channel_type =
    if not (channel_type == codes "session")
    then ss
    else let jail_path = if ss.login_user.is_clean_dir_user then c.clean_path else c.staging_path in
      record ss {
        servers =
            ss.servers
            ++ (record { id = ss.made; server = new_server ss.login_user jail_path } ∷ []);
        made = ss.made + 1;
      }

-- The answer to a request on a channel; `none` stands for the panic of a payload that is too
-- short to slice.
unfoldable pub request_reply : Text → Text → Option Bool
request_reply req_type payload =
    if req_type == codes "subsystem"
    then if leb 4 (length payload) then some (drop 4 payload == codes "sftp") else none
    else some false

abbrev pub has_id : Option Session → ℕ → Bool
has_id none x = false
has_id (some s) x = eqb s.id x

-- The loop of `removeServer`, from index `i` down to index 1.
unfoldable pub remove_from : ℕ → List Session → ℕ → List Session
remove_from zero servers x = servers
remove_from (suc i) servers x =
    remove_from i
      (if has_id (get_elem? servers (suc i)) x
        then take (suc i) servers ++ drop (suc (suc i)) servers
        else servers)
      x

unfoldable pub remove_server : List Session → ℕ → List Session
unfolding remove_from
remove_server servers x = remove_from (length servers - 1) servers x

-- How `Serve` returns: at the end of the client's stream, with another error, or with none.
pub data Ended : Type 0 where
  at_eof with_error clean : Ended

-- The end of a session: only one that ended at the end of its stream is removed.
unfoldable pub end_session : Service → ℕ → Ended → Service
end_session ss x Ended.at_eof = record ss { servers = remove_server ss.servers x }
end_session ss x _ = ss
