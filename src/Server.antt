-- ===== src/Server.antt =====
-- src/pkgsftp/server.go: one SFTP session. The file is the repository's own version of the
-- server of package github.com/pkg/sftp: it knows the user, the jail directory, and lets the file
-- watcher see its open files. State and the file jail; the packets are in Server/Packets.
pub mod Jail
pub mod LongName
pub mod Escape
pub mod Requests
pub mod Handles
pub mod Packets
pub mod Status
pub mod Replies
pub mod Serving
pub mod Wire
pub mod Attrs
pub mod Answers
pub mod Manager
pub mod Reaches
pub mod Kept
pub mod Counts
pub mod Fresh
pub mod Types
pub use Types.{
  File, FileMode, Stat, Info, Date, Statfs, Mode, OpenFlags, Call, Server, Extension, Packet,
  NameAttr, Response, Host, ebadf, eperm, einval,
}
use azure_s_sftp.Base.{
  ℕ, suc, ◌+◌, ◌/◌, ◌%◌, zero, Bool, true, false, ◌&&◌, not, List, [], ◌∷◌, ◌++◌, Option, none,
  some, Text, codes, ◌==◌, ltb, if◌then◌else◌, has_prefix, Error,
}
use azure_s_sftp.FilePath.{clean, join, is_abs}
use azure_s_sftp.User.{User}

-- `NewServer` with the one option that the service passes, `WithDebug`: nothing sets `readOnly`.
unfoldable pub new_server : User → Text → Server
new_server user jail_path = record {
  read_only = false;
  open_files = [];
  handle_count = 0;
  user = user;
  jail_path = jail_path;
  calls = [];
}

-- The directory that a user is held in: the chain of tests of `getUserJailPath`.
unfoldable pub chroot_of : Server → Text → Text
unfolding join ◌==◌
chroot_of svr file_path =
    let chroot = svr.jail_path in
    let u = svr.user in
    let whole_path = join (svr.jail_path ∷ u.jail_directory ∷ []) in
    if u.is_clean_dir_user && u.jail_directory == codes "*"
    then chroot
    else if u.is_clean_dir_user && not (u.jail_directory == codes "*")
    then join (chroot ∷ u.jail_directory ∷ [])
    else if not (u.jail_directory == [])
    then join (chroot ∷ u.jail_directory ∷ [])
    else if file_path == whole_path
    then file_path
    else chroot

unfoldable pub get_user_jail_path : Server → Text → Text
get_user_jail_path svr file_path =
    let chroot = chroot_of svr file_path in
    let c = clean file_path in
    if svr.jail_path == []
    then file_path
    else if is_abs c && has_prefix c chroot
    then c
    else join (chroot ∷ c ∷ [])

-- `strconv.Itoa` on a number that is not negative: the digits, by division. The number of rounds
-- is at most the number itself and one.
unfoldable pub itoa_rounds : ℕ → ℕ → Text
itoa_rounds zero n = []
itoa_rounds (suc fuel) n =
    let front = itoa_rounds fuel (n / 10) in
    if ltb n 10 then (48 + n) ∷ [] else front ++ ((48 + n % 10) ∷ [])

unfoldable pub itoa : ℕ → Text
unfolding itoa_rounds
itoa n = itoa_rounds (suc n) n

-- A Go map from handles to files, as an association list; a write to a key replaces its entry.
unfoldable pub lookup : Text → List (Text × File) → Option File
unfolding ◌==◌
lookup h [] = none
lookup h ((k, f) ∷ m) = if k == h then some f else lookup h m

unfoldable pub erase : Text → List (Text × File) → List (Text × File)
unfolding ◌==◌
erase h [] = []
erase h ((k, f) ∷ m) = let rest = erase h m in if k == h then rest else (k, f) ∷ rest

unfoldable pub next_handle : Server → File → Server × Text
unfolding itoa erase
next_handle svr f =
    let count = svr.handle_count + 1 in
    let handle = itoa count in
    (
      record svr { handle_count = count; open_files = (handle, f) ∷ erase handle svr.open_files },
      handle,
    )

unfoldable pub get_handle : Server → Text → Option File
unfolding lookup
get_handle svr handle = lookup handle svr.open_files

-- The entry is deleted and its file is closed, or the handle is bad: EBADF. What closing the file
-- returns is the operating system's.
unfoldable pub close_handle : (File → Option Error) → Server → Text → Server × Option Error
unfolding get_handle erase
close_handle close svr handle = elim (get_handle svr handle) [
  | none ↦ (svr, some (Error.errno ebadf))
  | some f ↦ (
    record svr { open_files = erase handle svr.open_files; calls = Call.close f ∷ svr.calls },
    close f,
  )
]
