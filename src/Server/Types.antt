-- ===== src/Server/Types.antt =====
-- The state of a session, the packets that a client sends, and the calls that the session makes of
-- the operating system.
use azure_s_sftp.Base.{ℕ, Bool, List, Text, Option, Error, Result}
use azure_s_sftp.User.{User}

-- `*os.File`: the name that it was opened under, and which one it is.
pub record File : Type 0 where
  pub name : Text
  pub fd : ℕ

-- `os.FileMode`: the permissions, below 512, and the bits that are read.
pub record FileMode : Type 0 where
  pub perm : ℕ
  pub dir : Bool
  pub symlink : Bool
  pub device : Bool
  pub char_device : Bool
  pub named_pipe : Bool
  pub socket : Bool
  pub irregular : Bool
  pub setuid : Bool
  pub setgid : Bool
  pub sticky : Bool

-- `syscall.Stat_t`, as far as it is read.
pub record Stat : Type 0 where
  pub nlink : ℕ
  pub uid : ℕ
  pub gid : ℕ

-- `os.FileInfo`; `mtime` is `ModTime().Unix()`, and `sys` is none if it is not a `Stat_t`.
pub record Info : Type 0 where
  pub name : Text
  pub size : ℕ
  pub mode : FileMode
  pub mtime : ℕ
  pub sys : Option Stat

-- What package time makes of a modification time: the first three letters of the month, and
-- whether it lies half a year back.
pub record Date : Type 0 where
  pub month : Text
  pub day : ℕ
  pub year : ℕ
  pub hour : ℕ
  pub minute : ℕ
  pub is_old : Bool

-- `syscall.Statfs_t`, as far as it is read.
pub record Statfs : Type 0 where
  pub bsize : ℕ
  pub frsize : ℕ
  pub blocks : ℕ
  pub bfree : ℕ
  pub bavail : ℕ
  pub files : ℕ
  pub ffree : ℕ
  pub flags : ℕ
  pub namelen : ℕ

-- The flags of `os.OpenFile`.
pub data Mode : Type 0 where
  read_only write_only read_write : Mode

pub record OpenFlags : Type 0 where
  pub mode : Mode
  pub create : Bool
  pub trunc : Bool
  pub excl : Bool

-- A call of the operating system, with the path or the file that it is made on.
pub data Call : Type 0 where
  stat lstat mkdir remove readlink statfs : Text → Call
  rename symlink link : Text → Text → Call
  open_file : Text → OpenFlags → Call
  truncate chmod : Text → ℕ → Call
  chtimes chown : Text → ℕ → ℕ → Call
  fstat readdir close : File → Call
  read_at : File → ℕ → ℕ → Call
  write_at : File → ℕ → List ℕ → Call
  ftruncate fchmod : File → ℕ → Call
  fchown : File → ℕ → ℕ → Call

pub record Server : Type 0 where
  pub read_only : Bool
  pub open_files : List (Text × File)
  pub handle_count : ℕ
  pub user : User
  pub jail_path : Text
  -- What the session has asked of the operating system, the latest first.
  pub calls : List Call

abbrev pub ebadf : ℕ
ebadf = 9

abbrev pub eperm : ℕ
eperm = 1

abbrev pub einval : ℕ
einval = 22

-- The extensions that `sshFxpExtendedPacket` reads; `unsupported` has no specific packet.
pub data Extension : Type 0 where
  unsupported : Extension
  statvfs : Text → Extension
  posix_rename hardlink : Text → Text → Extension

-- The requests, with the identifier that the client gave them. `foreign` is a packet of any other
-- type.
pub data Packet : Type 0 where
  init : Packet
  stat lstat mkdir rmdir remove readlink realpath opendir : ℕ → Text → Packet
  rename symlink : ℕ → Text → Text → Packet
  fstat close readdir : ℕ → Text → Packet
  read : ℕ → Text → ℕ → ℕ → Packet
  write : ℕ → Text → ℕ → List ℕ → Packet
  open_path : ℕ → Text → ℕ → Packet
  setstat fsetstat : ℕ → Text → ℕ → List ℕ → Packet
  extended : ℕ → Extension → Packet
  foreign : ℕ → Packet

-- `sshFxpNameAttr`; without information it carries `emptyFileStat`.
pub record NameAttr : Type 0 where
  pub name : Text
  pub long_name : Text
  pub info : Option Info

-- The answers. A status carries the code of the protocol, and the error whose text it tells.
pub data Response : Type 0 where
  version : Response
  status : ℕ → ℕ → Option Error → Response
  attrs : ℕ → Info → Response
  name : ℕ → List NameAttr → Response
  handle : ℕ → Text → Response
  content : ℕ → List ℕ → Response
  file_system : ℕ → Statfs → Response

-- What the operating system answers to a call, given the calls that the session made before it,
-- the latest first: the information of a file, an error or none, a text, an open file, the bytes
-- read with the error at their end, the files in a directory, the state of a file system; and what
-- a modification time is at that moment.
pub record Host : Type 0 where
  pub info : List Call → Call → Result Info
  pub act : List Call → Call → Option Error
  pub text : List Call → Call → Result Text
  pub file : List Call → Call → Result File
  pub bytes : List Call → Call → List ℕ × Option Error
  pub names : List Call → Call → Result (List Info)
  pub file_system : List Call → Call → Result Statfs
  pub date : List Call → ℕ → Date
  pub working_directory : Result Text
