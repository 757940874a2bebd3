-- ===== src/Tests/Hosts.antt =====
-- What the tests' operating systems answer.
use azure_s_sftp.Base.{false, some, codes}
use azure_s_sftp.Server.{FileMode, Info, Date}

abbrev pub plain : FileMode
plain = record {
  perm = 420;
  dir = false;
  symlink = false;
  device = false;
  char_device = false;
  named_pipe = false;
  socket = false;
  irregular = false;
  setuid = false;
  setgid = false;
  sticky = false;
}

abbrev pub a_file : Info
a_file = record {
  name = codes "a";
  size = 3;
  mode = plain;
  mtime = 1600000000;
  sys = some (record { nlink = 1; uid = 1000; gid = 100 });
}

abbrev pub a_date : Date
a_date = record {
  month = codes "Sep";
  day = 13;
  year = 2020;
  hour = 12;
  minute = 26;
  is_old = false;
}
