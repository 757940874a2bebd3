-- ===== src/Server/Packets.antt =====
-- `handlePacket` and the `respond` methods of src/pkgsftp/server.go, with those of the extensions
-- in src/pkgsftp/packet.go, and the read-only check of the workers.
use Prim.Native.Nat.{bit_and, min}
use azure_s_sftp.Base.{
  ℕ, zero, suc, ◌+◌, ◌*◌, Bool, true, false, ◌&&◌, not, List, [], ◌∷◌, map, Option, none, some,
  Text, codes, eqb, if◌then◌else◌, Error, Result, ok, err, is_exist, enotdir,
}
use azure_s_sftp.FilePath.{slash, is_abs, clean, join}
use azure_s_sftp.Server.{
  File, Info, Statfs, Mode, OpenFlags, Call, Server, Extension, Packet, NameAttr, Response, Host,
  ebadf, eperm, einval, get_user_jail_path, next_handle, get_handle, close_handle,
}
use azure_s_sftp.Server.LongName.{run_ls}
use azure_s_sftp.Server.Status.{status_from_error, fx_op_unsupported}

-- The flags of an open request: `sshFxfRead`, `sshFxfWrite` and so on.
abbrev pub fxf_read : ℕ
fxf_read = 1

abbrev pub fxf_write : ℕ
fxf_write = 2

abbrev pub fxf_creat : ℕ
fxf_creat = 8

abbrev pub fxf_trunc : ℕ
fxf_trunc = 16

abbrev pub fxf_excl : ℕ
fxf_excl = 32

unfoldable pub has_pflags : ℕ → List ℕ → Bool
has_pflags pflags [] = true
has_pflags pflags (f ∷ flags) =
    let rest = has_pflags pflags flags in if eqb (bit_and pflags f) 0 then false else rest

-- The access that an open request asks for; `none` is the error EINVAL.
unfoldable pub open_mode : ℕ → Option Mode
unfolding has_pflags
open_mode pflags =
    if has_pflags pflags (fxf_read ∷ fxf_write ∷ [])
    then some Mode.read_write
    else if has_pflags pflags (fxf_write ∷ [])
    then some Mode.write_only
    else if has_pflags pflags (fxf_read ∷ [])
    then some Mode.read_only
    else none

abbrev pub open_flags : Mode → ℕ → OpenFlags
open_flags mode pflags = record {
  mode = mode;
  create = has_pflags pflags (fxf_creat ∷ []);
  trunc = has_pflags pflags (fxf_trunc ∷ []);
  excl = has_pflags pflags (fxf_excl ∷ []);
}

abbrev pub Reply : Type 0
Reply = Server × Response

-- The session has made a call.
abbrev pub ask : Server → Call → Server
ask s c = record s { calls = c ∷ s.calls }

-- `cleanPath` of src/pkgsftp/request-server.go.
unfoldable pub clean_path : Text → Text
unfolding clean is_abs
clean_path p = if is_abs p then clean p else clean (slash ∷ p)

unfoldable pub unmarshal_uint : ℕ → ℕ → List ℕ → Option (ℕ × List ℕ)
unmarshal_uint zero acc b = some (acc, b)
unmarshal_uint (suc n) acc [] = none
unmarshal_uint (suc n) acc (c ∷ b) = unmarshal_uint n (acc * 256 + c) b

abbrev pub short_packet : Error
short_packet = Error.other (codes "packet too short")

-- The bytes still to be read, the error so far and the session, between the steps of `respond`.
abbrev pub Setting : Type 0
Setting = List ℕ × Option Error × Server

module _ (host : Host) where
  -- A call that returns an error or none.
  abbrev pub act : Server → ℕ → Call → Reply
  act s id c = (ask s c, status_from_error id (host.act s.calls c))

  unfoldable pub info_reply : ℕ → Result Info → Response
  info_reply id (ok info) = Response.attrs id info
  info_reply id (err e) = status_from_error id (some e)

  abbrev pub ask_info : Server → ℕ → Call → Reply
  ask_info s id c = (ask s c, info_reply id (host.info s.calls c))

  -- An entry of the answer to a readdir request.
  unfoldable pub entry : List Call → Text → Info → NameAttr
  unfolding run_ls
  entry before dirname info = record {
    name = info.name;
    long_name = run_ls (host.date before) dirname info;
    info = some info;
  }

  -- `sshFxpReaddirPacket.respond`, from the call of `Readdir` on.
  unfoldable pub names_reply : List Call → Text → ℕ → Result (List Info) → Response
  unfolding entry
  names_reply before dirname id (ok infos) = Response.name id (map (entry before dirname) infos)
  names_reply before dirname id (err e) = status_from_error id (some e)

  -- The answer that consists of one path.
  unfoldable pub path_reply : ℕ → Text → Response
  path_reply id f = Response.name id (record { name = f; long_name = f; info = none } ∷ [])

  unfoldable pub readlink_reply : ℕ → Result Text → Response
  unfolding path_reply
  readlink_reply id (ok f) = path_reply id f
  readlink_reply id (err e) = status_from_error id (some e)

  unfoldable pub opened : Server → ℕ → Result File → Reply
  opened s id (err e) = (s, status_from_error id (some e))
  opened s id (ok f) = let (s', h) = next_handle s f in (s', Response.handle id h)

  -- `sshFxpOpenPacket.respond`
  unfoldable pub open_respond : Server → ℕ → Text → ℕ → Reply
  unfolding opened
  open_respond s id path pflags = elim (open_mode pflags) [
    | none ↦ (s, status_from_error id (some (Error.errno einval)))
    | some mode ↦
        let c = Call.open_file path (open_flags mode pflags) in
        opened (ask s c) id (host.file s.calls c)
  ]

  unfoldable pub opendir_stat : Server → ℕ → Text → Result Info → Reply
  opendir_stat s id path (err e) = (s, status_from_error id (some e))
  opendir_stat s id path (ok info) =
      if not info.mode.dir
      then (s, status_from_error id (some (Error.path_error (Error.errno enotdir))))
      else open_respond s id path fxf_read

  -- The case of `sshFxpOpendirPacket`.
  unfoldable pub opendir_respond : Server → ℕ → Text → Reply
  unfolding opendir_stat
  opendir_respond s id path =
      let c = Call.stat (get_user_jail_path s path) in
      opendir_stat (ask s c) id path (host.info s.calls c)

  -- `filepath.Abs`
  unfoldable pub absolute : Text → Result Text
  absolute p =
      if is_abs p
      then ok (clean p)
      else elim host.working_directory [ ok d ↦ ok (join (d ∷ p ∷ [])) | err e ↦ err e ]

  unfoldable pub realpath_reply : ℕ → Result Text → Response
  unfolding path_reply
  realpath_reply id (ok f) = path_reply id (clean_path f)
  realpath_reply id (err e) = status_from_error id (some e)

  abbrev pub max_tx_packet : ℕ
  max_tx_packet = 32768

  -- The error that a read reports: end of file counts only if nothing was read.
  unfoldable pub read_reply : ℕ → List ℕ × Option Error → Response
  read_reply id (bs, none) = Response.content id bs
  read_reply id ([], some e) = status_from_error id (some e)
  read_reply id (b ∷ bs, some Error.eof) = Response.content id (b ∷ bs)
  read_reply id (b ∷ bs, some e) = status_from_error id (some e)

  -- What is done on the file of a handle, or the status of a bad one.
  abbrev pub with_handle : Server → ℕ → Text → (File → Reply) → Reply
  with_handle s id h body = elim (get_handle s h) [
    | none ↦ (s, status_from_error id (some (Error.errno ebadf)))
    | some f ↦ body f
  ]

  -- One attribute of a `setstat`: its bytes are read, and the call is made on them.
  unfoldable pub one_value : ℕ → (ℕ → Call) → Setting → Setting
  one_value width call (b, e, s) = elim (unmarshal_uint width 0 b) [
    | none ↦ ([], some short_packet, s)
    | some (v, rest) ↦ (rest, host.act s.calls (call v), ask s (call v))
  ]

  unfoldable pub two_values : (Server → ℕ → ℕ → Option Error × Server) → Setting → Setting
  two_values body (b, e, s) = elim (unmarshal_uint 4 0 b) [
    | none ↦ ([], some short_packet, s)
    | some (v, rest) ↦ elim (unmarshal_uint 4 0 rest) [
      | none ↦ ([], some short_packet, s)
      | some (w, rest') ↦ let (e', s') = body s v w in (rest', e', s')
    ]
  ]

  abbrev pub made : (ℕ → ℕ → Call) → Server → ℕ → ℕ → Option Error × Server
  made call s v w = (host.act s.calls (call v w), ask s (call v w))

  -- The times are set only if a `Stat` of the path fails with an error that says that it exists.
  unfoldable pub guarded_chtimes : Text → Server → ℕ → ℕ → Option Error × Server
  guarded_chtimes path s v w =
      let asked = ask s (Call.stat path) in
      elim (host.info s.calls (Call.stat path)) [
        | ok info ↦ (none, asked)
        | err e ↦ if is_exist e then made (Call.chtimes path) asked v w else (none, asked)
      ]

  abbrev pub when_flag : ℕ → ℕ → (Setting → Setting) → Setting → Setting
  when_flag flags bit step st = if eqb (bit_and flags bit) 0 then st else step st

  abbrev pub setting_reply : ℕ → Setting → Reply
  setting_reply id (b, e, s) = (s, status_from_error id e)

  -- `sshFxpSetstatPacket.respond`
  unfoldable pub setstat_respond : Server → ℕ → Text → ℕ → List ℕ → Reply
  unfolding one_value two_values guarded_chtimes
  setstat_respond s id path flags b = setting_reply id (
      when_flag flags 2 (two_values (made (Call.chown path))) (
        when_flag flags 8 (two_values (guarded_chtimes path)) (
          when_flag flags 4 (one_value 4 (Call.chmod path))
            (when_flag flags 1 (one_value 8 (Call.truncate path)) (b, none, s)))))

  -- `sshFxpFsetstatPacket.respond`
  unfoldable pub fsetstat_respond : Server → ℕ → Text → ℕ → List ℕ → Reply
  unfolding one_value two_values
  fsetstat_respond s id h flags b = with_handle s id h λ f. setting_reply id (
      when_flag flags 2 (two_values (made (Call.fchown f))) (
        when_flag flags 8 (two_values (made (Call.chtimes f.name))) (
          when_flag flags 4 (one_value 4 (Call.fchmod f))
            (when_flag flags 1 (one_value 8 (Call.ftruncate f)) (b, none, s)))))

  -- `sshFxpExtendedPacketStatVFS.respond`, from the call of `Statfs` on.
  unfoldable pub file_system_reply : ℕ → Result Statfs → Response
  file_system_reply id (ok stat) = Response.file_system id stat
  file_system_reply id (err e) = status_from_error id (some e)

  unfoldable pub extended_respond : Server → ℕ → Extension → Reply
  unfolding file_system_reply
  extended_respond s id Extension.unsupported =
      (s, status_from_error id (some (Error.fx fx_op_unsupported)))
  extended_respond s id (Extension.statvfs path) =
      let c = Call.statfs path in (ask s c, file_system_reply id (host.file_system s.calls c))
  extended_respond s id (Extension.posix_rename old new) = act s id (Call.rename old new)
  extended_respond s id (Extension.hardlink old new) = act s id (Call.link old new)

  -- `handlePacket`: `none` is the error of a packet of an unexpected type, which ends the worker.
  unfoldable pub handle_packet : Server → Packet → Option Reply
  unfolding info_reply names_reply readlink_reply absolute realpath_reply read_reply
  handle_packet s Packet.init = some (s, Response.version)
  handle_packet s (Packet.stat id p) = some (ask_info s id (Call.stat (get_user_jail_path s p)))
  handle_packet s (Packet.lstat id p) = some (ask_info s id (Call.lstat p))
  handle_packet s (Packet.fstat id h) = some (with_handle s id h λ f. ask_info s id (Call.fstat f))
  handle_packet s (Packet.mkdir id p) = some (act s id (Call.mkdir (get_user_jail_path s p)))
  handle_packet s (Packet.rmdir id p) = some (act s id (Call.remove (get_user_jail_path s p)))
  handle_packet s (Packet.remove id p) = some (act s id (Call.remove p))
  handle_packet s (Packet.rename id old new) = some (act s id (Call.rename old new))
  handle_packet s (Packet.symlink id target path) =
      some (act s id (Call.symlink (get_user_jail_path s target) (get_user_jail_path s path)))
  handle_packet s (Packet.close id h) =
      let (s', e) = close_handle (λ f. host.act s.calls (Call.close f)) s h in
      some (s', status_from_error id e)
  handle_packet s (Packet.readlink id p) =
      let c = Call.readlink (get_user_jail_path s p) in
      some (ask s c, readlink_reply id (host.text s.calls c))
  handle_packet s (Packet.realpath id p) =
      some (s, realpath_reply id (absolute (get_user_jail_path s p)))
  handle_packet s (Packet.opendir id p) = some (opendir_respond s id p)
  handle_packet s (Packet.read id h offset len) = some (
      with_handle s id h λ f.
        let c = Call.read_at f offset (min len max_tx_packet) in
        (ask s c, read_reply id (host.bytes s.calls c)))
  handle_packet s (Packet.write id h offset bs) =
      some (with_handle s id h λ f. act s id (Call.write_at f offset bs))
  handle_packet s (Packet.open_path id p pflags) = some (open_respond s id p pflags)
  handle_packet s (Packet.readdir id h) = some (
      with_handle s id h λ f.
        let c = Call.readdir f in
        (ask s c, names_reply (c ∷ s.calls) f.name id (host.names s.calls c)))
  handle_packet s (Packet.setstat id p flags b) = some (setstat_respond s id p flags b)
  handle_packet s (Packet.fsetstat id h flags b) = some (fsetstat_respond s id h flags b)
  handle_packet s (Packet.extended id e) = some (extended_respond s id e)
  handle_packet s (Packet.foreign id) = none

-- Whether the workers take a packet for one that changes nothing.
unfoldable pub is_readonly : Packet → Bool
unfolding has_pflags
is_readonly (Packet.write id h o b) = false
is_readonly (Packet.setstat id p f b) = false
is_readonly (Packet.fsetstat id h f b) = false
is_readonly (Packet.remove id p) = false
is_readonly (Packet.mkdir id p) = false
is_readonly (Packet.rmdir id p) = false
is_readonly (Packet.rename id p q) = false
is_readonly (Packet.symlink id p q) = false
is_readonly (Packet.open_path id p f) = not (has_pflags f (fxf_write ∷ []))
is_readonly (Packet.extended id (Extension.posix_rename p q)) = false
is_readonly _ = true

-- One round of `sftpServerWorker`.
unfoldable pub serve_packet : Host → (Packet → ℕ) → Server → Packet → Option Reply
unfolding is_readonly
serve_packet host id_of s p =
    if not (is_readonly p) && s.read_only
    then some (s, status_from_error (id_of p) (some (Error.errno eperm)))
    else handle_packet host s p
