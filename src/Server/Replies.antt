-- ===== src/Server/Replies.antt =====
-- Every request is answered, under its own identifier; the workers' read-only check.
use azure_s_sftp.Base.{
  ℕ, ◌≡◌, refl, Bool, true, false, List, [], ◌∷◌, Option, none, some, Text, Error, Result, ok, err,
  Bool-cases, inl, inr, Option-cases,
}
use azure_s_sftp.Server.{
  File, Info, Statfs, Call, Server, Extension, Packet, Response, Host, get_handle,
}
use azure_s_sftp.Server.Status.{status_from_error}
use azure_s_sftp.Server.Packets.{
  Reply, handle_packet, open_respond, opendir_respond, setstat_respond, fsetstat_respond,
  extended_respond, with_handle, info_reply, names_reply, readlink_reply, file_system_reply,
  realpath_reply, read_reply, opened, opendir_stat, open_mode,
}

unfoldable pub packet_id : Packet → ℕ
packet_id Packet.init = 0
packet_id (Packet.stat id p) = id
packet_id (Packet.lstat id p) = id
packet_id (Packet.mkdir id p) = id
packet_id (Packet.rmdir id p) = id
packet_id (Packet.remove id p) = id
packet_id (Packet.readlink id p) = id
packet_id (Packet.realpath id p) = id
packet_id (Packet.opendir id p) = id
packet_id (Packet.rename id p q) = id
packet_id (Packet.symlink id p q) = id
packet_id (Packet.fstat id h) = id
packet_id (Packet.close id h) = id
packet_id (Packet.readdir id h) = id
packet_id (Packet.read id h o n) = id
packet_id (Packet.write id h o b) = id
packet_id (Packet.open_path id p f) = id
packet_id (Packet.setstat id p f b) = id
packet_id (Packet.fsetstat id h f b) = id
packet_id (Packet.extended id e) = id
packet_id (Packet.foreign id) = id

unfoldable pub reply_id : Response → ℕ
reply_id Response.version = 0
reply_id (Response.status id c e) = id
reply_id (Response.attrs id i) = id
reply_id (Response.name id n) = id
reply_id (Response.handle id h) = id
reply_id (Response.content id b) = id
reply_id (Response.file_system id f) = id

unfoldable pub is_foreign : Packet → Bool
is_foreign (Packet.foreign id) = true
is_foreign _ = false

-- The answer carries the identifier of the request.
abbrev pub Answers : ℕ → Reply → Type 0
Answers id (s, r) = reply_id r ≡ id

abbrev pub IsAnswered : Packet → Option Reply → Type 0
IsAnswered p none = is_foreign p ≡ true
IsAnswered p (some r) = Answers (packet_id p) r

status-Answers : (s : Server) (id : ℕ) (e : Option Error) → Answers id (s, status_from_error id e)
unfolding status_from_error reply_id
status-Answers s id e = refl

module _ (host : Host) where
  with_handle-Answers :
      (s : Server) (id : ℕ) (h : Text) (body : File → Reply)
      → ((f : File) → Answers id (body f))
      → Answers id (with_handle host s id h body)
  with_handle-Answers s id h body b = elim (Option-cases (get_handle s h)) [
    | inl e ↦ rw (e, with_handle) (status-Answers s id _)
    | inr (f, e) ↦ rw (e, with_handle) (b f)
  ]

  info_reply-Answers :
      (s : Server) (id : ℕ) (r : Result Info) → Answers id (s, info_reply host id r)
  unfolding info_reply reply_id
  info_reply-Answers s id (ok i) = refl
  info_reply-Answers s id (err e) = status-Answers s id (some e)

  names_reply-Answers :
      (s : Server) (before : List Call) (dirname : Text) (id : ℕ) (r : Result (List Info))
      → Answers id (s, names_reply host before dirname id r)
  unfolding names_reply reply_id
  names_reply-Answers s before dirname id (ok i) = refl
  names_reply-Answers s before dirname id (err e) = status-Answers s id (some e)

  readlink_reply-Answers :
      (s : Server) (id : ℕ) (r : Result Text) → Answers id (s, readlink_reply host id r)
  unfolding readlink_reply reply_id
  readlink_reply-Answers s id (ok i) = refl
  readlink_reply-Answers s id (err e) = status-Answers s id (some e)

  file_system_reply-Answers :
      (s : Server) (id : ℕ) (r : Result Statfs) → Answers id (s, file_system_reply host id r)
  unfolding file_system_reply reply_id
  file_system_reply-Answers s id (ok i) = refl
  file_system_reply-Answers s id (err e) = status-Answers s id (some e)

  realpath_reply-Answers :
      (s : Server) (id : ℕ) (r : Result Text) → Answers id (s, realpath_reply host id r)
  unfolding realpath_reply reply_id
  realpath_reply-Answers s id (ok i) = refl
  realpath_reply-Answers s id (err e) = status-Answers s id (some e)

  opened-Answers : (s : Server) (id : ℕ) (r : Result File) → Answers id (opened host s id r)
  unfolding opened reply_id
  opened-Answers s id (ok f) = refl
  opened-Answers s id (err e) = status-Answers s id (some e)

  open_respond-Answers :
      (s : Server) (id : ℕ) (p : Text) (f : ℕ) → Answers id (open_respond host s id p f)
  unfolding open_respond
  open_respond-Answers s id p f = elim (Option-cases (open_mode f)) [
    | inl e ↦ rw (e, open_respond) (status-Answers s id _)
    | inr (m, e) ↦ rw (e, open_respond) (opened-Answers _ id _)
  ]

  opendir_stat-Answers :
      (s : Server) (id : ℕ) (p : Text) (r : Result Info) → Answers id (opendir_stat host s id p r)
  unfolding opendir_stat
  opendir_stat-Answers s id p (err e) = status-Answers s id (some e)
  opendir_stat-Answers s id p (ok i) = elim (Bool-cases i.mode.dir) [
    | inl e ↦ rw e (open_respond-Answers s id p 1)
    | inr e ↦ rw e (status-Answers s id _)
  ]

  read_reply-Answers :
      (s : Server) (id : ℕ) (r : List ℕ × Option Error) → Answers id (s, read_reply host id r)
  unfolding read_reply reply_id
  read_reply-Answers s id (bs, none) = refl
  read_reply-Answers s id ([], some e) = status-Answers s id (some e)
  read_reply-Answers s id (b ∷ bs, some Error.eof) = refl
  read_reply-Answers s id (b ∷ bs, some (Error.errno n)) = status-Answers s id _
  read_reply-Answers s id (b ∷ bs, some e) = status-Answers s id (some e)

  extended_respond-Answers :
      (s : Server) (id : ℕ) (e : Extension) → Answers id (extended_respond host s id e)
  unfolding extended_respond reply_id
  extended_respond-Answers s id Extension.unsupported = status-Answers s id _
  extended_respond-Answers s id (Extension.statvfs p) =
      file_system_reply-Answers s id (host.file_system s.calls (Call.statfs p))
  extended_respond-Answers s id (Extension.posix_rename p q) = status-Answers s id _
  extended_respond-Answers s id (Extension.hardlink p q) = status-Answers s id _

  -- Every request of a known type is answered once, whatever the operating system reports, and
  -- the answer carries the identifier of the request; only a packet of a foreign type is an error.
  pub handle_packet-IsAnswered : (s : Server) (p : Packet) → IsAnswered p (handle_packet host s p)
  unfolding handle_packet packet_id is_foreign reply_id opendir_respond setstat_respond
      fsetstat_respond
  handle_packet-IsAnswered s Packet.init = refl
  handle_packet-IsAnswered s (Packet.stat id p) = info_reply-Answers s id _
  handle_packet-IsAnswered s (Packet.lstat id p) = info_reply-Answers s id _
  handle_packet-IsAnswered s (Packet.fstat id h) =
      with_handle-Answers s id h _ (λ f. info_reply-Answers s id _)
  handle_packet-IsAnswered s (Packet.mkdir id p) = status-Answers s id _
  handle_packet-IsAnswered s (Packet.rmdir id p) = status-Answers s id _
  handle_packet-IsAnswered s (Packet.remove id p) = status-Answers s id _
  handle_packet-IsAnswered s (Packet.rename id p q) = status-Answers s id _
  handle_packet-IsAnswered s (Packet.symlink id p q) = status-Answers s id _
  handle_packet-IsAnswered s (Packet.close id h) = status-Answers s id _
  handle_packet-IsAnswered s (Packet.readlink id p) = readlink_reply-Answers s id _
  handle_packet-IsAnswered s (Packet.realpath id p) = realpath_reply-Answers s id _
  handle_packet-IsAnswered s (Packet.opendir id p) = opendir_stat-Answers _ id p _
  handle_packet-IsAnswered s (Packet.read id h o n) =
      with_handle-Answers s id h _ (λ f. read_reply-Answers s id _)
  handle_packet-IsAnswered s (Packet.write id h o b) =
      with_handle-Answers s id h _ (λ f. status-Answers s id _)
  handle_packet-IsAnswered s (Packet.open_path id p f) = open_respond-Answers s id p f
  handle_packet-IsAnswered s (Packet.readdir id h) =
      with_handle-Answers s id h _
        (λ f. names_reply-Answers s (Call.readdir f ∷ s.calls) f.name id _)
  handle_packet-IsAnswered s (Packet.setstat id p f b) = status-Answers s id _
  handle_packet-IsAnswered s (Packet.fsetstat id h f b) =
      with_handle-Answers s id h _ (λ g. status-Answers s id _)
  handle_packet-IsAnswered s (Packet.extended id e) = extended_respond-Answers s id e
  handle_packet-IsAnswered s (Packet.foreign id) = refl
