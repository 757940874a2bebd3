-- ===== src/Server/Counts.antt =====
-- Which handle the answer to a packet gives, and how the count of handles goes on.
use Prim.Native.Nat.{min}
use azure_s_sftp.Base.{
  ℕ, ◌+◌, ◌≡◌, refl, ◌∙◌, not, ◌&&◌, ◌⊎◌, inl, inr, List, [], ◌∷◌, Option, none, some, Text, Error,
  Result, ok, err, arith, Bool-cases, Option-cases,
}
use azure_s_sftp.Server.{
  File, Info, Statfs, Call, Server, Extension, Packet, Host, get_user_jail_path, itoa, next_handle,
  get_handle, close_handle,
}
use azure_s_sftp.Server.Status.{status_from_error}
use azure_s_sftp.Server.Packets.{
  Reply, Setting, opened, open_mode, open_flags, open_respond, opendir_stat, opendir_respond,
  with_handle, info_reply, names_reply, readlink_reply, file_system_reply, realpath_reply,
  read_reply, one_value, two_values, made, guarded_chtimes, when_flag, unmarshal_uint,
  setstat_respond, fsetstat_respond, extended_respond, handle_packet, is_readonly, serve_packet,
  ask,
}
use azure_s_sftp.Server.Serving.{handle_of}

-- An answer without a handle, from a session that has given none, or the next number.
abbrev pub Gives : ℕ → Reply → Type 0
Gives n (s, r) =
    ((handle_of r ≡ []) × (s.handle_count ≡ n))
    ⊎ ((handle_of r ≡ itoa (n + 1) ∷ []) × (s.handle_count ≡ n + 1))

abbrev pub GivesReply : ℕ → Option Reply → Type 0
GivesReply n none = Unit
GivesReply n (some r) = Gives n r

status-Gives :
    (s : Server) (n id : ℕ) (e : Option Error)
    → s.handle_count ≡ n
    → Gives n (s, status_from_error id e)
unfolding status_from_error
status-Gives s n id e h = inl (refl, h)

module _ (host : Host) where
  info_reply-Gives :
      (s : Server) (id : ℕ) (r : Result Info) → Gives s.handle_count (s, info_reply host id r)
  unfolding info_reply
  info_reply-Gives s id (ok i) = inl (refl, refl)
  info_reply-Gives s id (err e) = status-Gives s _ id (some e) refl

  names_reply-Gives :
      (s : Server) (before : List Call) (dirname : Text) (id : ℕ) (r : Result (List Info))
      → Gives s.handle_count (s, names_reply host before dirname id r)
  unfolding names_reply
  names_reply-Gives s before dirname id (ok i) = inl (refl, refl)
  names_reply-Gives s before dirname id (err e) = status-Gives s _ id (some e) refl

  readlink_reply-Gives :
      (s : Server) (id : ℕ) (r : Result Text) → Gives s.handle_count (s, readlink_reply host id r)
  unfolding readlink_reply
  readlink_reply-Gives s id (ok i) = inl (refl, refl)
  readlink_reply-Gives s id (err e) = status-Gives s _ id (some e) refl

  file_system_reply-Gives :
      (s : Server) (id : ℕ) (r : Result Statfs)
      → Gives s.handle_count (s, file_system_reply host id r)
  unfolding file_system_reply
  file_system_reply-Gives s id (ok i) = inl (refl, refl)
  file_system_reply-Gives s id (err e) = status-Gives s _ id (some e) refl

  realpath_reply-Gives :
      (s : Server) (id : ℕ) (r : Result Text) → Gives s.handle_count (s, realpath_reply host id r)
  unfolding realpath_reply
  realpath_reply-Gives s id (ok i) = inl (refl, refl)
  realpath_reply-Gives s id (err e) = status-Gives s _ id (some e) refl

  read_reply-Gives :
      (s : Server) (id : ℕ) (r : List ℕ × Option Error)
      → Gives s.handle_count (s, read_reply host id r)
  unfolding read_reply
  read_reply-Gives s id (bs, none) = inl (refl, refl)
  read_reply-Gives s id ([], some e) = status-Gives s _ id (some e) refl
  read_reply-Gives s id (b ∷ bs, some Error.eof) = inl (refl, refl)
  read_reply-Gives s id (b ∷ bs, some (Error.errno n)) = status-Gives s _ id _ refl
  read_reply-Gives s id (b ∷ bs, some e) = status-Gives s _ id (some e) refl

  opened-Gives : (s : Server) (id : ℕ) (r : Result File) → Gives s.handle_count (opened host s id r)
  unfolding opened next_handle
  opened-Gives s id (ok f) = inr (refl, refl)
  opened-Gives s id (err e) = status-Gives s _ id (some e) refl

  open_respond-Gives :
      (s : Server) (id : ℕ) (p : Text) (f : ℕ) → Gives s.handle_count (open_respond host s id p f)
  unfolding open_respond
  open_respond-Gives s id p f = elim (Option-cases (open_mode f)) [
    | inl e ↦ rw (e, open_respond) (status-Gives s _ id _ refl)
    | inr (m, e) ↦
        rw (e, open_respond)
          (let c = Call.open_file p (open_flags m f) in
            opened-Gives (ask s c) id (host.file s.calls c))
  ]

  opendir_stat-Gives :
      (s : Server) (id : ℕ) (p : Text) (r : Result Info)
      → Gives s.handle_count (opendir_stat host s id p r)
  unfolding opendir_stat
  opendir_stat-Gives s id p (err e) = status-Gives s _ id (some e) refl
  opendir_stat-Gives s id p (ok i) = elim (Bool-cases i.mode.dir) [
    | inl e ↦ rw e (open_respond-Gives s id p 1)
    | inr e ↦ rw e (status-Gives s _ id _ refl)
  ]

  with_handle-Gives :
      (s : Server) (id : ℕ) (h : Text) (body : File → Reply)
      → ((f : File) → Gives s.handle_count (body f))
      → Gives s.handle_count (with_handle host s id h body)
  with_handle-Gives s id h body b = elim (Option-cases (get_handle s h)) [
    | inl e ↦ rw (e, with_handle) (status-Gives s _ id _ refl)
    | inr (f, e) ↦ rw (e, with_handle) (b f)
  ]

  close-Gives :
      (close : File → Option Error) (s : Server) (h : Text)
      → (close_handle close s h).0.handle_count ≡ s.handle_count
  unfolding close_handle
  close-Gives close s h = elim (Option-cases (get_handle s h)) [
    | inl e ↦ rw (e, close_handle)
    | inr (f, e) ↦ rw (e, close_handle)
  ]

  -- The count of a setting's session.
  abbrev counted : Setting → ℕ
  counted (b, e, s) = s.handle_count

  one_value-counted :
      (w : ℕ) (call : ℕ → Call) (st : Setting) → counted (one_value host w call st) ≡ counted st
  unfolding one_value
  one_value-counted w call (b, e, s) = elim (Option-cases (unmarshal_uint w 0 b)) [
    | inl h ↦ rw (h, one_value)
    | inr ((v, r), h) ↦ rw (h, one_value)
  ]

  two_values-counted :
      (body : Server → ℕ → ℕ → Option Error × Server) (st : Setting)
      → ((s : Server) (v w : ℕ) → (body s v w).1.handle_count ≡ s.handle_count)
      → counted (two_values host body st) ≡ counted st
  unfolding two_values
  two_values-counted body (b, e, s) g = elim (Option-cases (unmarshal_uint 4 0 b)) [
    | inl h ↦ rw (h, two_values)
    | inr ((v, r), h) ↦ elim (Option-cases (unmarshal_uint 4 0 r)) [
      | inl k ↦ rw (h, two_values) (rw (k, two_values))
      | inr ((w, r'), k) ↦ rw (h, two_values) (rw (k, two_values) (g s v w))
    ]
  ]

  guarded_chtimes-counted :
      (p : Text) (s : Server) (v w : ℕ)
      → (guarded_chtimes host p s v w).1.handle_count ≡ s.handle_count
  unfolding guarded_chtimes
  guarded_chtimes-counted p s v w = ground arith

  when_flag-counted :
      (flags bit : ℕ) (step : Setting → Setting) (st : Setting)
      → ((x : Setting) → counted (step x) ≡ counted x)
      → counted (when_flag host flags bit step st) ≡ counted st
  when_flag-counted flags bit step st g = ground (arith, g st)

  value_step :
      (flags bit w : ℕ) (call : ℕ → Call) (st : Setting)
      → counted (when_flag host flags bit (one_value host w call) st) ≡ counted st
  value_step flags bit w call st =
      when_flag-counted flags bit (one_value host w call) st (one_value-counted w call)

  pair_step :
      (flags bit : ℕ) (body : Server → ℕ → ℕ → Option Error × Server) (st : Setting)
      → ((s : Server) (v w : ℕ) → (body s v w).1.handle_count ≡ s.handle_count)
      → counted (when_flag host flags bit (two_values host body) st) ≡ counted st
  pair_step flags bit body st g =
      when_flag-counted flags bit (two_values host body) st (λ x. two_values-counted body x g)

  -- The four steps of a setting, in which the bodies with two values keep the count.
  steps_counted :
      (flags : ℕ) (resize mode : ℕ → Call) (times owner : Server → ℕ → ℕ → Option Error × Server)
      (st : Setting)
      → ((s : Server) (v w : ℕ) → (times s v w).1.handle_count ≡ s.handle_count)
      → ((s : Server) (v w : ℕ) → (owner s v w).1.handle_count ≡ s.handle_count)
      → counted (
          when_flag host flags 2 (two_values host owner) (
            when_flag host flags 8 (two_values host times) (
              when_flag host flags 4
                (one_value host 4 mode)
                (when_flag host flags 1 (one_value host 8 resize) st))))
        ≡ counted st
  steps_counted flags resize mode times owner st g h =
      let a = when_flag host flags 1 (one_value host 8 resize) st in
      let b = when_flag host flags 4 (one_value host 4 mode) a in
      let c = when_flag host flags 8 (two_values host times) b in
      pair_step flags 2 owner c h
      ∙ (pair_step flags 8 times b g
          ∙ (value_step flags 4 4 mode a ∙ value_step flags 1 8 resize st))

  setstat-Gives :
      (s : Server) (id : ℕ) (p : Text) (flags : ℕ) (b : List ℕ)
      → Gives s.handle_count (setstat_respond host s id p flags b)
  unfolding setstat_respond status_from_error
  setstat-Gives s id p flags b = inl (
    refl,
    steps_counted flags (Call.truncate p) (Call.chmod p) (guarded_chtimes host p)
        (made host (Call.chown p)) (b, none, s) (guarded_chtimes-counted p) (λ s v w. refl),
  )

  fsetstat-Gives :
      (s : Server) (id : ℕ) (h : Text) (flags : ℕ) (b : List ℕ)
      → Gives s.handle_count (fsetstat_respond host s id h flags b)
  unfolding fsetstat_respond status_from_error
  fsetstat-Gives s id h flags b = with_handle-Gives s id h _ λ f. inl (
    refl,
    steps_counted flags (Call.ftruncate f) (Call.fchmod f) (made host (Call.chtimes f.name))
        (made host (Call.fchown f)) (b, none, s) (λ s v w. refl) (λ s v w. refl),
  )

  extended-Gives :
      (s : Server) (id : ℕ) (e : Extension) → Gives s.handle_count (extended_respond host s id e)
  unfolding extended_respond status_from_error
  extended-Gives s id Extension.unsupported = inl (refl, refl)
  extended-Gives s id (Extension.statvfs p) =
      file_system_reply-Gives (ask s (Call.statfs p)) id (host.file_system s.calls (Call.statfs p))
  extended-Gives s id (Extension.posix_rename p q) = inl (refl, refl)
  extended-Gives s id (Extension.hardlink p q) = inl (refl, refl)

  handle_packet-Gives :
      (s : Server) (p : Packet) → GivesReply s.handle_count (handle_packet host s p)
  unfolding handle_packet opendir_respond status_from_error
  handle_packet-Gives s Packet.init = inl (refl, refl)
  handle_packet-Gives s (Packet.stat id p) =
      info_reply-Gives (ask s (Call.stat (get_user_jail_path s p))) id _
  handle_packet-Gives s (Packet.lstat id p) = info_reply-Gives (ask s (Call.lstat p)) id _
  handle_packet-Gives s (Packet.fstat id h) =
      with_handle-Gives s id h _ (λ f. info_reply-Gives (ask s (Call.fstat f)) id _)
  handle_packet-Gives s (Packet.mkdir id p) = inl (refl, refl)
  handle_packet-Gives s (Packet.rmdir id p) = inl (refl, refl)
  handle_packet-Gives s (Packet.remove id p) = inl (refl, refl)
  handle_packet-Gives s (Packet.rename id p q) = inl (refl, refl)
  handle_packet-Gives s (Packet.symlink id p q) = inl (refl, refl)
  handle_packet-Gives s (Packet.close id h) =
      inl (refl, close-Gives (λ f. host.act s.calls (Call.close f)) s h)
  handle_packet-Gives s (Packet.readlink id p) =
      readlink_reply-Gives (ask s (Call.readlink (get_user_jail_path s p))) id _
  handle_packet-Gives s (Packet.realpath id p) = realpath_reply-Gives s id _
  handle_packet-Gives s (Packet.opendir id p) =
      opendir_stat-Gives (ask s (Call.stat (get_user_jail_path s p))) id p _
  handle_packet-Gives s (Packet.read id h o n) =
      with_handle-Gives s id h _
        (λ f. read_reply-Gives (ask s (Call.read_at f o (min n 32768))) id _)
  handle_packet-Gives s (Packet.write id h o b) = with_handle-Gives s id h _ (λ f. inl (refl, refl))
  handle_packet-Gives s (Packet.open_path id p f) = open_respond-Gives s id p f
  handle_packet-Gives s (Packet.readdir id h) =
      with_handle-Gives s id h _
        (λ f. names_reply-Gives (ask s (Call.readdir f)) (Call.readdir f ∷ s.calls) f.name id _)
  handle_packet-Gives s (Packet.setstat id p f b) = setstat-Gives s id p f b
  handle_packet-Gives s (Packet.fsetstat id h f b) = fsetstat-Gives s id h f b
  handle_packet-Gives s (Packet.extended id e) = extended-Gives s id e
  handle_packet-Gives s (Packet.foreign id) = tt

  pub serve_packet-Gives :
      (id_of : Packet → ℕ) (s : Server) (p : Packet)
      → GivesReply s.handle_count (serve_packet host id_of s p)
  unfolding serve_packet
  serve_packet-Gives id_of s p = elim (Bool-cases (not (is_readonly p) && s.read_only)) [
    | inl t ↦ rw t (status-Gives s _ (id_of p) _ refl)
    | inr t ↦ rw t (handle_packet-Gives s p)
  ]
