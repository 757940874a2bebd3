-- ===== src/Server/Reaches.antt =====
-- How a session's state changes in src/pkgsftp/server.go: whatever a request does, it makes calls
-- of the operating system, gives new handles and closes handles, and nothing else.
use Prim.Native.Nat.{min, bit_and}
use azure_s_sftp.Base.{
  ℕ, not, ◌&&◌, List, [], ◌∷◌, Option, none, some, Text, Error, Result, ok, err, Bool-cases,
  Option-cases, inl, inr, is_exist, eqb, Result-cases,
}
use azure_s_sftp.Server.{
  File, Info, Call, Server, Extension, Packet, Host, next_handle, get_handle, close_handle,
  get_user_jail_path,
}
use azure_s_sftp.Server.Packets.{
  Reply, Setting, ask, opened, open_respond, open_mode, open_flags, opendir_stat, opendir_respond,
  with_handle, one_value, two_values, made, guarded_chtimes, when_flag, setstat_respond,
  fsetstat_respond, extended_respond, handle_packet, serve_packet, is_readonly, unmarshal_uint,
}
use azure_s_sftp.Server.Serving.{worker}

-- The states that a session comes to from one state.
pub data Reaches (s : Server) : Server → Type 0 where
  same : Reaches s s
  asked : {t : Server} → (c : Call) → Reaches s t → Reaches s (ask t c)
  given : {t : Server} → (f : File) → Reaches s t → Reaches s (next_handle t f).0
  closed :
      {t : Server}
      → (close : File → Option Error) → (h : Text) → Reaches s t
      → Reaches s (close_handle close t h).0

pub Reaches-trans : {s t u : Server} → Reaches s t → Reaches t u → Reaches s u
Reaches-trans r same = r
Reaches-trans r (asked c q) = asked c (Reaches-trans r q)
Reaches-trans r (given f q) = given f (Reaches-trans r q)
Reaches-trans r (closed close h q) = closed close h (Reaches-trans r q)

abbrev pub ReachesReply : Server → Option Reply → Type 0
ReachesReply s none = Unit
ReachesReply s (some (s', r)) = Reaches s s'

module _ (host : Host) where
  opened-Reaches :
      (s t : Server) (id : ℕ) (r : Result File) → Reaches s t → Reaches s (opened host t id r).0
  unfolding opened
  opened-Reaches s t id (ok f) q = given f q
  opened-Reaches s t id (err e) q = q

  open_respond-Reaches :
      (s t : Server) (id : ℕ) (p : Text) (f : ℕ)
      → Reaches s t
      → Reaches s (open_respond host t id p f).0
  unfolding open_respond
  open_respond-Reaches s t id p f q = elim (Option-cases (open_mode f)) [
    | inl e ↦ rw (e, open_respond) q
    | inr (m, e) ↦
        rw (e, open_respond)
          (let c = Call.open_file p (open_flags m f) in
            opened-Reaches s (ask t c) id (host.file t.calls c) (asked c q))
  ]

  opendir_stat-Reaches :
      (s t : Server) (id : ℕ) (p : Text) (r : Result Info)
      → Reaches s t
      → Reaches s (opendir_stat host t id p r).0
  unfolding opendir_stat
  opendir_stat-Reaches s t id p (err e) q = q
  opendir_stat-Reaches s t id p (ok i) q = elim (Bool-cases i.mode.dir) [
    | inl e ↦ rw e (open_respond-Reaches s t id p 1 q)
    | inr e ↦ rw e q
  ]

  with_handle-Reaches :
      (s : Server) (id : ℕ) (h : Text) (body : File → Reply)
      → ((f : File) → Reaches s (body f).0)
      → Reaches s (with_handle host s id h body).0
  with_handle-Reaches s id h body b = elim (Option-cases (get_handle s h)) [
    | inl e ↦ rw (e, with_handle) same
    | inr (f, e) ↦ rw (e, with_handle) (b f)
  ]

  abbrev session : Setting → Server
  session (b, e, s) = s

  one_value-Reaches :
      (s : Server) (w : ℕ) (call : ℕ → Call) (st : Setting)
      → Reaches s (session st)
      → Reaches s (session (one_value host w call st))
  unfolding one_value
  one_value-Reaches s w call (b, e, t) q = elim (Option-cases (unmarshal_uint w 0 b)) [
    | inl h ↦ rw (h, one_value) q
    | inr ((v, r), h) ↦ rw (h, one_value) (asked (call v) q)
  ]

  two_values-Reaches :
      (s : Server) (body : Server → ℕ → ℕ → Option Error × Server) (st : Setting)
      → ((t : Server) (v w : ℕ) → Reaches t (body t v w).1)
      → Reaches s (session st)
      → Reaches s (session (two_values host body st))
  unfolding two_values
  two_values-Reaches s body (b, e, t) g q = elim (Option-cases (unmarshal_uint 4 0 b)) [
    | inl h ↦ rw (h, two_values) q
    | inr ((v, r), h) ↦ elim (Option-cases (unmarshal_uint 4 0 r)) [
      | inl k ↦ rw (h, two_values) (rw (k, two_values) q)
      | inr ((w, r'), k) ↦ rw (h, two_values) (rw (k, two_values) (Reaches-trans q (g t v w)))
    ]
  ]

  guarded_chtimes-Reaches :
      (p : Text) (t : Server) (v w : ℕ) → Reaches t (guarded_chtimes host p t v w).1
  unfolding guarded_chtimes
  guarded_chtimes-Reaches p t v w = elim (Result-cases (host.info t.calls (Call.stat p))) [
    | inl (i, h) ↦ rw (h, guarded_chtimes) (asked (Call.stat p) same)
    | inr (e, h) ↦ elim (Bool-cases (is_exist e)) [
      | inl k ↦
          rw (h, guarded_chtimes) (rw k (asked (Call.chtimes p v w) (asked (Call.stat p) same)))
      | inr k ↦ rw (h, guarded_chtimes) (rw k (asked (Call.stat p) same))
    ]
  ]

  when_flag-Reaches :
      (s : Server) (flags bit : ℕ) (step : Setting → Setting) (st : Setting)
      → ((x : Setting) → Reaches s (session x) → Reaches s (session (step x)))
      → Reaches s (session st)
      → Reaches s (session (when_flag host flags bit step st))
  when_flag-Reaches s flags bit step st g q = elim (Bool-cases (eqb (bit_and flags bit) 0)) [
    | inl h ↦ rw h q
    | inr h ↦ rw h (g st q)
  ]

  -- The four steps of a setting.
  steps_Reaches :
      (s : Server) (flags : ℕ) (resize mode : ℕ → Call)
      (times owner : Server → ℕ → ℕ → Option Error × Server) (st : Setting)
      → ((t : Server) (v w : ℕ) → Reaches t (times t v w).1)
      → ((t : Server) (v w : ℕ) → Reaches t (owner t v w).1)
      → Reaches s (session st)
      → Reaches s (
          session (
            when_flag host flags 2 (two_values host owner) (
              when_flag host flags 8 (two_values host times) (
                when_flag host flags 4
                  (one_value host 4 mode)
                  (when_flag host flags 1 (one_value host 8 resize) st)))))
  steps_Reaches s flags resize mode times owner st g h q =
      let a = when_flag host flags 1 (one_value host 8 resize) st in
      let b = when_flag host flags 4 (one_value host 4 mode) a in
      let c = when_flag host flags 8 (two_values host times) b in
      when_flag-Reaches s flags 2 (two_values host owner) c (λ x. two_values-Reaches s owner x h)
        (when_flag-Reaches s flags 8 (two_values host times) b (λ x. two_values-Reaches s times x g)
          (when_flag-Reaches s flags 4 (one_value host 4 mode) a (one_value-Reaches s 4 mode) (
            when_flag-Reaches s flags 1 (one_value host 8 resize) st (one_value-Reaches s 8 resize)
              q)))

  made-Reaches : (call : ℕ → ℕ → Call) (t : Server) (v w : ℕ) → Reaches t (made host call t v w).1
  made-Reaches call t v w = asked (call v w) same

  setstat-Reaches :
      (s : Server) (id : ℕ) (p : Text) (flags : ℕ) (b : List ℕ)
      → Reaches s (setstat_respond host s id p flags b).0
  unfolding setstat_respond
  setstat-Reaches s id p flags b =
      steps_Reaches s flags (Call.truncate p) (Call.chmod p) (guarded_chtimes host p)
        (made host (Call.chown p)) (b, none, s) (guarded_chtimes-Reaches p)
        (made-Reaches (Call.chown p)) same

  fsetstat-Reaches :
      (s : Server) (id : ℕ) (h : Text) (flags : ℕ) (b : List ℕ)
      → Reaches s (fsetstat_respond host s id h flags b).0
  unfolding fsetstat_respond
  fsetstat-Reaches s id h flags b = with_handle-Reaches s id h _ λ f.
      steps_Reaches s flags (Call.ftruncate f) (Call.fchmod f) (made host (Call.chtimes f.name))
        (made host (Call.fchown f)) (b, none, s) (made-Reaches (Call.chtimes f.name))
        (made-Reaches (Call.fchown f)) same

  extended-Reaches :
      (s : Server) (id : ℕ) (e : Extension) → Reaches s (extended_respond host s id e).0
  unfolding extended_respond
  extended-Reaches s id Extension.unsupported = same
  extended-Reaches s id (Extension.statvfs p) = asked (Call.statfs p) same
  extended-Reaches s id (Extension.posix_rename p q) = asked (Call.rename p q) same
  extended-Reaches s id (Extension.hardlink p q) = asked (Call.link p q) same

  handle_packet-Reaches : (s : Server) (p : Packet) → ReachesReply s (handle_packet host s p)
  unfolding handle_packet opendir_respond
  handle_packet-Reaches s Packet.init = same
  handle_packet-Reaches s (Packet.stat id p) = asked (Call.stat (get_user_jail_path s p)) same
  handle_packet-Reaches s (Packet.lstat id p) = asked (Call.lstat p) same
  handle_packet-Reaches s (Packet.fstat id h) =
      with_handle-Reaches s id h _ (λ f. asked (Call.fstat f) same)
  handle_packet-Reaches s (Packet.mkdir id p) = asked (Call.mkdir (get_user_jail_path s p)) same
  handle_packet-Reaches s (Packet.rmdir id p) = asked (Call.remove (get_user_jail_path s p)) same
  handle_packet-Reaches s (Packet.remove id p) = asked (Call.remove p) same
  handle_packet-Reaches s (Packet.rename id p q) = asked (Call.rename p q) same
  handle_packet-Reaches s (Packet.symlink id p q) =
      asked (Call.symlink (get_user_jail_path s p) (get_user_jail_path s q)) same
  handle_packet-Reaches s (Packet.close id h) = closed (λ f. host.act s.calls (Call.close f)) h same
  handle_packet-Reaches s (Packet.readlink id p) =
      asked (Call.readlink (get_user_jail_path s p)) same
  handle_packet-Reaches s (Packet.realpath id p) = same
  handle_packet-Reaches s (Packet.opendir id p) =
      let c = Call.stat (get_user_jail_path s p) in
      opendir_stat-Reaches s (ask s c) id p (host.info s.calls c) (asked c same)
  handle_packet-Reaches s (Packet.read id h o n) =
      with_handle-Reaches s id h _ (λ f. asked (Call.read_at f o (min n 32768)) same)
  handle_packet-Reaches s (Packet.write id h o b) =
      with_handle-Reaches s id h _ (λ f. asked (Call.write_at f o b) same)
  handle_packet-Reaches s (Packet.open_path id p f) = open_respond-Reaches s s id p f same
  handle_packet-Reaches s (Packet.readdir id h) =
      with_handle-Reaches s id h _ (λ f. asked (Call.readdir f) same)
  handle_packet-Reaches s (Packet.setstat id p f b) = setstat-Reaches s id p f b
  handle_packet-Reaches s (Packet.fsetstat id h f b) = fsetstat-Reaches s id h f b
  handle_packet-Reaches s (Packet.extended id e) = extended-Reaches s id e
  handle_packet-Reaches s (Packet.foreign id) = tt

  pub serve_packet-Reaches :
      (id_of : Packet → ℕ) (s : Server) (p : Packet) → ReachesReply s (serve_packet host id_of s p)
  unfolding serve_packet
  serve_packet-Reaches id_of s p = elim (Bool-cases (not (is_readonly p) && s.read_only)) [
    | inl t ↦ rw t same
    | inr t ↦ rw t (handle_packet-Reaches s p)
  ]

  pub worker-Reaches :
      (id_of : Packet → ℕ) (s : Server) (ps : List Packet) → Reaches s (worker host id_of s ps).0
  unfolding worker
  worker-Reaches id_of s [] = same
  worker-Reaches id_of s (p ∷ ps) = elim (Option-cases (serve_packet host id_of s p)) [
    | inl e ↦ rw (e, worker) same
    | inr ((s', r), e) ↦
        rw (e, worker)
          (Reaches-trans (rw e at (serve_packet-Reaches id_of s p)) (worker-Reaches id_of s' ps))
  ]
