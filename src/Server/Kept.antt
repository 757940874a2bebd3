-- ===== src/Server/Kept.antt =====
-- What the requests of a session leave as it is: src/pkgsftp/server.go.
use azure_s_sftp.Base.{
  ℕ, ◌≡◌, refl, ◌∙◌, List, Option, Text, Error, Option-cases, inl, inr, false, [],
}
use azure_s_sftp.Server.{
  File, Server, Packet, Host, next_handle, get_handle, close_handle, new_server, get_user_jail_path,
  chroot_of,
}
use azure_s_sftp.User.{User}
use azure_s_sftp.Server.Serving.{worker}
use azure_s_sftp.Server.Handles.{IsNumbered, next_handle_fresh, close_handle_lem}
use azure_s_sftp.Server.Reaches.{Reaches, same, asked, given, closed, worker-Reaches}

-- What the session was made with.
abbrev pub Keeps : Server → Server → Type 0
Keeps s t = (t.read_only ≡ s.read_only) × (t.user ≡ s.user) × (t.jail_path ≡ s.jail_path)

pub close_handle-Keeps :
    (close : File → Option Error) (h : Text) (t : Server) → Keeps t (close_handle close t h).0
unfolding close_handle
close_handle-Keeps close h t = elim (Option-cases (get_handle t h)) [
  | inl e ↦ rw (e, close_handle) (refl, refl, refl)
  | inr (f, e) ↦ rw (e, close_handle) (refl, refl, refl)
]

Keeps-trans : (s t u : Server) → Keeps s t → Keeps t u → Keeps s u
Keeps-trans s t u (a, b, c) (a', b', c') = (a' ∙ a, b' ∙ b, c' ∙ c)

pub Reaches-Keeps : (s : Server) {t : Server} → Reaches s t → Keeps s t
unfolding next_handle
Reaches-Keeps s same = (refl, refl, refl)
Reaches-Keeps s (asked c r) = Reaches-Keeps s r
Reaches-Keeps s (given f r) = Reaches-Keeps s r
Reaches-Keeps s (closed {t} close h r) =
    Keeps-trans s t (close_handle close t h).0 (Reaches-Keeps s r) (close_handle-Keeps close h t)

Reaches-IsNumbered : (s : Server) {t : Server} → Reaches s t → IsNumbered s → IsNumbered t
Reaches-IsNumbered s same n = n
Reaches-IsNumbered s (asked c r) n = Reaches-IsNumbered s r n
Reaches-IsNumbered s (given {t} f r) n = (next_handle_fresh t f [] (Reaches-IsNumbered s r n)).2
Reaches-IsNumbered s (closed {t} close h r) n =
    (close_handle_lem close t h [] (Reaches-IsNumbered s r n)).1

-- The jail is that of the user and the jail directory.
Keeps-jail : (s t : Server) (p : Text) → Keeps s t → get_user_jail_path t p ≡ get_user_jail_path s p
unfolding get_user_jail_path chroot_of
Keeps-jail s t p (ro, u, j) = rw (u, j) refl

-- After any packets, in a session that `NewServer` made for a user and a jail directory: the handles
-- of the open files are numbers up to the count of handles given, the session still has that user
-- and that directory and is not read-only, and it maps every path as it did at its start.
pub worker-IsNumbered :
    (host : Host) (id_of : Packet → ℕ) (user : User) (jail_path : Text) (ps : List Packet)
    (p : Text)
    → let s = (worker host id_of (new_server user jail_path) ps).0 in
      IsNumbered s
      × (s.user ≡ user)
      × (s.jail_path ≡ jail_path)
      × (s.read_only ≡ false)
      × (get_user_jail_path s p ≡ get_user_jail_path (new_server user jail_path) p)
unfolding new_server
worker-IsNumbered host id_of user jail_path ps p =
    let s = new_server user jail_path in
    let r = worker-Reaches host id_of s ps in
    let k = Reaches-Keeps s r in
    (Reaches-IsNumbered s r tt, k.1, k.2, k.0, Keeps-jail s (worker host id_of s ps).0 p k)
