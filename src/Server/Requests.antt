-- ===== src/Server/Requests.antt =====
-- The paths that the requests of a session work on, from `NewServer` on.
use azure_s_sftp.Base.{
  ℕ, ◌≡◌, refl, ◌∙◌, subst, false, List, [], ◌∷◌, ◌++◌, Option, none, some, Text, All,
}
use azure_s_sftp.User.{User}
use azure_s_sftp.FilePath.Segments.{IsName}
use azure_s_sftp.FilePath.Clean.{rooted}
use azure_s_sftp.Server.{Server, Call, Packet, Host, Extension, new_server, get_user_jail_path}
use azure_s_sftp.Server.Packets.{Reply, serve_packet, handle_packet, open_mode, open_flags}
use azure_s_sftp.Server.Serving.{worker}
use azure_s_sftp.Server.Kept.{worker-IsNumbered}
use azure_s_sftp.Server.Jail.{IsJailed, has_whole_share}
use azure_s_sftp.Server.Escape.{climbing, get_user_jail_path_climbs}

-- The calls of a session after a request, if it was answered.
abbrev pub calls_after : Option Reply → Option (List Call)
calls_after none = none
calls_after (some (s, r)) = some s.calls

-- The calls of a request to open a file, which has none on flags that ask for no access.
abbrev pub open_calls : Text → ℕ → List Call → List Call
open_calls p f before = elim (open_mode f) [
  | none ↦ before
  | some mode ↦ Call.open_file p (open_flags mode f) ∷ before
]

module _ (host : Host) (id_of : Packet → ℕ) where
  -- The session answers the request, and has made this one call for it.
  abbrev pub Makes : Server → Packet × Call → Type 0
  Makes s (p, c) = calls_after (serve_packet host id_of s p) ≡ some (c ∷ s.calls)

  -- Requests of which the session changes the path, with the call for the changed path.
  abbrev pub held : ℕ → Text → Text → List (Packet × Call)
  held id p q =
      (Packet.stat id p, Call.stat q)
      ∷ (Packet.mkdir id p, Call.mkdir q)
      ∷ (Packet.rmdir id p, Call.remove q)
      ∷ (Packet.readlink id p, Call.readlink q)
      ∷ []

  held_calls :
      (s : Server) (id : ℕ) (p : Text)
      → s.read_only ≡ false
      → All (Makes s) (held id p (get_user_jail_path s p))
  unfolding serve_packet handle_packet
  held_calls s id p w = (refl, (rw w refl, (rw w refl, (refl, tt))))

  -- Requests of which the session passes the paths on, with the call.
  abbrev pub as_sent : ℕ → Text → Text → List (Packet × Call)
  as_sent id p to =
      (Packet.lstat id p, Call.lstat p)
      ∷ (Packet.remove id p, Call.remove p)
      ∷ (Packet.rename id p to, Call.rename p to)
      ∷ (Packet.extended id (Extension.statvfs p), Call.statfs p)
      ∷ (Packet.extended id (Extension.posix_rename p to), Call.rename p to)
      ∷ (Packet.extended id (Extension.hardlink p to), Call.link p to)
      ∷ []

  module _ (u : User) (x : Text) (xs : List Text)
      (jailed : IsJailed (new_server u (rooted (x ∷ xs))) x xs) (ps : List Packet) where
    -- The session after the packets, and as it began.
    abbrev pub session : Server
    session = (worker host id_of (new_server u (rooted (x ∷ xs))) ps).0

    abbrev begun : Server
    begun = new_server u (rooted (x ∷ xs))

    held_at :
        (id : ℕ) (p q : Text) → get_user_jail_path begun p ≡ q → All (Makes session) (held id p q)
    held_at id p q e =
        let (numbered, user, jail, writable, same) =
          worker-IsNumbered host id_of u (rooted (x ∷ xs)) ps p in
        subst (λ q. All (Makes session) (held id p q)) (same ∙ e) (held_calls session id p writable)

    -- After any packets, in a session that `NewServer` made for a user whose directory is a name, and
    -- who does not have the whole share, and a jail directory that is a clean rooted path other than
    -- the root: the requests stat, mkdir, rmdir and readlink on a relative path `../f/...`, in which
    -- only names follow the dots, make their call on the path of `f/...` in the jail directory, so
    -- that the user reaches what stands beside their own directory.
    pub requests_climb :
        has_whole_share begun ≡ false
        → (id : ℕ) (f : Text) (fs : List Text) → All IsName (f ∷ fs)
        → All (Makes session) (held id (climbing f fs) (rooted ((x ∷ xs) ++ (f ∷ fs))))
    requests_climb part id f fs h =
        held_at id (climbing f fs) (rooted ((x ∷ xs) ++ (f ∷ fs)))
          (get_user_jail_path_climbs begun x xs jailed part f fs h)
