-- ===== src/Server/Serving.antt =====
-- `Serve` and `sftpServerWorker`: the packets of a session, one after the other in the order in
-- which they are handled, and what happens when the client's stream has ended.
use azure_s_sftp.Base.{ℕ, List, [], ◌∷◌, none, some, Text}
use azure_s_sftp.Server.{File, Call, Server, Packet, Response, Host}
use azure_s_sftp.Server.Packets.{ask, serve_packet}

-- The handles that a session gives in its answers.
abbrev pub handle_of : Response → List Text
handle_of (Response.handle id h) = h ∷ []
handle_of _ = []

unfoldable pub handles_given : List Response → List Text
handles_given [] = []
handles_given (Response.handle id h ∷ rs) = h ∷ handles_given rs
handles_given (_ ∷ rs) = handles_given rs

-- The files that are still open are closed. Their entries stay in the table.
unfoldable pub close_left : Server → List (Text × File) → Server
close_left s [] = s
close_left s ((h, f) ∷ m) = close_left (ask s (Call.close f)) m

module _ (host : Host) (id_of : Packet → ℕ) where
  -- The session after the packets, and its answers; a packet of an unexpected type ends it.
  unfoldable pub worker : Server → List Packet → Server × List Response
  worker s [] = (s, [])
  worker s (p ∷ ps) = elim (serve_packet host id_of s p) [
    | none ↦ (s, [])
    | some (s', r) ↦ let (s'', rs) = worker s' ps in (s'', r ∷ rs)
  ]

  unfoldable pub serve : Server → List Packet → Server × List Response
  unfolding worker close_left
  serve s ps = let (s', rs) = worker s ps in (close_left s' s'.open_files, rs)
