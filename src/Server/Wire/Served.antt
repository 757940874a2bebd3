-- ===== src/Server/Wire/Served.antt =====
-- `Serve` of src/pkgsftp/server.go on the bytes of a connection: the loop ends with them, and on
-- what a client writes it does what the workers do on the packets.
use azure_s_sftp.Base.{
  ℕ, zero, suc, ◌<◌, List, [], ◌∷◌, ◌++◌, some, ◌≡◌, refl, sym, ap, Option-cases, ◌∙◌, ◌⊎◌, inl,
  inr, subst, length, length-append, append-nil, append_assoc, All, map, Error, arith,
}
use azure_s_sftp.Server.{Server, Packet, Response, Host}
use azure_s_sftp.Server.Packets.{serve_packet}
use azure_s_sftp.Server.Serving.{worker, serve, close_left}
use azure_s_sftp.Server.Wire.Decode.{Made, good, make_packet}
use azure_s_sftp.Server.Wire.Encode.{Unused, marshal_binary}
use azure_s_sftp.Server.Wire.Fits.{Fits, UnusedFits}
use azure_s_sftp.Server.Wire.RoundTrip.{make_packet-marshal_binary}
use azure_s_sftp.Server.Wire.Frames.{
  Received, send_packet, recv_packet, max_msg_length, read_full, recv_header,
}
use azure_s_sftp.Server.Wire.Framing.{
  recv_packet-send_packet, recv_packet_frame, recv_packet-failed, IsReadError,
}
use azure_s_sftp.Server.Wire.Session.{
  Ending, read_requests, Ran, with_answer, ServeResult, session_of, serve_made, step_of, run_made,
  serve_bytes, client_stream,
}

frame_shorter :
    (b : List ℕ) (kind : ℕ) (body rest : List ℕ)
    → recv_packet b ≡ Received.frame kind body rest
    → length rest < length b
frame_shorter b kind body rest e =
    let (header, eb, l, _, _) = recv_packet_frame b kind body rest e in
    subst (λ c. length rest < length c) (sym eb)
      (omega (arith, length-append header ((kind ∷ body) ++ rest), length-append body rest))

Received-cases :
    (r : Received)
    → ((e : Error) × (r ≡ Received.failed e))
      ⊎ ((r ≡ Received.panicked)
          ⊎ ((kind : ℕ) × (body : List ℕ) × (rest : List ℕ) × (r ≡ Received.frame kind body rest)))
Received-cases (Received.failed e) = inl (e, refl)
Received-cases Received.panicked = inr (inl refl)
Received-cases (Received.frame kind body rest) = inr (inr (kind, body, rest, refl))

-- One more round than there are bytes is enough: further rounds change nothing.
enough_rounds :
    (m n : ℕ) (b : List ℕ) → length b < m → length b < n → read_requests m b ≡ read_requests n b
unfolding read_requests
enough_rounds zero n b h k = absurd (omega arith)
enough_rounds (suc m) zero b h k = absurd (omega arith)
enough_rounds (suc m) (suc n) b h k = elim (Received-cases (recv_packet b)) [
  | inl (e, r) ↦ rw (r, read_requests) refl
  | inr (inl r) ↦ rw (r, read_requests) refl
  | inr (inr (kind, body, rest, r)) ↦
      let lt = frame_shorter b kind body rest r in
      rw (r, read_requests)
        (ap (λ (x : List Made × Ending). (make_packet kind body ∷ x.0, x.1))
          (enough_rounds m n rest (omega arith) (omega arith)))
]

-- A loop that ends: in a panic, or with an error of `recvPacket`.
abbrev Ends : Ending → Type 0
Ends Ending.crashed = Unit
Ends (Ending.ended e) = IsReadError e
Ends Ending.unfinished = ⊥

-- The loop has an end.
loop-Ends : (n : ℕ) (b : List ℕ) → length b < n → Ends (read_requests n b).1
unfolding read_requests
loop-Ends zero b h = absurd (omega arith)
loop-Ends (suc n) b h = elim (Received-cases (recv_packet b)) [
  | inl (e, r) ↦ rw (r, read_requests) (recv_packet-failed b e r)
  | inr (inl r) ↦ rw (r, read_requests) tt
  | inr (inr (kind, body, rest, r)) ↦
      let lt = frame_shorter b kind body rest r in
      rw (r, read_requests) (loop-Ends n rest (omega arith))
]

-- What the loop makes of the bytes of a connection.
abbrev pub requests : List ℕ → List Made × Ending
requests b = read_requests (suc (length b)) b

pub requests_frame :
    (b : List ℕ) (kind : ℕ) (body rest : List ℕ)
    → recv_packet b ≡ Received.frame kind body rest
    → requests b ≡ (make_packet kind body ∷ (requests rest).0, (requests rest).1)
unfolding read_requests
requests_frame b kind body rest r =
    let lt = frame_shorter b kind body rest r in
    rw (r, read_requests)
      (ap (λ (x : List Made × Ending). (make_packet kind body ∷ x.0, x.1))
        (enough_rounds (length b) (suc (length rest)) rest lt (omega arith)))

session_of-cases :
    (e : Ending) (r : Ran)
    → Ends e
    → (session_of e r ≡ ServeResult.crash)
      ⊎ ((e' : Error) × (s : Server) × (rs : List Response) × (session_of e r
            ≡ ServeResult.returned e' s rs)
          × IsReadError e')
unfolding session_of
session_of-cases Ending.crashed Ran.crash h = inl refl
session_of-cases Ending.crashed (Ran.ran s rs) h = inl refl
session_of-cases (Ending.ended e) Ran.crash h = inl refl
session_of-cases (Ending.ended e) (Ran.ran s rs) h = inr (e, close_left s s.open_files, rs, refl, h)
session_of-cases Ending.unfinished r h = absurd h

-- What a client can send: a packet with an encoding, of which the numbers and lengths fit into
-- their fields and that is not longer than a packet may be.
abbrev pub Sendable : Unused → Packet → Type 0
Sendable u p =
    Fits p
    × (kind : ℕ) × (b : List ℕ) × (marshal_binary u p ≡ some (kind ∷ b))
    × (length b < max_msg_length)

client_stream-cons :
    (u : Unused) (p : Packet) (ps : List Packet) (bb tail : List ℕ)
    → marshal_binary u p ≡ some bb
    → client_stream u (p ∷ ps) ++ tail ≡ send_packet bb ++ (client_stream u ps ++ tail)
unfolding client_stream
client_stream-cons u p ps bb tail e =
    rw (e, client_stream) (append_assoc (send_packet bb) (client_stream u ps) tail)

pub requests-client_stream :
    (u : Unused) (ps : List Packet) (tail : List ℕ)
    → UnusedFits u
    → All (Sendable u) ps
    → requests (client_stream u ps ++ tail) ≡ (map good ps ++ (requests tail).0, (requests tail).1)
requests-client_stream u [] tail hu h = unfold client_stream in refl
requests-client_stream u (p ∷ ps) tail hu ((fits, kind, b, e, lt), hs) =
    ap requests (client_stream-cons u p ps (kind ∷ b) tail e)
    ∙ requests_frame _ kind b _ (recv_packet-send_packet kind b (client_stream u ps ++ tail) lt)
    ∙ ap
        (λ m. (
          m ∷ (requests (client_stream u ps ++ tail)).0,
          (requests (client_stream u ps ++ tail)).1,
        ))
        (make_packet-marshal_binary u p kind b hu fits e)
    ∙ ap (λ (x : List Made × Ending). (good p ∷ x.0, x.1)) (requests-client_stream u ps tail hu hs)

no_more : requests [] ≡ ([], Ending.ended Error.eof)
unfolding read_requests recv_packet recv_header read_full
no_more = refl

module _ (host : Host) (id_of : Packet → ℕ) where
  -- On any bytes, and whatever the operating system answers: the process panics, or `Serve` returns
  -- with its answers and one of the errors that the connection ended before a packet, that it ended
  -- within one, or that a packet is too long.
  pub serve_bytes_ends :
      (s : Server) (b : List ℕ)
      → (serve_bytes host id_of s b ≡ ServeResult.crash)
        ⊎ ((e : Error) × (s' : Server) × (rs : List Response) × (serve_bytes host id_of s b
              ≡ ServeResult.returned e s' rs)
            × IsReadError e)
  unfolding serve_bytes
  serve_bytes_ends s b =
      session_of-cases _ (run_made host id_of s (requests b).0)
        (loop-Ends (suc (length b)) b (omega arith))

  run_made-good :
      (s : Server) (ps : List Packet)
      → run_made host id_of s (map good ps)
        ≡ Ran.ran (worker host id_of s ps).0 (worker host id_of s ps).1
  unfolding run_made serve_made with_answer worker step_of
  run_made-good s [] = refl
  run_made-good s (p ∷ ps) = elim (Option-cases (serve_packet host id_of s p)) [
    | inl e ↦ rw (e, run_made, worker) refl
    | inr ((s', r), e) ↦ rw (e, run_made, worker) (rw (run_made-good s' ps) refl)
  ]

  -- On the bytes that a client writes for its packets `Serve` answers as the workers answer to the
  -- packets, one after the other, and returns with the end of the connection.
  -- For packets that a client can encode, of which no number or length is too great for its field
  -- and none is longer than a packet may be.
  pub serve_bytes-client_stream :
      (u : Unused) (s : Server) (ps : List Packet)
      → UnusedFits u
      → All (Sendable u) ps
      → serve_bytes host id_of s (client_stream u ps)
        ≡ ServeResult.returned Error.eof (serve host id_of s ps).0 (serve host id_of s ps).1
  unfolding serve_bytes serve session_of
  serve_bytes-client_stream u s ps hu h =
      ap (λ (x : List Made × Ending). session_of x.1 (run_made host id_of s x.0)) all_read
      ∙ rw (run_made-good s ps) refl
    where
      all_read : requests (client_stream u ps) ≡ (map good ps, Ending.ended Error.eof)
      all_read =
          rw (append-nil (client_stream u ps), append-nil (map good ps)) at
            (requests-client_stream u ps [] hu h
              ∙ ap (λ (x : List Made × Ending). (map good ps ++ x.0, x.1)) no_more)
