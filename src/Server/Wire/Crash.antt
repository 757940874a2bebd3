-- ===== src/Server/Wire/Crash.antt =====
-- Bytes on which a session of src/pkgsftp/server.go ends in a run-time panic.
use azure_s_sftp.Base.{
  ℕ, ◌<◌, ◌≢◌, true, false, not, List, [], ◌∷◌, ◌++◌, none, some, ◌≡◌, refl, ap, subst, ◌&&◌, ◌∙◌,
  Text, Error, length, All, map, arith, Option-cases, inl, inr, eqb, Bool-cases, eqb_iff,
}
use azure_s_sftp.User.{User}
use azure_s_sftp.Server.{Server, Packet, Host, new_server}
use azure_s_sftp.Server.Packets.{serve_packet, is_readonly}
use azure_s_sftp.Server.Replies.{is_foreign, IsAnswered, handle_packet-IsAnswered}
use azure_s_sftp.Server.Serving.{worker}
use azure_s_sftp.Server.Kept.{worker-IsNumbered}
use azure_s_sftp.Server.Wire.{marshal_uint32}
use azure_s_sftp.Server.Wire.Decode.{
  Made, good, make_packet, parse_by, unpacked, unmarshal_setstat, parsers,
}
use azure_s_sftp.Server.Wire.Encode.{Unused, marshal_binary}
use azure_s_sftp.Server.Wire.Fits.{UnusedFits}
use azure_s_sftp.Server.Wire.Frames.{
  Received, send_packet, recv_packet, recv_body, read_full, split_type, max_msg_length,
}
use azure_s_sftp.Server.Wire.Framing.{recv_packet-send_packet, recv_packet_header}
use azure_s_sftp.Server.Wire.Session.{
  Ending, read_requests, WorkerStep, reads_attrs, step_of, Ran, with_answer, ServeResult,
  session_of, serve_made, run_made, serve_bytes, client_stream,
}
use azure_s_sftp.Server.Wire.Served.{Sendable, requests, requests_frame, requests-client_stream}

-- The types of the requests.
abbrev pub known_types : List ℕ
known_types =
    1 ∷ 3 ∷ 4 ∷ 5 ∷ 6 ∷ 7 ∷ 8 ∷ 9 ∷ 10 ∷ 11 ∷ 12 ∷ 13 ∷ 14 ∷ 15 ∷ 16 ∷ 17 ∷ 18 ∷ 19 ∷ 20 ∷ 200 ∷ []

-- A packet of length zero, one whose type is not that of a request, and a `setstat` that ends
-- before its attributes.
pub data BadFrame : List ℕ → Type 0 where
  empty_frame : BadFrame (0 ∷ 0 ∷ 0 ∷ 0 ∷ [])
  not_request :
      (kind : ℕ)
      → (b : List ℕ) → All (λ k. k ≢ kind) known_types
      → length b < max_msg_length
      → BadFrame (send_packet (kind ∷ b))
  cut_setstat :
      (b : List ℕ)
      → (unmarshal_setstat Packet.setstat b).error ≢ none
      → length b < max_msg_length
      → BadFrame (send_packet (9 ∷ b))

parse_by-none :
    (table : List (ℕ × (List ℕ → Made))) (kind : ℕ) (b : List ℕ)
    → All (λ (e : ℕ × (List ℕ → Made)). e.0 ≢ kind) table
    → (parse_by table kind b).packet ≡ none
unfolding parse_by
parse_by-none [] kind b h = refl
parse_by-none ((k, parse) ∷ table) kind b (h, hs) = elim (Bool-cases (eqb k kind)) [
  | inl e ↦ absurd (h ((eqb_iff k kind).0 e))
  | inr e ↦ rw e (parse_by-none table kind b hs)
]

marshal_binary-foreign :
    (u : Unused) (p : Packet) (b : List ℕ) → marshal_binary u p ≡ some b → is_foreign p ≡ false
unfolding marshal_binary is_foreign
marshal_binary-foreign u (Packet.foreign id) b e = absurd cc
marshal_binary-foreign u _ b e = refl

Sendable-foreign :
    (u : Unused) (ps : List Packet) → All (Sendable u) ps → All (λ p. is_foreign p ≡ false) ps
Sendable-foreign u [] h = tt
Sendable-foreign u (p ∷ ps) ((fits, kind, b, e, lt), hs) =
    (marshal_binary-foreign u p (kind ∷ b) e, Sendable-foreign u ps hs)

session_of-crash : (e : Ending) → session_of e Ran.crash ≡ ServeResult.crash
unfolding session_of
session_of-crash (Ending.ended e) = refl
session_of-crash Ending.crashed = refl
session_of-crash Ending.unfinished = refl

empty_body : (rest : List ℕ) → recv_body 0 rest ≡ Received.panicked
unfolding recv_body read_full split_type
empty_body rest = ground arith

empty_packet : (rest : List ℕ) → recv_packet (0 ∷ 0 ∷ 0 ∷ 0 ∷ rest) ≡ Received.panicked
unfolding marshal_uint32
empty_packet rest = recv_packet_header 0 rest (omega arith) ∙ empty_body rest

no_body : (rest : List ℕ) → requests (0 ∷ 0 ∷ 0 ∷ 0 ∷ rest) ≡ ([], Ending.crashed)
unfolding read_requests
no_body rest = rw (empty_packet rest, read_requests) refl

module _ (host : Host) (id_of : Packet → ℕ) where
  serve_packet-some :
      (s : Server) (p : Packet) → is_foreign p ≡ false → serve_packet host id_of s p ≢ none
  unfolding serve_packet
  serve_packet-some s p h = elim (Bool-cases (not (is_readonly p) && s.read_only)) [
    | inl t ↦ rw t (λ x. cc)
    | inr t ↦ rw t (λ x. cc (subst (IsAnswered p) x (handle_packet-IsAnswered host s p), h))
  ]

  run_made_crash :
      (s : Server) (ps : List Packet) (m : Made) (ms : List Made)
      → All (λ p. is_foreign p ≡ false) ps
      → serve_made host id_of (worker host id_of s ps).0 m ≡ WorkerStep.panics
      → run_made host id_of s (map good ps ++ (m ∷ ms)) ≡ Ran.crash
  unfolding run_made serve_made worker with_answer step_of
  run_made_crash s [] m ms hs h = rw (h, run_made) refl
  run_made_crash s (p ∷ ps) m ms (hp, hs) h = elim (Option-cases (serve_packet host id_of s p)) [
    | inl e ↦ absurd (serve_packet-some s p hp e)
    | inr ((s', r), e) ↦
        rw (e, run_made) (rw (run_made_crash s' ps m ms hs (rw (e, worker) at h)) refl)
  ]

  -- After a client's packets comes a packet on which the session panics, or the loop does.
  bad_request :
      (u : Unused) (s : Server) (ps : List Packet) (kind : ℕ) (b rest : List ℕ)
      → UnusedFits u
      → All (Sendable u) ps
      → length b < max_msg_length
      → serve_made host id_of (worker host id_of s ps).0 (make_packet kind b) ≡ WorkerStep.panics
      → serve_bytes host id_of s (client_stream u ps ++ (send_packet (kind ∷ b) ++ rest))
        ≡ ServeResult.crash
  unfolding serve_bytes
  bad_request u s ps kind b rest hu hs lt h =
      let tail = send_packet (kind ∷ b) ++ rest in
      let read =
        requests-client_stream u ps tail hu hs
        ∙ ap (λ (x : List Made × Ending). (map good ps ++ x.0, x.1))
            (requests_frame tail kind b rest (recv_packet-send_packet kind b rest lt)) in
      ap (λ (x : List Made × Ending). session_of x.1 (run_made host id_of s x.0)) read
      ∙ ap (session_of (requests rest).1)
          (run_made_crash s ps (make_packet kind b) (requests rest).0 (Sendable-foreign u ps hs) h)
      ∙ session_of-crash (requests rest).1

  empty_request :
      (u : Unused) (s : Server) (ps : List Packet) (rest : List ℕ)
      → UnusedFits u
      → All (Sendable u) ps
      → serve_bytes host id_of s (client_stream u ps ++ (0 ∷ 0 ∷ 0 ∷ 0 ∷ rest)) ≡ ServeResult.crash
  unfolding serve_bytes session_of
  empty_request u s ps rest hu hs =
      ap (λ (x : List Made × Ending). session_of x.1 (run_made host id_of s x.0))
        (requests-client_stream u ps (0 ∷ 0 ∷ 0 ∷ 0 ∷ rest) hu hs
          ∙ ap (λ (x : List Made × Ending). (map good ps ++ x.0, x.1)) (no_body rest))

  serve_made-none :
      (s : Server) (m : Made) → m.packet ≡ none → serve_made host id_of s m ≡ WorkerStep.panics
  unfolding serve_made
  serve_made-none s m h = rw (h, serve_made) refl

  serve_made-reads :
      (s : Server) (m : Made) (p : Packet) (e : Error)
      → m.packet ≡ some p
      → m.error ≡ some e
      → reads_attrs s p ≡ true
      → serve_made host id_of s m ≡ WorkerStep.panics
  unfolding serve_made
  serve_made-reads s m p e hp he hr = rw (hp, serve_made) (rw (he, serve_made) (rw hr refl))

  serve_made-cut :
      (s : Server) (b : List ℕ)
      → s.read_only ≡ false
      → (unmarshal_setstat Packet.setstat b).error ≢ none
      → serve_made host id_of s (make_packet 9 b) ≡ WorkerStep.panics
  unfolding make_packet unmarshal_setstat unpacked reads_attrs
  serve_made-cut s b ro h = elim (Option-cases (unmarshal_setstat Packet.setstat b).error) [
    | inl e ↦ absurd (h e)
    | inr (x, e) ↦ serve_made-reads s (make_packet 9 b) _ x refl e (rw ro refl)
  ]

  -- The process panics: after any packets of a client comes a packet of length zero, one whose type
  -- is not that of a request, or a `setstat` that ends before its attributes. The numbers and lengths
  -- of the client's packets fit into their fields, and no packet is too long.
  pub serve_bytes_crash :
      (u : Unused) (user : User) (jail_path : Text) (ps : List Packet) (bad rest : List ℕ)
      → UnusedFits u
      → All (Sendable u) ps
      → BadFrame bad
      → serve_bytes host id_of (new_server user jail_path) (client_stream u ps ++ (bad ++ rest))
        ≡ ServeResult.crash
  serve_bytes_crash u user jail_path ps bad rest hu hs empty_frame =
      empty_request u (new_server user jail_path) ps rest hu hs
  serve_bytes_crash u user jail_path ps bad rest hu hs (not_request kind b h lt) =
      bad_request u (new_server user jail_path) ps kind b rest hu hs lt (
        serve_made-none _ (make_packet kind b)
          (unfold make_packet in parse_by-none parsers kind b h))
  serve_bytes_crash u user jail_path ps bad rest hu hs (cut_setstat b h lt) =
      bad_request u (new_server user jail_path) ps 9 b rest hu hs lt
        (serve_made-cut _ b (worker-IsNumbered host id_of user jail_path ps []).3 h)
