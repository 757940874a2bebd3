-- ===== src/Tests/Wire.antt =====
-- Packets of src/pkgsftp/packet.go, sessions on bytes and the packet manager, at concrete data.
use azure_s_sftp.Base.{
  inl, ℕ, ◌≤◌, List, ◌⊎◌, ◌≡◌, refl, false, [], ◌∷◌, ◌++◌, none, some, codes, All, arith, Error, ok,
  length, err,
}
use azure_s_sftp.User.{User, no_user}
use azure_s_sftp.Tests.Hosts.{a_file, a_date}
use azure_s_sftp.Server.{Server, Host, Packet, Response, get_user_jail_path, new_server}
use azure_s_sftp.Server.Packets.{unmarshal_uint}
use azure_s_sftp.Server.Replies.{packet_id}
use azure_s_sftp.Server.Handles.{IsNumbered}
use azure_s_sftp.Server.Serving.{worker}
use azure_s_sftp.Server.Kept.{worker-IsNumbered}
use azure_s_sftp.Server.Wire.Decode.{good, make_packet, unmarshal_id_string}
use azure_s_sftp.Server.Wire.Encode.{Unused, marshal_binary}
use azure_s_sftp.Server.Wire.Fits.{Fits, UnusedFits}
use azure_s_sftp.Server.Wire.RoundTrip.{make_packet-marshal_binary}
use azure_s_sftp.Server.Wire.Frames.{
  Received, send_packet, recv_packet, recv_header, recv_length, recv_body, read_full, split_type,
  max_msg_length,
}
use azure_s_sftp.Server.Wire.Framing.{recv_packet_frame, IsReadError}
use azure_s_sftp.Server.Wire.Session.{ServeResult, serve_bytes, client_stream}
use azure_s_sftp.Server.Wire.Served.{Sendable, serve_bytes_ends}
use azure_s_sftp.Server.Wire.Crash.{BadFrame, not_request, serve_bytes_crash}
use azure_s_sftp.Server.Manager.{
  new_packet_manager, Arrival, controller, control, maybe_send_packets, send_ready, sort,
  new_order_id,
}
use azure_s_sftp.Server.Manager.Sorting.{find}
use azure_s_sftp.Server.Manager.Invariant.{responses_in, OnceFrom}
use azure_s_sftp.Server.Manager.Order.{in_order, controller-in_order}
use azure_s_sftp.Server.Manager.Dispatch.{
  Dispatcher, dispatch, is_read_or_write, is_close, dispatched, ready, Reachable, created, later,
}
use azure_s_sftp.Server.Manager.Closing.{close_comes_first}

abbrev pub unused : Unused
unused = record { version = 3; pairs = (codes "a", codes "b") ∷ []; flags = 7 }

pub unused-UnusedFits : UnusedFits unused
unfolding UnusedFits
unused-UnusedFits = (omega arith, omega arith, ((omega arith, omega arith), tt))

abbrev write_request : Packet
write_request = Packet.write 258 (codes "1") 4294967297 (9 ∷ 8 ∷ [])

abbrev write_bytes : List ℕ
write_bytes =
    0 ∷ 0 ∷ 1 ∷ 2 ∷ 0 ∷ 0 ∷ 0 ∷ 1 ∷ 49 ∷ 0 ∷ 0 ∷ 0 ∷ 1 ∷ 0 ∷ 0 ∷ 0 ∷ 1 ∷ 0 ∷ 0 ∷ 0 ∷ 2 ∷ 9 ∷ 8 ∷ []

write_request-Fits : Fits write_request
unfolding Fits
write_request-Fits = (omega arith, omega arith, omega arith, omega arith)

write_request_bytes : marshal_binary unused write_request ≡ some (6 ∷ write_bytes)
unfolding marshal_binary
write_request_bytes = refl

make_packet-marshal_binary_example : make_packet 6 write_bytes ≡ good write_request
make_packet-marshal_binary_example =
    make_packet-marshal_binary unused write_request 6 write_bytes unused-UnusedFits
      write_request-Fits write_request_bytes

-- A packet of which the path is missing is made with an empty one, and an error.
remove_cut : make_packet 13 (0 ∷ 0 ∷ 0 ∷ 5 ∷ []) ≡ record {
  packet = some (Packet.remove 5 []);
  error = some (Error.other (codes "packet too short"));
}
unfolding make_packet unmarshal_id_string
remove_cut = refl

two_frames : recv_packet (0 ∷ 0 ∷ 0 ∷ 2 ∷ 13 ∷ 7 ∷ 99 ∷ []) ≡ Received.frame 13 (7 ∷ []) (99 ∷ [])
unfolding recv_packet recv_header recv_length recv_body read_full split_type unmarshal_uint
two_frames = refl

recv_packet_frame_example :
    (header : List ℕ) × (0 ∷ 0 ∷ 0 ∷ 2 ∷ 13 ∷ 7 ∷ 99 ∷ [] ≡ header ++ ((13 ∷ 7 ∷ []) ++ (99 ∷ [])))
    × (length header ≡ 4)
    × (unmarshal_uint 4 0 header ≡ some (2, []))
    × (2 ≤ max_msg_length)
recv_packet_frame_example =
    recv_packet_frame (0 ∷ 0 ∷ 0 ∷ 2 ∷ 13 ∷ 7 ∷ 99 ∷ []) 13 (7 ∷ []) (99 ∷ []) two_frames

abbrev pub alice : User
alice = record no_user { jail_directory = codes "alice" }

-- An operating system on which every call succeeds.
abbrev pub host : Host
host = record {
  info = λ before c. ok (a_file);
  act = λ before c. none;
  text = λ before c. ok (codes "/target");
  file = λ before c. ok (record { name = codes "/mnt/staging/alice/a"; fd = 5 });
  bytes = λ before c. (1 ∷ 2 ∷ [], some Error.eof);
  names = λ before c. ok (a_file ∷ []);
  file_system = λ before c. err (Error.errno 38);
  date = λ before t. a_date;
  working_directory = ok (codes "/");
}

abbrev pub session : Server
session = new_server alice (codes "/mnt/staging")

abbrev packets : List Packet
packets = write_request ∷ []

packets-Sendable : All (Sendable unused) packets
packets-Sendable = ((write_request-Fits, 6, write_bytes, write_request_bytes, omega arith), tt)

serve_bytes_ends_example :
    (serve_bytes host packet_id session (1 ∷ 2 ∷ []) ≡ ServeResult.crash)
    ⊎ ((e : Error) × (s' : Server) × (rs : List Response) × (serve_bytes host packet_id session
            (1 ∷ 2 ∷ [])
          ≡ ServeResult.returned e s' rs)
        × IsReadError e)
serve_bytes_ends_example = serve_bytes_ends host packet_id session (1 ∷ 2 ∷ [])

-- A packet of type 2, a version packet, which no server expects.
version_bad : BadFrame (send_packet (2 ∷ 0 ∷ []))
version_bad = not_request 2 (0 ∷ []) (ground arith) (omega arith)

serve_bytes_crash_example :
    serve_bytes host packet_id session
      (client_stream unused packets ++ (send_packet (2 ∷ 0 ∷ []) ++ (7 ∷ [])))
    ≡ ServeResult.crash
serve_bytes_crash_example =
    serve_bytes_crash host packet_id unused alice (codes "/mnt/staging") packets
      (send_packet (2 ∷ 0 ∷ [])) (7 ∷ []) unused-UnusedFits packets-Sendable version_bad

worker-IsNumbered_example :
    let s =
      (worker host packet_id
        (new_server alice (codes "/mnt/staging"))
        (Packet.open_path 1 (codes "a") 1 ∷ [])).0 in
    IsNumbered s
    × (s.user ≡ alice)
    × (s.jail_path ≡ codes "/mnt/staging")
    × (s.read_only ≡ false)
    × (get_user_jail_path s (codes "/b")
        ≡ get_user_jail_path (new_server alice (codes "/mnt/staging")) (codes "/b"))
worker-IsNumbered_example =
    worker-IsNumbered host packet_id alice (codes "/mnt/staging")
      (Packet.open_path 1 (codes "a") 1 ∷ []) (codes "/b")

-- Two requests, the second of which is answered first.
abbrev events : List Arrival
events =
    Arrival.request (Packet.stat 10 (codes "a"))
    ∷ Arrival.request (Packet.stat 11 (codes "b"))
    ∷ Arrival.response 2 (Response.status 11 0 none)
    ∷ Arrival.response 1 (Response.status 10 0 none)
    ∷ []

events-OnceFrom : OnceFrom [] events
unfolding find
events-OnceFrom = (omega arith, refl, (omega arith, refl, tt))

controller-in_order_example :
    ((controller new_packet_manager events).sent ≡ in_order 2 1 (responses_in events))
    × ((length (controller new_packet_manager events).sent ≡ 2)
        ⊎ ((k : ℕ) × (1 ≤ k) × (k ≤ 2) × (find k (responses_in events) ≡ none)))
controller-in_order_example = controller-in_order events (omega arith) events-OnceFrom

-- Before the first request is answered nothing is sent.
waits :
    (controller new_packet_manager (
      Arrival.request (Packet.stat 10 (codes "a"))
      ∷ Arrival.request (Packet.stat 11 (codes "b"))
      ∷ Arrival.response 2 (Response.status 11 0 none)
      ∷ [])).sent
    ≡ []
unfolding controller control maybe_send_packets send_ready sort new_packet_manager new_order_id
waits = refl

abbrev write_1 : Packet
write_1 = Packet.write 20 (codes "1") 0 (9 ∷ [])

abbrev read_1 : Packet
read_1 = Packet.read 21 (codes "1") 0 5

abbrev close_1 : Packet
close_1 = Packet.close 22 (codes "1")

abbrev outstanding : ℕ → List (ℕ × Packet) → Dispatcher
outstanding n xs = record { packet_count = n; outstanding = xs }

-- A write and a read, the second of which is answered first, then a close and another write.
closing : Reachable (outstanding 4 ((3, close_1) ∷ (4, write_1) ∷ []))
unfolding dispatch is_read_or_write is_close new_order_id
closing =
    later
      (later
        (later
          (later (later (later created (dispatched write_1 refl)) (dispatched read_1 refl))
            (ready ((1, write_1) ∷ []) [] (2, read_1) refl (inl refl)))
          (ready [] [] (1, write_1) refl (inl refl)))
        (dispatched close_1 refl))
      (dispatched write_1 refl)

-- The close waits for the write.
close_waits : dispatch (outstanding 1 ((1, write_1) ∷ [])) close_1 ≡ none
unfolding dispatch is_read_or_write is_close
close_waits = refl

close_comes_first_example :
    (outstanding 4 ((3, close_1) ∷ (4, write_1) ∷ [])).outstanding
    ≡ (3, close_1) ∷ (4, write_1) ∷ []
close_comes_first_example =
    close_comes_first (outstanding 4 ((3, close_1) ∷ (4, write_1) ∷ [])) [] ((4, write_1) ∷ [])
      (3, close_1) closing refl (unfold is_close in refl)
