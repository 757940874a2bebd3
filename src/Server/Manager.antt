-- ===== src/Server/Manager.antt =====
-- src/pkgsftp/packet-manager.go: the requests of a session get numbers in the order in which they
-- come, the workers answer them in any order, and the controller sends the answers in the order of
-- the requests. `NewServer` sets no allocator.
pub mod Sorting
pub mod Sending
pub mod Invariant
pub mod Order
pub mod Dispatch
pub mod Closing
use azure_s_sftp.Base.{
  ℕ, zero, suc, ◌+◌, ◌%◌, List, [], ◌∷◌, ◌++◌, Option, none, some, leb, eqb, if◌then◌else◌,
}
use azure_s_sftp.Server.{Packet, Response}

-- `orderedRequest` and `orderedResponse`: a packet with the number of its request.
abbrev pub Ordered {ℓ} : Type ℓ → Type ℓ
Ordered A = ℕ × A

-- The fields `packetCount`, `incoming` and `outgoing`, and what was given to the sender so far.
pub record PacketManager : Type 0 where
  pub packet_count : ℕ
  pub incoming : List (Ordered Packet)
  pub outgoing : List (Ordered Response)
  pub sent : List Response

unfoldable pub new_packet_manager : PacketManager
new_packet_manager = record { packet_count = 0; incoming = []; outgoing = []; sent = [] }

-- `newOrderID`, on a uint32.
unfoldable pub new_order_id : ℕ → ℕ
new_order_id count = (count + 1) % 4294967296

module _ {ℓ} {A : Type ℓ} where
  unfoldable pub insert : Ordered A → List (Ordered A) → List (Ordered A)
  insert x [] = x ∷ []
  insert x (y ∷ ys) = let rest = insert x ys in if leb x.0 y.0 then x ∷ (y ∷ ys) else y ∷ rest

  -- `Sort`: `sort.Slice` by the numbers, which are all different.
  unfoldable pub sort : List (Ordered A) → List (Ordered A)
  unfolding insert
  sort [] = []
  sort (x ∷ xs) = insert x (sort xs)

-- `maybeSendPackets` on the two lists: what is left of them, and the answers that are sent. Each
-- round takes the heads of both, as long as their numbers are the same.
unfoldable pub send_ready :
    List (Ordered Packet)
    → List (Ordered Response)
    → List (Ordered Packet) × List (Ordered Response) × List Response
send_ready [] outs = ([], outs, [])
send_ready (x ∷ ins) [] = (x ∷ ins, [], [])
send_ready ((i, p) ∷ ins) ((o, r) ∷ outs) =
    let (ins', outs', rs) = send_ready ins outs in
    if eqb i o then (ins', outs', r ∷ rs) else ((i, p) ∷ ins, (o, r) ∷ outs, [])

unfoldable pub maybe_send_packets : PacketManager → PacketManager
maybe_send_packets s =
    let (ins, outs, rs) = send_ready s.incoming s.outgoing in
    record s { incoming = ins; outgoing = outs; sent = s.sent ++ rs }

-- What the controller takes from its channels: the next request, which got its number in the loop of
-- `Serve`, and the answer of a worker to the request of that number, at any time.
pub data Arrival : Type 0 where
  request : Packet → Arrival
  response : ℕ → Response → Arrival

-- One round of `controller`.
unfoldable pub control : PacketManager → Arrival → PacketManager
control s (Arrival.request p) =
    let id = new_order_id s.packet_count in
    maybe_send_packets
      (record s { packet_count = id; incoming = sort (s.incoming ++ ((id, p) ∷ [])) })
control s (Arrival.response id r) =
    maybe_send_packets (record s { outgoing = sort (s.outgoing ++ ((id, r) ∷ [])) })

unfoldable pub controller : PacketManager → List Arrival → PacketManager
controller s [] = s
controller s (e ∷ es) = controller (control s e) es
