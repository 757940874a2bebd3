-- ===== src/Server/Manager/Dispatch.antt =====
-- `workerChan` of src/pkgsftp/packet-manager.go: which request may go to a worker, and the workers
-- that finish them. Reads and writes go to several workers, everything else to a single one.
use azure_s_sftp.Base.{
  ◌≡◌, ◌⊎◌, Bool, true, false, List, [], ◌∷◌, ◌++◌, Option, none, some, All, length, eqb, ℕ,
  if◌then◌else◌, ◌&&◌, not,
}
use azure_s_sftp.Server.{Packet}
use azure_s_sftp.Server.Manager.{Ordered, new_order_id}

-- The number of the last request, and those that `working` counts, which were given to the workers
-- and are not answered, in the order in which they came.
pub record Dispatcher : Type 0 where
  pub packet_count : ℕ
  pub outstanding : List (Ordered Packet)

abbrev pub new_dispatcher : Dispatcher
new_dispatcher = record { packet_count = 0; outstanding = [] }

unfoldable pub is_read_or_write : Packet → Bool
is_read_or_write (Packet.read id h o n) = true
is_read_or_write (Packet.write id h o b) = true
is_read_or_write _ = false

unfoldable pub is_close : Packet → Bool
is_close (Packet.close id h) = true
is_close _ = false

-- `incomingPacket`, and the channel of the workers.
abbrev pub incoming_packet : Dispatcher → Packet → Dispatcher
incoming_packet d p =
    let id = new_order_id d.packet_count in
    record { packet_count = id; outstanding = d.outstanding ++ ((id, p) ∷ []) }

-- A round of the loop; `none` while it waits until no request is outstanding.
unfoldable pub dispatch : Dispatcher → Packet → Option Dispatcher
dispatch d p =
    if is_read_or_write p
    then some (incoming_packet d p)
    else if is_close p && not (eqb (length d.outstanding) 0)
    then none
    else some (incoming_packet d p)

-- The steps of the session: the next request is given to a worker, or a worker is done with one and
-- its answer is ready. The single worker takes its requests in the order in which they came.
pub data DispatchStep : Dispatcher → Dispatcher → Type 0 where
  dispatched : {d d' : Dispatcher} → (p : Packet) → dispatch d p ≡ some d' → DispatchStep d d'
  ready :
      {d : Dispatcher}
      → (before after : List (Ordered Packet)) → (q : Ordered Packet)
      → d.outstanding ≡ before ++ (q ∷ after)
      → (is_read_or_write q.1 ≡ true)
        ⊎ All (λ (x : Ordered Packet). is_read_or_write x.1 ≡ true) before
      → DispatchStep d (record d { outstanding = before ++ after })

pub data Reachable : Dispatcher → Type 0 where
  created : Reachable new_dispatcher
  later : {d d' : Dispatcher} → Reachable d → DispatchStep d d' → Reachable d'
