-- ===== src/Server/Wire/Session.antt =====
-- `Serve` of src/pkgsftp/server.go on the bytes of a connection: the loop that reads packets, and
-- the workers that answer them, one after the other in the order in which they came.
use azure_s_sftp.Base.{
  ℕ, zero, suc, Bool, true, false, ◌&&◌, not, List, [], ◌∷◌, ◌++◌, Option, none, some, length,
  if◌then◌else◌, Error,
}
use azure_s_sftp.Server.{Server, Packet, Response, Host, get_handle}
use azure_s_sftp.Server.Packets.{serve_packet}
use azure_s_sftp.Server.Serving.{close_left}
use azure_s_sftp.Server.Wire.Decode.{Made, make_packet}
use azure_s_sftp.Server.Wire.Encode.{Unused, marshal_binary}
use azure_s_sftp.Server.Wire.Frames.{Received, send_packet, recv_packet}

-- How the loop ends: with the error of `recvPacket`, in a run-time panic, or not yet, where the
-- rounds allowed are used up.
pub data Ending : Type 0 where
  ended : Error → Ending
  crashed : Ending
  unfinished : Ending

-- The loop: what `makePacket` made of the packets that came. An error of `makePacket` closes the
-- connection but leaves neither the `switch` nor the loop, and what was made is handed on.
unfoldable pub read_requests : ℕ → List ℕ → List Made × Ending
read_requests zero b = ([], Ending.unfinished)
read_requests (suc fuel) b = elim (recv_packet b) [
  | Received.failed e ↦ ([], Ending.ended e)
  | Received.panicked ↦ ([], Ending.crashed)
  | Received.frame kind body rest ↦
      let (ms, e) = read_requests fuel rest in (make_packet kind body ∷ ms, e)
]

-- What a worker does with a request: a run-time panic, the end of the worker, or an answer.
pub data WorkerStep : Type 0 where
  panics stops : WorkerStep
  answers : Server → Response → WorkerStep

-- `Attrs` is read: it is nil if the packet could not be read to its end.
unfoldable pub reads_attrs : Server → Packet → Bool
reads_attrs s (Packet.setstat id p flags b) = not s.read_only
reads_attrs s (Packet.fsetstat id h flags b) =
    not s.read_only && elim (get_handle s h) [ none ↦ false | some f ↦ true ]
reads_attrs s _ = false

unfoldable pub step_of : Option (Server × Response) → WorkerStep
step_of none = WorkerStep.stops
step_of (some (s, r)) = WorkerStep.answers s r

-- How a session ends: in a run-time panic of the whole process, or with its state and its answers.
pub data Ran : Type 0 where
  crash : Ran
  ran : Server → List Response → Ran

unfoldable pub with_answer : Response → Ran → Ran
with_answer r Ran.crash = Ran.crash
with_answer r (Ran.ran s rs) = Ran.ran s (r ∷ rs)

-- `Serve` returns the error that ended its loop, after it closed the files that are left open.
pub data ServeResult : Type 0 where
  crash pending : ServeResult
  returned : Error → Server → List Response → ServeResult

unfoldable pub session_of : Ending → Ran → ServeResult
session_of Ending.crashed r = ServeResult.crash
session_of e Ran.crash = ServeResult.crash
session_of (Ending.ended e) (Ran.ran s rs) = ServeResult.returned e (close_left s s.open_files) rs
session_of Ending.unfinished (Ran.ran s rs) = ServeResult.pending

module _ (host : Host) (id_of : Packet → ℕ) where
  -- A nil packet panics in the controller of the packet manager, which asks for its identifier.
  unfoldable pub serve_made : Server → Made → WorkerStep
  serve_made s m = elim m.packet [
    | none ↦ WorkerStep.panics
    | some p ↦ elim m.error [
      | none ↦ step_of (serve_packet host id_of s p)
      | some e ↦
          if reads_attrs s p then WorkerStep.panics else step_of (serve_packet host id_of s p)
    ]
  ]

  unfoldable pub run_made : Server → List Made → Ran
  run_made s [] = Ran.ran s []
  run_made s (m ∷ ms) = elim (serve_made s m) [
    | WorkerStep.panics ↦ Ran.crash
    | WorkerStep.stops ↦ Ran.ran s []
    | WorkerStep.answers s' r ↦ with_answer r (run_made s' ms)
  ]

  unfoldable pub serve_bytes : Server → List ℕ → ServeResult
  serve_bytes s b = let (ms, e) = read_requests (suc (length b)) b in session_of e (run_made s ms)

-- What a client writes to the connection for the packets.
unfoldable pub client_stream : Unused → List Packet → List ℕ
client_stream u [] = []
client_stream u (p ∷ ps) = elim (marshal_binary u p) [
  | none ↦ client_stream u ps
  | some bb ↦ send_packet bb ++ client_stream u ps
]
