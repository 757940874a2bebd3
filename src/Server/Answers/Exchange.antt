-- ===== src/Server/Answers/Exchange.antt =====
-- A whole exchange in bytes: what a client reads from the connection after its requests were
-- served. `sendPacket` of src/pkgsftp/conn.go writes the answers, and the loop of `clientConn.recv`
-- reads them.
use azure_s_sftp.Base.{
  ℕ, zero, suc, ◌<◌, ◌≡◌, refl, sym, ap, ◌∙◌, List, [], ◌∷◌, ◌++◌, map, Option, some, Text, length,
  Error, All, arith,
}
use azure_s_sftp.Server.{Response}
use azure_s_sftp.Server.Wire.Frames.{
  Received, send_packet, recv_packet, recv_header, read_full, max_msg_length,
}
use azure_s_sftp.Server.Wire.Framing.{recv_packet-send_packet}
use azure_s_sftp.Server.Answers.{marshal_answer, Answer, unmarshal_answer}
use azure_s_sftp.Server.Answers.Understood.{
  told_answer, AnswerFits, read_packet, unmarshal_answer-marshal_answer,
}

-- What the server writes to the connection for its answers.
unfoldable pub answer_stream : (Error → Text) → List Response → List ℕ
answer_stream text [] = []
answer_stream text (r ∷ rs) = send_packet (marshal_answer text r) ++ answer_stream text rs

-- What a client takes the packets of a connection for, up to its end.
unfoldable pub read_answers : ℕ → List ℕ → List (Option Answer)
read_answers zero b = []
read_answers (suc fuel) b = elim (recv_packet b) [
  | Received.failed e ↦ []
  | Received.panicked ↦ []
  | Received.frame kind body rest ↦ unmarshal_answer kind body ∷ read_answers fuel rest
]

-- An answer that is not longer than a packet may be, with fields that hold its numbers.
abbrev pub Tellable : (Error → Text) → Response → Type 0
Tellable text r = AnswerFits text r × (length (marshal_answer text r) < suc max_msg_length)

no_answers : (n : ℕ) → read_answers n [] ≡ []
unfolding read_answers recv_packet recv_header read_full
no_answers zero = refl
no_answers (suc n) = refl

head_of :
    (text : Error → Text) (r : Response)
    → (kind : ℕ) × (b : List ℕ) × (marshal_answer text r ≡ kind ∷ b)
unfolding marshal_answer
head_of text Response.version = (_, _, refl)
head_of text (Response.status id code e) = (_, _, refl)
head_of text (Response.handle id h) = (_, _, refl)
head_of text (Response.content id bs) = (_, _, refl)
head_of text (Response.name id attrs) = (_, _, refl)
head_of text (Response.attrs id fi) = (_, _, refl)
head_of text (Response.file_system id st) = (_, _, refl)

read_answers-cons :
    (n kind : ℕ) (b rest : List ℕ)
    → length b < max_msg_length
    → read_answers (suc n) (send_packet (kind ∷ b) ++ rest)
      ≡ unmarshal_answer kind b ∷ read_answers n rest
unfolding read_answers
read_answers-cons n kind b rest lt = rw (recv_packet-send_packet kind b rest lt, read_answers)

-- A client reads the answers from the connection in the order in which the server wrote them, each
-- as the server told it, and nothing else.
pub read_answers-answer_stream :
    (text : Error → Text) (rs : List Response) (n : ℕ)
    → All (Tellable text) rs
    → length rs < n
    → read_answers n (answer_stream text rs) ≡ map (λ r. some (told_answer text r)) rs
unfolding answer_stream
read_answers-answer_stream text [] n h lt = no_answers n
read_answers-answer_stream text (r ∷ rs) zero h lt = absurd (omega arith)
read_answers-answer_stream text (r ∷ rs) (suc n) ((fits, short), h) lt =
    let (kind, b, e) = head_of text r in
    let understood : unmarshal_answer kind b ≡ some (told_answer text r) =
      unfold read_packet in
      (ap read_packet (sym e) ∙ unmarshal_answer-marshal_answer text r fits) in
    let short' : suc (length b) < suc max_msg_length = rw e at short in
    ap (λ m. read_answers (suc n) (send_packet m ++ answer_stream text rs)) e
    ∙ read_answers-cons n kind b (answer_stream text rs) (omega arith)
    ∙ ap (λ a. a ∷ read_answers n (answer_stream text rs)) understood
    ∙ ap (λ as'. some (told_answer text r) ∷ as')
        (read_answers-answer_stream text rs n h (omega arith))
