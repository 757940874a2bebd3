-- ===== src/Server/Wire/Framing.antt =====
-- What `recvPacket` of src/pkgsftp/packet.go makes of the bytes of a connection.
use azure_s_sftp.Base.{
  Result-cases, none, Option, eqb, subst, ℕ, suc, false, Error, ◌%◌, ◌≤◌, ◌<◌, List, [], ◌∷◌, ◌++◌,
  some, ◌≡◌, refl, length, length-append, append_assoc, append-nil, sym, ap, zero, ◌∙◌, ◌⊎◌, Result,
  take, drop, take-append, drop-append, arith, Bool-cases, ltb, inl, inr, ok, err,
}
use azure_s_sftp.Server.Packets.{unmarshal_uint}
use azure_s_sftp.Server.Wire.{marshal_uint32}
use azure_s_sftp.Server.Wire.Fields.{unmarshal_uint-marshal_uint32}
use azure_s_sftp.Server.Wire.Frames.{
  unexpected_eof, send_packet, read_full, Received, split_type, long_packet, recv_body, recv_length,
  recv_header, recv_packet, max_msg_length,
}

-- Bytes that are there are read.
read_full-append : (b rest : List ℕ) → read_full (length b) (b ++ rest) ≡ ok (b, rest)
unfolding read_full
read_full-append b rest =
    ground (arith, length-append b rest, take-append b rest, drop-append b rest)

recv_body_lem :
    (kind : ℕ) (b rest : List ℕ)
    → length b < max_msg_length
    → recv_body (suc (length b)) ((kind ∷ b) ++ rest) ≡ Received.frame kind b rest
unfolding recv_body split_type
recv_body_lem kind b rest h = ground (arith, read_full-append (kind ∷ b) rest)

read_full_header :
    (v : ℕ) (rest : List ℕ) → read_full 4 (marshal_uint32 v ++ rest) ≡ ok (marshal_uint32 v, rest)
unfolding marshal_uint32
read_full_header v rest = read_full-append (marshal_uint32 v) rest

header_length : (v : ℕ) → v < 4294967296 → unmarshal_uint 4 0 (marshal_uint32 v) ≡ some (v, [])
header_length v h = rw append-nil at (unmarshal_uint-marshal_uint32 v [] h)

-- A header with the length, and what follows it.
pub recv_packet_header :
    (v : ℕ) (rest : List ℕ)
    → v < 4294967296
    → recv_packet (marshal_uint32 v ++ rest) ≡ recv_body v rest
unfolding recv_packet recv_header recv_length
recv_packet_header v rest h = simp (read_full_header v rest, header_length v h) refl

-- `recvPacket` reads what `sendPacket` wrote of a packet that is not too long, whatever follows on
-- the connection: its type, its bytes, and the rest is left.
pub recv_packet-send_packet :
    (kind : ℕ) (b rest : List ℕ)
    → length b < max_msg_length
    → recv_packet (send_packet (kind ∷ b) ++ rest) ≡ Received.frame kind b rest
unfolding send_packet
recv_packet-send_packet kind b rest h =
    rw (append_assoc (marshal_uint32 (suc (length b) % 4294967296)) (kind ∷ b) rest) (
      recv_packet_header (suc (length b) % 4294967296) ((kind ∷ b) ++ rest) (omega arith)
      ∙ ap (λ n. recv_body n ((kind ∷ b) ++ rest)) (omega arith)
      ∙ recv_body_lem kind b rest h)

take-drop :
    (n : ℕ) (b : List ℕ) → n ≤ length b → (b ≡ take n b ++ drop n b) × (length (take n b) ≡ n)
take-drop zero b h = (refl, refl)
take-drop (suc n) [] h = absurd (omega arith)
take-drop (suc n) (x ∷ b) h =
    let (e, l) = take-drop n b (omega arith) in (ap (λ c. x ∷ c) e, omega (arith, l))

-- What `io.ReadFull` read stands before what it left.
read_full_ok :
    (n : ℕ) (b x rest : List ℕ) → read_full n b ≡ ok (x, rest) → (b ≡ x ++ rest) × (length x ≡ n)
unfolding read_full
read_full_ok n b x rest e = ground (arith, take-drop n b)

not_ltb : (a b : ℕ) → ltb a b ≡ false → b ≤ a
not_ltb a b h = ground arith

four_bytes_read :
    (header : List ℕ) → length header ≡ 4 → (n : ℕ) × (unmarshal_uint 4 0 header ≡ some (n, []))
unfolding unmarshal_uint
four_bytes_read [] h = absurd (omega arith)
four_bytes_read (a ∷ []) h = absurd (omega arith)
four_bytes_read (a ∷ b ∷ []) h = absurd (omega arith)
four_bytes_read (a ∷ b ∷ c ∷ []) h = absurd (omega arith)
four_bytes_read (a ∷ b ∷ c ∷ d ∷ []) h = (_, refl)
four_bytes_read (a ∷ b ∷ c ∷ d ∷ x ∷ l) h = absurd (omega arith)

split_type_frame :
    (r : Result (List ℕ × List ℕ)) (kind : ℕ) (body rest : List ℕ)
    → split_type r ≡ Received.frame kind body rest
    → r ≡ ok (kind ∷ body, rest)
unfolding split_type
split_type_frame (err e) kind body rest h = cc
split_type_frame (ok ([], b)) kind body rest h = cc
split_type_frame (ok (k ∷ c, b)) kind body rest h = cc

recv_body_cases :
    (n : ℕ) (b : List ℕ)
    → ((e : Error) × (recv_body n b ≡ Received.failed e))
      ⊎ ((recv_body n b ≡ split_type (read_full n b)) × (n ≤ max_msg_length))
unfolding recv_body
recv_body_cases n b = elim (Bool-cases (ltb max_msg_length n)) [
  | inl h ↦ inl (long_packet, rw h refl)
  | inr h ↦ inr (rw h refl, omega (arith, not_ltb max_msg_length n h))
]

body_frame :
    (n : ℕ) (b : List ℕ) (kind : ℕ) (body rest : List ℕ)
    → recv_body n b ≡ Received.frame kind body rest
    → (b ≡ (kind ∷ body) ++ rest) × (n ≡ suc (length body)) × (n ≤ max_msg_length)
body_frame n b kind body rest e = elim (recv_body_cases n b) [
  | inl (e', h) ↦ absurd (cc (h, e))
  | inr (h, le) ↦
      let (eb, l) =
        read_full_ok n b _ rest (split_type_frame (read_full n b) kind body rest (sym h ∙ e)) in
      (eb, sym l, le)
]

header_frame :
    (r : Result (List ℕ × List ℕ)) (kind : ℕ) (body rest : List ℕ)
    → recv_header r ≡ Received.frame kind body rest
    → (header : List ℕ) × (b : List ℕ) × (r ≡ ok (header, b))
      × (recv_length (unmarshal_uint 4 0 header) b ≡ Received.frame kind body rest)
unfolding recv_header
header_frame (err e) kind body rest h = absurd cc
header_frame (ok (header, b)) kind body rest h = (header, b, refl, h)

-- A packet that `recvPacket` returns was on the connection: four bytes with its length, its type and
-- its bytes, no more than 256 KiB in all, and behind them what is left.
pub recv_packet_frame :
    (b : List ℕ) (kind : ℕ) (body rest : List ℕ)
    → recv_packet b ≡ Received.frame kind body rest
    → (header : List ℕ) × (b ≡ header ++ ((kind ∷ body) ++ rest))
      × (length header ≡ 4)
      × (unmarshal_uint 4 0 header ≡ some (suc (length body), []))
      × (suc (length body) ≤ max_msg_length)
unfolding recv_packet recv_length
recv_packet_frame b kind body rest e =
    let (header, b', eh, el) = header_frame (read_full 4 b) kind body rest e in
    let (eb, l) = read_full_ok 4 b header b' eh in
    let (n, en) = four_bytes_read header l in
    let (eb', ln, le) = body_frame n b' kind body rest (rw en at el) in
    (
      header,
      eb ∙ ap (λ c. header ++ c) eb',
      l,
      en ∙ ap (λ v. some (v, [])) ln,
      omega (arith, ln, le),
    )

-- The errors of `recvPacket`: the connection ended before a packet or within one, or a packet is too
-- long.
abbrev pub IsReadError : Error → Type 0
IsReadError e = (e ≡ Error.eof) ⊎ ((e ≡ unexpected_eof) ⊎ (e ≡ long_packet))

failed_injective : (a b : Error) → Received.failed a ≡ Received.failed b → a ≡ b
failed_injective a b e = cc

err_injective : (a b : Error) → ◌≡◌ {A = Result (List ℕ × List ℕ)} (err a) (err b) → a ≡ b
err_injective a b e = cc

read_full_error : (n : ℕ) (b : List ℕ) (e : Error) → read_full n b ≡ err e → IsReadError e
unfolding read_full
read_full_error n b e h = elim (Bool-cases (ltb (length b) n)) [
  | inr t ↦ absurd (cc (rw t at h))
  | inl t ↦ elim (Bool-cases (eqb (length b) 0)) [
    | inl z ↦ inl (sym (err_injective _ e (rw (t, z) at h)))
    | inr z ↦ inr (inl (sym (err_injective _ e (rw (t, z) at h))))
  ]
]

split_type-failed :
    (r : Result (List ℕ × List ℕ)) (e : Error) → split_type r ≡ Received.failed e → r ≡ err e
unfolding split_type
split_type-failed (err e') e h = cc
split_type-failed (ok ([], b)) e h = absurd cc
split_type-failed (ok (k ∷ c, b)) e h = absurd cc

body_failed : (n : ℕ) (b : List ℕ) (e : Error) → recv_body n b ≡ Received.failed e → IsReadError e
unfolding recv_body
body_failed n b e h = elim (Bool-cases (ltb max_msg_length n)) [
  | inl t ↦ inr (inr (sym (failed_injective long_packet e (rw t at h))))
  | inr t ↦ read_full_error n b e (split_type-failed (read_full n b) e (rw t at h))
]

length_failed :
    (o : Option (ℕ × List ℕ)) (b : List ℕ) (e : Error)
    → recv_length o b ≡ Received.failed e
    → IsReadError e
unfolding recv_length
length_failed none b e h = absurd cc
length_failed (some (n, x)) b e h = body_failed n b e h

pub recv_packet-failed :
    (b : List ℕ) (e : Error) → recv_packet b ≡ Received.failed e → IsReadError e
unfolding recv_packet recv_header
recv_packet-failed b e h = elim (Result-cases (read_full 4 b)) [
  | inl ((header, rest), t) ↦
      length_failed (unmarshal_uint 4 0 header) rest e (rw (t, recv_header) at h)
  | inr (e', t) ↦
      subst IsReadError (failed_injective e' e (rw (t, recv_header) at h))
        (read_full_error 4 b e' t)
]
