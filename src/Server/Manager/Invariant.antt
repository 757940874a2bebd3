-- ===== src/Server/Manager/Invariant.antt =====
-- What the controller of src/pkgsftp/packet-manager.go holds after any events.
use azure_s_sftp.Base.{
  ℕ, suc, ◌+◌, ◌≤◌, ◌<◌, List, [], ◌∷◌, ◌++◌, none, some, ◌≡◌, ◌⊎◌, refl, sym, ◌∙◌, length,
  length-append, arith, inl, inr, subst, append_assoc, append-nil, false, eqb, eqb_iff, Bool-cases,
}
use azure_s_sftp.Server.{Packet, Response}
use azure_s_sftp.Server.Manager.{
  Ordered, PacketManager, new_order_id, sort, maybe_send_packets, Arrival, send_ready, control,
  controller,
}
use azure_s_sftp.Server.Manager.Sorting.{
  Ascending, From, From-append, From-Ascending, sort-Ascending, find, find-append, find-sort,
  sort-append_Ascending,
}
use azure_s_sftp.Server.Manager.Sending.{Answered, send_ready-Progress}

abbrev pub requests_in : List Arrival → ℕ
requests_in [] = 0
requests_in (Arrival.request p ∷ es) = suc (requests_in es)
requests_in (Arrival.response id r ∷ es) = requests_in es

abbrev pub responses_in : List Arrival → List (Ordered Response)
responses_in [] = []
responses_in (Arrival.request p ∷ es) = responses_in es
responses_in (Arrival.response id r ∷ es) = (id, r) ∷ responses_in es

-- The state after some requests and answers.
abbrev pub IsOrdered : ℕ → List (Ordered Response) → PacketManager → Type 0
IsOrdered n answers s =
    (m : ℕ) × (s.packet_count ≡ n)
    × (length s.sent ≡ m)
    × (m + length s.incoming ≡ n)
    × From (m + 1) s.incoming
    × Ascending (m + 1) s.outgoing
    × Answered answers 1 s.sent
    × ((i : ℕ) → m + 1 ≤ i → find i s.outgoing ≡ find i answers)
    × ((s.incoming ≡ []) ⊎ (find (m + 1) answers ≡ none))

Answered-append :
    (answers : List (Ordered Response)) (k : ℕ) (xs ys : List Response)
    → Answered answers k xs
    → Answered answers (k + length xs) ys
    → Answered answers k (xs ++ ys)
Answered-append answers k [] ys h g = subst (λ i. Answered answers i ys) (omega arith) g
Answered-append answers k (x ∷ xs) ys h g = (
  h.0,
  Answered-append answers (k + 1) xs ys h.1 (subst (λ i. Answered answers i ys) (omega arith) g),
)

Answered-agreeing :
    (answers others : List (Ordered Response)) (k : ℕ) (rs : List Response)
    → ((i : ℕ) → k ≤ i → find i answers ≡ find i others)
    → Answered answers k rs
    → Answered others k rs
Answered-agreeing answers others k [] same h = tt
Answered-agreeing answers others k (r ∷ rs) same h = (
  sym (same k (omega arith)) ∙ h.0,
  Answered-agreeing answers others (k + 1) rs (λ i le. same i (omega arith)) h.1,
)

find-append_some :
    (k : ℕ) (answers : List (Ordered Response)) (x : Ordered Response) (r : Response)
    → find k answers ≡ some r
    → find k (answers ++ (x ∷ [])) ≡ some r
find-append_some k answers x r e = find-append k answers (x ∷ []) ∙ rw e refl

Answered-grown :
    (answers : List (Ordered Response)) (x : Ordered Response) (k : ℕ) (rs : List Response)
    → Answered answers k rs
    → Answered (answers ++ (x ∷ [])) k rs
Answered-grown answers x k [] h = tt
Answered-grown answers x k (r ∷ rs) h =
    (find-append_some k answers x r h.0, Answered-grown answers x (k + 1) rs h.1)

find-append_same :
    (i : ℕ) (xs ys : List (Ordered Response)) (x : Ordered Response)
    → find i xs ≡ find i ys
    → find i (xs ++ (x ∷ [])) ≡ find i (ys ++ (x ∷ []))
find-append_same i xs ys x e =
    find-append i xs (x ∷ []) ∙ (rw e refl ∙ sym (find-append i ys (x ∷ [])))

later_id : (k id : ℕ) → k ≤ id → eqb k id ≡ false → k + 1 ≤ id
later_id k id le t = ground arith

-- A request that has no answer comes after those that were answered.
Answered-preceding :
    (answers : List (Ordered Response)) (k id : ℕ) (rs : List Response)
    → Answered answers k rs
    → k ≤ id
    → find id answers ≡ none
    → k + length rs ≤ id
Answered-preceding answers k id [] h le new = omega arith
Answered-preceding answers k id (r ∷ rs) h le new = elim (Bool-cases (eqb k id)) [
  | inl t ↦ absurd (cc (subst (λ i. find i answers ≡ some r) ((eqb_iff k id).0 t) h.0, new))
  | inr t ↦
      let later = Answered-preceding answers (k + 1) id rs h.1 (later_id k id le t) new in
      omega (arith, later)
]

-- Sending what is ready makes the state one in which nothing more is ready.
maybe_send-IsOrdered :
    (n m : ℕ) (answers : List (Ordered Response)) (s : PacketManager)
    → s.packet_count ≡ n
    → length s.sent ≡ m
    → m + length s.incoming ≡ n
    → From (m + 1) s.incoming
    → Ascending (m + 1) s.outgoing
    → Answered answers 1 s.sent
    → ((i : ℕ) → m + 1 ≤ i → find i s.outgoing ≡ find i answers)
    → IsOrdered n answers (maybe_send_packets s)
unfolding maybe_send_packets
maybe_send-IsOrdered n m answers s hn hm hl f a an keep =
    let (j, ej, fj, l, aj, sent, keep', last) =
      send_ready-Progress (m + 1) s.incoming s.outgoing f a in
    let rs = (send_ready s.incoming s.outgoing).2 in
    let jm : j ≡ (m + length rs) + 1 = omega (arith, ej) in
    (
      m + length rs,
      hn,
      omega (arith, length-append s.sent rs, hm),
      omega (arith, l, hl),
      subst (λ i. From i (send_ready s.incoming s.outgoing).0) jm fj,
      subst (λ i. Ascending i (send_ready s.incoming s.outgoing).1) jm aj,
      Answered-append answers 1 s.sent rs an (
          subst (λ i. Answered answers i rs) (omega (arith, hm))
            (Answered-agreeing s.outgoing answers (m + 1) rs keep sent)),
      (λ i le. keep' i (omega (arith, jm)) ∙ keep i (omega arith)),
      elim last [
        | inl e ↦ inl e
        | inr e ↦ inr (
            subst (λ i. find i answers ≡ none) jm
              (sym (keep j (omega (arith, ej))) ∙ (sym (keep' j (omega arith)) ∙ e)))
      ],
    )

control-IsOrdered_request :
    (n : ℕ) (answers : List (Ordered Response)) (s : PacketManager) (p : Packet)
    → n + 1 < 4294967296
    → IsOrdered n answers s
    → IsOrdered (n + 1) answers (control s (Arrival.request p))
unfolding control new_order_id
control-IsOrdered_request n answers s p lt (m, hn, hm, hl, f, a, an, keep, last) =
    let id = new_order_id s.packet_count in
    let next : id ≡ n + 1 = omega (arith, hn) in
    let ins = s.incoming ++ ((id, p) ∷ []) in
    let all = From-append (m + 1) s.incoming (id, p) f (omega (arith, next, hl)) in
    let sorted = sort-Ascending (m + 1) ins (From-Ascending (m + 1) ins all) in
    maybe_send-IsOrdered (n + 1) m answers (record s { packet_count = id; incoming = sort ins })
      next hm (rw sorted (omega (arith, length-append s.incoming ((id, p) ∷ []), hl)))
      (subst (λ xs. From (m + 1) xs) (sym sorted) all) a an keep

control-IsOrdered_response :
    (n : ℕ) (answers : List (Ordered Response)) (s : PacketManager) (id : ℕ) (r : Response)
    → 1 ≤ id
    → find id answers ≡ none
    → IsOrdered n answers s
    → IsOrdered n (answers ++ ((id, r) ∷ [])) (control s (Arrival.response id r))
unfolding control
control-IsOrdered_response n answers s id r pos new (m, hn, hm, hl, f, a, an, keep, last) =
    let later : m + 1 ≤ id = omega (arith, hm, Answered-preceding answers 1 id s.sent an pos new) in
    let outs = s.outgoing ++ ((id, r) ∷ []) in
    maybe_send-IsOrdered n m (answers ++ ((id, r) ∷ [])) (record s { outgoing = sort outs }) hn hm
      hl f (sort-append_Ascending (m + 1) s.outgoing (id, r) later a (keep id later ∙ new))
      (Answered-grown answers (id, r) 1 s.sent an)
      (λ i le. find-sort i outs ∙ find-append_same i s.outgoing answers (id, r) (keep i le))

-- Each answer of the events belongs to a request, counted from one, and is the only one to it: also
-- none of the answers that came before, the first argument, belongs to that request.
abbrev pub OnceFrom : List (Ordered Response) → List Arrival → Type 0
OnceFrom answers [] = Unit
OnceFrom answers (Arrival.request p ∷ es) = OnceFrom answers es
OnceFrom answers (Arrival.response id r ∷ es) =
    (1 ≤ id) × (find id answers ≡ none) × OnceFrom (answers ++ ((id, r) ∷ [])) es

pub controller-IsOrdered :
    (n : ℕ) (answers : List (Ordered Response)) (s : PacketManager) (es : List Arrival)
    → n + requests_in es < 4294967296
    → OnceFrom answers es
    → IsOrdered n answers s
    → IsOrdered (n + requests_in es) (answers ++ responses_in es) (controller s es)
unfolding controller
controller-IsOrdered n answers s [] lt once h =
    subst (λ xs. IsOrdered (n + 0) xs s) (sym (append-nil answers))
      (subst (λ k. IsOrdered k answers s) (omega arith) h)
controller-IsOrdered n answers s (Arrival.request p ∷ es) lt once h =
    subst
      (λ k.
        IsOrdered k (answers ++ responses_in es) (controller (control s (Arrival.request p)) es))
      (omega arith)
      (controller-IsOrdered (n + 1) answers (control s (Arrival.request p)) es (omega arith) once
        (control-IsOrdered_request n answers s p (omega arith) h))
controller-IsOrdered n answers s (Arrival.response id r ∷ es) lt (pos, new, once) h =
    subst
      (λ xs. IsOrdered (n + requests_in es) xs (controller (control s (Arrival.response id r)) es))
      (append_assoc answers ((id, r) ∷ []) (responses_in es))
      (controller-IsOrdered n (answers ++ ((id, r) ∷ [])) (control s (Arrival.response id r)) es lt
        once (control-IsOrdered_response n answers s id r pos new h))
