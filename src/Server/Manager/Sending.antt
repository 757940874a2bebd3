-- ===== src/Server/Manager/Sending.antt =====
-- `maybeSendPackets` of src/pkgsftp/packet-manager.go: which answers it sends, and what it leaves.
use azure_s_sftp.Base.{
  ℕ, ◌+◌, ◌≤◌, ◌<◌, List, [], ◌∷◌, none, some, ◌≡◌, ◌⊎◌, refl, sym, false, ◌∙◌, eqb, eqb_iff,
  Bool-cases, length, arith, inl, inr,
}
use azure_s_sftp.Server.{Packet, Response}
use azure_s_sftp.Server.Manager.{Ordered, send_ready}
use azure_s_sftp.Server.Manager.Sorting.{Ascending, From, find, find_below, Ascending-weaken}

-- The answers to the requests from a number on, one after the other.
abbrev pub Answered : List (Ordered Response) → ℕ → List Response → Type 0
Answered answers k [] = Unit
Answered answers k (r ∷ rs) = (find k answers ≡ some r) × Answered answers (k + 1) rs

-- What `maybeSendPackets` makes of requests from a number on and of answers in order: the answers
-- that it sends belong to the first requests, up to a number `j`. The other requests and the answers
-- to them are left, and unless no request is left the answer with that number is not there.
abbrev pub Progress :
    ℕ
    → List (Ordered Packet)
    → List (Ordered Response)
    → List (Ordered Packet) × List (Ordered Response) × List Response
    → Type 0
Progress k ins outs (ins', outs', rs) =
    (j : ℕ) × (j ≡ k + length rs)
    × From j ins'
    × (length rs + length ins' ≡ length ins)
    × Ascending j outs'
    × Answered outs k rs
    × ((i : ℕ) → j ≤ i → find i outs' ≡ find i outs)
    × ((ins' ≡ []) ⊎ (find j outs' ≡ none))

find_later :
    (j : ℕ) (x : Ordered Response) (outs : List (Ordered Response))
    → x.0 < j
    → find j (x ∷ outs) ≡ find j outs
unfolding find
find_later j x outs lt = ground arith

Answered-passed :
    (k : ℕ) (x : Ordered Response) (outs : List (Ordered Response)) (rs : List Response)
    → x.0 < k
    → Answered outs k rs
    → Answered (x ∷ outs) k rs
Answered-passed k x outs [] lt h = tt
Answered-passed k x outs (r ∷ rs) lt h =
    (find_later k x outs lt ∙ h.0, Answered-passed (k + 1) x outs rs (omega arith) h.1)

find_head :
    (k : ℕ) (x : Ordered Response) (outs : List (Ordered Response))
    → x.0 ≡ k
    → find k (x ∷ outs) ≡ some x.1
unfolding find
find_head k x outs e = ground arith

first_later : (k i o : ℕ) → k ≤ o → i ≡ k → eqb i o ≡ false → k + 1 ≤ o
first_later k i o le e t = ground arith

pub send_ready-Progress :
    (k : ℕ) (ins : List (Ordered Packet)) (outs : List (Ordered Response))
    → From k ins
    → Ascending k outs
    → Progress k ins outs (send_ready ins outs)
unfolding send_ready
send_ready-Progress k [] outs f a =
    (k, omega arith, tt, omega arith, a, tt, (λ i le. refl), inl refl)
send_ready-Progress k (x ∷ ins) [] f a =
    (k, omega arith, f, omega arith, tt, tt, (λ i le. refl), inr (unfold find in refl))
send_ready-Progress k ((i, p) ∷ ins) ((o, r) ∷ outs) f a = elim (Bool-cases (eqb i o)) [
  | inl t ↦
      let same = (eqb_iff i o).0 t in
      let (j, ej, fj, l, aj, s, keep, last) =
        send_ready-Progress (k + 1) ins outs f.1
          (Ascending-weaken (k + 1) (o + 1) outs (omega (arith, f.0)) a.1) in
      rw t (
        j,
        omega (arith, ej),
        fj,
        omega (arith, l),
        aj,
        (
          find_head k (o, r) outs (omega (arith, f.0)),
          Answered-passed (k + 1) (o, r) outs _ (omega (arith, f.0)) s,
        ),
        (λ i' le. keep i' le ∙ sym (find_later i' (o, r) outs (omega (arith, f.0, ej)))),
        last,
      )
  | inr t ↦ rw t (
    k,
    omega arith,
    f,
    omega arith,
    a,
    tt,
    (λ i' le. refl),
    inr (find_below k (k + 1) ((o, r) ∷ outs) (omega arith) (first_later k i o a.0 f.0 t, a.1)),
  )
]
