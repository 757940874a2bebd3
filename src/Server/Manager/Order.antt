-- ===== src/Server/Manager/Order.antt =====
-- The answers of a session go out in the order of its requests: src/pkgsftp/packet-manager.go.
use azure_s_sftp.Base.{
  ℕ, ◌∙◌, false, eqb, eqb_iff, Bool-cases, ◌⊎◌, zero, suc, ◌+◌, ◌≤◌, ◌<◌, List, [], ◌∷◌, none, some,
  ◌≡◌, ◌⊎◌, refl, ap, length, arith, inl, inr, subst,
}
use azure_s_sftp.Server.{Response}
use azure_s_sftp.Server.Manager.{Ordered, new_packet_manager, Arrival, controller}
use azure_s_sftp.Server.Manager.Sorting.{find}
use azure_s_sftp.Server.Manager.Sending.{Answered}
use azure_s_sftp.Server.Manager.Invariant.{
  requests_in, responses_in, OnceFrom, controller-IsOrdered,
}

-- The answers to the requests from a number on, up to the first that has none. The first argument
-- is the number of requests.
unfoldable pub in_order : ℕ → ℕ → List (Ordered Response) → List Response
unfolding find
in_order zero k answers = []
in_order (suc n) k answers = elim (find k answers) [
  | none ↦ []
  | some r ↦ r ∷ in_order n (k + 1) answers
]

-- Answers that begin those in order, up to one that is missing, are those.
Answered-in_order :
    (answers : List (Ordered Response)) (n k : ℕ) (rs : List Response)
    → Answered answers k rs
    → length rs ≤ n
    → ((length rs ≡ n) ⊎ (find (k + length rs) answers ≡ none))
    → rs ≡ in_order n k answers
unfolding in_order
Answered-in_order answers zero k [] h le last = refl
Answered-in_order answers zero k (r ∷ rs) h le last = absurd (omega arith)
Answered-in_order answers (suc n) k [] h le (inl e) = absurd (omega arith)
Answered-in_order answers (suc n) k [] h le (inr e) =
    let here : find k answers ≡ none = subst (λ i. find i answers ≡ none) (omega arith) e in
    rw (here, in_order) refl
Answered-in_order answers (suc n) k (r ∷ rs) h le last =
    rw (h.0, in_order)
      (ap (λ xs. r ∷ xs)
        (Answered-in_order answers n (k + 1) rs h.1 (omega arith) (elim last [
          | inl e ↦ inl (omega arith)
          | inr e ↦ inr (subst (λ i. find i answers ≡ none) (omega arith) e)
        ])))

below : (l m n : ℕ) → m + l ≡ 0 + n → eqb m n ≡ false → m + 1 ≤ n
below l m n h t = ground arith

-- In whatever order the requests and the answers come to the controller: what it has sent are the
-- answers to the first request, the second, and so on, up to the first request whose answer has not
-- come. Either it has sent as many answers as there are requests, or a request has no answer yet.
-- For fewer than 2^32 requests, and answers that belong to requests, each at most once.
pub controller-in_order :
    (es : List Arrival)
    → requests_in es < 4294967296
    → OnceFrom [] es
    → ((controller new_packet_manager es).sent ≡ in_order (requests_in es) 1 (responses_in es))
      × ((length (controller new_packet_manager es).sent ≡ requests_in es)
          ⊎ ((k : ℕ) × (1 ≤ k) × (k ≤ requests_in es) × (find k (responses_in es) ≡ none)))
unfolding new_packet_manager
controller-in_order es lt once =
    let (m, hn, hm, hl, f, a, an, keep, last) =
      controller-IsOrdered 0 [] new_packet_manager es (omega arith) once
        (0, refl, refl, omega arith, tt, tt, tt, (λ i le. refl), inl refl) in
    (
      Answered-in_order (responses_in es) (requests_in es) 1 _ an (omega (arith, hm, hl))
          (elim last [
            | inl e ↦ inl (omega (arith, hm, hl, ap length e))
            | inr e ↦ inr (subst (λ i. find i (responses_in es) ≡ none) (omega (arith, hm)) e)
          ]),
      elim last [
        | inl e ↦ inl (omega (arith, hm, hl, ap length e))
        | inr e ↦ elim (Bool-cases (eqb m (requests_in es))) [
          | inl t ↦ inl (hm ∙ (eqb_iff m (requests_in es)).0 t)
          | inr t ↦
              let le =
                below (length (controller new_packet_manager es).incoming) m (requests_in es) hl
                  t in
              inr (m + 1, omega arith, le, e)
        ]
      ],
    )
