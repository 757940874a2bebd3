-- ===== src/Server/Manager/Closing.antt =====
-- A file is closed only when its reads and writes are done: src/pkgsftp/packet-manager.go.
use azure_s_sftp.Base.{
  some_injective, ◌≡◌, refl, sym, ap, subst, ◌∙◌, ◌⊎◌, inl, inr, true, false, List, [], ◌∷◌, ◌++◌,
  some, All, All-append, length, eqb, Bool-cases, arith,
}
use azure_s_sftp.Server.{Packet}
use azure_s_sftp.Server.Manager.{Ordered, new_order_id}
use azure_s_sftp.Server.Manager.Dispatch.{
  Dispatcher, is_read_or_write, is_close, incoming_packet, dispatch, DispatchStep, dispatched,
  ready, Reachable, created, later,
}

-- No request behind the first is for closing a file.
abbrev ClosesFirst : List (Ordered Packet) → Type 0
ClosesFirst [] = Unit
ClosesFirst (x ∷ xs) = All (λ (y : Ordered Packet). is_close y.1 ≡ false) xs

ClosesFirst-tail :
    (xs : List (Ordered Packet))
    → All (λ (y : Ordered Packet). is_close y.1 ≡ false) xs
    → ClosesFirst xs
ClosesFirst-tail [] h = tt
ClosesFirst-tail (x ∷ xs) h = h.1

All-remove :
    (xs ys : List (Ordered Packet)) (q : Ordered Packet)
    → All (λ (y : Ordered Packet). is_close y.1 ≡ false) (xs ++ (q ∷ ys))
    → All (λ (y : Ordered Packet). is_close y.1 ≡ false) (xs ++ ys)
All-remove [] ys q h = h.1
All-remove (x ∷ xs) ys q h = (h.0, All-remove xs ys q h.1)

ClosesFirst-remove :
    (xs ys : List (Ordered Packet)) (q : Ordered Packet)
    → ClosesFirst (xs ++ (q ∷ ys))
    → ClosesFirst (xs ++ ys)
ClosesFirst-remove [] ys q h = ClosesFirst-tail ys h
ClosesFirst-remove (x ∷ xs) ys q h = All-remove xs ys q h

ClosesFirst-append :
    (xs : List (Ordered Packet)) (q : Ordered Packet)
    → ClosesFirst xs
    → (xs ≡ []) ⊎ (is_close q.1 ≡ false)
    → ClosesFirst (xs ++ (q ∷ []))
ClosesFirst-append [] q h c = tt
ClosesFirst-append (x ∷ xs) q h (inl e) = absurd cc
ClosesFirst-append (x ∷ xs) q h (inr e) =
    All-append (λ (y : Ordered Packet). is_close y.1 ≡ false) xs (q ∷ []) h (e, tt)

reads_and_writes : (p : Packet) → is_read_or_write p ≡ true → is_close p ≡ false
unfolding is_read_or_write is_close
reads_and_writes (Packet.close id h) t = absurd cc
reads_and_writes _ t = refl

none_outstanding : (xs : List (Ordered Packet)) → eqb (length xs) 0 ≡ true → xs ≡ []
none_outstanding [] z = refl
none_outstanding (x ∷ xs) z = absurd (ground arith)

dispatch_cases :
    (d d' : Dispatcher) (p : Packet)
    → dispatch d p ≡ some d'
    → (d' ≡ incoming_packet d p) × ((d.outstanding ≡ []) ⊎ (is_close p ≡ false))
unfolding dispatch
dispatch_cases d d' p e = elim (Bool-cases (is_read_or_write p)) [
  | inl t ↦ (sym (some_injective _ d' (rw t at e)), inr (reads_and_writes p t))
  | inr f ↦ elim (Bool-cases (is_close p)) [
    | inr n ↦ (sym (some_injective _ d' (rw (f, n) at e)), inr n)
    | inl c ↦ elim (Bool-cases (eqb (length d.outstanding) 0)) [
      | inl z ↦
          (sym (some_injective _ d' (rw (f, c, z) at e)), inl (none_outstanding d.outstanding z))
      | inr n ↦ absurd (cc (rw (f, c, n) at e))
    ]
  ]
]

DispatchStep-ClosesFirst :
    (d d' : Dispatcher) → DispatchStep d d' → ClosesFirst d.outstanding → ClosesFirst d'.outstanding
DispatchStep-ClosesFirst d d' (dispatched p e) h =
    let (same, c) = dispatch_cases d d' p e in
    subst (λ (x : Dispatcher). ClosesFirst x.outstanding) (sym same)
      (ClosesFirst-append d.outstanding (new_order_id d.packet_count, p) h c)
DispatchStep-ClosesFirst d d' (ready before after q e f) h =
    ClosesFirst-remove before after q (subst ClosesFirst e h)

Reachable-ClosesFirst : (d : Dispatcher) → Reachable d → ClosesFirst d.outstanding
Reachable-ClosesFirst d created = tt
Reachable-ClosesFirst d' (later {d} r s) =
    DispatchStep-ClosesFirst d d' s (Reachable-ClosesFirst d r)

-- Whatever the workers do and in whatever order they finish: while a request to close a file is
-- with the workers, no request that came before it is, so that all reads and writes of the file that
-- came before have been answered.
pub close_comes_first :
    (d : Dispatcher) (before after : List (Ordered Packet)) (q : Ordered Packet)
    → Reachable d
    → d.outstanding ≡ before ++ (q ∷ after)
    → is_close q.1 ≡ true
    → d.outstanding ≡ q ∷ after
close_comes_first d before after q r e c =
    e
    ∙ ap (λ xs. xs ++ (q ∷ after)) (first before (subst ClosesFirst e (Reachable-ClosesFirst d r)))
  where
    find_close :
        (xs : List (Ordered Packet))
        → All (λ (y : Ordered Packet). is_close y.1 ≡ false) (xs ++ (q ∷ after))
        → is_close q.1 ≡ false
    find_close [] h = h.0
    find_close (x ∷ xs) h = find_close xs h.1

    first : (xs : List (Ordered Packet)) → ClosesFirst (xs ++ (q ∷ after)) → xs ≡ []
    first [] h = refl
    first (x ∷ xs) h = absurd (cc (find_close xs h, c))
