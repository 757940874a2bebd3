-- ===== src/Service/Removal.antt =====
-- Which servers are left when a session ends.
use azure_s_sftp.Base.{
  ℕ, zero, suc, ◌-◌, ◌≡◌, refl, sym, ◌∙◌, ap, Bool, not, List, [], ◌∷◌, ◌++◌, append-nil,
  append_assoc, eqb, length, drop, take-append, get_elem?-append, select, select-append, snoc_cases,
  arith, Bool-cases, inl, inr,
}
use azure_s_sftp.Service.{Session, remove_from, remove_server}

abbrev pub is_other : ℕ → Session → Bool
is_other x s = not (eqb s.id x)

drop_past :
    (zs : List Session) (a : Session) (ys : List Session)
    → drop (suc (length zs)) (zs ++ (a ∷ ys)) ≡ ys
drop_past [] a ys = refl
drop_past (z ∷ zs) a ys = drop_past zs a ys

one_round :
    (first : Session) (zs : List Session) (a : Session) (ys : List Session) (x : ℕ)
    → remove_from (suc (length zs)) (first ∷ (zs ++ (a ∷ ys))) x
      ≡ remove_from (length zs) (first ∷ (zs ++ (select (is_other x) (a ∷ []) ++ ys))) x
unfolding remove_from
one_round first zs a ys x =
    ap (λ servers. remove_from (length zs) servers x)
      (rw (get_elem?-append zs a ys, take-append zs (a ∷ ys), drop_past zs a ys)
        (elim (Bool-cases (eqb a.id x)) [ inl y ↦ rw y | inr n ↦ rw n ]))

remove_from-select :
    (n : ℕ) (first : Session) (xs ys : List Session) (x : ℕ)
    → length xs ≡ n
    → remove_from n (first ∷ (xs ++ ys)) x ≡ first ∷ (select (is_other x) xs ++ ys)
remove_from-select zero first [] ys x h = unfold remove_from in refl
remove_from-select zero first (a ∷ xs) ys x h = absurd (omega arith)
remove_from-select (suc n) first xs ys x h =
    let (zs, a, e, l) = snoc_cases n xs h in
    let kept = select (is_other x) (a ∷ []) in
    rw (e, append_assoc zs (a ∷ []) ys, ← l)
      (one_round first zs a ys x
        ∙ (ap (λ k. remove_from k (first ∷ (zs ++ (kept ++ ys))) x) l
            ∙ (remove_from-select n first zs (kept ++ ys) x l
                ∙ rw (select-append (is_other x) zs (a ∷ []))
                    (ap (λ r. first ∷ r) (sym (append_assoc (select (is_other x) zs) kept ys))))))

-- Removing a server takes every entry for it from the list but the first: the server that was
-- opened first of those in the list is never removed, and the others keep their order.
pub remove_server_lem :
    (first : Session) (rest : List Session) (x : ℕ)
    → remove_server (first ∷ rest) x ≡ first ∷ select (λ s. not (eqb s.id x)) rest
unfolding remove_server
remove_server_lem first rest x =
    ap (λ r. remove_from (length (first ∷ rest) - 1) (first ∷ r) x) (sym (append-nil rest))
    ∙ (remove_from-select (length (first ∷ rest) - 1) first rest [] x (omega arith)
        ∙ ap (λ r. first ∷ r) (append-nil (select (is_other x) rest)))
