-- ===== src/Server/Manager/Sorting.antt =====
-- Lists in the order of their numbers: the sorting of src/pkgsftp/packet-manager.go.
use azure_s_sftp.Base.{
  ℕ, ◌+◌, ◌≤◌, ◌<◌, List, [], ◌∷◌, ◌++◌, Option, none, some, ◌≡◌, ◌≢◌, refl, ap, ◌∙◌, leb, eqb,
  eqb_iff, Bool-cases, if◌then◌else◌, arith, inl, inr, length, sym, true, false,
}
use azure_s_sftp.Server.Manager.{Ordered, insert, sort}

lt_of_leb : (a b : ℕ) → leb a b ≡ true → a ≢ b → a + 1 ≤ b
lt_of_leb a b t n = ground arith

lt_of_not_leb : (a b : ℕ) → leb a b ≡ false → b + 1 ≤ a
lt_of_not_leb a b t = ground arith

module _ {ℓ} {A : Type ℓ} where
  -- Each number is greater than the one before, and the first is at least the bound.
  abbrev pub Ascending : ℕ → List (Ordered A) → Type 0
  Ascending k [] = Unit
  Ascending k (x ∷ xs) = (k ≤ x.0) × Ascending (x.0 + 1) xs

  -- The numbers are the bound and those that follow it.
  abbrev pub From : ℕ → List (Ordered A) → Type 0
  From k [] = Unit
  From k (x ∷ xs) = (x.0 ≡ k) × From (k + 1) xs

  -- What stands in the list under a number.
  unfoldable pub find : ℕ → List (Ordered A) → Option A
  find j [] = none
  find j (x ∷ xs) = let rest = find j xs in if eqb x.0 j then some x.1 else rest

  pub From-append :
      (k : ℕ) (xs : List (Ordered A)) (x : Ordered A)
      → From k xs
      → x.0 ≡ k + length xs
      → From k (xs ++ (x ∷ []))
  From-append k [] x h e = (omega (arith, e), tt)
  From-append k (y ∷ ys) x h e = (h.0, From-append (k + 1) ys x h.1 (omega (arith, e)))

  pub Ascending-weaken : (j k : ℕ) (xs : List (Ordered A)) → j ≤ k → Ascending k xs → Ascending j xs
  Ascending-weaken j k [] le h = tt
  Ascending-weaken j k (x ∷ xs) le h = (omega (arith, h.0), h.1)

  pub From-Ascending : (k : ℕ) (xs : List (Ordered A)) → From k xs → Ascending k xs
  From-Ascending k [] h = tt
  From-Ascending k (x ∷ xs) h = (
    omega (arith, h.0),
    Ascending-weaken (x.0 + 1) (k + 1) xs (omega (arith, h.0)) (From-Ascending (k + 1) xs h.1),
  )

  -- A list in order is sorted already.
  insert_first :
      (x : Ordered A) (xs : List (Ordered A)) → Ascending (x.0 + 1) xs → insert x xs ≡ x ∷ xs
  unfolding insert
  insert_first x [] h = refl
  insert_first x (y ∷ ys) h = ground (arith, h.0)

  pub sort-Ascending : (k : ℕ) (xs : List (Ordered A)) → Ascending k xs → sort xs ≡ xs
  unfolding sort
  sort-Ascending k [] h = refl
  sort-Ascending k (x ∷ xs) h =
      ap (insert x) (sort-Ascending (x.0 + 1) xs h.1) ∙ insert_first x xs h.1

  pub find_below : (j k : ℕ) (xs : List (Ordered A)) → j < k → Ascending k xs → find j xs ≡ none
  unfolding find
  find_below j k [] lt h = refl
  find_below j k (x ∷ xs) lt h = ground (arith, find_below j (x.0 + 1) xs, h.0, h.1)

  pub find-append :
      (j : ℕ) (xs ys : List (Ordered A))
      → find j (xs ++ ys) ≡ elim (find j xs) [ none ↦ find j ys | some a ↦ some a ]
  unfolding find
  find-append j [] ys = refl
  find-append j (x ∷ xs) ys = ground (arith, find-append j xs ys)

  find-insert :
      (j : ℕ) (x : Ordered A) (ys : List (Ordered A)) → find j (insert x ys) ≡ find j (x ∷ ys)
  unfolding find insert
  find-insert j x [] = refl
  find-insert j x (y ∷ ys) = ground (arith, find-insert j x ys)

  pub find-sort : (j : ℕ) (xs : List (Ordered A)) → find j (sort xs) ≡ find j xs
  unfolding find sort
  find-sort j [] = refl
  find-sort j (x ∷ xs) = find-insert j x (sort xs) ∙ ground (arith, find-sort j xs)

  find_absent :
      (j : ℕ) (y : Ordered A) (ys : List (Ordered A))
      → find j (y ∷ ys) ≡ none
      → (y.0 ≢ j) × (find j ys ≡ none)
  unfolding find
  find_absent j y ys n = elim (Bool-cases (eqb y.0 j)) [
    | inl t ↦ absurd (cc (rw t at n))
    | inr t ↦ (λ e. cc ((eqb_iff y.0 j).1 e, t), rw t at n)
  ]

  find_new :
      (j : ℕ) (x : Ordered A) (ys : List (Ordered A))
      → find j ys ≡ none
      → x.0 ≢ j
      → find j (ys ++ (x ∷ [])) ≡ none
  unfolding find
  find_new j x ys n ne = find-append j ys (x ∷ []) ∙ ground (arith, eqb_iff x.0 j)

  insert-Ascending :
      (k : ℕ) (x : Ordered A) (ys : List (Ordered A))
      → k ≤ x.0
      → Ascending k ys
      → find x.0 ys ≡ none
      → Ascending k (insert x ys)
  unfolding find insert
  insert-Ascending k x [] le h n = (le, tt)
  insert-Ascending k x (y ∷ ys) le h n = elim (Bool-cases (leb x.0 y.0)) [
    | inl t ↦ rw t (le, (lt_of_leb x.0 y.0 t (λ e. (find_absent x.0 y ys n).0 (sym e)), h.1))
    | inr t ↦ rw t (
      h.0,
      insert-Ascending (y.0 + 1) x ys (lt_of_not_leb x.0 y.0 t) h.1 (find_absent x.0 y ys n).1,
    )
  ]

  -- A new number in a list in order: the sorted list is in order.
  pub sort-append_Ascending :
      (k : ℕ) (ys : List (Ordered A)) (x : Ordered A)
      → k ≤ x.0
      → Ascending k ys
      → find x.0 ys ≡ none
      → Ascending k (sort (ys ++ (x ∷ [])))
  unfolding sort
  sort-append_Ascending k [] x le h n = (le, tt)
  sort-append_Ascending k (y ∷ ys) x le h n =
      insert-Ascending k y (sort (ys ++ (x ∷ []))) h.0
        (sort-append_Ascending k ys x le (Ascending-weaken k (y.0 + 1) ys (omega (arith, h.0)) h.1)
          (find_absent x.0 y ys n).1)
        (find-sort y.0 (ys ++ (x ∷ []))
          ∙ find_new y.0 x ys (find_below y.0 (y.0 + 1) ys (omega arith) h.1)
              (λ e. (find_absent x.0 y ys n).0 (sym e)))
