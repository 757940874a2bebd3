-- ===== src/FilePath/Segments.antt =====
-- Splitting a path at its slashes and joining the segments again.
use azure_s_sftp.Base.{
  ◌≡◌, refl, Bool, true, false, List, [], ◌∷◌, ◌++◌, append_assoc, arith, Text, codes, ◌==◌, eqb,
  All, All-append, Bool-cases, inl, inr,
}
use azure_s_sftp.FilePath.{slash, split_slash, join_slash, pop, push, push_all}
use mathlib.Core.List.{reverse, reverse-cons}

-- A segment of a path: a text with no slash in it.
abbrev pub IsSegment : Text → Type 0
IsSegment = All (λ c. eqb c slash ≡ false)

-- A name in a directory: neither empty nor `.` nor `..`, and with no slash in it.
pub record IsName (seg : Text) : Type 0 where
  pub no_slash : IsSegment seg
  pub not_empty : (seg == []) ≡ false
  pub not_dot : (seg == codes ".") ≡ false
  pub not_dot_dot : (seg == codes "..") ≡ false

split_slash-cons : (p : Text) → (x : Text) × (r : List Text) × (split_slash p ≡ x ∷ r)
unfolding split_slash
split_slash-cons [] = ([], [], refl)
split_slash-cons (c ∷ p) =
    let (x, r, e) = split_slash-cons p in
    elim (Bool-cases (eqb c slash)) [
      | inl h ↦ ([], split_slash p, rw h)
      | inr h ↦ (c ∷ x, r, rw (h, e))
    ]

pub split_slash-append :
    (a b : Text) → split_slash (a ++ (slash ∷ b)) ≡ split_slash a ++ split_slash b
unfolding split_slash
split_slash-append [] b = refl
split_slash-append (c ∷ a) b =
    let (x, r, e) = split_slash-cons a in rw (split_slash-append a b) (rw e (ground arith))

pub split_slash-IsSegment : (p : Text) → All IsSegment (split_slash p)
unfolding split_slash
split_slash-IsSegment [] = (tt, tt)
split_slash-IsSegment (c ∷ p) =
    let (x, r, e) = split_slash-cons p in
    let h : All IsSegment (x ∷ r) = rw e at (split_slash-IsSegment p) in
    elim (Bool-cases (eqb c slash)) [
      | inl s ↦ rw s (tt, split_slash-IsSegment p)
      | inr s ↦ rw (s, e) ((s, h.0), h.1)
    ]

pub split_slash_single : (seg : Text) → IsSegment seg → split_slash seg ≡ seg ∷ []
unfolding split_slash
split_slash_single [] h = refl
split_slash_single (c ∷ seg) h = rw (h.0, split_slash_single seg h.1)

pub split_slash-join_slash :
    (x : Text) (r : List Text) → All IsSegment (x ∷ r) → split_slash (join_slash (x ∷ r)) ≡ x ∷ r
unfolding join_slash
split_slash-join_slash x [] h = split_slash_single x h.0
split_slash-join_slash x (y ∷ r) h =
    rw (split_slash-append, split_slash_single x h.0, split_slash-join_slash y r h.1)

pub push_all-append :
    (b : Bool) (xs ys stack : List Text)
    → push_all b (xs ++ ys) stack ≡ push_all b ys (push_all b xs stack)
unfolding push_all
push_all-append b [] ys stack = refl
push_all-append b (x ∷ xs) ys stack = push_all-append b xs ys (push b x stack)

-- Names are kept as they come.
pub push_all_names :
    (b : Bool) (xs stack : List Text) → All IsName xs → push_all b xs stack ≡ reverse xs ++ stack
unfolding push_all push
push_all_names b [] stack h = refl
push_all_names b (x ∷ xs) stack h =
    rw (h.0.not_empty, h.0.not_dot, h.0.not_dot_dot, push_all_names b xs (x ∷ stack) h.1)
      (rw (reverse-cons, append_assoc))

pop-IsName : (stack : List Text) → All IsName stack → All IsName (pop true stack)
unfolding pop
pop-IsName [] h = tt
pop-IsName (x ∷ stack) h = rw (h.0.not_dot_dot) (h.1)

push-IsName :
    (seg : Text) (stack : List Text)
    → IsSegment seg
    → All IsName stack
    → All IsName (push true seg stack)
unfolding push
push-IsName seg stack s h = elim (Bool-cases (seg == [])) [
  | inl e ↦ rw e h
  | inr e ↦ elim (Bool-cases (seg == codes ".")) [
    | inl d ↦ rw (e, d) h
    | inr d ↦ elim (Bool-cases (seg == codes "..")) [
      | inl dd ↦ rw (e, d, dd) (pop-IsName stack h)
      | inr dd ↦
          rw (e, d, dd) (record { no_slash = s; not_empty = e; not_dot = d; not_dot_dot = dd }, h)
    ]
  ]
]

-- The stack of a rooted path holds names alone.
pub push_all-IsName :
    (segs stack : List Text)
    → All IsSegment segs
    → All IsName stack
    → All IsName (push_all true segs stack)
unfolding push_all
push_all-IsName [] stack s h = h
push_all-IsName (x ∷ segs) stack s h = push_all-IsName segs _ s.1 (push-IsName x stack s.0 h)

pub All-reverse : (xs : List Text) → All IsName xs → All IsName (reverse xs)
All-reverse [] h = tt
All-reverse (x ∷ xs) h =
    rw reverse-cons (All-append IsName (reverse xs) (x ∷ []) (All-reverse xs h.1) (h.0, tt))

pub IsName-IsSegment : (xs : List Text) → All IsName xs → All IsSegment xs
IsName-IsSegment [] h = tt
IsName-IsSegment (x ∷ xs) h = (h.0.no_slash, IsName-IsSegment xs h.1)
