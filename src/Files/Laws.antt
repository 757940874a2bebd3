-- ===== src/Files/Laws.antt =====
-- What making directories leaves alone.
use azure_s_sftp.Base.{
  ◌≡◌, ◌≢◌, refl, sym, ◌∙◌, true, ◌↔◌, ◌⊎◌, inl, inr, List, [], ◌∷◌, Option, none, some, Text,
  eq_iff, eq_refl, Error, Result, ok, err, arith, Bool-cases, Option-cases, enoent,
}
use azure_s_sftp.Files.{
  Node, folder, file, FileCall, Files, put, stat, open_read, create, copy, remove, parent_exists,
  ancestors, mkdir, make_below, mkdir_chain, mkdir_all,
}

-- The second file system has all that the first has, and directories besides, and fails alike.
pub record Grows (fs : Files) (fs' : Files) : Type 0 where
  pub kept : (q : Text) (n : Node) → fs.node q ≡ some n → fs'.node q ≡ some n
  pub added : (q : Text) → fs.node q ≡ none → (fs'.node q ≡ none) ⊎ (fs'.node q ≡ some folder)
  pub same_fault : fs'.fault ≡ fs.fault
  pub same_partial : fs'.partial ≡ fs.partial

Grows-refl : (fs : Files) → Grows fs fs
Grows-refl fs = record {
  kept = λ q n e. e;
  added = λ q e. inl e;
  same_fault = refl;
  same_partial = refl;
}

Grows-trans : {a b c : Files} → Grows a b → Grows b c → Grows a c
Grows-trans g h = record {
  kept = λ q n e. h.kept q n (g.kept q n e);
  added = λ q e. elim (g.added q e) [ inl x ↦ h.added q x | inr x ↦ inr (h.kept q folder x) ];
  same_fault = h.same_fault ∙ g.same_fault;
  same_partial = h.same_partial ∙ g.same_partial;
}

put_folder-Grows : (fs : Files) (p : Text) → fs.node p ≡ none → Grows fs (put fs p (some folder))
put_folder-Grows fs p h = record {
  kept = λ q n e. ground (arith, eq_iff p q);
  added = λ q e. ground (arith, eq_iff p q);
  same_fault = refl;
  same_partial = refl;
}

mkdir-Grows : (fs : Files) (p : Text) → Grows fs (mkdir fs p).1
unfolding mkdir
mkdir-Grows fs p = elim (Option-cases (fs.fault (FileCall.on_mkdir p))) [
  | inr (e, h) ↦ rw (h, mkdir) (Grows-refl fs)
  | inl clear ↦ elim (Option-cases (fs.node p)) [
    | inr (n, h) ↦ rw (clear, h, mkdir) (Grows-refl fs)
    | inl h ↦ elim (Bool-cases (parent_exists fs (ancestors p))) [
      | inl t ↦ rw (clear, h, t, mkdir) (put_folder-Grows fs p h)
      | inr t ↦ rw (clear, h, t, mkdir) (Grows-refl fs)
    ]
  ]
]

mkdir_chain-Grows : (fs : Files) (p : Text) (ds : List Text) → Grows fs (mkdir_chain fs p ds).1
unfolding mkdir_chain make_below
mkdir_chain-Grows fs p [] = elim (Option-cases (fs.node p)) [
  | inl h ↦ rw (h, mkdir_chain) (mkdir-Grows fs p)
  | inr (folder, h) ↦ rw (h, mkdir_chain) (Grows-refl fs)
  | inr (file c, h) ↦ rw (h, mkdir_chain) (Grows-refl fs)
]
mkdir_chain-Grows fs p (d ∷ ds) =
    let ih = mkdir_chain-Grows fs d ds in
    elim (Option-cases (fs.node p)) [
      | inl h ↦ rw (h, mkdir_chain) (made (mkdir_chain fs d ds) ih)
      | inr (folder, h) ↦ rw (h, mkdir_chain) (Grows-refl fs)
      | inr (file c, h) ↦ rw (h, mkdir_chain) (Grows-refl fs)
    ]
  where
    made : (r : Result (Unit {0}) × Files) → Grows fs r.1 → Grows fs (make_below p r).1
    made (ok u, fs') g = Grows-trans g (mkdir-Grows fs' p)
    made (err e, fs') g = g

pub mkdir_all-Grows : (fs : Files) (p : Text) → Grows fs (mkdir_all fs p).1
unfolding mkdir_all
mkdir_all-Grows fs p = mkdir_chain-Grows fs p (ancestors p)

pub put_self : (fs : Files) (p : Text) (v : Option Node) → (put fs p v).node p ≡ v
put_self fs p v = rw (eq_refl p)

pub put_ne : (fs : Files) (p q : Text) (v : Option Node) → p ≢ q → (put fs p v).node q ≡ fs.node q
put_ne fs p q v n = ground (arith, eq_iff p q)

-- How a call on one path ends: with an error and no change, or with a write at that path.
abbrev pub WritesOrFails : Files → Text → Option Node → Result (Unit {0}) × Files → Type 0
WritesOrFails fs p v r = ((e : Error) × (r ≡ (err e, fs))) ⊎ (r ≡ (ok tt, put fs p v))

pub create-WritesOrFails :
    (fs : Files) (p : Text) → WritesOrFails fs p (some (file [])) (create fs p)
unfolding create
create-WritesOrFails fs p = elim (Option-cases (fs.fault (FileCall.on_create p))) [
  | inr (e, h) ↦ inl (e, rw (h, create))
  | inl clear ↦ elim (Option-cases (fs.node p)) [
    | inr (folder, h) ↦ inl (Error.path_error (Error.errno 21), rw (clear, h, create))
    | inr (file c, h) ↦ inr (rw (clear, h, create))
    | inl h ↦ elim (Bool-cases (parent_exists fs (ancestors p))) [
      | inl t ↦ inr (rw (clear, h, t, create))
      | inr t ↦ inl (Error.path_error (Error.errno enoent), rw (clear, h, t, create))
    ]
  ]
]

pub remove-WritesOrFails : (fs : Files) (p : Text) → WritesOrFails fs p none (remove fs p)
unfolding remove
remove-WritesOrFails fs p = elim (Option-cases (fs.fault (FileCall.on_remove p))) [
  | inr (e, h) ↦ inl (e, rw (h, remove))
  | inl clear ↦ elim (Option-cases (fs.node p)) [
    | inl h ↦ inl (Error.path_error (Error.errno enoent), rw (clear, h, remove))
    | inr (n, h) ↦ inr (rw (clear, h, remove))
  ]
]

-- How a copy of a file ends: with what it could write, and an error, or with all of it.
pub copy_cases :
    (fs : Files) (to from c : Text)
    → fs.node from ≡ some (file c)
    → ((e : Error) × (copy fs to from ≡ (err e, put fs to (some (file (fs.partial c))))))
      ⊎ (copy fs to from ≡ (ok tt, put fs to (some (file c))))
unfolding copy
copy_cases fs to from c h = elim (Option-cases (fs.fault (FileCall.on_copy to from))) [
  | inr (e, f) ↦ inl (e, rw (h, f, copy))
  | inl clear ↦ inr (rw (h, clear, copy))
]

-- Only the path that a copy writes to is changed, if any is.
abbrev pub Writes : Files → Text → Result (Unit {0}) × Files → Type 0
Writes fs to r =
    ((e : Error) × (r ≡ (err e, fs)))
    ⊎ ((o : Result (Unit {0})) × (v : Option Node) × (r ≡ (o, put fs to v)))

pub copy-Writes : (fs : Files) (to from : Text) → Writes fs to (copy fs to from)
unfolding copy
copy-Writes fs to from = elim (Option-cases (fs.node from)) [
  | inl h ↦ inl (Error.path_error (Error.errno enoent), rw (h, copy))
  | inr (folder, h) ↦ inl (Error.path_error (Error.errno 21), rw (h, copy))
  | inr (file c, h) ↦ elim (Option-cases (fs.fault (FileCall.on_copy to from))) [
    | inr (e, f) ↦ inr (err e, some (file (fs.partial c)), rw (h, f, copy))
    | inl clear ↦ inr (ok tt, some (file c), rw (h, clear, copy))
  ]
]

-- No call meets an error beyond those that the tree gives rise to.
abbrev pub IsFaultless : Files → Type 0
IsFaultless fs = (c : FileCall) → fs.fault c ≡ none

pub mkdir_all_done :
    (fs : Files) (p : Text) → fs.node p ≡ some folder → mkdir_all fs p ≡ (ok tt, fs)
unfolding mkdir_all
mkdir_all_done fs p h = chain_done (ancestors p)
  where
    chain_done : (ds : List Text) → mkdir_chain fs p ds ≡ (ok tt, fs)
    chain_done [] = unfold mkdir_chain in rw (h, mkdir_chain)
    chain_done (d ∷ ds) = unfold mkdir_chain in rw (h, mkdir_chain)

pub stat_works :
    (fs : Files) (p : Text) (n : Node)
    → IsFaultless fs
    → fs.node p ≡ some n
    → (stat fs p ≡ ok n) × (open_read fs p ≡ ok n)
unfolding stat open_read
stat_works fs p n clear h =
    (rw (clear (FileCall.on_stat p), h, stat), rw (clear (FileCall.on_open p), h, open_read))

-- A file can be created in a directory that is there, over a file as well.
pub create_works :
    (fs : Files) (p : Text)
    → IsFaultless fs
    → parent_exists fs (ancestors p) ≡ true
    → fs.node p ≢ some folder
    → create fs p ≡ (ok tt, put fs p (some (file [])))
unfolding create
create_works fs p clear parent n = elim (Option-cases (fs.node p)) [
  | inl h ↦ rw (clear (FileCall.on_create p), h, parent, create)
  | inr (folder, h) ↦ absurd (n h)
  | inr (file c, h) ↦ rw (clear (FileCall.on_create p), h, create)
]

pub copy_works :
    (fs : Files) (to from c : Text)
    → IsFaultless fs
    → fs.node from ≡ some (file c)
    → copy fs to from ≡ (ok tt, put fs to (some (file c)))
unfolding copy
copy_works fs to from c clear h = rw (h, clear (FileCall.on_copy to from), copy)

pub remove_works :
    (fs : Files) (p : Text) (n : Node)
    → IsFaultless fs
    → fs.node p ≡ some n
    → remove fs p ≡ (ok tt, put fs p none)
unfolding remove
remove_works fs p n clear h = rw (clear (FileCall.on_remove p), h, remove)

-- The same content, or no file, is at the path in both.
abbrev pub SameFile : Text → Files → Files → Type 0
SameFile q fs fs' = (d : Text) → (fs.node q ≡ some (file d)) ↔ (fs'.node q ≡ some (file d))

pub SameFile-refl : (q : Text) (fs : Files) → SameFile q fs fs
SameFile-refl q fs d = (λ h. h, λ h. h)

pub SameFile-trans : {q : Text} (a b c : Files) → SameFile q a b → SameFile q b c → SameFile q a c
SameFile-trans a b c f g d = (λ h. (g d).0 ((f d).0 h), λ h. (f d).1 ((g d).1 h))

pub put-SameFile : (fs : Files) (p q : Text) (v : Option Node) → q ≢ p → SameFile q fs (put fs p v)
put-SameFile fs p q v n d = let e = put_ne fs p q v (λ e. n (sym e)) in (λ h. e ∙ h, λ h. sym e ∙ h)

pub Grows-SameFile : {fs fs' : Files} (q : Text) → Grows fs fs' → SameFile q fs fs'
Grows-SameFile {fs = fs} q g d = (
  g.kept q (file d),
  λ h. elim (Option-cases (fs.node q)) [
    | inl e ↦ elim (g.added q e) [ inl x ↦ absurd (cc) | inr x ↦ absurd (cc) ]
    | inr (folder, e) ↦ let x = g.kept q folder e in absurd (cc)
    | inr (file c, e) ↦ let x = g.kept q (file c) e in cc
  ],
)
