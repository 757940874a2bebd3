-- ===== src/Overlord/Visited.antt =====
-- The files that a walk visits, and those of them that are handed on.
use azure_s_sftp.Base.{
  ◌≡◌, ◌≢◌, sym, ap, subst, true, false, ◌⊎◌, inl, inr, List, [], ◌∷◌, ◌++◌, map, Text, ◌==◌,
  eq_iff, ne_of_eq_false, All, All-split, Distinct, arith, Bool-cases, Option-cases,
}
use azure_s_sftp.Server.{File}
use azure_s_sftp.Config.Types.{ConfigService}
use azure_s_sftp.FileWatcher.Upload.{Times}
use azure_s_sftp.FileWatcher.Scavenge.{Visit}
use azure_s_sftp.FileWatcher.Ready.{is_settled, is_candidate}
use azure_s_sftp.Overlord.Batches.{staged}
use azure_s_sftp.Overlord.Rounds.{paths, handed}

-- A text stands in a list once, or not at all.
pub once_or_never :
    (x : Text) (xs : List Text)
    → Distinct xs
    → All (λ y. x ≢ y) xs
      ⊎ ((before after : List Text) × (xs ≡ before ++ (x ∷ after))
          × All (λ y. x ≢ y) before
          × All (λ y. x ≢ y) after)
once_or_never x [] d = inl tt
once_or_never x (y ∷ ys) (fresh, d) = elim (Bool-cases (x == y)) [
  | inl same ↦
      let e = (eq_iff x y).0 same in
      inr ([], ys, ap (λ z. z ∷ ys) (sym e), tt, subst (λ z. All (λ u. z ≢ u) ys) (sym e) fresh)
  | inr other ↦
      let n = ne_of_eq_false x y other in
      elim (once_or_never x ys d) [
        | inl never ↦ inl (n, never)
        | inr (before, after, e, nb, na) ↦ inr (y ∷ before, after, ap (λ zs. y ∷ zs) e, (n, nb), na)
      ]
]

module _ (t : Times) (opens : List File) where
  -- What holds of the files that are visited holds of those handed on.
  pub handed-All :
      (P : Text → Type 0) (visits : List Visit)
      → All (λ v. v.is_dir ≡ false → P v.path) visits
      → All P (paths (handed t opens visits))
  handed-All P [] h = tt
  handed-All P (v ∷ visits) (p, h) =
      let ih = handed-All P visits h in
      elim (Bool-cases (is_candidate v)) [
        | inr n ↦ rw n ih
        | inl y ↦ elim (Bool-cases (is_settled t opens (record { path = v.path }))) [
          | inr n ↦ rw (y, n) ih
          | inl s ↦ rw (y, s) (p (candidate_file v y), ih)
        ]
      ]
    where
      candidate_file : (u : Visit) → is_candidate u ≡ true → u.is_dir ≡ false
      candidate_file u y = elim (Option-cases u.error) [
        | inl e ↦ ground arith
        | inr (x, e) ↦ let z = rw e at y in absurd (cc)
      ]

  pub handed-Distinct :
      (visits : List Visit)
      → Distinct (map (λ v. v.path) visits)
      → Distinct (paths (handed t opens visits))
  handed-Distinct [] h = tt
  handed-Distinct (v ∷ visits) (fresh, h) =
      let ih = handed-Distinct visits h in
      elim (Bool-cases (is_candidate v)) [
        | inr n ↦ rw n ih
        | inl y ↦ elim (Bool-cases (is_settled t opens (record { path = v.path }))) [
          | inr n ↦ rw (y, n) ih
          | inl s ↦ rw (y, s) (handed-All (λ p. v.path ≢ p) visits (all_files visits fresh), ih)
        ]
      ]
    where
      all_files :
          (us : List Visit)
          → All (λ p. v.path ≢ p) (map (λ u. u.path) us)
          → All (λ u. u.is_dir ≡ false → v.path ≢ u.path) us
      all_files [] k = tt
      all_files (u ∷ us) (n, k) = (λ _. n, all_files us k)

pub Distinct-unmap :
    (cs : ConfigService) (rests : List Text) → Distinct (map (staged cs) rests) → Distinct rests
Distinct-unmap cs [] d = tt
Distinct-unmap cs (r ∷ rests) (fresh, d) = (all rests fresh, Distinct-unmap cs rests d)
  where
    all : (rs : List Text) → All (λ p. staged cs r ≢ p) (map (staged cs) rs) → All (λ u. r ≢ u) rs
    all [] h = tt
    all (u ∷ rs) (n, h) = (λ e. n (ap (staged cs) e), all rs h)

pub All-between :
    (P : Text → Type 0) (before : List Text) (x : Text) (after : List Text)
    → All P (before ++ (x ∷ after))
    → P x
All-between P before x after h = (All-split P before (x ∷ after) h).1.0

pub All-unmap :
    (cs : ConfigService) (P : Text → Type 0) (rests : List Text)
    → All P (map (staged cs) rests)
    → All (λ r. P (staged cs r)) rests
All-unmap cs P [] h = tt
All-unmap cs P (r ∷ rests) (p, h) = (p, All-unmap cs P rests h)
