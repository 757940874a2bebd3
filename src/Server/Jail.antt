-- ===== src/Server/Jail.antt =====
-- Where a request with an absolute path ends up.
use azure_s_sftp.Base.{
  ℕ, ◌≡◌, refl, sym, ◌∙◌, ap, Bool, true, false, ◌&&◌, inl, inr, ◌↔◌, List, [], ◌∷◌, ◌++◌,
  append-nil, arith, Text, codes, ◌==◌, eqb, eqb_iff, if◌then◌else◌, has_prefix, has_prefix-append,
  has_prefix-drop, length, drop, All, All-append, Bool-cases,
}
use mathlib.Core.List.{append_cancel_left}
use azure_s_sftp.FilePath.{slash, is_abs, clean, join}
use azure_s_sftp.FilePath.Segments.{IsName}
use azure_s_sftp.FilePath.Clean.{
  rooted, clean_segments, clean_abs, clean_segments-IsName, join-rooted, Within, same, below,
  rooted-Within, join_name,
}
use azure_s_sftp.Server.{Server, chroot_of, get_user_jail_path}

-- A session as the service sets it up: the jail directory is a clean rooted path, and the user's
-- directory is a name, `*` among them.
pub record IsJailed (svr : Server) (x : Text) (xs : List Text) : Type 0 where
  pub jail_path : svr.jail_path ≡ rooted (x ∷ xs)
  pub names : All IsName (x ∷ xs)
  pub directory : IsName svr.user.jail_directory

-- The whole share, for a user of the clean directory with `*`.
abbrev pub has_whole_share : Server → Bool
has_whole_share svr = svr.user.is_clean_dir_user && svr.user.jail_directory == codes "*"

-- The segments of the directory that the user is meant to be held in.
unfoldable pub own_directory : Server → List Text → List Text
own_directory svr xs = if has_whole_share svr then xs else xs ++ (svr.user.jail_directory ∷ [])

-- A path that begins with the text of a directory, and goes on without a slash.
pub record IsSibling (root : Text) (p : Text) : Type 0 where
  pub next : ℕ
  pub rest : Text
  pub no_slash : eqb next slash ≡ false
  pub path : p ≡ root ++ (next ∷ rest)

is_abs-rooted : (segs : List Text) → is_abs (rooted segs) ≡ true
unfolding is_abs
is_abs-rooted segs = refl

-- What begins with the text of a directory lies within it, or is a sibling.
prefixed-Within : (root p : Text) → has_prefix p root ≡ true → ¬ IsSibling root p → Within root p
prefixed-Within root p pre n = go (drop (length root) p) (has_prefix-drop p root pre)
  where
    go : (r : Text) → p ≡ root ++ r → Within root p
    go [] e = same (e ∙ append-nil root)
    go (a ∷ r) e = elim (Bool-cases (eqb a slash)) [
      | inl s ↦ below r (e ∙ ap (λ t. root ++ (t ∷ r)) ((eqb_iff a slash).0 s))
      | inr s ↦ absurd (n (record { next = a; rest = r; no_slash = s; path = e }))
    ]

not-Within-IsSibling : (root p : Text) → IsSibling root p → ¬ Within root p
not-Within-IsSibling root p s (same e) =
    cc (append_cancel_left root (s.next ∷ s.rest) [] (sym s.path ∙ (e ∙ sym (append-nil root))))
not-Within-IsSibling root p s (below r e) =
    let t = append_cancel_left root (s.next ∷ s.rest) (slash ∷ r) (sym s.path ∙ e) in
    ground (arith, s.no_slash, t)

module _ (svr : Server) (x : Text) (xs : List Text) (h : IsJailed svr x xs) where
  pub chroot_own : (p : Text) → chroot_of svr p ≡ rooted (own_directory svr (x ∷ xs))
  unfolding chroot_of own_directory
  chroot_own p = elim (Bool-cases svr.user.is_clean_dir_user) [
    | inl clean_user ↦ elim (Bool-cases (svr.user.jail_directory == codes "*")) [
      | inl star ↦ rw (clean_user, star) h.jail_path
      | inr named ↦ rw (clean_user, named, h.jail_path) (join_name (x ∷ xs) _ h.names h.directory)
    ]
    | inr staging ↦
        rw (staging, h.directory.not_empty, h.jail_path) (join_name (x ∷ xs) _ h.names h.directory)
  ]

  pub own_directory-IsName : All IsName (own_directory svr (x ∷ xs))
  unfolding own_directory
  own_directory-IsName = elim (Bool-cases (has_whole_share svr)) [
    | inl whole ↦ rw whole h.names
    | inr part ↦ rw part (All-append IsName (x ∷ xs) _ h.names (h.directory, tt))
  ]

  pub jail_path_not_empty : (svr.jail_path == []) ≡ false
  unfolding ◌==◌
  jail_path_not_empty = rw h.jail_path

  -- What the function computes for an absolute request.
  pub get_user_jail_path_abs :
      (p : Text)
      → is_abs p ≡ true
      → get_user_jail_path svr p ≡ (
          if has_prefix (clean p) (rooted (own_directory svr (x ∷ xs)))
          then clean p
          else rooted (own_directory svr (x ∷ xs) ++ clean_segments p))
  unfolding get_user_jail_path
  get_user_jail_path_abs p a =
      let c = clean_abs p a in
      let e : is_abs (clean p) ≡ true = rw c (is_abs-rooted (clean_segments p)) in
      let j : join (rooted (own_directory svr (x ∷ xs)) ∷ clean p ∷ [])
          ≡ rooted (own_directory svr (x ∷ xs) ++ clean_segments p) =
        rw c (join-rooted _ _ own_directory-IsName (clean_segments-IsName p)) in
      rw (jail_path_not_empty, chroot_own p, e, j)

  own_directory-cons : (ys : List Text) × (own_directory svr (x ∷ xs) ≡ x ∷ ys)
  unfolding own_directory
  own_directory-cons = elim (Bool-cases (has_whole_share svr)) [
    | inl whole ↦ (xs, rw whole)
    | inr part ↦ (xs ++ (svr.user.jail_directory ∷ []), rw part)
  ]

  pub jailed-Within :
      (p : Text)
      → is_abs p ≡ true
      → ¬ IsSibling (rooted (own_directory svr (x ∷ xs))) (clean p)
      → Within (rooted (own_directory svr (x ∷ xs))) (get_user_jail_path svr p)
  jailed-Within p a n = elim (Bool-cases (has_prefix (clean p) root)) [
    | inl pre ↦ rw (get_user_jail_path_abs p a, pre) (prefixed-Within _ _ pre n)
    | inr out ↦
        rw (get_user_jail_path_abs p a, out)
          (let (ys, e) = own_directory-cons in rw e (rooted-Within x ys (clean_segments p)))
  ]
    where
      root : Text
      root = rooted (own_directory svr (x ∷ xs))

  pub jailed_sibling :
      (p : Text)
      → is_abs p ≡ true
      → IsSibling (rooted (own_directory svr (x ∷ xs))) (clean p)
      → get_user_jail_path svr p ≡ clean p
  jailed_sibling p a s =
      get_user_jail_path_abs p a
      ∙ rw (ap (λ t. has_prefix t (rooted (own_directory svr (x ∷ xs)))) s.path)
          (rw (has_prefix-append (rooted (own_directory svr (x ∷ xs))) (s.next ∷ s.rest)))

  -- An absolute path is mapped into the user's own directory exactly if, cleaned, it does not go on
  -- behind that directory's text without a slash.
  pub get_user_jail_path-Within :
      (p : Text)
      → is_abs p ≡ true
      → Within (rooted (own_directory svr (x ∷ xs))) (get_user_jail_path svr p)
        ↔ (¬ IsSibling (rooted (own_directory svr (x ∷ xs))) (clean p))
  get_user_jail_path-Within p a =
      (λ w s. not-Within-IsSibling _ _ s (rw (jailed_sibling p a s) at w), jailed-Within p a)
