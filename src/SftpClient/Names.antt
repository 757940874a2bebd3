-- ===== src/SftpClient/Names.antt =====
-- The names of downloads, while they come in and afterwards.
use azure_s_sftp.Base.{
  ℕ, ◌≡◌, ◌≢◌, refl, sym, ◌∙◌, ap, true, false, [], ◌∷◌, ◌++◌, append-nil, Text, codes, arith, eqb,
  subst, has_prefix, has_prefix-append, drop-append, occurs, replace_first, All, length, drop,
}
use azure_s_sftp.FilePath.{join, base}
use azure_s_sftp.SftpClient.{DownloaderConfig}
use azure_s_sftp.SftpClient.Download.{download_ending}

-- A text of which the first byte is not in the rest can only begin behind a text, or be in it.
module _ (a : ℕ) (e : Text) where
  ends_before :
      (s p : Text)
      → All (λ c. eqb a c ≡ false) p
      → has_prefix (s ++ (a ∷ e)) p ≡ true
      → has_prefix s p ≡ true
  unfolding has_prefix
  ends_before s [] f h = refl
  ends_before [] (x ∷ p) f h = ground (arith, f.0)
  ends_before (c ∷ s) (x ∷ p) f h = ground (arith, ends_before s p f.1)

  only_at_end :
      (c : ℕ) (s : Text)
      → All (λ c. eqb a c ≡ false) e
      → has_prefix (c ∷ s) (a ∷ e) ≡ false
      → has_prefix ((c ∷ s) ++ (a ∷ e)) (a ∷ e) ≡ false
  unfolding has_prefix
  only_at_end c s f h = ground (arith, ends_before s e f)

  pub replace_first_ending :
      (s : Text)
      → All (λ c. eqb a c ≡ false) e
      → occurs (a ∷ e) s ≡ false
      → replace_first (s ++ (a ∷ e)) (a ∷ e) [] ≡ s
  unfolding replace_first occurs
  replace_first_ending [] f h = ground (
    arith,
    subst (λ t. has_prefix t e ≡ true) (append-nil e) (has_prefix-append e []),
    subst (λ t. drop (length e) t ≡ []) (append-nil e) (drop-append e []),
  )
  replace_first_ending (c ∷ s) f h = ground (arith, only_at_end c s f, replace_first_ending s f)

  replace_first_absent : (s : Text) → occurs (a ∷ e) s ≡ false → replace_first s (a ∷ e) [] ≡ s
  unfolding replace_first occurs
  replace_first_absent [] h = refl
  replace_first_absent (c ∷ s) h = ground (arith, replace_first_absent s)

  pub ending_differs :
      (s t : Text)
      → All (λ c. eqb a c ≡ false) e
      → occurs (a ∷ e) s ≡ false
      → occurs (a ∷ e) t ≡ false
      → s ≢ t
      → (s ++ (a ∷ e) ≢ t ++ (a ∷ e)) × (s ++ (a ∷ e) ≢ t)
  ending_differs s t f hs ht n = (
    λ e'. n (
        sym (replace_first_ending s f hs)
        ∙ ap (λ x. replace_first x (a ∷ e) []) e'
        ∙ replace_first_ending t f ht),
    λ e'. n (
        sym (replace_first_ending s f hs)
        ∙ ap (λ x. replace_first x (a ∷ e) []) e'
        ∙ replace_first_absent t ht),
  )

  pub longer : (s : Text) → s ++ (a ∷ e) ≢ s
  longer [] h = cc
  longer (c ∷ s) h = longer s (cc)

pub no_dot : All (λ c. eqb 46 c ≡ false) (codes "download")
no_dot = (refl, (refl, (refl, (refl, (refl, (refl, (refl, (refl, tt))))))))

module _ (c : DownloaderConfig) where
  -- The name that a remote file has in the end.
  abbrev pub final_path : Text → Text
  final_path p = join (c.full_local_staging_dir ∷ base p ∷ [])

  -- Its name while it comes in.
  abbrev pub tmp : Text → Text
  tmp p = final_path p ++ download_ending

  -- Two names of different files stay apart, while the files come in and afterwards.
  pub names_apart :
      (p q : Text)
      → occurs download_ending (final_path p) ≡ false
      → occurs download_ending (final_path q) ≡ false
      → final_path p ≢ final_path q
      → (tmp p ≢ tmp q) × (tmp p ≢ final_path q)
  names_apart p q a b n =
      ending_differs 46 (codes "download") (final_path p) (final_path q) no_dot a b n

  pub tmp_differs : (p : Text) → tmp p ≢ final_path p
  tmp_differs p = longer 46 (codes "download") (final_path p)
