-- ===== src/SftpClient/Incoming.antt =====
-- How files come in when nothing fails: the loop over the remote files, one after the other.
use azure_s_sftp.Base.{
  ◌≡◌, ◌≢◌, refl, sym, ◌∙◌, ap, true, false, inl, inr, List, [], ◌∷◌, Option, none, some, Text,
  codes, Error, is_not_exist, ok, arith, Bool-cases, Option-cases, All, Distinct, map, eq_iff, ◌==◌,
  occurs, if◌then◌else◌,
}
use azure_s_sftp.Files.{
  folder, file, FileCall, Files, put, stat, rename, renamed, parent_exists, ancestors,
}
use azure_s_sftp.Files.Laws.{IsFaultless, put_ne, create_works}
use azure_s_sftp.FileWatcher.Scavenge.{Visit}
use azure_s_sftp.SftpClient.{DownloaderConfig, Remote, is_dir_file_exist}
use azure_s_sftp.SftpClient.Names.{
  final_path, tmp, names_apart, tmp_differs, no_dot, replace_first_ending,
}
use azure_s_sftp.SftpClient.Download.{
  download_ending, Outcome, Download, opened_as, receive, create_local_file, local_download_path,
  received, local_created, remote_opened, download_file, download_loop, unmark, unmark_all, next,
}

rename_works :
    (fs : Files) (from to c : Text)
    → IsFaultless fs
    → fs.node from ≡ some (file c)
    → from ≢ to
    → fs.node to ≢ some folder
    → rename fs from to ≡ (ok tt, put (put fs from none) to (some (file c)))
unfolding rename renamed
rename_works fs from to c clear here n vacant = elim (Bool-cases (from == to)) [
  | inl t ↦ absurd (n ((eq_iff from to).0 t))
  | inr t ↦ elim (Option-cases (fs.node to)) [
    | inl h ↦ rw (clear (FileCall.on_rename from to), here, t, h, rename)
    | inr (folder, h) ↦ absurd (vacant h)
    | inr (file b, h) ↦ rw (clear (FileCall.on_rename from to), here, t, h, rename)
  ]
]

parent_kept :
    (fs gs : Files) (ds : List Text)
    → ((x : Text) → fs.node x ≡ some folder → gs.node x ≡ some folder)
    → parent_exists fs ds ≡ true
    → parent_exists gs ds ≡ true
unfolding parent_exists
parent_kept fs gs [] k e = refl
parent_kept fs gs (d ∷ ds) k e = elim (Option-cases (fs.node d)) [
  | inl h ↦ absurd (ground (arith, h, e))
  | inr (folder, h) ↦ rw (k d h, parent_exists)
  | inr (file b, h) ↦ absurd (ground (arith, h, e))
]

-- The files that a walk reports.
abbrev pub listed : List Visit → List Text
listed [] = []
listed (v ∷ visits) = elim v.error [
  | some e ↦ listed visits
  | none ↦ if v.is_dir then listed visits else v.path ∷ listed visits
]

module _ (c : DownloaderConfig) {R : Type 0} (rem : Remote R) (r : R) where
  -- The server gives the whole file, and nothing stands in its way on the local side.
  pub record IsReady (fs : Files) (p : Text) : Type 0 where
    pub opens : rem.open_read r p ≡ none
    pub whole : (rem.content r p).1 ≡ none
    pub plain : occurs download_ending (final_path c p) ≡ false
    pub unused : fs.node (tmp c p) ≡ none
    pub vacant : fs.node (final_path c p) ≢ some folder
    pub parent : parent_exists fs (ancestors (tmp c p)) ≡ true

  unfoldable pub fetched : Files → Text → Files
  fetched fs p = put (put fs (tmp c p) (some (file []))) (tmp c p) (some (file (rem.content r p).0))

  no_file :
      (fs : Files) (p : Text) → IsFaultless fs → fs.node p ≡ none → is_dir_file_exist fs p ≡ false
  unfolding is_dir_file_exist stat is_not_exist
  no_file fs p clear h = rw (clear (FileCall.on_stat p), h, is_dir_file_exist, stat)

  receive_works :
      (fs : Files) (to from : Text) (x : Text × Option Error)
      → fs.fault (FileCall.on_copy to from) ≡ none
      → x.1 ≡ none
      → receive fs true to from x ≡ (ok tt, put fs to (some (file x.0)))
  unfolding receive
  receive_works fs to from (bs, e) h k = rw (h, k, receive)

  download_file_works :
      (fs : Files) (ps : List Text) (p : Text)
      → c.override_existing_file ≡ true
      → c.delete_remote_file_after_download ≡ false
      → IsFaultless fs
      → IsReady fs p
      → download_file c rem (record { files = fs; remote = r; pending = ps }) p
        ≡ (Outcome.go_on, record { files = fetched fs p; remote = r; pending = tmp c p ∷ ps })
  unfolding download_file remote_opened local_created received create_local_file opened_as
      local_download_path fetched
  download_file_works fs ps p over keep clear ready =
      let made =
        create_works fs (tmp c p) clear ready.parent (λ e. absurd (let u = ready.unused in cc)) in
      let got =
        receive_works (put fs (tmp c p) (some (file []))) (tmp c p) p (rem.content r p)
          (clear (FileCall.on_copy (tmp c p) p)) ready.whole in
      rw (over, ready.opens, no_file fs (tmp c p) clear ready.unused, made, got, keep)

  pub unmark_works :
      (fs : Files) (p b : Text)
      → IsFaultless fs
      → occurs download_ending (final_path c p) ≡ false
      → fs.node (tmp c p) ≡ some (file b)
      → fs.node (final_path c p) ≢ some folder
      → unmark fs (tmp c p) ≡ put (put fs (tmp c p) none) (final_path c p) (some (file b))
  unfolding unmark
  unmark_works fs p b clear plain here vacant =
      ap (λ t. (rename fs (tmp c p) t).1)
        (replace_first_ending 46 (codes "download") (final_path c p) no_dot plain)
      ∙ ap (λ x. x.1)
          (rename_works fs (tmp c p) (final_path c p) b clear here (tmp_differs c p) vacant)

  -- The files that have come in, renamed in the order of the deferred calls.
  unfoldable pub delivered : Files → List Text → Files
  delivered fs [] = fs
  delivered fs (p ∷ ps) = unmark (delivered (fetched fs p) ps) (tmp c p)

  -- The loop over the files alone.
  pub loop_files : Download R → List Text → Option Error × Download R
  loop_files d [] = (none, d)
  loop_files d (p ∷ ps) = next c rem (λ d'. loop_files d' ps) (download_file c rem d p)

  next_same :
      (f g : Download R → Option Error × Download R) (o : Outcome × Download R)
      → ((d : Download R) → f d ≡ g d)
      → next c rem f o ≡ next c rem g o
  unfolding next
  next_same f g (Outcome.go_on, d) h = h d
  next_same f g (Outcome.return_with e, d) h = refl

  pub download_loop_files :
      (d : Download R) (visits : List Visit)
      → download_loop c rem d visits ≡ loop_files d (listed visits)
  unfolding download_loop loop_files
  download_loop_files d [] = refl
  download_loop_files d (v ∷ visits) = elim (Option-cases v.error) [
    | inr (e, h) ↦ rw h (download_loop_files d visits)
    | inl h ↦ elim (Bool-cases v.is_dir) [
      | inl t ↦ rw (h, t) (download_loop_files d visits)
      | inr t ↦
          rw (h, t)
            (next_same _ _ (download_file c rem d v.path) (λ d'. download_loop_files d' visits))
    ]
  ]

  pub fetched_apart : (fs : Files) (p x : Text) → tmp c p ≢ x → (fetched fs p).node x ≡ fs.node x
  unfolding fetched
  fetched_apart fs p x n =
      put_ne (put fs (tmp c p) (some (file []))) (tmp c p) x _ n ∙ put_ne fs (tmp c p) x _ n

  fetched-IsReady :
      (fs : Files) (p q : Text)
      → IsReady fs p
      → final_path c p ≢ final_path c q
      → IsReady fs q
      → IsReady (fetched fs p) q
  unfolding fetched
  fetched-IsReady fs p q a n b =
      let (t, f) = names_apart c p q a.plain b.plain n in
      record {
        opens = b.opens;
        whole = b.whole;
        plain = b.plain;
        unused = fetched_apart fs p (tmp c q) t ∙ b.unused;
        vacant = λ e. b.vacant (sym (fetched_apart fs p (final_path c q) f) ∙ e);
        parent =
            parent_kept fs (fetched fs p) (ancestors (tmp c q))
              (λ x e. fetched_apart fs p x (λ k. absurd (ground (arith, e, k, a.unused))) ∙ e)
              b.parent;
      }

  pub fetched_others :
      (fs : Files) (p : Text) (qs : List Text)
      → IsReady fs p
      → All (λ f. final_path c p ≢ f) (map (final_path c) qs)
      → All (IsReady fs) qs
      → All (IsReady (fetched fs p)) qs
  fetched_others fs p [] a n b = tt
  fetched_others fs p (q ∷ qs) a n b =
      (fetched-IsReady fs p q a n.0 b.0, fetched_others fs p qs a n.1 b.1)

  pub files_come_in :
      (fs : Files) (ps qs : List Text)
      → c.override_existing_file ≡ true
      → c.delete_remote_file_after_download ≡ false
      → IsFaultless fs
      → All (IsReady fs) qs
      → Distinct (map (final_path c) qs)
      → (gs : Files) × (rs : List Text) × (loop_files
            (record { files = fs; remote = r; pending = ps })
            qs
          ≡ (none, record { files = gs; remote = r; pending = rs }))
        × (unmark_all gs rs ≡ unmark_all (delivered fs qs) ps)
  unfolding loop_files next unmark_all delivered fetched
  files_come_in fs ps [] over keep clear ready apart = (fs, ps, refl, refl)
  files_come_in fs ps (p ∷ qs) over keep clear ready apart =
      let (gs, rs, e, u) =
        files_come_in (fetched fs p) (tmp c p ∷ ps) qs over keep clear
          (fetched_others fs p qs ready.0 apart.0 ready.1) apart.1 in
      (
        gs,
        rs,
        ap (λ o. next c rem (λ d'. loop_files d' qs) o)
              (download_file_works fs ps p over keep clear ready.0)
            ∙ e,
        u,
      )
