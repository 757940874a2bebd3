-- ===== src/SftpClient/Arrived.antt =====
-- What a whole run of downloads leaves on the local side when nothing fails.
use azure_s_sftp.Base.{
  ◌≡◌, ◌≢◌, refl, sym, ◌∙◌, ap, subst, true, false, List, [], ◌∷◌, none, some, Text, All, All-map,
  Distinct, map,
}
use azure_s_sftp.Files.{folder, file, Files, put}
use azure_s_sftp.Files.Laws.{IsFaultless, put_self, put_ne, stat_works}
use azure_s_sftp.FileWatcher.Scavenge.{Visit}
use azure_s_sftp.SftpClient.{
  DownloaderConfig, Remote, is_dir_file_exist, create_local_dir,
  set_downloader_full_local_staging_and_remote_path,
}
use azure_s_sftp.SftpClient.Incoming.{
  IsReady, fetched, fetched_apart, files_come_in, download_loop_files, unmark_works, delivered,
  fetched_others, listed,
}
use azure_s_sftp.SftpClient.Names.{final_path, tmp, names_apart, tmp_differs}
use azure_s_sftp.SftpClient.Download.{download_loop, unmark_all, finish, download_files_recursive}

module _ (c : DownloaderConfig) {R : Type 0} (rem : Remote R) (r : R) where
  -- The names of the one are not names of the other.
  abbrev Apart : Text → Text → Type 0
  Apart p q =
      ((tmp c p ≢ tmp c q) × (tmp c p ≢ final_path c q))
      × ((final_path c p ≢ tmp c q) × (final_path c p ≢ final_path c q))

  others-Apart :
      (fs : Files) (p : Text) (qs : List Text)
      → IsReady c rem r fs p
      → All (λ f. final_path c p ≢ f) (map (final_path c) qs)
      → All (IsReady c rem r fs) qs
      → All (Apart p) qs
  others-Apart fs p [] a n b = tt
  others-Apart fs p (q ∷ qs) a n b =
      let (t, f) = names_apart c p q a.plain b.0.plain n.0 in
      let (u, g) = names_apart c q p b.0.plain a.plain (λ e. n.0 (sym e)) in
      (((t, f), (λ e. g (sym e), n.0)), others-Apart fs p qs a n.1 b.1)

  abbrev pub Others : Text → List Text → Type 0
  Others x = All (λ q. (tmp c q ≢ x) × (final_path c q ≢ x))

  -- The whole file has its name, and no download of it is left.
  abbrev pub HasArrived : Files → Text → Type 0
  HasArrived fs p =
      (fs.node (final_path c p) ≡ some (file (rem.content r p).0)) × (fs.node (tmp c p) ≡ none)

  abbrev Delivers : Files → Files → List Text → Type 0
  Delivers fs gs qs =
      IsFaultless gs × ((x : Text) → Others x qs → gs.node x ≡ fs.node x) × All (HasArrived gs) qs

  still_arrived :
      (gs : Files) (p : Text) (qs : List Text)
      → All (Apart p) qs
      → All (HasArrived gs) qs
      → All
          (HasArrived
            (put (put gs (tmp c p) none) (final_path c p) (some (file (rem.content r p).0))))
          qs
  still_arrived gs p [] apart has = tt
  still_arrived gs p (q ∷ qs) (a, apart) (h, has) =
      let away = put gs (tmp c p) none in
      (
        (
          put_ne away (final_path c p) (final_path c q) _ a.1.1
              ∙ (put_ne gs (tmp c p) (final_path c q) none a.0.1 ∙ h.0),
          put_ne away (final_path c p) (tmp c q) _ a.1.0
              ∙ (put_ne gs (tmp c p) (tmp c q) none a.0.0 ∙ h.1),
        ),
        still_arrived gs p qs apart has,
      )

  renamed-Delivers :
      (fs gs : Files) (p : Text) (qs : List Text)
      → All (Apart p) qs
      → Delivers (fetched c rem r fs p) gs qs
      → Delivers fs
          (put (put gs (tmp c p) none) (final_path c p) (some (file (rem.content r p).0)))
          (p ∷ qs)
  renamed-Delivers fs gs p qs apart (clear, same, has) =
      let away = put gs (tmp c p) none in
      let v = some (file (rem.content r p).0) in
      let own = tmp_differs c p in
      (
        clear,
        λ x n.
            put_ne away (final_path c p) x v n.0.1
            ∙ (put_ne gs (tmp c p) x none n.0.0
                ∙ (same x n.1 ∙ fetched_apart c rem r fs p x n.0.0)),
        (
          (
            put_self away (final_path c p) v,
            put_ne away (final_path c p) (tmp c p) v (λ e. own (sym e))
                ∙ put_self gs (tmp c p) none,
          ),
          still_arrived gs p qs apart has,
        ),
      )

  delivered-Delivers :
      (fs : Files) (qs : List Text)
      → IsFaultless fs
      → All (IsReady c rem r fs) qs
      → Distinct (map (final_path c) qs)
      → Delivers fs (delivered c rem r fs qs) qs
  unfolding delivered fetched
  delivered-Delivers fs [] clear ready apart = (clear, λ x n. refl, tt)
  delivered-Delivers fs (p ∷ qs) clear ready apart =
      let gs = delivered c rem r (fetched c rem r fs p) qs in
      let own = tmp_differs c p in
      let each = others-Apart fs p qs ready.0 apart.0 ready.1 in
      let ih =
        delivered-Delivers (fetched c rem r fs p) qs clear
          (fetched_others c rem r fs p qs ready.0 apart.0 ready.1) apart.1 in
      let here =
        ih.1 (tmp c p) (All-map qs (λ q a. (λ e. a.0.0 (sym e), λ e. a.0.1 (sym e))) each)
        ∙ put_self (put fs (tmp c p) (some (file []))) (tmp c p) _ in
      let vacant =
        ih.1 (final_path c p) (All-map qs (λ q a. (λ e. a.1.0 (sym e), λ e. a.1.1 (sym e))) each)
        ∙ fetched_apart c rem r fs p (final_path c p) own in
      subst (λ x. Delivers fs x (p ∷ qs))
        (sym (
          unmark_works c rem r gs p (rem.content r p).0 ih.0 ready.0.plain here
            (λ e. ready.0.vacant (sym vacant ∙ e))))
        (renamed-Delivers fs gs p qs each ih)

create_local_dir_done :
    (fs : Files) (dir : Text)
    → IsFaultless fs
    → fs.node dir ≡ some folder
    → create_local_dir fs dir ≡ fs
unfolding create_local_dir is_dir_file_exist
create_local_dir_done fs dir clear h = rw ((stat_works fs dir folder clear h).0, is_dir_file_exist)

module _ {R : Type 0} (rem : Remote R) where
  -- A run of downloads that keeps the remote files brings in every file. Each file that the walk
  -- reports is in the end in the local directory under its own name, with the whole content that
  -- the server gave for it, and nothing is left under the name that it came in with. Every other
  -- path has what it had before, the server is as it was, and no error is returned. This holds when
  -- existing files may be overridden, the local directory is there, no call on it fails, the server
  -- opens every file and gives it to its end, no two files end up at the same path, and for each
  -- file: its path does not contain `.download` and is not that of a directory, and the name that
  -- it comes in with is not taken and stands in a directory that is there.
  pub download_files_recursive_arrives :
      (c : DownloaderConfig) (fs : Files) (r : R) (visits : List Visit)
      → let c' = set_downloader_full_local_staging_and_remote_path rem r c in
        c.override_existing_file ≡ true
        → c.delete_remote_file_after_download ≡ false
        → IsFaultless fs
        → fs.node c'.full_local_staging_dir ≡ some folder
        → All (IsReady c' rem r fs) (listed visits)
        → Distinct (map (final_path c') (listed visits))
        → let (e, gs, r') = download_files_recursive rem c fs r visits in
          (e ≡ none)
          × (r' ≡ r)
          × All (HasArrived c' rem r gs) (listed visits)
          × ((x : Text) → Others c' rem r x (listed visits) → gs.node x ≡ fs.node x)
  unfolding download_files_recursive set_downloader_full_local_staging_and_remote_path finish
      unmark_all
  download_files_recursive_arrives c fs r visits over keep clear dir ready apart =
      let c' = set_downloader_full_local_staging_and_remote_path rem r c in
      let (gs, rs, e, u) =
        files_come_in c' rem r fs [] (listed visits) over keep clear ready apart in
      let (clear', same, has) = delivered-Delivers c' rem r fs (listed visits) clear ready apart in
      let begun = create_local_dir_done fs c'.full_local_staging_dir clear dir in
      let whole =
        ap
          (λ x.
            finish rem
              (download_loop c' rem (record { files = x; remote = r; pending = [] }) visits))
          begun
        ∙ (ap (finish rem) (
              download_loop_files c' rem r (record { files = fs; remote = r; pending = [] }) visits
              ∙ e)
            ∙ ap (λ x. (none, x, r)) u) in
      subst
        (λ o.
          (o.0 ≡ none)
          × (o.2 ≡ r)
          × All (HasArrived c' rem r o.1) (listed visits)
          × ((x : Text) → Others c' rem r x (listed visits) → o.1.node x ≡ fs.node x))
        (sym whole) (refl, refl, has, same)
