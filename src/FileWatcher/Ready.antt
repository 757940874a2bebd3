-- ===== src/FileWatcher/Ready.antt =====
-- Which files a round hands on: those that no session has open, or that have lain idle.
use azure_s_sftp.Base.{
  ℕ, ◌+◌, ◌*◌, ◌≡◌, refl, sym, ◌∙◌, ap, Bool, true, false, not, ◌&&◌, ◌||◌, inl, inr, List, [], ◌∷◌,
  ◌++◌, append-nil, append_assoc, map, Option, none, some, Text, ◌==◌, eq_iff, leb, any, select,
  All, if◌then◌else◌, Error, Result, ok, err, subst, arith, Bool-cases, Option-cases,
}
use azure_s_sftp.Server.{Server, File}
use azure_s_sftp.Config.Types.{ConfigService}
use azure_s_sftp.FileWatcher.Types.{FileUploadContext}
use azure_s_sftp.FileWatcher.Upload.{
  Times, minute, upload_time_duration_mins, reaches_limit, file_mod_time, open_file_timeup,
  is_scavenged_file_in_open_file_list, is_sftp_open_file_timeup, check_open, check_files, is_empty,
  check_scavenged_files_upload_state, get_sftp_open_files,
}
use azure_s_sftp.FileWatcher.Scavenge.{
  Visit, visit, walk, is_scavenged_file_download_state, batch, handed_on, scavenge_round,
}

-- The file was last written two hours ago or before.
abbrev pub is_idle : Times → Text → Bool
is_idle t p = elim (t.mod_time p) [ ok m ↦ leb (m + 120 * minute) (t.now p) | err e ↦ false ]

abbrev pub is_open : List File → Text → Bool
is_open opens p = any (λ o. o.name == p) opens

-- No session has the file open, or it is idle.
abbrev pub is_settled : Times → List File → FileUploadContext → Bool
is_settled t opens f = not (is_open opens f.path) || is_idle t f.path

is_scavenged_file_in_open_file_list_lem :
    (p : Text) (opens : List File) → is_scavenged_file_in_open_file_list p opens ≡ is_open opens p
unfolding is_scavenged_file_in_open_file_list
is_scavenged_file_in_open_file_list_lem p [] = refl
is_scavenged_file_in_open_file_list_lem p (o ∷ opens) =
    ground (arith, is_scavenged_file_in_open_file_list_lem p opens)

reaches_limit-duration :
    (now m : ℕ) → reaches_limit (upload_time_duration_mins now m) ≡ leb (m + 120 * minute) now
unfolding upload_time_duration_mins
reaches_limit-duration now m = ground arith

-- The open file that the check looks at carries the name that was asked for.
found :
    (t : Times) (p : Text) (opens : List File)
    → is_open opens p ≡ true
    → (o : File) × (o.name ≡ p)
      × (is_sftp_open_file_timeup t p opens ≡ open_file_timeup (t.now p) o (file_mod_time t p))
unfolding is_sftp_open_file_timeup
found t p [] h = cc
found t p (o ∷ opens) h = elim (Bool-cases (p == o.name)) [
  | inl same ↦ let e = (eq_iff p o.name).0 same in (o, sym e, rw (same, ← e))
  | inr other ↦
      let later : is_open opens p ≡ true = ground (arith, eq_iff p o.name, eq_iff o.name p) in
      let (o', n, e) = found t p opens later in (o', n, rw other e)
]

-- An open file is handed on, and closed, exactly if it is idle.
check_open-is_idle :
    (t : Times) (f : FileUploadContext) (o : File) (handed : List FileUploadContext)
    (closed : List File)
    → check_open f (open_file_timeup (t.now f.path) o (file_mod_time t f.path)) (handed, closed)
      ≡ (if is_idle t f.path then (f ∷ handed, o ∷ closed) else (handed, closed))
unfolding check_open open_file_timeup file_mod_time
check_open-is_idle t f o handed closed = go (t.mod_time f.path)
  where
    go :
        (r : Result ℕ)
        → check_open f
            (open_file_timeup
              (t.now f.path)
              o
              (elim r [ ok m ↦ (m, none) | err e ↦ (t.now f.path, some e) ]))
            (handed, closed)
          ≡ (if elim r [ ok m ↦ leb (m + 120 * minute) (t.now f.path) | err e ↦ false ]
              then (f ∷ handed, o ∷ closed)
              else (handed, closed))
    go (err e) = refl
    go (ok m) =
        rw (reaches_limit-duration (t.now f.path) m)
          (elim (Bool-cases (leb (m + 120 * minute) (t.now f.path))) [
            | inl y ↦ rw y
            | inr n ↦ rw n
          ])

abbrev IsChecked :
    Times → List File → List FileUploadContext → List FileUploadContext × List File → Type 0
IsChecked t opens files r =
    (r.0 ≡ select (is_settled t opens) files) × All (λ o. is_idle t o.name ≡ true) r.1

check_files-IsChecked :
    (t : Times) (opens : List File) (files : List FileUploadContext)
    → IsChecked t opens files (check_files t opens files)
unfolding check_files
check_files-IsChecked t opens [] = (refl, tt)
check_files-IsChecked t opens (f ∷ files) =
    let (h, c) = check_files-IsChecked t opens files in
    elim (Bool-cases (is_open opens f.path)) [
      | inr shut ↦
          rw (is_scavenged_file_in_open_file_list_lem f.path opens, shut) (ap (λ xs. f ∷ xs) h, c)
      | inl open_now ↦
          let (o, n, e) = found t f.path opens open_now in
          rw
            (
              is_scavenged_file_in_open_file_list_lem f.path opens,
              open_now,
              e,
              check_open-is_idle t f o,
            )
            (elim (Bool-cases (is_idle t f.path)) [
              | inl idle ↦ rw idle (ap (λ xs. f ∷ xs) h, (rw (n, idle), c))
              | inr busy ↦ rw busy (h, c)
            ])
    ]

select_unopened :
    (t : Times) (files : List FileUploadContext) → select (is_settled t []) files ≡ files
select_unopened t [] = refl
select_unopened t (f ∷ files) = ap (λ xs. f ∷ xs) (select_unopened t files)

-- A file that the walk reports without an error, and that is not still being downloaded.
abbrev pub is_candidate : Visit → Bool
is_candidate v = elim v.error [
  | some e ↦ false
  | none ↦ not v.is_dir && not (is_scavenged_file_download_state v.path)
]

abbrev pub candidates : List Visit → List FileUploadContext
candidates visits = map (λ v. record { path = v.path }) (select is_candidate visits)

visit-is_candidate :
    (files : List FileUploadContext) (v : Visit)
    → visit files v ≡ (if is_candidate v then files ++ (record { path = v.path } ∷ []) else files)
unfolding visit
visit-is_candidate files v = elim (Option-cases v.error) [
  | inr (e, h) ↦ rw h
  | inl h ↦ rw h (elim (Bool-cases v.is_dir) [
    | inl d ↦ rw d
    | inr d ↦ rw d (elim (Bool-cases (is_scavenged_file_download_state v.path)) [
      | inl x ↦ rw x
      | inr x ↦ rw x
    ])
  ])
]

walk-candidates :
    (files : List FileUploadContext) (visits : List Visit)
    → walk files visits ≡ files ++ candidates visits
unfolding walk
walk-candidates files [] = sym (append-nil files)
walk-candidates files (v ∷ visits) = elim (Bool-cases (is_candidate v)) [
  | inl y ↦
      walk-candidates (visit files v) visits
      ∙ rw (visit-is_candidate files v, y) (append_assoc files _ (candidates visits))
  | inr n ↦ walk-candidates (visit files v) visits ∙ rw (visit-is_candidate files v, n)
]

-- The outcome of the check, against the files that are settled.
check-IsChecked :
    (t : Times) (opens : List File) (files : List FileUploadContext)
    → let (handed, some_handed, closed) = check_scavenged_files_upload_state t opens files in
      IsChecked t opens files (handed, closed)
      × (some_handed ≡ (is_empty opens || not (is_empty handed)))
unfolding check_scavenged_files_upload_state
check-IsChecked t [] files = ((sym (select_unopened t files), tt), refl)
check-IsChecked t (o ∷ opens) files = (check_files-IsChecked t (o ∷ opens) files, refl)

module _ (cs : ConfigService) (visits : List Visit) (t : Times) (servers : List Server) where
  -- The candidates of the walk that are settled.
  abbrev pub settled_candidates : List FileUploadContext
  settled_candidates = select (is_settled t (get_sftp_open_files servers)) (candidates visits)

  handed_on-batch :
      (r : List FileUploadContext × Bool × List File) (files : List FileUploadContext)
      (closed : List File)
      → handed_on r ≡ batch files closed
      → r ≡ (files, true, closed)
  unfolding handed_on
  handed_on-batch (fs, true, c) files closed h = ground arith
  handed_on-batch (fs, false, c) files closed h = cc

  scavenge_round-inverted :
      (walk_error : Option Error) (files : List FileUploadContext) (closed : List File)
      → scavenge_round cs visits walk_error t servers ≡ batch files closed
      → (cs.valid ≡ true)
        × (cs.config.enable_file_scavenging ≡ true)
        × (check_scavenged_files_upload_state t (get_sftp_open_files servers) (walk [] visits)
            ≡ (files, true, closed))
  unfolding scavenge_round
  scavenge_round-inverted walk_error files closed h = ground (
    arith,
    handed_on-batch
        (check_scavenged_files_upload_state t (get_sftp_open_files servers) (walk [] visits)) files
        closed,
  )

  -- A batch is handed on only under a valid configuration with scavenging switched on. It holds,
  -- in the order of the walk, exactly the files that the walk reported without an error, that do
  -- not carry the ending of a download, and that no session has open unless they have lain idle
  -- for two hours; the open files that are closed belong to idle files.
  pub scavenge_round-batch :
      (walk_error : Option Error) (files : List FileUploadContext) (closed : List File)
      → scavenge_round cs visits walk_error t servers ≡ batch files closed
      → (cs.valid ≡ true)
        × (cs.config.enable_file_scavenging ≡ true)
        × (files ≡ settled_candidates)
        × All (λ o. is_idle t o.name ≡ true) closed
  scavenge_round-batch walk_error files closed h =
      let (valid, enabled, e) = scavenge_round-inverted walk_error files closed h in
      let checked = check-IsChecked t (get_sftp_open_files servers) (walk [] visits) in
      let (same, idle) : IsChecked t (get_sftp_open_files servers) (walk [] visits)
          (files, closed) =
        subst (λ r. IsChecked t (get_sftp_open_files servers) (walk [] visits) (r.0, r.2)) e
          checked.0 in
      (valid, enabled, rw (walk-candidates [] visits) at same, idle)

  not_empty : is_empty settled_candidates ≡ false → is_empty (candidates visits) ≡ false
  not_empty h = ground arith

  all_checked :
      is_empty settled_candidates ≡ false
      → check_scavenged_files_upload_state t (get_sftp_open_files servers) (candidates visits) ≡ (
        settled_candidates,
        true,
        (check_scavenged_files_upload_state t (get_sftp_open_files servers) (candidates visits)).2,
      )
  all_checked h =
      let ((same, idle), b) = check-IsChecked t (get_sftp_open_files servers) (candidates visits) in
      ground arith

  -- When the configuration is valid, scavenging is on and the walk did not fail, a settled
  -- candidate makes the round hand on a batch.
  pub scavenge_round_hands_on :
      cs.valid ≡ true
      → cs.config.enable_file_scavenging ≡ true
      → is_empty settled_candidates ≡ false
      → (closed : List File) × (scavenge_round cs visits none t servers
          ≡ batch settled_candidates closed)
  unfolding scavenge_round handed_on
  scavenge_round_hands_on valid enabled some_settled = (
    (check_scavenged_files_upload_state t (get_sftp_open_files servers) (candidates visits)).2,
    rw (valid, enabled, walk-candidates [] visits, not_empty some_settled)
        (ap handed_on (all_checked some_settled)),
  )
