-- ===== src/Overlord/Rounds.antt =====
-- A round of the file watcher from the walk through the staging directory to the last move.
use azure_s_sftp.Base.{
  ℕ, ◌≡◌, ◌≢◌, refl, sym, ◌∙◌, ap, subst, true, false, inl, inr, List, [], ◌∷◌, ◌++◌, map, Option,
  some, Text, select, All, arith, Bool-cases, Error,
}
use azure_s_sftp.Files.{file}
use azure_s_sftp.Server.{Server, File}
use azure_s_sftp.Config.Types.{ConfigService}
use azure_s_sftp.FileWatcher.Types.{FileUploadContext}
use azure_s_sftp.FileWatcher.Upload.{Times, get_sftp_open_files}
use azure_s_sftp.FileWatcher.Scavenge.{Visit, batch, scavenge_round}
use azure_s_sftp.FileWatcher.Ready.{
  is_idle, is_open, is_settled, is_candidate, candidates, scavenge_round-batch,
}
use azure_s_sftp.Overlord.Scans.{Services, World, process_files}
use azure_s_sftp.Overlord.Pipeline.{Pipeline, finished, start, Reach}
use azure_s_sftp.Overlord.Refines.{Reach-process_files}
use azure_s_sftp.Overlord.Batches.{staged, IsOnce, process_files-SameFile}
use azure_s_sftp.Overlord.Placed.{IsSeparate, All-IsElsewhere, staged-IsElsewhere}

abbrev pub paths : List FileUploadContext → List Text
paths = map (λ f. f.path)

module _ (t : Times) (opens : List File) where
  abbrev pub handed : List Visit → List FileUploadContext
  handed visits = select (is_settled t opens) (candidates visits)

  handed-append : (xs ys : List Visit) → handed (xs ++ ys) ≡ handed xs ++ handed ys
  handed-append [] ys = refl
  handed-append (v ∷ xs) ys = ground (arith, handed-append xs ys)

  module _ (cs : ConfigService) (Q : Text → Type 0) where
    -- The walk met the path below the staging directory.
    abbrev pub IsMet : Visit → Type 0
    IsMet v =
        (rest : Text) × (v.path ≡ staged cs rest)
        × IsOnce cs rest
        × (is_settled t opens (record { path = v.path }) ≡ true → Q rest)

    abbrev pub IsBelow : List FileUploadContext → Type 0
    IsBelow fs =
        (rests : List Text) × (paths fs ≡ map (staged cs) rests)
        × All (IsOnce cs) rests
        × All Q rests

    pub handed-IsBelow : (visits : List Visit) → All IsMet visits → IsBelow (handed visits)
    handed-IsBelow [] h = ([], refl, tt, tt)
    handed-IsBelow (v ∷ visits) ((rest, e, once, q), h) =
        let ih = handed-IsBelow visits h in
        elim (Bool-cases (is_candidate v)) [
          | inr n ↦ rw n ih
          | inl y ↦ elim (Bool-cases (is_settled t opens (record { path = v.path }))) [
            | inr n ↦ rw (y, n) ih
            | inl s ↦
                let (rests, e', o, qs) = ih in rw (y, s) (rest ∷ rests, cc, (once, o), (q s, qs))
          ]
        ]

module _ (sv : Services) (cs : ConfigService) (a : ℕ) (staging : Text)
    (is_staging : cs.config.staging_path ≡ a ∷ staging) (separate : IsSeparate cs.config)
    (t : Times) (servers : List Server) where
  -- What `filepath.Walk` reports: paths below the staging directory, whose own path does not occur
  -- in them again.
  abbrev pub IsWalk : List Visit → Type 0
  IsWalk visits = All (λ v. (rest : Text) × (v.path ≡ staged cs rest) × IsOnce cs rest) visits

  abbrev opens : List File
  opens = get_sftp_open_files servers

  pub walk-IsMet :
      (Q : Text → Type 0) (visits : List Visit)
      → ((rest : Text) → is_settled t opens (record { path = staged cs rest }) ≡ true → Q rest)
      → IsWalk visits
      → All (IsMet t opens cs Q) visits
  walk-IsMet Q [] q h = tt
  walk-IsMet Q (v ∷ visits) q ((rest, e, once), h) = (
    (rest, e, once, λ s. q rest (subst (λ p. is_settled t opens (record { path = p }) ≡ true) e s)),
    walk-IsMet Q visits q h,
  )

  -- A file of the staging directory that a session has open, and that was written within the last
  -- two hours, has the same content after a round: after the batch that the round hands on has been
  -- scanned and moved, whatever fails and in whatever order the goroutines take their steps. For
  -- clean and quarantine directories apart from the staging directory, and a walk that reports paths
  -- below it, in which its own path does not occur again.
  pub open_file_stays :
      (visits : List Visit) (walk_error : Option Error) (files : List FileUploadContext)
      (closed : List File) (w : World) (s : Pipeline) (rest c : Text)
      → IsWalk visits
      → scavenge_round cs visits walk_error t servers ≡ batch files closed
      → Reach sv cs (start (paths files) w) s
      → s.watcher ≡ finished
      → is_open opens (staged cs rest) ≡ true
      → is_idle t (staged cs rest) ≡ false
      → w.files.node (staged cs rest) ≡ some (file c)
      → s.world.files.node (staged cs rest) ≡ some (file c)
  open_file_stays visits walk_error files closed w s rest c walk round reach done open_now busy
        here =
      let (valid, enabled, same, idle) =
        scavenge_round-batch cs visits t servers walk_error files closed round in
      let (rests, e, once, others) =
        handed-IsBelow t opens cs (λ r. rest ≢ r) visits
          (walk-IsMet (λ r. rest ≢ r) visits unsettled walk) in
      let world = (Reach-process_files sv cs (paths files) w s reach done).0 in
      ap (λ (v : World). v.files.node (staged cs rest)) world
      ∙ subst (λ ps. (process_files sv cs w ps).files.node (staged cs rest) ≡ some (file c))
          (sym (ap paths same ∙ e))
          ((process_files-SameFile sv cs a staging is_staging w rests (staged cs rest) once
              (All-IsElsewhere sv cs a staging is_staging separate (staged cs rest) rest rests
                (staged-IsElsewhere sv cs a staging is_staging separate rest) others)
              c).0
            here)
    where
      unsettled : (r : Text) → is_settled t opens (record { path = staged cs r }) ≡ true → rest ≢ r
      unsettled r settled e =
          let s' : is_settled t opens (record { path = staged cs rest }) ≡ true =
            subst (λ x. is_settled t opens (record { path = staged cs x }) ≡ true) (sym e)
              settled in
          ground arith
