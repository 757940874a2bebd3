-- ===== src/Overlord/Sent.antt =====
-- Where a round of the file watcher leaves a file, whatever the rounds before it did.
use azure_s_sftp.Base.{
  ◌⊎◌, Apart, refl, ℕ, ◌≡◌, ◌≢◌, sym, ◌∙◌, ap, subst, false, inl, inr, List, ◌∷◌, ◌++◌, map, Option,
  none, some, Text, All, Distinct, Error,
}
use mathlib.Core.List.{map-append}
use azure_s_sftp.Files.{file, Files}
use azure_s_sftp.Files.Laws.{SameFile}
use azure_s_sftp.Server.{Server, File}
use azure_s_sftp.Config.Types.{ConfigService}
use azure_s_sftp.FileWatcher.Types.{FileUploadContext}
use azure_s_sftp.FileWatcher.Upload.{Times, get_sftp_open_files}
use azure_s_sftp.FileWatcher.Scavenge.{Visit, batch, scavenge_round}
use azure_s_sftp.FileWatcher.Ready.{scavenge_round-batch}
use azure_s_sftp.Overlord.Scans.{Services, World, process_files}
use azure_s_sftp.Overlord.Pipeline.{Pipeline, finished, start, Reach}
use azure_s_sftp.Overlord.Refines.{Reach-process_files}
use azure_s_sftp.Overlord.Homes.{home}
use azure_s_sftp.Overlord.Batches.{
  staged, IsOnce, IsPlaced, IsPlacedAt, IsElsewhere, IsVacant, process_files-SameFile,
}
use azure_s_sftp.Overlord.Placed.{
  IsSeparate, home-IsHome, staged-IsElsewhere, dest-IsElsewhere, All-IsElsewhere,
  process_files-IsPlaced,
}
use azure_s_sftp.Overlord.Visited.{
  once_or_never, handed-All, handed-Distinct, Distinct-unmap, All-between, All-unmap,
}
use azure_s_sftp.Overlord.Rounds.{paths, handed-IsBelow, walk-IsMet}

-- A file is at the path.
abbrev pub IsThere : World → Text → Type 0
IsThere w p = (d : Text) × (w.files.node p ≡ some (file d))

-- What `filepath.Walk` reports of the staging directory: paths below it, whose own path does not
-- occur in them again, each once, and as files only what is there.
abbrev pub IsSeen : ConfigService → World → List Visit → Type 0
IsSeen cs w visits =
    All (λ v. (rest : Text) × (v.path ≡ staged cs rest) × IsOnce cs rest) visits
    × Distinct (map (λ v. v.path) visits)
    × All (λ v. v.is_dir ≡ false → IsThere w v.path) visits

-- The paths of the three directories that files go through.
pub record Directories : Type 0 where
  pub staging : Text
  pub clean : Text
  pub quarantine : Text

abbrev pub directories : ConfigService → Directories
directories cs = record {
  staging = cs.config.staging_path;
  clean = cs.config.clean_path;
  quarantine = cs.config.quarantine_path;
}

-- None of the three paths is the beginning of another.
abbrev pub AreSeparate : Directories → Type 0
AreSeparate ds =
    Apart ds.clean ds.staging × Apart ds.quarantine ds.staging × Apart ds.clean ds.quarantine

-- The batch contains the file of the path.
abbrev pub HandsOn : List FileUploadContext → Text → Type 0
HandsOn files p = (before : List Text) × (after : List Text) × (paths files ≡ before ++ (p ∷ after))

-- A round hands on the file, and clamd's answer in that round, or the setting, names the directory.
abbrev pub Sends : Services → ConfigService → List FileUploadContext → Text → Text → Type 0
Sends sv cs files rest to = (home sv cs (staged cs rest) ≡ some to) × HandsOn files (staged cs rest)

-- Where the content of a file is: in the staging directory, or at the same place below the clean or
-- the quarantine directory, if one of these was named for it, and no file is left in its place.
abbrev pub IsPlacedBy : Directories → (Text → Type 0) → Text → Text → Files → Type 0
IsPlacedBy ds P rest c fs =
    (fs.node (ds.staging ++ rest) ≡ some (file c))
    ⊎ ((to : Text) × P to
        × ((to ≡ ds.clean) ⊎ (to ≡ ds.quarantine))
        × (fs.node (to ++ rest) ≡ some (file c))
        × IsVacant (ds.staging ++ rest) fs)

module _ (sv : Services) (cs : ConfigService) (a : ℕ) (staging : Text)
    (is_staging : cs.config.staging_path ≡ a ∷ staging) (separate : IsSeparate cs.config)
    (rest c : Text) (w : World) (rests : List Text) where
  abbrev after_batch : World
  after_batch = process_files sv cs w (map (staged cs) rests)

  batch-SameFile :
      (q : Text)
      → All (IsOnce cs) rests
      → All (λ r. rest ≢ r) rests
      → ((r : Text) → rest ≢ r → IsElsewhere sv cs q r)
      → SameFile q w.files after_batch.files
  batch-SameFile q once never f =
      process_files-SameFile sv cs a staging is_staging w rests q once
        (All-IsElsewhere sv cs a staging is_staging separate q rest rests f never)

  -- The directory was named before, or is in this batch.
  abbrev Named : (Text → Type 0) → Text → Type 0
  Named P to =
      P to
      ⊎ ((home sv cs (staged cs rest) ≡ some to)
          × ((before : List Text) × (after : List Text) × (rests ≡ before ++ (rest ∷ after))))

  sent_IsPlacedBy :
      (P : Text → Type 0) (before after : List Text)
      → rests ≡ before ++ (rest ∷ after)
      → (h : Option Text) → home sv cs (staged cs rest) ≡ h
      → IsPlacedAt sv cs h rest c after_batch.files
      → IsPlacedBy (directories cs) (Named P) rest c after_batch.files
  sent_IsPlacedBy P before after e none h p = inl p
  sent_IsPlacedBy P before after e (some to) h (inr p) = inl p
  sent_IsPlacedBy P before after e (some to) h (inl (there, left)) =
      inr (to, inr (h, (before, after, e)), home-IsHome sv cs (staged cs rest) to h, there, left)

  batch-IsPlacedBy :
      (P : Text → Type 0)
      → All (IsOnce cs) rests
      → Distinct rests
      → All (λ r. IsThere w (staged cs r)) rests
      → IsPlacedBy (directories cs) P rest c w.files
      → IsPlacedBy (directories cs) (Named P) rest c after_batch.files
  batch-IsPlacedBy P once d there (inl here) = elim (once_or_never rest rests d) [
    | inl never ↦ inl (
        (batch-SameFile (staged cs rest) once never
            (staged-IsElsewhere sv cs a staging is_staging separate rest) c).0
          here)
    | inr (before, after, e, nb, na) ↦
        sent_IsPlacedBy P before after e (home sv cs (staged cs rest)) refl (
          subst (λ rs. IsPlaced sv cs rest c (process_files sv cs w (map (staged cs) rs)).files)
            (sym e)
            (process_files-IsPlaced sv cs a staging is_staging separate w before rest after c
              (subst (All (IsOnce cs)) e once) nb na here))
  ]
  batch-IsPlacedBy P once d there (inr (to, p, at, x, vacant)) = elim (once_or_never rest rests d) [
    | inr (before, after, e, nb, na) ↦
        let (content, present) =
          All-between (λ r. IsThere w (staged cs r)) before rest after
            (subst (All (λ r. IsThere w (staged cs r))) e there) in
        absurd (vacant content present)
    | inl never ↦
        let gone =
          batch-SameFile (staged cs rest) once never
            (staged-IsElsewhere sv cs a staging is_staging separate rest) in
        let kept =
          batch-SameFile (to ++ rest) once never
            (λ r. dest-IsElsewhere sv cs a staging is_staging separate rest r to at) in
        inr (to, inl p, at, (kept c).0 x, λ b h. vacant b ((gone b).1 h))
  ]

pub IsPlacedBy-map :
    (ds : Directories) (P Q : Text → Type 0) (rest c : Text) (fs : Files)
    → ((to : Text) → P to → Q to)
    → IsPlacedBy ds P rest c fs
    → IsPlacedBy ds Q rest c fs
IsPlacedBy-map ds P Q rest c fs f (inl here) = inl here
IsPlacedBy-map ds P Q rest c fs f (inr (to, p, at, there, left)) = inr (to, f to p, at, there, left)

-- A round, whatever the directories were named before.
pub round-IsPlacedBy :
    (sv : Services) (cs : ConfigService) (a : ℕ) (staging : Text)
    → cs.config.staging_path ≡ a ∷ staging
    → IsSeparate cs.config
    → (rest c : Text) (P : Text → Type 0) (w : World) (visits : List Visit)
      (walk_error : Option Error) (t : Times) (servers : List Server)
      (files : List FileUploadContext) (closed : List File) (s : Pipeline)
    → IsSeen cs w visits
    → scavenge_round cs visits walk_error t servers ≡ batch files closed
    → Reach sv cs (start (paths files) w) s
    → s.watcher ≡ finished
    → IsPlacedBy (directories cs) P rest c w.files
    → IsPlacedBy (directories cs) (λ to. P to ⊎ Sends sv cs files rest to) rest c s.world.files
round-IsPlacedBy sv cs a staging is_staging separate rest c P w visits walk_error t servers files
      closed s seen scavenged reach done placed =
    let (walk, distinct, there) = seen in
    let opens = get_sftp_open_files servers in
    let (valid, enabled, same, idle) =
      scavenge_round-batch cs visits t servers walk_error files closed scavenged in
    let (rests, listed, once, u) =
      handed-IsBelow t opens cs (λ r. Unit {0}) visits
        (walk-IsMet sv cs a staging is_staging separate t servers (λ r. Unit {0}) visits (λ r k. tt)
          walk) in
    let d =
      Distinct-unmap cs rests (subst Distinct listed (handed-Distinct t opens visits distinct)) in
    let present =
      All-unmap cs (IsThere w) rests
        (subst (All (IsThere w)) listed (handed-All t opens (IsThere w) visits there)) in
    let same_paths = ap paths same ∙ listed in
    subst
      (λ (v : World).
        IsPlacedBy (directories cs) (λ to. P to ⊎ Sends sv cs files rest to) rest c v.files)
      (sym (
        (Reach-process_files sv cs (paths files) w s reach done).0
        ∙ ap (process_files sv cs w) same_paths))
      (IsPlacedBy-map (directories cs) _ _ rest c
        (process_files sv cs w (map (staged cs) rests)).files
        (λ to n. elim n [
          | inl p ↦ inl p
          | inr (h, (before, after, e)) ↦ inr (
            h,
            (
              map (staged cs) before,
              map (staged cs) after,
              same_paths ∙ ap (map (staged cs)) e ∙ map-append (staged cs) before (rest ∷ after),
            ),
          )
        ])
        (batch-IsPlacedBy sv cs a staging is_staging separate rest c w rests P once d present
          placed))
