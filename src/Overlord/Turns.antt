-- ===== src/Overlord/Turns.antt =====
-- The loop of `ScavengeUploadedFiles` over many rounds, with what others do to the file system in
-- between.
use azure_s_sftp.Base.{
  ◌⊎◌, ℕ, ◌≡◌, sym, subst, inl, inr, List, ◌∷◌, ◌++◌, Option, some, Text, Error,
}
use azure_s_sftp.Files.{file}
use azure_s_sftp.Files.Laws.{SameFile}
use azure_s_sftp.Server.{Server, File}
use azure_s_sftp.Config.Types.{ConfigService}
use azure_s_sftp.FileWatcher.Types.{FileUploadContext}
use azure_s_sftp.FileWatcher.Upload.{Times}
use azure_s_sftp.FileWatcher.Scavenge.{Visit, batch, scavenge_round}
use azure_s_sftp.Overlord.Scans.{Services, World}
use azure_s_sftp.Overlord.Pipeline.{Pipeline, finished, start, Reach}
use azure_s_sftp.Overlord.Rounds.{paths}
use azure_s_sftp.Overlord.Sent.{
  IsSeen, Directories, directories, AreSeparate, Sends, IsPlacedBy, IsPlacedBy-map,
  round-IsPlacedBy,
}

module _ (ds : Directories) (rest : Text) where
  -- A turn of the loop: a round that hands on a batch, up to the end of the batch, under the
  -- configuration and with the answers of clamd that it meets; or others change the file system, but
  -- neither the file of `rest` nor the places that it may go to.
  pub data Turn (w : World) (w' : World) : Type 0 where
    round :
        (sv : Services) (cs : ConfigService) (visits : List Visit) (walk_error : Option Error)
        (t : Times) (servers : List Server) (files : List FileUploadContext) (closed : List File)
        (s : Pipeline)
        → directories cs ≡ ds
        → IsSeen cs w visits
        → scavenge_round cs visits walk_error t servers ≡ batch files closed
        → Reach sv cs (start (paths files) w) s
        → s.watcher ≡ finished
        → w' ≡ s.world
        → Turn w w'
    others :
        SameFile (ds.staging ++ rest) w.files w'.files
        → SameFile (ds.clean ++ rest) w.files w'.files
        → SameFile (ds.quarantine ++ rest) w.files w'.files
        → Turn w w'

  abbrev pub TurnSends : {w w' : World} → Turn w w' → Text → Type 0
  TurnSends (round sv cs visits walk_error t servers files closed s d seen scavenged reach done e)
        to =
      Sends sv cs files rest to
  TurnSends (others s c q) to = ⊥

  pub data Turns (w : World) : World → Type 0 where
    begun : Turns w w
    taken : {v u : World} → Turns w v → Turn v u → Turns w u

  -- Some turn sends the file to the directory.
  abbrev pub HasSent : {w w' : World} → Turns w w' → Text → Type 0
  HasSent begun to = ⊥
  HasSent (taken ts turn) to = HasSent ts to ⊎ TurnSends turn to

module _ (ds : Directories) (a : ℕ) (staging : Text) (is_staging : ds.staging ≡ a ∷ staging)
    (separate : AreSeparate ds) (rest c : Text) where
  others-IsPlacedBy :
      (P : Text → Type 0) (w w' : World)
      → SameFile (ds.staging ++ rest) w.files w'.files
      → SameFile (ds.clean ++ rest) w.files w'.files
      → SameFile (ds.quarantine ++ rest) w.files w'.files
      → IsPlacedBy ds P rest c w.files
      → IsPlacedBy ds P rest c w'.files
  others-IsPlacedBy P w w' s k q (inl here) = inl ((s c).0 here)
  others-IsPlacedBy P w w' s k q (inr (to, p, inl at, x, vacant)) = inr (
    to,
    p,
    inl at,
    ((subst (λ t. SameFile (t ++ rest) w.files w'.files) (sym at) k) c).0 x,
    λ b h. vacant b ((s b).1 h),
  )
  others-IsPlacedBy P w w' s k q (inr (to, p, inr at, x, vacant)) = inr (
    to,
    p,
    inr at,
    ((subst (λ t. SameFile (t ++ rest) w.files w'.files) (sym at) q) c).0 x,
    λ b h. vacant b ((s b).1 h),
  )

  Turn-IsPlacedBy :
      (P : Text → Type 0) (w w' : World) (turn : Turn ds rest w w')
      → IsPlacedBy ds P rest c w.files
      → IsPlacedBy ds (λ to. P to ⊎ TurnSends ds rest turn to) rest c w'.files
  Turn-IsPlacedBy P w w' (others s k q) placed =
      IsPlacedBy-map ds P _ rest c w'.files (λ to p. inl p) (others-IsPlacedBy P w w' s k q placed)
  Turn-IsPlacedBy P w w'
        (round sv cs visits walk_error t servers files closed s d seen scavenged reach done e)
        placed =
      let Q : Text → Type 0 = λ to. P to ⊎ Sends sv cs files rest to in
      subst (λ (v : World). IsPlacedBy ds Q rest c v.files) (sym e)
        (subst
          (λ (es : Directories).
            es.staging ≡ a ∷ staging
            → AreSeparate es
            → IsPlacedBy es P rest c w.files
            → IsPlacedBy es Q rest c s.world.files)
          d
          (λ i k p.
            round-IsPlacedBy sv cs a staging i k rest c P w visits walk_error t servers files closed
              s seen scavenged reach done p)
          is_staging separate placed)

  -- A file of the staging directory is not lost, over any number of rounds of the file watcher,
  -- whatever calls of the file system fail, whatever clamd answers in each round, and in whatever
  -- order the goroutines take their steps: its content is where it was; or it is at the same place
  -- below the clean or the quarantine directory, which in some round that handed on the file was the
  -- directory of clamd's answer, or of the setting that switches the scan off, and no file is left
  -- in its place of the staging directory. The configuration may change between the rounds, but not
  -- the three directories, and not within a round. None of their paths is the beginning of another.
  -- Each walk reports paths below the staging directory, in which the staging directory's own path
  -- does not occur again, each once, and as files only what is there. Others leave alone the file
  -- and the places that it may go to.
  pub Turns-IsPlacedBy :
      (w w' : World) (ts : Turns ds rest w w')
      → w.files.node (ds.staging ++ rest) ≡ some (file c)
      → IsPlacedBy ds (HasSent ds rest ts) rest c w'.files
  Turns-IsPlacedBy w w' begun here = inl here
  Turns-IsPlacedBy w w' (taken {v = v} ts turn) here =
      Turn-IsPlacedBy (HasSent ds rest ts) v w' turn (Turns-IsPlacedBy w v ts here)
