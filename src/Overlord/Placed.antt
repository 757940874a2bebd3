-- ===== src/Overlord/Placed.antt =====
-- A batch of files is scanned and moved without losing one.
use azure_s_sftp.Base.{
  ℕ, ◌≡◌, ◌≢◌, refl, sym, subst, ◌⊎◌, inl, inr, List, [], ◌∷◌, ◌++◌, map, Option, none, some, Text,
  Error, All, Apart, Apart-append,
}
use mathlib.Core.List.{append_cancel_left}
use azure_s_sftp.Files.{file, Files}
use azure_s_sftp.Files.Laws.{SameFile}
use azure_s_sftp.Config.Types.{Config, ConfigService}
use azure_s_sftp.FileWatcher.Move.{move_file_between_drives}
use azure_s_sftp.FileWatcher.Moved.{IsSafe, move_file_between_drives-IsSafe}
use azure_s_sftp.Overlord.Scans.{Services, World, process_file, process_files}
use azure_s_sftp.Overlord.Homes.{home, home_cases, moved_to, process_file-files}
use azure_s_sftp.Overlord.Batches.{
  staged, IsPlacedAt, IsPlaced, IsElsewhere, IsOnce, below-staged, process_file-SameFile,
  process_files-SameFile,
}

-- None of the three directories' paths is the beginning of another.
abbrev pub IsSeparate : Config → Type 0
IsSeparate c =
    Apart c.clean_path c.staging_path
    × Apart c.quarantine_path c.staging_path
    × Apart c.clean_path c.quarantine_path

-- One of the two directories that files are moved to.
abbrev pub IsHome : Config → Text → Type 0
IsHome c to = (to ≡ c.clean_path) ⊎ (to ≡ c.quarantine_path)

pub home-IsHome :
    (sv : Services) (cs : ConfigService) (path to : Text)
    → home sv cs path ≡ some to
    → IsHome cs.config to
home-IsHome sv cs path to h = elim (home_cases sv cs path) [
  | inl n ↦ cc
  | inr (inl q) ↦ inr cc
  | inr (inr c) ↦ inl cc
]

module _ (sv : Services) (cs : ConfigService) (a : ℕ) (staging : Text)
    (is_staging : cs.config.staging_path ≡ a ∷ staging) (separate : IsSeparate cs.config) where
  IsHome-Apart : (to : Text) → IsHome cs.config to → Apart to cs.config.staging_path
  IsHome-Apart to (inl c) = rw c separate.0
  IsHome-Apart to (inr q) = rw q separate.1

  homes_apart :
      (to to' rest rest' : Text)
      → IsHome cs.config to
      → IsHome cs.config to'
      → rest ≢ rest'
      → to ++ rest ≢ to' ++ rest'
  homes_apart to to' rest rest' (inl c) (inl c') n e =
      n (append_cancel_left cs.config.clean_path rest rest' (rw (c, c') at e))
  homes_apart to to' rest rest' (inr q) (inr q') n e =
      n (append_cancel_left cs.config.quarantine_path rest rest' (rw (q, q') at e))
  homes_apart to to' rest rest' (inl c) (inr q) n e =
      Apart-append cs.config.clean_path cs.config.quarantine_path rest rest' separate.2
        (rw (c, q) at e)
  homes_apart to to' rest rest' (inr q) (inl c) n e =
      Apart-append cs.config.clean_path cs.config.quarantine_path rest' rest separate.2
        (sym (rw (q, c) at e))

  pub staged-IsElsewhere :
      (rest rest' : Text) → rest ≢ rest' → IsElsewhere sv cs (staged cs rest) rest'
  staged-IsElsewhere rest rest' n = (
    λ e. n (append_cancel_left cs.config.staging_path rest rest' e),
    λ to h e.
        Apart-append to cs.config.staging_path rest' rest
          (IsHome-Apart to (home-IsHome sv cs (staged cs rest') to h)) (sym e),
  )

  pub dest-IsElsewhere :
      (rest rest' to : Text)
      → IsHome cs.config to
      → rest ≢ rest'
      → IsElsewhere sv cs (to ++ rest) rest'
  dest-IsElsewhere rest rest' to at n = (
    Apart-append to cs.config.staging_path rest rest' (IsHome-Apart to at),
    λ to' h. homes_apart to to' rest rest' at (home-IsHome sv cs (staged cs rest') to' h) n,
  )

  process_file-IsPlaced :
      (w : World) (rest c : Text)
      → IsOnce cs rest
      → w.files.node (staged cs rest) ≡ some (file c)
      → IsPlaced sv cs rest c (process_file sv cs w (staged cs rest)).files
  process_file-IsPlaced w rest c once here = rw (process_file-files sv cs w (staged cs rest)) (
      at_home (home sv cs (staged cs rest))
        (λ to h. IsHome-Apart to (home-IsHome sv cs (staged cs rest) to h)))
    where
      placed :
          (to : Text) (r : Option Error × Files)
          → IsSafe (staged cs rest) (to ++ rest) c r
          → IsPlacedAt sv cs (some to) rest c r.1
      placed to (e, fs) (inl still) = inr still
      placed to (e, fs) (inr (x, there, left)) = inl (there, λ d h. cc)

      at_home :
          (h : Option Text)
          → ((to : Text) → h ≡ some to → Apart to cs.config.staging_path)
          → IsPlacedAt sv cs h rest c (moved_to sv cs (staged cs rest) w.files h)
      at_home none n = here
      at_home (some to) n =
          subst
            (λ dest.
              IsPlacedAt sv cs (some to) rest c
                (move_file_between_drives w.files (staged cs rest) dest).1)
            (sym (below-staged sv cs a staging is_staging rest to once))
            (placed to (move_file_between_drives w.files (staged cs rest) (to ++ rest)) (
              move_file_between_drives-IsSafe (staged cs rest) (to ++ rest) c
                (Apart-append to cs.config.staging_path rest rest (n to refl)) w.files here))

  IsPlaced-SameFile :
      (rest c : Text) (fs fs' : Files)
      → SameFile (staged cs rest) fs fs'
      → ((to : Text) → home sv cs (staged cs rest) ≡ some to → SameFile (to ++ rest) fs fs')
      → IsPlaced sv cs rest c fs
      → IsPlaced sv cs rest c fs'
  IsPlaced-SameFile rest c fs fs' same there = at_home (home sv cs (staged cs rest)) there
    where
      at_home :
          (h : Option Text)
          → ((to : Text) → h ≡ some to → SameFile (to ++ rest) fs fs')
          → IsPlacedAt sv cs h rest c fs
          → IsPlacedAt sv cs h rest c fs'
      at_home none s p = (same c).0 p
      at_home (some to) s (inl (x, left)) = inl ((s to refl c).0 x, λ d e. left d ((same d).1 e))
      at_home (some to) s (inr x) = inr ((same c).0 x)

  pub All-IsElsewhere :
      (q rest : Text) (rests : List Text)
      → ((r : Text) → rest ≢ r → IsElsewhere sv cs q r)
      → All (λ r. rest ≢ r) rests
      → All (IsElsewhere sv cs q) rests
  All-IsElsewhere q rest [] f h = tt
  All-IsElsewhere q rest (r ∷ rests) f h = (f r h.0, All-IsElsewhere q rest rests f h.1)

  -- Scanning and moving a batch loses no file of it, whatever fails. A file that clamd cannot
  -- be asked about is where it was, with its content. Every other file is at the same place
  -- below its directory and has left the staging directory, or its move failed and it is where
  -- it was.
  pub process_files-IsPlaced :
      (w : World) (before : List Text) (rest : Text) (after : List Text) (c : Text)
      → All (IsOnce cs) (before ++ (rest ∷ after))
      → All (λ r. rest ≢ r) before
      → All (λ r. rest ≢ r) after
      → w.files.node (staged cs rest) ≡ some (file c)
      → IsPlaced sv cs rest c
          (process_files sv cs w (map (staged cs) (before ++ (rest ∷ after)))).files
  unfolding process_files
  process_files-IsPlaced w [] rest after c once nb na here =
      let w' = process_file sv cs w (staged cs rest) in
      let w'' = process_files sv cs w' (map (staged cs) after) in
      IsPlaced-SameFile rest c w'.files w''.files
        (process_files-SameFile sv cs a staging is_staging w' after (staged cs rest) once.1
          (All-IsElsewhere (staged cs rest) rest after (staged-IsElsewhere rest) na))
        (λ to h. process_files-SameFile sv cs a staging is_staging w' after (to ++ rest) once.1 (
          All-IsElsewhere (to ++ rest) rest after
            (λ r. dest-IsElsewhere rest r to (home-IsHome sv cs (staged cs rest) to h)) na))
        (process_file-IsPlaced w rest c once.0 here)
  process_files-IsPlaced w (r ∷ before) rest after c once nb na here =
      process_files-IsPlaced (process_file sv cs w (staged cs r)) before rest after c once.1 nb.1 na
        ((process_file-SameFile sv cs a staging is_staging w r (staged cs rest) once.0
            (staged-IsElsewhere rest r nb.0) c).0
          here)
