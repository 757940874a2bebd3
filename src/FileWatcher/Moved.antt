-- ===== src/FileWatcher/Moved.antt =====
-- A file that is moved is never lost, and no other file is touched.
use azure_s_sftp.Base.{
  ◌≡◌, ◌≢◌, refl, sym, ◌∙◌, ◌⊎◌, inl, inr, Option, none, some, Text, Error, Result, ok, err,
  Bool-cases, [],
}
use azure_s_sftp.FilePath.{dir}
use azure_s_sftp.Files.{Node, file, Files, put, open_read, mkdir_all, remove}
use azure_s_sftp.Files.Laws.{
  mkdir_all-Grows, put_self, put_ne, create-WritesOrFails, remove-WritesOrFails, copy_cases,
}
use azure_s_sftp.FileWatcher.Move.{
  is_file_exist, removed, copied, copy_from, created, opened, gone, move_file_between_drives,
}

-- The file is still at its source, or the move reports no error and it is at its destination.
abbrev pub IsSafe : Text → Text → Text → Option Error × Files → Type 0
IsSafe src dest c (e, fs) =
    (fs.node src ≡ some (file c))
    ⊎ ((e ≡ none) × (fs.node dest ≡ some (file c)) × (fs.node src ≡ none))

module _ (src dest c : Text) (apart : dest ≢ src) where
  removed-IsSafe :
      (fs : Files)
      → fs.node dest ≡ some (file c)
      → fs.node src ≡ some (file c)
      → IsSafe src dest c (removed (remove fs src))
  unfolding removed
  removed-IsSafe fs there here = elim (remove-WritesOrFails fs src) [
    | inl (e, h) ↦ rw h (inl here)
    | inr h ↦
        rw h
          (inr (refl, put_ne fs src dest none (λ e. apart (sym e)) ∙ there, put_self fs src none))
  ]

  pub copied-IsSafe :
      (fs : Files) (source : Result Node)
      → fs.node src ≡ some (file c)
      → IsSafe src dest c (copied src (copy_from fs dest src source))
  unfolding copied copy_from
  copied-IsSafe fs (err e) here = inl here
  copied-IsSafe fs (ok n) here = elim (copy_cases fs dest src c here) [
    | inl (e, h) ↦ rw h (inl (put_ne fs dest src _ apart ∙ here))
    | inr h ↦ rw h (
        removed-IsSafe (put fs dest (some (file c))) (put_self fs dest _)
          (put_ne fs dest src _ apart ∙ here))
  ]

  opened-IsSafe :
      (fs : Files) (source : Result Node)
      → fs.node src ≡ some (file c)
      → IsSafe src dest c (opened fs src dest source)
  unfolding opened created
  opened-IsSafe fs source here =
      let mid = (mkdir_all fs (dir dest)).1 in
      let still = (mkdir_all-Grows fs (dir dest)).kept src (file c) here in
      elim (create-WritesOrFails mid dest) [
        | inl (e, h) ↦ rw h (inl still)
        | inr h ↦ rw h (
            copied-IsSafe (put mid dest (some (file []))) source
              (put_ne mid dest src _ apart ∙ still))
      ]

  -- Whatever fails, a file that is moved to another path keeps its content: it is still at its
  -- source, or the move reports no error, the destination has the content and the source is gone.
  pub move_file_between_drives-IsSafe :
      (fs : Files)
      → fs.node src ≡ some (file c)
      → IsSafe src dest c (move_file_between_drives fs src dest)
  unfolding move_file_between_drives
  move_file_between_drives-IsSafe fs here = elim (Bool-cases (is_file_exist fs src)) [
    | inr missing ↦ rw missing (inl here)
    | inl found ↦ elim (Bool-cases (gone (open_read fs src))) [
      | inl g ↦ rw (found, g) (inl here)
      | inr g ↦ rw (found, g) (opened-IsSafe fs (open_read fs src) here)
    ]
  ]
