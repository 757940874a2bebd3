-- ===== src/FileWatcher/Frame.antt =====
-- What moving a file leaves of the other files, and when a move succeeds.
use azure_s_sftp.Base.{
  ◌≡◌, ◌≢◌, refl, sym, ◌∙◌, true, inl, inr, [], none, some, Text, Result, ok, err, Bool-cases,
}
use azure_s_sftp.FilePath.{dir}
use azure_s_sftp.Files.{
  Node, folder, file, Files, put, open_read, parent_exists, ancestors, mkdir_all, remove,
}
use azure_s_sftp.Files.Laws.{
  mkdir_all-Grows, put_self, put_ne, create-WritesOrFails, remove-WritesOrFails, copy-Writes,
  SameFile, SameFile-refl, SameFile-trans, put-SameFile, Grows-SameFile, IsFaultless,
  mkdir_all_done, stat_works, create_works, copy_works, remove_works,
}
use azure_s_sftp.FileWatcher.Move.{
  is_file_exist, removed, copied, copy_from, created, opened, gone, move_file_between_drives,
}

-- Every file but those at the two paths is kept, and none comes to be.
abbrev pub Keeps : Text → Text → Files → Files → Type 0
Keeps src dest fs fs' = (q : Text) → q ≢ src → q ≢ dest → SameFile q fs fs'

module _ (src dest : Text) where
  removed-Keeps : (fs : Files) → Keeps src dest fs (removed (remove fs src)).1
  unfolding removed
  removed-Keeps fs q out apart = elim (remove-WritesOrFails fs src) [
    | inl (e, r) ↦ rw r (SameFile-refl q fs)
    | inr r ↦ rw r (put-SameFile fs src q none out)
  ]

  copied-Keeps :
      (fs : Files) (source : Result Node)
      → Keeps src dest fs (copied src (copy_from fs dest src source)).1
  unfolding copied copy_from
  copied-Keeps fs (err e) q out apart = SameFile-refl q fs
  copied-Keeps fs (ok m) q out apart = elim (copy-Writes fs dest src) [
    | inl (e, r) ↦ rw r (SameFile-refl q fs)
    | inr (ok u, v, r) ↦
        let written = put fs dest v in
        rw r (
          SameFile-trans fs written (removed (remove written src)).1
            (put-SameFile fs dest q v apart) (removed-Keeps written q out apart))
    | inr (err e, v, r) ↦ rw r (put-SameFile fs dest q v apart)
  ]

  opened-Keeps :
      (fs : Files) (source : Result Node) → Keeps src dest fs (opened fs src dest source).1
  unfolding opened created
  opened-Keeps fs source q out apart =
      let mid = (mkdir_all fs (dir dest)).1 in
      let grown = Grows-SameFile q (mkdir_all-Grows fs (dir dest)) in
      let empty = put mid dest (some (file [])) in
      elim (create-WritesOrFails mid dest) [
        | inl (e, r) ↦ rw r grown
        | inr r ↦ rw r (
            SameFile-trans fs empty (copied src (copy_from empty dest src source)).1
              (SameFile-trans fs mid empty grown (put-SameFile mid dest q (some (file [])) apart))
              (copied-Keeps empty source q out apart))
      ]

  -- Whatever fails, a move changes no file but its source and its destination.
  pub move_file_between_drives-Keeps :
      (fs : Files) → Keeps src dest fs (move_file_between_drives fs src dest).1
  unfolding move_file_between_drives
  move_file_between_drives-Keeps fs q out apart = elim (Bool-cases (is_file_exist fs src)) [
    | inr missing ↦ rw missing (SameFile-refl q fs)
    | inl found ↦ elim (Bool-cases (gone (open_read fs src))) [
      | inl g ↦ rw (found, g) (SameFile-refl q fs)
      | inr g ↦ rw (found, g) (opened-Keeps fs (open_read fs src) q out apart)
    ]
  ]

  module _ (fs : Files) (c : Text) (apart : dest ≢ src) (clear : IsFaultless fs)
      (here : fs.node src ≡ some (file c)) (folder_there : fs.node (dir dest) ≡ some folder)
      (parent : parent_exists fs (ancestors dest) ≡ true) (free : fs.node dest ≢ some folder) where
    abbrev empty : Files
    empty = put fs dest (some (file []))

    abbrev full : Files
    full = put empty dest (some (file c))

    still : empty.node src ≡ some (file c)
    still = put_ne fs dest src (some (file [])) apart ∙ here

    still_full : full.node src ≡ some (file c)
    still_full = put_ne empty dest src (some (file c)) apart ∙ still

    opened_works : opened fs src dest (ok (file c)) ≡ (none, put full src none)
    unfolding opened created copied copy_from removed
    opened_works = rw (
      mkdir_all_done fs (dir dest) folder_there,
      create_works fs dest clear parent free,
      copy_works empty dest src c clear still,
      remove_works full src (file c) clear still_full,
    )

    exists : is_file_exist fs src ≡ true
    unfolding is_file_exist
    exists = rw ((stat_works fs src (file c) clear here).0, is_file_exist)

    move_works : move_file_between_drives fs src dest ≡ (none, put full src none)
    unfolding move_file_between_drives gone
    move_works = rw (exists, (stat_works fs src (file c) clear here).1) opened_works

    -- When no call meets an error beyond those that the tree gives rise to, the directory of the
    -- destination is there and the destination is not a directory itself, a file is moved.
    pub move_file_between_drives_works :
        let (e, fs') = move_file_between_drives fs src dest in
        (e ≡ none) × (fs'.node dest ≡ some (file c)) × (fs'.node src ≡ none)
    move_file_between_drives_works = rw move_works (
      refl,
      put_ne full src dest none (λ e. apart (sym e)) ∙ put_self empty dest (some (file c)),
      put_self full src none,
    )
