-- ===== src/SftpClient/Kept.antt =====
-- When the download of a file changes the server, and what the missing setting does.
use azure_s_sftp.Base.{
  ◌≡◌, refl, ap, Bool, true, false, not, ◌⊎◌, inl, inr, List, [], ◌∷◌, Option, none, some, Text,
  if◌then◌else◌, Error, Result, ok, err, arith, Bool-cases, Option-cases,
}
use azure_s_sftp.Files.{file, Files}
use azure_s_sftp.Files.Laws.{put_self}
use azure_s_sftp.FileWatcher.Scavenge.{Visit}
use azure_s_sftp.SftpClient.{DownloaderConfig, Remote}
use azure_s_sftp.SftpClient.Download.{
  Outcome, Download, receive, create_local_file, local_download_path, deleted, received,
  local_created, remote_opened, download_file, next, download_loop,
}

module _ (c : DownloaderConfig) {R : Type 0} (rem : Remote R) where
  -- How a download of one file may end, for the remote side: nothing has changed there, or the
  -- whole file was read, is in the local file system, and is to be renamed.
  abbrev pub Kept : Download R → Text → Text → Download R → Type 0
  Kept d path tmp d' =
      (d'.remote ≡ d.remote)
      ⊎ ((bs : Text) × (rem.content d.remote path ≡ (bs, none))
          × (d'.files.node tmp ≡ some (file bs))
          × (d'.pending ≡ tmp ∷ d.pending))

  receive_whole :
      (fs gs : Files) (u : Unit {0}) (b : Bool) (p from : Text) (r : Text × Option Error)
      → receive fs b p from r ≡ (ok u, gs)
      → (r.1 ≡ none) × (gs.node p ≡ some (file r.0))
  unfolding receive
  receive_whole fs gs u false p from (bs, e) h = cc
  receive_whole fs gs u true p from (bs, e) h = ground (arith, put_self fs p (some (file bs)))

  deleted-Kept :
      (d : Download R) (d' : Download R) (path tmp bs : Text) (r : Option Error × R)
      → rem.content d.remote path ≡ (bs, none)
      → d'.files.node tmp ≡ some (file bs)
      → d'.pending ≡ tmp ∷ d.pending
      → Kept d path tmp (deleted c rem d' r).1
  unfolding deleted
  deleted-Kept d d' path tmp bs (none, r) h f p = inr (bs, h, f, p)
  deleted-Kept d d' path tmp bs (some e, r) h f p = inr (bs, h, f, p)

  received-Kept :
      (d : Download R) (path tmp : Text) (r : Result (Unit {0}) × Files)
      → ((u : Unit {0}) (gs : Files)
          → r ≡ (ok u, gs)
          → ((rem.content d.remote path).1 ≡ none)
            × (gs.node tmp ≡ some (file (rem.content d.remote path).0)))
      → Kept d path tmp (received c rem d path tmp r).1
  unfolding received
  received-Kept d path tmp (err e, fs) w = inl refl
  received-Kept d path tmp (ok u, fs) w = elim (Bool-cases c.delete_remote_file_after_download) [
    | inl t ↦ rw t (
        deleted-Kept d (record d { files = fs; pending = tmp ∷ d.pending }) path tmp
          (rem.content d.remote path).0 (rem.remove d.remote path)
          (ap (λ e. ((rem.content d.remote path).0, e)) (w u fs refl).0) (w u fs refl).1 refl)
    | inr t ↦ rw t (inl refl)
  ]

  local_created-Kept :
      (d : Download R) (path tmp : Text) (r : Result Bool × Files)
      → Kept d path tmp (local_created c rem d path tmp r).1
  unfolding local_created
  local_created-Kept d path tmp (err e, fs) = inl refl
  local_created-Kept d path tmp (ok b, fs) =
      received-Kept (record d { files = fs }) path tmp
        (receive fs b tmp path (rem.content d.remote path))
        (λ u gs h. receive_whole fs gs u b tmp path (rem.content d.remote path) h)

  remote_opened-Kept :
      (d : Download R) (path tmp : Text) (e : Option Error)
      → Kept d path tmp (remote_opened c rem d path tmp e).1
  unfolding remote_opened
  remote_opened-Kept d path tmp (some e) = inl refl
  remote_opened-Kept d path tmp none =
      local_created-Kept d path tmp (create_local_file c d.files tmp)

  unless-Kept :
      (b : Bool) (d : Download R) (path tmp : Text) (o : Outcome × Download R)
      → Kept d path tmp o.1
      → Kept d path tmp (if not b then (Outcome.return_with none, d) else o).1
  unless-Kept true d path tmp o h = h
  unless-Kept false d path tmp o h = inl refl

  -- The download of one file leaves the server as it was, unless the file was read to its end
  -- without an error, all that was read is in the local file, and the renaming of that file is
  -- the next that is deferred: no error makes it remove a remote file that it does not have.
  pub download_file-Kept :
      (d : Download R) (path : Text)
      → Kept d path (local_download_path c path) (download_file c rem d path).1
  unfolding download_file
  download_file-Kept d path =
      unless-Kept c.override_existing_file d path _ _
        (remote_opened-Kept d path (local_download_path c path) (rem.open_read d.remote path))

  left_out :
      (b : Bool) (o : Outcome × Download R) (d : Download R)
      → b ≡ false
      → (if not b then (Outcome.return_with none, d) else o) ≡ (Outcome.return_with none, d)
  left_out true o d h = cc
  left_out false o d h = refl

  -- Without the setting `overrideExistingFile` nothing is downloaded at all, be there a local
  -- file or not: whatever the walk reports, the function returns no error, and the file systems
  -- on both sides are as before.
  download_loop_idle :
      (d : Download R) (visits : List Visit)
      → c.override_existing_file ≡ false
      → download_loop c rem d visits ≡ (none, d)
  unfolding download_loop next download_file
  download_loop_idle d [] h = refl
  download_loop_idle d (v ∷ visits) h = elim (Option-cases v.error) [
    | inr (e, g) ↦ rw g (download_loop_idle d visits h)
    | inl g ↦ elim (Bool-cases v.is_dir) [
      | inl t ↦ rw (g, t) (download_loop_idle d visits h)
      | inr t ↦
          rw (g, t)
            (ap (λ o. next c rem (λ d'. download_loop c rem d' visits) o)
              (left_out c.override_existing_file _ d h))
    ]
  ]
