-- ===== src/SftpClient/Download.antt =====
-- `DownloadFilesRecursive`: files come in under a name that ends in `.download`, and are renamed
-- when the function returns.
use azure_s_sftp.Base.{
  Bool, true, false, not, List, [], ◌∷◌, ◌++◌, Option, none, some, Text, codes, if◌then◌else◌,
  Error, Result, ok, err, replace_first,
}
use azure_s_sftp.FilePath.{join, base}
use azure_s_sftp.Files.{Node, file, FileCall, Files, put, create, remove, open_read, rename}
use azure_s_sftp.FileWatcher.Scavenge.{Visit}
use azure_s_sftp.SftpClient.{
  DownloaderConfig, Remote, is_dir_file_exist, create_local_dir,
  set_downloader_full_local_staging_and_remote_path,
}

abbrev pub download_ending : Text
download_ending = codes ".download"

-- An open file, and whether it can be written to.
unfoldable pub opened_as : Bool → Result (Unit {0}) × Files → Result Bool × Files
opened_as writable (ok u, fs) = (ok writable, fs)
opened_as writable (err e, fs) = (err e, fs)

unfoldable pub recreated : Text → Result (Unit {0}) × Files → Result Bool × Files
unfolding opened_as
recreated p (ok u, fs) = opened_as true (create fs p)
recreated p (err e, fs) = (err e, fs)

unfoldable pub reopened : Files → Result Node → Result Bool × Files
reopened fs (ok n) = (ok false, fs)
reopened fs (err e) = (err e, fs)

-- `io.Copy` from a remote file, by what reading it gives, into an open local file.
unfoldable pub receive :
    Files → Bool → Text → Text → Text × Option Error → Result (Unit {0}) × Files
receive fs false to from (bs, e) = (err (Error.errno 9), fs)
receive fs true to from (bs, e) = elim (fs.fault (FileCall.on_copy to from)) [
  | some f ↦ (err f, put fs to (some (file (fs.partial bs))))
  | none ↦ elim e [
    | some f ↦ (err f, put fs to (some (file bs)))
    | none ↦ (ok tt, put fs to (some (file bs)))
  ]
]

-- The file systems on both sides, and the files whose renaming is deferred, the latest first.
pub record Download (R : Type 0) : Type 0 where
  pub files : Files
  pub remote : R
  pub pending : List Text

-- Whether the walk goes on after a file, or the function returns.
pub data Outcome : Type 0 where
  go_on : Outcome
  return_with : Option Error → Outcome

-- `unMarkFileInDownloadingState`; an error is logged.
unfoldable pub unmark : Files → Text → Files
unmark fs p = (rename fs p (replace_first p download_ending [])).1

unfoldable pub unmark_all : Files → List Text → Files
unfolding unmark
unmark_all fs [] = fs
unmark_all fs (p ∷ ps) = unmark_all (unmark fs p) ps

module _ (c : DownloaderConfig) where
  unfoldable pub create_local_file : Files → Text → Result Bool × Files
  unfolding is_dir_file_exist opened_as recreated reopened
  create_local_file fs p =
      if not (is_dir_file_exist fs p)
      then opened_as true (create fs p)
      else if c.override_existing_file
      then recreated p (remove fs p)
      else reopened fs (open_read fs p)

  -- Where a remote file comes in.
  unfoldable pub local_download_path : Text → Text
  unfolding join base
  local_download_path path = join (c.full_local_staging_dir ∷ base path ∷ []) ++ download_ending

  module _ {R : Type 0} (rem : Remote R) where
    unfoldable pub deleted : Download R → Option Error × R → Outcome × Download R
    deleted d (none, r) = (Outcome.go_on, record d { remote = r })
    deleted d (some e, r) = (Outcome.return_with (some e), record d { remote = r })

    -- An error of the copy is not returned: what is returned is the earlier error, nil.
    unfoldable pub received :
        Download R → Text → Text → Result (Unit {0}) × Files → Outcome × Download R
    unfolding deleted
    received d path tmp (err e, fs) = (Outcome.return_with none, record d { files = fs })
    received d path tmp (ok u, fs) =
        let d' = record d { files = fs; pending = tmp ∷ d.pending } in
        if c.delete_remote_file_after_download
        then deleted d' (rem.remove d.remote path)
        else (Outcome.go_on, d')

    unfoldable pub local_created :
        Download R → Text → Text → Result Bool × Files → Outcome × Download R
    unfolding received receive
    local_created d path tmp (err e, fs) = (Outcome.return_with (some e), record d { files = fs })
    local_created d path tmp (ok writable, fs) =
        received (record d { files = fs }) path tmp
          (receive fs writable tmp path (rem.content d.remote path))

    unfoldable pub remote_opened : Download R → Text → Text → Option Error → Outcome × Download R
    unfolding local_created create_local_file
    remote_opened d path tmp (some e) = (Outcome.return_with (some e), d)
    remote_opened d path tmp none = local_created d path tmp (create_local_file d.files tmp)

    -- The body of the loop for a remote file.
    unfoldable pub download_file : Download R → Text → Outcome × Download R
    unfolding remote_opened local_download_path
    download_file d path =
        if not c.override_existing_file
        then (Outcome.return_with none, d)
        else remote_opened d path (local_download_path path) (rem.open_read d.remote path)

    -- The rest of the loop, unless it is left.
    unfoldable pub next :
        (Download R → Option Error × Download R) → Outcome × Download R → Option Error × Download R
    next rest (Outcome.go_on, d) = rest d
    next rest (Outcome.return_with e, d) = (e, d)

    -- The loop, by what the steps of the walk report.
    unfoldable pub download_loop : Download R → List Visit → Option Error × Download R
    unfolding download_file next
    download_loop d [] = (none, d)
    download_loop d (v ∷ visits) = elim v.error [
      | some e ↦ download_loop d visits
      | none ↦
          if v.is_dir
          then download_loop d visits
          else next (λ d'. download_loop d' visits) (download_file d v.path)
    ]

module _ {R : Type 0} (rem : Remote R) where
  -- What the function returns, and the file systems after its deferred calls.
  unfoldable pub finish : Option Error × Download R → Option Error × Files × R
  unfolding unmark_all
  finish (e, d) = (e, unmark_all d.files d.pending, d.remote)

  unfoldable pub download_files_recursive :
      DownloaderConfig → Files → R → List Visit → Option Error × Files × R
  unfolding download_loop finish
  download_files_recursive c fs r visits =
      let c' = set_downloader_full_local_staging_and_remote_path rem r c in
      finish (
        download_loop c' rem
          (record {
            files = create_local_dir fs c'.full_local_staging_dir;
            remote = r;
            pending = [];
          })
          visits)
