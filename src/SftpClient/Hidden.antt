-- ===== src/SftpClient/Hidden.antt =====
-- What downloads leave alone on the local side.
use azure_s_sftp.Base.{
  ◌≡◌, ◌≢◌, refl, ◌∙◌, ap, Bool, true, false, not, ◌⊎◌, inl, inr, List, [], ◌∷◌, ◌++◌, Option, none,
  some, Text, if◌then◌else◌, Error, Result, ok, err, Bool-cases, Option-cases, eq_iff, ◌==◌, subst,
  ne_of_eq_false,
}
use mathlib.Core.List.{reverse-append}
use azure_s_sftp.FilePath.{ext, ext_from}
use azure_s_sftp.Files.{Node, FileCall, Files, put, create, remove, open_read}
use azure_s_sftp.Files.Laws.{put_ne, create-WritesOrFails, remove-WritesOrFails, WritesOrFails}
use azure_s_sftp.FileWatcher.Scavenge.{Visit, is_scavenged_file_download_state}
use azure_s_sftp.SftpClient.{DownloaderConfig, Remote, is_dir_file_exist}
use azure_s_sftp.SftpClient.Download.{
  download_ending, Outcome, Download, opened_as, recreated, reopened, receive, create_local_file,
  local_download_path, deleted, received, local_created, remote_opened, download_file, next,
  download_loop,
}

marked-download_state : (p : Text) → is_scavenged_file_download_state (p ++ download_ending) ≡ true
unfolding is_scavenged_file_download_state ext ext_from ◌==◌
marked-download_state p = rw (reverse-append p download_ending) refl

-- The second file system is the first, but for one path.
abbrev Only : Text → Files → Files → Type 0
Only p a b = (q : Text) → p ≢ q → b.node q ≡ a.node q

put-Only : (fs : Files) (p : Text) (v : Option Node) → Only p fs (put fs p v)
put-Only fs p v q n = put_ne fs p q v n

writes-Only :
    (fs : Files) (p : Text) (v : Option Node) (r : Result (Unit {0}) × Files)
    → WritesOrFails fs p v r
    → Only p fs r.1
writes-Only fs p v r (inl (e, h)) q n = ap (λ x. x.1.node q) h
writes-Only fs p v r (inr h) q n = ap (λ x. x.1.node q) h ∙ put_ne fs p q v n

create-Only : (fs : Files) (p : Text) → Only p fs (create fs p).1
create-Only fs p = writes-Only fs p _ _ (create-WritesOrFails fs p)

opened_as-files : (b : Bool) (r : Result (Unit {0}) × Files) → (opened_as b r).1 ≡ r.1
unfolding opened_as
opened_as-files b (ok u, fs) = refl
opened_as-files b (err e, fs) = refl

recreated-Only :
    (p : Text) (fs : Files) (r : Result (Unit {0}) × Files)
    → Only p fs r.1
    → Only p fs (recreated p r).1
unfolding recreated
recreated-Only p fs (ok u, gs) h q n =
    ap (λ x. x.node q) (opened_as-files true (create gs p)) ∙ (create-Only gs p q n ∙ h q n)
recreated-Only p fs (err e, gs) h q n = h q n

reopened-files : (fs : Files) (r : Result Node) → (reopened fs r).1 ≡ fs
unfolding reopened
reopened-files fs (ok n) = refl
reopened-files fs (err e) = refl

receive-Only :
    (fs : Files) (b : Bool) (p from : Text) (r : Text × Option Error)
    → Only p fs (receive fs b p from r).1
unfolding receive
receive-Only fs false p from (bs, e) q n = refl
receive-Only fs true p from (bs, e) q n = elim (Option-cases (fs.fault (FileCall.on_copy p from))) [
  | inr (f, h) ↦ rw (h, receive) (put_ne fs p q _ n)
  | inl h ↦ elim (Option-cases e) [
    | inr (f, g) ↦ rw (h, g, receive) (put_ne fs p q _ n)
    | inl g ↦ rw (h, g, receive) (put_ne fs p q _ n)
  ]
]

module _ (c : DownloaderConfig) where
  create_local_file-Only : (fs : Files) (p : Text) → Only p fs (create_local_file c fs p).1
  unfolding create_local_file
  create_local_file-Only fs p q n = elim (Bool-cases (is_dir_file_exist fs p)) [
    | inr t ↦ rw t (ap (λ x. x.node q) (opened_as-files true (create fs p)) ∙ create-Only fs p q n)
    | inl t ↦ elim (Bool-cases c.override_existing_file) [
      | inl o ↦
          rw (t, o)
            (recreated-Only p fs (remove fs p) (writes-Only fs p _ _ (remove-WritesOrFails fs p)) q
              n)
      | inr o ↦ rw (t, o) (ap (λ x. x.node q) (reopened-files fs (open_read fs p)))
    ]
  ]

  module _ {R : Type 0} (rem : Remote R) where
    deleted-files : (d : Download R) (r : Option Error × R) → (deleted c rem d r).1.files ≡ d.files
    unfolding deleted
    deleted-files d (none, r) = refl
    deleted-files d (some e, r) = refl

    received-files :
        (d : Download R) (path tmp : Text) (r : Result (Unit {0}) × Files)
        → (received c rem d path tmp r).1.files ≡ r.1
    unfolding received
    received-files d path tmp (err e, fs) = refl
    received-files d path tmp (ok u, fs) = elim (Bool-cases c.delete_remote_file_after_download) [
      | inl t ↦ rw t (
          deleted-files (record d { files = fs; pending = tmp ∷ d.pending })
            (rem.remove d.remote path))
      | inr t ↦ rw t
    ]

    local_created-Only :
        (d : Download R) (path tmp : Text) (r : Result Bool × Files)
        → Only tmp d.files r.1
        → Only tmp d.files (local_created c rem d path tmp r).1.files
    unfolding local_created
    local_created-Only d path tmp (err e, fs) h q n = h q n
    local_created-Only d path tmp (ok w, fs) h q n =
        ap (λ x. x.node q)
          (received-files (record d { files = fs }) path tmp
            (receive fs w tmp path (rem.content d.remote path)))
        ∙ (receive-Only fs w tmp path (rem.content d.remote path) q n ∙ h q n)

    remote_opened-Only :
        (d : Download R) (path tmp : Text) (e : Option Error)
        → Only tmp d.files (remote_opened c rem d path tmp e).1.files
    unfolding remote_opened
    remote_opened-Only d path tmp (some e) q n = refl
    remote_opened-Only d path tmp none q n =
        local_created-Only d path tmp (create_local_file c d.files tmp)
          (create_local_file-Only d.files tmp) q n

    unless-Only :
        (b : Bool) (p : Text) (d : Download R) (o : Outcome × Download R)
        → Only p d.files o.1.files
        → Only p d.files (if not b then (Outcome.return_with none, d) else o).1.files
    unless-Only true p d o h = h
    unless-Only false p d o h = λ q n. refl

    download_file-Only :
        (d : Download R) (path : Text)
        → Only (local_download_path c path) d.files (download_file c rem d path).1.files
    unfolding download_file
    download_file-Only d path =
        unless-Only c.override_existing_file _ d _
          (remote_opened-Only d path (local_download_path c path) (rem.open_read d.remote path))

    -- A path has what it had, or the file watcher takes it for a download.
    abbrev pub Hidden : Text → Files → Files → Type 0
    Hidden q a b = (b.node q ≡ a.node q) ⊎ (is_scavenged_file_download_state q ≡ true)

    Hidden-trans : (q : Text) (x y z : Files) → Hidden q x y → Hidden q y z → Hidden q x z
    Hidden-trans q x y z g (inr m) = inr m
    Hidden-trans q x y z (inr m) (inl e) = inr m
    Hidden-trans q x y z (inl f) (inl e) = inl (e ∙ f)

    download_file-Hidden :
        (d : Download R) (path q : Text) → Hidden q d.files (download_file c rem d path).1.files
    unfolding local_download_path
    download_file-Hidden d path q = elim (Bool-cases (local_download_path c path == q)) [
      | inl t ↦ inr (
          subst (λ p. is_scavenged_file_download_state p ≡ true) ((eq_iff _ q).0 t)
            (marked-download_state _))
      | inr t ↦ inl (download_file-Only d path q (ne_of_eq_false _ q t))
    ]

    next-Hidden :
        (q : Text) (fs : Files) (rest : Download R → Option Error × Download R)
        (o : Outcome × Download R)
        → Hidden q fs o.1.files
        → ((d : Download R) → Hidden q d.files (rest d).1.files)
        → Hidden q fs (next c rem rest o).1.files
    unfolding next
    next-Hidden q fs rest (Outcome.go_on, d) h g =
        Hidden-trans q fs d.files (rest d).1.files h (g d)
    next-Hidden q fs rest (Outcome.return_with e, d) h g = h

    -- When the loop over the remote files has ended, with whatever errors, every path of the local
    -- file system has what it had before, but for names that the file watcher takes for downloads
    -- and passes over.
    pub download_loop-Hidden :
        (d : Download R) (visits : List Visit) (q : Text)
        → Hidden q d.files (download_loop c rem d visits).1.files
    unfolding download_loop
    download_loop-Hidden d [] q = inl refl
    download_loop-Hidden d (v ∷ visits) q = elim (Option-cases v.error) [
      | inr (e, h) ↦ rw h (download_loop-Hidden d visits q)
      | inl h ↦ elim (Bool-cases v.is_dir) [
        | inl t ↦ rw (h, t) (download_loop-Hidden d visits q)
        | inr t ↦
            rw (h, t)
              (next-Hidden q d.files _ (download_file c rem d v.path)
                (download_file-Hidden d v.path q) (λ d'. download_loop-Hidden d' visits q))
      ]
    ]
