-- ===== src/Overlord/Refines.antt =====
-- The goroutines of a batch do what a plain loop over its files does, in the same order, and come
-- to an end.
use azure_s_sftp.Base.{
  ℕ, ◌+◌, ◌*◌, ◌<◌, ◌≡◌, ◌≢◌, refl, sym, ◌∙◌, ap, ◌⊎◌, inl, inr, List, [], ◌∷◌, ◌++◌, append-nil,
  append_assoc, Text, length, arith,
}
use azure_s_sftp.Config.Types.{ConfigService}
use azure_s_sftp.Overlord.Scans.{Services, World, process_file, process_files}
use azure_s_sftp.Overlord.Handling.{process_files-append}
use azure_s_sftp.Overlord.Pipeline.{
  Watcher, sending, awaiting, finished, Loop, selecting, signalling, Pipeline, start, Step, pick,
  result, scan_done, batch_done, Reach, here, next,
}

abbrev pub left : Watcher → Loop → ℕ
left (sending rest) l = 3 * length rest + 1
left (awaiting p rest) selecting = 3 * length rest + 3
left (awaiting p rest) signalling = 3 * length rest + 2
left finished l = 0

-- The steps that a batch can still take, at most.
abbrev pub steps_left : Pipeline → ℕ
steps_left s = left s.watcher s.loop

module _ (sv : Services) (cs : ConfigService) where
  process_files-snoc :
      (w : World) (done : List Text) (path : Text)
      → process_files sv cs w (done ++ (path ∷ []))
        ≡ process_file sv cs (process_files sv cs w done) path
  unfolding process_files
  process_files-snoc w done path = process_files-append sv cs w done (path ∷ [])

  module _ (files : List Text) (w : World) where
    -- Where a batch can stand: the files are the ones done, the one in work if any, and the rest,
    -- and the world is that of the loop over the ones done.
    pub data Stands (s : Pipeline) : Type 0 where
      between :
          (done rest : List Text)
          → files ≡ done ++ rest
          → s.watcher ≡ sending rest
          → s.loop ≡ selecting
          → s.scanning ≡ []
          → s.world ≡ process_files sv cs w done
          → Stands s
      in_scan :
          (done : List Text) (path : Text) (rest : List Text)
          → files ≡ done ++ (path ∷ rest)
          → s.watcher ≡ awaiting path rest
          → s.loop ≡ selecting
          → s.scanning ≡ path ∷ []
          → s.world ≡ process_files sv cs w done
          → Stands s
      handled :
          (done : List Text) (path : Text) (rest : List Text)
          → files ≡ done ++ (path ∷ rest)
          → s.watcher ≡ awaiting path rest
          → s.loop ≡ signalling
          → s.scanning ≡ []
          → s.world ≡ process_files sv cs w (done ++ (path ∷ []))
          → Stands s
      ended :
          s.watcher ≡ finished
          → s.loop ≡ selecting
          → s.scanning ≡ []
          → s.world ≡ process_files sv cs w files
          → Stands s

    single :
        (before : List Text) (x path : Text) (after : List Text)
        → path ∷ [] ≡ before ++ (x ∷ after)
        → (before ≡ []) × (x ≡ path) × (after ≡ [])
    single [] x path after e = ground arith
    single (b ∷ []) x path after e = cc
    single (b ∷ (c ∷ bs)) x path after e = cc

    not_empty : (before : List Text) (x : Text) (after : List Text) → before ++ (x ∷ after) ≢ []
    not_empty [] x after e = cc
    not_empty (b ∷ before) x after e = cc

    Step-Stands : (s t : Pipeline) → Step sv cs s t → Stands s → Stands t
    unfolding process_file
    Step-Stands s t (pick path rest a b e) (between done rest' f x y z v) =
        let same : rest' ≡ path ∷ rest = cc in
        in_scan done path rest (f ∙ ap (λ r. done ++ r) same) (cc) (cc) (cc) (cc)
    Step-Stands s t (pick path rest a b e) (in_scan done p r f x y z v) = cc
    Step-Stands s t (pick path rest a b e) (handled done p r f x y z v) = cc
    Step-Stands s t (pick path rest a b e) (ended x y z v) = cc
    Step-Stands s t (result before path after a b e) (between done r f x y z v) =
        absurd (not_empty before path after (sym a ∙ z))
    Step-Stands s t (result before path after a b e) (in_scan done p r f x y z v) =
        let (b0, same, a0) = single before path p after (sym z ∙ a) in
        handled done p r f (cc) (cc) (ap (λ q. q.scanning) e ∙ rw (b0, a0))
          (ap (λ q. q.world) e ∙ (rw (v, same) (sym (process_files-snoc w done p))))
    Step-Stands s t (result before path after a b e) (handled done p r f x y z v) = cc
    Step-Stands s t (result before path after a b e) (ended x y z v) =
        absurd (not_empty before path after (sym a ∙ z))
    Step-Stands s t (scan_done path rest a b e) (between done r f x y z v) = cc
    Step-Stands s t (scan_done path rest a b e) (in_scan done p r f x y z v) = cc
    Step-Stands s t (scan_done path rest a b e) (handled done p r f x y z v) =
        let same : rest ≡ r = cc in
        between (done ++ (p ∷ [])) rest
          (f ∙ (sym (append_assoc done (p ∷ []) r) ∙ ap (λ q. (done ++ (p ∷ [])) ++ q) (sym same)))
          (cc) (cc) (cc) (cc)
    Step-Stands s t (scan_done path rest a b e) (ended x y z v) = cc
    Step-Stands s t (batch_done a e) (between done r f x y z v) =
        let none_left : r ≡ [] = cc in
        ended (cc) (cc) (cc) (
          ap (λ q. q.world) e
          ∙ (v ∙ ap (process_files sv cs w) (sym (f ∙ rw (none_left, append-nil)))))
    Step-Stands s t (batch_done a e) (in_scan done p r f x y z v) = cc
    Step-Stands s t (batch_done a e) (handled done p r f x y z v) = cc
    Step-Stands s t (batch_done a e) (ended x y z v) = cc

    Reach-Stands : {t : Pipeline} → Reach sv cs (start files w) t → Stands t
    unfolding start process_files
    Reach-Stands here = between [] files refl refl refl refl refl
    Reach-Stands (next r st) = Step-Stands _ _ st (Reach-Stands r)

    -- In whatever order the goroutines take their steps: when the file watcher has reported the
    -- end of its batch, no scan is left running, and the file system and the posted requests are
    -- those of scanning and handling the files one after the other, in their order.
    pub Reach-process_files :
        (t : Pipeline)
        → Reach sv cs (start files w) t
        → t.watcher ≡ finished
        → (t.world ≡ process_files sv cs w files) × (t.scanning ≡ [])
    Reach-process_files t r h = at_end (Reach-Stands r)
      where
        at_end : Stands t → (t.world ≡ process_files sv cs w files) × (t.scanning ≡ [])
        at_end (between done rest f x y z v) = cc
        at_end (in_scan done p rest f x y z v) = cc
        at_end (handled done p rest f x y z v) = cc
        at_end (ended x y z v) = (v, z)

    advances :
        (s : Pipeline) → Stands s → (s.watcher ≡ finished) ⊎ ((t : Pipeline) × Step sv cs s t)
    advances s (between done [] f x y z v) = inr (_, batch_done x refl)
    advances s (between done (path ∷ rest) f x y z v) = inr (_, pick path rest x y refl)
    advances s (in_scan done path rest f x y z v) = inr (_, result [] path [] z y refl)
    advances s (handled done path rest f x y z v) = inr (_, scan_done path rest x y refl)
    advances s (ended x y z v) = inl x

    shrinks : (s t : Pipeline) → Step sv cs s t → Stands s → steps_left t < steps_left s
    shrinks s t (pick path rest a b e) k = rw (e, a, b) (omega arith)
    shrinks s t (result before path after a b e) (between done r f x y z v) =
        absurd (not_empty before path after (sym a ∙ z))
    shrinks s t (result before path after a b e) (in_scan done p r f x y z v) =
        rw (e, x, b) (omega arith)
    shrinks s t (result before path after a b e) (handled done p r f x y z v) = cc
    shrinks s t (result before path after a b e) (ended x y z v) =
        absurd (not_empty before path after (sym a ∙ z))
    shrinks s t (scan_done path rest a b e) k = rw (e, a, b) (omega arith)
    shrinks s t (batch_done a e) k = rw (e, a) (omega arith)

    -- A batch never gets stuck: until the file watcher has reported its end some step can be
    -- taken.
    pub Reach-advances :
        (s : Pipeline)
        → Reach sv cs (start files w) s
        → (s.watcher ≡ finished) ⊎ ((t : Pipeline) × Step sv cs s t)
    Reach-advances s r = advances s (Reach-Stands r)

    -- Each step that the goroutines of a batch take leaves fewer to take, so every schedule ends.
    pub Reach-shrinks :
        (s t : Pipeline)
        → Reach sv cs (start files w) s
        → Step sv cs s t
        → steps_left t < steps_left s
    Reach-shrinks s t r st = shrinks s t st (Reach-Stands r)
