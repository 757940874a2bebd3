-- ===== src/Files.antt =====
-- The calls of package os, filepath.Dir and io.Copy that the program moves files with, on a file
-- system that may fail at any call.
pub mod Laws
use azure_s_sftp.Base.{
  ℕ, ◌≡◌, Bool, true, false, not, ◌&&◌, List, [], ◌∷◌, ◌++◌, Option, none, some, Text, codes, ◌==◌,
  eqb, if◌then◌else◌, Error, Result, ok, err, enotdir, eexist, enoent,
}
use azure_s_sftp.FilePath.{slash}
use mathlib.Core.List.{reverse}

pub data Node : Type 0 where
  folder : Node
  file : Text → Node

-- A call that may fail.
pub data FileCall : Type 0 where
  on_stat on_open on_mkdir on_create on_remove on_write : Text → FileCall
  on_copy on_rename : Text → Text → FileCall

-- What is at each path; the error that a call meets beyond those that the tree gives rise to, such
-- as a missing permission or a full disk; and what a copy that fails has written of a content.
pub record Files : Type 0 where
  pub node : Text → Option Node
  pub fault : FileCall → Option Error
  pub partial : Text → Text

abbrev pub update : (Text → Option Node) → Text → Option Node → Text → Option Node
update f p v q = if p == q then v else f q

abbrev pub put : Files → Text → Option Node → Files
put fs p v = record fs { node = update fs.node p v }

-- `os.Stat`
unfoldable pub stat : Files → Text → Result Node
stat fs p = elim (fs.fault (FileCall.on_stat p)) [
  | some e ↦ err e
  | none ↦ elim (fs.node p) [ some n ↦ ok n | none ↦ err (Error.path_error (Error.errno enoent)) ]
]

-- The content that a file opened for reading holds; `none` is an error of `os.Open`, with the
-- error beside it.
unfoldable pub open_read : Files → Text → Result Node
open_read fs p = elim (fs.fault (FileCall.on_open p)) [
  | some e ↦ err e
  | none ↦ elim (fs.node p) [ some n ↦ ok n | none ↦ err (Error.path_error (Error.errno enoent)) ]
]

-- The directories above a path, the nearest first: what stands before each of its slashes.
prefixes : Text → Text → List Text → List Text
prefixes done [] acc = acc
prefixes done (c ∷ p) acc =
    prefixes (done ++ (c ∷ [])) p (if eqb c slash && not (done == []) then done ∷ acc else acc)

unfoldable pub ancestors : Text → List Text
unfolding prefixes
ancestors p = prefixes [] p []

-- The directory above a path, the first of the list, is there.
unfoldable pub parent_exists : Files → List Text → Bool
parent_exists fs [] = true
parent_exists fs (d ∷ ds) = elim (fs.node d) [
  | none ↦ false
  | some n ↦ elim n [ folder ↦ true | file c ↦ false ]
]

-- `os.Mkdir`
unfoldable pub mkdir : Files → Text → Result (Unit {0}) × Files
unfolding parent_exists ancestors
mkdir fs p = elim (fs.fault (FileCall.on_mkdir p)) [
  | some e ↦ (err e, fs)
  | none ↦ elim (fs.node p) [
    | some n ↦ (err (Error.path_error (Error.errno eexist)), fs)
    | none ↦
        if parent_exists fs (ancestors p)
        then (ok tt, put fs p (some folder))
        else (err (Error.path_error (Error.errno enoent)), fs)
  ]
]

unfoldable pub make_below : Text → Result (Unit {0}) × Files → Result (Unit {0}) × Files
make_below p (ok u, fs) = mkdir fs p
make_below p (err e, fs) = (err e, fs)

-- `os.MkdirAll` on a path and the directories above it, the nearest first: a directory that is
-- there ends the climb, a file in its place is an error, and what is missing is made from the top.
unfoldable pub mkdir_chain : Files → Text → List Text → Result (Unit {0}) × Files
mkdir_chain fs p [] = elim (fs.node p) [
  | some n ↦ elim n [
    | folder ↦ (ok tt, fs)
    | file c ↦ (err (Error.path_error (Error.errno enotdir)), fs)
  ]
  | none ↦ mkdir fs p
]
mkdir_chain fs p (d ∷ ds) = elim (fs.node p) [
  | some n ↦ elim n [
    | folder ↦ (ok tt, fs)
    | file c ↦ (err (Error.path_error (Error.errno enotdir)), fs)
  ]
  | none ↦ make_below p (mkdir_chain fs d ds)
]

unfoldable pub mkdir_all : Files → Text → Result (Unit {0}) × Files
unfolding mkdir_chain ancestors
mkdir_all fs p = mkdir_chain fs p (ancestors p)

-- `os.Create`: an empty file, also in place of a file that is there.
unfoldable pub create : Files → Text → Result (Unit {0}) × Files
unfolding parent_exists ancestors
create fs p = elim (fs.fault (FileCall.on_create p)) [
  | some e ↦ (err e, fs)
  | none ↦ elim (fs.node p) [
    | some n ↦ elim n [
      | folder ↦ (err (Error.path_error (Error.errno 21)), fs)
      | file c ↦ (ok tt, put fs p (some (file [])))
    ]
    | none ↦
        if parent_exists fs (ancestors p)
        then (ok tt, put fs p (some (file [])))
        else (err (Error.path_error (Error.errno enoent)), fs)
  ]
]

-- `io.Copy` from an open source, whose content it reads where it stands, to a file just created.
-- A directory cannot be read.
unfoldable pub copy : Files → Text → Text → Result (Unit {0}) × Files
copy fs to from = elim (fs.node from) [
  | none ↦ (err (Error.path_error (Error.errno enoent)), fs)
  | some n ↦ elim n [
    | folder ↦ (err (Error.path_error (Error.errno 21)), fs)
    | file c ↦ elim (fs.fault (FileCall.on_copy to from)) [
      | some e ↦ (err e, put fs to (some (file (fs.partial c))))
      | none ↦ (ok tt, put fs to (some (file c)))
    ]
  ]
]

-- `os.Remove`; that a directory is not empty is a fault.
unfoldable pub remove : Files → Text → Result (Unit {0}) × Files
remove fs p = elim (fs.fault (FileCall.on_remove p)) [
  | some e ↦ (err e, fs)
  | none ↦ elim (fs.node p) [
    | none ↦ (err (Error.path_error (Error.errno enoent)), fs)
    | some n ↦ (ok tt, put fs p none)
  ]
]

unfoldable pub renamed : Files → Text → Text → Node → Option Node → Result (Unit {0}) × Files
renamed fs from to n (some folder) = (err (Error.link_error (Error.errno eexist)), fs)
renamed fs from to n (some (file c)) = (ok tt, put (put fs from none) to (some n))
renamed fs from to n none = (ok tt, put (put fs from none) to (some n))

-- `os.Rename` of a file; a directory in the new place is an error.
unfoldable pub rename : Files → Text → Text → Result (Unit {0}) × Files
unfolding renamed
rename fs from to = elim (fs.fault (FileCall.on_rename from to)) [
  | some e ↦ (err e, fs)
  | none ↦ elim (fs.node from) [
    | none ↦ (err (Error.link_error (Error.errno enoent)), fs)
    | some n ↦ if from == to then (ok tt, fs) else renamed fs from to n (fs.node to)
  ]
]

-- The content of a whole file, as package ioutil reads it.
unfoldable pub read_file : Files → Text → Result Text
read_file fs p = elim (open_read fs p) [
  | err e ↦ err e
  | ok n ↦ elim n [ folder ↦ err (Error.path_error (Error.errno 21)) | file c ↦ ok c ]
]

-- A content is written to a file just created; a write that fails leaves a part of it.
unfoldable pub write : Files → Text → Text → Result (Unit {0}) × Files
write fs p content = elim (fs.fault (FileCall.on_write p)) [
  | some e ↦ (err e, put fs p (some (file (fs.partial content))))
  | none ↦ (ok tt, put fs p (some (file content)))
]
