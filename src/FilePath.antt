-- ===== src/FilePath.antt =====
-- Package path/filepath on Unix, as far as the program calls it: Clean, Join, IsAbs, HasPrefix,
-- Base, Dir, Split and Ext, on paths as byte sequences.
pub mod Segments
pub mod Clean
pub mod Parts
use azure_s_sftp.Base.{
  ℕ, ◌≡◌, refl, Bool, true, false, ◌&&◌, ◌||◌, List, [], ◌∷◌, ◌++◌, Text, codes, ◌==◌, eqb,
  if◌then◌else◌, has_prefix,
}
use mathlib.Core.List.{reverse}

abbrev pub slash : ℕ
slash = 47

abbrev pub dot : ℕ
dot = 46

abbrev add_to_first : ℕ → List Text → List Text
add_to_first c [] = (c ∷ []) ∷ []
add_to_first c (seg ∷ segs) = (c ∷ seg) ∷ segs

-- The text between the slashes: `strings.Split(p, "/")`.
unfoldable pub split_slash : Text → List Text
split_slash [] = [] ∷ []
split_slash (c ∷ p) =
    let rest = split_slash p in if eqb c slash then [] ∷ rest else add_to_first c rest

unfoldable pub join_slash : List Text → Text
join_slash [] = []
join_slash (x ∷ []) = x
join_slash (x ∷ (y ∷ r)) = x ++ (slash ∷ join_slash (y ∷ r))

unfoldable pub is_abs : Text → Bool
is_abs [] = false
is_abs (c ∷ p) = eqb c slash

-- `..` on a path whose last segment stands first.
unfoldable pub pop : Bool → List Text → List Text
unfolding ◌==◌
pop rooted [] = if rooted then [] else codes ".." ∷ []
pop rooted (top ∷ stack) = if top == codes ".." then codes ".." ∷ top ∷ stack else stack

-- One segment of the path that `Clean` reads.
unfoldable pub push : Bool → Text → List Text → List Text
unfolding pop ◌==◌
push rooted seg stack =
    if seg == [] || seg == codes "."
    then stack
    else if seg == codes ".."
    then pop rooted stack
    else seg ∷ stack

unfoldable pub push_all : Bool → List Text → List Text → List Text
unfolding push
push_all rooted [] stack = stack
push_all rooted (seg ∷ segs) stack = push_all rooted segs (push rooted seg stack)

abbrev pub render : Bool → List Text → Text
render true segs = slash ∷ join_slash segs
render false [] = codes "."
render false (x ∷ r) = join_slash (x ∷ r)

-- `filepath.Clean`.
unfoldable pub clean : Text → Text
unfolding push_all split_slash join_slash is_abs
clean [] = codes "."
clean (c ∷ p) =
    let rooted = is_abs (c ∷ p) in
    render rooted (reverse (push_all rooted (split_slash (c ∷ p)) []))

-- `filepath.Join`: empty elements in front are passed over, and all empty gives an empty path.
unfoldable pub join : List Text → Text
unfolding clean join_slash
join [] = []
join ([] ∷ r) = join r
join ((c ∷ x) ∷ r) = clean (join_slash ((c ∷ x) ∷ r))

-- The bytes behind the last slash, of a path that is read backwards.
unfoldable pub last_segment : Text → Text → Text
last_segment acc [] = acc
last_segment acc (c ∷ r) = let rest = last_segment (c ∷ acc) r in if eqb c slash then acc else rest

unfoldable pub strip_slashes : Text → Text
strip_slashes [] = []
strip_slashes (c ∷ r) = let rest = strip_slashes r in if eqb c slash then rest else c ∷ r

-- `filepath.Base`.
unfoldable pub base : Text → Text
unfolding last_segment strip_slashes
base [] = codes "."
base (c ∷ p) = elim (strip_slashes (reverse (c ∷ p))) [
  | [] ↦ codes "/"
  | d ∷ r ↦ last_segment [] (d ∷ r)
]

-- A path that is read backwards, from its last slash on.
unfoldable pub from_slash : Text → Text
from_slash [] = []
from_slash (c ∷ r) = let rest = from_slash r in if eqb c slash then c ∷ r else rest

-- The directory that `filepath.Split` returns, its last slash included.
unfoldable pub split_dir : Text → Text
unfolding from_slash
split_dir p = reverse (from_slash (reverse p))

-- `filepath.Dir`.
unfoldable pub dir : Text → Text
unfolding clean split_dir
dir p = clean (split_dir p)

unfoldable pub ext_from : Text → Text → Text
ext_from acc [] = []
ext_from acc (c ∷ r) =
    let rest = ext_from (c ∷ acc) r in
    if eqb c slash then [] else if eqb c dot then c ∷ acc else rest

-- `filepath.Ext`.
unfoldable pub ext : Text → Text
unfolding ext_from
ext p = ext_from [] (reverse p)
