-- ===== src/Server/LongName.antt =====
-- `runLs` of src/pkgsftp/server_unix.go and `runLsTypeWord` of src/pkgsftp/server.go: the line of a
-- directory listing.
use azure_s_sftp.Base.{
  ℕ, zero, suc, ◌-◌, Bool, ◌&&◌, not, List, [], ◌∷◌, ◌++◌, none, some, Text, eqb, length,
  if◌then◌else◌,
}
use Prim.Native.Nat.{bit_and}
use azure_s_sftp.FilePath.{join}
use azure_s_sftp.Server.{FileMode, Stat, Info, Date, itoa}

abbrev dash : ℕ
dash = 45

unfoldable pub type_char : FileMode → ℕ
type_char mode =
    if mode.dir
    then 100
    else if mode.device
    then (if mode.char_device then 99 else 98)
    else if mode.symlink
    then 108
    else if mode.socket
    then 115
    else if mode.named_pipe
    then 112
    else dash

abbrev has_perm : FileMode → ℕ → Bool
has_perm mode bit = not (eqb (bit_and mode.perm bit) 0)

abbrev perm_char : FileMode → ℕ → ℕ → ℕ
perm_char mode bit c = if has_perm mode bit then c else dash

-- An execute permission with the bit that goes along with it.
abbrev exec_char : Bool → Bool → ℕ → ℕ → ℕ
exec_char x special lower upper =
    if x && special then lower else if special then upper else if x then 120 else dash

unfoldable pub run_ls_type_word : FileMode → Text
unfolding type_char
run_ls_type_word mode =
    type_char mode
    ∷ perm_char mode 256 114
    ∷ perm_char mode 128 119
    ∷ exec_char (has_perm mode 64) mode.setuid 115 83
    ∷ perm_char mode 32 114
    ∷ perm_char mode 16 119
    ∷ exec_char (has_perm mode 8) mode.setgid 115 83
    ∷ perm_char mode 4 114
    ∷ perm_char mode 2 119
    ∷ exec_char (has_perm mode 1) mode.sticky 116 84
    ∷ []

unfoldable pub repeated : ℕ → ℕ → Text
repeated zero c = []
repeated (suc n) c = c ∷ repeated n c

-- The verbs of package fmt with a width: `%4d` and `%5s`, `%-8s`, and `%02d`.
abbrev right : ℕ → Text → Text
right width t = repeated (width - length t) 32 ++ t

abbrev left : ℕ → Text → Text
left width t = t ++ repeated (width - length t) 32

abbrev zeros : ℕ → Text → Text
zeros width t = repeated (width - length t) 48 ++ t

-- The year of an old file, the time of another.
unfoldable pub year_or_time : Date → Text
unfolding repeated itoa
year_or_time d =
    if d.is_old then itoa d.year else zeros 2 (itoa d.hour) ++ (58 ∷ zeros 2 (itoa d.minute))

-- Texts with a space between each two.
unfoldable pub spaced : List Text → Text
spaced [] = []
spaced (t ∷ []) = t
spaced (t ∷ (u ∷ ts)) = t ++ (32 ∷ spaced (u ∷ ts))

unfoldable pub run_ls_statt : (ℕ → Date) → Info → Stat → Text
unfolding run_ls_type_word repeated itoa year_or_time spaced
run_ls_statt date dirent statt =
    let d = date dirent.mtime in
    spaced (
      run_ls_type_word dirent.mode
      ∷ right 4 (itoa statt.nlink)
      ∷ left 8 (itoa statt.uid)
      ∷ left 8 (itoa statt.gid)
      ∷ right 8 (itoa dirent.size)
      ∷ d.month
      ∷ right 2 (itoa d.day)
      ∷ right 5 (year_or_time d)
      ∷ dirent.name
      ∷ [])

unfoldable pub run_ls : (ℕ → Date) → Text → Info → Text
unfolding run_ls_statt join
run_ls date dirname dirent = elim dirent.sys [
  | none ↦ join (dirname ∷ dirent.name ∷ [])
  | some statt ↦ run_ls_statt date dirent statt
]
