-- ===== src/Base/Errors.antt =====
-- Go's errors, as far as the program tells them apart, and calls that return a value or an error.
use azure_s_sftp.Base.Tests.{eqb}
use azure_s_sftp.Base.Strings.{Text}
use Prim.Native.Nat.{ℕ}
use mathlib.Core.Bool.{Bool, true, false, ◌||◌}
use mathlib.Core.Path.{◌≡◌, refl}
use mathlib.Core.Logic.{◌⊎◌, inl, inr}
use mathlib.Core.Option.{Option, none, some}

-- `errno` is a `syscall.Errno`, `path_error` and `link_error` wrap another error as
-- `*os.PathError` and `*os.LinkError` do, `fx` is package sftp's `fxerr`, and `eof` and
-- `not_exist` are `io.EOF` and `os.ErrNotExist`.
pub data Error : Type 0 where
  errno : ℕ → Error
  path_error : Error → Error
  link_error : Error → Error
  fx : ℕ → Error
  eof : Error
  not_exist : Error
  other : Text → Error

pub data Result {ℓ} (A : Type ℓ) : Type ℓ where
  ok : A → Result A
  err : Error → Result A

pub Result-cases {ℓ} :
    {A : Type ℓ} (r : Result A) → ((a : A) × (r ≡ ok a)) ⊎ ((e : Error) × (r ≡ err e))
Result-cases (ok a) = inl (a, refl)
Result-cases (err e) = inr (e, refl)

abbrev pub enoent : ℕ
enoent = 2

abbrev pub eexist : ℕ
eexist = 17

abbrev pub enotdir : ℕ
enotdir = 20

abbrev means_not_exist : Error → Bool
means_not_exist (errno n) = eqb n enoent
means_not_exist not_exist = true
means_not_exist _ = false

-- `os.IsNotExist`, which looks through one wrapping.
unfoldable pub is_not_exist : Error → Bool
is_not_exist (path_error e) = means_not_exist e
is_not_exist (link_error e) = means_not_exist e
is_not_exist (errno n) = eqb n enoent
is_not_exist not_exist = true
is_not_exist _ = false

-- The error of a call that returns an error alone: `none` is nil.
abbrev pub error_of {ℓ} : {A : Type ℓ} → Result A → Option Error
error_of (ok _) = none
error_of (err e) = some e

abbrev means_exist : Error → Bool
means_exist (errno n) = eqb n eexist || eqb n 39
means_exist _ = false

-- `os.IsExist`: EEXIST or ENOTEMPTY, also under a path or a link.
unfoldable pub is_exist : Error → Bool
is_exist (path_error e) = means_exist e
is_exist (link_error e) = means_exist e
is_exist (errno n) = eqb n eexist || eqb n 39
is_exist _ = false
