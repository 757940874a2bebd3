-- ===== src/Server/Status.antt =====
-- The status codes of the protocol that errors are answered with.
use azure_s_sftp.Base.{
  ℕ, Option, none, some, eqb, if◌then◌else◌, Error, errno, path_error, link_error, fx, eof,
  not_exist, other, enoent,
}
use azure_s_sftp.Server.{Response, eperm}

abbrev pub fx_ok : ℕ
fx_ok = 0

abbrev pub fx_eof : ℕ
fx_eof = 1

abbrev pub fx_no_such_file : ℕ
fx_no_such_file = 2

abbrev pub fx_permission_denied : ℕ
fx_permission_denied = 3

abbrev pub fx_failure : ℕ
fx_failure = 4

abbrev pub fx_op_unsupported : ℕ
fx_op_unsupported = 8

unfoldable pub translate_errno : ℕ → ℕ
translate_errno n =
    if eqb n 0
    then fx_ok
    else if eqb n enoent
    then fx_no_such_file
    else if eqb n eperm
    then fx_permission_denied
    else fx_failure

abbrev path_error_code : Error → ℕ
path_error_code (errno n) = translate_errno n
path_error_code _ = fx_failure

unfoldable pub error_code : Error → ℕ
unfolding translate_errno
error_code (errno n) = translate_errno n
error_code (path_error e) = path_error_code e
error_code (link_error e) = fx_failure
error_code (fx n) = n
error_code eof = fx_eof
error_code not_exist = fx_no_such_file
error_code (other m) = fx_failure

-- The code of `statusFromError`'s answer.
unfoldable pub code_of : Option Error → ℕ
unfolding error_code
code_of none = fx_ok
code_of (some e) = error_code e

unfoldable pub status_from_error : ℕ → Option Error → Response
unfolding code_of
status_from_error id e = Response.status id (code_of e) e
