-- ===== src/FileWatcher/Move.antt =====
-- `moveFileBetweenDrives` and `moveFileByStatus`.
use azure_s_sftp.Base.{
  Bool, true, false, Option, none, some, Text, if◌then◌else◌, Error, Result, ok, err, is_not_exist,
  replace_all,
}
use azure_s_sftp.FilePath.{dir}
use azure_s_sftp.Files.{Node, Files, stat, open_read, mkdir_all, create, copy, remove}
use azure_s_sftp.Config.Types.{Config}
use azure_s_sftp.Clamav.{ClamAvScanResult}

-- `isFileExist` of src/ssftp/utils.go.
unfoldable pub is_file_exist : Files → Text → Bool
unfolding stat
is_file_exist fs p = elim (stat fs p) [ ok n ↦ true | err e ↦ false ]

unfoldable pub removed : Result (Unit {0}) × Files → Option Error × Files
removed (ok u, fs) = (none, fs)
removed (err e, fs) = (some e, fs)

unfoldable pub copied : Text → Result (Unit {0}) × Files → Option Error × Files
copied src (err e, fs) = (some e, fs)
copied src (ok u, fs) = removed (remove fs src)

-- What is copied: nothing can be read from a source that was not opened, `invalid argument`.
unfoldable pub copy_from : Files → Text → Text → Result Node → Result (Unit {0}) × Files
copy_from fs dest src (ok n) = copy fs dest src
copy_from fs dest src (err e) = (err (Error.errno 22), fs)

unfoldable pub created :
    Text → Text → Result Node → Result (Unit {0}) × Files → Option Error × Files
created src dest source (err e, fs) = (some e, fs)
created src dest source (ok u, fs) = copied src (copy_from fs dest src source)

-- From the creation of the directories on; that this fails is not looked at.
unfoldable pub opened : Files → Text → Text → Result Node → Option Error × Files
opened fs src dest source = created src dest source (create (mkdir_all fs (dir dest)).1 dest)

unfoldable pub gone : Result Node → Bool
gone (ok n) = false
gone (err e) = is_not_exist e

unfoldable pub move_file_between_drives : Files → Text → Text → Option Error × Files
unfolding opened created copied copy_from removed
move_file_between_drives fs src dest =
    let source = open_read fs src in
    if is_file_exist fs src
    then if gone source then (none, fs) else opened fs src dest source
    else (none, fs)

-- The paths that `moveFileByStatus` computes.
unfoldable pub destination : Config → ClamAvScanResult → Text
destination c r =
    if r.virus_found
    then replace_all r.file_path c.staging_path c.quarantine_path
    else replace_all r.file_path c.staging_path c.clean_path

-- The destination and the file system after the move; an error of the move is logged only.
unfoldable pub move_file_by_status : Config → Files → ClamAvScanResult → Text × Files
unfolding destination
move_file_by_status c fs r =
    let dest = destination c r in (dest, (move_file_between_drives fs r.file_path dest).1)
