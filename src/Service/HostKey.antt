-- ===== src/Service/HostKey.antt =====
-- `genSSHKey` of src/ssftp/sftpservice.go: the key of the server, which is made when it is missing.
-- Making a key with its PEM encoding, and reading one, are parameters.
use azure_s_sftp.Base.{
  Bool, false, Option, none, some, Text, codes, if◌then◌else◌, Result, ok, err, is_not_exist,
}
use azure_s_sftp.Files.{Files, stat, create, write, read_file}

-- The process exits, or the function returns a signer or nil.
pub data KeyResult (Signer : Type 0) : Type 0 where
  exits : KeyResult Signer
  returns : Option Signer → KeyResult Signer

abbrev pub key_path : Bool → Text
key_path windows = if windows then codes "private.pem" else codes "/mnt/ssftp/system/private.pem"

-- `os.IsNotExist` on the error of `os.Stat`.
unfoldable pub is_missing : Files → Text → Bool
is_missing fs p = elim (stat fs p) [ ok n ↦ false | err e ↦ is_not_exist e ]

-- How the first half of the function ends: with nil, in an exit, or with a key file to be read.
pub data Prepared : Type 0 where
  no_key gives_up : Prepared
  key_file : Files → Prepared

unfoldable pub written_key : Result (Unit {0}) × Files → Prepared
written_key (ok u, fs) = Prepared.key_file fs
written_key (err e, fs) = Prepared.gives_up

unfoldable pub created_key : Text → Text → Result (Unit {0}) × Files → Prepared
created_key p pem (ok u, fs) = written_key (write fs p pem)
created_key p pem (err e, fs) = Prepared.gives_up

unfoldable pub generated_key : Files → Text → Result Text → Prepared
generated_key fs p (ok pem) = created_key p pem (create fs p)
generated_key fs p (err e) = Prepared.no_key

-- The key file, made if it is missing.
unfoldable pub prepare_key : Files → Text → Result Text → Prepared
prepare_key fs p generated =
    if is_missing fs p then generated_key fs p generated else Prepared.key_file fs

module _ {Signer : Type 0} (parse_private_key : Text → Result Signer) where
  -- The signer that the parser returns is nil beside an error. It is the error of reading the file
  -- that decides, not the parser's.
  unfoldable pub parsed_key : Result Text → Option Signer
  parsed_key (ok pem) = elim (parse_private_key pem) [ ok k ↦ some k | err e ↦ none ]
  parsed_key (err e) = none

  unfoldable pub read_key : Text → Prepared → KeyResult Signer × Option Files
  read_key p Prepared.no_key = (returns none, none)
  read_key p Prepared.gives_up = (exits, none)
  read_key p (Prepared.key_file fs) = (returns (parsed_key (read_file fs p)), some fs)

  -- The result, and the file system if the function got to reading the key.
  unfoldable pub gen_ssh_key : Bool → Files → Result Text → KeyResult Signer × Option Files
  gen_ssh_key windows fs generated =
      let p = key_path windows in read_key p (prepare_key fs p generated)
