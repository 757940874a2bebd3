-- ===== src/SftpClient/Keys.antt =====
-- How a client logs in: `Connect` and the reading of its private key. The formats of keys are
-- those of crypto/x509, encoding/pem, golang.org/x/crypto/ssh and the copy of a reader of PuTTY's
-- keys in src/putty, parameters here.
use azure_s_sftp.Base.{
  String, Bool, false, not, List, [], ◌∷◌, ◌++◌, Option, none, some, Text, codes, ◌==◌,
  if◌then◌else◌, Error, Result, ok, err, ◌≡◌, refl, arith,
}

-- `pem.Block`, as far as it is read, and whether it is encrypted.
pub record PemBlock : Type 0 where
  pub kind : Text
  pub bytes : Text
  pub is_encrypted : Bool

pub record KeyTools (PrivateKey : Type 0) (Signer : Type 0) : Type 0 where
  pub read_file : Text → Result Text
  pub decode : Text → Option PemBlock
  pub decrypt_pem_block : PemBlock → Text → Result Text
  pub parse_pkcs1 : Text → Result PrivateKey
  pub parse_ec : Text → Result PrivateKey
  pub parse_dsa : Text → Result PrivateKey
  -- A PuTTY key file: its encryption, and its key with a passphrase or without one.
  pub putty_encryption : Text → Result Text
  pub putty_key : Text → Option Text → Result PrivateKey
  -- `ssh.NewSignerFromKey`; `none` is a nil key.
  pub new_signer : Option PrivateKey → Result Signer
  pub parse_private_key : Text → Result Signer

-- `fmt.Errorf` around an error.
abbrev pub failed : String → Error → Error
failed message e = Error.other (codes message)

unfoldable pub wrapped {ℓ} : {A : Type ℓ} → String → Result A → Result A
wrapped message (ok a) = ok a
wrapped message (err e) = err (failed message e)

unfoldable pub then_with {ℓ κ} : {A : Type ℓ} {B : Type κ} → Result A → (A → Result B) → Result B
then_with (ok a) f = f a
then_with (err e) f = err e

-- The ways to log in, in the order in which they are offered.
pub data AuthMethod (Signer : Type 0) : Type 0 where
  public_keys : Signer → AuthMethod Signer
  password : Text → AuthMethod Signer

abbrev to_option {ℓ} : {A : Type ℓ} → Result A → Option A
to_option (ok a) = some a
to_option (err e) = none

module _ {PrivateKey Signer : Type 0} (tools : KeyTools PrivateKey Signer) where
  unfoldable pub parse_pem_block : Text → Text → Result PrivateKey
  unfolding wrapped
  parse_pem_block kind bytes =
      if kind == codes "RSA PRIVATE KEY"
      then wrapped "Parsing PKCS private key failed" (tools.parse_pkcs1 bytes)
      else if kind == codes "EC PRIVATE KEY"
      then wrapped "Parsing EC private key failed" (tools.parse_ec bytes)
      else if kind == codes "DSA PRIVATE KEY"
      then wrapped "Parsing DSA private key failed" (tools.parse_dsa bytes)
      else err (Error.other (codes "Parsing private key failed, unsupported key type"))

  -- An error of an unencrypted key is logged, and a signer asked for with no key.
  unfoldable pub signer_from_ppk : Text → Text → Result Signer
  unfolding then_with
  signer_from_ppk path passphrase = then_with (tools.putty_encryption path) λ encryption.
      if not (encryption == codes "none")
      then then_with (tools.putty_key path (some passphrase)) (λ k. tools.new_signer (some k))
      else tools.new_signer (to_option (tools.putty_key path none))

  unfoldable pub signer_from_encrypted : PemBlock → Text → Result Signer
  unfolding wrapped then_with parse_pem_block
  signer_from_encrypted block passphrase =
      let decrypted =
        wrapped "Decrypting PEM block failed" (tools.decrypt_pem_block block passphrase) in
      then_with decrypted λ bytes.
        then_with (parse_pem_block block.kind bytes)
          λ key. wrapped "Creating signer from encrypted key failed" (tools.new_signer (some key))

  unfoldable pub signer_from_block : Text → PemBlock → Text → Result Signer
  unfolding wrapped signer_from_encrypted
  signer_from_block pem_bytes block passphrase =
      if block.is_encrypted
      then signer_from_encrypted block passphrase
      else wrapped "Parsing plain private key failed" (tools.parse_private_key pem_bytes)

  unfoldable pub get_signer_from_private_key : Text → Text → Text → Result Signer
  unfolding signer_from_ppk signer_from_block
  get_signer_from_private_key pem_bytes path passphrase = elim (tools.decode pem_bytes) [
    | none ↦ signer_from_ppk path passphrase
    | some block ↦ signer_from_block pem_bytes block passphrase
  ]

  unfoldable pub new_public_key_auth_method : Text → Text → Result (AuthMethod Signer)
  unfolding then_with get_signer_from_private_key
  new_public_key_auth_method path passphrase = then_with (tools.read_file path) λ bytes.
      then_with (get_signer_from_private_key bytes path passphrase)
        λ signer. ok (public_keys signer)

  -- The methods that `Connect` offers to the server.
  unfoldable pub auth_methods : Text → Text → Text → List (AuthMethod Signer)
  unfolding new_public_key_auth_method
  auth_methods pass path passphrase =
      (if not (path == [])
        then elim (new_public_key_auth_method path passphrase) [ ok m ↦ m ∷ [] | err e ↦ [] ]
        else [])
      ++ (password pass ∷ [])

  -- A key file that is not encrypted: in PEM form, or a PuTTY key that says so.
  pub data IsPlain (path : Text) : Type 0 where
    plain_pem :
        (bytes : Text) (block : PemBlock)
        → tools.read_file path ≡ ok bytes
        → tools.decode bytes ≡ some block
        → block.is_encrypted ≡ false
        → IsPlain path
    plain_putty :
        (bytes : Text)
        → tools.read_file path ≡ ok bytes
        → tools.decode bytes ≡ none
        → tools.putty_encryption path ≡ ok (codes "none")
        → IsPlain path

  by_block :
      (bytes pass : Text) (block : PemBlock) (p q : Text)
      → block.is_encrypted ≡ false
      → signer_from_block bytes block p ≡ signer_from_block bytes block q
  unfolding signer_from_block
  by_block bytes pass block p q h = ground (arith, h)

  -- A key that is not encrypted is offered whatever passphrase is configured for it: a wrong one
  -- does not keep it from being used.
  auth_methods-IsPlain :
      (pass path p q : Text) → IsPlain path → auth_methods pass path p ≡ auth_methods pass path q
  unfolding auth_methods ◌==◌
  auth_methods-IsPlain pass path p q (plain_pem bytes block r d e) =
      rw (r, auth_methods) (rw (d, auth_methods) (rw (by_block bytes pass block p q e) refl))
  auth_methods-IsPlain pass path p q (plain_putty bytes r d e) =
      rw (r, auth_methods) (rw (d, auth_methods) (rw (e, auth_methods) refl))
