-- ===== src/Tests/HostKeys.antt =====
-- The key of the server at concrete data.
use azure_s_sftp.Base.{
  ◌≡◌, refl, false, none, some, Text, codes, ◌==◌, if◌then◌else◌, Result, ok, is_not_exist,
}
use azure_s_sftp.Files.{
  folder, file, Files, stat, open_read, create, write, read_file, parent_exists, ancestors,
}
use azure_s_sftp.Service.HostKey.{
  returns, key_path, is_missing, prepare_key, generated_key, created_key, written_key, read_key,
  parsed_key, gen_ssh_key,
}
use azure_s_sftp.Service.KeyStays.{host_key_stays}

-- Only directories, and no key file yet.
abbrev before : Files
before = record {
  node = λ p. if p == key_path false then none else some folder;
  fault = λ c. none;
  partial = λ t. t;
}

-- After the first start, with another change to the file system.
abbrev after : Files
after = record before {
  node = λ p. if p == key_path false then some (file (codes "key 1")) else none;
}

abbrev parse : Text → Result Text
parse t = ok t

abbrev first_key : Files
first_key = record before {
  node = λ p.
      if key_path false == p
      then some (file (codes "key 1"))
      else if key_path false == p
      then some (file (codes ""))
      else if p == key_path false
      then none
      else some folder;
}

first_run :
    gen_ssh_key parse false before (ok (codes "key 1"))
    ≡ (returns (some (codes "key 1")), some first_key)
unfolding gen_ssh_key prepare_key is_missing stat is_not_exist generated_key created_key written_key
    create write read_key read_file open_read parsed_key parent_exists ancestors ◌==◌
first_run = refl

host_key_stays_example :
    gen_ssh_key parse false after (ok (codes "key 2"))
    ≡ (returns (some (codes "key 1")), some after)
unfolding ◌==◌
host_key_stays_example =
    host_key_stays parse false before first_key after (ok (codes "key 1")) (ok (codes "key 2"))
      (codes "key 1") refl first_run refl refl
