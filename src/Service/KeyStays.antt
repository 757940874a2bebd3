-- ===== src/Service/KeyStays.antt =====
-- The server keeps its host key from one start to the next.
use azure_s_sftp.Base.{
  ◌≡◌, refl, sym, ◌∙◌, ap, Bool, true, false, ◌⊎◌, inl, inr, [], Option, none, some, Text, Error,
  Result, ok, err, is_not_exist, Bool-cases, Option-cases, subst,
}
use azure_s_sftp.Files.{
  folder, file, FileCall, Files, put, stat, open_read, create, write, read_file, parent_exists,
  ancestors,
}
use azure_s_sftp.Files.Laws.{create-WritesOrFails, IsFaultless, create_works, put_self}
use azure_s_sftp.Service.HostKey.{
  KeyResult, exits, returns, key_path, is_missing, Prepared, written_key, created_key,
  generated_key, prepare_key, parsed_key, read_key, gen_ssh_key,
}

write_cases :
    (fs : Files) (p c : Text)
    → ((e : Error) × (d : Text) × (write fs p c ≡ (err e, put fs p (some (file d)))))
      ⊎ (write fs p c ≡ (ok tt, put fs p (some (file c))))
unfolding write
write_cases fs p c = elim (Option-cases (fs.fault (FileCall.on_write p))) [
  | inl h ↦ inr (rw (h, write))
  | inr (e, h) ↦ inl (e, fs.partial c, rw (h, write))
]

written :
    (fs : Files) (p c : Text)
    → fs.fault (FileCall.on_write p) ≡ none
    → write fs p c ≡ (ok tt, put fs p (some (file c)))
unfolding write
written fs p c h = rw (h, write)

-- A content that was read is there, and opening the file meets no error.
read_file_ok :
    (fs : Files) (p c : Text)
    → read_file fs p ≡ ok c
    → (fs.fault (FileCall.on_open p) ≡ none) × (fs.node p ≡ some (file c))
unfolding read_file open_read
read_file_ok fs p c h = elim (Option-cases (fs.fault (FileCall.on_open p))) [
  | inr (e, f) ↦ let x = rw (f, read_file) at h in absurd (cc)
  | inl f ↦ elim (Option-cases (fs.node p)) [
    | inl n ↦ let x = rw (f, n, read_file) at h in absurd (cc)
    | inr (folder, n) ↦ let x = rw (f, n, read_file) at h in absurd (cc)
    | inr (file d, n) ↦ let x = rw (f, n, read_file) at h in (f, n ∙ cc)
  ]
]

file_is_read :
    (fs : Files) (p c : Text)
    → fs.fault (FileCall.on_open p) ≡ none
    → fs.node p ≡ some (file c)
    → read_file fs p ≡ ok c
unfolding read_file open_read
file_is_read fs p c f n = rw (f, n, read_file)

file_not_missing :
    (fs : Files) (p c : Text)
    → fs.fault (FileCall.on_stat p) ≡ none
    → fs.node p ≡ some (file c)
    → is_missing fs p ≡ false
unfolding is_missing stat
file_not_missing fs p c f n = rw (f, n, is_missing)

abbrev prepared_files : Files → Prepared → Files
prepared_files fs (Prepared.key_file fs') = fs'
prepared_files fs Prepared.no_key = fs
prepared_files fs Prepared.gives_up = fs

-- Preparing the key file writes to no other state than the tree.
written-fault :
    (fs : Files) (p pem : Text) (fs' : Files)
    → created_key p pem (create fs p) ≡ Prepared.key_file fs'
    → fs'.fault ≡ fs.fault
unfolding created_key written_key
written-fault fs p pem fs' h = elim (create-WritesOrFails fs p) [
  | inl (e, c) ↦ let x = rw (c, created_key) at h in absurd (cc)
  | inr c ↦ elim (write_cases (put fs p (some (file []))) p pem) [
    | inl (e, d, w) ↦ let x = rw (c, w, created_key) at h in absurd (cc)
    | inr w ↦ let x = rw (c, w, created_key) at h in sym (ap (λ q. (prepared_files fs q).fault) x)
  ]
]

generated-fault :
    (fs : Files) (p : Text) (generated : Result Text) (fs' : Files)
    → generated_key fs p generated ≡ Prepared.key_file fs'
    → fs'.fault ≡ fs.fault
unfolding generated_key
generated-fault fs p (ok pem) fs' h = written-fault fs p pem fs' h
generated-fault fs p (err e) fs' h = cc

prepared-fault :
    (fs : Files) (p : Text) (generated : Result Text) (fs' : Files)
    → prepare_key fs p generated ≡ Prepared.key_file fs'
    → fs'.fault ≡ fs.fault
unfolding prepare_key
prepared-fault fs p generated fs' h = elim (Bool-cases (is_missing fs p)) [
  | inl m ↦ generated-fault fs p generated fs' (rw (m, prepare_key) at h)
  | inr n ↦
      let x : Prepared.key_file fs ≡ Prepared.key_file fs' = rw (n, prepare_key) at h in
      sym (ap (λ q. (prepared_files fs q).fault) x)
]

prepared_already :
    (fs : Files) (p : Text) (generated : Result Text)
    → is_missing fs p ≡ false
    → prepare_key fs p generated ≡ Prepared.key_file fs
unfolding prepare_key
prepared_already fs p generated h = rw h

missing : (fs : Files) (p : Text) → IsFaultless fs → fs.node p ≡ none → is_missing fs p ≡ true
unfolding is_missing stat is_not_exist
missing fs p clear h = rw (clear (FileCall.on_stat p), h, is_missing)

made :
    (fs : Files) (p pem : Text)
    → IsFaultless fs
    → fs.node p ≡ none
    → parent_exists fs (ancestors p) ≡ true
    → prepare_key fs p (ok pem)
      ≡ Prepared.key_file (put (put fs p (some (file []))) p (some (file pem)))
unfolding prepare_key generated_key created_key written_key
made fs p pem clear h parent =
    rw
      (
        missing fs p clear h,
        create_works fs p clear parent (λ e. cc),
        written (put fs p (some (file []))) p pem (clear (FileCall.on_write p)),
      )
      refl

abbrev files_or : Files → Option Files → Files
files_or fs none = fs
files_or fs (some fs') = fs'

abbrev signer_of : {Signer : Type 0} → KeyResult Signer → Option Signer
signer_of exits = none
signer_of (returns k) = k

module _ {Signer : Type 0} (parse_private_key : Text → Result Signer) where
  parsed_some :
      (r : Result Text) (k : Signer)
      → parsed_key parse_private_key r ≡ some k
      → (c : Text) × (r ≡ ok c)
  unfolding parsed_key
  parsed_some (ok c) k h = (c, refl)
  parsed_some (err e) k h = cc

  read_some :
      (p : Text) (prepared : Prepared) (k : Signer) (fs : Files)
      → read_key parse_private_key p prepared ≡ (returns (some k), some fs)
      → (prepared ≡ Prepared.key_file fs) × (parsed_key parse_private_key (read_file fs p) ≡ some k)
  unfolding read_key
  read_some p Prepared.no_key k fs h = cc
  read_some p Prepared.gives_up k fs h = cc
  read_some p (Prepared.key_file fs') k fs h =
      let same : fs' ≡ fs = ap (λ r. files_or fs' r.1) h in
      let parsed : parsed_key parse_private_key (read_file fs' p) ≡ some k =
        ap (λ r. signer_of r.0) h in
      (
        ap Prepared.key_file same,
        subst (λ x. parsed_key parse_private_key (read_file x p) ≡ some k) same parsed,
      )

  parsed :
      (pem : Text) (k : Signer)
      → parse_private_key pem ≡ ok k
      → parsed_key parse_private_key (ok pem) ≡ some k
  unfolding parsed_key
  parsed pem k h = rw (h, parsed_key)

  -- A server that got its key gets the same key at every later start, whatever new key could be
  -- made, as long as the key file and the errors of the file system are what they were, and asking
  -- for the file meets no error. The key file is not written again.
  pub host_key_stays :
      (windows : Bool) (fs fs' later : Files) (generated generated' : Result Text) (k : Signer)
      → fs.fault (FileCall.on_stat (key_path windows)) ≡ none
      → gen_ssh_key parse_private_key windows fs generated ≡ (returns (some k), some fs')
      → later.node (key_path windows) ≡ fs'.node (key_path windows)
      → later.fault ≡ fs.fault
      → gen_ssh_key parse_private_key windows later generated' ≡ (returns (some k), some later)
  unfolding gen_ssh_key read_key
  host_key_stays windows fs fs' later generated generated' k clear first same faults =
      let p = key_path windows in
      let (prepared, parsed) = read_some p (prepare_key fs p generated) k fs' first in
      let (c, readable) = parsed_some (read_file fs' p) k parsed in
      let (open_clear, there) = read_file_ok fs' p c readable in
      let fault' = prepared-fault fs p generated fs' prepared in
      let later_open : later.fault (FileCall.on_open p) ≡ none =
        ap (λ f. f (FileCall.on_open p)) (faults ∙ sym fault') ∙ open_clear in
      let later_stat : later.fault (FileCall.on_stat p) ≡ none =
        ap (λ f. f (FileCall.on_stat p)) faults ∙ clear in
      let still = same ∙ there in
      let reads = file_is_read later p c later_open still ∙ sym readable in
      rw (prepared_already later p generated' (file_not_missing later p c later_stat still)) (
        ap (λ r. (returns (parsed_key parse_private_key r), some later)) reads
        ∙ ap (λ o. (returns o, some later)) parsed)

  -- A server without a key file makes one at its first start, and gets the key that it made, when
  -- no call of the file system meets an error beyond those that the tree gives rise to and the
  -- directory of the key file is there.
  first_start :
      (windows : Bool) (fs : Files) (pem : Text) (k : Signer)
      → IsFaultless fs
      → fs.node (key_path windows) ≡ none
      → parent_exists fs (ancestors (key_path windows)) ≡ true
      → parse_private_key pem ≡ ok k
      → (fs' : Files) × (gen_ssh_key parse_private_key windows fs (ok pem)
          ≡ (returns (some k), some fs'))
        × (fs'.node (key_path windows) ≡ some (file pem))
  unfolding gen_ssh_key read_key
  first_start windows fs pem k clear gone parent parses =
      let p = key_path windows in
      let empty = put fs p (some (file [])) in
      let full = put empty p (some (file pem)) in
      let there = put_self empty p (some (file pem)) in
      let ready = made fs p pem clear gone parent in
      let readable = file_is_read full p pem (clear (FileCall.on_open p)) there in
      (
        full,
        rw ready (
            ap (λ r. (returns (parsed_key parse_private_key r), some full)) readable
            ∙ ap (λ o. (returns o, some full)) (parsed pem k parses)),
        there,
      )
