-- ===== src/User/Auth.antt =====
-- Who is let in: the first account that fits, and nobody else.
use azure_s_sftp.Base.{
  ◌≡◌, refl, Bool, true, false, ◌&&◌, inl, inr, List, [], ◌∷◌, Option, none, some, Text, ◌==◌,
  if◌then◌else◌, Error, Result, ok, err, All, Bool-cases, eq_sound,
}
use azure_s_sftp.User.{
  User, UserGov, no_user, accepts, auth_pass_loop, auth_pass, check_key, auth_public_key_loop,
  auth_public_key,
}

-- The account is in the list, and the test fails for every account before it.
pub data FirstFit (test : User → Bool) (u : User) : List User → Type 0 where
  here : (us : List User) → test u ≡ true → FirstFit test u (u ∷ us)
  later :
      (v : User) (us : List User) → test v ≡ false → FirstFit test u us → FirstFit test u (v ∷ us)

pub FirstFit-accepts :
    {test : User → Bool} {u : User} {us : List User} → FirstFit test u us → test u ≡ true
FirstFit-accepts (here us h) = h
FirstFit-accepts (later v us h f) = FirstFit-accepts f

-- How a login by password ends.
abbrev pub PassOutcome : Text → Text → List User → User × Bool → Type 0
PassOutcome name pass us (u, true) = FirstFit (accepts name pass) u us
PassOutcome name pass us (u, false) = (u ≡ no_user) × All (λ v. accepts name pass v ≡ false) us

auth_pass_cons :
    (name pass : Text) (v : User) (us : List User) (b : Bool) (r : User × Bool)
    → accepts name pass v ≡ b
    → PassOutcome name pass us r
    → PassOutcome name pass (v ∷ us) (if b then (v, true) else r)
auth_pass_cons name pass v us true r h rest = here us h
auth_pass_cons name pass v us false (u, true) h rest = later v us h rest
auth_pass_cons name pass v us false (u, false) h rest = (rest.0, (h, rest.1))

auth_pass_loop-PassOutcome :
    (us : List User) (name pass : Text) → PassOutcome name pass us (auth_pass_loop us name pass)
unfolding auth_pass_loop
auth_pass_loop-PassOutcome [] name pass = (refl, tt)
auth_pass_loop-PassOutcome (v ∷ us) name pass =
    auth_pass_cons name pass v us _ _ refl (auth_pass_loop-PassOutcome us name pass)

-- A login by password gives the first account with that name and that password, and is refused,
-- with the empty account, exactly if there is none.
pub auth_pass-PassOutcome :
    (ug : UserGov) (name pass : Text) → PassOutcome name pass ug.users (auth_pass ug name pass)
unfolding auth_pass
auth_pass-PassOutcome ug name pass = auth_pass_loop-PassOutcome ug.users name pass

module _ {Key : Type 0} (parse_authorized_key : Text → Result Key) (marshal : Key → Text) where
  -- The key on file cannot be read, or it is the one offered.
  abbrev pub decides : Result Key → Key → Bool
  decides (err e) key = true
  decides (ok k) key = marshal k == marshal key

  -- The account ends the loop: it has the name, and its key decides.
  abbrev pub settles : Text → Key → User → Bool
  settles name key v =
      v.auth.username == name && decides (parse_authorized_key v.auth.public_key) key

  -- How a login by public key ends.
  abbrev pub KeyOutcome : Text → Key → List User → User × Bool × Option Error → Type 0
  KeyOutcome name key us (u, true, none) =
      FirstFit (settles name key) u us
      × ((k : Key) × (parse_authorized_key u.auth.public_key ≡ ok k) × (marshal k ≡ marshal key))
  KeyOutcome name key us (u, true, some e) = ⊥
  KeyOutcome name key us (u, false, some e) =
      FirstFit (settles name key) u us × (parse_authorized_key u.auth.public_key ≡ err e)
  KeyOutcome name key us (u, false, none) = (u ≡ no_user) × All (λ v. settles name key v ≡ false) us

  KeyOutcome-later :
      (name : Text) (key : Key) (v : User) (us : List User) (r : User × Bool × Option Error)
      → settles name key v ≡ false
      → KeyOutcome name key us r
      → KeyOutcome name key (v ∷ us) r
  KeyOutcome-later name key v us (u, true, none) h (f, k) = (later v us h f, k)
  KeyOutcome-later name key v us (u, true, some e) h o = o
  KeyOutcome-later name key v us (u, false, some e) h (f, k) = (later v us h f, k)
  KeyOutcome-later name key v us (u, false, none) h (z, a) = (z, (h, a))

  check_key-KeyOutcome :
      (name : Text) (key : Key) (v : User) (us : List User) (r : User × Bool × Option Error)
      → (v.auth.username == name) ≡ true
      → (p : Result Key) → parse_authorized_key v.auth.public_key ≡ p
      → KeyOutcome name key us r
      → KeyOutcome name key (v ∷ us) (check_key parse_authorized_key marshal v p key r)
  check_key-KeyOutcome name key v us r n (err e) h rest = (here us (rw (n, h)), h)
  check_key-KeyOutcome name key v us r n (ok k) h rest =
      elim (Bool-cases (marshal k == marshal key)) [
        | inl same ↦ rw same (here us (rw (n, h) same), (k, h, eq_sound _ _ same))
        | inr differs ↦ rw differs (KeyOutcome-later name key v us r (rw (n, h) differs) rest)
      ]

  auth_public_key_loop-KeyOutcome :
      (us : List User) (name : Text) (key : Key)
      → KeyOutcome name key us (auth_public_key_loop parse_authorized_key marshal us name key)
  unfolding auth_public_key_loop
  auth_public_key_loop-KeyOutcome [] name key = (refl, tt)
  auth_public_key_loop-KeyOutcome (v ∷ us) name key = elim (Bool-cases (v.auth.username == name)) [
    | inl n ↦ rw n (
        check_key-KeyOutcome name key v us _ n _ refl (auth_public_key_loop-KeyOutcome us name key))
    | inr n ↦
        rw n (KeyOutcome-later name key v us _ (rw n) (auth_public_key_loop-KeyOutcome us name key))
  ]

  -- A login by public key ends at the first account with that name whose key cannot be read or is
  -- the one offered: with that account if it is the one offered, with the parser's error if it
  -- cannot be read. It is refused without an error, with the empty account, if there is none.
  pub auth_public_key-KeyOutcome :
      (ug : UserGov) (name : Text) (key : Key)
      → KeyOutcome name key ug.users (auth_public_key parse_authorized_key marshal ug name key)
  unfolding auth_public_key
  auth_public_key-KeyOutcome ug name key = auth_public_key_loop-KeyOutcome ug.users name key
