-- ===== src/Auth/Service.antt =====
-- internal/auth/service.go: accounts. The verification of a secret is that of Auth/Password; the bytes
-- that are drawn at random are arguments.
pub mod Credentials
use simplecontainerregistry.Base.{
  ℕ, Bytes, codes, beq, Bool, true, false, ◌&&◌, ◌||◌, not, List, [], ◌∷◌, Option, none, some, ltb,
  is_nil, if◌then◌else◌, Result, ok, err, Error, failure, db_not_found, invalid_credentials,
}
use simplecontainerregistry.Domain.{User, status_active, role_admin}
use simplecontainerregistry.Storage.Disk.{Step, ◌>>=◌, lift, return, fail, then_do}
use simplecontainerregistry.Db.Tables.{Database, require}
use simplecontainerregistry.Db.Users.{
  CreateUserParams, valid_window, get_user_by_username, update_user_last_used, create_user,
}
use simplecontainerregistry.Db.Audit.{Base64, is_db_not_found}
use simplecontainerregistry.Auth.Password.{IdKey, verify_secret, hash_secret, generate_secret}

-- NotBefore is not after `now`, and ExpiresAt is.
unfoldable pub started : Option ℕ → ℕ → Bool
started none now = true
started (some time) now = not (ltb now time)

unfoldable pub unexpired : Option ℕ → ℕ → Bool
unexpired none now = true
unexpired (some time) now = ltb now time

-- The account is in use at a time.
abbrev pub usable : User → ℕ → Bool
usable user now =
    beq user.status status_active && (started user.not_before now && unexpired user.expires_at now)

-- errors.Is(err, db.ErrNotFound).
abbrev pub hide_not_found : {A : Type 0} → Result A → Result A
hide_not_found (ok a) = ok a
hide_not_found (err e) = if is_db_not_found e then err invalid_credentials else err e

abbrev pub hide_missing : {A : Type 0} → Result A × Database → Result A × Database
hide_missing (r, d) = (hide_not_found r, d)

-- A result as a value.
abbrev pub attempted : {A : Type 0} → Result A × Database → Result (Result A) × Database
attempted (r, d) = (ok r, d)

module _ (base64 : Base64) (id_key : IdKey) where
  -- The checks of Authenticate on the user that was found.
  unfoldable pub check_user : User → Bytes → ℕ → Result (Unit {0})
  unfolding verify_secret
  check_user user secret now =
      if not (beq user.status status_active)
      then err invalid_credentials
      else if not (started user.not_before now)
      then err invalid_credentials
      else if not (unexpired user.expires_at now)
      then err invalid_credentials
      else (elim (verify_secret base64 id_key secret user.secret_hash) [
        | err e ↦ err e
        | ok matches ↦ if matches then ok tt else err invalid_credentials
      ])

  unfoldable pub authenticate : Bytes → Bytes → ℕ → Step Database User
  unfolding check_user
  authenticate username secret now =
      (λ d. hide_missing (get_user_by_username username d)) >>= λ user.
      lift (check_user user secret now) >>= λ _.
      update_user_last_used user.id now >>= λ _. return user

  -- UserService.CreateUser: the user and the secret.
  unfoldable pub create_account :
      (Bytes → Bytes) → Bytes → Bytes → Bytes → CreateUserParams → ℕ → Step Database (User × Bytes)
  unfolding hash_secret generate_secret
  create_account encode_url random salt drawn params now = do
    _ ← lift (
        require (valid_window params.not_before params.expires_at)
          (codes "expires at must be after valid from"))
    hash ← lift (hash_secret base64 id_key salt (generate_secret encode_url drawn))
    user ← create_user random (record params { secret_hash = hash }) now
    return (user, generate_secret encode_url drawn)

  abbrev pub admin_params : Bytes → Bytes → CreateUserParams
  admin_params username hash = record {
    username = username;
    display_name = username;
    role = role_admin;
    secret_hash = hash;
    not_before = none;
    expires_at = none;
  }

  abbrev pub bootstrap_missing :
      Bytes → Bytes → Bytes → Bytes → ℕ → Result User → Step Database (Unit {0})
  unfolding hash_secret
  bootstrap_missing random salt username password now (ok user) = return tt
  bootstrap_missing random salt username password now (err e) =
      if not (is_db_not_found e)
      then fail e
      else (lift (hash_secret base64 id_key salt password) >>= λ hash.
          create_user random (admin_params username hash) now >>= λ _. return tt)

  unfoldable pub bootstrap_admin : Bytes → Bytes → Bytes → Bytes → ℕ → Step Database (Unit {0})
  unfolding hash_secret
  bootstrap_admin random salt username password now = do
    _ ← lift (
        require (not (is_nil username || is_nil password))
          (codes "bootstrap admin username and password are required"))
    found ← (λ d. attempted (get_user_by_username username d))
    bootstrap_missing random salt username password now found
