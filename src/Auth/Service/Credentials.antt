-- ===== src/Auth/Service/Credentials.antt =====
-- internal/auth/service.go: who is authenticated.
use simplecontainerregistry.Base.{
  ℕ, Bytes, beq_refl, Bool, true, false, List, [], ◌∷◌, ◌≡◌, ◌↔◌, refl, inl, inr, some, any,
  Option-cases, Result-cases, arith, ok,
}
use simplecontainerregistry.Domain.{User}
use simplecontainerregistry.Db.Tables.{Database, first_row, scan_row, require_affected}
use simplecontainerregistry.Db.Users.{
  has_id, has_username, get_user_by_username, update_user, update_user_last_used,
}
use simplecontainerregistry.Db.Audit.{Base64}
use simplecontainerregistry.Auth.Password.{IdKey, verify_secret}
use simplecontainerregistry.Auth.Service.{usable, check_user, authenticate}

-- A row that a query finds is among the rows.
pub first_row-any :
    {A : Type 0} (p q : A → Bool) (rows : List A) (row : A)
    → first_row p rows ≡ some row
    → q row ≡ true
    → any q rows ≡ true
unfolding first_row any
first_row-any p q [] row h held = cc h
first_row-any p q (x ∷ rows) row h held = ground (arith, first_row-any p q rows row)

module _ (base64 : Base64) (id_key : IdKey) where
  -- The user has the name, may be used, and the secret is verified.
  abbrev pub Authentic : Bytes → Bytes → ℕ → Database → User → Type 0
  Authentic username secret now d user =
      (first_row (has_username username) d.users ≡ some user)
      × (usable user now ≡ true)
      × (verify_secret base64 id_key secret user.secret_hash ≡ ok true)

  check_user-ok :
      (user : User) (secret : Bytes) (now : ℕ)
      → check_user base64 id_key user secret now ≡ ok tt
      → (usable user now ≡ true) × (verify_secret base64 id_key secret user.secret_hash ≡ ok true)
  unfolding check_user
  check_user-ok user secret now h =
      elim (Result-cases (verify_secret base64 id_key secret user.secret_hash)) [
        | inr (x, e) ↦ absurd (ground (arith, e))
        | inl (true, e) ↦ (ground (arith, e), e)
        | inl (false, e) ↦ absurd (ground (arith, e))
      ]

  ok-check_user :
      (user : User) (secret : Bytes) (now : ℕ)
      → usable user now ≡ true
      → verify_secret base64 id_key secret user.secret_hash ≡ ok true
      → check_user base64 id_key user secret now ≡ ok tt
  unfolding check_user
  ok-check_user user secret now h e = ground arith

  last_used :
      (username : Bytes) (now : ℕ) (d : Database) (user : User)
      → first_row (has_username username) d.users ≡ some user
      → (update_user_last_used user.id now d).0 ≡ ok tt
  unfolding update_user_last_used update_user require_affected
  last_used username now d user h =
      rw (first_row-any (has_username username) (has_id user.id) d.users user h (beq_refl user.id))
        refl

  authenticate_sound :
      (username secret : Bytes) (now : ℕ) (d : Database) (user : User)
      → (authenticate base64 id_key username secret now d).0 ≡ ok user
      → Authentic username secret now d user
  unfolding authenticate get_user_by_username scan_row
  authenticate_sound username secret now d user h =
      elim (Option-cases (first_row (has_username username) d.users)) [
        | inl missing ↦ absurd (cc (rw missing at h))
        | inr (found, e) ↦ elim (Result-cases (check_user base64 id_key found secret now)) [
          | inr (x, refused) ↦ absurd (cc (rw (e, refused) at h))
          | inl (done, passed) ↦
              let same : found ≡ user =
                cc (rw (e, passed, last_used username now d found e) at h) in
              let (fit, verified) = check_user-ok found secret now passed in
              rw (← same) (e, fit, verified)
        ]
      ]

  authenticate_complete :
      (username secret : Bytes) (now : ℕ) (d : Database) (user : User)
      → Authentic username secret now d user
      → (authenticate base64 id_key username secret now d).0 ≡ ok user
  unfolding authenticate get_user_by_username scan_row
  authenticate_complete username secret now d user (found, fit, verified) =
      rw (found, ok-check_user user secret now fit verified, last_used username now d user found)
        refl

  -- What the database is then.
  pub authenticate-eq :
      (username secret : Bytes) (now : ℕ) (d : Database) (user : User)
      → Authentic username secret now d user
      → authenticate base64 id_key username secret now d
        ≡ (ok user, (update_user_last_used user.id now d).1)
  unfolding authenticate get_user_by_username scan_row
  authenticate-eq username secret now d user (found, fit, verified) =
      rw (found, ok-check_user user secret now fit verified, last_used username now d user found)
        refl

  -- Authentication by a name and a secret succeeds exactly for the user of that name who is active, whose
  -- time of validity has begun and not ended, and against whose hash the secret is verified; and that
  -- user is the one returned.
  pub authenticate-Authentic :
      (username secret : Bytes) (now : ℕ) (d : Database) (user : User)
      → (((authenticate base64 id_key username secret now d).0 ≡ ok user)
          ↔ Authentic username secret now d user)
  authenticate-Authentic username secret now d user = (
    authenticate_sound username secret now d user,
    authenticate_complete username secret now d user,
  )
