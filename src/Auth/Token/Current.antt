-- ===== src/Auth/Token/Current.antt =====
-- internal/auth/token.go: a token is worth what its user is at the time.
use simplecontainerregistry.Base.{
  ℕ, Bytes, beq, beq→eq, Bool, true, false, List, [], ◌∷◌, ◌≡◌, ◌≢◌, ◌⊎◌, refl, ap, ◌∙◌, sym, inl,
  inr, Option, none, some, keep, Bool-cases, arith, ok,
}
use simplecontainerregistry.Domain.{User, status_disabled}
use simplecontainerregistry.Db.Tables.{Database, first_row, scan_row, update_where, delete_where}
use simplecontainerregistry.Db.Users.{
  has_id, get_user, update_user, set_user_status, check_status, with_status, delete_user,
}
use simplecontainerregistry.Db.Atomic.{Reads, apply_Reads, atomic_steps, then_do-eq-ok}
use simplecontainerregistry.Db.Audit.{Base64, active_signing_key}
use simplecontainerregistry.Auth.Principal.{Principal}
use simplecontainerregistry.Auth.Service.{usable}
use simplecontainerregistry.Auth.Token.{Jwt, TokenService, Claims, parsed, principal_of, validate}

-- The principal is a user of the database who may be used, with the role that is stored.
abbrev pub IsCurrent : Database → ℕ → Principal → Type 0
IsCurrent d now p =
    (user : User) × (first_row (has_id p.user_id) d.users ≡ some user)
    × (usable user now ≡ true)
    × (p.role ≡ user.role)

first_row-holds :
    {A : Type 0} (p : A → Bool) (rows : List A) (row : A)
    → first_row p rows ≡ some row
    → p row ≡ true
unfolding first_row
first_row-holds p [] row h = cc h
first_row-holds p (x ∷ rows) row h = ground (arith, first_row-holds p rows row)

first_row-update_where :
    (id : Bytes) (f : User → User) (rows : List User)
    → ((user : User) → (f user).id ≡ user.id)
    → (user : User) → first_row (has_id id) (update_where (has_id id) f rows) ≡ some user
    → (old : User) × (user ≡ f old)
unfolding first_row update_where
first_row-update_where id f [] same user h = cc h
first_row-update_where id f (x ∷ rows) same user h = elim (Bool-cases (has_id id x)) [
  | inl e ↦ (x, ground (arith, same x))
  | inr e ↦ first_row-update_where id f rows same user (rw (e, e) at h)
]

first_row-delete_where :
    (id : Bytes) (rows : List User) → first_row (has_id id) (delete_where (has_id id) rows) ≡ none
unfolding first_row delete_where keep
first_row-delete_where id [] = refl
first_row-delete_where id (x ∷ rows) = ground (arith, first_row-delete_where id rows)

scan_row-ok : (row : Option User) (user : User) → scan_row row ≡ ok user → row ≡ some user
unfolding scan_row
scan_row-ok none user h = cc h
scan_row-ok (some row) user h = cc h

pub key-Reads : (base64 : Base64) → Reads (active_signing_key base64)
unfolding active_signing_key
key-Reads base64 = search atomic_steps

disabled : (user : User) (now : ℕ) → user.status ≡ status_disabled → usable user now ≡ false
unfolding beq
disabled user now h = rw h refl

module _ (base64 : Base64) (jwt : Jwt) (s : TokenService) where
  principal_of-usable :
      (user : User) (claims : Claims) (now : ℕ) (p : Principal)
      → principal_of base64 jwt s user claims now ≡ ok p
      → (usable user now ≡ true) × (p.user_id ≡ user.id) × (p.role ≡ user.role)
  unfolding principal_of
  principal_of-usable user claims now p h = (ground arith, ground arith, ground arith)

  IsCurrent-of :
      (d : Database) (user : User) (claims : Claims) (now : ℕ) (p : Principal)
      → first_row (has_id claims.subject) d.users ≡ some user
      → principal_of base64 jwt s user claims now ≡ ok p
      → IsCurrent d now p
  IsCurrent-of d user claims now p found h =
      let (fit, id, role) = principal_of-usable user claims now p h in
      let named : user.id ≡ claims.subject =
        beq→eq user.id claims.subject
          (first_row-holds (has_id claims.subject) d.users user found) in
      (user, ap (λ (i : Bytes). first_row (has_id i) d.users) (id ∙ named) ∙ found, fit, role)

  validate-IsCurrent :
      (raw : Bytes) (now : ℕ) (d : Database) (p : Principal)
      → (validate base64 jwt s raw now d).0 ≡ ok p
      → IsCurrent d now p
  unfolding validate get_user
  validate-IsCurrent raw now d p h =
      let (key, found_key, rest) = then_do-eq-ok (active_signing_key base64 d) _ p h in
      let (claims, found_claims, rest') =
        then_do-eq-ok
          (
            parsed base64 jwt s (jwt.parse key.secret raw s.service s.issuer now),
            (active_signing_key base64 d).1,
          )
          _ p rest in
      let (user, found_user, rest'') =
        then_do-eq-ok (get_user claims.subject (active_signing_key base64 d).1) _ p rest' in
      IsCurrent-of d user claims now p
        (ap (λ (e : Database). first_row (has_id claims.subject) e.users)
            (sym (apply_Reads (key-Reads base64) d))
          ∙ scan_row-ok _ user found_user)
        rest''

  disabled-Ended :
      (id raw : Bytes) (time now : ℕ) (d : Database) (p : Principal)
      → IsCurrent (set_user_status id status_disabled time d).1 now p
      → p.user_id ≢ id
  unfolding set_user_status check_status update_user beq
  disabled-Ended id raw time now d p (user, found, fit, role) same =
      let (old, changed) =
        first_row-update_where id (with_status status_disabled time) d.users (λ u. refl) user
          (rw same at found) in
      cc (fit, disabled user now (ap (λ (u : User). u.status) changed))

  deleted-Ended :
      (id raw : Bytes) (now : ℕ) (d : Database) (p : Principal)
      → IsCurrent (delete_user id d).1 now p
      → p.user_id ≢ id
  unfolding delete_user
  deleted-Ended id raw now d p (user, found, fit, role) same =
      cc (rw same at found, first_row-delete_where id d.users)

  -- A principal that a token is validated to is a user of the database who is active and in the time of
  -- validity at that moment, with the role that is stored there; and once a user was disabled, or
  -- deleted, no token is validated to that user.
  pub validate-Ended :
      (id raw : Bytes) (time now : ℕ) (before after : Database) (p : Principal)
      → (after ≡ (set_user_status id status_disabled time before).1)
        ⊎ (after ≡ (delete_user id before).1)
      → (validate base64 jwt s raw now after).0 ≡ ok p
      → IsCurrent after now p × (p.user_id ≢ id)
  validate-Ended id raw time now before after p (inl e) h =
      let current : IsCurrent after now p = validate-IsCurrent raw now after p h in
      (current, disabled-Ended id raw time now before p (rw e at current))
  validate-Ended id raw time now before after p (inr e) h =
      let current : IsCurrent after now p = validate-IsCurrent raw now after p h in
      (current, deleted-Ended id raw now before p (rw e at current))
