-- ===== src/Auth/Token/Minted.antt =====
-- internal/auth/token.go: a token that was minted is validated.
use simplecontainerregistry.Base.{
  ℕ, ◌+◌, ◌-◌, ◌*◌, ◌≤◌, ◌<◌, Bytes, true, List, ◌≡◌, refl, ap, ◌∙◌, inl, some, In, Result, ok,
  arith,
}
use simplecontainerregistry.Domain.{User, SigningKey}
use simplecontainerregistry.Db.Tables.{Database, first_row, scan_row}
use simplecontainerregistry.Db.Atomic.{apply_Reads, then_do-ok}
use simplecontainerregistry.Db.Users.{has_id, get_user}
use simplecontainerregistry.Db.Audit.{Base64, active_signing_key}
use simplecontainerregistry.Auth.Scope.{AccessClaim}
use simplecontainerregistry.Auth.Principal.{Principal}
use simplecontainerregistry.Auth.Service.{usable}
use simplecontainerregistry.Auth.Token.{
  Jwt, TokenService, second, Claims, claims_of, mint, parsed, principal_of, validate,
}
use simplecontainerregistry.Auth.Token.Current.{key-Reads}

-- What package jwt promises of the token with some claims: it is parsed to them with the secret that it
-- was signed with, the issuer and an audience that it names, from `not_before` on and before `expires_at`.
abbrev pub ParsesSigned : Jwt → Claims → Type 0
ParsesSigned jwt claims =
    (secret kid service issuer : Bytes) (now : ℕ)
    → claims.issuer ≡ issuer
    → In service claims.audience
    → claims.not_before ≤ now
    → now < claims.expires_at
    → jwt.parse secret (jwt.sign secret kid claims) service issuer now ≡ some claims

abbrev pub principal_for : User → List AccessClaim → Principal
principal_for user access = record {
  user_id = user.id;
  username = user.username;
  role = user.role;
  access = access;
}

module _ (base64 : Base64) (jwt : Jwt) (s : TokenService) where
  usable-principal_of :
      (user : User) (claims : Claims) (now : ℕ)
      → usable user now ≡ true
      → principal_of base64 jwt s user claims now ≡ ok (principal_for user claims.access)
  unfolding principal_of
  usable-principal_of user claims now h = ground arith

  earlier :
      {now later : ℕ}
      → ((time : ℕ) → jwt.numeric_date time ≤ time)
      → now ≤ later
      → jwt.numeric_date (now - 5 * second) ≤ later
  earlier {now} truncates from = ground (arith, truncates (now - 5 * second))

  -- The token that Mint signs.
  abbrev pub signed : SigningKey → Bytes → User → List AccessClaim → ℕ → Bytes
  signed key random user access now =
      jwt.sign key.secret key.id (claims_of jwt s random user access now)

  pub mint-signed :
      (random : Bytes) (user : User) (access : List AccessClaim) (now : ℕ) (d : Database)
      (key : SigningKey)
      → (active_signing_key base64 d).0 ≡ ok key
      → mint base64 jwt s random user access now d
        ≡ (ok (signed key random user access now, now + s.ttl), d)
  unfolding mint
  mint-signed random user access now d key has_key =
      then_do-ok (active_signing_key base64 d) _ key d has_key (apply_Reads (key-Reads base64) d)

  -- The user is what the database has at the time of the validation.
  pub validate-signed :
      (random : Bytes) (user stored : User) (access : List AccessClaim) (now later : ℕ)
      (d : Database) (key : SigningKey)
      → ((time : ℕ) → jwt.numeric_date time ≤ time)
      → ParsesSigned jwt (claims_of jwt s random user access now)
      → (active_signing_key base64 d).0 ≡ ok key
      → first_row (has_id user.id) d.users ≡ some stored
      → usable stored later ≡ true
      → now ≤ later
      → later < jwt.numeric_date (now + s.ttl)
      → (validate base64 jwt s (signed key random user access now) later d).0
        ≡ ok (principal_for stored access)
  unfolding validate get_user scan_row
  validate-signed random user stored access now later d key truncates parses has_key found fit from
        until =
      let claims : Claims = claims_of jwt s random user access now in
      let back : jwt.parse key.secret (jwt.sign key.secret key.id claims) s.service s.issuer later
          ≡ some claims =
        parses key.secret key.id s.service s.issuer later refl (inl refl) (earlier truncates from)
          until in
      ap (λ (r : Result Principal × Database). r.0)
        (then_do-ok (active_signing_key base64 d) _ key d has_key
          (apply_Reads (key-Reads base64) d))
      ∙ rw (parsed, back, found) (usable-principal_of stored claims later fit)

  -- A token that was minted for a user is validated, with the same key, until the second in which it
  -- expires, while the user is in the database and may be used, if package jwt rounds dates down and
  -- reads back the claims that it signed: to that user, as the database has it, and the access that
  -- the token was minted for.
  pub validate-mint :
      (random : Bytes) (user : User) (access : List AccessClaim) (now later : ℕ) (d : Database)
      (key : SigningKey)
      → ((time : ℕ) → jwt.numeric_date time ≤ time)
      → ParsesSigned jwt (claims_of jwt s random user access now)
      → (active_signing_key base64 d).0 ≡ ok key
      → first_row (has_id user.id) d.users ≡ some user
      → usable user later ≡ true
      → now ≤ later
      → later < jwt.numeric_date (now + s.ttl)
      → (token : Bytes) × ((mint base64 jwt s random user access now d).0 ≡ ok (token, now + s.ttl))
        × ((validate base64 jwt s token later d).0 ≡ ok (principal_for user access))
  validate-mint random user access now later d key truncates parses has_key found fit from until = (
    signed key random user access now,
    ap (λ (r : Result (Bytes × ℕ) × Database). r.0)
        (mint-signed random user access now d key has_key),
    validate-signed random user user access now later d key truncates parses has_key found fit from
        until,
  )
