-- ===== src/Http/Token/Issued.antt =====
-- internal/httpserver/server.go: to whom handleToken issues a token.
use simplecontainerregistry.Base.{
  ℕ, Bytes, Bool, true, false, List, ◌≡◌, refl, Option, none, some, arith, Result, ok, err,
}
use simplecontainerregistry.Domain.{User}
use simplecontainerregistry.Db.Tables.{Database}
use simplecontainerregistry.Db.Users.{}
use simplecontainerregistry.Db.Audit.{}
use simplecontainerregistry.Auth.Scope.{RequestedScope}
use simplecontainerregistry.Auth.Service.{authenticate}
use simplecontainerregistry.Auth.Service.Credentials.{Authentic, authenticate-Authentic}
use simplecontainerregistry.Auth.Token.Minted.{}
use simplecontainerregistry.Http.Access.{parse_requested_scopes}
use simplecontainerregistry.Http.Limiter.{AuthAttemptLimiter, allow, acquire_verification}
use simplecontainerregistry.Http.Token.{
  TokenRequest, issued, TokenState, TokenPackages, attempted_username, deny_token,
  after_authenticate, issue_token, verified, scoped, authorized, attempted, handle_token,
}

module _ (packages : TokenPackages) (token_random audit_random : Bytes) (request : TokenRequest)
    (now audited_at : ℕ) where
  authenticated :
      (requested : List RequestedScope) (username : Bytes) (r : Result User × Database)
      (token : Bytes) (seconds : ℕ)
      → (after_authenticate packages token_random audit_random request now audited_at requested
          username r).0
        ≡ issued token seconds
      → (user : User) × (r.0 ≡ ok user)
  unfolding deny_token
  authenticated requested username (ok user, d) token seconds h = (user, refl)
  authenticated requested username (err e, d) token seconds h = absurd (ground arith)

  issue_token-Authentic :
      (requested : List RequestedScope) (username secret : Bytes) (d : Database) (token : Bytes)
      (seconds : ℕ)
      → (issue_token packages token_random audit_random request now audited_at requested username
          secret d).0
        ≡ issued token seconds
      → (user : User) × Authentic packages.base64 packages.id_key username secret now d user
  unfolding issue_token
  issue_token-Authentic requested username secret d token seconds h =
      let (user, e) =
        authenticated requested username
          (authenticate packages.base64 packages.id_key username secret now d) token seconds h in
      (
        user,
        (authenticate-Authentic packages.base64 packages.id_key username secret now d user).0 e,
      )

  verified-Authentic :
      (requested : List RequestedScope) (username secret : Bytes) (d : Database)
      (p : Bool × AuthAttemptLimiter) (token : Bytes) (seconds : ℕ)
      → (verified packages token_random audit_random request now audited_at requested username
          secret d p).0
        ≡ issued token seconds
      → (user : User) × Authentic packages.base64 packages.id_key username secret now d user
  unfolding verified
  verified-Authentic requested username secret d (false, limits) token seconds h =
      absurd (ground arith)
  verified-Authentic requested username secret d (true, limits) token seconds h =
      issue_token-Authentic requested username secret d token seconds h

  -- The credentials are those of a user of the database.
  abbrev pub IsAuthentic : Option (Bytes × Bytes) → Database → Type 0
  IsAuthentic credentials d =
      (username : Bytes) × (secret : Bytes) × (user : User) × (credentials
        ≡ some (username, secret))
      × Authentic packages.base64 packages.id_key username secret now d user

  scoped-Authentic :
      (username secret : Bytes) (w : TokenState) (r : Result (List RequestedScope)) (token : Bytes)
      (seconds : ℕ)
      → (scoped packages token_random audit_random request now audited_at username secret w r).0
        ≡ issued token seconds
      → (user : User) × Authentic packages.base64 packages.id_key username secret now w.database
          user
  unfolding scoped
  scoped-Authentic username secret w (err e) token seconds h = absurd (ground arith)
  scoped-Authentic username secret w (ok requested) token seconds h =
      verified-Authentic requested username secret w.database (acquire_verification w.limits) token
        seconds h

  authorized-IsAuthentic :
      (credentials : Option (Bytes × Bytes)) (w : TokenState) (token : Bytes) (seconds : ℕ)
      → (authorized packages token_random audit_random request now audited_at credentials w).0
        ≡ issued token seconds
      → IsAuthentic credentials w.database
  unfolding authorized
  authorized-IsAuthentic none w token seconds h = absurd (ground arith)
  authorized-IsAuthentic (some (username, secret)) w token seconds h =
      let (user, authentic) =
        scoped-Authentic username secret w (parse_requested_scopes request.scopes) token seconds
          h in
      (username, secret, user, refl, authentic)

  attempted-IsAuthentic :
      (d : Database) (r : (ℕ × Bool) × AuthAttemptLimiter) (token : Bytes) (seconds : ℕ)
      → (attempted packages token_random audit_random request now audited_at d r).0
        ≡ issued token seconds
      → IsAuthentic request.credentials d × (r.0.1 ≡ true)
  unfolding attempted
  attempted-IsAuthentic d ((retry_after, false), limits) token seconds h = absurd (ground arith)
  attempted-IsAuthentic d ((retry_after, true), limits) token seconds h = (
    authorized-IsAuthentic request.credentials (record { limits = limits; database = d }) token
        seconds h,
    refl,
  )

  -- A token is issued only to a request with the name and the secret of a user who is active and in the
  -- time of validity, and only when neither the limit of attempts of the address nor that of the
  -- account is used up.
  pub handle_token-IsAuthentic :
      (w : TokenState) (token : Bytes) (seconds : ℕ)
      → (handle_token packages token_random audit_random request now audited_at w).0
        ≡ issued token seconds
      → IsAuthentic request.credentials w.database
        × ((allow request.ip_address (attempted_username request.credentials) now w.limits).0.1
            ≡ true)
  unfolding handle_token
  handle_token-IsAuthentic w token seconds h =
      attempted-IsAuthentic w.database
        (allow request.ip_address (attempted_username request.credentials) now w.limits) token
        seconds h
