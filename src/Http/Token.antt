-- ===== src/Http/Token.antt =====
-- internal/httpserver/server.go: handleToken, on the limits of attempts and the database. The random bytes
-- of the token's id and of the audit event's are arguments; the webhooks that an event is sent to are left
-- out.
pub mod Issued
pub mod Granted
use simplecontainerregistry.Base.{
  ℕ, Bytes, codes, Bool, true, false, not, List, [], ◌∷◌, Option, none, some, if◌then◌else◌, Result,
  ok, err, Error, invalid_credentials,
}
use simplecontainerregistry.Domain.{Grant, User, AuditEvent}
use simplecontainerregistry.Db.Tables.{Database}
use simplecontainerregistry.Db.Grants.{list_grants_by_user}
use simplecontainerregistry.Db.Audit.{Base64, insert_audit_event}
use simplecontainerregistry.Auth.Scope.{RequestedScope, intersect_access}
use simplecontainerregistry.Auth.Password.{IdKey}
use simplecontainerregistry.Auth.Service.{authenticate}
use simplecontainerregistry.Auth.Token.{Jwt, TokenService, mint, ttl_seconds, second}
use simplecontainerregistry.Http.Access.{parse_requested_scopes}
use simplecontainerregistry.Http.Limiter.{
  AuthAttemptLimiter, allow, acquire_verification, release_verification, retry_after_seconds,
}

-- What the handler reads of a request; `credentials` are those of BasicAuth.
pub record TokenRequest : Type 0 where
  pub credentials : Option (Bytes × Bytes)
  pub scopes : List Bytes
  pub ip_address : Bytes
  pub user_agent : Bytes

-- The request is limited for some seconds, refused with a status, or answered by a token that lives for
-- some seconds.
pub data TokenResponse : Type 0 where
  limited : ℕ → TokenResponse
  refused : ℕ → TokenResponse
  issued : Bytes → ℕ → TokenResponse

pub record TokenState : Type 0 where
  pub limits : AuthAttemptLimiter
  pub database : Database

-- The packages and the settings that the handler uses.
pub record TokenPackages : Type 0 where
  pub base64 : Base64
  pub id_key : IdKey
  pub jwt : Jwt
  pub service : TokenService

-- errors.Is(err, auth.ErrInvalidCredentials).
abbrev pub is_invalid_credentials : Error → Bool
is_invalid_credentials invalid_credentials = true
is_invalid_credentials _ = false

-- The username of a request without credentials is empty.
abbrev pub attempted_username : Option (Bytes × Bytes) → Bytes
attempted_username none = []
attempted_username (some (username, secret)) = username

module _ (packages : TokenPackages) (token_random audit_random : Bytes) (request : TokenRequest)
    (now audited_at : ℕ) where
  abbrev pub token_event : Option Bytes → Bytes → Bytes → Bytes → Bytes → AuditEvent
  token_event actor action target_type target_id result = record {
    id = [];
    actor_user_id = actor;
    action = action;
    target_type = target_type;
    target_id = target_id;
    result = result;
    ip_address = request.ip_address;
    user_agent = request.user_agent;
    created_at = audited_at;
  }

  -- A denial is audited; an error of that is only logged.
  unfoldable pub deny_token : ℕ → Bytes → Bytes → Bytes → Database → TokenResponse × Database
  deny_token status target_type target_id result d = (
    refused status,
    (insert_audit_event audit_random
        (token_event none (codes "token.denied") target_type target_id result) d).1,
  )

  abbrev pub answer_token : Bytes → Result (Unit {0}) × Database → TokenResponse × Database
  answer_token token (err e, d) = (refused 500, d)
  answer_token token (ok _, d) =
      (issued token (ttl_seconds packages.base64 packages.jwt packages.service), d)

  abbrev pub after_mint : User → Result (Bytes × ℕ) × Database → TokenResponse × Database
  unfolding deny_token
  after_mint user (err e, d) = deny_token 500 (codes "user") user.id (codes "mint_failed") d
  after_mint user (ok (token, expires), d) = answer_token token (
      insert_audit_event audit_random
        (token_event (some user.id) (codes "token.issued") (codes "user") user.id (codes "success"))
        d)

  abbrev pub after_grants :
      List RequestedScope → User → Result (List Grant) × Database → TokenResponse × Database
  unfolding deny_token
  after_grants requested user (err e, d) =
      deny_token 500 (codes "user") user.id (codes "grant_load_failed") d
  after_grants requested user (ok grants, d) = after_mint user (
      mint packages.base64 packages.jwt packages.service token_random user
        (intersect_access user.role grants requested) now d)

  abbrev pub after_authenticate :
      List RequestedScope → Bytes → Result User × Database → TokenResponse × Database
  unfolding deny_token
  after_authenticate requested username (err e, d) =
      if is_invalid_credentials e
      then deny_token 401 (codes "username") username (codes "invalid_credentials") d
      else deny_token 500 (codes "username") username (codes "error") d
  after_authenticate requested username (ok user, d) =
      after_grants requested user (list_grants_by_user user.id d)

  -- From the authentication on.
  unfoldable pub issue_token :
      List RequestedScope → Bytes → Bytes → Database → TokenResponse × Database
  unfolding deny_token
  issue_token requested username secret d =
      after_authenticate requested username
        (authenticate packages.base64 packages.id_key username secret now d)

  abbrev pub with_limits :
      AuthAttemptLimiter → TokenResponse × Database → TokenResponse × TokenState
  with_limits limits (response, d) = (response, record { limits = limits; database = d })

  -- A verification that was acquired is released.
  abbrev pub verified :
      List RequestedScope
      → Bytes
      → Bytes
      → Database
      → Bool × AuthAttemptLimiter
      → TokenResponse × TokenState
  unfolding issue_token
  verified requested username secret d (false, limits) =
      with_limits limits (limited (retry_after_seconds second), d)
  verified requested username secret d (true, limits) =
      with_limits (release_verification limits) (issue_token requested username secret d)

  abbrev pub scoped :
      Bytes → Bytes → TokenState → Result (List RequestedScope) → TokenResponse × TokenState
  unfolding issue_token
  scoped username secret w (err e) = (refused 400, w)
  scoped username secret w (ok requested) =
      verified requested username secret w.database (acquire_verification w.limits)

  abbrev pub authorized : Option (Bytes × Bytes) → TokenState → TokenResponse × TokenState
  unfolding issue_token
  authorized none w = (refused 401, w)
  authorized (some (username, secret)) w =
      scoped username secret w (parse_requested_scopes request.scopes)

  abbrev pub attempted : Database → (ℕ × Bool) × AuthAttemptLimiter → TokenResponse × TokenState
  unfolding issue_token
  attempted d ((retry_after, allowed), limits) =
      if not allowed
      then with_limits limits (limited (retry_after_seconds retry_after), d)
      else authorized request.credentials (record { limits = limits; database = d })

  unfoldable pub handle_token : TokenState → TokenResponse × TokenState
  unfolding issue_token
  handle_token w =
      attempted w.database
        (allow request.ip_address (attempted_username request.credentials) now w.limits)
