-- ===== src/Http/Token/Granted.antt =====
-- internal/httpserver/server.go: what a token that handleToken issues is worth.
use simplecontainerregistry.Base.{
  ℕ, ◌+◌, ◌≤◌, ◌<◌, Bytes, codes, Bool, true, false, List, [], ◌∷◌, ◌≡◌, ◌↔◌, refl, ap, ◌∙◌, inl,
  inr, some, any, Bool-cases, Result-cases, arith, Result, ok, err,
}
use simplecontainerregistry.Domain.{Action, User, Grant, SigningKey}
use simplecontainerregistry.Db.Tables.{Database, first_row, scan_row, update_where}
use simplecontainerregistry.Db.Users.{has_id, new_id, update_user_last_used, update_user}
use simplecontainerregistry.Db.Grants.{list_grants_by_user}
use simplecontainerregistry.Db.Audit.{
  Base64, active_signing_key, latest_key, insert_audit_event, insert_event, has_event_id,
}
use simplecontainerregistry.Auth.Scope.{RequestedScope, AccessClaim, has_access, intersect_access}
use simplecontainerregistry.Auth.Scope.Access.{Entitled, has_access-intersect_access}
use simplecontainerregistry.Auth.Service.{usable}
use simplecontainerregistry.Auth.Service.Credentials.{Authentic, authenticate-eq}
use simplecontainerregistry.Auth.Token.{claims_of, validate, ttl_seconds}
use simplecontainerregistry.Auth.Token.Minted.{
  ParsesSigned, principal_for, signed, mint-signed, validate-signed,
}
use simplecontainerregistry.Http.Access.{parse_requested_scopes}
use simplecontainerregistry.Http.Limiter.{AuthAttemptLimiter, allow, acquire_verification}
use simplecontainerregistry.Http.Token.{
  TokenRequest, TokenResponse, issued, TokenState, TokenPackages, attempted_username, token_event,
  answer_token, after_mint, after_grants, after_authenticate, issue_token, verified, scoped,
  authorized, attempted, handle_token,
}

-- The active key is read from the table of keys alone.
active_signing_key-key :
    (base64 : Base64) (before after : Database) (key : SigningKey)
    → after.signing_keys ≡ before.signing_keys
    → (active_signing_key base64 before).0 ≡ ok key
    → (active_signing_key base64 after).0 ≡ ok key
unfolding active_signing_key
active_signing_key-key base64 before after key same h =
    elim (Result-cases (scan_row (latest_key before.signing_keys))) [
      | inl (row, e) ↦ rw (same, e) (rw (e) at h)
      | inr (x, e) ↦ absurd (cc (rw e at h))
    ]

first_row-update_where-same :
    (id : Bytes) (f : User → User) (rows : List User) (user : User)
    → ((u : User) → (f u).id ≡ u.id)
    → first_row (has_id id) rows ≡ some user
    → first_row (has_id id) (update_where (has_id id) f rows) ≡ some (f user)
unfolding first_row update_where
first_row-update_where-same id f [] user same h = cc h
first_row-update_where-same id f (x ∷ rows) user same h = elim (Bool-cases (has_id id x)) [
  | inl e ↦ ground (arith, same x)
  | inr e ↦ ground (arith, first_row-update_where-same id f rows user same (rw e at h))
]

module _ (packages : TokenPackages) (token_random audit_random : Bytes) (request : TokenRequest)
    (now audited_at : ℕ) (user : User) where
  -- The user as it was seen now.
  abbrev pub seen : Database → Database
  seen d = (update_user_last_used user.id now d).1

  abbrev pub audited : Database → Database
  audited d =
      (insert_audit_event audit_random
        (token_event packages token_random audit_random request now audited_at (some user.id)
          (codes "token.issued") (codes "user") user.id (codes "success"))
        d).1

  inserted :
      (d : Database)
      → any (has_event_id (new_id (codes "aud") audit_random)) d.audit_events ≡ false
      → (insert_audit_event audit_random
          (token_event packages token_random audit_random request now audited_at
            (some user.id)
            (codes "token.issued")
            (codes "user")
            user.id
            (codes "success"))
          d).0
        ≡ ok tt
  unfolding insert_audit_event insert_event
  inserted d fresh = rw fresh refl

  answered :
      (token : Bytes) (r : Result (Unit {0}) × Database)
      → r.0 ≡ ok tt
      → answer_token packages token_random audit_random request now audited_at token r
        ≡ (issued token (ttl_seconds packages.base64 packages.jwt packages.service), r.1)
  answered token (ok x, d) h = refl
  answered token (err e, d) h = absurd (ground arith)

  listed-seen :
      (grants : List Grant) (d : Database)
      → (list_grants_by_user user.id d).0 ≡ ok grants
      → list_grants_by_user user.id (seen d) ≡ (ok grants, seen d)
  unfolding list_grants_by_user update_user_last_used update_user
  listed-seen grants d h = ap (λ (r : Result (List Grant)). (r, seen d)) h

  seen-key :
      (d : Database) (key : SigningKey)
      → (active_signing_key packages.base64 d).0 ≡ ok key
      → (active_signing_key packages.base64 (seen d)).0 ≡ ok key
  unfolding update_user_last_used update_user
  seen-key d key h = active_signing_key-key packages.base64 d (seen d) key refl h

  audited-key :
      (d : Database) (key : SigningKey)
      → (active_signing_key packages.base64 d).0 ≡ ok key
      → any (has_event_id (new_id (codes "aud") audit_random)) d.audit_events ≡ false
      → (active_signing_key packages.base64 (audited (seen d))).0 ≡ ok key
  unfolding update_user_last_used update_user insert_audit_event insert_event any
  audited-key d key h fresh =
      active_signing_key-key packages.base64 (seen d) (audited (seen d)) key (rw fresh refl)
        (seen-key d key h)

  audited-user :
      (d : Database)
      → first_row (has_id user.id) d.users ≡ some user
      → any (has_event_id (new_id (codes "aud") audit_random)) d.audit_events ≡ false
      → first_row (has_id user.id) (audited (seen d)).users
        ≡ some (record user { last_used_at = some now })
  unfolding update_user_last_used update_user insert_audit_event insert_event first_row any
  audited-user d h fresh = rw fresh (
      first_row-update_where-same user.id (λ u. record u { last_used_at = some now }) d.users user
        (λ u. refl) h)

  abbrev pub granted_access : List Grant → List RequestedScope → List AccessClaim
  granted_access grants requested = intersect_access user.role grants requested

  abbrev pub granted_token : SigningKey → List Grant → List RequestedScope → Bytes
  granted_token key grants requested =
      signed packages.base64 packages.jwt packages.service key token_random user
        (granted_access grants requested) now

  issue_token-issued :
      (requested : List RequestedScope) (username secret : Bytes) (grants : List Grant)
      (d : Database) (key : SigningKey)
      → Authentic packages.base64 packages.id_key username secret now d user
      → (list_grants_by_user user.id d).0 ≡ ok grants
      → (active_signing_key packages.base64 d).0 ≡ ok key
      → any (has_event_id (new_id (codes "aud") audit_random)) d.audit_events ≡ false
      → issue_token packages token_random audit_random request now audited_at requested username
          secret d
        ≡ (
          issued
              (granted_token key grants requested)
              (ttl_seconds packages.base64 packages.jwt packages.service),
          audited (seen d),
        )
  unfolding issue_token after_authenticate after_grants after_mint update_user_last_used update_user
  issue_token-issued requested username secret grants d key authentic listed has_key fresh =
      ap
        (after_authenticate packages token_random audit_random request now audited_at requested
          username)
        (authenticate-eq packages.base64 packages.id_key username secret now d user authentic)
      ∙ ap (after_grants packages token_random audit_random request now audited_at requested user)
          (listed-seen grants d listed)
      ∙ ap (after_mint packages token_random audit_random request now audited_at user) (
          mint-signed packages.base64 packages.jwt packages.service token_random user
            (granted_access grants requested) now (seen d) key (seen-key d key has_key))
      ∙ answered (granted_token key grants requested) _ (inserted (seen d) fresh)

  module _ (username secret : Bytes) (requested : List RequestedScope) where
    verified-issued :
        (d after : Database) (response : TokenResponse) (p : Bool × AuthAttemptLimiter)
        → p.0 ≡ true
        → issue_token packages token_random audit_random request now audited_at requested username
            secret d
          ≡ (response, after)
        → ((verified packages token_random audit_random request now audited_at requested username
              secret d p).0
            ≡ response)
          × ((verified packages token_random audit_random request now audited_at requested username
                secret d p).1.database
              ≡ after)
    unfolding verified
    verified-issued d after response (true, limits) _ h = rw h (refl, refl)
    verified-issued d after response (false, limits) e h = cc e

    attempted-issued :
        (d after : Database) (response : TokenResponse) (r : (ℕ × Bool) × AuthAttemptLimiter)
        → request.credentials ≡ some (username, secret)
        → parse_requested_scopes request.scopes ≡ ok requested
        → r.0.1 ≡ true
        → (acquire_verification r.1).0 ≡ true
        → issue_token packages token_random audit_random request now audited_at requested username
            secret d
          ≡ (response, after)
        → ((attempted packages token_random audit_random request now audited_at d r).0 ≡ response)
          × ((attempted packages token_random audit_random request now audited_at d r).1.database
              ≡ after)
    unfolding attempted authorized scoped
    attempted-issued d after response ((t, true), limits) given parsed _ free h =
        rw (given, parsed) (verified-issued d after response (acquire_verification limits) free h)
    attempted-issued d after response ((t, false), limits) given parsed e free h = cc e

    -- A user whose secret is right, whose attempt is within the limits while a verification is free,
    -- and whose scopes can be read is issued a token when a key is active and the audit event's id
    -- is new, no other user with the id standing before this one; and at any later time before the
    -- token expires, if the user may be used then and package jwt rounds dates down and reads back
    -- the claims that it signed, the token is validated, with the database as the request left it,
    -- to a principal who passes the access check for an action on a repository exactly when a
    -- requested scope and the user's role or grants allow it.
    pub handle_token-Entitled :
        (w : TokenState) (grants : List Grant) (key : SigningKey) (later : ℕ) (repository : Bytes)
        (action : Action)
        → request.credentials ≡ some (username, secret)
        → parse_requested_scopes request.scopes ≡ ok requested
        → (allow request.ip_address (attempted_username request.credentials) now w.limits).0.1
          ≡ true
        → (acquire_verification
            (allow request.ip_address (attempted_username request.credentials) now w.limits).1).0
          ≡ true
        → Authentic packages.base64 packages.id_key username secret now w.database user
        → first_row (has_id user.id) w.database.users ≡ some user
        → (list_grants_by_user user.id w.database).0 ≡ ok grants
        → (active_signing_key packages.base64 w.database).0 ≡ ok key
        → any (has_event_id (new_id (codes "aud") audit_random)) w.database.audit_events ≡ false
        → ((time : ℕ) → packages.jwt.numeric_date time ≤ time)
        → ParsesSigned packages.jwt (
            claims_of packages.jwt packages.service token_random user
              (granted_access grants requested)
              now)
        → usable user later ≡ true
        → now ≤ later
        → later < packages.jwt.numeric_date (now + packages.service.ttl)
        → ((handle_token packages token_random audit_random request now audited_at w).0
            ≡ issued
                (granted_token key grants requested)
                (ttl_seconds packages.base64 packages.jwt packages.service))
          × ((validate packages.base64 packages.jwt packages.service
                (granted_token key grants requested)
                later
                (handle_token packages token_random audit_random request now audited_at
                  w).1.database).0
              ≡ ok (principal_for user (granted_access grants requested)))
          × ((has_access (granted_access grants requested) repository action ≡ true)
              ↔ Entitled user.role grants requested repository action)
    unfolding handle_token
    handle_token-Entitled w grants key later repository action given parsed within free authentic
          found listed has_key fresh truncates parses fit from until =
        let (answer, after) =
          attempted-issued w.database (audited (seen w.database)) _
            (allow request.ip_address (attempted_username request.credentials) now w.limits) given
            parsed within free
            (issue_token-issued requested username secret grants w.database key authentic listed
              has_key fresh) in
        (
          answer,
          rw after (
              validate-signed packages.base64 packages.jwt packages.service token_random user
                (record user { last_used_at = some now }) (granted_access grants requested) now
                later (audited (seen w.database)) key truncates parses
                (audited-key w.database key has_key fresh) (audited-user w.database found fresh) fit
                from until),
          has_access-intersect_access user.role grants requested repository action,
        )
