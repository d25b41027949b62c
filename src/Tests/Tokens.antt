-- ===== src/Tests/Tokens.antt =====
-- internal/httpserver/server.go: handleToken, for a user with a grant for `team/`.
use simplecontainerregistry.Base.{
  ℕ, ◌*◌, ◌+◌, ◌≤◌, ◌<◌, Bytes, codes, beq, ltb, leb, ◌&&◌, ◌≡◌, ◌↔◌, refl, List, [], ◌∷◌, ◌++◌,
  Option, none, some, Result, ok, any, arith, if◌then◌else◌, true, false,
}
use simplecontainerregistry.Domain.{User, Grant, SigningKey, action_pull}
use simplecontainerregistry.Auth.Scope.{RequestedScope, repository_type, user_subject, has_access}
use simplecontainerregistry.Auth.Scope.Access.{Entitled}
use simplecontainerregistry.Auth.Service.{usable}
use simplecontainerregistry.Auth.Service.Credentials.{Authentic}
use simplecontainerregistry.Auth.Token.{Claims, Jwt, claims_of, second, validate, ttl_seconds}
use simplecontainerregistry.Auth.Token.Minted.{ParsesSigned, principal_for}
use simplecontainerregistry.Db.Tables.{Database, empty_database, first_row}
use simplecontainerregistry.Db.Grants.{list_grants_by_user}
use simplecontainerregistry.Db.Audit.{active_signing_key}
use simplecontainerregistry.Http.Access.{parse_requested_scopes}
use simplecontainerregistry.Http.Limiter.{allow, acquire_verification, new_auth_attempt_limiter}
use simplecontainerregistry.Http.Token.{
  TokenRequest, TokenPackages, TokenState, issued, handle_token, attempted_username,
}
use simplecontainerregistry.Http.Token.Issued.{IsAuthentic, handle_token-IsAuthentic}
use simplecontainerregistry.Http.Token.Granted.{
  granted_access, granted_token, handle_token-Entitled,
}
use simplecontainerregistry.Tests.Accounts.{
  base64, id_key, account, stored_key, service, unread, moved, whole_before,
}
use simplecontainerregistry.Tests.Samples.{zeros}

abbrev ann : User
ann = record (account (codes "ann")) {
  secret_hash = codes "$argon2id$v=19$m=1,t=1,p=1$x$" ++ moved (3 ∷ zeros 31);
}

abbrev grants : List Grant
grants =
    record {
      id = codes "g1";
      subject_type = user_subject;
      subject_id = codes "ann";
      repository_prefix = codes "team/";
      actions = action_pull ∷ [];
      created_at = 0;
      updated_at = 0;
    }
    ∷ []

abbrev state : TokenState
state = record {
  limits = new_auth_attempt_limiter;
  database = record empty_database {
    users = ann ∷ [];
    grants = grants;
    signing_keys = stored_key ∷ [];
  };
}

abbrev requested : List RequestedScope
requested =
    record { type = repository_type; name = codes "team/app"; actions = action_pull ∷ [] } ∷ []

abbrev request : TokenRequest
request = record {
  credentials = some (codes "ann", codes "one");
  scopes = codes "repository:team/app:pull" ∷ [];
  ip_address = codes "10.0.0.1";
  user_agent = [];
}

abbrev now : ℕ
now = 10 * second

abbrev later : ℕ
later = 20 * second

abbrev claims : Claims
claims =
    claims_of unread service (1 ∷ []) ann
      (granted_access record { base64 = base64; id_key = id_key; jwt = unread; service = service }
        (1 ∷ []) (2 ∷ []) request now now ann grants requested)
      now

-- The token is read as its claims, in its time.
abbrev jwt : Jwt
jwt = record unread {
  parse = λ secret raw expected issuer time.
      if leb claims.not_before time && ltb time claims.expires_at then some claims else none;
}

abbrev packages : TokenPackages
packages = record { base64 = base64; id_key = id_key; jwt = jwt; service = service }

parses : ParsesSigned jwt claims
parses secret kid audience issuer time _ _ from until = ground (arith, from, until)

abbrev key : SigningKey
key = record { id = codes "k"; secret = []; created_at = 0; retired_at = none }

scopes_read : parse_requested_scopes request.scopes ≡ ok requested
unfolding parse_requested_scopes simplecontainerregistry.Auth.Scope.parse_scope
    simplecontainerregistry.Base.split beq simplecontainerregistry.Domain.valid_actions
    simplecontainerregistry.Base.keep
scopes_read = refl

within :
    (allow request.ip_address (attempted_username request.credentials) now state.limits).0.1 ≡ true
unfolding allow simplecontainerregistry.Http.Limiter.attempt_keys
    simplecontainerregistry.Http.Limiter.account_name simplecontainerregistry.Base.to_lower
    simplecontainerregistry.Base.trim_space simplecontainerregistry.Base.trim
    simplecontainerregistry.Base.trim_right simplecontainerregistry.Base.drop_while
within = refl

free :
    (acquire_verification
      (allow request.ip_address (attempted_username request.credentials) now state.limits).1).0
    ≡ true
unfolding acquire_verification allow simplecontainerregistry.Http.Limiter.attempt_keys
    simplecontainerregistry.Http.Limiter.account_name simplecontainerregistry.Base.to_lower
    simplecontainerregistry.Base.trim_space simplecontainerregistry.Base.trim
    simplecontainerregistry.Base.trim_right simplecontainerregistry.Base.drop_while
free = refl

authentic : Authentic base64 id_key (codes "ann") (codes "one") now state.database ann
unfolding first_row beq simplecontainerregistry.Auth.Service.started
    simplecontainerregistry.Auth.Service.unexpired
    simplecontainerregistry.Auth.Password.verify_secret simplecontainerregistry.Base.split
    simplecontainerregistry.Base.cut simplecontainerregistry.Base.strip_prefix
    simplecontainerregistry.Base.all
authentic = (refl, refl, refl)

listed : (list_grants_by_user ann.id state.database).0 ≡ ok grants
unfolding list_grants_by_user simplecontainerregistry.Db.Tables.order_by
    simplecontainerregistry.Base.keep beq
listed = refl

active : (active_signing_key base64 state.database).0 ≡ ok key
unfolding active_signing_key simplecontainerregistry.Db.Tables.scan_row first_row
    simplecontainerregistry.Db.Tables.order_by simplecontainerregistry.Base.keep
active = refl

handle_token-Entitled_example :
    ((handle_token packages (1 ∷ []) (2 ∷ []) request now now state).0
      ≡ issued
          (granted_token packages (1 ∷ []) (2 ∷ []) request now now ann key grants requested)
          (ttl_seconds base64 jwt service))
    × ((validate base64 jwt service
          (granted_token packages (1 ∷ []) (2 ∷ []) request now now ann key grants requested)
          later
          (handle_token packages (1 ∷ []) (2 ∷ []) request now now state).1.database).0
        ≡ ok (
            principal_for ann
              (granted_access packages (1 ∷ []) (2 ∷ []) request now now ann grants requested)))
    × ((has_access
            (granted_access packages (1 ∷ []) (2 ∷ []) request now now ann grants requested)
            (codes "team/app")
            action_pull
          ≡ true)
        ↔ Entitled ann.role grants requested (codes "team/app") action_pull)
unfolding first_row beq any simplecontainerregistry.Auth.Service.started
    simplecontainerregistry.Auth.Service.unexpired
handle_token-Entitled_example =
    handle_token-Entitled packages (1 ∷ []) (2 ∷ []) request now now ann (codes "ann") (codes "one")
      requested state grants key later (codes "team/app") action_pull refl scopes_read within free
      authentic refl listed active refl whole_before parses refl (omega arith) (omega arith)

-- The token is the id of the key here, and lives for ten minutes.
issued_now :
    (handle_token packages (1 ∷ []) (2 ∷ []) request now now state).0 ≡ issued (codes "k") 600
unfolding ttl_seconds first_row beq any simplecontainerregistry.Auth.Service.started
    simplecontainerregistry.Auth.Service.unexpired
issued_now =
    (handle_token-Entitled packages (1 ∷ []) (2 ∷ []) request now now ann (codes "ann")
      (codes "one") requested state grants key later (codes "team/app") action_pull refl scopes_read
      within free authentic refl listed active refl whole_before parses refl (omega arith)
      (omega arith)).0

handle_token-IsAuthentic_example :
    IsAuthentic packages (1 ∷ []) (2 ∷ []) request now now request.credentials state.database
    × ((allow request.ip_address (attempted_username request.credentials) now state.limits).0.1
        ≡ true)
handle_token-IsAuthentic_example =
    handle_token-IsAuthentic packages (1 ∷ []) (2 ∷ []) request now now state (codes "k") 600
      issued_now
