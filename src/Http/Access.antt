-- ===== src/Http/Access.antt =====
-- internal/httpserver/server.go: who may use a registry route. The answer is a decision: a status, a
-- challenge with its scope, or the route served for a principal. The token service's Validate, the
-- grants of the user and their listing are arguments; an audit of a denial is a flag of the challenge.
pub mod Revoked
pub mod Challenge
use simplecontainerregistry.Base.{
  ℕ, Bytes, codes, beq, Bool, true, false, ◌&&◌, ◌||◌, not, List, [], ◌∷◌, ◌++◌, Option, none, some,
  cut, to_lower, if◌then◌else◌, is_nil, Result, ok, err, ◌>>=◌,
}
use simplecontainerregistry.Domain.{Role, Action, Grant, role_admin}
use simplecontainerregistry.Auth.Scope.{
  AccessClaim, RequestedScope, repository_type, has_access, intersect_access, parse_scope,
}
pub use simplecontainerregistry.Auth.Principal.{Principal}
use simplecontainerregistry.Http.Route.{
  RouteKind, blob, upload_start, upload, manifest, tags, referrers, catalog, RegistryRoute,
}

pub data Decision : Type 0 where
  answered : ℕ → Decision
  challenged : Bytes → Bool → Decision
  served : Option Principal → RegistryRoute → Decision

-- strings.EqualFold, on ASCII.
abbrev pub equal_fold : Bytes → Bytes → Bool
equal_fold s t = beq (to_lower s) (to_lower t)

abbrev pub bearer_token : Option (Bytes × Bytes) → (Bytes → Option Principal) → Option Principal
bearer_token none validate = none
bearer_token (some (scheme, token)) validate =
    if not (equal_fold scheme (codes "Bearer")) || is_nil token then none else validate token

unfoldable pub principal_from_bearer : (Bytes → Option Principal) → Bytes → Option Principal
principal_from_bearer validate header =
    if is_nil header then none else bearer_token (cut header (codes " ")) validate

abbrev pub current_access : Bytes → Action → Role → Result (List Grant) → Result Bool
current_access repository action role grants = grants >>= λ listed. ok (
    has_access
      (intersect_access role listed
        (record { type = repository_type; name = repository; actions = action ∷ [] } ∷ []))
      repository action)

unfoldable pub has_current_registry_access :
    (Bytes → Result (List Grant)) → Principal → Bytes → Action → Result Bool
has_current_registry_access list_grants principal repository action =
    if beq principal.role role_admin
    then ok true
    else current_access repository action principal.role (list_grants principal.user_id)

-- fmt.Sprintf("repository:%s:%s", repository, action).
unfoldable pub scope_text : Bytes → Action → Bytes
scope_text repository action = codes "repository:" ++ (repository ++ b':' ∷ action)

abbrev pub is_catalog : RouteKind → Bool
is_catalog catalog = true
is_catalog _ = false

abbrev pub decide_catalog : Option Principal → RegistryRoute → Decision
decide_catalog none route = challenged [] false
decide_catalog (some principal) route =
    if not (beq principal.role role_admin)
    then challenged [] true
    else served (some principal) route

abbrev pub decide_current : RegistryRoute → Principal → Result Bool → Decision
unfolding scope_text
decide_current route principal (err e) = answered 500
decide_current route principal (ok allowed) =
    if not allowed
    then challenged (scope_text route.repository route.action) true
    else served (some principal) route

abbrev pub decide_repository :
    (Bytes → Result (List Grant)) → Option Principal → RegistryRoute → Decision
unfolding scope_text has_current_registry_access
decide_repository list_grants none route =
    challenged (scope_text route.repository route.action) false
decide_repository list_grants (some principal) route =
    if not (has_access principal.access route.repository route.action)
    then challenged (scope_text route.repository route.action) true
    else decide_current route principal
        (has_current_registry_access list_grants principal route.repository route.action)

abbrev pub decide_route :
    (Bytes → Result (List Grant)) → Option Principal → Option RegistryRoute → Decision
unfolding scope_text has_current_registry_access
decide_route list_grants principal none = answered 404
decide_route list_grants principal (some route) =
    if is_catalog route.kind
    then decide_catalog principal route
    else decide_repository list_grants principal route

-- handleRegistry, up to the handler of the route.
unfoldable pub handle_registry :
    (Bytes → Option Principal)
    → (Bytes → Result (List Grant))
    → Bytes
    → Option RegistryRoute
    → Decision
unfolding principal_from_bearer scope_text has_current_registry_access
handle_registry validate list_grants authorization route =
    decide_route list_grants (principal_from_bearer validate authorization) route

unfoldable pub parse_requested_scopes : List Bytes → Result (List RequestedScope)
parse_requested_scopes [] = ok []
parse_requested_scopes (raw ∷ raws) =
    let rest = parse_requested_scopes raws in
    if is_nil raw
    then rest
    else (parse_scope raw >>= λ scope. rest >>= λ scopes. ok (scope ∷ scopes))
