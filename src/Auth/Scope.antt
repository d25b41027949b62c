-- ===== src/Auth/Scope.antt =====
-- internal/auth/scope.go: requested scopes, and the access that a user's grants give.
pub mod Allowed
pub mod Access
pub mod Prefix
pub mod Parse
use simplecontainerregistry.Base.{
  Bytes, codes, beq, elem, Bool, true, false, ◌&&◌, ◌||◌, not, List, [], ◌∷◌, ◌++◌, split, keep,
  any, is_nil, if◌then◌else◌, Result, ok, err, failure, trim_prefix, trim_suffix, has_prefix,
}
use simplecontainerregistry.Domain.{Role, Action, Grant, role_admin, action_admin, valid_actions}

pub record RequestedScope : Type 0 where
  pub type : Bytes
  pub name : Bytes
  pub actions : List Action

pub record AccessClaim : Type 0 where
  pub type : Bytes
  pub name : Bytes
  pub actions : List Action

abbrev pub repository_type : Bytes
repository_type = codes "repository"

abbrev pub user_subject : Bytes
user_subject = codes "user"

-- ParseScope, on the parts that the text is split into.
unfoldable pub parse_parts : List Bytes → Result RequestedScope
parse_parts (type ∷ name ∷ raw_actions ∷ []) =
    let actions = keep (λ a. not (is_nil a)) (split raw_actions b',') in
    if not (beq type repository_type)
    then err (failure (codes "unsupported scope type"))
    else if is_nil name
    then err (failure (codes "repository scope name is required"))
    else if not (valid_actions actions)
    then err (failure (codes "invalid scope actions"))
    else ok (record { type = type; name = name; actions = actions })
parse_parts _ = err (failure (codes "invalid scope"))

unfoldable pub parse_scope : Bytes → Result RequestedScope
unfolding parse_parts
parse_scope raw = parse_parts (split raw b':')

unfoldable pub repository_matches : Bytes → Bytes → Bool
repository_matches repository raw_prefix =
    let prefix = trim_prefix raw_prefix (b'/' ∷ []) in
    let base = trim_suffix prefix (b'/' ∷ []) in
    if beq prefix (codes "*")
    then true
    else if is_nil prefix
    then false
    else beq repository base || has_prefix repository (base ++ b'/' ∷ [])

-- The loop of uniqueActions; `seen` is the map.
unfoldable pub unique_loop : List Action → List Action → List Action
unique_loop seen [] = []
unique_loop seen (action ∷ actions) =
    let known = elem action seen in
    let rest = unique_loop (if known then seen else action ∷ seen) actions in
    if known then rest else action ∷ rest

unfoldable pub unique_actions : List Action → List Action
unique_actions = unique_loop []

-- Whether a grant says something of a repository.
unfoldable pub grant_applies : Bytes → Grant → Bool
grant_applies name grant =
    beq grant.subject_type user_subject && repository_matches name grant.repository_prefix

-- The map `allowed`, as the list of its keys.
unfoldable pub granted_actions : Bytes → List Grant → List Action
granted_actions name [] = []
granted_actions name (grant ∷ grants) =
    let rest = granted_actions name grants in
    if grant_applies name grant then grant.actions ++ rest else rest

-- The second loop of allowedActions.
unfoldable pub intersect_loop : List Action → List Action → List Action → List Action
intersect_loop allowed seen [] = []
intersect_loop allowed seen (requested ∷ actions) =
    let hit = elem requested allowed && not (elem requested seen) in
    let rest = intersect_loop allowed (if hit then requested ∷ seen else seen) actions in
    if hit then requested ∷ rest else rest

unfoldable pub allowed_actions : Role → List Grant → RequestedScope → List Action
allowed_actions role grants scope =
    if beq role role_admin
    then unique_actions scope.actions
    else intersect_loop (granted_actions scope.name grants) [] scope.actions

unfoldable pub intersect_access : Role → List Grant → List RequestedScope → List AccessClaim
intersect_access role grants [] = []
intersect_access role grants (scope ∷ requested) =
    let allowed = allowed_actions role grants scope in
    let rest = intersect_access role grants requested in
    if is_nil allowed
    then rest
    else record { type = scope.type; name = scope.name; actions = allowed } ∷ rest

-- A claim that lets `action` pass on `repository`.
unfoldable pub claim_allows : Bytes → Action → AccessClaim → Bool
claim_allows repository action claim =
    (beq claim.type repository_type && beq claim.name repository)
    && any (λ allowed. beq allowed action || beq allowed action_admin) claim.actions

unfoldable pub has_access : List AccessClaim → Bytes → Action → Bool
has_access access repository action = any (claim_allows repository action) access
