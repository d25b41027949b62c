-- ===== src/Http/Access/Revoked.antt =====
-- internal/httpserver/server.go: a token does not outlive the grants of its user.
use simplecontainerregistry.Base.{
  Bytes, beq, beq→eq, Bool, true, false, List, [], ◌∷◌, Option, some, Result, ok, err, ◌≡◌, sym, ap,
  ◌∙◌, ◌⊎◌, inl, inr, Bool-cases, Option-cases, Result-cases, In,
}
use simplecontainerregistry.Domain.{Role, Action, Grant, role_admin, action_admin}
use simplecontainerregistry.Auth.Scope.{
  RequestedScope, repository_type, has_access, intersect_access,
}
use simplecontainerregistry.Auth.Scope.Allowed.{May}
use simplecontainerregistry.Auth.Scope.Access.{has_access-intersect_access}
use simplecontainerregistry.Http.Route.{RegistryRoute}
use simplecontainerregistry.Http.Access.{
  Principal, served, principal_from_bearer, current_access, has_current_registry_access, is_catalog,
  handle_registry,
}

-- What the user of a principal may do at the time of the request.
abbrev pub MayNow : (Bytes → Result (List Grant)) → Principal → Bytes → Action → Type 0
MayNow list_grants principal repository action =
    (principal.role ≡ role_admin)
    ⊎ ((grants : List Grant) × (list_grants principal.user_id ≡ ok grants)
        × May principal.role grants repository action)

only_action : {a b : Action} → In b (a ∷ []) → a ≡ b
only_action (inl e) = e
only_action (inr x) = elim x [ ]

only_scope : {s t : RequestedScope} → In t (s ∷ []) → s ≡ t
only_scope (inl e) = e
only_scope (inr x) = elim x [ ]

current-May :
    (role : Role) (grants : List Grant) (repository : Bytes) (action : Action)
    → current_access repository action role (ok grants) ≡ ok true
    → May role grants repository action
current-May role grants repository action h =
    let scope : RequestedScope = record {
      type = repository_type;
      name = repository;
      actions = action ∷ [];
    } in
    let b : has_access (intersect_access role grants (scope ∷ [])) repository action ≡ true =
      ap (λ (r : Result Bool). elim r [ ok x ↦ x | err e ↦ true ]) h in
    let (s, at, admits) =
      (has_access-intersect_access role grants (scope ∷ []) repository action).0 b in
    let allowed : May role grants s.name action = elim (admits.2) [
      | inl (listed, may) ↦ may
      | inr (listed, may) ↦
          let same : action ≡ action_admin =
            only_action
              (rw (sym (ap (λ (x : RequestedScope). x.actions) (only_scope at))) at listed) in
          rw same may
    ] in
    rw (admits.1) at allowed

has_current-MayNow :
    (list_grants : Bytes → Result (List Grant)) (principal : Principal) (repository : Bytes)
    (action : Action)
    → has_current_registry_access list_grants principal repository action ≡ ok true
    → MayNow list_grants principal repository action
unfolding has_current_registry_access
has_current-MayNow list_grants principal repository action h =
    elim (Bool-cases (beq principal.role role_admin)) [
      | inl e ↦ inl (beq→eq principal.role role_admin e)
      | inr e ↦ elim (Result-cases (list_grants principal.user_id)) [
        | inr (x, listed) ↦ absurd (cc (rw (e, has_current_registry_access, listed) at h))
        | inl (grants, listed) ↦ inr (
          grants,
          listed,
          current-May principal.role grants repository action
              (rw (e, has_current_registry_access, listed) at h),
        )
      ]
    ]

-- A route on a repository is served only for a bearer token that is valid, whose claims allow the
-- action, and whose user is an administrator or has, at that moment, a grant for the action: a grant
-- that was taken away ends the use of a token that still claims it.
pub handle_registry-MayNow :
    (validate : Bytes → Option Principal) (list_grants : Bytes → Result (List Grant))
    (authorization : Bytes) (route : RegistryRoute) (p : Option Principal) (r : RegistryRoute)
    → is_catalog route.kind ≡ false
    → handle_registry validate list_grants authorization (some route) ≡ served p r
    → (principal : Principal) × (principal_from_bearer validate authorization ≡ some principal)
      × (has_access principal.access route.repository route.action ≡ true)
      × MayNow list_grants principal route.repository route.action
unfolding handle_registry
handle_registry-MayNow validate list_grants authorization route p r kind h =
    elim (Option-cases (principal_from_bearer validate authorization)) [
      | inl e ↦ absurd (cc (rw (handle_registry, kind, e) at h))
      | inr (principal, e) ↦
          let h' = rw (handle_registry, kind, e) at h in
          elim (Bool-cases (has_access principal.access route.repository route.action)) [
            | inr refused ↦ absurd (cc (rw refused at h'))
            | inl claimed ↦
                elim (Result-cases (
                  has_current_registry_access list_grants principal route.repository
                    route.action)) [
                      | inr (x, failed) ↦ absurd (cc (rw (claimed, failed) at h'))
                      | inl (allowed, now) ↦ elim (Bool-cases allowed) [
                        | inr refused ↦ absurd (cc (rw (claimed, now, refused) at h'))
                        | inl granted ↦ (
                          principal,
                          e,
                          claimed,
                          has_current-MayNow list_grants principal route.repository route.action
                              (now ∙ ap (λ (b : Bool). ok b) granted),
                        )
                      ]
                    ]
          ]
    ]
