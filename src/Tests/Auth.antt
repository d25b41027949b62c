-- ===== src/Tests/Auth.antt =====
-- internal/auth/scope.go, on a reader with a grant for `team/app`.
use simplecontainerregistry.Base.{
  Bytes, codes, beq, Bool, true, false, List, [], ◌∷◌, ◌≡◌, ◌↔◌, refl, inl, inr, In, Result, ok,
}
use simplecontainerregistry.Domain.{Grant, role_reader, action_pull, action_push}
use simplecontainerregistry.Auth.Scope.{
  RequestedScope, AccessClaim, repository_type, user_subject, has_access, intersect_access,
  allowed_actions, intersect_loop, grant_applies, granted_actions, repository_matches, parse_scope,
}
use simplecontainerregistry.Auth.Scope.Access.{
  Entitled, IsMinimal, has_access-intersect_access, intersect_access-IsMinimal,
}
use simplecontainerregistry.Auth.Scope.Prefix.{
  IsPlain, IsUnder, written, repository_matches-IsUnder,
}
use simplecontainerregistry.Auth.Scope.Parse.{IsScope, parse_scope-IsScope}

abbrev app : Bytes
app = codes "team/app"

abbrev grants : List Grant
grants =
    record {
      id = codes "g1";
      subject_type = user_subject;
      subject_id = codes "u1";
      repository_prefix = codes "team/";
      actions = action_pull ∷ [];
      created_at = 0;
      updated_at = 0;
    }
    ∷ []

abbrev requested : List RequestedScope
requested =
    record { type = repository_type; name = app; actions = action_pull ∷ action_push ∷ [] } ∷ []

has_access-intersect_access_example :
    (has_access (intersect_access role_reader grants requested) app action_pull ≡ true)
    ↔ Entitled role_reader grants requested app action_pull
has_access-intersect_access_example =
    has_access-intersect_access role_reader grants requested app action_pull

abbrev issued : AccessClaim
issued = record { type = repository_type; name = app; actions = action_pull ∷ [] }

issued_now : In issued (intersect_access role_reader grants requested)
unfolding intersect_access allowed_actions beq intersect_loop simplecontainerregistry.Base.elem
    granted_actions grant_applies repository_matches simplecontainerregistry.Base.trim_prefix
    simplecontainerregistry.Base.strip_prefix simplecontainerregistry.Base.trim_suffix
    simplecontainerregistry.Base.has_prefix
issued_now = inl refl

intersect_access-IsMinimal_example : IsMinimal role_reader grants requested issued
intersect_access-IsMinimal_example =
    intersect_access-IsMinimal role_reader grants requested issued issued_now

team-IsPlain : IsPlain (codes "team")
unfolding beq simplecontainerregistry.Base.has_prefix simplecontainerregistry.Base.strip_prefix
    simplecontainerregistry.Base.has_suffix
team-IsPlain = record { not_nil = refl; not_wildcard = refl; no_lead = refl; no_trail = refl }

repository_matches-IsUnder_example :
    (repository_matches app (written false true (codes "team")) ≡ true) ↔ IsUnder (codes "team") app
repository_matches-IsUnder_example =
    repository_matches-IsUnder (codes "team") app false true team-IsPlain

abbrev pull_scope : RequestedScope
pull_scope = record { type = repository_type; name = app; actions = action_pull ∷ [] }

parse_scope-IsScope_example :
    (parse_scope (codes "repository:team/app:pull") ≡ ok pull_scope)
    ↔ IsScope (codes "repository:team/app:pull") pull_scope
parse_scope-IsScope_example = parse_scope-IsScope (codes "repository:team/app:pull") pull_scope
