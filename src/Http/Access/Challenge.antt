-- ===== src/Http/Access/Challenge.antt =====
-- internal/httpserver/server.go: the scope of a challenge is one that ParseScope accepts.
use simplecontainerregistry.Base.{
  Bytes, contains, cut, strip_prefix, beq, true, false, [], ◌∷◌, is_nil, keep, split, ok, ◌≡◌, refl,
  ◌⊎◌, inl, inr, sym,
}
use simplecontainerregistry.Base.Laws.{Lacks, contains-Lacks}
use simplecontainerregistry.Domain.{
  Action, action_pull, action_push, action_delete, action_admin, valid_actions,
}
use simplecontainerregistry.Auth.Scope.{RequestedScope, repository_type, parse_scope}
use simplecontainerregistry.Auth.Scope.Parse.{listed, parse_scope-IsScope}
use simplecontainerregistry.Http.Access.{scope_text}

-- An action that the registry knows.
abbrev pub IsKnown : Action → Type 0
IsKnown action =
    (action ≡ action_pull)
    ⊎ ((action ≡ action_push) ⊎ ((action ≡ action_delete) ⊎ (action ≡ action_admin)))

abbrev pub single : Bytes → Action → RequestedScope
single repository action = record {
  type = repository_type;
  name = repository;
  actions = action ∷ [];
}

challenge_for :
    (repository : Bytes) (action : Action)
    → Lacks b':' repository
    → is_nil repository ≡ false
    → Lacks b':' action
    → listed action ≡ action ∷ []
    → valid_actions (action ∷ []) ≡ true
    → parse_scope (scope_text repository action) ≡ ok (single repository action)
unfolding scope_text
challenge_for repository action no_colon given lacks one valid =
    (parse_scope-IsScope (scope_text repository action) (single repository action)).1 (record {
      raw_actions = action;
      text = refl;
      name_Lacks = no_colon;
      actions_Lacks = lacks;
      type = refl;
      name = given;
      actions = sym one;
      valid = valid;
    })

-- The scope that a challenge names for a repository, not empty and without a colon, and a known action is
-- parsed as the request for that action on that repository.
pub parse_scope-scope_text :
    (repository : Bytes) (action : Action)
    → Lacks b':' repository
    → is_nil repository ≡ false
    → IsKnown action
    → parse_scope (scope_text repository action) ≡ ok (single repository action)
unfolding keep split valid_actions beq contains cut strip_prefix
parse_scope-scope_text repository action no_colon given (inl e) = rw e (
    challenge_for repository action_pull no_colon given (contains-Lacks action_pull b':' refl) refl
      refl)
parse_scope-scope_text repository action no_colon given (inr (inl e)) = rw e (
    challenge_for repository action_push no_colon given (contains-Lacks action_push b':' refl) refl
      refl)
parse_scope-scope_text repository action no_colon given (inr (inr (inl e))) = rw e (
    challenge_for repository action_delete no_colon given (contains-Lacks action_delete b':' refl)
      refl refl)
parse_scope-scope_text repository action no_colon given (inr (inr (inr e))) = rw e (
    challenge_for repository action_admin no_colon given (contains-Lacks action_admin b':' refl)
      refl refl)
