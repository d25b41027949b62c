-- ===== src/Db/Policies.antt =====
-- internal/db/store.go: the tag policies of repositories. regexp.Compile is the parameter `compile`.
use simplecontainerregistry.Base.{
  ℕ, Bytes, codes, beq, Bool, not, [], Option, none, some, any, is_some, if◌then◌else◌, is_nil,
  Result, ok, err, failure,
}
use simplecontainerregistry.Domain.{
  RepositoryTagPolicy, tag_policy_mutable, tag_policy_pattern, valid_tag_policy_mode,
}
use simplecontainerregistry.Storage.Disk.{Step, ◌>>=◌, lift, return}
use simplecontainerregistry.Db.Tables.{Database, first_row, upsert_row, require, execute, query}
use simplecontainerregistry.Db.Repositories.{has_name, get_repository}

abbrev pub default_policy : Bytes → RepositoryTagPolicy
default_policy name = record {
  repository_name = name;
  mode = tag_policy_mutable;
  pattern = [];
  updated_at = none;
}

abbrev pub is_policy_of : Bytes → RepositoryTagPolicy → Bool
is_policy_of name policy = beq policy.repository_name name

abbrev pub policy_or_default : Bytes → Option RepositoryTagPolicy → RepositoryTagPolicy
policy_or_default name none = default_policy name
policy_or_default name (some policy) = policy

unfoldable pub get_repository_tag_policy : Bytes → Step Database RepositoryTagPolicy
get_repository_tag_policy name = do
  _ ← lift (require (not (is_nil name)) (codes "repository name is required"))
  query λ d.
      if not (any (has_name name) d.repositories)
      then default_policy name
      else policy_or_default name (first_row (is_policy_of name) d.repository_tag_policies)

-- INSERT INTO repository_tag_policies ... ON CONFLICT.
unfoldable pub store_policy : RepositoryTagPolicy → Database → Database
store_policy policy d = record d {
  repository_tag_policies =
      upsert_row (is_policy_of policy.repository_name) policy
        (λ row. record row {
          mode = policy.mode;
          pattern = policy.pattern;
          updated_at = policy.updated_at;
        })
        d.repository_tag_policies;
}

module _ (compile : Bytes → Option (Bytes → Bool)) where
  -- The pattern that is stored: that of another mode is dropped.
  unfoldable pub checked_pattern : RepositoryTagPolicy → Result Bytes
  checked_pattern policy =
      if not (beq policy.mode tag_policy_pattern)
      then ok []
      else if is_nil policy.pattern
      then err (failure (codes "tag policy pattern is required"))
      else if not (is_some (compile policy.pattern))
      then err (failure (codes "invalid tag policy pattern"))
      else ok policy.pattern

  unfoldable pub update_repository_tag_policy :
      RepositoryTagPolicy → ℕ → Step Database RepositoryTagPolicy
  unfolding checked_pattern store_policy get_repository
  update_repository_tag_policy policy now = do
    _ ← lift (require (not (is_nil policy.repository_name)) (codes "repository name is required"))
    _ ← get_repository policy.repository_name
    _ ← lift (require (valid_tag_policy_mode policy.mode) (codes "invalid tag policy mode"))
    pattern ← lift (checked_pattern policy)
    let stored = record policy { pattern = pattern; updated_at = some now }
    _ ← execute (store_policy stored)
    return stored
