-- ===== src/Db/Grants.antt =====
-- internal/db/store.go: grants. `random` are the bytes that ids.New draws.
use simplecontainerregistry.Base.{
  ℕ, Bytes, codes, beq, Bool, ◌||◌, ◌&&◌, not, List, ◌∷◌, [], ◌++◌, keep, any, if◌then◌else◌,
  is_nil, trim_prefix, ok, err,
}
use simplecontainerregistry.Base.Order.{lex_leb}
use simplecontainerregistry.Domain.{Action, Grant, valid_actions}
use simplecontainerregistry.Auth.Scope.{user_subject}
use simplecontainerregistry.Storage.Disk.{Step, ◌>>=◌, lift}
use simplecontainerregistry.Db.Tables.{
  Database, delete_where, order_by, require, require_affected, constraint_failed, transaction,
  execute, query,
}
use simplecontainerregistry.Db.Users.{new_id, has_id}

pub record CreateGrantParams : Type 0 where
  pub subject_type : Bytes
  pub subject_id : Bytes
  pub repository_prefix : Bytes
  pub actions : List Action

abbrev pub has_grant_id : Bytes → Grant → Bool
has_grant_id id grant = beq grant.id id

-- subject_type = 'user' AND subject_id = ?
abbrev pub is_grant_of : Bytes → Grant → Bool
is_grant_of user_id grant = beq grant.subject_type user_subject && beq grant.subject_id user_id

-- INSERT INTO grants: the id is unique, the type is 'user', and the subject is the id of a user.
unfoldable pub insert_grant : Grant → Step Database Grant
insert_grant grant d =
    if any (has_grant_id grant.id) d.grants
    then (err constraint_failed, d)
    else if not (beq grant.subject_type user_subject)
    then (err constraint_failed, d)
    else if not (any (has_id grant.subject_id) d.users)
    then (err constraint_failed, d)
    else (ok grant, record d { grants = d.grants ++ grant ∷ [] })

abbrev pub grant_from : Bytes → CreateGrantParams → ℕ → Grant
grant_from id params now = record {
  id = id;
  subject_type = params.subject_type;
  subject_id = params.subject_id;
  repository_prefix = params.repository_prefix;
  actions = params.actions;
  created_at = now;
  updated_at = now;
}

-- The checks that both ways to grant make.
unfoldable pub check_grant : CreateGrantParams → Step Database (Unit {0})
check_grant params = do
  _ ← lift (require (beq params.subject_type user_subject) (codes "unsupported subject type"))
  _ ← lift (
      require (not (is_nil params.subject_id || is_nil params.repository_prefix))
        (codes "subject id and repository prefix are required"))
  lift (require (valid_actions params.actions) (codes "invalid actions"))

unfoldable pub create_grant : Bytes → CreateGrantParams → ℕ → Step Database Grant
unfolding check_grant insert_grant
create_grant random params now = do
  _ ← check_grant params
  insert_grant (grant_from (new_id (codes "grnt") random) params now)

-- An empty type of subject stands for a user.
abbrev pub default_subject : CreateGrantParams → CreateGrantParams
default_subject params = record params {
  subject_type = if is_nil params.subject_type then user_subject else params.subject_type;
}

unfoldable pub replace_user_grant : Bytes → CreateGrantParams → ℕ → Step Database Grant
unfolding check_grant insert_grant
replace_user_grant random given now =
    let params = default_subject given in
    check_grant params >>= λ _. transaction (
      execute (λ d. record d { grants = delete_where (is_grant_of params.subject_id) d.grants })
      >>= λ _. insert_grant (grant_from (new_id (codes "grnt") random) params now))

abbrev pub by_prefix : Grant → Grant → Bool
by_prefix x y = lex_leb x.repository_prefix y.repository_prefix

unfoldable pub list_grants_by_user : Bytes → Step Database (List Grant)
list_grants_by_user user_id = query λ d. order_by by_prefix (keep (is_grant_of user_id) d.grants)

unfoldable pub list_grants : Step Database (List Grant)
list_grants = query λ d. order_by by_prefix d.grants

unfoldable pub delete_grant : Bytes → Step Database (Unit {0})
delete_grant id d = (
  require_affected (any (has_grant_id id) d.grants),
  record d { grants = delete_where (has_grant_id id) d.grants },
)

unfoldable pub normalize_repository_prefix : Bytes → Bytes
normalize_repository_prefix prefix = trim_prefix prefix (b'/' ∷ [])
