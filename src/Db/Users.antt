-- ===== src/Db/Users.antt =====
-- internal/db/store.go: users. `random` are the bytes that ids.New draws.
use simplecontainerregistry.Base.{
  ℕ, Bytes, codes, beq, Bool, true, ◌||◌, ◌&&◌, not, List, ◌∷◌, [], ◌++◌, Option, none, some, any,
  ltb, if◌then◌else◌, is_nil, ok, err,
}
use simplecontainerregistry.Base.Order.{lex_leb}
use simplecontainerregistry.Domain.{
  Role, User, UserStatus, valid_role, status_active, status_disabled,
}
use simplecontainerregistry.Storage.Digest.{hex_encode}
use simplecontainerregistry.Storage.Disk.{Step, ◌>>=◌, lift}
use simplecontainerregistry.Db.Tables.{
  Database, update_where, delete_where, first_row, order_by, scan_row, require, require_affected,
  constraint_failed, query, query_result,
}

-- ids.New, with the bytes that it draws.
unfoldable pub new_id : Bytes → Bytes → Bytes
new_id prefix random = prefix ++ b'_' ∷ hex_encode random

pub record CreateUserParams : Type 0 where
  pub username : Bytes
  pub display_name : Bytes
  pub role : Role
  pub secret_hash : Bytes
  pub not_before : Option ℕ
  pub expires_at : Option ℕ

-- Not both set, or the second one after the first.
unfoldable pub valid_window : Option ℕ → Option ℕ → Bool
valid_window (some not_before) (some expires_at) = ltb not_before expires_at
valid_window (some not_before) none = true
valid_window none expires_at = true

abbrev pub has_id : Bytes → User → Bool
has_id id user = beq user.id id

abbrev pub has_username : Bytes → User → Bool
has_username username user = beq user.username username

-- INSERT INTO users, where the id and the username are unique.
unfoldable pub insert_user : User → Step Database User
insert_user user d =
    if any (has_id user.id) d.users || any (has_username user.username) d.users
    then (err constraint_failed, d)
    else (ok user, record d { users = d.users ++ user ∷ [] })

abbrev pub user_of : Bytes → CreateUserParams → ℕ → User
user_of id params now = record {
  id = id;
  username = params.username;
  display_name = params.display_name;
  role = params.role;
  status = status_active;
  secret_hash = params.secret_hash;
  not_before = params.not_before;
  expires_at = params.expires_at;
  last_used_at = none;
  created_at = now;
  updated_at = now;
  disabled_at = none;
}

unfoldable pub create_user : Bytes → CreateUserParams → ℕ → Step Database User
unfolding insert_user
create_user random params now = do
  _ ← lift (
      require (not (is_nil params.username || is_nil params.secret_hash))
        (codes "username and secret hash are required"))
  _ ← lift (require (valid_role params.role) (codes "invalid role"))
  _ ← lift (
      require (valid_window params.not_before params.expires_at)
        (codes "expires at must be after valid from"))
  insert_user (user_of (new_id (codes "usr") random) params now)

unfoldable pub get_user : Bytes → Step Database User
get_user id = query_result λ d. scan_row (first_row (has_id id) d.users)

unfoldable pub get_user_by_username : Bytes → Step Database User
get_user_by_username username =
    query_result λ d. scan_row (first_row (has_username username) d.users)

unfoldable pub list_users : Step Database (List User)
list_users = query λ d. order_by (λ x y. lex_leb x.username y.username) d.users

-- UPDATE users ... WHERE id = ?, with requireAffected.
unfoldable pub update_user : Bytes → (User → User) → Step Database (Unit {0})
update_user id change d = (
  require_affected (any (has_id id) d.users),
  record d { users = update_where (has_id id) change d.users },
)

-- CHECK (status IN ('active', 'disabled')), for a row that is updated.
abbrev pub is_status : UserStatus → Bool
is_status status = beq status status_active || beq status status_disabled

unfoldable pub check_status : Bytes → UserStatus → Step Database (Unit {0})
check_status id status =
    query_result λ d.
      if not (is_status status) && any (has_id id) d.users then err constraint_failed else ok tt

abbrev pub with_status : UserStatus → ℕ → User → User
with_status status now user = record user {
  status = status;
  updated_at = now;
  disabled_at = if beq status status_disabled then some now else none;
}

unfoldable pub set_user_status : Bytes → UserStatus → ℕ → Step Database (Unit {0})
unfolding check_status update_user
set_user_status id status now =
    check_status id status >>= λ _. update_user id (with_status status now)

-- The grants of the user go with it.
unfoldable pub delete_user : Bytes → Step Database (Unit {0})
delete_user id d = (
  require_affected (any (has_id id) d.users),
  record d {
    users = delete_where (has_id id) d.users;
    grants =
        if any (has_id id) d.users
        then delete_where (λ grant. beq grant.subject_id id) d.grants
        else d.grants;
  },
)

unfoldable pub update_user_validity : Bytes → Option ℕ → Option ℕ → ℕ → Step Database (Unit {0})
unfolding update_user
update_user_validity id not_before expires_at now = do
  _ ←
      lift
        (require (valid_window not_before expires_at) (codes "expires at must be after valid from"))
  update_user id
      (λ user. record user { not_before = not_before; expires_at = expires_at; updated_at = now })

unfoldable pub update_user_last_used : Bytes → ℕ → Step Database (Unit {0})
unfolding update_user
update_user_last_used id now = update_user id (λ user. record user { last_used_at = some now })
