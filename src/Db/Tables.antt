-- ===== src/Db/Tables.antt =====
-- internal/db/schema.go and store.go: the tables of the database, and what the SQL statements of the
-- store do with rows. A table is the list of its rows, in the order of insertion. A statement is a step
-- on the database; it fails when it breaks a constraint of the schema (a primary key, UNIQUE, a foreign
-- key), and a transaction that fails changes nothing. Faults of the disk are not modelled.
use simplecontainerregistry.Base.{
  ℕ, ◌+◌, ◌^◌, Bytes, codes, Bool, true, false, not, List, [], ◌∷◌, ◌++◌, Option, none, some, keep,
  any, ltb, if◌then◌else◌, Result, ok, err, Error, failure, db_not_found,
}
use simplecontainerregistry.Domain.{
  Action, User, Grant, Repository, RepositoryTag, RepositoryTagPolicy, AuditEvent,
}
use simplecontainerregistry.Storage.Disk.{Step}

-- The table usage_counters.
pub record UsageCounter : Type 0 where
  pub id : Bytes
  pub repository_name : Bytes
  pub action : Action
  pub count : ℕ
  pub window_start : ℕ
  pub window_end : ℕ

-- The table signing_keys; `secret` is the encoded one.
pub record SigningKeyRow : Type 0 where
  pub id : Bytes
  pub secret : Bytes
  pub created_at : ℕ
  pub retired_at : Option ℕ

-- The table app_settings.
pub record AppSetting : Type 0 where
  pub key : Bytes
  pub value : Bytes
  pub updated_at : ℕ

-- The tables. The column `actions` of grants holds the list as JSON, which is read back as it was.
pub record Database : Type 0 where
  pub users : List User
  pub grants : List Grant
  pub repositories : List Repository
  pub repository_tags : List RepositoryTag
  pub repository_tag_policies : List RepositoryTagPolicy
  pub audit_events : List AuditEvent
  pub usage_counters : List UsageCounter
  pub signing_keys : List SigningKeyRow
  pub app_settings : List AppSetting

abbrev pub empty_database : Database
empty_database = record {
  users = [];
  grants = [];
  repositories = [];
  repository_tags = [];
  repository_tag_policies = [];
  audit_events = [];
  usage_counters = [];
  signing_keys = [];
  app_settings = [];
}

module _ {A : Type 0} where
  -- UPDATE ... WHERE.
  unfoldable pub update_where : (A → Bool) → (A → A) → List A → List A
  update_where p f [] = []
  update_where p f (x ∷ xs) = (if p x then f x else x) ∷ update_where p f xs

  -- DELETE ... WHERE.
  unfoldable pub delete_where : (A → Bool) → List A → List A
  delete_where p xs = keep (λ x. not (p x)) xs

  -- The first row that a SELECT yields.
  unfoldable pub first_row : (A → Bool) → List A → Option A
  first_row p [] = none
  first_row p (x ∷ xs) = let rest = first_row p xs in if p x then some x else rest

  -- INSERT ... ON CONFLICT DO UPDATE: `p` tells the row with the key of the new one.
  unfoldable pub upsert_row : (A → Bool) → A → (A → A) → List A → List A
  upsert_row p row f rows = if any p rows then update_where p f rows else rows ++ row ∷ []

  -- ORDER BY, by a test that is true for rows in their order.
  unfoldable pub place_row : (A → A → Bool) → A → List A → List A
  place_row before x [] = x ∷ []
  place_row before x (y ∷ ys) =
      let rest = place_row before x ys in if before x y then x ∷ y ∷ ys else y ∷ rest

  unfoldable pub order_by : (A → A → Bool) → List A → List A
  unfolding place_row
  order_by before [] = []
  order_by before (x ∷ xs) = place_row before x (order_by before xs)

  -- SUM over a column.
  unfoldable pub sum_of : (A → ℕ) → List A → ℕ
  sum_of column [] = 0
  sum_of column (x ∷ xs) = column x + sum_of column xs

  -- The scan of one row; sql.ErrNoRows becomes ErrNotFound.
  unfoldable pub scan_row : Option A → Result A
  scan_row none = err db_not_found
  scan_row (some row) = ok row

-- SUM fails beyond the range of int64.
unfoldable pub checked_sum : ℕ → Result ℕ
checked_sum n = if ltb n (2 ^ 63) then ok n else err (failure (codes "integer overflow"))

abbrev pub constraint_failed : Error
constraint_failed = failure (codes "constraint failed")

-- requireAffected, on whether a row was affected.
unfoldable pub require_affected : Bool → Result (Unit {0})
require_affected affected = if affected then ok tt else err db_not_found

-- A check of the arguments of an operation.
abbrev pub require : Bool → Bytes → Result (Unit {0})
require true message = ok tt
require false message = err (failure message)

-- BEGIN, and COMMIT or ROLLBACK.
abbrev pub end_transaction {ℓ} : {A : Type ℓ} → Database → Result A × Database → Result A × Database
end_transaction before (ok a, after) = (ok a, after)
end_transaction before (err e, after) = (err e, before)

abbrev pub transaction {ℓ} : {A : Type ℓ} → Step Database A → Step Database A
transaction body d = end_transaction d (body d)

-- A statement that cannot fail.
abbrev pub execute : (Database → Database) → Step Database (Unit {0})
execute f d = (ok tt, f d)

-- A query.
abbrev pub query {ℓ} : {A : Type ℓ} → (Database → A) → Step Database A
query f d = (ok (f d), d)

abbrev pub query_result {ℓ} : {A : Type ℓ} → (Database → Result A) → Step Database A
query_result f d = (f d, d)
