-- ===== src/Db/History.antt =====
-- internal/db/store.go: what holds of a database after any history of operations.
pub mod Accounts
pub mod Pushes
pub mod Reachable
pub mod Failed
use simplecontainerregistry.Base.{
  ℕ, Bytes, beq, Bool, true, false, List, [], ◌∷◌, ◌≡◌, Option, any, All,
}
use simplecontainerregistry.Base.Int.{ℤ}
use simplecontainerregistry.Domain.{
  Action, UserStatus, Grant, User, RepositoryTagPolicy, AuditEvent, GcSettings,
  RegistryWebhookSettings,
}
use simplecontainerregistry.Storage.Disk.{Step, ◌>>=◌, return}
use simplecontainerregistry.Db.Tables.{Database, empty_database}
use simplecontainerregistry.Db.Users.{
  CreateUserParams, has_id, create_user, set_user_status, delete_user, update_user_validity,
  update_user_last_used,
}
use simplecontainerregistry.Db.Grants.{
  CreateGrantParams, create_grant, replace_user_grant, delete_grant,
}
use simplecontainerregistry.Db.Repositories.{mark_repository_pulled, delete_repository}
use simplecontainerregistry.Db.Tags.{
  UpsertRepositoryTagParams, upsert_repository_tags, delete_repository_manifest_reference,
}
use simplecontainerregistry.Db.Policies.{update_repository_tag_policy}
use simplecontainerregistry.Db.Usage.{increment_usage_counter}
use simplecontainerregistry.Db.Settings.{
  Durations, update_gc_settings, update_registry_webhook_settings,
}
use simplecontainerregistry.Db.Audit.{Base64, insert_audit_event, ensure_active_signing_key}
use simplecontainerregistry.Db.Counted.{Owned}
use simplecontainerregistry.Db.Fitting.{IsFitting}

-- A call of a method of Store that changes the database, with its arguments.
pub data Operation : Type 0 where
  creates_user : Bytes → CreateUserParams → ℕ → Operation
  sets_user_status : Bytes → UserStatus → ℕ → Operation
  deletes_user : Bytes → Operation
  updates_user_validity : Bytes → Option ℕ → Option ℕ → ℕ → Operation
  updates_user_last_used : Bytes → ℕ → Operation
  creates_grant : Bytes → CreateGrantParams → ℕ → Operation
  replaces_user_grant : Bytes → CreateGrantParams → ℕ → Operation
  deletes_grant : Bytes → Operation
  upserts_tags : List UpsertRepositoryTagParams → ℕ → Operation
  updates_policy : RepositoryTagPolicy → ℕ → Operation
  deletes_reference : Bytes → Bytes → Bytes → Operation
  marks_pulled : Bytes → Bytes → ℕ → Operation
  counts_usage : Bytes → Action → ℕ → Operation
  deletes_repository : Bytes → Operation
  updates_gc : GcSettings → ℕ → Operation
  updates_webhook : RegistryWebhookSettings → ℕ → Operation
  audits : Bytes → AuditEvent → Operation
  ensures_key : Bytes → Bytes → ℕ → Operation

-- What the operations take from other packages: regexp, time, and encoding/base64.
pub record Packages : Type 0 where
  pub compile : Bytes → Option (Bytes → Bool)
  pub rfc3339 : ℕ → Bytes
  pub durations : Durations
  pub base64 : Base64

-- A call, of which only the error is kept.
abbrev pub result_only : {A : Type 0} → Step Database A → Step Database (Unit {0})
result_only m = m >>= λ _. return tt

module _ (packages : Packages) where
  unfoldable pub respond : Operation → Step Database (Unit {0})
  respond (creates_user random params now) = result_only (create_user random params now)
  respond (sets_user_status id status now) = set_user_status id status now
  respond (deletes_user id) = delete_user id
  respond (updates_user_validity id not_before expires_at now) =
      update_user_validity id not_before expires_at now
  respond (updates_user_last_used id now) = update_user_last_used id now
  respond (creates_grant random params now) = result_only (create_grant random params now)
  respond (replaces_user_grant random params now) =
      result_only (replace_user_grant random params now)
  respond (deletes_grant id) = delete_grant id
  respond (upserts_tags params now) = upsert_repository_tags params now
  respond (updates_policy policy now) =
      result_only (update_repository_tag_policy packages.compile policy now)
  respond (deletes_reference name reference digest) =
      delete_repository_manifest_reference name reference digest
  respond (marks_pulled name reference now) = mark_repository_pulled name reference now
  respond (counts_usage name action now) = increment_usage_counter packages.rfc3339 name action now
  respond (deletes_repository name) = delete_repository name
  respond (updates_gc settings now) = update_gc_settings packages.durations settings now
  respond (updates_webhook settings now) = update_registry_webhook_settings settings now
  respond (audits random event) = insert_audit_event random event
  respond (ensures_key random secret now) =
      ensure_active_signing_key packages.base64 random secret now

  -- The database after the call.
  unfoldable pub perform : Operation → Database → Database
  unfolding respond
  perform operation d = (respond operation d).1

  -- The databases that operations reach from an empty one.
  pub data Reached : Database → Type 0 where
    start : Reached empty_database
    next : {d : Database} → Reached d → (operation : Operation) → Reached (perform operation d)

-- Every grant belongs to a user.
abbrev pub Granted : List User → Grant → Type 0
Granted users grant = any (has_id grant.subject_id) users ≡ true

pub record IsConsistent (d : Database) : Type 0 where
  pub fitting : IsFitting d.repositories d.repository_tags
  pub granted : All (Granted d.users) d.grants
