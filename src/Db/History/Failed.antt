-- ===== src/Db/History/Failed.antt =====
-- internal/db/store.go: an operation that fails changes nothing.
use simplecontainerregistry.Base.{
  ℕ, Bytes, Bool, false, List, [], ◌∷◌, ◌≡◌, refl, Option, any, err, Error, arith,
}
use simplecontainerregistry.Domain.{
  Action, AuditEvent, GcSettings, Grant, RepositoryTagPolicy, User,
}
use simplecontainerregistry.Db.Tables.{Database, SigningKeyRow}
use simplecontainerregistry.Db.Users.{
  CreateUserParams, has_id, insert_user, create_user, update_user, set_user_status, check_status,
  delete_user, update_user_validity, update_user_last_used,
}
use simplecontainerregistry.Db.Grants.{
  CreateGrantParams, has_grant_id, insert_grant, check_grant, create_grant, replace_user_grant,
  delete_grant,
}
use simplecontainerregistry.Db.Repositories.{
  mark_repository_pulled, get_repository, delete_repository,
}
use simplecontainerregistry.Db.Tags.{
  UpsertRepositoryTagParams, upsert_checked, upsert_repository_tags,
  delete_repository_manifest_reference,
}
use simplecontainerregistry.Db.Policies.{update_repository_tag_policy}
use simplecontainerregistry.Db.Usage.{increment_usage_counter}
use simplecontainerregistry.Db.Settings.{
  Durations, update_gc_settings, update_registry_webhook_settings,
}
use simplecontainerregistry.Db.Audit.{
  Base64, insert_audit_event, insert_event, active_signing_key, insert_key,
  ensure_active_signing_key,
}
use simplecontainerregistry.Db.Atomic.{
  Atomic, atomic, apply_Atomic, atomic_steps, return-Atomic, on_error-Atomic, bind-Atomic,
  update_where_none, delete_where_none, require_affected-err, execute-Atomic, lift-Reads,
}
use simplecontainerregistry.Db.History.{
  Operation, creates_user, sets_user_status, deletes_user, updates_user_validity,
  updates_user_last_used, creates_grant, replaces_user_grant, deletes_grant, upserts_tags,
  updates_policy, deletes_reference, marks_pulled, counts_usage, deletes_repository, updates_gc,
  updates_webhook, audits, ensures_key, Packages, respond,
}

insert_user-Atomic : (user : User) → Atomic (insert_user user)
unfolding insert_user
insert_user-Atomic user = atomic λ d e h. ground arith

create_user-Atomic :
    (random : Bytes) (params : CreateUserParams) (now : ℕ) → Atomic (create_user random params now)
unfolding create_user
create_user-Atomic random params now = search (atomic_steps, insert_user-Atomic)

-- No row is affected where none has the key.
update_user-Atomic : (id : Bytes) (change : User → User) → Atomic (update_user id change)
unfolding update_user
update_user-Atomic id change =
    atomic
      λ d e h. rw (update_where_none (has_id id) change d.users (require_affected-err _ e h)) refl

set_user_status-Atomic : (id status : Bytes) (now : ℕ) → Atomic (set_user_status id status now)
unfolding set_user_status check_status
set_user_status-Atomic id status now = search (atomic_steps, update_user-Atomic)

update_user_last_used-Atomic : (id : Bytes) (now : ℕ) → Atomic (update_user_last_used id now)
unfolding update_user_last_used
update_user_last_used-Atomic id now = update_user-Atomic id _

update_user_validity-Atomic :
    (id : Bytes) (not_before expires_at : Option ℕ) (now : ℕ)
    → Atomic (update_user_validity id not_before expires_at now)
unfolding update_user_validity
update_user_validity-Atomic id not_before expires_at now =
    bind-Atomic _ _ (lift-Reads _) (λ _. update_user-Atomic id _)

delete_user-Atomic : (id : Bytes) → Atomic (delete_user id)
unfolding delete_user
delete_user-Atomic id = atomic λ d e h.
    let absent : any (has_id id) d.users ≡ false = require_affected-err _ e h in
    rw (absent, delete_where_none (has_id id) d.users absent) refl

insert_grant-Atomic : (grant : Grant) → Atomic (insert_grant grant)
unfolding insert_grant
insert_grant-Atomic grant = atomic λ d e h. ground arith

create_grant-Atomic :
    (random : Bytes) (params : CreateGrantParams) (now : ℕ)
    → Atomic (create_grant random params now)
unfolding create_grant check_grant
create_grant-Atomic random params now = search (atomic_steps, insert_grant-Atomic) depth 9

replace_user_grant-Atomic :
    (random : Bytes) (params : CreateGrantParams) (now : ℕ)
    → Atomic (replace_user_grant random params now)
unfolding replace_user_grant check_grant
replace_user_grant-Atomic random params now = search atomic_steps depth 9

delete_grant-Atomic : (id : Bytes) → Atomic (delete_grant id)
unfolding delete_grant
delete_grant-Atomic id =
    atomic
      λ d e h. rw (delete_where_none (has_grant_id id) d.grants (require_affected-err _ e h)) refl

upsert_repository_tags-Atomic :
    (params : List UpsertRepositoryTagParams) (now : ℕ) → Atomic (upsert_repository_tags params now)
unfolding upsert_repository_tags upsert_checked
upsert_repository_tags-Atomic [] now = atomic (λ d e h. refl)
upsert_repository_tags-Atomic (param ∷ params) now = search atomic_steps depth 9

update_repository_tag_policy-Atomic :
    (compile : Bytes → Option (Bytes → Bool)) (policy : RepositoryTagPolicy) (now : ℕ)
    → Atomic (update_repository_tag_policy compile policy now)
unfolding update_repository_tag_policy get_repository
update_repository_tag_policy-Atomic compile policy now =
    search (atomic_steps, return-Atomic) depth 12

delete_repository_manifest_reference-Atomic :
    (name reference digest : Bytes)
    → Atomic (delete_repository_manifest_reference name reference digest)
unfolding delete_repository_manifest_reference
delete_repository_manifest_reference-Atomic name reference digest = search atomic_steps

mark_repository_pulled-Atomic :
    (name reference : Bytes) (now : ℕ) → Atomic (mark_repository_pulled name reference now)
unfolding mark_repository_pulled
mark_repository_pulled-Atomic name reference now = search atomic_steps

increment_usage_counter-Atomic :
    (rfc3339 : ℕ → Bytes) (name : Bytes) (action : Action) (now : ℕ)
    → Atomic (increment_usage_counter rfc3339 name action now)
unfolding increment_usage_counter
increment_usage_counter-Atomic rfc3339 name action now = search atomic_steps

delete_repository-Atomic : (name : Bytes) → Atomic (delete_repository name)
unfolding delete_repository
delete_repository-Atomic name = search atomic_steps

update_gc_settings-Atomic :
    (durations : Durations) (settings : GcSettings) (now : ℕ)
    → Atomic (update_gc_settings durations settings now)
unfolding update_gc_settings
update_gc_settings-Atomic durations settings now = search atomic_steps

insert_audit_event-Atomic :
    (random : Bytes) (event : AuditEvent) → Atomic (insert_audit_event random event)
unfolding insert_audit_event insert_event
insert_audit_event-Atomic random event = atomic λ d e h. ground arith

insert_key-Atomic : (base64 : Base64) (key : SigningKeyRow) → Atomic (insert_key base64 key)
unfolding insert_key
insert_key-Atomic base64 key = atomic λ d e h. ground arith

ensure_active_signing_key-Atomic :
    (base64 : Base64) (random secret : Bytes) (now : ℕ)
    → Atomic (ensure_active_signing_key base64 random secret now)
unfolding ensure_active_signing_key active_signing_key
ensure_active_signing_key-Atomic base64 random secret now =
    search (atomic_steps, on_error-Atomic, insert_key-Atomic)

module _ (packages : Packages) where
  respond-Atomic : (operation : Operation) → Atomic (respond packages operation)
  unfolding respond update_registry_webhook_settings
  respond-Atomic (creates_user random params now) =
      return-Atomic _ _ (create_user-Atomic random params now)
  respond-Atomic (sets_user_status id status now) = set_user_status-Atomic id status now
  respond-Atomic (deletes_user id) = delete_user-Atomic id
  respond-Atomic (updates_user_validity id not_before expires_at now) =
      update_user_validity-Atomic id not_before expires_at now
  respond-Atomic (updates_user_last_used id now) = update_user_last_used-Atomic id now
  respond-Atomic (creates_grant random params now) =
      return-Atomic _ _ (create_grant-Atomic random params now)
  respond-Atomic (replaces_user_grant random params now) =
      return-Atomic _ _ (replace_user_grant-Atomic random params now)
  respond-Atomic (deletes_grant id) = delete_grant-Atomic id
  respond-Atomic (upserts_tags params now) = upsert_repository_tags-Atomic params now
  respond-Atomic (updates_policy policy now) =
      return-Atomic _ _ (update_repository_tag_policy-Atomic packages.compile policy now)
  respond-Atomic (deletes_reference name reference digest) =
      delete_repository_manifest_reference-Atomic name reference digest
  respond-Atomic (marks_pulled name reference now) =
      mark_repository_pulled-Atomic name reference now
  respond-Atomic (counts_usage name action now) =
      increment_usage_counter-Atomic packages.rfc3339 name action now
  respond-Atomic (deletes_repository name) = delete_repository-Atomic name
  respond-Atomic (updates_gc settings now) =
      update_gc_settings-Atomic packages.durations settings now
  respond-Atomic (updates_webhook settings now) = execute-Atomic _
  respond-Atomic (audits random event) = insert_audit_event-Atomic random event
  respond-Atomic (ensures_key random secret now) =
      ensure_active_signing_key-Atomic packages.base64 random secret now

  -- An operation of the store that returns an error has changed nothing in the database, whichever of
  -- its checks, its constraints or its statements failed.
  pub respond-Unchanged :
      (operation : Operation) (d : Database) (e : Error)
      → (respond packages operation d).0 ≡ err e
      → (respond packages operation d).1 ≡ d
  respond-Unchanged operation = apply_Atomic (respond-Atomic operation)
