-- ===== src/Db/History/Reachable.antt =====
-- internal/db/store.go: every operation keeps the database consistent.
use simplecontainerregistry.Base.{ℕ, Bytes, Bool, Option, inl, inr, Bool-cases, any}
use simplecontainerregistry.Domain.{
  Action, AuditEvent, GcSettings, RegistryWebhookSettings, RepositoryTagPolicy,
}
use simplecontainerregistry.Db.Tables.{Database, SigningKeyRow, execute}
use simplecontainerregistry.Db.Policies.{update_repository_tag_policy, store_policy}
use simplecontainerregistry.Db.Usage.{increment_usage_counter, count_use}
use simplecontainerregistry.Db.Settings.{
  Durations, update_gc_settings, update_registry_webhook_settings, store_gc_settings, store_setting,
}
use simplecontainerregistry.Db.Audit.{
  Base64, has_event_id, has_key_id, with_id, insert_audit_event, insert_event, active_signing_key,
  insert_key, ensure_active_signing_key,
}
use simplecontainerregistry.Db.History.Pushes.{
  pushes-Keep, references-Keep, deletions-Keep, pulls-Keep,
}
use simplecontainerregistry.Db.Keeping.{
  Keeps, keeps, apply_Keeps, keeping, execute-Keeps, on_error-Keeps,
}
use simplecontainerregistry.Db.History.{
  Operation, creates_user, sets_user_status, deletes_user, updates_user_validity,
  updates_user_last_used, creates_grant, replaces_user_grant, deletes_grant, upserts_tags,
  updates_policy, deletes_reference, marks_pulled, counts_usage, deletes_repository, updates_gc,
  updates_webhook, audits, ensures_key, Packages, respond, perform, Reached, start, next,
  IsConsistent,
}
use simplecontainerregistry.Db.History.Accounts.{
  create_user-Keeps, set_user_status-Keeps, delete_user-Keeps, update_user_validity-Keeps,
  update_user_last_used-Keeps, create_grant-Keeps, replace_user_grant-Keeps, delete_grant-Keeps,
}

store_policy-Keeps :
    (policy : RepositoryTagPolicy) → Keeps IsConsistent (execute (store_policy policy))
unfolding store_policy
store_policy-Keeps policy =
    execute-Keeps IsConsistent _ (λ d h. record { fitting = h.fitting; granted = h.granted })

update_repository_tag_policy-Keeps :
    (compile : Bytes → Option (Bytes → Bool)) (policy : RepositoryTagPolicy) (now : ℕ)
    → Keeps IsConsistent (update_repository_tag_policy compile policy now)
unfolding update_repository_tag_policy
update_repository_tag_policy-Keeps compile policy now = search (keeping, store_policy-Keeps) depth 9

count_use-Keeps :
    (rfc3339 : ℕ → Bytes) (name : Bytes) (action : Action) (now : ℕ)
    → Keeps IsConsistent (execute (count_use rfc3339 name action now))
unfolding count_use
count_use-Keeps rfc3339 name action now =
    execute-Keeps IsConsistent _ (λ d h. record { fitting = h.fitting; granted = h.granted })

increment_usage_counter-Keeps :
    (rfc3339 : ℕ → Bytes) (name : Bytes) (action : Action) (now : ℕ)
    → Keeps IsConsistent (increment_usage_counter rfc3339 name action now)
unfolding increment_usage_counter
increment_usage_counter-Keeps rfc3339 name action now = search (keeping, count_use-Keeps)

store_setting-IsConsistent :
    (key value : Bytes) (now : ℕ) (d : Database)
    → IsConsistent d
    → IsConsistent (store_setting key value now d)
unfolding store_setting
store_setting-IsConsistent key value now d h = record { fitting = h.fitting; granted = h.granted }

store_gc_settings-IsConsistent :
    (durations : Durations) (settings : GcSettings) (now : ℕ) (d : Database)
    → IsConsistent d
    → IsConsistent (store_gc_settings durations settings now d)
unfolding store_gc_settings
store_gc_settings-IsConsistent durations settings now d h =
    store_setting-IsConsistent _ _ now _
      (store_setting-IsConsistent _ _ now _ (store_setting-IsConsistent _ _ now d h))

update_gc_settings-Keeps :
    (durations : Durations) (settings : GcSettings) (now : ℕ)
    → Keeps IsConsistent (update_gc_settings durations settings now)
unfolding update_gc_settings
update_gc_settings-Keeps durations settings now =
    search (keeping, execute-Keeps, store_gc_settings-IsConsistent)

update_registry_webhook_settings-Keeps :
    (settings : RegistryWebhookSettings) (now : ℕ)
    → Keeps IsConsistent (update_registry_webhook_settings settings now)
unfolding update_registry_webhook_settings
update_registry_webhook_settings-Keeps settings now =
    search (execute-Keeps, store_setting-IsConsistent)

insert_audit_event-Keeps :
    (random : Bytes) (event : AuditEvent) → Keeps IsConsistent (insert_audit_event random event)
unfolding insert_audit_event insert_event
insert_audit_event-Keeps random event = keeps λ d h.
    elim (Bool-cases (any (has_event_id (with_id random event).id) d.audit_events)) [
      | inl e ↦ rw e h
      | inr e ↦ rw e (record { fitting = h.fitting; granted = h.granted })
    ]

insert_key-Keeps :
    (base64 : Base64) (key : SigningKeyRow) → Keeps IsConsistent (insert_key base64 key)
unfolding insert_key
insert_key-Keeps base64 key = keeps λ d h.
    elim (Bool-cases (any (has_key_id key.id) d.signing_keys)) [
      | inl e ↦ rw e h
      | inr e ↦ rw e (record { fitting = h.fitting; granted = h.granted })
    ]

active_signing_key-Keeps : (base64 : Base64) → Keeps IsConsistent (active_signing_key base64)
unfolding active_signing_key
active_signing_key-Keeps base64 = search keeping

ensure_active_signing_key-Keeps :
    (base64 : Base64) (random secret : Bytes) (now : ℕ)
    → Keeps IsConsistent (ensure_active_signing_key base64 random secret now)
unfolding ensure_active_signing_key
ensure_active_signing_key-Keeps base64 random secret now =
    search (keeping, on_error-Keeps, insert_key-Keeps, active_signing_key-Keeps)

module _ (packages : Packages) where
  respond-Keeps : (operation : Operation) → Keeps IsConsistent (respond packages operation)
  unfolding respond
  respond-Keeps (creates_user random params now) = search (keeping, create_user-Keeps)
  respond-Keeps (sets_user_status id status now) = set_user_status-Keeps id status now
  respond-Keeps (deletes_user id) = delete_user-Keeps id
  respond-Keeps (updates_user_validity id not_before expires_at now) =
      update_user_validity-Keeps id not_before expires_at now
  respond-Keeps (updates_user_last_used id now) = update_user_last_used-Keeps id now
  respond-Keeps (creates_grant random params now) = search (keeping, create_grant-Keeps)
  respond-Keeps (replaces_user_grant random params now) = search (keeping, replace_user_grant-Keeps)
  respond-Keeps (deletes_grant id) = delete_grant-Keeps id
  respond-Keeps (upserts_tags params now) = pushes-Keep params now
  respond-Keeps (updates_policy policy now) = search (keeping, update_repository_tag_policy-Keeps)
  respond-Keeps (deletes_reference name reference digest) = references-Keep name reference digest
  respond-Keeps (marks_pulled name reference now) = pulls-Keep name reference now
  respond-Keeps (counts_usage name action now) =
      increment_usage_counter-Keeps packages.rfc3339 name action now
  respond-Keeps (deletes_repository name) = deletions-Keep name
  respond-Keeps (updates_gc settings now) = update_gc_settings-Keeps packages.durations settings now
  respond-Keeps (updates_webhook settings now) = update_registry_webhook_settings-Keeps settings now
  respond-Keeps (audits random event) = insert_audit_event-Keeps random event
  respond-Keeps (ensures_key random secret now) =
      ensure_active_signing_key-Keeps packages.base64 random secret now

  perform-IsConsistent :
      (operation : Operation) (d : Database)
      → IsConsistent d
      → IsConsistent (perform packages operation d)
  unfolding perform
  perform-IsConsistent operation = apply_Keeps (respond-Keeps operation)

  -- After any history of operations on an empty database, whichever of them failed, every repository
  -- counts exactly its tags, the different digests that they name, and the bytes that these take, each
  -- digest once and in the range of int64; every tag belongs to a repository, and no
  -- repository has a tag twice; and every grant belongs to a user.
  pub Reached-IsConsistent : {d : Database} → Reached packages d → IsConsistent d
  Reached-IsConsistent start = record {
    fitting = record { counted = tt; owned = tt; keyed = tt };
    granted = tt;
  }
  Reached-IsConsistent (next reached operation) =
      perform-IsConsistent operation _ (Reached-IsConsistent reached)
