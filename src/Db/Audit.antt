-- ===== src/Db/Audit.antt =====
-- internal/db/store.go: audit events and signing keys. base64.RawStdEncoding is a parameter.
use simplecontainerregistry.Base.{
  ℕ, Bytes, codes, beq, Bool, true, false, ◌||◌, List, ◌∷◌, [], ◌++◌, Option, none, some, keep, any,
  ltb, leb, ◌==◌, take, if◌then◌else◌, is_nil, Result, ok, err, Error, db_not_found, failure,
}
use simplecontainerregistry.Base.Int.{ℤ, pos, negsuc}
use simplecontainerregistry.Domain.{AuditEvent, SigningKey}
use simplecontainerregistry.Storage.Disk.{Step, ◌>>=◌, lift, return, on_error}
use simplecontainerregistry.Db.Tables.{
  Database, SigningKeyRow, first_row, order_by, constraint_failed, scan_row, query, query_result,
}
use simplecontainerregistry.Db.Users.{new_id}

-- An event without an id gets one; `random` are the bytes that ids.New draws.
abbrev pub with_id : Bytes → AuditEvent → AuditEvent
with_id random event = record event {
  id = if is_nil event.id then new_id (codes "aud") random else event.id;
}

abbrev pub has_event_id : Bytes → AuditEvent → Bool
has_event_id id event = beq event.id id

abbrev pub has_key_id : Bytes → SigningKeyRow → Bool
has_key_id id key = beq key.id id

-- INSERT INTO audit_events, where the id is unique.
unfoldable pub insert_event : AuditEvent → Step Database (Unit {0})
insert_event event d =
    if any (has_event_id event.id) d.audit_events
    then (err constraint_failed, d)
    else (ok tt, record d { audit_events = d.audit_events ++ event ∷ [] })

unfoldable pub insert_audit_event : Bytes → AuditEvent → Step Database (Unit {0})
unfolding insert_event
insert_audit_event random event = insert_event (with_id random event)

abbrev pub shown_events : ℤ → ℕ
shown_events (negsuc n) = 100
shown_events (pos n) = if n == 0 || ltb 500 n then 100 else n

unfoldable pub list_audit_events : ℤ → Step Database (List AuditEvent)
list_audit_events limit =
    query λ d.
      take (shown_events limit) (order_by (λ x y. leb y.created_at x.created_at) d.audit_events)

-- base64.RawStdEncoding.
pub record Base64 : Type 0 where
  pub encode : Bytes → Bytes
  pub decode : Bytes → Option Bytes

abbrev pub is_unretired : Option ℕ → Bool
is_unretired none = true
is_unretired (some time) = false

-- WHERE retired_at IS NULL ORDER BY created_at DESC LIMIT 1.
unfoldable pub latest_key : List SigningKeyRow → Option SigningKeyRow
latest_key rows =
    first_row (λ row. true)
      (order_by (λ x y. leb y.created_at x.created_at)
        (keep (λ row. is_unretired row.retired_at) rows))

abbrev pub is_db_not_found : Error → Bool
is_db_not_found db_not_found = true
is_db_not_found _ = false

module _ (base64 : Base64) where
  abbrev pub decoded_key : SigningKeyRow → Option Bytes → Result SigningKey
  decoded_key row none = err (failure (codes "illegal base64 data"))
  decoded_key row (some secret) = ok (record {
    id = row.id;
    secret = secret;
    created_at = row.created_at;
    retired_at = row.retired_at;
  })

  unfoldable pub active_signing_key : Step Database SigningKey
  unfolding latest_key
  active_signing_key = do
    row ← query_result λ d. scan_row (latest_key d.signing_keys)
    lift (decoded_key row (base64.decode row.secret))

  abbrev pub key_row : Bytes → Bytes → ℕ → SigningKeyRow
  key_row random secret now = record {
    id = new_id (codes "key") random;
    secret = base64.encode secret;
    created_at = now;
    retired_at = none;
  }

  -- INSERT INTO signing_keys, where the id is unique.
  unfoldable pub insert_key : SigningKeyRow → Step Database (Unit {0})
  insert_key key d =
      if any (has_key_id key.id) d.signing_keys
      then (err constraint_failed, d)
      else (ok tt, record d { signing_keys = d.signing_keys ++ key ∷ [] })

  unfoldable pub ensure_active_signing_key : Bytes → Bytes → ℕ → Step Database (Unit {0})
  unfolding active_signing_key insert_key
  ensure_active_signing_key random secret now =
      on_error is_db_not_found (insert_key (key_row random secret now))
        (active_signing_key >>= λ key. return tt)
