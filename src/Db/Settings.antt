-- ===== src/Db/Settings.antt =====
-- internal/db/store.go: the settings of the garbage collection and of the webhook. A duration is
-- nanoseconds; time.Duration.String and time.ParseDuration are parameters.
pub mod Stored
use simplecontainerregistry.Base.{
  ℕ, Bytes, codes, beq, Bool, true, false, ◌||◌, List, ◌∷◌, [], Option, none, some, keep,
  if◌then◌else◌, Result, ok, err, Error, failure, not, ◌>>=◌,
}
use simplecontainerregistry.Base.Int.{ℤ, pos, negsuc, ltb_ℤ}
use simplecontainerregistry.Domain.{GcSettings, RegistryWebhookSettings}
use simplecontainerregistry.Storage.Disk as Step
use simplecontainerregistry.Storage.Disk.{lift}
use simplecontainerregistry.Db.Tables.{
  Database, AppSetting, first_row, upsert_row, require, transaction, execute, query, query_result,
}

abbrev pub setting_gc_enabled : Bytes
setting_gc_enabled = codes "gc.enabled"

abbrev pub setting_gc_delay : Bytes
setting_gc_delay = codes "gc.delay"

abbrev pub setting_gc_interval : Bytes
setting_gc_interval = codes "gc.interval"

abbrev pub setting_registry_webhook_url : Bytes
setting_registry_webhook_url = codes "webhook.registry_url"

-- Durations as texts.
pub record Durations : Type 0 where
  pub text : ℤ → Bytes
  pub parse : Bytes → Option ℤ

abbrev pub has_key : Bytes → AppSetting → Bool
has_key key setting = beq setting.key key

-- INSERT INTO app_settings ... ON CONFLICT.
unfoldable pub store_setting : Bytes → Bytes → ℕ → Database → Database
store_setting key value now d = record d {
  app_settings =
      upsert_row (has_key key) (record { key = key; value = value; updated_at = now })
        (λ setting. record setting { value = value; updated_at = now }) d.app_settings;
}

abbrev pub bool_text : Bool → Bytes
bool_text true = codes "true"
bool_text false = codes "false"

abbrev pub is_gc_setting : AppSetting → Bool
is_gc_setting row =
    beq row.key setting_gc_enabled
    || (beq row.key setting_gc_delay || beq row.key setting_gc_interval)

module _ (durations : Durations) where
  abbrev pub parse_duration : Bytes → Result ℤ
  parse_duration value = elim (durations.parse value) [
    | none ↦ err (failure (codes "invalid duration"))
    | some duration ↦ ok duration
  ]

  -- What one row of the query changes.
  unfoldable pub read_setting : AppSetting → GcSettings → Result GcSettings
  read_setting row settings =
      if beq row.key setting_gc_enabled
      then ok (record settings { enabled = beq row.value (codes "true") })
      else if beq row.key setting_gc_delay
      then (parse_duration row.value >>= λ delay. ok (record settings { delay = delay }))
      else if beq row.key setting_gc_interval
      then (parse_duration row.value >>= λ interval. ok (record settings { interval = interval }))
      else ok settings

  unfoldable pub read_settings : List AppSetting → GcSettings → Result GcSettings
  unfolding read_setting
  read_settings [] settings = ok settings
  read_settings (row ∷ rows) settings =
      read_setting row settings >>= λ changed. read_settings rows changed

  unfoldable pub gc_settings : GcSettings → Step.Step Database GcSettings
  unfolding read_settings
  gc_settings fallback =
      query_result λ d. read_settings (keep is_gc_setting d.app_settings) fallback

  -- The order in which Go ranges over the map of the three values does not matter.
  unfoldable pub store_gc_settings : GcSettings → ℕ → Database → Database
  unfolding store_setting
  store_gc_settings settings now d =
      store_setting setting_gc_interval (durations.text settings.interval) now (
        store_setting setting_gc_delay (durations.text settings.delay) now
          (store_setting setting_gc_enabled (bool_text settings.enabled) now d))

  unfoldable pub update_gc_settings : GcSettings → ℕ → Step.Step Database (Unit {0})
  unfolding store_gc_settings
  update_gc_settings settings now =
      Step.◌>>=◌
        (lift (require (not (ltb_ℤ settings.delay (pos 0))) (codes "gc delay cannot be negative")))
        λ _.
          Step.◌>>=◌
            (lift
              (require (ltb_ℤ (pos 0) settings.interval) (codes "gc interval must be positive")))
            λ _. execute (store_gc_settings settings now)

abbrev pub url_of : Option AppSetting → RegistryWebhookSettings
url_of none = record { url = [] }
url_of (some row) = record { url = row.value }

unfoldable pub registry_webhook_settings : Step.Step Database RegistryWebhookSettings
registry_webhook_settings =
    query λ d. url_of (first_row (has_key setting_registry_webhook_url) d.app_settings)

unfoldable pub update_registry_webhook_settings :
    RegistryWebhookSettings → ℕ → Step.Step Database (Unit {0})
unfolding store_setting
update_registry_webhook_settings settings now =
    execute (store_setting setting_registry_webhook_url settings.url now)
