-- ===== src/Db/Settings/Stored.antt =====
-- internal/db/store.go: the settings that were stored are read back.
use simplecontainerregistry.Base.{
  ℕ, Bytes, codes, beq, beq_iff, beq_refl, Bool, true, false, List, [], ◌∷◌, ◌≡◌, refl, ◌∙◌, inl,
  inr, some, keep, any, All, All-append, Bool-cases, if◌then◌else◌, arith, ok,
}
use simplecontainerregistry.Base.Int.{ℤ, pos, ltb_ℤ}
use simplecontainerregistry.Domain.{GcSettings}
use simplecontainerregistry.Db.Tables.{Database, AppSetting, update_where, upsert_row}
use simplecontainerregistry.Db.Rows.{All-upsert_row, any-upsert_row, any-upsert_row_self}
use simplecontainerregistry.Db.Settings.{
  setting_gc_enabled, setting_gc_delay, setting_gc_interval, Durations, has_key, store_setting,
  bool_text, parse_duration, read_setting, read_settings, is_gc_setting, gc_settings,
  store_gc_settings, update_gc_settings,
}

-- A row of the key holds the value.
abbrev Holds : Bytes → Bytes → AppSetting → Type 0
Holds key value row = beq row.key key ≡ true → row.value ≡ value

-- Every row of the key holds the value, and there is one.
record IsStored (key value : Bytes) (d : Database) : Type 0 where
  rows : All (Holds key value) d.app_settings
  present : any (has_key key) d.app_settings ≡ true

-- An update gives every row of the key the value, and where there is none a row is inserted.
All-update_hit :
    (key value : Bytes) (f : AppSetting → AppSetting) (rows : List AppSetting)
    → ((row : AppSetting) → (f row).value ≡ value)
    → All (Holds key value) (update_where (has_key key) f rows)
unfolding update_where
All-update_hit key value f [] hit = tt
All-update_hit key value f (row ∷ rows) hit = elim (Bool-cases (has_key key row)) [
  | inl e ↦ rw e (λ _. hit row, All-update_hit key value f rows hit)
  | inr e ↦ rw e (λ at. absurd (cc (at, e)), All-update_hit key value f rows hit)
]

All-absent :
    (key value : Bytes) (rows : List AppSetting)
    → any (has_key key) rows ≡ false
    → All (Holds key value) rows
unfolding any
All-absent key value [] h = tt
All-absent key value (row ∷ rows) h =
    (λ at. absurd (ground arith), All-absent key value rows (ground arith))

store_setting-IsStored :
    (key value : Bytes) (now : ℕ) (d : Database)
    → IsStored key value (store_setting key value now d)
unfolding store_setting upsert_row
store_setting-IsStored key value now d = record {
  rows = elim (Bool-cases (any (has_key key) d.app_settings)) [
    | inl e ↦ rw e (All-update_hit key value _ d.app_settings (λ row. refl))
    | inr e ↦ rw e (
        All-append (Holds key value) d.app_settings (_ ∷ []) (All-absent key value d.app_settings e)
          (λ at. refl, tt))
  ];
  present = any-upsert_row_self (has_key key) _ _ d.app_settings (λ row. refl) (beq_refl key);
}

-- Another key is stored.
IsStored-store_setting :
    (key value other text : Bytes) (now : ℕ) (d : Database)
    → beq other key ≡ false
    → IsStored key value d
    → IsStored key value (store_setting other text now d)
unfolding store_setting
IsStored-store_setting key value other text now d distinct h = record {
  rows =
      All-upsert_row (Holds key value) (Holds key value) (has_key other) _ _ d.app_settings
        (λ row held hit at. absurd (ground (arith, beq_iff row.key other, beq_iff row.key key)))
        (λ row held. held) (λ fresh at. absurd (cc (at, distinct))) h.rows;
  present = any-upsert_row (has_key key) (has_key other) _ _ d.app_settings (λ row. refl) h.present;
}

sym_false : (a b : Bytes) → beq a b ≡ false → beq b a ≡ false
sym_false a b h = ground (arith, beq_iff a b, beq_iff b a)

module _ (durations : Durations) (settings : GcSettings)
    (parse-text : (z : ℤ) → durations.parse (durations.text z) ≡ some z) where
  parse_duration-text : (z : ℤ) → parse_duration durations (durations.text z) ≡ ok z
  parse_duration-text z = rw (parse_duration, parse-text z) refl

  bool_text-true : (b : Bool) → beq (bool_text b) (codes "true") ≡ b
  unfolding beq
  bool_text-true true = refl
  bool_text-true false = refl

  -- What the rows that were read leave of the settings.
  abbrev mixed : List AppSetting → GcSettings → GcSettings
  mixed rows fallback = record {
    enabled = if any (has_key setting_gc_enabled) rows then settings.enabled else fallback.enabled;
    delay = if any (has_key setting_gc_delay) rows then settings.delay else fallback.delay;
    interval =
        if any (has_key setting_gc_interval) rows then settings.interval else fallback.interval;
  }

  abbrev Right : AppSetting → Type 0
  Right row =
      Holds setting_gc_enabled (bool_text settings.enabled) row
      × Holds setting_gc_delay (durations.text settings.delay) row
      × Holds setting_gc_interval (durations.text settings.interval) row

  distinct :
      (beq setting_gc_enabled setting_gc_delay ≡ false)
      × (beq setting_gc_enabled setting_gc_interval ≡ false)
      × (beq setting_gc_delay setting_gc_interval ≡ false)
  unfolding beq
  distinct = (refl, refl, refl)

  -- One row of the query.
  abbrev mixed_one : AppSetting → GcSettings → GcSettings
  mixed_one row fallback = record {
    enabled = if has_key setting_gc_enabled row then settings.enabled else fallback.enabled;
    delay = if has_key setting_gc_delay row then settings.delay else fallback.delay;
    interval = if has_key setting_gc_interval row then settings.interval else fallback.interval;
  }

  read_setting-mixed_one :
      (row : AppSetting) (fallback : GcSettings)
      → Right row
      → read_setting durations row fallback ≡ ok (mixed_one row fallback)
  unfolding read_setting
  read_setting-mixed_one row fallback (e, dl, iv) =
      elim (Bool-cases (beq row.key setting_gc_enabled)) [
        | inl k ↦ rw k (
            ground (
              arith,
              e k,
              bool_text-true settings.enabled,
              distinct,
              beq_iff row.key setting_gc_enabled,
              beq_iff row.key setting_gc_delay,
              beq_iff row.key setting_gc_interval,
            ))
        | inr k ↦ elim (Bool-cases (beq row.key setting_gc_delay)) [
          | inl l ↦
              rw (k, l, dl l, parse_duration-text settings.delay)
                (ground (
                  arith,
                  distinct,
                  beq_iff row.key setting_gc_delay,
                  beq_iff row.key setting_gc_interval,
                ))
          | inr l ↦ elim (Bool-cases (beq row.key setting_gc_interval)) [
            | inl m ↦ rw (k, l, m, iv m, parse_duration-text settings.interval) refl
            | inr m ↦ rw (k, l, m) refl
          ]
        ]
      ]

  read_settings-mixed :
      (rows : List AppSetting) (fallback : GcSettings)
      → All Right rows
      → read_settings durations (keep is_gc_setting rows) fallback ≡ ok (mixed rows fallback)
  unfolding read_settings any keep
  read_settings-mixed [] fallback h = refl
  read_settings-mixed (row ∷ rows) fallback (right, h) = elim (Bool-cases (is_gc_setting row)) [
    | inl g ↦
        rw (g, read_settings, read_setting-mixed_one row fallback right)
          (read_settings-mixed rows (mixed_one row fallback) h ∙ ground arith)
    | inr g ↦ rw g (read_settings-mixed rows fallback h ∙ ground arith)
  ]

  All-Right :
      (rows : List AppSetting)
      → All (Holds setting_gc_enabled (bool_text settings.enabled)) rows
      → All (Holds setting_gc_delay (durations.text settings.delay)) rows
      → All (Holds setting_gc_interval (durations.text settings.interval)) rows
      → All Right rows
  All-Right [] e dl iv = tt
  All-Right (row ∷ rows) (e, es) (dl, dls) (iv, ivs) = ((e, dl, iv), All-Right rows es dls ivs)

  read_stored :
      (d : Database) (fallback : GcSettings)
      → IsStored setting_gc_enabled (bool_text settings.enabled) d
      → IsStored setting_gc_delay (durations.text settings.delay) d
      → IsStored setting_gc_interval (durations.text settings.interval) d
      → (gc_settings durations fallback d).0 ≡ ok settings
  unfolding gc_settings
  read_stored d fallback e dl iv =
      read_settings-mixed d.app_settings fallback (All-Right d.app_settings e.rows dl.rows iv.rows)
      ∙ rw (e.present, dl.present, iv.present) refl

  -- The settings of the garbage collection that were accepted, which are those with a delay that is not
  -- negative and a positive interval, are read back, whatever the defaults and whatever was stored
  -- before, if ParseDuration reads what Duration.String writes.
  pub update_gc_settings-gc_settings :
      (now : ℕ) (fallback : GcSettings) (d : Database)
      → ltb_ℤ settings.delay (pos 0) ≡ false
      → ltb_ℤ (pos 0) settings.interval ≡ true
      → ((update_gc_settings durations settings now d).0 ≡ ok tt)
        × ((gc_settings durations fallback (update_gc_settings durations settings now d).1).0
            ≡ ok settings)
  unfolding update_gc_settings store_gc_settings
  update_gc_settings-gc_settings now fallback d delay interval =
      rw (delay, interval)
        (
          refl,
          read_stored _ fallback
              (IsStored-store_setting _ _ _ _ now _ (sym_false _ _ distinct.1) (
                IsStored-store_setting _ _ _ _ now _ (sym_false _ _ distinct.0)
                  (store_setting-IsStored _ _ now d)))
              (IsStored-store_setting _ _ _ _ now _ (sym_false _ _ distinct.2)
                (store_setting-IsStored _ _ now _))
              (store_setting-IsStored _ _ now _),
        )
