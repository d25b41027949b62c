-- ===== src/Db/Usage/Daily.antt =====
-- internal/db/store.go: the use of each day, which loses no hour and counts none twice.
use simplecontainerregistry.Base.{
  ℕ, zero, suc, ◌+◌, ◌-◌, ◌*◌, ◌%◌, ◌≤◌, ◌<◌, Bytes, beq, List, [], ◌∷◌, ◌≡◌, refl, ap, ◌∙◌, sym,
  inl, inr, keep, Bool-cases, if◌then◌else◌, arith, ◌==◌, ok, All,
}
use mathlib.Core.Path.{subst}
use simplecontainerregistry.Base.Int.{ℤ}
use simplecontainerregistry.Domain.{Action, DailyUsage, action_pull, action_push}
use simplecontainerregistry.Db.Tables.{Database, UsageCounter, sum_of}
use simplecontainerregistry.Db.Usage.{
  day, day_start, add_rows, is_shown, shown_days, series_end, daily_usage,
}
use simplecontainerregistry.Db.Usage.Series.{
  count_on, series_of, count_on-cons, count_on_nil, series_of-rev_onto, add_rows-series,
  empty_series-eq,
}

-- The uses of an action over the days.
total : Action → List UsageCounter → ℕ → ℕ → ℕ
total action rows start zero = 0
total action rows start (suc n) = count_on action start rows + total action rows (start + day) n

-- A row before the days is not counted.
total_before :
    (action : Action) (counter : UsageCounter) (rows : List UsageCounter) (start n : ℕ)
    → counter.window_start < start
    → total action (counter ∷ rows) start n ≡ total action rows start n
unfolding total
total_before action counter rows start zero h = refl
total_before action counter rows start (suc n) h = ground (
  arith,
  count_on-cons action start counter rows,
  total_before action counter rows (start + day) n,
)

-- A row within the days is counted once.
total-cons :
    (action : Action) (counter : UsageCounter) (rows : List UsageCounter) (start n : ℕ)
    → start % day ≡ 0
    → start ≤ counter.window_start
    → counter.window_start < start + n * day
    → total action (counter ∷ rows) start n
      ≡ (if beq counter.action action then counter.count else 0) + total action rows start n
unfolding total
total-cons action counter rows start zero aligned from until = absurd (omega arith)
total-cons action counter rows start (suc n) aligned from until =
    elim (Bool-cases (day_start counter.window_start == start)) [
      | inl e ↦ ground (
        arith,
        count_on-cons action start counter rows,
        total_before action counter rows (start + day) n,
      )
      | inr e ↦ ground (
        arith,
        count_on-cons action start counter rows,
        total-cons action counter rows (start + day) n,
      )
    ]

-- The uses of an action, whenever they were.
abbrev pub uses : Action → List UsageCounter → ℕ
unfolding sum_of
uses action rows =
    sum_of (λ counter. counter.count) (keep (λ (c : UsageCounter). beq c.action action) rows)

abbrev InDays : ℕ → ℕ → UsageCounter → Type 0
InDays start n counter = (start ≤ counter.window_start) × (counter.window_start < start + n * day)

uses-cons :
    (action : Action) (counter : UsageCounter) (rows : List UsageCounter)
    → uses action (counter ∷ rows)
      ≡ (if beq counter.action action then counter.count else 0) + uses action rows
unfolding sum_of keep
uses-cons action counter rows = ground arith

total_nil : (action : Action) (start n : ℕ) → total action [] start n ≡ 0
unfolding total
total_nil action start zero = refl
total_nil action start (suc n) =
    omega (arith, count_on_nil action start, total_nil action (start + day) n)

total-uses :
    (action : Action) (rows : List UsageCounter) (start n : ℕ)
    → start % day ≡ 0
    → All (InDays start n) rows
    → total action rows start n ≡ uses action rows
total-uses action [] start n aligned h = unfold keep sum_of in total_nil action start n
total-uses action (counter ∷ rows) start n aligned ((from, until), h) =
    total-cons action counter rows start n aligned from until
    ∙ ap (λ (t : ℕ). (if beq counter.action action then counter.count else 0) + t)
        (total-uses action rows start n aligned h)
    ∙ sym (uses-cons action counter rows)

pulls_total :
    (rows : List UsageCounter) (start n : ℕ)
    → sum_of (λ usage. usage.pulls) (series_of rows start n) ≡ total action_pull rows start n
unfolding sum_of series_of total
pulls_total rows start zero = refl
pulls_total rows start (suc n) = omega (arith, pulls_total rows (start + day) n)

pushes_total :
    (rows : List UsageCounter) (start n : ℕ)
    → sum_of (λ usage. usage.pushes) (series_of rows start n) ≡ total action_push rows start n
unfolding sum_of series_of total
pushes_total rows start zero = refl
pushes_total rows start (suc n) = omega (arith, pushes_total rows (start + day) n)

shown-InDays :
    (start n : ℕ) (name : Bytes) (rows : List UsageCounter)
    → All (InDays start n) (keep (is_shown start (start + n * day) name) rows)
unfolding keep
shown-InDays start n name [] = tt
shown-InDays start n name (counter ∷ rows) =
    elim (Bool-cases (is_shown start (start + n * day) name counter)) [
      | inl e ↦ rw e (ground arith, shown-InDays start n name rows)
      | inr e ↦ rw e (shown-InDays start n name rows)
    ]

abbrev pub first_day : ℕ → ℤ → ℕ
first_day now days = series_end now - shown_days days * day

-- The counters that a report of `days` days on a repository, or on all, is about.
abbrev pub reported : ℕ → ℤ → Bytes → Database → List UsageCounter
reported now days name d =
    keep (is_shown (first_day now days) (series_end now) name) d.usage_counters

-- A report that does not begin before the zero time has one entry for each day up to the present
-- one, with the pulls and the pushes of the hours that began on that day; and no hour is lost or
-- counted twice: the pulls of all entries are those of all counters in the time and of the
-- repository that is asked for, and so are the pushes.
pub daily_usage-series :
    (now : ℕ) (days : ℤ) (name : Bytes) (d : Database)
    → shown_days days * day ≤ series_end now
    → ((daily_usage now days name d).0
        ≡ ok (series_of (reported now days name d) (first_day now days) (shown_days days)))
      × (sum_of
            (λ usage. usage.pulls)
            (series_of (reported now days name d) (first_day now days) (shown_days days))
          ≡ uses action_pull (reported now days name d))
      × (sum_of
            (λ usage. usage.pushes)
            (series_of (reported now days name d) (first_day now days) (shown_days days))
          ≡ uses action_push (reported now days name d))
unfolding daily_usage
daily_usage-series now days name d enough =
    let n : ℕ = shown_days days in
    let start : ℕ = first_day now days in
    let rows : List UsageCounter = reported now days name d in
    let ends : series_end now ≡ start + n * day = omega arith in
    let aligned : start % day ≡ 0 = omega arith in
    let inside : All (InDays start n) rows =
      subst (λ (end : ℕ). All (InDays start n) (keep (is_shown start end name) d.usage_counters))
        (sym ends) (shown-InDays start n name d.usage_counters) in
    (
      ap (λ (s : List DailyUsage). ok s)
          (ap (λ (s : List DailyUsage). add_rows rows s) (empty_series-eq start n)
            ∙ add_rows-series rows [] start n
            ∙ series_of-rev_onto rows start n),
      pulls_total rows start n ∙ total-uses action_pull rows start n aligned inside,
      pushes_total rows start n ∙ total-uses action_push rows start n aligned inside,
    )
