-- ===== src/Db/Usage/Series.antt =====
-- internal/db/store.go: the loop over the counters of use, against a definition that reads day by day.
use simplecontainerregistry.Base.{
  ℕ, zero, suc, ◌+◌, beq, beq_iff, Bool, false, ◌&&◌, List, [], ◌∷◌, ◌≡◌, refl, keep, if◌then◌else◌,
  arith, ◌==◌,
}
use simplecontainerregistry.Domain.{Action, DailyUsage, action_pull, action_push}
use simplecontainerregistry.Db.Tables.{UsageCounter, update_where, sum_of}
use simplecontainerregistry.Db.Usage.{day, day_start, empty_series, is_on_day, add_count, add_rows}

abbrev pub counts_on : Action → ℕ → UsageCounter → Bool
counts_on action date counter = day_start counter.window_start == date && beq counter.action action

-- The uses of an action on a day.
unfoldable pub count_on : Action → ℕ → List UsageCounter → ℕ
unfolding sum_of
count_on action date rows = sum_of (λ counter. counter.count) (keep (counts_on action date) rows)

abbrev pub usage_on : List UsageCounter → ℕ → DailyUsage
usage_on rows date = record {
  date = date;
  pulls = count_on action_pull date rows;
  pushes = count_on action_push date rows;
}

-- One entry for each of `n` days.
unfoldable pub series_of : List UsageCounter → ℕ → ℕ → List DailyUsage
series_of rows start zero = []
series_of rows start (suc n) = usage_on rows start ∷ series_of rows (start + day) n

pub count_on-cons :
    (action : Action) (date : ℕ) (counter : UsageCounter) (rows : List UsageCounter)
    → count_on action date (counter ∷ rows)
      ≡ (if counts_on action date counter then counter.count else 0) + count_on action date rows
unfolding count_on sum_of keep
count_on-cons action date counter rows = ground arith

pub count_on_nil : (action : Action) (date : ℕ) → count_on action date [] ≡ 0
unfolding count_on sum_of keep
count_on_nil action date = refl

distinct : beq action_pull action_push ≡ false
unfolding beq
distinct = refl

add_one :
    (counter : UsageCounter) (rows : List UsageCounter) (date : ℕ)
    → (if is_on_day (day_start counter.window_start) (usage_on rows date)
        then add_count counter (usage_on rows date)
        else usage_on rows date)
      ≡ usage_on (counter ∷ rows) date
add_one counter rows date = ground (
  arith,
  count_on-cons action_pull date counter rows,
  count_on-cons action_push date counter rows,
  beq_iff counter.action action_pull,
  beq_iff counter.action action_push,
  distinct,
)

add_one-series :
    (counter : UsageCounter) (rows : List UsageCounter) (start n : ℕ)
    → update_where
        (is_on_day (day_start counter.window_start))
        (add_count counter)
        (series_of rows start n)
      ≡ series_of (counter ∷ rows) start n
unfolding update_where series_of
add_one-series counter rows start zero = refl
add_one-series counter rows start (suc n) =
    rw (add_one counter rows start, add_one-series counter rows (start + day) n) refl

unfoldable pub rev_onto : List UsageCounter → List UsageCounter → List UsageCounter
rev_onto [] seen = seen
rev_onto (counter ∷ rows) seen = rev_onto rows (counter ∷ seen)

count_on-rev_onto :
    (action : Action) (date : ℕ) (rows seen : List UsageCounter)
    → count_on action date (rev_onto rows seen)
      ≡ count_on action date rows + count_on action date seen
unfolding rev_onto
count_on-rev_onto action date [] seen = unfold count_on sum_of keep in omega arith
count_on-rev_onto action date (counter ∷ rows) seen = omega (
  arith,
  count_on-rev_onto action date rows (counter ∷ seen),
  count_on-cons action date counter rows,
  count_on-cons action date counter seen,
)

pub series_of-rev_onto :
    (rows : List UsageCounter) (start n : ℕ)
    → series_of (rev_onto rows []) start n ≡ series_of rows start n
unfolding series_of
series_of-rev_onto rows start zero = refl
series_of-rev_onto rows start (suc n) = rw (series_of-rev_onto rows (start + day) n) (
    ground (
      arith,
      count_on-rev_onto action_pull start rows [],
      count_on-rev_onto action_push start rows [],
      count_on_nil action_pull start,
      count_on_nil action_push start,
    ))

pub add_rows-series :
    (rows seen : List UsageCounter) (start n : ℕ)
    → add_rows rows (series_of seen start n) ≡ series_of (rev_onto rows seen) start n
unfolding add_rows rev_onto
add_rows-series [] seen start n = refl
add_rows-series (counter ∷ rows) seen start n =
    rw (add_one-series counter seen start n) (add_rows-series rows (counter ∷ seen) start n)

pub empty_series-eq : (start n : ℕ) → empty_series start n ≡ series_of [] start n
unfolding empty_series series_of count_on sum_of keep
empty_series-eq start zero = refl
empty_series-eq start (suc n) = rw (empty_series-eq (start + day) n) refl
