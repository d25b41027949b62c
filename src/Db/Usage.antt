-- ===== src/Db/Usage.antt =====
-- internal/db/store.go: counters of use, the summary of the dashboard, and the use of each day. Instants
-- are nanoseconds since the zero time, in UTC; a day starts at a multiple of its length. `rfc3339` is
-- time.Time.Format with that layout.
pub mod Series
pub mod Daily
use simplecontainerregistry.Base.{
  ℕ, zero, suc, ◌+◌, ◌-◌, ◌*◌, ◌%◌, Bytes, codes, beq, Bool, true, false, ◌&&◌, ◌||◌, not, List,
  ◌∷◌, [], ◌++◌, Option, none, some, keep, ltb, leb, ◌==◌, length, if◌then◌else◌, is_nil, Result,
  ok, err, ◌>>=◌,
}
use simplecontainerregistry.Base.Int.{ℤ, pos, negsuc}
use simplecontainerregistry.Domain.{
  Action, User, Repository, DashboardSummary, DailyUsage, status_active, action_pull, action_push,
}
use simplecontainerregistry.Storage.Disk as Step
use simplecontainerregistry.Storage.Disk.{lift}
use simplecontainerregistry.Db.Tables.{
  Database, UsageCounter, update_where, upsert_row, sum_of, checked_sum, require, execute, query,
  query_result,
}

abbrev pub hour : ℕ
hour = 3600000000000

abbrev pub day : ℕ
day = 24 * hour

-- id: repository, action and the start of the hour.
unfoldable pub counter_id : (ℕ → Bytes) → Bytes → Action → ℕ → Bytes
counter_id rfc3339 name action window_start =
    name ++ (b':' ∷ (action ++ (b':' ∷ rfc3339 window_start)))

abbrev pub has_counter_id : Bytes → UsageCounter → Bool
has_counter_id id counter = beq counter.id id

-- now.Truncate(time.Hour).
abbrev pub hour_start : ℕ → ℕ
hour_start now = now - now % hour

abbrev pub new_counter : (ℕ → Bytes) → Bytes → Action → ℕ → UsageCounter
unfolding counter_id
new_counter rfc3339 name action now = record {
  id = counter_id rfc3339 name action (hour_start now);
  repository_name = name;
  action = action;
  count = 1;
  window_start = hour_start now;
  window_end = hour_start now + hour;
}

unfoldable pub count_use : (ℕ → Bytes) → Bytes → Action → ℕ → Database → Database
unfolding counter_id
count_use rfc3339 name action now d = record d {
  usage_counters =
      upsert_row (has_counter_id (counter_id rfc3339 name action (hour_start now)))
        (new_counter rfc3339 name action now)
        (λ counter. record counter { count = counter.count + 1 }) d.usage_counters;
}

unfoldable pub increment_usage_counter :
    (ℕ → Bytes) → Bytes → Action → ℕ → Step.Step Database (Unit {0})
unfolding count_use
increment_usage_counter rfc3339 name action now =
    Step.◌>>=◌ (lift (require (not (is_nil name)) (codes "repository name is required"))) λ _.
      Step.◌>>=◌ (lift (require (not (is_nil action)) (codes "action is required")))
        λ _. execute (count_use rfc3339 name action now)

abbrev pub is_active : User → Bool
is_active user = beq user.status status_active

-- The account ends after `now`, within two weeks.
abbrev pub expires_soon : ℕ → Option ℕ → Bool
expires_soon now none = false
expires_soon now (some time) = ltb now time && leb time (now + 14 * day)

-- A counter of an action whose hour started within the last day.
abbrev pub counts_recent : Action → ℕ → UsageCounter → Bool
counts_recent action now counter = beq counter.action action && leb now (counter.window_start + day)

abbrev pub recent_count : Action → ℕ → Database → ℕ
recent_count action now d =
    sum_of (λ counter. counter.count) (keep (counts_recent action now) d.usage_counters)

unfoldable pub summary_of : ℕ → Database → Result DashboardSummary
unfolding sum_of checked_sum
summary_of now d = checked_sum (sum_of (λ r. r.size_bytes) d.repositories) >>= λ storage_bytes.
    checked_sum (recent_count action_pull now d) >>= λ pulls.
    checked_sum (recent_count action_push now d) >>= λ pushes. ok (record {
      repositories = length d.repositories;
      tags = length d.repository_tags;
      storage_bytes = storage_bytes;
      active_users = length (keep is_active d.users);
      users_expiring_soon =
          length (keep (λ user. is_active user && expires_soon now user.expires_at) d.users);
      pulls_24h = pulls;
      pushes_24h = pushes;
    })

unfoldable pub dashboard_summary : ℕ → Step.Step Database DashboardSummary
unfolding summary_of
dashboard_summary now = query_result (summary_of now)

-- The number of days that is shown: 7 for one out of range.
abbrev pub shown_days : ℤ → ℕ
shown_days (negsuc n) = 7
shown_days (pos n) = if n == 0 || ltb 31 n then 7 else n

abbrev pub day_start : ℕ → ℕ
day_start time = time - time % day

-- The entries of the days, from the first one on.
unfoldable pub empty_series : ℕ → ℕ → List DailyUsage
empty_series start zero = []
empty_series start (suc n) =
    record { date = start; pulls = 0; pushes = 0 } ∷ empty_series (start + day) n

abbrev pub is_on_day : ℕ → DailyUsage → Bool
is_on_day date usage = usage.date == date

abbrev pub add_count : UsageCounter → DailyUsage → DailyUsage
add_count counter usage =
    if beq counter.action action_pull
    then record usage { pulls = usage.pulls + counter.count }
    else if beq counter.action action_push
    then record usage { pushes = usage.pushes + counter.count }
    else usage

-- The loop over the rows; a row of a day that has no entry is skipped.
unfoldable pub add_rows : List UsageCounter → List DailyUsage → List DailyUsage
unfolding update_where
add_rows [] series = series
add_rows (counter ∷ counters) series =
    add_rows counters
      (update_where (is_on_day (day_start counter.window_start)) (add_count counter) series)

-- window_start >= start AND window_start < end, and the repository if one is named.
abbrev pub is_shown : ℕ → ℕ → Bytes → UsageCounter → Bool
is_shown start end name counter =
    leb start counter.window_start
    && (ltb counter.window_start end && (is_nil name || beq counter.repository_name name))

abbrev pub series_end : ℕ → ℕ
series_end now = day_start now + day

unfoldable pub daily_usage : ℕ → ℤ → Bytes → Step.Step Database (List DailyUsage)
unfolding empty_series add_rows
daily_usage now days name =
    let end = series_end now in
    let start = end - shown_days days * day in
    query λ d.
      add_rows (keep (is_shown start end name) d.usage_counters)
        (empty_series start (shown_days days))
