-- ===== src/Http/Limiter.antt =====
-- internal/httpserver/auth_limit.go: rate limits for authentication. The clock is an argument; the
-- map of windows is a function, and the channel of verification workers is the number of its tokens.
-- The mutex makes each call of `allow` one step.
pub mod Bound
use simplecontainerregistry.Base.{
  ℕ, ◌+◌, ◌-◌, ◌*◌, ◌/◌, Bytes, codes, beq, Bool, true, false, not, List, [], ◌∷◌, ◌++◌, Option,
  none, some, ltb, leb, is_nil, if◌then◌else◌, to_lower, trim_space,
}

abbrev pub auth_ip_attempts : ℕ
auth_ip_attempts = 60

abbrev pub auth_account_attempts : ℕ
auth_account_attempts = 20

-- One minute, in nanoseconds.
abbrev pub auth_attempt_window : ℕ
auth_attempt_window = 60_000_000_000

abbrev pub auth_verify_workers : ℕ
auth_verify_workers = 4

pub record AuthAttemptWindowState : Type 0 where
  pub count : ℕ
  pub reset : ℕ

abbrev pub Windows : Type 0
Windows = Bytes → Option AuthAttemptWindowState

pub record AuthAttemptLimiter : Type 0 where
  pub windows : Windows
  pub verify : ℕ
  pub next_gc : ℕ

pub record Key : Type 0 where
  pub value : Bytes
  pub limit : ℕ

abbrev pub new_auth_attempt_limiter : AuthAttemptLimiter
new_auth_attempt_limiter = record { windows = λ key. none; verify = 0; next_gc = 0 }

-- strings.ToLower(strings.TrimSpace(username)).
unfoldable pub account_name : Bytes → Bytes
account_name username = to_lower (trim_space username)

abbrev pub ip_key : Bytes → Key
ip_key ip_address = record { value = codes "ip:" ++ ip_address; limit = auth_ip_attempts }

abbrev pub account_key : Bytes → Key
account_key account = record { value = codes "account:" ++ account; limit = auth_account_attempts }

unfoldable pub attempt_keys : Bytes → Bytes → List Key
attempt_keys ip_address username =
    ip_key ip_address
    ∷ (if is_nil (account_name username) then [] else account_key (account_name username) ∷ [])

-- The zero value of a missing entry.
abbrev pub value_or_zero : Option AuthAttemptWindowState → AuthAttemptWindowState
value_or_zero none = record { count = 0; reset = 0 }
value_or_zero (some window) = window

abbrev pub peek : Windows → Bytes → AuthAttemptWindowState
peek windows key = value_or_zero (windows key)

unfoldable pub store : Windows → Bytes → AuthAttemptWindowState → Windows
store windows key window j = if beq key j then some window else windows j

-- The windows that are over are deleted, once a window's time.
unfoldable pub collect : ℕ → AuthAttemptLimiter → AuthAttemptLimiter
collect now l =
    if not (ltb now l.next_gc)
    then record l {
      windows = λ key. if not (ltb now (peek l.windows key).reset) then none else l.windows key;
      next_gc = now + auth_attempt_window;
    }
    else l

-- The first loop: the time to wait, if a key is used up.
unfoldable pub used_up : ℕ → Windows → List Key → Option ℕ
used_up now windows [] = none
used_up now windows (key ∷ keys) =
    let window = peek windows key.value in
    let rest = used_up now windows keys in
    if not (ltb now window.reset)
    then rest
    else if leb key.limit window.count
    then some (window.reset - now)
    else rest

unfoldable pub next_window : ℕ → AuthAttemptWindowState → AuthAttemptWindowState
next_window now window =
    if not (ltb now window.reset)
    then record { count = 1; reset = now + auth_attempt_window }
    else record { count = window.count + 1; reset = window.reset }

-- The second loop.
unfoldable pub count_attempt : ℕ → Windows → List Key → Windows
unfolding next_window
count_attempt now windows [] = windows
count_attempt now windows (key ∷ keys) =
    count_attempt now (store windows key.value (next_window now (peek windows key.value))) keys

abbrev pub decide_attempt :
    ℕ → AuthAttemptLimiter → List Key → Option ℕ → (ℕ × Bool) × AuthAttemptLimiter
decide_attempt now l keys (some retry_after) = ((retry_after, false), l)
decide_attempt now l keys none =
    ((0, true), record l { windows = count_attempt now l.windows keys })

unfoldable pub allow : Bytes → Bytes → ℕ → AuthAttemptLimiter → (ℕ × Bool) × AuthAttemptLimiter
unfolding collect used_up count_attempt
allow ip_address username now l =
    let keys = attempt_keys ip_address username in
    let l' = collect now l in decide_attempt now l' keys (used_up now l'.windows keys)

-- acquireVerification, and the function that it returns.
unfoldable pub acquire_verification : AuthAttemptLimiter → Bool × AuthAttemptLimiter
acquire_verification l =
    if ltb l.verify auth_verify_workers
    then (true, record l { verify = l.verify + 1 })
    else (false, l)

unfoldable pub release_verification : AuthAttemptLimiter → AuthAttemptLimiter
release_verification l = record l { verify = l.verify - 1 }

-- The value of Retry-After in writeAuthRateLimited: seconds, rounded, at least one.
unfoldable pub retry_after_seconds : ℕ → ℕ
retry_after_seconds retry_after =
    let seconds = (retry_after + 500_000_000) / 1_000_000_000 in
    if ltb seconds 1 then 1 else seconds
