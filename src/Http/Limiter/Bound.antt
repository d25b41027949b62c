-- ===== src/Http/Limiter/Bound.antt =====
-- internal/httpserver/auth_limit.go: how many attempts pass in a minute.
use simplecontainerregistry.Base.{
  ℕ, ◌+◌, ◌≤◌, ◌<◌, Bytes, beq, beq_refl, beq→eq, Bool, true, false, List, [], ◌∷◌, none, ltb, leb,
  is_nil, if◌then◌else◌, ◌≡◌, refl, ◌⊎◌, inl, inr, arith, All, Bool-cases, Option-cases, ap,
}
use simplecontainerregistry.Http.Limiter.{
  AuthAttemptWindowState, AuthAttemptLimiter, Windows, Key, auth_attempt_window,
  auth_account_attempts, account_name, ip_key, account_key, attempt_keys, peek, store, collect,
  used_up, next_window, count_attempt, allow,
}

-- One call of `allow`.
pub record Attempt : Type 0 where
  pub ip_address : Bytes
  pub username : Bytes
  pub time : ℕ

-- Whether an attempt is one of an account.
abbrev pub is_of : Bytes → Attempt → Bool
is_of account a = beq (account_name a.username) account

-- How many attempts of the account pass, in a run of attempts by anybody.
pub accepted : Bytes → AuthAttemptLimiter → List Attempt → ℕ
accepted account l [] = 0
accepted account l (a ∷ attempts) =
    let ((retry_after, allowed), l') = allow a.ip_address a.username a.time l in
    let rest = accepted account l' attempts in
    if allowed then (if is_of account a then rest + 1 else rest) else rest

module _ (account : Bytes) (start : ℕ) (named : is_nil account ≡ false) where
  abbrev the_key : Bytes
  the_key = (account_key account).value

  -- `n` attempts of the account have passed since `start`.
  abbrev HasPassed : ℕ → AuthAttemptWindowState → Type 0
  HasPassed n w =
      ((n ≡ 0) × (w.reset ≤ start))
      ⊎ ((start + auth_attempt_window ≤ w.reset) × (w.count ≡ n) × (n ≤ auth_account_attempts))

  collect-HasPassed :
      (now n : ℕ) (l : AuthAttemptLimiter)
      → now < start + auth_attempt_window
      → HasPassed n (peek l.windows the_key)
      → HasPassed n (peek (collect now l).windows the_key)
  unfolding collect
  collect-HasPassed now n l h p = elim (Bool-cases (ltb now l.next_gc)) [
    | inl e ↦ rw e p
    | inr e ↦ rw e (elim (Bool-cases (ltb now (peek l.windows the_key).reset)) [
      | inl live ↦ rw live p
      | inr over ↦ rw over (ground (arith, p))
    ])
  ]

  -- What counting one attempt of the account does to its window.
  next_window-HasPassed :
      (now n : ℕ) (w : AuthAttemptWindowState)
      → start ≤ now
      → now < start + auth_attempt_window
      → HasPassed n w
      → (now < w.reset → w.count < auth_account_attempts)
      → HasPassed (n + 1) (next_window now w)
  unfolding next_window
  next_window-HasPassed now n w h1 h2 p free = ground (arith, p, free)

  -- The keys of an attempt: that of the account is among them if the attempt is one of it.
  free_of :
      (now : ℕ) (windows : Windows) (key : Key) (keys : List Key)
      → used_up now windows (key ∷ keys) ≡ none
      → (now < (peek windows key.value).reset → (peek windows key.value).count < key.limit)
        × (used_up now windows keys ≡ none)
  unfolding used_up
  free_of now windows key keys h = elim (Bool-cases (ltb now (peek windows key.value).reset)) [
    | inr over ↦ ((λ live. ground (arith, over, live)), rw over at h)
    | inl live ↦
        let h1 = rw live at h in
        elim (Bool-cases (leb key.limit (peek windows key.value).count)) [
          | inl full ↦ cc (rw full at h1)
          | inr space ↦ ((λ _. ground (arith, space)), rw space at h1)
        ]
  ]

  empty_name : (name : Bytes) → is_nil name ≡ true → beq name account ≡ false
  unfolding beq
  empty_name [] h = elim (Bool-cases (beq [] account)) [
    | inl e ↦ cc (named, h, ap (λ (s : Bytes). is_nil s) (beq→eq [] account e))
    | inr e ↦ e
  ]
  empty_name (c ∷ name) h = cc h

  step-HasPassed :
      (a : Attempt) (n : ℕ) (l : AuthAttemptLimiter)
      → start ≤ a.time
      → a.time < start + auth_attempt_window
      → HasPassed n (peek l.windows the_key)
      → used_up a.time l.windows (attempt_keys a.ip_address a.username) ≡ none
      → HasPassed
          (if is_of account a then n + 1 else n)
          (peek (count_attempt a.time l.windows (attempt_keys a.ip_address a.username)) the_key)
  unfolding attempt_keys count_attempt store beq
  step-HasPassed a n l h1 h2 p free = elim (Bool-cases (is_nil (account_name a.username))) [
    | inl none_given ↦
        let other : beq (account_name a.username) account ≡ false =
          empty_name (account_name a.username) none_given in
        rw (none_given, other) p
    | inr given ↦ elim (Bool-cases (beq (account_name a.username) account)) [
      | inr other ↦ rw (given, other) p
      | inl same ↦
          let name = beq→eq (account_name a.username) account same in
          rw given (
            rw (name, beq_refl account)
              (next_window-HasPassed a.time n (peek l.windows the_key) h1 h2 p
                (free_of a.time l.windows (account_key account) [] (
                  rw (given, name) at
                    (free_of a.time l.windows (ip_key a.ip_address) _ free).1)).0))
    ]
  ]

  accepted-HasPassed :
      (attempts : List Attempt) (n : ℕ) (l : AuthAttemptLimiter)
      → All (λ a. (start ≤ a.time) × (a.time < start + auth_attempt_window)) attempts
      → HasPassed n (peek l.windows the_key)
      → n + accepted account l attempts ≤ auth_account_attempts
  unfolding accepted allow
  accepted-HasPassed [] n l _ p = ground (arith, p)
  accepted-HasPassed (a ∷ attempts) n l ((h1, h2), hs) p =
      let l' = collect a.time l in
      let p' = collect-HasPassed a.time n l h2 p in
      let keys = attempt_keys a.ip_address a.username in
      elim (Option-cases (used_up a.time l'.windows keys)) [
        | inr (wait, e) ↦ rw e (accepted-HasPassed attempts n l' hs p')
        | inl e ↦
            let q = step-HasPassed a n l' h1 h2 p' e in
            let next : AuthAttemptLimiter = record l' {
              windows = count_attempt a.time l'.windows keys;
            } in
            elim (Bool-cases (is_of account a)) [
              | inl own ↦
                  rw (e, own)
                    (ground (arith, accepted-HasPassed attempts (n + 1) next hs (rw own at q)))
              | inr other ↦ rw (e, other) (accepted-HasPassed attempts n next hs (rw other at q))
            ]
      ]

-- Whatever attempts arrive in the minute after `start`, from any addresses and for any accounts, at
-- most 20 of those for one account pass, if the account's window is over when the minute begins.
pub accepted-IsBounded :
    (account : Bytes) (start : ℕ) (l : AuthAttemptLimiter) (attempts : List Attempt)
    → is_nil account ≡ false
    → (peek l.windows (account_key account).value).reset ≤ start
    → All (λ a. (start ≤ a.time) × (a.time < start + auth_attempt_window)) attempts
    → accepted account l attempts ≤ auth_account_attempts
accepted-IsBounded account start l attempts named over hs =
    omega (arith, accepted-HasPassed account start named attempts 0 l hs (inl (refl, over)))
