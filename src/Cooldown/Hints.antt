-- ===== src/Cooldown/Hints.antt =====
-- What a rate-limited response of cooldown.go names as its window, and that the window is kept.
use morgenblau.Common.{
  ℕ, ◌*◌, ◌-◌, ◌+◌, ◌≤◌, ◌<◌, ◌≡◌, ◌⊎◌, refl, min, max, none, some, true, false, List, String,
  arith, ◌==◌, pos, negsuc, ℤ, add_time, sub_time, min_duration, second, minute, seconds_exact,
  lookup, All, inl, inr, ltb, Bool-cases, zero, suc, half_range,
}
use morgenblau.Backoff.{parse_retry_after, http_date}
use morgenblau.Cooldown.{
  HostCooldown, Response, Parsers, Half, rate_limited, cooldown_window, observe, serve,
  network_hits, positive, reset_window,
}
use morgenblau.Cooldown.Deadlines.{
  CoolsUntil, BeginsBefore, deadline_of, deadline_holds, record_until_found, later,
}

ahead_of : (t u : ℕ) → u ≤ t → sub_time t u ≡ pos (min (t - u) (half_range - 1))
unfolding sub_time
ahead_of t u h = ground arith

behind : (t u : ℕ) → t < u → sub_time t u ≡ negsuc (min (u - t - 1) (half_range - 1))
unfolding sub_time
behind t u h = ground arith

positive_lem : (n : ℕ) → 0 < n → positive (pos n) ≡ some (pos n)
positive_lem zero h = let absurd : ⊥ = omega arith in elim absurd [ ]
positive_lem (suc n) h = refl

not_positive : (t u : ℕ) → t ≤ u → positive (sub_time t u) ≡ none
unfolding sub_time
not_positive t u h = elim (Bool-cases (ltb t u)) [
  | inl e ↦ rw (behind t u (ground arith)) refl
  | inr e ↦
      let zero_left : min (t - u) (half_range - 1) ≡ 0 = omega arith in
      rw (ahead_of t u (ground arith), zero_left) refl
]

capped : (n : ℕ) → min (min n (half_range - 1)) (10 * minute) ≡ min n (10 * minute)
capped n = omega arith

-- HTTP 429 and 503, and a spent budget.
abbrev pub SaysStop : Response → Type 0
SaysStop resp =
    (resp.status_code ≡ 429) ⊎ (resp.status_code ≡ 503) ⊎ (resp.ratelimit_remaining ≡ "0")

module _ (lib : Parsers) (resp : Response) (now : ℕ) where
  -- The response has no Retry-After that counts: none at all, a negative number, or a text that is
  -- no number and no date or a date of the past.
  pub data NoRetryAfter : Type 0 where
    no_header : (resp.retry_after == "") ≡ true → NoRetryAfter
    negative :
        (n : ℕ)
        → (resp.retry_after == "") ≡ false
        → lib.atoi resp.retry_after ≡ some (negsuc n)
        → NoRetryAfter
    garbage :
        (resp.retry_after == "") ≡ false
        → lib.atoi resp.retry_after ≡ none
        → lib.parse_time resp.retry_after ≡ none
        → NoRetryAfter
    past :
        (t : ℕ)
        → (resp.retry_after == "") ≡ false
        → lib.atoi resp.retry_after ≡ none
        → lib.parse_time resp.retry_after ≡ some t
        → t < now
        → NoRetryAfter

  -- The window that the response names: the seconds of Retry-After as far as a Duration holds them,
  -- or the time to its date; failing that the time to the instant of ratelimit-reset, if it lies
  -- ahead; failing both 30 seconds.
  pub data Names (window : ℕ) : Type 0 where
    delta :
        (n : ℕ)
        → (resp.retry_after == "") ≡ false
        → lib.atoi resp.retry_after ≡ some (pos n)
        → n ≤ 9223372036
        → window ≡ n * second
        → Names window
    date :
        (t : ℕ)
        → (resp.retry_after == "") ≡ false
        → lib.atoi resp.retry_after ≡ none
        → lib.parse_time resp.retry_after ≡ some t
        → now ≤ t
        → window ≡ t - now
        → Names window
    reset :
        (secs : ℤ)
        → NoRetryAfter
        → lib.parse_int resp.ratelimit_reset ≡ some secs
        → now < lib.unix secs
        → window ≡ lib.unix secs - now
        → Names window
    stale :
        (secs : ℤ)
        → NoRetryAfter
        → lib.parse_int resp.ratelimit_reset ≡ some secs
        → lib.unix secs ≤ now
        → window ≡ 30 * second
        → Names window
    unnamed :
        NoRetryAfter
        → lib.parse_int resp.ratelimit_reset ≡ none
        → window ≡ 30 * second
        → Names window

  no_retry_after :
      NoRetryAfter → parse_retry_after lib.atoi lib.parse_time resp.retry_after now ≡ none
  unfolding parse_retry_after http_date
  no_retry_after (no_header e) = rw e refl
  no_retry_after (negative n full e) = rw (full, e) refl
  no_retry_after (garbage full e e') = rw (full, e, http_date, e') refl
  no_retry_after (past t full e e' early) = rw (full, e, http_date, e', behind t now early) refl

  -- The same, before the cap of ten minutes.
  names_window :
      (window : ℕ) → Names window → cooldown_window lib resp now ≡ pos (min window (10 * minute))
  unfolding cooldown_window reset_window min_duration parse_retry_after http_date
  names_window window (delta n full e small w) =
      rw (full, e) (rw (seconds_exact n small) (rw w refl))
  names_window window (date t full e e' ahead w) =
      rw (full, e, http_date, e', ahead_of t now ahead, capped (t - now), w) refl
  names_window window (reset secs none_named e ahead w) =
      let some_time : 0 < min (lib.unix secs - now) (half_range - 1) = omega arith in
      rw
        (
          no_retry_after none_named,
          reset_window,
          e,
          ahead_of (lib.unix secs) now (omega arith),
          positive_lem _ some_time,
          capped (lib.unix secs - now),
          w,
        )
        refl
  names_window window (stale secs none_named e gone w) =
      rw (no_retry_after none_named, reset_window, e, not_positive (lib.unix secs) now gone, w) refl
  names_window window (unnamed none_named e w) =
      rw (no_retry_after none_named, reset_window, e, w) refl

  stops : SaysStop resp → rate_limited resp ≡ true
  unfolding rate_limited
  stops (inl e) = rw e refl
  stops (inr (inl e)) = rw e refl
  stops (inr (inr e)) = rw e (ground arith)

  observe_cools :
      (host : String) (window : ℕ) (c : HostCooldown)
      → SaysStop resp
      → Names window
      → CoolsUntil host (now + min window (10 * minute)) (observe lib host (some resp) now c)
  unfolding observe add_time
  observe_cools host window c stop named =
      let until = now + min window (10 * minute) in
      rw (stops stop, names_window window named)
        (later host until (max until (deadline_of (lookup host c))) _ (omega arith)
          (record_until_found host until c (lookup host c) refl))

-- After a response that says stop, with status 429 or 503 or a spent budget, no request to its host
-- that begins within the window it names, or within ten minutes if that is shorter, reaches the
-- network, in whatever order the checks and answers of overlapping round trips get the lock. The
-- window is that of Retry-After, else of ratelimit-reset, else 30 seconds; a Retry-After of more
-- seconds than a Duration holds is left out.
pub limited_then_quiet :
    (lib : Parsers) (host : String) (resp : Response) (now window : ℕ) (hs : List Half)
    (c : HostCooldown)
    → SaysStop resp
    → Names lib resp now window
    → All (BeginsBefore (now + min window (10 * minute))) hs
    → network_hits host (serve lib hs (observe lib host (some resp) now c)) ≡ 0
limited_then_quiet lib host resp now window hs c stop named early =
    deadline_holds lib host (now + min window (10 * minute)) hs _
      (observe_cools lib resp now host window c stop named) early
