-- ===== src/Cooldown/Overflow.antt =====
-- The int64 product of ParseRetryAfter (app/internal/backoff/backoff.go) inside the cooldown window.
use morgenblau.Common.{
  ℕ, suc, ◌*◌, ◌-◌, ◌<◌, ◌≡◌, none, some, true, false, String, arith, ◌==◌, pos, negsuc, add_time,
  min_duration, seconds, lookup, lookup-insert, eq_refl,
}
use morgenblau.Backoff.{parse_retry_after}
use morgenblau.Cooldown.{
  HostCooldown, Response, Parsers, cooling, rate_limited, cooldown_window, observe,
}

wrapped : (n : ℕ) → 9223372036 < n → n < 18446744074 → (k : ℕ) × (seconds n ≡ negsuc k)
unfolding seconds
wrapped n low high = (18446744073709551616 - n * 1000000000 - 1, ground arith)

module _ (lib : Parsers) (resp : Response) (now n : ℕ) where
  wrapped_window :
      (resp.retry_after == "") ≡ false
      → lib.atoi resp.retry_after ≡ some (pos n)
      → 9223372036 < n
      → n < 18446744074
      → (k : ℕ) × (cooldown_window lib resp now ≡ negsuc k)
  unfolding cooldown_window parse_retry_after min_duration
  wrapped_window full parsed low high = let (k, e) = wrapped n low high in (k, rw (full, parsed, e))

  -- A Retry-After between 9223372037 and 18446744073 seconds wraps to a negative duration that is
  -- reported as valid, so a rate-limited host without an earlier deadline is not cooled at all: the
  -- check at the very instant of the response already finds nothing.
  pub overflowed_hint_ignored :
      (host : String) (c : HostCooldown)
      → rate_limited resp ≡ true
      → (resp.retry_after == "") ≡ false
      → lib.atoi resp.retry_after ≡ some (pos n)
      → 9223372036 < n
      → n < 18446744074
      → lookup host c ≡ none
      → (cooling host now (observe lib host (some resp) now c)).0 ≡ none
  unfolding observe cooling add_time
  overflowed_hint_ignored host c limited full parsed low high fresh =
      let (k, e) = wrapped_window full parsed low high in
      rw (limited, e, fresh) (ground (arith, lookup-insert host host (now - suc k) c, eq_refl host))
