-- ===== src/RateLimit.antt =====
-- app/internal/middleware/ratelimit/ratelimit.go: a fixed-window limiter per client key, and the
-- address that it takes as the key. net.SplitHostPort, netip and the prefix test are parameters.
pub mod Budget
pub mod ClientAddress
use morgenblau.Common.{
  ℕ, zero, suc, ◌+◌, ◌-◌, Option, none, some, Bool, true, false, List, [], ◌∷◌, String, leb, eqb,
  if◌then◌else◌, Assoc, lookup, insert,
}

pub record Limiter : Type 0 where
  pub limit : ℕ
  pub window : ℕ
  pub start : ℕ  -- an instant
  pub counts : Assoc ℕ

pub data Verdict : Type 0 where
  allowed : Verdict
  wait : ℕ → Verdict

-- l.counts[key], 0 for a missing key
abbrev pub count_of : Option ℕ → ℕ
count_of none = 0
count_of (some n) = n

unfoldable pub count : String → Limiter → ℕ
count key l = count_of (lookup key l.counts)

-- The reset at the head of Allow. Time{} is instant 0, so a new limiter resets on first use.
unfoldable pub roll : ℕ → Limiter → Limiter
roll now l = if leb (l.start + l.window) now then record l { start = now; counts = [] } else l

unfoldable pub admit : String → ℕ → Limiter → Verdict × Limiter
unfolding count
admit key now l =
    if leb l.limit (count key l)
    then (wait (l.start + l.window - now), l)
    else (allowed, record l { counts = insert key (count key l + 1) l.counts })

unfoldable pub allow : String → ℕ → Limiter → Verdict × Limiter
unfolding admit roll
allow key now l = admit key now (roll now l)

-- The requests of a run, each with its key and the clock's reading, and the verdicts they get.
unfoldable pub run : List (String × ℕ) → Limiter → List (String × ℕ × Verdict)
run [] l = []
run ((key, now) ∷ rs) l = let (v, l') = allow key now l in (key, now, v) ∷ run rs l'
