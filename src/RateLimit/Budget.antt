-- ===== src/RateLimit/Budget.antt =====
-- What the limiter of ratelimit.go grants within a window, and when it grants again.
use morgenblau.Common.{
  ℕ, ◌+◌, ◌-◌, ◌≤◌, ◌<◌, ◌≡◌, min, List, [], ◌∷◌, String, arith, ◌==◌, if◌then◌else◌, lookup,
  lookup-insert, eq_iff, All,
}
use morgenblau.RateLimit.{Limiter, Verdict, allowed, wait, count, allow, run}

abbrev pub granted : Verdict → ℕ
granted allowed = 1
granted (wait w) = 0

-- How many requests of `key` a run grants.
unfoldable pub granted_to : String → List (String × ℕ × Verdict) → ℕ
granted_to key [] = 0
granted_to key ((k, now, v) ∷ rest) = (if k == key then granted v else 0) + granted_to key rest

unfoldable pub requests_of : String → List (String × ℕ) → ℕ
requests_of key [] = 0
requests_of key ((k, now) ∷ rest) = (if k == key then 1 else 0) + requests_of key rest

-- Within the window a request spends one of its key's grants if one is left, and nothing else.
allow_in_window :
    (key other : String) (now : ℕ) (l : Limiter)
    → now < l.start + l.window
    → (granted (allow key now l).0 + (l.limit - (count key l + 1)) ≡ l.limit - count key l)
      × (l.limit - count other (allow key now l).1
          ≡ (if key == other then l.limit - (count key l + 1) else l.limit - count other l))
      × ((allow key now l).1.limit ≡ l.limit)
      × ((allow key now l).1.start ≡ l.start)
      × ((allow key now l).1.window ≡ l.window)
unfolding allow
allow_in_window key other now l inside =
    ground (arith, lookup-insert key other (count key l + 1) l.counts, eq_iff key other)

-- Within one window a key is granted exactly its first requests, as many as its limit leaves; the
-- requests of other keys take nothing from it.
pub window_budget :
    (key : String) (rs : List (String × ℕ)) (l : Limiter)
    → All (λ r. r.1 < l.start + l.window) rs
    → granted_to key (run rs l) ≡ min (requests_of key rs) (l.limit - count key l)
unfolding run granted_to requests_of
window_budget key [] l inside = omega arith
window_budget key ((k, now) ∷ rs) l inside =
    let step = allow_in_window k key now l inside.0 in
    let l' = (allow k now l).1 in
    let later : All (λ r. r.1 < l'.start + l'.window) rs = rw (step.3, step.4) inside.1 in
    let rest = window_budget key rs l' later in ground (arith, eq_iff k key, rest, step)

-- A refusal names a wait within the window, and a client that returns once it is over is granted
-- its request if the limit is not 0.
pub wait_is_enough :
    (key : String) (now w : ℕ) (l : Limiter)
    → l.start ≤ now
    → 0 < l.limit
    → (allow key now l).0 ≡ wait w
    → (0 < w) × (w ≤ l.window) × ((allow key (now + w) (allow key now l).1).0 ≡ allowed)
unfolding allow count lookup
wait_is_enough key now w l started some_left refused = ground arith
