-- ===== src/Backoff.antt =====
-- app/internal/backoff/backoff.go: retry ladders and upstream retry hints. strconv.Atoi,
-- http.ParseTime and the float product of Exponential are parameters.
pub mod Ladder
use morgenblau.Common.{
  ℕ, zero, suc, ◌-◌, Option, none, some, Bool, true, false, List, [], ◌∷◌, String, ltb, leb, length,
  ◌==◌, if◌then◌else◌, pos, negsuc, ℤ, is_negative, seconds, sub_time,
}
use mathlib.Core.Option

pub record Policy : Type 0 where
  pub steps : List ℕ

-- p.Steps[i]; the callers stay in range, where the default is not read.
abbrev pub step_at : List ℕ → ℕ → ℕ
step_at [] i = 0
step_at (x ∷ xs) zero = x
step_at (x ∷ xs) (suc i) = step_at xs i

delay_at : List ℕ → ℕ → ℕ
delay_at steps zero = 0
delay_at [] (suc i) = 0
delay_at (x ∷ xs) (suc i) =
    let n = length (x ∷ xs) in step_at (x ∷ xs) (if leb n i then n - 1 else i)

-- A count that is negative is treated as zero.
unfoldable pub delay : Policy → ℤ → ℕ
unfolding delay_at
delay p (pos failures) = delay_at p.steps failures
delay p (negsuc failures) = 0

unfoldable pub cap : Policy → ℕ
cap p = elim p.steps [ [] ↦ 0 | x ∷ xs ↦ step_at (x ∷ xs) (length (x ∷ xs) - 1) ]

-- `scale` is `time.Duration(float64(cur) * factor)`; `none` means that the fuel ran out.
unfoldable pub exponential : (ℕ → ℕ) → ℕ → ℕ → ℕ → Option (List ℕ)
exponential scale max zero cur = none
exponential scale max (suc fuel) cur =
    let rest = exponential scale max fuel (scale cur) in
    if ltb cur max then Option.map (λ steps. cur ∷ steps) rest else some (max ∷ [])

module _ (atoi : String → Option ℤ) (parse_time : String → Option ℕ) where
  unfoldable pub http_date : String → ℕ → Option ℤ
  http_date v now = elim (parse_time v) [
    | none ↦ none
    | some t ↦ if is_negative (sub_time t now) then none else some (sub_time t now)
  ]

  -- `none` is the result whose ok is false.
  unfoldable pub parse_retry_after : String → ℕ → Option ℤ
  unfolding http_date
  parse_retry_after v now = if v == "" then none else elim (atoi v) [
    | none ↦ http_date v now
    | some (pos secs) ↦ some (seconds secs)
    | some (negsuc secs) ↦ none
  ]
