-- ===== src/Backoff/Ladder.antt =====
-- What the ladders of backoff.go promise: delays grow with the failures and stay below the cap.
use morgenblau.Common.{
  ℕ, zero, suc, ◌+◌, ◌≤◌, ◌<◌, ◌≡◌, ◌≢◌, refl, min, some, List, [], ◌∷◌, arith, ltb, if◌then◌else◌,
  length, Bool-cases, inl, inr, pos,
}
use mathlib.Core.Option
use native.Mathlib.Numerals.{unary_clauses}
use native.Mathlib.Nat.{zero-add, suc-add}
use morgenblau.Backoff.{Policy, step_at, delay, delay_at, cap, exponential}

-- Each step is at least the one before, and the first at least `lo`.
abbrev pub IsRising : ℕ → List ℕ → Type 0
IsRising lo [] = Unit
IsRising lo (x ∷ xs) = (lo ≤ x) × IsRising x xs

lower-le-step_at :
    (lo : ℕ) (xs : List ℕ) (i : ℕ) → IsRising lo xs → i < length xs → lo ≤ step_at xs i
lower-le-step_at lo [] i r h = elim h [ ]
lower-le-step_at lo (x ∷ xs) zero r h = r.0
lower-le-step_at lo (x ∷ xs) (suc i) r h =
    omega (arith, lower-le-step_at x xs i r.1 (omega arith), r.0)

step_at_mono :
    (lo : ℕ) (xs : List ℕ) (i j : ℕ)
    → IsRising lo xs
    → i ≤ j
    → j < length xs
    → step_at xs i ≤ step_at xs j
step_at_mono lo [] i j r le h = elim h [ ]
step_at_mono lo (x ∷ xs) zero zero r le h = omega arith
step_at_mono lo (x ∷ xs) zero (suc j) r le h = lower-le-step_at x xs j r.1 (omega arith)
step_at_mono lo (x ∷ xs) (suc i) zero r le h = absurd (omega arith)
step_at_mono lo (x ∷ xs) (suc i) (suc j) r le h =
    step_at_mono x xs i j r.1 (omega arith) (omega arith)

delay_at_mono :
    (steps : List ℕ) (m n : ℕ) → IsRising 0 steps → m ≤ n → delay_at steps m ≤ delay_at steps n
unfolding delay_at
delay_at_mono steps zero n r le = omega arith
delay_at_mono [] (suc m) n r le = omega arith
delay_at_mono (x ∷ xs) (suc m) zero r le = absurd (omega arith)
delay_at_mono (x ∷ xs) (suc m) (suc n) r le =
    step_at_mono 0 (x ∷ xs) _ _ r (ground arith) (ground arith)

delay_at-le-cap :
    (steps : List ℕ) (n : ℕ) → IsRising 0 steps → delay_at steps n ≤ cap (record { steps = steps })
unfolding delay_at cap
delay_at-le-cap steps zero r = omega arith
delay_at-le-cap [] (suc n) r = omega arith
delay_at-le-cap (x ∷ xs) (suc n) r = step_at_mono 0 (x ∷ xs) _ _ r (ground arith) (ground arith)

-- A ladder that rises from `lo` and ends in `max`.
abbrev pub IsLadder : ℕ → ℕ → List ℕ → Type 0
IsLadder lo max steps = IsRising lo steps × (cap (record { steps = steps }) ≡ max)

IsLadder-cons :
    (lo max : ℕ) (xs : List ℕ) → IsLadder lo max xs → xs ≢ [] → IsLadder lo max (lo ∷ xs)
unfolding cap
IsLadder-cons lo max [] h n = absurd (n refl)
IsLadder-cons lo max (x ∷ xs) h n =
    ((omega arith, h.0), simp unary_clauses (simp unary_clauses at h.1))

IsRising-weaken : (a b : ℕ) (xs : List ℕ) → a ≤ b → IsRising b xs → IsRising a xs
IsRising-weaken a b [] le r = tt
IsRising-weaken a b (x ∷ xs) le r = (omega arith, r.1)

exponential_unroll :
    (scale : ℕ → ℕ) (max fuel cur : ℕ)
    → exponential scale max (suc fuel) cur ≡ (
        if ltb cur max
        then Option.map (λ steps. cur ∷ steps) (exponential scale max fuel (scale cur))
        else some (max ∷ []))
unfolding exponential
exponential_unroll scale max fuel cur = refl

-- Where each product below `max` grows, the loop ends, the ladder rises from the base (or from the
-- maximum, where that is smaller), and its last step is the maximum exactly.
pub exponential-IsLadder :
    (scale : ℕ → ℕ) (max lo fuel cur : ℕ)
    → ((x : ℕ) → lo ≤ x → x < max → x < scale x)
    → lo ≤ cur
    → max ≤ fuel + cur
    → (steps : List ℕ) × (exponential scale max (suc fuel) cur ≡ some steps)
      × IsLadder (min cur max) max steps
      × (steps ≢ [])
unfolding cap
exponential-IsLadder scale max lo zero cur grows le enough = (
  max ∷ [],
  ground (arith, exponential_unroll scale max 0 cur),
  ((omega arith, tt), refl),
  λ e. cc,
)
exponential-IsLadder scale max lo (suc fuel) cur grows le enough = elim (Bool-cases (ltb cur max)) [
  | inl below ↦
      let up = grows cur le (ground arith) in
      let (steps, runs, ladder, full) =
        exponential-IsLadder scale max lo fuel (scale cur) grows (omega arith) (omega arith) in
      let tail = IsRising-weaken cur (min (scale cur) max) steps (ground arith) ladder.0 in
      let whole = IsLadder-cons cur max steps (tail, ladder.1) full in
      (
        cur ∷ steps,
        rw (exponential_unroll, below, runs),
        ((omega arith, whole.0.1), whole.1),
        λ e. cc,
      )
  | inr done ↦ (max ∷ [], rw (exponential_unroll, done), ((omega arith, tt), refl), λ e. cc)
]

past_ladder :
    (steps : List ℕ) (k : ℕ) → delay_at steps (length steps + k) ≡ cap (record { steps = steps })
unfolding delay_at cap
past_ladder [] zero = refl
past_ladder [] (suc k) = rw zero-add
past_ladder (x ∷ xs) k = rw suc-add (ground arith)

-- On a rising ladder more failures never shorten the delay, no delay passes the cap, and the cap is
-- the delay of every count from the ladder's length on.
pub delay_bounds :
    (p : Policy) (m n k : ℕ)
    → IsRising 0 p.steps
    → m ≤ n
    → (delay p (pos m) ≤ delay p (pos n))
      × (delay p (pos n) ≤ cap p)
      × (delay p (pos (length p.steps + k)) ≡ cap p)
unfolding delay
delay_bounds p m n k r le =
    (delay_at_mono p.steps m n r le, delay_at-le-cap p.steps n r, past_ladder p.steps k)
