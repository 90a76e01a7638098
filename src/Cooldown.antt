-- ===== src/Cooldown.antt =====
-- app/internal/atxrpc/cooldown.go: per-host rate-limit deadlines and the transport that honours
-- them. The clock's readings are arguments; strconv.ParseInt and time.Unix are parameters, as are
-- the two parsers of the backoff package.
pub mod Deadlines
pub mod Hints
pub mod Overflow
use morgenblau.Common.{
  ℕ, zero, suc, ◌*◌, ◌+◌, Option, none, some, Bool, true, false, ◌||◌, ◌&&◌, List, [], ◌∷◌, String,
  ltb, eqb, ◌==◌, if◌then◌else◌, pos, negsuc, ℤ, add_time, sub_time, min_duration, second, minute,
  Assoc, lookup, insert, remove,
}
use morgenblau.Backoff.{parse_retry_after}

abbrev pub default_cooldown_window : ℕ
default_cooldown_window = 30 * second

abbrev pub max_cooldown_window : ℕ
max_cooldown_window = 10 * minute

-- The parts of *http.Response that are read, an absent header as "".
pub record Response : Type 0 where
  pub status_code : ℕ
  pub retry_after : String
  pub ratelimit_remaining : String
  pub ratelimit_reset : String

-- What becomes of a request: it is refused with a HostCoolingError or handed to the inner transport,
-- which then fails or answers.
pub data Outcome : Type 0 where
  host_cooling : String → ℕ → Outcome
  sent : String → Outcome
  inner_failed : Outcome
  answered : Response → Outcome

-- c.until
abbrev pub HostCooldown : Type 0
HostCooldown = Assoc ℕ

unfoldable pub cooling_entry : String → ℕ → HostCooldown → Option ℕ → Option ℕ × HostCooldown
cooling_entry host now c none = (none, c)
cooling_entry host now c (some until) =
    if ltb now until then (some until, c) else (none, remove host c)

unfoldable pub cooling : String → ℕ → HostCooldown → Option ℕ × HostCooldown
unfolding cooling_entry
cooling host now c = cooling_entry host now c (lookup host c)

pub after_check : String → Option ℕ × HostCooldown → Outcome × HostCooldown
after_check host (some until, c) = (host_cooling host until, c)
after_check host (none, c) = (sent host, c)

-- RoundTrip takes the lock twice: for the check, and after the inner round trip for Observe. In
-- between other requests pass. Each half reads the clock under the lock.
unfoldable pub begin_round_trip : String → ℕ → HostCooldown → Outcome × HostCooldown
unfolding after_check
begin_round_trip host now c = after_check host (cooling host now c)

unfoldable pub rate_limited : Response → Bool
rate_limited resp =
    eqb resp.status_code 429 || eqb resp.status_code 503 || resp.ratelimit_remaining == "0"

abbrev pub positive : ℤ → Option ℤ
positive (pos zero) = none
positive (pos (suc n)) = some (pos (suc n))
positive (negsuc n) = none

-- The first of two hints that is there, else the default.
abbrev pub hint_or : Option ℤ → Option ℤ → ℤ
hint_or (some d) second_hint = d
hint_or none (some d) = d
hint_or none none = pos default_cooldown_window

pub record_until : String → ℕ → Option ℕ → HostCooldown → HostCooldown
record_until host until none c = insert host until c
record_until host until (some prev) c = if ltb until prev then c else insert host until c

pub record Parsers : Type 0 where
  pub atoi : String → Option ℤ
  pub parse_time : String → Option ℕ
  pub parse_int : String → Option ℤ
  pub unix : ℤ → ℕ

module _ (lib : Parsers) where
  unfoldable pub reset_window : String → ℕ → Option ℤ
  reset_window v now = elim (lib.parse_int v) [
    | none ↦ none
    | some secs ↦ positive (sub_time (lib.unix secs) now)
  ]

  unfoldable pub cooldown_window : Response → ℕ → ℤ
  unfolding reset_window
  cooldown_window resp now =
      min_duration
        (hint_or (parse_retry_after lib.atoi lib.parse_time resp.retry_after now)
          (reset_window resp.ratelimit_reset now))
        max_cooldown_window

  -- `none` is the nil response.
  unfoldable pub observe : String → Option Response → ℕ → HostCooldown → HostCooldown
  unfolding record_until
  observe host none now c = c
  observe host (some resp) now c =
      if rate_limited resp
      then record_until host (add_time now (cooldown_window resp now)) (lookup host c) c
      else c

  -- `none` is the inner transport's error.
  unfoldable pub end_round_trip :
      String → ℕ → Option Response → HostCooldown → Outcome × HostCooldown
  end_round_trip host now none c = (inner_failed, c)
  end_round_trip host now (some resp) c = (answered resp, observe host (some resp) now c)

-- One half of a round trip: its host, the clock's reading, and the inner result.
pub data Half : Type 0 where
  begins : String → ℕ → Half
  ends : String → ℕ → Option Response → Half

unfoldable pub run_half : Parsers → Half → HostCooldown → Outcome × HostCooldown
run_half lib (begins host now) c = begin_round_trip host now c
run_half lib (ends host now inner) c = end_round_trip lib host now inner c

-- The halves of any number of round trips in the order in which they get the lock.
unfoldable pub serve : Parsers → List Half → HostCooldown → List Outcome
serve lib [] c = []
serve lib (h ∷ hs) c = let (outcome, c') = run_half lib h c in outcome ∷ serve lib hs c'

abbrev pub is_sent_to : String → Outcome → Bool
is_sent_to host (sent h) = h == host
is_sent_to host _ = false

-- How many requests to `host` went out.
unfoldable pub network_hits : String → List Outcome → ℕ
network_hits host [] = 0
network_hits host (o ∷ os) = (if is_sent_to host o then 1 else 0) + network_hits host os
