-- ===== src/Examples/Requests.antt =====
-- Examples for backoff.go, cooldown.go, ratelimit.go and commit_gate.go.
use morgenblau.Common.{
  ℕ, ◌+◌, ◌-◌, ◌*◌, ◌≤◌, ◌<◌, ◌≡◌, ◌≢◌, refl, min, none, some, true, false, List, [], ◌∷◌, String,
  arith, ◌==◌, if◌then◌else◌, pos, second, inl, length, lookup,
}
use morgenblau.Backoff.{Policy, delay, cap, exponential}
use morgenblau.Backoff.Ladder.{IsLadder, exponential-IsLadder, delay_bounds}
use morgenblau.Cooldown.{
  Response, Parsers, Half, begins, ends, rate_limited, observe, cooling, serve, network_hits,
}
use morgenblau.Cooldown.Hints.{delta, limited_then_quiet}
use morgenblau.Cooldown.Overflow.{overflowed_hint_ignored}
use morgenblau.RateLimit.{Limiter, allowed, allow, run, count}
use morgenblau.RateLimit.Budget.{granted_to, requests_of, window_budget, wait_is_enough}
use morgenblau.RateLimit.ClientAddress as Address
use morgenblau.CommitGate.{Call, create_record, delete_record, get_record, handle}
use morgenblau.CommitGate.Budget.{commits_asked, forwarded, replay, room, one_commit}

abbrev three_steps : Policy
three_steps = record { steps = 5 ∷ 15 ∷ 60 ∷ [] }

delay_bounds_example :
    (delay three_steps (pos 1) ≤ delay three_steps (pos 2))
    × (delay three_steps (pos 2) ≤ cap three_steps)
    × (delay three_steps (pos (length three_steps.steps + 4)) ≡ cap three_steps)
delay_bounds_example = delay_bounds three_steps 1 2 4 (omega arith) (omega arith)

exponential-IsLadder_example :
    (steps : List ℕ) × (exponential (λ x. 2 * x) 100 96 5 ≡ some steps)
    × IsLadder (min 5 100) 100 steps
    × (steps ≢ [])
exponential-IsLadder_example =
    exponential-IsLadder (λ x. 2 * x) 100 1 95 5 (λ x le lt_. omega arith) (omega arith)
      (omega arith)

abbrev parsers : Parsers
parsers = record {
  atoi = λ s.
      if s == "60"
      then some (pos 60)
      else if s == "9999999999"
      then some (pos 9999999999)
      else none;
  parse_time = λ s. none;
  parse_int = λ s. none;
  unix = λ n. 0;
}

abbrev limited_for : String → Response
limited_for hint = record {
  status_code = 429;
  retry_after = hint;
  ratelimit_remaining = "";
  ratelimit_reset = "";
}

-- A request to "pds" is refused, one to "other" goes out, and a request that went out earlier is
-- answered in between.
abbrev later_halves : List Half
later_halves =
    begins "pds" 2000
    ∷ ends "pds" 2500 (some (limited_for ""))
    ∷ begins "other" 3000
    ∷ begins "pds" 60000000999
    ∷ []

limited_then_quiet_example :
    network_hits "pds"
      (serve parsers later_halves (observe parsers "pds" (some (limited_for "60")) 1000 []))
    ≡ 0
limited_then_quiet_example =
    limited_then_quiet parsers "pds" (limited_for "60") 1000 (60 * second) later_halves []
      (inl refl) (delta 60 refl refl (omega arith) refl)
      (omega arith, (tt, (omega arith, (omega arith, tt))))

overflowed_hint_ignored_example :
    (cooling "pds" 1000 (observe parsers "pds" (some (limited_for "9999999999")) 1000 [])).0 ≡ none
unfolding rate_limited lookup
overflowed_hint_ignored_example =
    overflowed_hint_ignored parsers (limited_for "9999999999") 1000 9999999999 "pds" [] refl refl
      refl (omega arith) (omega arith) refl

abbrev fresh_limiter : Limiter
fresh_limiter = record { limit = 1; window = 10; start = 0; counts = [] }

abbrev asked_thrice : List (String × ℕ)
asked_thrice = ("a", 5) ∷ ("b", 6) ∷ ("a", 7) ∷ []

window_budget_example :
    granted_to "a" (run asked_thrice fresh_limiter)
    ≡ min (requests_of "a" asked_thrice) (1 - count "a" fresh_limiter)
window_budget_example =
    window_budget "a" asked_thrice fresh_limiter (omega arith, (omega arith, (omega arith, tt)))

abbrev spent_limiter : Limiter
spent_limiter = record { limit = 1; window = 10; start = 0; counts = ("a", 1) ∷ [] }

wait_is_enough_example :
    (0 < 5) × (5 ≤ 10) × ((allow "a" 10 (allow "a" 5 spent_limiter).1).0 ≡ allowed)
unfolding allow count lookup
wait_is_enough_example = wait_is_enough "a" 5 5 spent_limiter (omega arith) (omega arith) refl

abbrev addresses : Address.AddressLibrary
addresses = record {
  Addr = String;
  parse_addr = λ s. if s == "" then none else some s;
  zone = λ a. "";
  unmap = λ a. a;
  to_string = λ a. a;
  invalid_text = "invalid IP";
  split_host = λ s. none;
  in_cloudflare = λ a. a == "173.245.48.1";
}

abbrev through : List String → String → Address.Request
through cf peer = record {
  fly_client_ip = "9.9.9.9" ∷ [];
  cf_connecting_ip = cf;
  remote_addr = peer;
}

forwarded_headers_untrusted_example :
    (Address.client_ip addresses true (through ("1.1.1.1" ∷ []) "8.8.8.8")
      ≡ Address.client_ip addresses true (through [] "7.7.7.7"))
    × (Address.client_ip addresses false (through ("1.1.1.1" ∷ []) "7.7.7.7")
        ≡ Address.client_ip addresses false (through [] "7.7.7.7"))
unfolding Address.header_ip Address.parse_ip
forwarded_headers_untrusted_example =
    Address.forwarded_headers_untrusted addresses (through [] "7.7.7.7")
      (through ("1.1.1.1" ∷ []) "8.8.8.8") (through ("1.1.1.1" ∷ []) "7.7.7.7") "9.9.9.9" refl refl
      refl refl

abbrev counting_repo : Call String → ℕ → String × ℕ
counting_repo call n = ("stored", n + 1)

abbrev three_calls : List (Call String)
three_calls = get_record "a" ∷ create_record "b" ∷ delete_record "c" ∷ []

one_commit_example :
    let (replies, b', s') = handle counting_repo three_calls (some false) 0 in
    (commits_asked (forwarded three_calls replies)
      ≡ min (commits_asked three_calls) (room (some false)))
    × (s' ≡ replay counting_repo (forwarded three_calls replies) 0)
one_commit_example = one_commit counting_repo three_calls (some false) 0
