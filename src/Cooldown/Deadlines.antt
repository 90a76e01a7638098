-- ===== src/Cooldown/Deadlines.antt =====
-- How long a deadline of cooldown.go lasts while round trips overlap.
use morgenblau.Common.{
  ℕ, ◌≤◌, ◌<◌, ◌≡◌, ◌∙◌, refl, max, Option, none, some, true, false, List, [], ◌∷◌, String, arith,
  ◌==◌, add_time, lookup, lookup-insert, ltb, lookup-remove, eq_iff, eq_refl, All, Bool-cases,
  Option-cases, inl, inr,
}
use morgenblau.Cooldown.{
  HostCooldown, Response, Outcome, Parsers, Half, begins, ends, cooling, rate_limited,
  cooldown_window, observe, record_until, after_check, begin_round_trip, end_round_trip, run_half,
  serve, network_hits, is_sent_to,
}

abbrev pub deadline_of : Option ℕ → ℕ
deadline_of none = 0
deadline_of (some until) = until

-- The instant up to which `host` is cooling, 0 if it has no entry.
abbrev pub deadline : String → HostCooldown → ℕ
deadline host c = deadline_of (lookup host c)

lookup-record_until :
    (host other : String) (until : ℕ) (c : HostCooldown) (o : Option ℕ)
    → (host == other) ≡ false
    → lookup other (record_until host until o c) ≡ lookup other c
unfolding record_until
lookup-record_until host other until c none ne = ground (arith, lookup-insert host other until c)
lookup-record_until host other until c (some prev) ne =
    ground (arith, lookup-insert host other until c)

lookup-observe :
    (lib : Parsers) (host other : String) (resp : Option Response) (now : ℕ) (c : HostCooldown)
    → (host == other) ≡ false
    → lookup other (observe lib host resp now c) ≡ lookup other c
unfolding observe
lookup-observe lib host other none now c ne = refl
lookup-observe lib host other (some resp) now c ne = elim (Bool-cases (rate_limited resp)) [
  | inl limited ↦ rw limited (
      lookup-record_until host other (add_time now (cooldown_window lib resp now)) c (lookup host c)
        ne)
  | inr free ↦ rw free refl
]

-- The host has a deadline, which is `until` or later.
abbrev pub CoolsUntil : String → ℕ → HostCooldown → Type 0
CoolsUntil host until c = (u : ℕ) × (lookup host c ≡ some u) × (until ≤ u)

pub record_until_found :
    (host : String) (until : ℕ) (c : HostCooldown) (o : Option ℕ)
    → lookup host c ≡ o
    → CoolsUntil host (max until (deadline_of o)) (record_until host until o c)
unfolding record_until
record_until_found host until c none e =
    (until, ground (arith, lookup-insert host host until c, eq_refl host), omega arith)
record_until_found host until c (some prev) e =
    (max until prev, ground (arith, lookup-insert host host until c, eq_refl host), omega arith)

pub later :
    (host : String) (a b : ℕ) (c : HostCooldown) → a ≤ b → CoolsUntil host b c → CoolsUntil host a c
later host a b c le (u, e, h) = (u, e, omega arith)

-- A response that lands later does not shorten a deadline.
observe_keeps :
    (lib : Parsers) (h host : String) (resp : Option Response) (now until : ℕ) (c : HostCooldown)
    → CoolsUntil host until c
    → CoolsUntil host until (observe lib h resp now c)
unfolding observe
observe_keeps lib h host none now until c k = k
observe_keeps lib h host (some resp) now until c (u, e, le) = elim (Bool-cases (h == host)) [
  | inl same ↦ rw ((eq_iff h host).0 same) (elim (Bool-cases (rate_limited resp)) [
    | inl limited ↦
        let x = add_time now (cooldown_window lib resp now) in
        rw (limited, e)
          (later host until (max x u) (record_until host x (some u) c) (omega arith)
            (record_until_found host x c (some u) e))
    | inr free ↦ rw free (u, e, le)
  ])
  | inr ne ↦ (u, lookup-observe lib h host (some resp) now c ne ∙ e, le)
]

lookup-cooling :
    (host other : String) (now : ℕ) (c : HostCooldown)
    → (host == other) ≡ false
    → lookup other (cooling host now c).1 ≡ lookup other c
unfolding cooling
lookup-cooling host other now c ne = elim (Option-cases (lookup host c)) [
  | inl e ↦ rw e
  | inr (until, e) ↦ rw e (ground (arith, lookup-remove host other c))
]

-- Only a request that begins is bound by the deadline.
abbrev pub BeginsBefore : ℕ → Half → Type 0
BeginsBefore until (begins host now) = now < until
BeginsBefore until (ends host now inner) = Unit

module _ (lib : Parsers) (host : String) (until : ℕ) where
  Stays : Outcome × HostCooldown → Type 0
  Stays r = (is_sent_to host r.0 ≡ false) × CoolsUntil host until r.1

  check_stays :
      (h : String) (r : Option ℕ × HostCooldown)
      → (h == host) ≡ false
      → CoolsUntil host until r.1
      → Stays (after_check h r)
  unfolding Stays after_check
  check_stays h (some u, c) ne k = (refl, k)
  check_stays h (none, c) ne k = (ne, k)

  -- A request that begins before the deadline is refused.
  refused :
      (now u : ℕ) (c : HostCooldown)
      → now < until
      → lookup host c ≡ some u
      → until ≤ u
      → Stays (begin_round_trip host now c)
  unfolding begin_round_trip cooling after_check Stays
  refused now u c early e le =
      rw e (let soon : ltb now u ≡ true = ground arith in rw soon (refl, (u, e, le)))

  half_stays :
      (h : Half) (c : HostCooldown)
      → BeginsBefore until h
      → CoolsUntil host until c
      → Stays (run_half lib h c)
  unfolding run_half begin_round_trip end_round_trip Stays
  half_stays (begins h now) c early (u, e, le) = elim (Bool-cases (h == host)) [
    | inl same ↦ rw ((eq_iff h host).0 same) (refused now u c early e le)
    | inr ne ↦ check_stays h (cooling h now c) ne (u, lookup-cooling h host now c ne ∙ e, le)
  ]
  half_stays (ends h now none) c early k = (refl, k)
  half_stays (ends h now (some resp)) c early k =
      (refl, observe_keeps lib h host (some resp) now until c k)

-- While every request begins before a host's deadline, none to that host goes out, in whatever order
-- checks and answers get the lock.
pub deadline_holds :
    (lib : Parsers) (host : String) (until : ℕ) (hs : List Half) (c : HostCooldown)
    → CoolsUntil host until c
    → All (BeginsBefore until) hs
    → network_hits host (serve lib hs c) ≡ 0
unfolding serve network_hits Stays
deadline_holds lib host until [] c k early = refl
deadline_holds lib host until (h ∷ hs) c k early =
    let (unsent, k') = half_stays lib host until h c early.0 k in
    rw unsent (omega (arith, deadline_holds lib host until hs (run_half lib h c).1 k' early.1))
