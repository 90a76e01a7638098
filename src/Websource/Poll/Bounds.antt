-- ===== src/Websource/Poll/Bounds.antt =====
-- What one poll may say of a source, and when the next one comes: pollUpdate of
-- app/internal/websource/service.go with the retry ladder.
use morgenblau.Common.{
  ℕ, suc, ◌+◌, ◌≤◌, max, ◌≡◌, refl, Bool, true, false, ◌&&◌, not, arith, Bool-cases, inl, inr,
  if◌then◌else◌, pos,
}
use morgenblau.Backoff.{delay, cap}
use morgenblau.Backoff.Ladder.{IsRising, delay_bounds}
use morgenblau.Websource.{
  Health, healthy, needs_attention, blocked_by_site, broken, Verdict, ok_verdict, suspect,
  broken_verdict, PollOutcome, WebSource, Library, rank, is_healthy,
}
use morgenblau.Websource.Poll.{
  Schedule, PollUpdate, judged, doubted, is_broken_verdict, poll_update,
}

rank-le : (h : Health) → rank h ≤ 3
unfolding rank
rank-le healthy = omega arith
rank-le needs_attention = omega arith
rank-le blocked_by_site = omega arith
rank-le broken = omega arith

healthy_rank : (h : Health) → is_healthy h ≡ true → rank h ≡ 3
unfolding rank
healthy_rank healthy e = refl
healthy_rank needs_attention e = cc
healthy_rank blocked_by_site e = cc
healthy_rank broken e = cc

refused_rank : (blocked : Bool) → rank (if blocked then blocked_by_site else broken) ≤ 1
unfolding rank
refused_rank true = omega arith
refused_rank false = omega arith

module _ (lib : Library) (cfg : Schedule) where
  rank-doubted :
      (src : WebSource) (out : PollOutcome) (now : ℕ) (verdict : Verdict)
      → out.verdict ≡ verdict
      → rank (doubted lib cfg src out (judged lib cfg verdict src out now)).health
        ≤ max (rank src.setup_health) 1
  unfolding doubted judged
  rank-doubted src out now broken_verdict e =
      let low = refused_rank out.blocked in rw e (omega (arith, low))
  rank-doubted src out now ok_verdict e = elim (Bool-cases (is_healthy src.setup_health)) [
    | inl sure ↦
        let top = healthy_rank src.setup_health sure in
        let le = rank-le healthy in rw (e, sure) (omega (arith, top, le))
    | inr unsure ↦ rw (e, unsure) (omega arith)
  ]
  rank-doubted src out now suspect e = elim (Bool-cases (is_healthy src.setup_health)) [
    | inl sure ↦
        let top = healthy_rank src.setup_health sure in
        let le = rank-le needs_attention in rw (e, sure) (omega (arith, top, le))
    | inr unsure ↦ rw (e, unsure) (omega arith)
  ]

-- Whatever a poll finds, it shows the source no healthier than the setup in force, or as blocked or
-- broken.
pub setup_bounds_health :
    (lib : Library) (cfg : Schedule) (src : WebSource) (out : PollOutcome) (now : ℕ)
    → rank (poll_update lib cfg src out now).health ≤ max (rank src.setup_health) 1
unfolding poll_update
setup_bounds_health lib cfg src out now = rank-doubted lib cfg src out now out.verdict refl

module _ (lib : Library) (cfg : Schedule) where
  doubted_next :
      (src : WebSource) (out : PollOutcome) (update : PollUpdate)
      → (doubted lib cfg src out update).next_poll_at ≡ update.next_poll_at
  unfolding doubted
  doubted_next src out update =
      elim (Bool-cases (not (is_broken_verdict out.verdict) && not (is_healthy src.setup_health))) [
        | inl unsure ↦ rw unsure refl
        | inr settled ↦ rw settled refl
      ]

  judged_next :
      (src : WebSource) (out : PollOutcome) (now : ℕ) (verdict : Verdict)
      → IsRising 0 cfg.backoff.steps
      → (wait : ℕ) × ((judged lib cfg verdict src out now).next_poll_at
          ≡ lib.format_time (now + wait))
        × (wait ≤ max cfg.interval (cap cfg.backoff))
  unfolding judged
  judged_next src out now ok_verdict r = (cfg.interval, refl, omega arith)
  judged_next src out now suspect r = (cfg.interval, refl, omega arith)
  judged_next src out now broken_verdict r =
      let n = suc src.consecutive_failures in
      let (_, below, _) = delay_bounds cfg.backoff n n 0 r (omega arith) in
      (delay cfg.backoff (pos n), refl, omega (arith, below))

-- On a rising ladder the next poll of a source comes at most one interval or the ladder's cap after
-- this one, whatever the poll found and however often it failed.
pub next_poll_bounded :
    (lib : Library) (cfg : Schedule) (src : WebSource) (out : PollOutcome) (now : ℕ)
    → IsRising 0 cfg.backoff.steps
    → (wait : ℕ) × ((poll_update lib cfg src out now).next_poll_at ≡ lib.format_time (now + wait))
      × (wait ≤ max cfg.interval (cap cfg.backoff))
unfolding poll_update
next_poll_bounded lib cfg src out now r =
    let (wait, e, bound) = judged_next lib cfg src out now out.verdict r in
    (wait, rw (doubted_next lib cfg src out (judged lib cfg out.verdict src out now)) e, bound)
