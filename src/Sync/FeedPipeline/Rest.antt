-- ===== src/Sync/FeedPipeline/Rest.antt =====
-- How feedpipeline.go leaves a failing feed alone.
use morgenblau.Common.{
  ℕ, suc, ◌+◌, ◌*◌, ◌≤◌, ◌<◌, ◌≡◌, refl, ap, ◌∙◌, some, Bool, true, false, String, arith, Assoc,
  lookup, lookup-insert, ℤ, pos, negsuc, second, minute, hour, eq_refl,
}
use morgenblau.Backoff.{delay, cap}
use morgenblau.Backoff.Ladder.{delay_bounds, IsRising}
use morgenblau.Sync.Collection.{Tx, ok, err, fetch_failure}
use morgenblau.Sync.Catalog.{Feed, update_feed}
use morgenblau.Sync.FeedPipeline.{Library, failure_delay, feed_backoff, in_backoff}
use morgenblau.Sync.FeedPipeline.Store.{Store, fetch_error, Statement, update_failure, Sources}
use morgenblau.Sync.FeedPipeline.Fetch.{
  after_fetch, fetch_and_store, record_fetch_failure, feed_state, next_fetch_of,
}

backoff_IsRising : IsRising 0 feed_backoff.steps
backoff_IsRising = omega arith

first_delay : delay feed_backoff (pos 1) ≡ 5 * minute
unfolding delay
first_delay = refl

top_delay : cap feed_backoff ≡ 24 * hour
unfolding cap
top_delay = refl

delay_range :
    (n : ℕ)
    → (5 * minute ≤ delay feed_backoff (pos (suc n)))
      × (delay feed_backoff (pos (suc n)) ≤ 24 * hour)
delay_range n =
    let (up, below, full) = delay_bounds feed_backoff 1 (suc n) 0 backoff_IsRising (omega arith) in
    (rw first_delay at up, rw top_delay at below)

failure_delay_range :
    (n : ℕ) (retry_after : ℤ)
    → (5 * minute ≤ failure_delay (suc n) retry_after)
      × (failure_delay (suc n) retry_after ≤ 24 * hour)
unfolding failure_delay
failure_delay_range n (pos r) = omega (arith, delay_range n, top_delay)
failure_delay_range n (negsuc r) = delay_range n

-- RFC 3339 keeps whole seconds: what is read back is the instant less its fraction.
abbrev pub KeepsSeconds : Library → ℕ → Type 0
KeepsSeconds lib t =
    (s : ℕ) × (lib.parse_time (lib.format_time t) ≡ some s) × (s ≤ t) × (t < s + second)

stamp_backoff :
    (lib : Library) (t started : ℕ)
    → KeepsSeconds lib t
    → (started + second ≤ t → in_backoff lib (some (lib.format_time t)) started ≡ true)
      × (t ≤ started → in_backoff lib (some (lib.format_time t)) started ≡ false)
unfolding in_backoff
stamp_backoff lib t started (s, reads, le, lt_) = rw reads (ground arith)

updated_there :
    (url : String) (g : Feed → Feed) (f : Feed) (feeds : Assoc Feed)
    → lookup url feeds ≡ some f
    → lookup url (update_feed url g feeds) ≡ some (g f)
unfolding update_feed
updated_there url g f feeds at =
    rw (at, update_feed) (rw (lookup-insert url url (g f) feeds, eq_refl url) refl)

module _ (lib : Library) (src : Sources) (works : Statement → Bool) where
  failed_stamp :
      (url : String) (f : Feed) (retry_after : ℤ) (now : ℕ) (q : Store)
      → lookup url q.feeds ≡ some f
      → works update_failure ≡ true
      → next_fetch_of
          (lookup url (record_fetch_failure lib src works url (some f) retry_after now q).feeds)
        ≡ some (lib.format_time (now + failure_delay (suc f.consecutive_failures) retry_after))
  unfolding record_fetch_failure
  failed_stamp url f r now q at up = rw up (ap next_fetch_of (updated_there url _ f q.feeds at))

  rests_view :
      (tx : Tx) (url : String) (started now : ℕ) (q : Store)
      → in_backoff lib (next_fetch_of (lookup url q.feeds)) started ≡ true
      → fetch_and_store lib src works tx url started now q ≡ (false, (ok tt, q))
  unfolding fetch_and_store
  rests_view tx url started now q h = rw h refl

  asks_view :
      (tx : Tx) (url : String) (started now : ℕ) (q : Store)
      → in_backoff lib (next_fetch_of (lookup url q.feeds)) started ≡ false
      → fetch_and_store lib src works tx url started now q ≡ (
        true,
        after_fetch lib src works tx url
            (lookup url q.feeds)
            now
            (src.fetch (feed_state (lookup url q.feeds)))
            q,
      )
  unfolding fetch_and_store
  asks_view tx url started now q h = rw h refl

  failed_view :
      (tx : Tx) (url : String) (f : Feed) (retry_after : ℤ) (now : ℕ) (q : Store)
      → lookup url q.feeds ≡ some f
      → src.fetch (feed_state (some f)) ≡ fetch_error false retry_after
      → after_fetch lib src works tx url
          (lookup url q.feeds)
          now
          (src.fetch (feed_state (lookup url q.feeds)))
          q
        ≡ (err fetch_failure, record_fetch_failure lib src works url (some f) retry_after now q)
  unfolding after_fetch
  failed_view tx url f r now q at fails = rw (at, fails) refl

  -- A stored feed that is not in backoff and whose fetch fails, other than by cancellation, at the
  -- time `now` is left alone by a run that starts within five minutes, less the second that RFC 3339
  -- rounds away: it asks nothing of the network and changes nothing. A run that starts 24 hours
  -- later or after asks again. (The failure's stamp is written, and reads back to the second.)
  pub failed_feed_rests :
      (tx tx' : Tx) (url : String) (f : Feed) (retry_after : ℤ)
      (started now early late later_now : ℕ) (q : Store)
      → lookup url q.feeds ≡ some f
      → in_backoff lib f.next_fetch_at started ≡ false
      → src.fetch (feed_state (some f)) ≡ fetch_error false retry_after
      → works update_failure ≡ true
      → ((t : ℕ) → t ≤ now + 24 * hour → KeepsSeconds lib t)
      → early + second ≤ now + 5 * minute
      → now + 24 * hour ≤ late
      → (q' : Store) × (fetch_and_store lib src works tx url started now q
          ≡ (true, (err fetch_failure, q')))
        × (fetch_and_store lib src works tx' url early later_now q' ≡ (false, (ok tt, q')))
        × ((fetch_and_store lib src works tx' url late later_now q').0 ≡ true)
  failed_feed_rests tx tx' url f r started now early late later_now q at due fails up keeps soon
        long =
      let t = now + failure_delay (suc f.consecutive_failures) r in
      let range = failure_delay_range f.consecutive_failures r in
      let stamped = failed_stamp url f r now q at up in
      let kept = keeps t (omega (arith, range)) in
      (
        record_fetch_failure lib src works url (some f) r now q,
        asks_view tx url started now q (ap (λ o. in_backoff lib (next_fetch_of o) started) at ∙ due)
            ∙ ap (λ x. (true, x)) (failed_view tx url f r now q at fails),
        rests_view tx' url early later_now _ (
            ap (λ o. in_backoff lib o early) stamped
            ∙ (stamp_backoff lib t early kept).0 (omega (arith, range))),
        ap (λ x. x.0)
            (asks_view tx' url late later_now _ (
              ap (λ o. in_backoff lib o late) stamped
              ∙ (stamp_backoff lib t late kept).1 (omega (arith, range)))),
      )
