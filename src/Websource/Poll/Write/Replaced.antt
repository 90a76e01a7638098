-- ===== src/Websource/Poll/Write/Replaced.antt =====
-- A poll against a setup that replaced the source while it ran: storePoll of
-- app/internal/websource/service.go.
use morgenblau.Common.{ℕ, ◌≡◌, refl, some, Bool, false, ◌==◌, ◌&&◌, any, eqb}
use morgenblau.Sync.Collection.{Tx}
use morgenblau.Websource.{Library, WebSource, PollOutcome}
use morgenblau.Websource.Store.{Store, Statement, update_poll, ◌>>=◌, record_spend}
use morgenblau.Websource.Store.Frame.{bind-some, when_works-some, Same, record_spend-Same}
use morgenblau.Websource.Poll.{Schedule, PollUpdate, poll_update, publishes, is_polled_row}
use morgenblau.Websource.Poll.State.{PollState, Decoding, Read}
use morgenblau.Websource.Poll.Write.{
  Answer, store_poll, note_repairs, write_poll, poll_one, spend_repair,
}
use morgenblau.Websource.Poll.Write.Keeps.{poll_one_keeps}
use morgenblau.Websource.Poll.Write.Steps.{
  note_repairs_reason, spent-Same, Same-trans, not_polled, poll_update_row,
}

module _ (lib : Library) (works : Statement → Bool) where
  write_poll-Same :
      (src : WebSource) (now : ℕ) (out : PollOutcome) (published : Bool) (q r : Store)
      (update : PollUpdate)
      → any (is_polled_row update) q.sources ≡ false
      → write_poll lib works src now out published q update ≡ some r
      → Same q r
  unfolding write_poll
  write_poll-Same src now out published q r update gone h =
      let e = when_works-some (works update_poll) q r (rw gone at h) in
      rw (← e) (refl, refl, refl, refl, refl)

  store_poll-Same :
      (src : WebSource) (now : ℕ) (out : PollOutcome) (update : PollUpdate) (published : Bool)
      (q r : Store)
      → any (is_polled_row update) q.sources ≡ false
      → store_poll lib works src now out update published q ≡ some r
      → Same q r
  unfolding store_poll
  store_poll-Same src now out update published q r gone h =
      let (b, spent', h2) =
        bind-some
          (record_spend lib works now "check" out.check_usd q
            >>= spend_repair lib works now out.repair)
          _ r h in
      let (a, checked, repaired) =
        bind-some (record_spend lib works now "check" out.check_usd q) _ b spent' in
      let (update', noted', h3) =
        bind-some (note_repairs lib works src now out.repair update b) _ r h2 in
      let (reason, e) = note_repairs_reason lib works src now out.repair update update' b noted' in
      let spent = spent-Same lib works now out q a b checked repaired in
      let gone' : any (is_polled_row update') b.sources ≡ false = rw (e, spent.0) gone in
      Same-trans q b r spent (write_poll-Same src now out published b r update' gone' h3)

-- A poll whose source no longer has the setup that the poll began with, by the time it writes, leaves
-- the sources, aliases, items, polls and repairs as they are, whatever the poll found and whichever
-- statements fail.
pub replaced_source_unharmed :
    (lib : Library) (cfg : Schedule) (dec : Decoding) (reads : Read → Bool)
    (works : Statement → Bool) (tx : Tx) (src : WebSource) (now : ℕ) (poll : PollState → Answer)
    (before q : Store)
    → any (λ row. row.id == src.id && eqb row.setup_seq src.setup_seq) q.sources ≡ false
    → Same q (poll_one lib cfg dec reads works tx src now poll before q).1
replaced_source_unharmed lib cfg dec reads works tx src now poll before q gone =
    poll_one_keeps lib cfg dec reads works tx (Same q) src now q poll before
      (refl, refl, refl, refl, refl)
      (λ heard r.
        let update = poll_update lib cfg src heard now in
        let (e, e') = poll_update_row lib cfg src heard now in
        store_poll-Same lib works src now heard update (publishes heard) q r
          (not_polled src.id src.setup_seq update q.sources e e' gone))
      (λ usd r. record_spend-Same lib works now "repair" usd q r)
