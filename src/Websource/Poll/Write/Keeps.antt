-- ===== src/Websource/Poll/Write/Keeps.antt =====
-- What every poll keeps, by its transaction: pollOne of app/internal/websource/service.go.
use morgenblau.Common.{ℕ, ◌≡◌, Option, none, some, Bool}
use morgenblau.Sync.Collection.{Tx}
use morgenblau.Websource.{Library, WebSource, PollOutcome}
use morgenblau.Websource.Store.{Store, Statement, record_spend}
use morgenblau.Websource.Poll.{Schedule, poll_update, publishes}
use morgenblau.Websource.Poll.State.{PollState, Decoding, Read, poll_state}
use morgenblau.Websource.Poll.Write.{
  Answer, answered, poll_failed, shut_down, store_poll, heed_alarm, finish_poll, spend_only,
  after_answer, with_state, poll_one, unreachable,
}
use morgenblau.Websource.Poll.Write.Steps.{transact_keeps}

module _ (lib : Library) (cfg : Schedule) (dec : Decoding) (reads : Read → Bool)
    (works : Statement → Bool) (tx : Tx) (P : Store → Type 0) (src : WebSource) (now : ℕ)
    (q : Store) where
  -- What a poll's transaction keeps, whatever its outcome.
  abbrev pub StorePollKeeps : Type 0
  StorePollKeeps =
      (heard : PollOutcome) (r : Store)
      → store_poll lib works src now heard (poll_update lib cfg src heard now) (publishes heard) q
        ≡ some r
      → P r

  abbrev pub SpendKeeps : Type 0
  SpendKeeps = (usd : ℕ) (r : Store) → record_spend lib works now "repair" usd q ≡ some r → P r

  finish_poll_keeps :
      (alarm : Bool) (out : PollOutcome)
      → P q
      → StorePollKeeps
      → P (finish_poll lib cfg dec reads works tx src now alarm out q).1
  unfolding finish_poll
  finish_poll_keeps alarm out old stored =
      let heard = heed_alarm src alarm out in
      let update = poll_update lib cfg src heard now in
      transact_keeps P tx (store_poll lib works src now heard update (publishes heard)) q old
        (stored heard)

  after_answer_keeps :
      (alarm : Bool) (answer : Answer)
      → P q
      → StorePollKeeps
      → SpendKeeps
      → P (after_answer lib cfg dec reads works tx src now alarm answer q).1
  unfolding after_answer spend_only
  after_answer_keeps alarm (answered out) old stored spent = finish_poll_keeps alarm out old stored
  after_answer_keeps alarm poll_failed old stored spent =
      finish_poll_keeps alarm unreachable old stored
  after_answer_keeps alarm (shut_down none) old stored spent = old
  after_answer_keeps alarm (shut_down (some r)) old stored spent =
      transact_keeps P tx (record_spend lib works now "repair" r.usd) q old (spent r.usd)

  with_state_keeps :
      (poll : PollState → Answer) (state : Option PollState)
      → P q
      → StorePollKeeps
      → SpendKeeps
      → P (with_state lib cfg dec reads works tx src now poll q state).1
  unfolding with_state
  with_state_keeps poll none old stored spent = old
  with_state_keeps poll (some prev) old stored spent =
      after_answer_keeps prev.weekly_alarm (poll prev) old stored spent

  pub poll_one_keeps :
      (poll : PollState → Answer) (before : Store)
      → P q
      → StorePollKeeps
      → SpendKeeps
      → P (poll_one lib cfg dec reads works tx src now poll before q).1
  unfolding poll_one
  poll_one_keeps poll before old stored spent =
      with_state_keeps poll (poll_state lib dec reads src now before) old stored spent
