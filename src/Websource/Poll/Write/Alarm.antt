-- ===== src/Websource/Poll/Write/Alarm.antt =====
-- What a source shows while a weekly alarm is open: pollOne, pollUpdate and storePoll of
-- app/internal/websource/service.go.
use morgenblau.Common.{
  ℕ, ◌≡◌, refl, ap, ◌∙◌, Option, none, some, some_inj, Bool, true, false, List, [], ◌∷◌, String,
  ◌==◌, Bool-cases, inl, inr, arith, ◌&&◌, any, eqb,
}
use morgenblau.Sync.Collection.{Tx}
use morgenblau.Websource.{
  Library, WebSource, PollOutcome, RepairReport, answers_alarm, ok_verdict, suspect, is_healthy,
}
use morgenblau.Websource.Store.{
  Store, Statement, update_poll, ◌>>=◌, when_works, record_spend, update_rows, insert_repair,
  prune_repairs,
}
use morgenblau.Websource.Store.Frame.{bind-some, when_works-some}
use morgenblau.Websource.Poll.{
  Schedule, PollUpdate, judged, doubted, poll_update, publishes, polled_row, is_polled_row,
}
use morgenblau.Websource.Poll.State.{PollState, Decoding, Read, poll_state}
use morgenblau.Websource.Poll.Write.{
  Answer, answered, store_poll, note_repairs, write_poll, rest_of_poll, store_repair, heed_alarm,
  finish_poll, after_answer, with_state, poll_one, spend_repair,
}
use morgenblau.Websource.Poll.Write.Steps.{
  transact-some, note_repairs_reason, spent-Same, poll_update_row,
}

-- A row of this setup that is shown as healthy.
abbrev pub shows_healthy : String → ℕ → List WebSource → Bool
shows_healthy id seq rows =
    any (λ row. (row.id == id && eqb row.setup_seq seq) && is_healthy row.health) rows

updated_unhealthy :
    (update : PollUpdate) (rows : List WebSource)
    → is_healthy update.health ≡ false
    → shows_healthy update.id update.setup_seq
        (update_rows (is_polled_row update) (polled_row update) rows)
      ≡ false
unfolding polled_row
updated_unhealthy update [] h = refl
updated_unhealthy update (row ∷ rows) h =
    let rest = updated_unhealthy update rows h in
    elim (Bool-cases (row.id == update.id && eqb row.setup_seq update.setup_seq)) [
      | inl polled ↦ rw (polled, polled, h) rest
      | inr other ↦ rw (other, other) rest
    ]

absent_unhealthy :
    (update : PollUpdate) (rows : List WebSource)
    → any (is_polled_row update) rows ≡ false
    → shows_healthy update.id update.setup_seq rows ≡ false
absent_unhealthy update [] h = refl
absent_unhealthy update (row ∷ rows) h = ground (arith, absent_unhealthy update rows)

-- Nothing published, and no row of the setup shown as healthy.
abbrev pub Silent : String → ℕ → Store → Store → Type 0
Silent id seq q r =
    (r.items ≡ q.items) × (r.polls ≡ q.polls) × (shows_healthy id seq r.sources ≡ false)

module _ (lib : Library) (works : Statement → Bool) where
  store_repair_keeps :
      (src : WebSource) (now : ℕ) (repair : Option RepairReport) (q r : Store)
      → store_repair lib works src now repair q ≡ some r
      → (r.items ≡ q.items) × (r.polls ≡ q.polls) × (r.sources ≡ q.sources)
  unfolding store_repair
  store_repair_keeps src now none q r h = rw (← some_inj h) (refl, refl, refl)
  store_repair_keeps src now (some report) q r h =
      let e = when_works-some (works insert_repair && works prune_repairs) _ r h in
      rw (← e) (refl, refl, refl)

  write_poll-Silent :
      (src : WebSource) (now : ℕ) (out : PollOutcome) (q r : Store) (update : PollUpdate)
      → is_healthy update.health ≡ false
      → write_poll lib works src now out false q update ≡ some r
      → Silent update.id update.setup_seq q r
  unfolding write_poll rest_of_poll
  write_poll-Silent src now out q r update unhealthy h =
      elim (Bool-cases (any (is_polled_row update) q.sources)) [
        | inr gone ↦
            let e = when_works-some (works update_poll) q r (rw gone at h) in
            rw (← e) (refl, refl, absent_unhealthy update q.sources gone)
        | inl there ↦
            let (a, updated, h1) =
              bind-some (when_works (works update_poll) _) _ r (rw there at h) in
            let (b, repaired, h2) =
              bind-some (store_repair lib works src now out.repair a) _ r h1 in
            let e = when_works-some (works update_poll) _ a updated in
            let (items, polls, sources) = store_repair_keeps src now out.repair a b repaired in
            rw (← some_inj h2, items, polls, sources, ← e)
              (refl, refl, updated_unhealthy update q.sources unhealthy)
      ]

  store_poll-Silent :
      (src : WebSource) (now : ℕ) (out : PollOutcome) (update : PollUpdate) (published : Bool)
      (q r : Store)
      → is_healthy update.health ≡ false
      → published ≡ false
      → store_poll lib works src now out update published q ≡ some r
      → Silent update.id update.setup_seq q r
  unfolding store_poll
  store_poll-Silent src now out update published q r unhealthy quiet h =
      let spend = record_spend lib works now "check" out.check_usd q in
      let (b, spent', h2) =
        bind-some (spend >>= spend_repair lib works now out.repair) _ r (rw quiet at h) in
      let (a, checked, repaired) = bind-some spend _ b spent' in
      let (update', noted', h3) =
        bind-some (note_repairs lib works src now out.repair update b) _ r h2 in
      let (reason, e) = note_repairs_reason lib works src now out.repair update update' b noted' in
      let spent = spent-Same lib works now out q a b checked repaired in
      let unhealthy' : is_healthy update'.health ≡ false = rw e unhealthy in
      let (items, polls, sources) = write_poll-Silent src now out b r update' unhealthy' h3 in
      (items ∙ spent.2, polls ∙ spent.3, rw e at sources)

module _ (lib : Library) (cfg : Schedule) where
  suspect_unhealthy :
      (src : WebSource) (out : PollOutcome) (now : ℕ)
      → out.verdict ≡ suspect
      → is_healthy (poll_update lib cfg src out now).health ≡ false
  unfolding poll_update doubted judged
  suspect_unhealthy src out now h = elim (Bool-cases (is_healthy src.setup_health)) [
    | inl sure ↦ rw (h, sure) refl
    | inr unsure ↦ rw (h, unsure) unsure
  ]

module _ (lib : Library) (cfg : Schedule) (dec : Decoding) (reads : Read → Bool)
    (works : Statement → Bool) (tx : Tx) where
  suspect_unpublished : (out : PollOutcome) → out.verdict ≡ suspect → publishes out ≡ false
  unfolding publishes
  suspect_unpublished out h = rw h refl

  finish_poll-Silent :
      (src : WebSource) (now : ℕ) (alarm : Bool) (out : PollOutcome) (q : Store)
      → (heed_alarm src alarm out).verdict ≡ suspect
      → (finish_poll lib cfg dec reads works tx src now alarm out q).0 ≡ true
      → Silent src.id src.setup_seq q (finish_poll lib cfg dec reads works tx src now alarm out q).1
  unfolding finish_poll poll_update
  finish_poll-Silent src now alarm out q h done =
      let heard = heed_alarm src alarm out in
      let update = poll_update lib cfg src heard now in
      let (e, e') = poll_update_row lib cfg src heard now in
      let unhealthy = suspect_unhealthy lib cfg src heard now h in
      let stored =
        transact-some tx (store_poll lib works src now heard update (publishes heard)) q done in
      let silent =
        store_poll-Silent lib works src now heard update (publishes heard) q _ unhealthy
          (suspect_unpublished heard h) stored in
      (silent.0, silent.1, rw (e, e') at silent.2)

  answered_poll :
      (src : WebSource) (now : ℕ) (poll : PollState → Answer) (before q : Store) (prev : PollState)
      (out : PollOutcome)
      → poll_state lib dec reads src now before ≡ some prev
      → poll prev ≡ answered out
      → poll_one lib cfg dec reads works tx src now poll before q
        ≡ finish_poll lib cfg dec reads works tx src now prev.weekly_alarm out q
  unfolding poll_one with_state after_answer
  answered_poll src now poll before q prev out read answer =
      ap (with_state lib cfg dec reads works tx src now poll q) read
      ∙ ap (λ a. after_answer lib cfg dec reads works tx src now prev.weekly_alarm a q) answer

heed_alarm-suspect :
    (src : WebSource) (alarm : Bool) (out : PollOutcome)
    → alarm ≡ true
    → out.verdict ≡ ok_verdict
    → out.checked ≡ false
    → answers_alarm out.repair ≡ false
    → (heed_alarm src alarm out).verdict ≡ suspect
unfolding heed_alarm
heed_alarm-suspect src alarm out on ok unchecked unanswered =
    rw (on, ok, unchecked, unanswered) refl

-- While the weekly alarm that the poll read is open, a poll that finds all well but ran no weekly
-- check, and whose repair (if any) is no accepted one of the weekly check, publishes nothing: if its
-- transaction succeeds, items and poll records are as before, and no row of the source's setup is
-- shown as healthy.
pub open_alarm_publishes_nothing :
    (lib : Library) (cfg : Schedule) (dec : Decoding) (reads : Read → Bool)
    (works : Statement → Bool) (tx : Tx) (src : WebSource) (now : ℕ) (poll : PollState → Answer)
    (before q : Store) (prev : PollState) (out : PollOutcome)
    → poll_state lib dec reads src now before ≡ some prev
    → prev.weekly_alarm ≡ true
    → poll prev ≡ answered out
    → out.verdict ≡ ok_verdict
    → out.checked ≡ false
    → answers_alarm out.repair ≡ false
    → (poll_one lib cfg dec reads works tx src now poll before q).0 ≡ true
    → Silent src.id src.setup_seq q (poll_one lib cfg dec reads works tx src now poll before q).1
open_alarm_publishes_nothing lib cfg dec reads works tx src now poll before q prev out read alarm
      answer ok unchecked unanswered done =
    let e = answered_poll lib cfg dec reads works tx src now poll before q prev out read answer in
    let heard = heed_alarm-suspect src prev.weekly_alarm out alarm ok unchecked unanswered in
    rw e (
      finish_poll-Silent lib cfg dec reads works tx src now prev.weekly_alarm out q heard
        (rw e at done))
