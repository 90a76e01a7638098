-- ===== src/Websource/Poll/Write.antt =====
-- What a poll writes: storePoll and pollOne of app/internal/websource/service.go.
pub mod Steps
pub mod Keeps
pub mod Replaced
pub mod Alarm
pub mod Once
use morgenblau.Common.{
  ℕ, zero, suc, ◌+◌, ◌*◌, ◌-◌, Option, none, some, Bool, true, false, ◌&&◌, ◌||◌, not, List, [],
  ◌∷◌, String, ◌==◌, eqb, ltb, leb, str_lt, if◌then◌else◌, keep_if, length, pos, add_time, any,
}
use morgenblau.Websource.{
  Verdict, ok_verdict, suspect, broken_verdict, Item, RepairReport, PollOutcome, WebSource, Library,
  answers_alarm, healthy, Fingerprint,
}
use morgenblau.Sync.Collection.{Tx}
use morgenblau.Websource.Items.{dedupe_items, unpublished}
use morgenblau.Websource.Store.{
  RepairRow, Store, Statement, count_repairs, update_poll, insert_repair, prune_repairs, list_known,
  oldest_date, ◌>>=◌, when_works, update_rows, is_known_of, oldest_of, record_spend, insert_items,
  record_poll, hours,
}
use morgenblau.Websource.Poll.{
  Schedule, PollUpdate, poll_update, publishes, join_reasons, is_model_repair_of, is_polled_row,
  polled_row,
}
use morgenblau.Websource.Poll.State.{PollState, Decoding, Read, poll_state}

after_tx : Bool → Bool → Option Store → Store → Bool × Store
after_tx true true (some done) q = (true, done)
after_tx true true none q = (false, q)
after_tx true false result q = (false, q)
after_tx false commits result q = (false, q)

-- database.WithTx: whether it succeeded, and the store after it.
unfoldable pub transact : Tx → (Store → Option Store) → Store → Bool × Store
unfolding after_tx
transact tx fn q = after_tx tx.begins tx.commits (fn q) q

-- What gen.Poll answers. Of a poll cut short by a shutdown only the repair's spend counts.
pub data Answer : Type 0 where
  answered : PollOutcome → Answer
  poll_failed : Answer
  shut_down : Option RepairReport → Answer

module _ (lib : Library) (works : Statement → Bool) where
  abbrev spend_repair : ℕ → Option RepairReport → Store → Option Store
  spend_repair now none q = some q
  spend_repair now (some r) q = record_spend lib works now "repair" r.usd q

  -- A fourth model repair within a week is worth a word.
  noted : WebSource → ℕ → PollUpdate → Store → PollUpdate
  noted src now update q =
      let since = lib.format_time (add_time now (hours 168)) in
      let repairs = length (keep_if (is_model_repair_of src.id since) q.repairs) in
      if ltb 3 (suc repairs)
      then record update {
        health_reason = join_reasons update.health_reason "the page changed often this week";
      }
      else update

  pub note_repairs : WebSource → ℕ → Option RepairReport → PollUpdate → Store → Option PollUpdate
  note_repairs src now none update q = some update
  note_repairs src now (some r) update q =
      if r.used_model
      then when_works (works count_repairs) (noted src now update q)
      else some update

  store_repair : WebSource → ℕ → Option RepairReport → Store → Option Store
  store_repair src now none q = some q
  store_repair src now (some r) q =
      let row : RepairRow = record {
        source_id = src.id;
        attempted_at = lib.format_time now;
        report = r;
      } in
      let before = lib.format_time (add_time now (hours 720)) in
      when_works (works insert_repair && works prune_repairs) (record q {
        repairs =
            keep_if (λ other. not (other.source_id == src.id && str_lt other.attempted_at before))
              (row ∷ q.repairs);
      })

  abbrev oldest_known : Option String → Option ℕ
  oldest_known none = some 0
  oldest_known (some raw) = lib.parse_time raw

  publish_sorted :
      WebSource → ℕ → List Item → Fingerprint → Store → List Item × List Item → Option Store
  publish_sorted src now items fp q (fresh, moved) =
      insert_items lib works src.id now false fresh q
      >>= insert_items lib works src.id now true moved
      >>= record_poll lib works src.id now items fp

  -- The tail of storePoll.
  unfoldable pub publish : WebSource → ℕ → PollOutcome → Store → Option Store
  unfolding publish_sorted
  publish src now out q =
      let items = dedupe_items lib out.items in
      when_works (works list_known && works oldest_date) (oldest_of src.id q.items)
      >>= oldest_known
      >>= λ oldest.
          publish_sorted src now items out.fingerprint q
            (unpublished lib (is_known_of src.id q.items) oldest items)

  -- What follows the update of the source's row.
  rest_of_poll : WebSource → ℕ → PollOutcome → Bool → Store → Option Store
  rest_of_poll src now out published q = store_repair src now out.repair q >>= λ repaired.
      (if published then publish src now out repaired else some repaired)

  -- The update matches nothing once a setup has replaced the source, and then no more is written.
  unfoldable pub write_poll : WebSource → ℕ → PollOutcome → Bool → Store → PollUpdate → Option Store
  unfolding rest_of_poll store_repair
  write_poll src now out published q update =
      if any (is_polled_row update) q.sources
      then (when_works (works update_poll) (record q {
        sources = update_rows (is_polled_row update) (polled_row update) q.sources;
      })
          >>= rest_of_poll src now out published)
      else when_works (works update_poll) q

  unfoldable pub store_poll : WebSource → ℕ → PollOutcome → PollUpdate → Bool → Store → Option Store
  unfolding note_repairs noted
  store_poll src now out update published q =
      record_spend lib works now "check" out.check_usd q
      >>= spend_repair now out.repair
      >>= λ spent.
          note_repairs src now out.repair update spent >>= write_poll src now out published spent

-- A poll that was not answered says so in its verdict.
abbrev pub unreachable : PollOutcome
unreachable = record {
  verdict = broken_verdict;
  reason = "the site could not be reached";
  blocked = false;
  not_modified = false;
  items = [];
  recipe = "";
  etag = "";
  last_modified = "";
  link_set_hash = "";
  fingerprint = record { url_template = ""; date_frac = 0; title_shape = 0 };
  repair = none;
  checked = false;
  check_usd = 0;
}

abbrev pub is_ok : Verdict → Bool
is_ok ok_verdict = true
is_ok _ = false

-- An ordinary poll trusts the list that an open alarm doubts, so it cannot say that all is well.
unfoldable pub heed_alarm : WebSource → Bool → PollOutcome → PollOutcome
heed_alarm src alarm out =
    if alarm && is_ok out.verdict && not out.checked && not (answers_alarm out.repair)
    then record unreachable { verdict = suspect; reason = src.health_reason; repair = out.repair }
    else out

module _ (lib : Library) (cfg : Schedule) (dec : Decoding) (reads : Read → Bool)
    (works : Statement → Bool) (tx : Tx) where
  finish_poll : WebSource → ℕ → Bool → PollOutcome → Store → Bool × Store
  finish_poll src now alarm out q =
      let heard = heed_alarm src alarm out in
      transact tx
        (store_poll lib works src now heard (poll_update lib cfg src heard now) (publishes heard)) q

  spend_only : ℕ → Option RepairReport → Store → Store
  spend_only now none q = q
  spend_only now (some r) q = (transact tx (record_spend lib works now "repair" r.usd) q).1

  unfoldable pub after_answer : WebSource → ℕ → Bool → Answer → Store → Bool × Store
  unfolding finish_poll spend_only
  after_answer src now alarm (answered out) q = finish_poll src now alarm out q
  after_answer src now alarm poll_failed q = finish_poll src now alarm unreachable q
  after_answer src now alarm (shut_down repair) q = (false, spend_only now repair q)

  with_state : WebSource → ℕ → (PollState → Answer) → Store → Option PollState → Bool × Store
  with_state src now poll q none = (false, q)
  with_state src now poll q (some prev) = after_answer src now prev.weekly_alarm (poll prev) q

  -- The poll's reads see `before`; other transactions may have run by the time it writes to `q`.
  unfoldable pub poll_one : WebSource → ℕ → (PollState → Answer) → Store → Store → Bool × Store
  unfolding with_state
  poll_one src now poll before q =
      with_state src now poll q (poll_state lib dec reads src now before)
