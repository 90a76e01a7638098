-- ===== src/Websource/Poll.antt =====
-- One poll of a web source: pollOne, pollUpdate and storePoll of app/internal/websource/service.go.
pub mod Bounds
pub mod State
pub mod Write
use morgenblau.Common.{
  ℕ, zero, suc, ◌+◌, ◌*◌, ◌-◌, Option, none, some, Bool, true, false, ◌&&◌, ◌||◌, not, List, [],
  ◌∷◌, String, ◌==◌, eqb, ltb, leb, str_lt, if◌then◌else◌, keep_if, length, pos, add_time,
}
use Prim.Native.String.{◌++◌}
use morgenblau.Backoff.{Policy, delay}
use morgenblau.Sync.Collection.{Tx}
use morgenblau.Websource.{
  Health, healthy, needs_attention, blocked_by_site, broken, Verdict, ok_verdict, suspect,
  broken_verdict, RepairCause, weekly_check, detector, RepairOutcome, unresolved, Item,
  RepairReport, PollOutcome, WebSource, Library, is_healthy, answers_alarm, or_keep,
}
use morgenblau.Websource.Items.{Known, dedupe_items, unpublished}
use morgenblau.Websource.Store.{
  ItemRow, RepairRow, Store, Statement, count_repairs, update_poll, insert_repair, prune_repairs,
  list_known, oldest_date, ◌>>=◌, when_works, update_rows, is_known_of, oldest_of, record_spend,
  insert_items, record_poll, hours,
}

-- The service's settings that a poll reads.
pub record Schedule : Type 0 where
  pub interval : ℕ
  pub backoff : Policy

-- The columns that UpdateWebSourcePoll writes, and the row that it asks for.
pub record PollUpdate : Type 0 where
  pub id : String
  pub setup_seq : ℕ
  pub recipe : String
  pub health : Health
  pub health_reason : String
  pub last_polled_at : String
  pub next_poll_at : String
  pub etag : Option String
  pub last_modified : Option String
  pub link_set_hash : Option String
  pub consecutive_failures : ℕ
  pub last_checked_at : Option String
  pub updated_at : String

abbrev pub is_broken_verdict : Verdict → Bool
is_broken_verdict broken_verdict = true
is_broken_verdict _ = false

module _ (lib : Library) (cfg : Schedule) where
  abbrev unchanged : WebSource → PollOutcome → ℕ → PollUpdate
  unchanged src out now = record {
    id = src.id;
    setup_seq = src.setup_seq;
    recipe = src.recipe;
    health = healthy;
    health_reason = "";
    last_polled_at = lib.format_time now;
    next_poll_at = lib.format_time (now + cfg.interval);
    etag = src.etag;
    last_modified = src.last_modified;
    link_set_hash = src.link_set_hash;
    consecutive_failures = 0;
    last_checked_at = if out.checked then some (lib.format_time now) else none;
    updated_at = lib.format_time now;
  }

  -- The switch on the verdict.
  judged : Verdict → WebSource → PollOutcome → ℕ → PollUpdate
  judged ok_verdict src out now = record (unchanged src out now) {
    etag = or_keep out.etag src.etag;
    last_modified = or_keep out.last_modified src.last_modified;
    link_set_hash = or_keep out.link_set_hash src.link_set_hash;
    recipe = if out.recipe == "" then src.recipe else out.recipe;
  }
  judged suspect src out now = record (unchanged src out now) {
    health = needs_attention;
    health_reason = out.reason;
  }
  judged broken_verdict src out now =
      let failures = suc src.consecutive_failures in
      record (unchanged src out now) {
        health = if out.blocked then blocked_by_site else broken;
        health_reason = out.reason;
        consecutive_failures = failures;
        next_poll_at = lib.format_time (now + delay cfg.backoff (pos failures));
      }

  -- Only a later setup answers an unsure one.
  doubted : WebSource → PollOutcome → PollUpdate → PollUpdate
  doubted src out update =
      if not (is_broken_verdict out.verdict) && not (is_healthy src.setup_health)
      then record update { health = src.setup_health; health_reason = src.setup_health_reason }
      else update

  unfoldable pub poll_update : WebSource → PollOutcome → ℕ → PollUpdate
  unfolding judged doubted
  poll_update src out now = doubted src out (judged out.verdict src out now)

-- Whether the poll's items are published.
unfoldable pub publishes : PollOutcome → Bool
publishes out = is_ok out.verdict && not out.not_modified
  where
    is_ok : Verdict → Bool
    is_ok ok_verdict = true
    is_ok _ = false

unfoldable pub join_reasons : String → String → String
join_reasons a b = if a == "" then b else a ++ ("; " ++ b)

abbrev pub is_model_repair_of : String → String → RepairRow → Bool
is_model_repair_of id since row =
    row.source_id == id && row.report.used_model && not (str_lt row.attempted_at since)

abbrev pub is_polled_row : PollUpdate → WebSource → Bool
is_polled_row update row = row.id == update.id && eqb row.setup_seq update.setup_seq

abbrev pub or_old : Option String → Option String → Option String
or_old none old = old
or_old (some a) old = some a

unfoldable pub polled_row : PollUpdate → WebSource → WebSource
polled_row update row = record row {
  recipe = update.recipe;
  health = update.health;
  health_reason = update.health_reason;
  last_polled_at = some update.last_polled_at;
  next_poll_at = some update.next_poll_at;
  etag = update.etag;
  last_modified = update.last_modified;
  link_set_hash = update.link_set_hash;
  consecutive_failures = update.consecutive_failures;
  last_checked_at = or_old update.last_checked_at row.last_checked_at;
  updated_at = update.updated_at;
}
