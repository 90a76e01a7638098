-- ===== src/Websource/Setup.antt =====
-- A finished setup and how it is stored: newSetupRow, vetAnchor and storeSetup of
-- app/internal/websource/service.go.
pub mod Landed
pub mod Created
pub mod Keyed
pub mod Unimproved
pub mod Found
use morgenblau.Common.{
  ℕ, suc, ◌+◌, Option, none, some, Bool, true, false, ◌&&◌, ◌||◌, not, List, [], ◌∷◌, String, ◌==◌,
  eqb, if◌then◌else◌, any, keep_if,
}
use morgenblau.Websource.{
  Health, healthy, WebSource, Item, Fingerprint, Library, is_healthy, improves,
}
use morgenblau.Websource.Items.{dedupe_items}
use morgenblau.Websource.Store.{
  Store, Statement, mark_tried, replace_setup, create_source, delete_polls, ◌>>=◌, when_works,
  update_rows, record_spend, insert_items, record_poll,
}
use morgenblau.Websource.Keys.{has_id, has_key, stored_source, add_alias, rekey}

pub record Generated : Type 0 where
  pub health : Health
  pub health_reason : String
  pub items : List Item
  pub fingerprint : Fingerprint
  pub usd : ℕ

-- `anchored_by` and `replaces` are "" for none.
pub record SetupRow : Type 0 where
  pub key : String
  pub pasted_key : String
  pub listing_url : String
  pub site_url : String
  pub title : String
  pub recipe : String
  pub cost : String
  pub anchored_by : String
  pub replaces : String
  pub at_seq : Option ℕ
  pub gen : Generated

abbrev pub given : String → String → Option String
given test s = if test == "" then none else some s

module _ (lib : Library) where
  -- ReplaceWebSourceSetup on a row.
  unfoldable pub replaced_row : SetupRow → ℕ → ℕ → WebSource → WebSource
  replaced_row setup now interval row = record row {
    listing_url = setup.listing_url;
    site_url = setup.site_url;
    title = setup.title;
    recipe = setup.recipe;
    health = setup.gen.health;
    health_reason = setup.gen.health_reason;
    setup_cost = setup.cost;
    updated_at = lib.format_time now;
    setup_at = lib.format_time now;
    setup_health = setup.gen.health;
    setup_health_reason = setup.gen.health_reason;
    setup_seq = suc row.setup_seq;
    setup_tried_at = lib.format_time now;
    next_poll_at = some (lib.format_time (now + interval));
    last_polled_at = none;
    etag = none;
    last_modified = none;
    link_set_hash = none;
    consecutive_failures = 0;
    last_checked_at = none;
    anchored_by = given setup.anchored_by setup.anchored_by;
    anchored_at = given setup.anchored_by (lib.format_time now);
    offered_at = lib.format_time now;
  }

  -- CreateWebSource
  unfoldable pub new_row : SetupRow → String → String → ℕ → ℕ → WebSource
  new_row setup id did now interval = record {
    id = id;
    listing_key = setup.key;
    listing_url = setup.listing_url;
    site_url = setup.site_url;
    title = setup.title;
    recipe = setup.recipe;
    health = setup.gen.health;
    health_reason = setup.gen.health_reason;
    setup_cost = setup.cost;
    created_by = did;
    created_at = lib.format_time now;
    updated_at = lib.format_time now;
    setup_at = lib.format_time now;
    setup_health = setup.gen.health;
    setup_health_reason = setup.gen.health_reason;
    setup_seq = 0;
    setup_tried_at = lib.format_time now;
    next_poll_at = some (lib.format_time (now + interval));
    last_polled_at = none;
    etag = none;
    last_modified = none;
    link_set_hash = none;
    consecutive_failures = 0;
    last_checked_at = none;
    anchored_by = given setup.anchored_by setup.anchored_by;
    anchored_at = given setup.anchored_by (lib.format_time now);
    offered_at = lib.format_time now;
    served_at = none;
  }

-- The source that a setup ended in, and whether it kept its old setup.
pub record Stored : Type 0 where
  pub id : String
  pub kept : Bool
  pub store : Store

module _ (lib : Library) (works : Statement → Bool) (now interval : ℕ) where
  -- The items join as history, and a healthy setup starts the detector's.
  unfoldable pub add_history : String → Generated → Store → Option Store
  add_history id gen q =
      let items = dedupe_items lib gen.items in
      insert_items lib works id now true items q >>= λ filled.
      (if is_healthy gen.health
        then record_poll lib works id now items gen.fingerprint filled
        else some filled)

  -- The statement fails on an id or a key that is there.
  unfoldable pub add_source : SetupRow → String → String → Store → Option Store
  add_source setup id did q =
      if not (works create_source) || has_id id q.sources || has_key setup.key q.sources
      then none
      else some (record q { sources = new_row lib setup id did now interval ∷ q.sources })

  pub stored_new : String → SetupRow → Store → Option String → Option Stored
  stored_new did setup q none = none
  stored_new did setup q (some id) =
      add_source setup id did q
      >>= add_alias works setup.pasted_key (new_row lib setup id did now interval)
      >>= add_history id setup.gen
      >>= λ r. some (record { id = id; kept = false; store = r })

  is_late : Option ℕ → WebSource → Bool
  is_late none row = false
  is_late (some seq) row = not (eqb row.setup_seq seq)

  tried_row : WebSource → WebSource
  tried_row row = record row { setup_tried_at = lib.format_time now }

  -- The setup in force stays.
  stored_kept : SetupRow → WebSource → Store → Option Stored
  stored_kept setup row q = when_works (works mark_tried) (record {
    id = row.id;
    kept = true;
    store = record q { sources = update_rows (λ r. r.id == row.id) tried_row q.sources };
  })

  stored_replaced : SetupRow → WebSource → Store → Option Stored
  stored_replaced setup row q =
      when_works (works replace_setup) (record q {
        sources = update_rows (λ r. r.id == row.id) (replaced_row lib setup now interval) q.sources;
      })
      >>= rekey works row setup.key
      >>= λ keyed.
          when_works (works delete_polls)
            (record keyed { polls = keep_if (λ p. not (p.source_id == row.id)) keyed.polls })
          >>= add_history row.id setup.gen
          >>= λ r. some (record { id = row.id; kept = false; store = r })

  stored_on : SetupRow → WebSource → Store → Option Stored
  stored_on setup row q =
      if is_late setup.at_seq row
      then some (record { id = row.id; kept = true; store = q })
      else (if improves setup.gen.health row
          then stored_replaced setup row q
          else stored_kept setup row q)

  -- Another reader's setup of the listing, or of the section that it moved to, stands.
  stored_other : SetupRow → WebSource → Store → Option Stored
  stored_other setup row q = add_alias works setup.pasted_key row q >>= λ r.
      some (record { id = row.id; kept = false; store = r })

  -- `new_id` is what newID answers.
  land : String → Option String → SetupRow → Store → Option WebSource → Option Stored
  land did new_id setup q none = stored_new did setup q new_id
  land did new_id setup q (some row) =
      if row.id == setup.replaces then stored_on setup row q else stored_other setup row q

  -- The closure that storeSetup runs in its transaction.
  unfoldable pub store_setup : String → Option String → SetupRow → Store → Option Stored
  unfolding land stored_new stored_on stored_other stored_kept stored_replaced is_late tried_row
  store_setup did new_id setup q = record_spend lib works now "setup" setup.gen.usd q >>= λ spent.
      stored_source works setup.replaces setup.pasted_key setup.key spent
      >>= land did new_id setup spent
