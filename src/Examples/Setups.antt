-- ===== src/Examples/Setups.antt =====
-- Examples for stored setups and anchors of app/internal/websource.
use morgenblau.Common.{◌≡◌, refl, Option, none, some, true, false, [], ◌∷◌, lookup, insert, remove}
use morgenblau.Websource.{healthy, improves, url_key}
use morgenblau.Websource.Items.{dedupe_items, dedupe_from, is_web_link}
use morgenblau.Websource.Store.{
  Store, record_spend, insert_items, insert_from, record_poll, keep_newest, add_item,
}
use morgenblau.Websource.Keys.{
  source_by_id, source_by_key, stored_source, add_alias, put_alias, rekey, move_key, drop_alias,
}
use morgenblau.Websource.Keys.Rows.{rows_distinct}
use morgenblau.Websource.Keys.Aliases.{aliases_fit}
use morgenblau.Websource.Keys.Stable.{keyed, id_of}
use morgenblau.Websource.Setup.{
  SetupRow, Generated, Stored, store_setup, new_row, replaced_row, add_history, add_source,
}
use morgenblau.Websource.Setup.Keyed.{stored_setup_keeps_keys}
use morgenblau.Websource.Setup.Found.{pasted_listing_found}
use morgenblau.Websource.Setup.Unimproved.{setups}
use morgenblau.Websource.Anchor.{Answers, rebuild_anchored}
use morgenblau.Websource.Anchor.Consent.{consented, followed_source_needs_consent}
use morgenblau.Examples.Sources.{lib, source, works, tx, post}

abbrev no_tables : Store
no_tables = record {
  sources = source ∷ [];
  aliases = [];
  items = [];
  polls = [];
  repairs = [];
  spend = [];
}

abbrev generated : Generated
generated = record {
  health = healthy;
  health_reason = "";
  items = post "u" ∷ [];
  fingerprint = record { url_template = ""; date_frac = 0; title_shape = 0 };
  usd = 0;
}

-- The listing moved to its section page.
abbrev moved_setup : SetupRow
moved_setup = record {
  key = "a.com/blog";
  pasted_key = "a.com";
  listing_url = "https://a.com/blog";
  site_url = "https://a.com/";
  title = "A";
  recipe = "{}";
  cost = "{}";
  anchored_by = "";
  replaces = "w1";
  at_seq = none;
  gen = generated;
}

abbrev stored_or : Option Stored → Stored
stored_or (some s) = s
stored_or none = record { id = ""; kept = false; store = no_tables }

abbrev after_move : Stored
after_move = stored_or (store_setup lib works 1000 60 "did" none moved_setup no_tables)

stored_setup_keeps_keys_example :
    (keyed after_move.store ≡ true) × (id_of (source_by_key "a.com" after_move.store) ≡ some "w1")
unfolding store_setup source_by_key keyed rows_distinct aliases_fit record_spend stored_source
    source_by_id improves rekey move_key drop_alias put_alias add_history dedupe_items dedupe_from
    is_web_link url_key insert_items insert_from add_item record_poll keep_newest replaced_row
    lookup insert remove
stored_setup_keeps_keys_example =
    stored_setup_keeps_keys lib works 1000 60 "did" none moved_setup no_tables after_move "a.com"
      "w1" refl refl refl

abbrev fresh_setup : SetupRow
fresh_setup = record moved_setup { key = "b.com/blog"; pasted_key = "b.com"; replaces = "" }

abbrev after_fresh : Stored
after_fresh = stored_or (store_setup lib works 1000 60 "did" (some "w2") fresh_setup no_tables)

pasted_listing_found_example : id_of (source_by_key "b.com" after_fresh.store) ≡ some after_fresh.id
unfolding store_setup source_by_key keyed rows_distinct aliases_fit record_spend stored_source
    source_by_id add_source add_alias put_alias add_history dedupe_items dedupe_from is_web_link
    url_key insert_items insert_from add_item record_poll keep_newest new_row lookup insert remove
pasted_listing_found_example =
    pasted_listing_found lib works 1000 60 "did" (some "w2") fresh_setup no_tables after_fresh refl
      refl refl

-- A followed source, and no model to ask.
abbrev unasked : Answers
unasked = record { followed = some true; on_page = true; confirm = none; budget_left = some true }

followed_source_needs_consent_example :
    setups
      (rebuild_anchored lib works tx 1000 60 "did" none unasked source moved_setup
        no_tables).1.sources
    ≡ setups no_tables.sources
unfolding consented source_by_id
followed_source_needs_consent_example =
    followed_source_needs_consent lib works tx 1000 60 "did" none unasked source moved_setup
      no_tables refl refl refl refl
