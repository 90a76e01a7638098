-- ===== src/Examples/Sources.antt =====
-- Examples for the items, polls and addresses of app/internal/websource.
use morgenblau.Common.{
  ℕ, ◌≡◌, ◌≤◌, max, ◌+◌, refl, Option, none, some, Bool, true, false, List, [], ◌∷◌, String, inl,
  inr, length, In, ◌↔◌, ◌⊎◌, str_lt, if◌then◌else◌, ◌==◌, eq_refl, arith,
}
use morgenblau.Backoff.{cap}
use morgenblau.Sync.Collection.{Tx}
use morgenblau.Websource.{
  Library, Url, Item, PollOutcome, WebSource, healthy, needs_attention, ok_verdict, rank, url_key,
  answers_alarm, weekly_check, unresolved,
}
use morgenblau.Websource.Items.{Known, dedupe_items, dedupe_from, is_web_link, unpublished}
use morgenblau.Websource.Items.Gate.{is_gated, has_key, dedupe_items-is_gated, gate_loses_no_post}
use morgenblau.Websource.Items.Sorted.{IsKnown, IsOlder, IsMigrated, unpublished_exact}
use morgenblau.Websource.Excerpt.{runes, excerpt, excerpt_bounded}
use morgenblau.Websource.Store.{Store, Statement, RepairRow, record_spend}
use morgenblau.Websource.Store.Frame.{Same}
use morgenblau.Websource.Store.Distinct.{posts_distinct}
use morgenblau.Websource.Poll.{Schedule, poll_update, publishes}
use morgenblau.Websource.Poll.Bounds.{setup_bounds_health, next_poll_bounded}
use morgenblau.Websource.Poll.State.{PollState, Decoding, Read, poll_state}
use morgenblau.Websource.Poll.Write.{
  Answer, answered, poll_one, unreachable, after_answer, transact, store_poll, heed_alarm,
  write_poll,
}
use morgenblau.Websource.Poll.Write.Replaced.{replaced_source_unharmed}
use morgenblau.Websource.Poll.Write.Alarm.{Silent, open_alarm_publishes_nothing}
use morgenblau.Websource.Poll.Write.Once.{poll_stores_posts_once}
use morgenblau.Websource.FeedUrl.{
  feed_url, legacy_feed_url, id_from_feed_url, same_feed_urls, has_slash,
}
use morgenblau.Websource.FeedUrl.RoundTrip.{feed_url_round_trip}

abbrev link : String → Url
link raw = record { scheme = "https"; host = "a.com"; path = raw; raw_query = ""; has_user = false }

abbrev pub lib : Library
lib = record {
  parse_url = λ raw. some (link raw);
  key_from = λ u. u.path;
  title_key = λ t. t;
  trim_space = λ s. s;
  join_fields = λ s. s;
  url_template = λ u. u;
  format_time = λ t. "now";
  parse_time = λ s. some 0;
  to_json = λ l. "[]";
  no_spend = λ usd. true;
}

abbrev pub post : String → Item
post u = record { url = u; title = u; date = 0; excerpt = "" }

abbrev page : List Item
page = post "u" ∷ post "v" ∷ post "u" ∷ []

dedupe_items-is_gated_example :
    (is_gated lib [] (dedupe_items lib page) ≡ true) × (length (dedupe_items lib page) ≤ 200)
dedupe_items-is_gated_example = dedupe_items-is_gated lib page

gate_loses_no_post_example : has_key lib (url_key lib "v") (dedupe_items lib page) ≡ true
unfolding dedupe_items dedupe_from is_web_link url_key
gate_loses_no_post_example =
    gate_loses_no_post lib page (post "v") (inr (inl refl)) refl (omega arith)

-- "v" is stored under an address that the page no longer has.
abbrev stored_before : List Known
stored_before = record { url = "old/v"; title = "v" } ∷ []

unpublished_exact_example :
    (In (post "v") (unpublished lib stored_before 0 page).1 ↔ (
      In (post "v") page
      × (¬ (IsKnown lib stored_before (post "v") ⊎ IsOlder lib stored_before (post "v") 0))
      × IsMigrated lib stored_before (post "v") page))
    × (In (post "v") (unpublished lib stored_before 0 page).0 ↔ (
        In (post "v") page
        × (¬ (IsKnown lib stored_before (post "v") ⊎ IsOlder lib stored_before (post "v") 0))
        × (¬ IsMigrated lib stored_before (post "v") page)))
unpublished_exact_example = unpublished_exact lib stored_before 0 page (post "v")

excerpt_bounded_example : runes (excerpt (λ s. s) "a short text") ≤ 281
excerpt_bounded_example = excerpt_bounded (λ s. s) "a short text"

abbrev pub source : WebSource
source = record {
  id = "w1";
  listing_key = "a.com";
  listing_url = "https://a.com/";
  site_url = "https://a.com/";
  title = "A";
  recipe = "{}";
  health = needs_attention;
  health_reason = "the list looks wrong";
  setup_cost = "{}";
  created_by = "did";
  created_at = "t0";
  updated_at = "t0";
  setup_at = "t0";
  setup_health = healthy;
  setup_health_reason = "";
  setup_seq = 0;
  setup_tried_at = "t0";
  next_poll_at = none;
  last_polled_at = none;
  etag = none;
  last_modified = none;
  link_set_hash = none;
  consecutive_failures = 2;
  last_checked_at = some "t1";
  anchored_by = none;
  anchored_at = none;
  offered_at = "t0";
  served_at = none;
}

abbrev alarm : RepairRow
alarm = record {
  source_id = "w1";
  attempted_at = "t1";
  report = record {
    cause = weekly_check;
    outcome = unresolved;
    step = "";
    rule = "";
    reason = "";
    used_model = false;
    usd = 0;
  };
}

abbrev tables : List WebSource → Store
tables rows = record {
  sources = rows;
  aliases = [];
  items = [];
  polls = [];
  repairs = alarm ∷ [];
  spend = [];
}

abbrev schedule : Schedule
schedule = record { interval = 60; backoff = record { steps = 120 ∷ 240 ∷ [] } }

abbrev decoding : Decoding
decoding = record { from_json = λ s. some []; reaches_budget = λ l. false }

abbrev reads : Read → Bool
reads r = true

abbrev pub works : Statement → Bool
works s = true

abbrev pub tx : Tx
tx = record { begins = true; commits = true }

abbrev outcome : PollOutcome
outcome = record unreachable { verdict = ok_verdict; items = page }

abbrev poll : PollState → Answer
poll prev = answered outcome

abbrev replacing : WebSource
replacing = record source { setup_seq = 1 }

replaced_source_unharmed_example :
    Same
      (tables (replacing ∷ []))
      (poll_one lib schedule decoding reads works tx source 1000 poll
        (tables (source ∷ []))
        (tables (replacing ∷ []))).1
replaced_source_unharmed_example =
    replaced_source_unharmed lib schedule decoding reads works tx source 1000 poll
      (tables (source ∷ [])) (tables (replacing ∷ [])) refl

poll_stores_posts_once_example :
    posts_distinct lib "w1"
      (poll_one lib schedule decoding reads works tx source 1000 poll
        (tables (source ∷ []))
        (tables (source ∷ []))).1.items
    ≡ true
unfolding posts_distinct
poll_stores_posts_once_example =
    poll_stores_posts_once lib schedule decoding reads works tx source 1000 poll
      (tables (source ∷ [])) (tables (source ∷ [])) refl

setup_bounds_health_example :
    rank (poll_update lib schedule source outcome 1000).health ≤ max (rank healthy) 1
setup_bounds_health_example = setup_bounds_health lib schedule source outcome 1000

next_poll_bounded_example :
    (wait : ℕ) × ((poll_update lib schedule source unreachable 1000).next_poll_at
      ≡ lib.format_time (1000 + wait))
    × (wait ≤ max 60 (cap schedule.backoff))
next_poll_bounded_example = next_poll_bounded lib schedule source unreachable 1000 (omega arith)

abbrev state_or : Option PollState → PollState
state_or (some s) = s
state_or none = record {
  etag = "";
  last_modified = "";
  link_set_hash = "";
  history = [];
  known = [];
  allow_model_repair = false;
  check_due = false;
  weekly_alarm = false;
}

abbrev read_state : PollState
read_state = state_or (poll_state lib decoding reads source 1000 (tables (source ∷ [])))

open_alarm_publishes_nothing_example :
    Silent "w1" 0
      (tables (source ∷ []))
      (poll_one lib schedule decoding reads works tx source 1000 poll
        (tables (source ∷ []))
        (tables (source ∷ []))).1
unfolding poll_state poll_one answers_alarm str_lt after_answer transact store_poll record_spend
    heed_alarm write_poll poll_update publishes
open_alarm_publishes_nothing_example =
    open_alarm_publishes_nothing lib schedule decoding reads works tx source 1000 poll
      (tables (source ∷ [])) (tables (source ∷ [])) read_state outcome refl refl refl refl refl refl
      refl

abbrev origin : Url
origin = record { scheme = "https"; host = "m.app"; path = ""; raw_query = ""; has_user = false }

-- A parser that reads three texts.
abbrev parse_feed : String → Option Url
parse_feed raw =
    if raw == "https://m.app"
    then some origin
    else (if raw == "https://m.app/feed/w1"
        then some (record origin { path = "/feed/w1" })
        else (if raw == "https://m.app/web/w1"
            then some (record origin { path = "/web/w1" })
            else none))

abbrev both : List String
both = "https://m.app/feed/w1" ∷ "https://m.app/web/w1" ∷ []

abbrev same_text : String → String → Bool
same_text a b = a == b

feed_url_round_trip_example :
    (id_from_feed_url parse_feed same_text "https://m.app" (feed_url "https://m.app" "w1")
      ≡ some "w1")
    × (id_from_feed_url parse_feed same_text "https://m.app" (legacy_feed_url "https://m.app" "w1")
        ≡ some "w1")
    × (same_feed_urls parse_feed same_text "https://m.app" (feed_url "https://m.app" "w1")
        ≡ same_feed_urls parse_feed same_text "https://m.app"
            (legacy_feed_url "https://m.app" "w1"))
    × (same_feed_urls parse_feed same_text "https://m.app" (legacy_feed_url "https://m.app" "w1")
        ≡ both)
unfolding has_slash
feed_url_round_trip_example =
    feed_url_round_trip parse_feed same_text "https://m.app" "w1" origin refl refl refl eq_refl refl
      refl refl
