-- ===== src/Examples/Syncing.antt =====
-- Examples for syncuser.go, feedpipeline.go and the passes over saves and subscriptions.
use morgenblau.Common.{
  not, ◌==◌, ℕ, zero, suc, ap, ◌≡◌, refl, Option, none, some, true, false, List, [], ◌∷◌, String,
  arith, any, pos, Assoc, str_lt, codes_lt, lookup, insert, remove,
}
use morgenblau.Jobs.{Tracker, manual, login, new_with_options}
use morgenblau.Sync.Collection.{ok, err, fetch_failure, upsert_failed, Tx}
use morgenblau.Sync.Engine.{
  Engine, UserRun, Event, triggered, began, ended, SyncReceipt, step, after, request_sync,
  start_run, begin_pass, end_pass, coalesce,
}
use morgenblau.Sync.Engine.Runs.{begins}
use morgenblau.Sync.Engine.Histories.{
  start, newest_session, manual_trigger_served, last_pass_is_newest,
}
use morgenblau.Sync.Catalog.{Feed}
use morgenblau.Sync.FeedPipeline as Pipeline
use morgenblau.Sync.FeedPipeline.Store as Stored
use morgenblau.Sync.FeedPipeline.Fetch as Fetch
use morgenblau.Sync.FeedPipeline.Rest.{failed_feed_rests}
use morgenblau.Sync.FeedPipeline.Dates.{no_later, entry_date_only_earlier}
use morgenblau.Sync.Table.{Answers}
use morgenblau.Sync.Saves.{UserSave, PdsSave, reconcile_saves}
use morgenblau.Sync.Saves.Rekeyed.{rekeyed_save_fails}
use morgenblau.Sync.Subscriptions.{UserSubscription, PdsSubscription, Store}
use morgenblau.Sync.Subscriptions.Passes.{reconcile_rss}
use morgenblau.Sync.Subscriptions.Separate.{Keyed, rss_keeps_publications}
use morgenblau.Sync.Sidecars.{canonical_by_key, choose_from}

abbrev all_passes : SyncReceipt
all_passes = record { rss = true; standardfeed = true; saves = true }

abbrev tracker : Tracker
tracker = new_with_options 300

-- A login starts a run, and its first pass begins.
abbrev first_pass : List Event
first_pass = began "did" ∷ triggered "did" "s1" login 1 "01A" ∷ []

abbrev engine_or : Option Engine → Engine
engine_or none = start tracker
engine_or (some e) = e

abbrev in_pass : Engine
in_pass = engine_or (after (start tracker) first_pass)

-- The pass ends, the run passes again, and ends.
abbrev second_pass : List Event
second_pass =
    ended "did" true all_passes false 9 ∷ began "did" ∷ ended "did" true all_passes false 5 ∷ []

abbrev after_manual : Engine
after_manual = engine_or (after (request_sync "did" "s1" manual 3 "01B" in_pass).1 second_pass)

manual_trigger_served_example : any (begins "did") second_pass ≡ true
unfolding after step request_sync start_run begin_pass end_pass coalesce lookup insert remove
manual_trigger_served_example =
    manual_trigger_served tracker first_pass second_pass in_pass after_manual "did" "s1" 3 "01B"
      refl refl refl refl refl

abbrev run_in_pass : UserRun
run_in_pass = record {
  id = "01A";
  did = "did";
  session_id = "s1";
  pass_session_id = "s1";
  rerun = false;
  at_top = false;
}

last_pass_is_newest_example : newest_session "did" first_pass ≡ some "s1"
unfolding after step request_sync start_run begin_pass end_pass coalesce lookup insert remove
last_pass_is_newest_example =
    last_pass_is_newest tracker first_pass in_pass
      (engine_or (step (ended "did" true all_passes false 5) in_pass)) "did" all_passes false 5
      run_in_pass refl refl refl refl refl

abbrev feed : Feed
feed = record {
  kind = "rss";
  site_url = none;
  title = none;
  etag = none;
  last_modified = none;
  last_fetched_at = none;
  icon_url = none;
  icon_fetched_at = none;
  created_at = "";
  updated_at = "";
  consecutive_failures = 0;
  next_fetch_at = none;
  orphaned_at = none;
}

-- A time as that many letters.
abbrev ticks : ℕ → String
ticks zero = ""
ticks (suc n) = String.◌∷◌ "i" (ticks n)

abbrev letters : String → ℕ
letters String.[] = 0
letters (String.◌∷◌ c s) = suc (letters s)

ticks_lem : (t : ℕ) → letters (ticks t) ≡ t
ticks_lem zero = refl
ticks_lem (suc t) = ap suc (ticks_lem t)

abbrev library : Pipeline.Library
library = record {
  trim_space = λ s. s;
  to_lower = λ s. s;
  unescape_html = λ s. s;
  sanitize = λ s. s;
  has_part = λ s part. false;
  has_prefix = λ s prefix. false;
  cut_at_t = λ s. none;
  parse_url = λ s. none;
  parse_time = λ s. some (letters s);
  parse_extra = λ s. none;
  format_time = λ t. ticks t;
  join = λ a b c. a;
  marshal = λ meta. none;
}

abbrev commits : Tx
commits = record { begins = true; commits = true }

abbrev item : Pipeline.Item
item = record {
  guid = "g";
  link = "https://a.com/g";
  title = "G";
  content = "";
  description = "";
  published = "";
  published_parsed = some 7;
  updated = "";
  updated_parsed = none;
  enclosures = [];
  authors = [];
  image = none;
}

abbrev sources : Stored.Fetched → Stored.Sources
sources answer = record {
  fetch = λ state. answer;
  channel_of = λ url. "";
  is_handle_url = λ url. false;
  handle_of = λ channel. none;
  discover_icon = λ site. none;
  undated_history = false;
  slug_of = λ url guid. guid;
}

abbrev entry : Stored.Entry
entry = record {
  slug = "g";
  url = "https://a.com/g";
  title = none;
  content_html = none;
  content_type = "blogpost";
  published_at = "iii";
  fetched_at = "";
  metadata = none;
}

abbrev feed_store : Stored.Store
feed_store = record { feeds = ("f", feed) ∷ []; entries = ("g", entry) ∷ [] }

abbrev failing : Stored.Sources
failing = sources (Stored.fetch_error false (pos 0))

failed_feed_rests_example :
    (q' : Stored.Store) × (Fetch.fetch_and_store library failing
        (λ stmt. true)
        commits
        "f"
        900
        1000
        feed_store
      ≡ (true, (err fetch_failure, q')))
    × (Fetch.fetch_and_store library failing (λ stmt. true) commits "f" 2000 2001 q'
        ≡ (false, (ok tt, q')))
    × ((Fetch.fetch_and_store library failing (λ stmt. true) commits "f" 86400000002000 2001 q').0
        ≡ true)
unfolding lookup Pipeline.in_backoff
failed_feed_rests_example =
    failed_feed_rests library failing (λ stmt. true) commits commits "f" feed (pos 0) 900 1000 2000
      86400000002000 2001 feed_store refl refl refl refl
      (λ t le. (t, ap some (ticks_lem t), omega arith, omega arith)) (omega arith) (omega arith)

abbrev serving : Stored.Sources
serving = sources (Stored.new_feed "" "" "https://a.com" (item ∷ []))

entry_date_only_earlier_example :
    no_later "iii" (
      lookup "g"
        (Fetch.fetch_and_store library serving
          (λ stmt. true)
          commits
          "f"
          900
          1000
          feed_store).1.1.entries)
    ≡ true
unfolding lookup str_lt codes_lt
entry_date_only_earlier_example =
    entry_date_only_earlier library serving (λ stmt. true) "iii" "g" commits "f" 900 1000 feed_store
      refl

abbrev save : String → String → UserSave
save rkey url = record {
  did = "did";
  rkey = rkey;
  at_uri = rkey;
  item_url = url;
  feed_url = none;
  created_at = "t";
  updated_at = "t";
  tags = none;
}

abbrev listed_save : PdsSave
listed_save = record {
  uri = "new";
  rkey = "new";
  item_url = "https://a.com/post";
  feed_url = "";
  created_at = "t";
  tags = [];
}

abbrev saves : Assoc UserSave
saves = ("old", save "old" "https://a.com/post") ∷ []

-- The delete of "x" fails, every other query is answered.
abbrev one_delete_fails : Answers
one_delete_fails = record { reads = true; deletes = λ k. not (k == "x"); writes = λ k. true }

rekeyed_save_fails_example :
    reconcile_saves
      (λ tags. "")
      (λ t. none)
      commits
      one_delete_fails
      "did"
      5
      "now"
      (some (save "old" "https://a.com/post" ∷ []))
      (some (listed_save ∷ []))
      saves
    ≡ (err (upsert_failed "new"), saves)
unfolding lookup
rekeyed_save_fails_example =
    rekeyed_save_fails (λ tags. "") (λ t. none) "did" 5 "now" one_delete_fails
      (save "old" "https://a.com/post" ∷ []) listed_save [] "old" (save "old" "https://a.com/post")
      saves refl refl refl refl refl refl

abbrev publication : UserSubscription
publication = record {
  did = "did";
  rkey = "pub";
  at_uri = "pub";
  feed_url = "at://publication";
  kind = "standardfeed";
  sidecar_rkey = none;
  title = none;
  is_primary = 0;
  tags = none;
  created_at = "t";
  updated_at = "t";
}

abbrev store : Store
store = record { feeds = []; subs = ("pub", publication) ∷ [] }

abbrev rss_record : PdsSubscription
rss_record = record {
  uri = "r";
  rkey = "r";
  kind = "rss";
  feed_url = "https://a.com/feed";
  site_url = "";
  publication = "";
  title = "";
  primary = false;
  tags = [];
}

rss_keeps_publications_example :
    lookup "pub"
      (reconcile_rss
        (λ tags. "")
        "did"
        "now"
        (λ t. none)
        commits
        one_delete_fails
        5
        []
        (rss_record ∷ [])
        store).1.subs
    ≡ some publication
unfolding lookup Keyed canonical_by_key choose_from insert
rss_keeps_publications_example =
    rss_keeps_publications (λ tags. "") "did" "now" one_delete_fails (λ t. none) commits 5 []
      (rss_record ∷ []) store "pub" publication (refl, refl, tt) refl refl refl
