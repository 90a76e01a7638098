-- ===== src/Sync/FeedPipeline/Fetch.antt =====
-- FetchAndStore and recordFetchFailure of app/internal/sync/feedpipeline.go.
use morgenblau.Common.{
  ℕ, suc, ◌+◌, Option, none, some, Bool, true, false, ◌&&◌, ◌||◌, not, List, String, ◌==◌,
  if◌then◌else◌, Assoc, lookup, ℤ,
}
use morgenblau.Sync.Collection.{Result, ok, err, fetch_failure, Tx, settle}
use morgenblau.Sync.Table.{nil_if_empty}
use morgenblau.Sync.Catalog.{Feed, upsert_feed, update_feed, fetched, fetch_failed, icon_set}
use morgenblau.Sync.FeedPipeline.{Item, Library, in_backoff, should_discover_icon, failure_delay}
use morgenblau.Sync.FeedPipeline.Store.{
  Store, FeedState, Fetched, fetch_error, not_modified, new_feed, Statement, update_state,
  upsert_catalog, set_icon, update_failure, Sources, text_or_empty, store_items, feed_site,
  stored_site, when_works,
}

abbrev pub feed_state : Option Feed → FeedState
feed_state none = record { etag = ""; last_modified = "" }
feed_state (some f) = record {
  etag = text_or_empty f.etag;
  last_modified = text_or_empty f.last_modified;
}

abbrev pub failures_of : Option Feed → ℕ
failures_of none = 0
failures_of (some f) = f.consecutive_failures

abbrev pub next_fetch_of : Option Feed → Option String
next_fetch_of none = none
next_fetch_of (some f) = f.next_fetch_at

abbrev pub was_fetched : Option Feed → Bool
was_fetched none = false
was_fetched (some f) = is_given f.last_fetched_at
  where
    is_given : Option String → Bool
    is_given none = false
    is_given (some s) = true

abbrev pub stored_url : Option Feed → Option String
stored_url none = none
stored_url (some f) = f.site_url

module _ (lib : Library) (src : Sources) (works : Statement → Bool) where
  unfoldable pub record_fetch_failure : String → Option Feed → ℤ → ℕ → Store → Store
  record_fetch_failure url prior retry_after now q =
      let failures = suc (failures_of prior) in
      let next_fetch_at = lib.format_time (now + failure_delay failures retry_after) in
      when_works lib src works update_failure
        (λ s. record s {
          feeds =
              update_feed url (fetch_failed failures next_fetch_at (lib.format_time now)) s.feeds;
        })
        q

  icon_for : Option Feed → String → ℕ → String
  icon_for prior site now =
      if not (site == "") && wants prior then text_or_empty (src.discover_icon site) else ""
    where
      wants : Option Feed → Bool
      wants none = should_discover_icon lib none none now
      wants (some f) = should_discover_icon lib f.icon_url f.icon_fetched_at now

  set_feed_icon : String → String → String → Assoc Feed → Assoc Feed
  set_feed_icon url icon now feeds =
      if icon == ""
      then feeds
      else when_works lib src works set_icon (update_feed url (icon_set icon now)) feeds

  -- The closure of the write batch.
  unfoldable pub write_batch :
      String → Option Feed → String → String → String → List Item → ℕ → Store → Store
  unfolding icon_for set_feed_icon
  write_batch url prior etag last_modified link items now q =
      let stamp = lib.format_time now in
      let site = feed_site lib src works url link in
      let touched =
        when_works lib src works update_state
          (update_feed url (fetched (nil_if_empty etag) (nil_if_empty last_modified) stamp))
          q.feeds in
      let claimed =
        when_works lib src works upsert_catalog
          (upsert_feed (record {
            feed_url = url;
            kind = "";
            site_url = nil_if_empty (stored_site lib src works url site (stored_url prior));
            title = none;
            created_at = stamp;
            updated_at = stamp;
          }))
          touched in
      record {
        feeds = set_feed_icon url (icon_for prior site now) stamp claimed;
        entries =
            store_items lib src works url (not (was_fetched prior) || src.undated_history) stamp
              items q.entries;
      }

  unfoldable pub after_fetch :
      Tx → String → Option Feed → ℕ → Fetched → Store → Result (Unit {0}) × Store
  unfolding record_fetch_failure write_batch
  after_fetch tx url prior now (fetch_error canceled retry_after) q =
      (err fetch_failure, if canceled then q else record_fetch_failure url prior retry_after now q)
  after_fetch tx url prior now (not_modified etag last_modified) q = (
    ok tt,
    record q {
      feeds =
          when_works lib src works update_state
            (update_feed url
              (fetched (nil_if_empty etag) (nil_if_empty last_modified) (lib.format_time now)))
            q.feeds;
    },
  )
  after_fetch tx url prior now (new_feed etag last_modified link items) q =
      settle tx.begins tx.commits (ok (write_batch url prior etag last_modified link items now q)) q

  -- `started` is the clock before the fetch, `now` after it. The first part says whether the
  -- network was asked.
  unfoldable pub fetch_and_store : Tx → String → ℕ → ℕ → Store → Bool × (Result (Unit {0}) × Store)
  unfolding after_fetch
  fetch_and_store tx url started now q =
      let prior = lookup url q.feeds in
      if in_backoff lib (next_fetch_of prior) started
      then (false, (ok tt, q))
      else (true, after_fetch tx url prior now (src.fetch (feed_state prior)) q)
