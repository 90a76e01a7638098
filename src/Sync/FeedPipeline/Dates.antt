-- ===== src/Sync/FeedPipeline/Dates.antt =====
-- The date of a stored entry under refetches: feedpipeline.go with UpsertFeedEntry.
use morgenblau.Common.{
  ℕ, ◌≡◌, Option, none, some, Bool, true, false, ◌&&◌, ◌||◌, not, List, [], ◌∷◌, String, ◌==◌,
  eq_iff, arith, Assoc, lookup, lookup-insert, str_lt, str_lt_trans, str_lt_total, Bool-cases,
  Option-cases, inl, inr,
}
use morgenblau.Sync.Collection.{Tx, settle, ok}
use morgenblau.Sync.Catalog.{Feed}
use morgenblau.Sync.FeedPipeline.{Library, Item, choose_guid, in_backoff}
use morgenblau.Sync.FeedPipeline.Store.{
  Entry, Store, Fetched, fetch_error, not_modified, new_feed, Statement, update_failure,
  upsert_entry, Sources, dated, upsert_feed_entry, store_item, store_items,
}
use morgenblau.Sync.FeedPipeline.Fetch.{
  after_fetch, next_fetch_of, fetch_and_store, record_fetch_failure, write_batch,
}

-- The entry has a date, and none after `d`.
abbrev pub no_later : String → Option Entry → Bool
no_later d none = false
no_later d (some e) = not (e.published_at == "") && not (str_lt d e.published_at)

dated-no_later :
    (d published : String) (e : Entry) (keep : Bool) (now : String)
    → no_later d (some e) ≡ true
    → not (dated published (some e.published_at) keep now == "")
        && not (str_lt d (dated published (some e.published_at) keep now))
      ≡ true
unfolding dated
dated-no_later d published e keep now h =
    ground (arith, str_lt_trans e.published_at d published, str_lt_total d e.published_at)

upsert_no_later :
    (d k guid : String) (arg : Entry) (keep : Bool) (entries : Assoc Entry)
    → no_later d (lookup k entries) ≡ true
    → no_later d (lookup k (upsert_feed_entry guid arg keep entries)) ≡ true
unfolding upsert_feed_entry
upsert_no_later d k guid arg keep entries h = elim (Bool-cases (guid == k)) [
  | inl same ↦ elim (Option-cases (lookup k entries)) [
    | inl missing ↦ let h' = rw missing at h in cc
    | inr (e, found) ↦
        rw (lookup-insert guid k _ entries, same, (eq_iff guid k).0 same, found)
          (dated-no_later d arg.published_at e keep arg.fetched_at (rw found at h))
  ]
  | inr other ↦ rw (lookup-insert guid k _ entries, other) h
]

module _ (lib : Library) (src : Sources) (works : Statement → Bool) where
  items_no_later :
      (d k url : String) (keep : Bool) (now : String) (items : List Item) (entries : Assoc Entry)
      → no_later d (lookup k entries) ≡ true
      → no_later d (lookup k (store_items lib src works url keep now items entries)) ≡ true
  unfolding store_items store_item
  items_no_later d k url keep now [] entries h = h
  items_no_later d k url keep now (item ∷ items) entries h =
      items_no_later d k url keep now items _
        (elim (Bool-cases
          (choose_guid lib item == "" || not (works (upsert_entry (choose_guid lib item))))) [
            | inl skipped ↦ rw skipped h
            | inr stored ↦ rw stored (upsert_no_later d k (choose_guid lib item) _ keep entries h)
          ])

  after_no_later :
      (d k : String) (tx : Tx) (url : String) (prior : Option Feed) (now : ℕ) (f : Fetched)
      (q : Store)
      → no_later d (lookup k q.entries) ≡ true
      → no_later d (lookup k (after_fetch lib src works tx url prior now f q).1.entries) ≡ true
  unfolding after_fetch record_fetch_failure write_batch settle
  after_no_later d k tx url prior now (fetch_error true r) q h = h
  after_no_later d k tx url prior now (fetch_error false r) q h =
      elim (Bool-cases (works update_failure)) [ inl done ↦ rw done h | inr lost ↦ rw lost h ]
  after_no_later d k tx url prior now (not_modified etag last_modified) q h = h
  after_no_later d k tx url prior now (new_feed etag last_modified link items) q h =
      settled _ tx.begins tx.commits (items_no_later d k url _ _ items q.entries h)
    where
      settled :
          (q' : Store) (begins commits : Bool)
          → no_later d (lookup k q'.entries) ≡ true
          → no_later d (lookup k (settle begins commits (ok q') q).1.entries) ≡ true
      settled q' false commits h' = h
      settled q' true true h' = h'
      settled q' true false h' = h

  -- Whatever a fetch of the feed returns, and whichever statements or transaction fail, a stored
  -- entry that has a date no later than `d` still has one.
  pub entry_date_only_earlier :
      (d k : String) (tx : Tx) (url : String) (started now : ℕ) (q : Store)
      → no_later d (lookup k q.entries) ≡ true
      → no_later d (lookup k (fetch_and_store lib src works tx url started now q).1.1.entries)
        ≡ true
  unfolding fetch_and_store
  entry_date_only_earlier d k tx url started now q h =
      elim (Bool-cases (in_backoff lib (next_fetch_of (lookup url q.feeds)) started)) [
        | inl rests ↦ rw rests h
        | inr due ↦ rw due (after_no_later d k tx url (lookup url q.feeds) now _ q h)
      ]
