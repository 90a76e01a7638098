-- ===== src/Sync/FeedPipeline/Store.antt =====
-- What FetchAndStore of app/internal/sync/feedpipeline.go stores for a feed's items, and the statement
-- UpsertFeedEntry of app/internal/database/queries/entries.sql. The entries of the store are those
-- of the feed that is fetched, by guid. A statement that fails is logged and changes nothing.
use morgenblau.Common.{
  ℕ, Option, none, some, Bool, true, false, ◌&&◌, ◌||◌, not, List, [], ◌∷◌, String, ◌==◌, eqb,
  if◌then◌else◌, Assoc, lookup, insert, str_lt, ℤ,
}
use morgenblau.Sync.Table.{nil_if_empty}
use morgenblau.Sync.Catalog.{Feed}
use morgenblau.Sync.FeedPipeline.{
  Url, Item, Library, choose_guid, choose_time, choose_body, classify_content_type, build_metadata,
  meta_json,
}

pub record Entry : Type 0 where
  pub slug : String
  pub url : String
  pub title : Option String
  pub content_html : Option String
  pub content_type : String
  pub published_at : String
  pub fetched_at : String
  pub metadata : Option String

pub record Store : Type 0 where
  pub feeds : Assoc Feed
  pub entries : Assoc Entry

pub record FeedState : Type 0 where
  pub etag : String
  pub last_modified : String

-- What fetcher.Fetch returns; `retry_after` is 0 unless the error is an HTTPError that has one.
pub data Fetched : Type 0 where
  fetch_error : (canceled : Bool) (retry_after : ℤ) → Fetched
  not_modified : (etag last_modified : String) → Fetched
  new_feed : (etag last_modified link : String) (items : List Item) → Fetched

-- The statements of one run, as they may fail.
pub data Statement : Type 0 where
  update_state upsert_catalog set_icon update_failure : Statement
  upsert_entry : (guid : String) → Statement

-- What the run asks of other parts: feedfinder, favicon, and the hook of generated feeds. An
-- answer `none` is an error.
pub record Sources : Type 0 where
  pub fetch : FeedState → Fetched
  pub channel_of : String → String
  pub is_handle_url : String → Bool
  pub handle_of : String → Option String
  pub discover_icon : String → Option String
  pub undated_history : Bool
  pub slug_of : String → String → String

abbrev pub text_or_empty : Option String → String
text_or_empty none = ""
text_or_empty (some s) = s

abbrev pub min_text : String → String → String
min_text a b = if str_lt b a then b else a

-- The published_at of UpsertFeedEntry's VALUES: the least of the dates that are there, else none or
-- the time of the fetch.
unfoldable pub dated : String → Option String → Bool → String → String
dated published none keep_undated now =
    if published == "" then (if keep_undated then "" else now) else published
dated published (some stored) keep_undated now =
    if published == ""
    then stored
    else (if stored == "" then published else min_text published stored)

abbrev pub date_of : Option Entry → Option String
date_of none = none
date_of (some e) = some e.published_at

-- On a conflict the slug stays.
abbrev pub slug_from : Option Entry → String → String
slug_from none slug = slug
slug_from (some e) slug = e.slug

unfoldable pub upsert_feed_entry : String → Entry → Bool → Assoc Entry → Assoc Entry
unfolding dated
upsert_feed_entry guid arg keep_undated entries =
    let old = lookup guid entries in
    insert guid
      (record arg {
        slug = slug_from old arg.slug;
        published_at = dated arg.published_at (date_of old) keep_undated arg.fetched_at;
      })
      entries

module _ (lib : Library) (src : Sources) (works : Statement → Bool) where
  abbrev pub published_text : ℕ → String
  published_text t = if eqb t 0 then "" else lib.format_time t

  abbrev pub entry_of : String → String → String → Item → Entry
  entry_of url guid now item = record {
    slug = src.slug_of url guid;
    url = item.link;
    title = nil_if_empty (lib.trim_space (lib.unescape_html item.title));
    content_html = nil_if_empty (lib.sanitize (choose_body lib item));
    content_type = classify_content_type lib url item;
    published_at = published_text (choose_time lib item 0);
    fetched_at = now;
    metadata = meta_json lib (build_metadata item);
  }

  unfoldable pub store_item : String → Bool → String → Item → Assoc Entry → Assoc Entry
  store_item url keep_undated now item entries =
      let guid = choose_guid lib item in
      if guid == "" || not (works (upsert_entry guid))
      then entries
      else upsert_feed_entry guid (entry_of url guid now item) keep_undated entries

  unfoldable pub store_items : String → Bool → String → List Item → Assoc Entry → Assoc Entry
  store_items url keep_undated now [] entries = entries
  store_items url keep_undated now (item ∷ items) entries =
      store_items url keep_undated now items (store_item url keep_undated now item entries)

  origin : Option Url → String
  origin none = ""
  origin (some u) = if u.scheme == "" || u.host == "" then "" else lib.join u.scheme "://" u.host

  -- The site that a feed links, or else its channel's, or else its origin.
  unfoldable pub feed_site : String → String → String
  unfolding origin
  feed_site url link =
      let linked = lib.trim_space link in
      let channel = src.channel_of url in
      if linked == ""
      then (if channel == "" then origin (lib.parse_url url) else channel)
      else linked

  abbrev pub handle_or : String → Option String → String
  handle_or channel none = channel
  handle_or channel (some handle) = if handle == "" then channel else handle

  -- The site to store; an empty one leaves the stored site.
  unfoldable pub stored_site : String → String → Option String → String
  stored_site url site stored =
      let own = src.channel_of url in
      let channel = if own == "" then src.channel_of site else own in
      if channel == ""
      then site
      else (if src.is_handle_url (text_or_empty stored) && is_given stored
          then ""
          else handle_or channel (src.handle_of channel))
    where
      is_given : Option String → Bool
      is_given none = false
      is_given (some s) = true

  abbrev pub when_works : {A : Type 0} → Statement → (A → A) → A → A
  when_works stmt f a = if works stmt then f a else a
