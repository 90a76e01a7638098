-- ===== src/Sync/Catalog.antt =====
-- The feeds table, by feed URL, and the statements of database/queries/subscriptions.sql on it
-- that the sync runs. A statement may also fail for reasons of its own; where it is used, that is
-- an argument.
use morgenblau.Common.{ℕ, Option, none, some, String, ◌==◌, if◌then◌else◌, Assoc, lookup, insert}

pub record Feed : Type 0 where
  pub kind : String
  pub site_url : Option String
  pub title : Option String
  pub etag : Option String
  pub last_modified : Option String
  pub last_fetched_at : Option String
  pub icon_url : Option String
  pub icon_fetched_at : Option String
  pub created_at : String
  pub updated_at : String
  pub consecutive_failures : ℕ
  pub next_fetch_at : Option String
  pub orphaned_at : Option String

pub record FeedParams : Type 0 where
  pub feed_url : String
  pub kind : String
  pub site_url : Option String
  pub title : Option String
  pub created_at : String
  pub updated_at : String

-- COALESCE(NULLIF(kind, ''), 'rss')
abbrev pub kind_or_rss : String → String
kind_or_rss kind = if kind == "" then "rss" else kind

-- COALESCE(NULLIF(a, ''), b)
abbrev pub or_else_site : Option String → Option String → Option String
or_else_site none b = b
or_else_site (some a) b = if a == "" then b else some a

-- COALESCE(a, b)
abbrev pub coalesce_title : Option String → Option String → Option String
coalesce_title none b = b
coalesce_title (some a) b = some a

new_feed : FeedParams → Feed
new_feed arg = record {
  kind = kind_or_rss arg.kind;
  site_url = arg.site_url;
  title = arg.title;
  etag = none;
  last_modified = none;
  last_fetched_at = none;
  icon_url = none;
  icon_fetched_at = none;
  created_at = arg.created_at;
  updated_at = arg.updated_at;
  consecutive_failures = 0;
  next_fetch_at = none;
  orphaned_at = none;
}

claim_feed : FeedParams → Feed → Feed
claim_feed arg old = record old {
  site_url = or_else_site arg.site_url old.site_url;
  title = coalesce_title arg.title old.title;
  updated_at = arg.updated_at;
  orphaned_at = none;
}

unfoldable pub upsert_feed : FeedParams → Assoc Feed → Assoc Feed
unfolding new_feed claim_feed
upsert_feed arg feeds =
    insert arg.feed_url
      (elim (lookup arg.feed_url feeds) [ none ↦ new_feed arg | some old ↦ claim_feed arg old ])
      feeds

-- UPDATE … WHERE feed_url = ?
unfoldable pub update_feed : String → (Feed → Feed) → Assoc Feed → Assoc Feed
update_feed url f feeds = elim (lookup url feeds) [
  | none ↦ feeds
  | some old ↦ insert url (f old) feeds
]

abbrev pub fetched : Option String → Option String → String → Feed → Feed
fetched etag last_modified now f = record f {
  etag = etag;
  last_modified = last_modified;
  last_fetched_at = some now;
  updated_at = now;
  consecutive_failures = 0;
  next_fetch_at = none;
}

abbrev pub fetch_failed : ℕ → String → String → Feed → Feed
fetch_failed failures next_fetch_at now f = record f {
  consecutive_failures = failures;
  next_fetch_at = some next_fetch_at;
  updated_at = now;
}

abbrev pub icon_set : String → String → Feed → Feed
icon_set icon now f = record f {
  icon_url = some icon;
  icon_fetched_at = some now;
  updated_at = now;
}
