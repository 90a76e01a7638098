-- ===== src/Sync/Subscriptions.antt =====
-- app/internal/sync/reconcile_subscriptions.go: the subscriptions of one user and the records
-- that make them. The store of a transaction is the feeds and the user's rows. onAdded, which only
-- collects URLs for the fetches after the passes, and the log are left out.
pub mod Passes
pub mod Separate
use morgenblau.Common.{
  ℕ, Option, none, some, Bool, true, false, ◌||◌, not, List, [], ◌∷◌, String, map, ◌==◌,
  if◌then◌else◌, Assoc, lookup, keep_if, eqb, remove,
}
use morgenblau.Sync.Collection.{
  Result, ok, err, listing_failed, DesiredRow, ReconcilePass, Tx, reconcile_collection, SyncError,
}
use morgenblau.Sync.Table.{nil_if_empty, marshal_tags, string_changed, upsert, rows, Answers, query}
use morgenblau.Sync.Catalog.{Feed, FeedParams, kind_or_rss, upsert_feed}
use morgenblau.Sync.Sidecars.{canonical_by_key, newest_sidecar_by_key, sidecar_cleanup}

pub record UserSubscription : Type 0 where
  pub did : String
  pub rkey : String
  pub at_uri : String
  pub feed_url : String
  pub kind : String
  pub sidecar_rkey : Option String
  pub title : Option String
  pub is_primary : ℕ
  pub tags : Option String
  pub created_at : String
  pub updated_at : String

pub record PdsSubscription : Type 0 where
  pub uri : String
  pub rkey : String
  pub kind : String
  pub feed_url : String
  pub site_url : String
  pub publication : String
  pub title : String
  pub primary : Bool
  pub tags : List String

pub record PdsStandardSubscription : Type 0 where
  pub uri : String
  pub rkey : String
  pub publication : String

pub record Store : Type 0 where
  pub feeds : Assoc Feed
  pub subs : Assoc UserSubscription

abbrev pub bool_to_int : Bool → ℕ
bool_to_int true = 1
bool_to_int false = 0

abbrev pub is_standardfeed : UserSubscription → Bool
is_standardfeed row = row.kind == "standardfeed"

abbrev pub is_rss : UserSubscription → Bool
is_rss row = not (is_standardfeed row)

unfoldable pub subscription_changed_since_snapshot : UserSubscription → UserSubscription → Bool
subscription_changed_since_snapshot current baseline =
    not (current.at_uri == baseline.at_uri)
    || not (current.feed_url == baseline.feed_url)
    || not (current.kind == baseline.kind)
    || not (eqb current.is_primary baseline.is_primary)
    || not (current.created_at == baseline.created_at)
    || not (current.updated_at == baseline.updated_at)
    || string_changed current.sidecar_rkey baseline.sidecar_rkey
    || string_changed current.title baseline.title
    || string_changed current.tags baseline.tags

-- The inserted row of UpsertUserSubscription.
abbrev pub inserted : UserSubscription → UserSubscription
inserted arg = record arg { kind = kind_or_rss arg.kind }

-- Its DO UPDATE clause, which keeps kind and created_at.
abbrev pub updated : UserSubscription → UserSubscription → UserSubscription
updated arg old = record arg { kind = old.kind; created_at = old.created_at }

unfoldable pub upsert_user_subscription :
    UserSubscription → Assoc UserSubscription → Option (Assoc UserSubscription)
upsert_user_subscription arg = upsert (λ s. s.feed_url) arg.rkey (inserted arg) (updated arg)

with_subs : Assoc Feed → Option (Assoc UserSubscription) → Option Store
with_subs feeds none = none
with_subs feeds (some subs) = some (record { feeds = feeds; subs = subs })

unfoldable pub tier2_then_tier1 : FeedParams → UserSubscription → Store → Option Store
unfolding with_subs
tier2_then_tier1 feed sub q =
    with_subs (upsert_feed feed q.feeds) (upsert_user_subscription sub q.subs)

unfoldable pub delete_user_subscription : String → Store → Option Store
delete_user_subscription rkey q = some (record q { subs = remove rkey q.subs })

-- What the two passes share.
abbrev pub subscription_pass :
    Answers
    → (UserSubscription → Bool)
    → ℕ
    → List UserSubscription
    → List (DesiredRow Store)
    → ReconcilePass UserSubscription Store
subscription_pass db keep snapshot_at snapshot desired = record {
  snapshot_at = snapshot_at;
  snapshot = λ q. query db.reads (some (keep_if keep (rows q.subs)));
  baseline = keep_if keep snapshot;
  rkey_of = λ s. s.rkey;
  updated_at_of = λ s. s.updated_at;
  changed_since_snapshot = subscription_changed_since_snapshot;
  desired = desired;
  delete_row = λ rkey q. query (db.deletes rkey) (delete_user_subscription rkey q);
  delete_first = true;
}

-- The records that the RSS pass wants, in the iteration order of the map.
abbrev pub rss_records : List PdsSubscription → List PdsSubscription
rss_records remote =
    rows (canonical_by_key (λ r. r.feed_url) (λ r. r.rkey) (keep_if (λ r. r.kind == "rss") remote))

abbrev pub sidecars_of : List PdsSubscription → List PdsSubscription
sidecars_of morgen = keep_if (λ s. s.kind == "standardfeed") morgen

abbrev pub sidecar_by_pub : List PdsSubscription → Assoc PdsSubscription
sidecar_by_pub morgen =
    newest_sidecar_by_key (λ s. s.publication) (λ s. s.rkey) (sidecars_of morgen)

abbrev pub canonical_by_pub : List PdsStandardSubscription → Assoc PdsStandardSubscription
canonical_by_pub standard = canonical_by_key (λ s. s.publication) (λ s. s.rkey) standard
