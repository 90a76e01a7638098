-- ===== src/Sync/Subscriptions/Passes.antt =====
-- The passes of app/internal/sync/reconcile_subscriptions.go, which share a table.
use morgenblau.Common.{ℕ, Option, none, some, List, [], String, map, Assoc, lookup}
use morgenblau.Sync.Collection.{
  Result, err, listing_failed, DesiredRow, ReconcilePass, Tx, reconcile_collection,
}
use morgenblau.Sync.Table.{nil_if_empty, marshal_tags, rows, Answers, query}
use morgenblau.Sync.Sidecars.{DeleteRecord, sidecar_cleanup}
use morgenblau.Sync.Subscriptions.{
  UserSubscription, PdsSubscription, PdsStandardSubscription, Store, bool_to_int, is_standardfeed,
  is_rss, tier2_then_tier1, subscription_pass, rss_records, sidecars_of, sidecar_by_pub,
  canonical_by_pub,
}

module _ (to_json : List String → String) (did now : String) where
  unfoldable pub desired_rss : Answers → PdsSubscription → DesiredRow Store
  desired_rss db r = record {
    rkey = r.rkey;
    write = λ q. query (db.writes r.rkey) (
        tier2_then_tier1
          (record {
            feed_url = r.feed_url;
            kind = "";
            site_url = nil_if_empty r.site_url;
            title = none;
            created_at = now;
            updated_at = now;
          })
          (record {
            did = did;
            rkey = r.rkey;
            at_uri = r.uri;
            feed_url = r.feed_url;
            kind = "";
            sidecar_rkey = none;
            title = nil_if_empty r.title;
            is_primary = bool_to_int r.primary;
            tags = marshal_tags to_json r.tags;
            created_at = now;
            updated_at = now;
          })
          q);
  }

  plain_sub : PdsStandardSubscription → UserSubscription
  plain_sub canon = record {
    did = did;
    rkey = canon.rkey;
    at_uri = canon.uri;
    feed_url = canon.publication;
    kind = "standardfeed";
    sidecar_rkey = none;
    title = none;
    is_primary = 0;
    tags = none;
    created_at = now;
    updated_at = now;
  }

  with_sidecar : Option PdsSubscription → UserSubscription → UserSubscription
  with_sidecar none sub = sub
  with_sidecar (some sc) sub = record sub {
    sidecar_rkey = some sc.rkey;
    title = nil_if_empty sc.title;
    is_primary = bool_to_int sc.primary;
    tags = marshal_tags to_json sc.tags;
  }

  unfoldable pub desired_standard :
      Answers → Assoc PdsSubscription → PdsStandardSubscription → DesiredRow Store
  unfolding plain_sub with_sidecar
  desired_standard db sidecar_by_pub canon = record {
    rkey = canon.rkey;
    write = λ q. query (db.writes canon.rkey) (
        tier2_then_tier1
          (record {
            feed_url = canon.publication;
            kind = "standardfeed";
            site_url = none;
            title = none;
            created_at = now;
            updated_at = now;
          })
          (with_sidecar (lookup canon.publication sidecar_by_pub) (plain_sub canon)) q);
  }

  unfoldable pub rss_pass :
      Answers
      → ℕ
      → List UserSubscription
      → List PdsSubscription
      → ReconcilePass UserSubscription Store
  rss_pass db snapshot_at snapshot remote =
      subscription_pass db is_rss snapshot_at snapshot (map (desired_rss db) (rss_records remote))

  unfoldable pub standard_pass :
      Answers
      → ℕ
      → List UserSubscription
      → List PdsSubscription
      → List PdsStandardSubscription
      → ReconcilePass UserSubscription Store
  standard_pass db snapshot_at snapshot morgen standard =
      subscription_pass db is_standardfeed snapshot_at snapshot
        (map (desired_standard db (sidecar_by_pub morgen)) (rows (canonical_by_pub standard)))

  module _ (parse : String → Option ℕ) where
    unfoldable pub reconcile_rss :
        Tx
        → Answers
        → ℕ
        → List UserSubscription
        → List PdsSubscription
        → Store
        → Result (Unit {0}) × Store
    unfolding reconcile_collection
    reconcile_rss tx db snapshot_at snapshot remote q =
        reconcile_collection parse tx (rss_pass db snapshot_at snapshot remote) q

    module _ {P : Type 0} (pds : Option (DeleteRecord P)) where
      -- The pass, and after it the cleanup on the PDS, whether or not the transaction committed;
      -- the third part are the rkeys of the deletes that failed, the last the PDS.
      unfoldable pub reconcile_standardfeed :
          Tx
          → Answers
          → ℕ
          → List UserSubscription
          → List PdsSubscription
          → List PdsStandardSubscription
          → Store
          → P
          → (Result (Unit {0}) × Store) × List String × P
      unfolding reconcile_collection
      reconcile_standardfeed tx db snapshot_at snapshot morgen standard q p =
          let receipt =
            reconcile_collection parse tx (standard_pass db snapshot_at snapshot morgen standard)
              q in
          let (failed, p') =
            sidecar_cleanup (λ s. s.publication) (λ s. s.rkey) pds (sidecars_of morgen)
              (canonical_by_pub standard) (sidecar_by_pub morgen) p in
          (receipt, failed, p')

      -- The two results, the store, the failed deletes and the PDS. A listing that fails stops both
      -- passes.
      unfoldable pub reconcile_tier1 :
          Tx
          → Tx
          → Answers
          → Answers
          → ℕ
          → List UserSubscription
          → Option (List PdsSubscription)
          → Option (List PdsStandardSubscription)
          → Store
          → P
          → Result (Unit {0}) × Result (Unit {0}) × Store × List String × P
      unfolding reconcile_rss reconcile_standardfeed
      reconcile_tier1 tx tx' db db' snapshot_at snapshot none standard q p =
          (err listing_failed, err listing_failed, q, [], p)
      reconcile_tier1 tx tx' db db' snapshot_at snapshot (some remote) none q p =
          (err listing_failed, err listing_failed, q, [], p)
      reconcile_tier1 tx tx' db db' snapshot_at snapshot (some remote) (some standard) q p =
          let (rss, q1) = reconcile_rss tx db snapshot_at snapshot remote q in
          let ((standardfeed, q2), failed, p') =
            reconcile_standardfeed tx' db' snapshot_at snapshot remote standard q1 p in
          (rss, standardfeed, q2, failed, p')
