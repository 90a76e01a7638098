-- ===== src/Sync/Saves.antt =====
-- app/internal/sync/reconcile_saves.go: the saves of one user.
pub mod Rekeyed
use morgenblau.Common.{
  ℕ, Option, none, some, Bool, true, false, ◌||◌, not, List, [], ◌∷◌, String, map, ◌==◌,
  if◌then◌else◌, Assoc,
}
use morgenblau.Sync.Collection.{
  Result, err, baseline_failed, listing_failed, DesiredRow, ReconcilePass, Tx, reconcile_collection,
  SyncError,
}
use morgenblau.Sync.Table.{
  nil_if_empty, marshal_tags, string_changed, upsert, rows, delete_row, Answers, query,
}

pub record UserSave : Type 0 where
  pub did : String
  pub rkey : String
  pub at_uri : String
  pub item_url : String
  pub feed_url : Option String
  pub created_at : String
  pub updated_at : String
  pub tags : Option String

pub record PdsSave : Type 0 where
  pub uri : String
  pub rkey : String
  pub item_url : String
  pub feed_url : String
  pub created_at : String
  pub tags : List String

abbrev pub or_now : String → String → String
or_now created_at now = if created_at == "" then now else created_at

unfoldable pub save_changed_since_snapshot : UserSave → UserSave → Bool
save_changed_since_snapshot current baseline =
    not (current.at_uri == baseline.at_uri)
    || not (current.item_url == baseline.item_url)
    || not (current.created_at == baseline.created_at)
    || not (current.updated_at == baseline.updated_at)
    || string_changed current.feed_url baseline.feed_url
    || string_changed current.tags baseline.tags

module _ (to_json : List String → String) (db : Answers) (did now : String) where
  -- The inserted row.
  abbrev pub save_row : PdsSave → UserSave
  save_row r = record {
    did = did;
    rkey = r.rkey;
    at_uri = r.uri;
    item_url = r.item_url;
    feed_url = nil_if_empty r.feed_url;
    created_at = or_now r.created_at now;
    updated_at = now;
    tags = marshal_tags to_json r.tags;
  }

  -- The DO UPDATE clause of UpsertUserSave, which keeps created_at.
  abbrev pub update_save : PdsSave → UserSave → UserSave
  update_save r old = record (save_row r) { created_at = old.created_at }

  unfoldable pub upsert_user_save : PdsSave → Assoc UserSave → Option (Assoc UserSave)
  upsert_user_save r = upsert (λ s. s.item_url) r.rkey (save_row r) (update_save r)

  abbrev pub desired_save : PdsSave → DesiredRow (Assoc UserSave)
  desired_save r = record {
    rkey = r.rkey;
    write = λ q. query (db.writes r.rkey) (upsert_user_save r q);
  }

  unfoldable pub saves_pass :
      ℕ → List UserSave → List PdsSave → ReconcilePass UserSave (Assoc UserSave)
  saves_pass snapshot_at baseline remote = record {
    snapshot_at = snapshot_at;
    snapshot = λ q. query db.reads (some (rows q));
    baseline = baseline;
    rkey_of = λ s. s.rkey;
    updated_at_of = λ s. s.updated_at;
    changed_since_snapshot = save_changed_since_snapshot;
    desired = map desired_save remote;
    delete_row = λ rkey q. query (db.deletes rkey) (delete_row rkey q);
    delete_first = false;
  }

-- `before` is what the store answered before the listing, `q` the store of the transaction.
unfoldable pub reconcile_saves :
    (List String → String)
    → (String → Option ℕ)
    → Tx
    → Answers
    → String
    → ℕ
    → String
    → Option (List UserSave)
    → Option (List PdsSave)
    → Assoc UserSave
    → Result (Unit {0}) × Assoc UserSave
unfolding reconcile_collection
reconcile_saves to_json parse tx db did snapshot_at now none listing q = (err baseline_failed, q)
reconcile_saves to_json parse tx db did snapshot_at now (some baseline) none q =
    (err listing_failed, q)
reconcile_saves to_json parse tx db did snapshot_at now (some baseline) (some remote) q =
    reconcile_collection parse tx (saves_pass to_json db did now snapshot_at baseline remote) q
