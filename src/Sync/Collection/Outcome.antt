-- ===== src/Sync/Collection/Outcome.antt =====
-- What a whole pass of reconcile.go ends in: a merge that is committed, or nothing at all.
use morgenblau.Common.{ℕ, ◌≡◌, refl, Option, none, some, Bool, true, false, List, String, All}
use morgenblau.Sync.Collection.{
  Result, ok, err, DesiredRow, ReconcilePass, Tx, settle, snapshot_failed, apply_diff,
  reconcile_body, reconcile_collection,
}
use morgenblau.Sync.Collection.Loops.{Deletes, Writes, find, Distinct}
use morgenblau.Sync.Collection.Merge.{
  find_row, DistinctRows, three_way, changed_from, in_order-view,
}

-- What a pass relies on: its queries act on single rows, and rkeys are keys.
pub record PassLaws {L Q : Type 0} (p : ReconcilePass L Q) (view : Q → String → Option L)
    (row : DesiredRow Q → Option L → L) : Type 0 where
  pub deletes : Deletes view p.delete_row
  pub writes : All (Writes view row) p.desired
  pub distinct : Distinct p.desired
  pub distinct_baseline : DistinctRows p.rkey_of p.baseline

-- A snapshot that is read holds every row of the store, once.
pub record SnapshotLaws {L Q : Type 0} (p : ReconcilePass L Q) (view : Q → String → Option L)
    (q : Q) : Type 0 where
  pub rows_distinct : (local : List L) → p.snapshot q ≡ some local → DistinctRows p.rkey_of local
  pub rows_complete :
      (local : List L)
      → p.snapshot q ≡ some local
      → (k : String) → find_row p.rkey_of k local ≡ view q k

module _ {L Q : Type 0} (parse : String → Option ℕ) (p : ReconcilePass L Q)
    (view : Q → String → Option L) (row : DesiredRow Q → Option L → L) where
  -- Every row is the three-way merge of the baseline, the store and the listing.
  abbrev pub Merges : Q → Q → Type 0
  Merges q q' =
      (k : String)
      → view q' k
        ≡ three_way (changed_from parse p) row (find_row p.rkey_of k p.baseline) (view q k)
            (find k p.desired)

  abbrev pub Outcome : Q → Result (Unit {0}) × Q → Type 0
  Outcome q (ok u, q') = Merges q q'
  Outcome q (err e, q') = q' ≡ q

  module _ (laws : PassLaws p view row) (q : Q) (snap : SnapshotLaws p view q) where
    body-Merges : (q' : Q) → reconcile_body parse p q ≡ ok q' → Merges q q'
    unfolding reconcile_body
    body-Merges q' h k = go (p.snapshot q) refl h
      where
        go :
            (o : Option (List L))
            → p.snapshot q ≡ o
            → elim o [ none ↦ err snapshot_failed | some local ↦ apply_diff parse p local q ]
              ≡ ok q'
            → view q' k
              ≡ three_way
                  (changed_from parse p)
                  row
                  (find_row p.rkey_of k p.baseline)
                  (view q k)
                  (find k p.desired)
        go none e h' = cc
        go (some local) e h' =
            in_order-view parse p view row laws.deletes laws.writes laws.distinct
              laws.distinct_baseline k local (snap.rows_distinct local e) q q'
              (snap.rows_complete local e k) p.delete_first h'

    settle_outcome :
        (begins commits : Bool) (r : Result Q)
        → ((q' : Q) → r ≡ ok q' → Merges q q')
        → Outcome q (settle begins commits r q)
    unfolding settle
    settle_outcome false commits r merges = refl
    settle_outcome true commits (err e) merges = refl
    settle_outcome true true (ok q') merges = merges q' refl
    settle_outcome true false (ok q') merges = refl

    -- A pass whose transaction commits leaves in every row the three-way merge of the rows read
    -- before the listing, the rows of the store, and the listing: what was written or deleted
    -- during the listing stands, the rest is as listed. On any error the store is as it was. (The
    -- queries act on single rows, and rkeys are keys: PassLaws and SnapshotLaws.)
    pub reconcile_outcome : (tx : Tx) → Outcome q (reconcile_collection parse tx p q)
    unfolding reconcile_collection
    reconcile_outcome tx = settle_outcome tx.begins tx.commits _ body-Merges
