-- ===== src/Sync/Collection.antt =====
-- app/internal/sync/reconcile.go and reconcile_guard.go: one collection's reconcile pass in one
-- transaction. `Q` is the store inside the transaction; a query that fails is `none`. time.Parse is
-- a parameter.
pub mod Loops
pub mod Merge
pub mod Outcome
pub mod Keeps
use morgenblau.Common.{
  ℕ, Option, none, some, Bool, true, false, ◌||◌, not, List, [], ◌∷◌, String, ltb, ◌==◌, map,
  if◌then◌else◌, Assoc, lookup, insert, keep_if, any,
}

pub data SyncError : Type 0 where
  baseline_failed listing_failed fetch_failure snapshot_failed tx_failed : SyncError
  delete_failed upsert_failed : String → SyncError

pub data Result (A : Type 0) : Type 0 where
  ok : A → Result A
  err : SyncError → Result A

infixl 10 ◌>>=◌
abbrev pub ◌>>=◌ : {A B : Type 0} → Result A → (A → Result B) → Result B
ok value >>= next = next value
err failure >>= next = err failure

abbrev pub or_fail : {A : Type 0} → SyncError → Option A → Result A
or_fail failure none = err failure
or_fail failure (some value) = ok value

pub record DesiredRow (Q : Type 0) : Type 0 where
  pub rkey : String
  pub write : Q → Option Q

pub record ReconcilePass (L Q : Type 0) : Type 0 where
  pub snapshot_at : ℕ
  pub snapshot : Q → Option (List L)
  pub baseline : List L
  pub rkey_of : L → String
  pub updated_at_of : L → String
  pub changed_since_snapshot : L → L → Bool
  pub desired : List (DesiredRow Q)
  pub delete_row : String → Q → Option Q
  pub delete_first : Bool

abbrev pub contains : List String → String → Bool
contains keys k = any (λ j. j == k) keys

-- A map from rkey to row, filled in the list's order.
unfoldable pub index : {L : Type 0} → (L → String) → List L → Assoc L → Assoc L
index rkey_of [] m = m
index rkey_of (row ∷ rows) m = index rkey_of rows (insert (rkey_of row) row m)

abbrev pub is_none : {A : Type 0} → Option A → Bool
is_none none = true
is_none (some a) = false

-- A timestamp that does not parse counts as old.
unfoldable pub updated_after_snapshot : (String → Option ℕ) → String → ℕ → Bool
updated_after_snapshot parse updated_at snapshot_at = elim (parse updated_at) [
  | none ↦ false
  | some t ↦ ltb snapshot_at t
]

module _ {L Q : Type 0} (parse : String → Option ℕ) (p : ReconcilePass L Q) where
  -- Whether a local row was written since the baseline was read.
  unfoldable pub is_changed : Option L → L → Bool
  is_changed none row = true
  is_changed (some base) row =
      p.changed_since_snapshot row base
      || updated_after_snapshot parse (p.updated_at_of row) p.snapshot_at

  unfoldable pub changed_during_listing : List L → List String
  unfolding is_changed
  changed_during_listing local =
      let baseline_by_rkey = index p.rkey_of p.baseline [] in
      map p.rkey_of
        (keep_if (λ row. is_changed (lookup (p.rkey_of row) baseline_by_rkey) row) local)

  unfoldable pub deleted_during_listing : List L → List String
  deleted_during_listing local =
      let current_by_rkey = index p.rkey_of local [] in
      keep_if (λ rkey. is_none (lookup rkey current_by_rkey)) (map p.rkey_of p.baseline)

module _ {L Q : Type 0} (p : ReconcilePass L Q) where
  delete_one : (String → Bool) → String → Q → Result Q
  delete_one skip rkey q =
      if skip rkey then ok q else or_fail (delete_failed rkey) (p.delete_row rkey q)

  -- deleteStale over the local rows, less those that `skip` names.
  unfoldable pub delete_stale : (String → Bool) → List L → Q → Result Q
  unfolding delete_one
  delete_stale skip [] q = ok q
  delete_stale skip (row ∷ rows) q = delete_one skip (p.rkey_of row) q >>= delete_stale skip rows

module _ {Q : Type 0} where
  upsert_one : (String → Bool) → DesiredRow Q → Q → Result Q
  upsert_one skip d q = if skip d.rkey then ok q else or_fail (upsert_failed d.rkey) (d.write q)

  -- upsertDesired, less the rows that `skip` names.
  unfoldable pub upsert_desired : (String → Bool) → List (DesiredRow Q) → Q → Result Q
  unfolding upsert_one
  upsert_desired skip [] q = ok q
  upsert_desired skip (d ∷ ds) q = upsert_one skip d q >>= upsert_desired skip ds

  abbrev pub rkeys_of : List (DesiredRow Q) → List String
  rkeys_of ds = map (λ d. d.rkey) ds

unfoldable pub in_order : {Q : Type 0} → Bool → (Q → Result Q) → (Q → Result Q) → Q → Result Q
in_order true deletes upserts q = deletes q >>= upserts
in_order false deletes upserts q = upserts q >>= deletes

module _ {L Q : Type 0} (parse : String → Option ℕ) (p : ReconcilePass L Q) where
  -- The rows that deleteStale passes over: listed ones, and those written during the listing.
  abbrev pub spared : List L → String → Bool
  spared local k =
      contains (rkeys_of p.desired) k || contains (changed_during_listing parse p local) k

  -- The rows that upsertDesired passes over: those deleted or written during the listing.
  abbrev pub left_alone : List L → String → Bool
  left_alone local k =
      contains (deleted_during_listing parse p local) k
      || contains (changed_during_listing parse p local) k

  unfoldable pub apply_diff : List L → Q → Result Q
  unfolding in_order
  apply_diff local q =
      in_order p.delete_first (delete_stale p (spared local) local)
        (upsert_desired (left_alone local) p.desired) q

  -- The closure that runs inside the transaction.
  unfoldable pub reconcile_body : Q → Result Q
  unfolding apply_diff
  reconcile_body q = elim (p.snapshot q) [
    | none ↦ err snapshot_failed
    | some local ↦ apply_diff local q
  ]

-- How the database answers BeginTx and Commit.
pub record Tx : Type 0 where
  pub begins : Bool
  pub commits : Bool

-- The store and the error after a transaction whose function ends in the third argument.
unfoldable pub settle : {Q : Type 0} → Bool → Bool → Result Q → Q → Result (Unit {0}) × Q
settle false commits r q = (err tx_failed, q)
settle true commits (err e) q = (err e, q)
settle true true (ok q') q = (ok tt, q')
settle true false (ok q') q = (err tx_failed, q)

-- database.WithTx
unfoldable pub with_tx : {Q : Type 0} → Tx → (Q → Result Q) → Q → Result (Unit {0}) × Q
unfolding settle
with_tx tx fn q = settle tx.begins tx.commits (fn q) q

-- A result `ok` is the receipt that the pass's transaction committed.
unfoldable pub reconcile_collection :
    {L Q : Type 0} → (String → Option ℕ) → Tx → ReconcilePass L Q → Q → Result (Unit {0}) × Q
unfolding with_tx reconcile_body
reconcile_collection parse tx p q = with_tx tx (reconcile_body parse p) q
