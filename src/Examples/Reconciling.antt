-- ===== src/Examples/Reconciling.antt =====
-- Examples for reconcile.go and reconcile_sidecar.go.
use morgenblau.Common.{
  ℕ, ◌≡◌, refl, some_inj, Option, none, some, Bool, true, false, ◌&&◌, if◌then◌else◌, keep_if, not,
  List, [], ◌∷◌, String, ◌==◌, Assoc, lookup, insert, lookup-insert, any, In, ◌⊎◌, str_lt,
}
use morgenblau.Sync.Collection.{DesiredRow, ReconcilePass, Tx, reconcile_collection}
use morgenblau.Sync.Collection.Loops.{Writes}
use morgenblau.Sync.Collection.Merge.{find_row}
use morgenblau.Sync.Collection.Outcome.{PassLaws, SnapshotLaws, Outcome, reconcile_outcome}
use morgenblau.Sync.Table.{rows, delete_row, delete_row-Deletes}
use morgenblau.Sync.Sidecars.{canonical_by_key, DeleteRecord}
use morgenblau.Sync.Sidecars.Choice.{canonical_is_oldest}
use morgenblau.Sync.Sidecars.Cleanup.{names}

-- A table whose rows are their rkeys: "a" is stale, "b" was added during the listing, "c" is new.
abbrev listed : DesiredRow (Assoc String)
listed = record { rkey = "c"; write = λ q. some (insert "c" "c" q) }

abbrev pass : ReconcilePass String (Assoc String)
pass = record {
  snapshot_at = 5;
  snapshot = λ q. some (rows q);
  baseline = "a" ∷ [];
  rkey_of = λ row. row;
  updated_at_of = λ row. "";
  changed_since_snapshot = λ current base. false;
  desired = listed ∷ [];
  delete_row = delete_row;
  delete_first = true;
}

abbrev store : Assoc String
store = ("a", "a") ∷ ("b", "b") ∷ []

abbrev view : Assoc String → String → Option String
view q k = lookup k q

abbrev row : DesiredRow (Assoc String) → Option String → String
row d old = d.rkey

listed-Writes : Writes view row listed
listed-Writes j q q' h = rw (← some_inj h) (lookup-insert "c" j "c" q)

laws : PassLaws pass view row
laws = record {
  deletes = delete_row-Deletes;
  writes = (listed-Writes, tt);
  distinct = (tt, tt);
  distinct_baseline = (tt, tt);
}

store_view : (k : String) → find_row (λ r. r) k (rows store) ≡ lookup k store
unfolding find_row lookup
store_view k = refl

snapshots : SnapshotLaws pass view store
snapshots = record {
  rows_distinct = λ local read. rw (← some_inj read) ((refl, tt), (tt, tt));
  rows_complete = λ local read k. rw (← some_inj read) (store_view k);
}

abbrev commits : Tx
commits = record { begins = true; commits = true }

reconcile_outcome_example :
    Outcome (λ t. none) pass view row store (reconcile_collection (λ t. none) commits pass store)
reconcile_outcome_example = reconcile_outcome (λ t. none) pass view row laws store snapshots commits

abbrev sidecars : List (String × String)
sidecars = ("pub", "1") ∷ ("pub", "2") ∷ ("gone", "3") ∷ []

abbrev publications : Assoc ℕ
publications = ("pub", 0) ∷ []

-- A PDS as the rkeys of its records, which refuses to delete "3".
abbrev holds : String → List String → Bool
holds k p = names k p

abbrev delete_record : DeleteRecord (List String)
delete_record k p = if k == "3" then (false, p) else (true, keep_if (λ j. not (j == k)) p)

canonical_is_oldest_example :
    ((r : String × String) × (lookup "pub" (canonical_by_key (λ r. r.0) (λ r. r.1) sidecars)
        ≡ some r)
      × (any (λ s. s.0 == "pub" && str_lt s.1 r.1) sidecars ≡ false)
      × In r sidecars
      × ((r.0 == "pub") ≡ true))
    ⊎ ((lookup "pub" (canonical_by_key (λ r. r.0) (λ r. r.1) sidecars) ≡ none)
        × (any (λ s. s.0 == "pub") sidecars ≡ false))
canonical_is_oldest_example = canonical_is_oldest (λ r. r.0) (λ r. r.1) "pub" sidecars
