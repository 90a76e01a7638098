-- ===== src/Sync/Collection/Merge.antt =====
-- A reconcile pass of reconcile.go is a three-way merge, row by row.
use morgenblau.Common.{
  ℕ, ◌≡◌, refl, ap, ◌∙◌, sym, Option, none, some, some_inj, Bool, true, false, ◌&&◌, not, List, [],
  ◌∷◌, String, arith, ◌==◌, if◌then◌else◌, eq_iff, map, keep_if, All, Bool-cases, Option-cases, inl,
  inr, Assoc, lookup, insert, lookup-insert,
}
use morgenblau.Sync.Collection.{
  ok, DesiredRow, ReconcilePass, delete_stale, upsert_desired, is_changed, changed_during_listing,
  deleted_during_listing, index, is_none, contains, rkeys_of, in_order, spared, left_alone,
}
use morgenblau.Sync.Collection.Loops.{
  Deletes, Writes, stale, find, Distinct, written, bind-ok, delete_stale-view, upsert_desired-view,
}

module _ {L : Type 0} (rkey_of : L → String) where
  -- The row that a snapshot has under an rkey.
  unfoldable pub find_row : String → List L → Option L
  find_row k [] = none
  find_row k (row ∷ rows) = if rkey_of row == k then some row else find_row k rows

  abbrev NoRow : String → List L → Type 0
  NoRow k [] = Unit
  NoRow k (row ∷ rows) = ((rkey_of row == k) ≡ false) × NoRow k rows

  -- The rkey is a primary key.
  abbrev pub DistinctRows : List L → Type 0
  DistinctRows [] = Unit
  DistinctRows (row ∷ rows) = NoRow (rkey_of row) rows × DistinctRows rows

  find_row-NoRow : (k : String) (rows : List L) → NoRow k rows → find_row k rows ≡ none
  unfolding find_row
  find_row-NoRow k [] h = refl
  find_row-NoRow k (row ∷ rows) h = rw (h.0) (find_row-NoRow k rows h.1)

  abbrev first_of_two : Option L → Option L → Option L
  first_of_two (some r) other = some r
  first_of_two none other = other

  index_lem :
      (k : String) (rows : List L) (m : Assoc L)
      → DistinctRows rows
      → lookup k (index rkey_of rows m) ≡ first_of_two (find_row k rows) (lookup k m)
  unfolding index find_row
  index_lem k [] m d = refl
  index_lem k (row ∷ rows) m d = elim (Bool-cases (rkey_of row == k)) [
    | inl hit ↦
        let absent : find_row k rows ≡ none =
          find_row-NoRow k rows (rw ((eq_iff (rkey_of row) k).0 hit) at d.0) in
        rw (index_lem k rows (insert (rkey_of row) row m) d.1, absent, lookup-insert, hit)
    | inr miss ↦ rw (index_lem k rows (insert (rkey_of row) row m) d.1, lookup-insert, miss)
  ]

  find_row-rkey_of : (k : String) (rows : List L) (c : L) → find_row k rows ≡ some c → rkey_of c ≡ k
  unfolding find_row
  find_row-rkey_of k [] c h = cc
  find_row-rkey_of k (row ∷ rows) c h = elim (Bool-cases (rkey_of row == k)) [
    | inl hit ↦
        let same : row ≡ c = some_inj (rw hit at h) in
        ap rkey_of (sym same) ∙ (eq_iff (rkey_of row) k).0 hit
    | inr miss ↦ find_row-rkey_of k rows c (rw miss at h)
  ]

  -- Some row under the rkey passes the test.
  abbrev test_row : (L → Bool) → Option L → Bool
  test_row test none = false
  test_row test (some r) = test r

  kept_lem :
      (test : L → Bool) (k : String) (rows : List L)
      → DistinctRows rows
      → contains (map rkey_of (keep_if test rows)) k ≡ test_row test (find_row k rows)
  unfolding find_row
  kept_lem test k [] d = refl
  kept_lem test k (row ∷ rows) d = elim (Bool-cases (rkey_of row == k)) [
    | inl hit ↦
        let absent : find_row k rows ≡ none =
          find_row-NoRow k rows (rw ((eq_iff (rkey_of row) k).0 hit) at d.0) in
        ground (arith, kept_lem test k rows d.1, absent, hit)
    | inr miss ↦ ground (arith, kept_lem test k rows d.1, miss)
  ]

  stale_lem :
      (spare : String → Bool) (k : String) (rows : List L)
      → stale rkey_of spare k rows ≡ (not (is_none (find_row k rows)) && not (spare k))
  unfolding find_row
  stale_lem spare k [] = refl
  stale_lem spare k (row ∷ rows) = ground (arith, stale_lem spare k rows)

  mapped_lem :
      (k : String) (rows : List L) → contains (map rkey_of rows) k ≡ not (is_none (find_row k rows))
  unfolding find_row
  mapped_lem k [] = refl
  mapped_lem k (row ∷ rows) = ground (arith, mapped_lem k rows)

filtered_lem :
    (test : String → Bool) (k : String) (keys : List String)
    → contains (keep_if test keys) k ≡ (contains keys k && test k)
filtered_lem test k [] = refl
filtered_lem test k (j ∷ keys) = ground (arith, filtered_lem test k keys, eq_iff j k)

listed_lem :
    {Q : Type 0} (k : String) (ds : List (DesiredRow Q))
    → contains (rkeys_of ds) k ≡ not (is_none (find k ds))
unfolding find
listed_lem k [] = refl
listed_lem k (d ∷ ds) = ground (arith, listed_lem k ds)

-- What a pass makes of one rkey: a row written or deleted since the baseline was read stands as it
-- is, and any other becomes what the PDS lists.
abbrev pub three_way :
    {L Q : Type 0}
    → (L → L → Bool)
    → (DesiredRow Q → Option L → L)
    → Option L
    → Option L
    → Option (DesiredRow Q)
    → Option L
three_way changed row none none listed = written row listed none
three_way changed row (some base) none listed = none
three_way changed row none (some cur) listed = some cur
three_way changed row (some base) (some cur) none = if changed cur base then some cur else none
three_way changed row (some base) (some cur) (some d) =
    if changed cur base then some cur else some (row d (some cur))

module _ {L Q : Type 0} (parse : String → Option ℕ) (p : ReconcilePass L Q) where
  abbrev pub changed_from : L → L → Bool
  changed_from cur base = is_changed parse p (some base) cur

module _ {L Q : Type 0} (parse : String → Option ℕ) (p : ReconcilePass L Q)
    (view : Q → String → Option L) (row : DesiredRow Q → Option L → L)
    (deletes : Deletes view p.delete_row) (writes : All (Writes view row) p.desired)
    (distinct : Distinct p.desired) (distinct_baseline : DistinctRows p.rkey_of p.baseline) where
  abbrev row_changed : String → Option L → Bool
  row_changed k none = false
  row_changed k (some c) = is_changed parse p (find_row p.rkey_of k p.baseline) c

  baseline_lem :
      (k : String) → lookup k (index p.rkey_of p.baseline []) ≡ find_row p.rkey_of k p.baseline
  unfolding lookup
  baseline_lem k = index_lem p.rkey_of k p.baseline [] distinct_baseline ∙ ground arith

  module _ (k : String) (local : List L) (d : DistinctRows p.rkey_of local) where
    changed_lem :
        contains (changed_during_listing parse p local) k
        ≡ row_changed k (find_row p.rkey_of k local)
    unfolding changed_during_listing
    changed_lem = elim (Option-cases (find_row p.rkey_of k local)) [
      | inl e ↦ rw (kept_lem p.rkey_of _ k local d, e)
      | inr (c, e) ↦ rw (
        kept_lem p.rkey_of _ k local d,
        e,
        find_row-rkey_of p.rkey_of k local c e,
        baseline_lem k,
      )
    ]

    deleted_lem :
        contains (deleted_during_listing parse p local) k
        ≡ (not (is_none (find_row p.rkey_of k p.baseline)) && is_none (find_row p.rkey_of k local))
    unfolding deleted_during_listing
    deleted_lem =
        rw (filtered_lem _ k (map p.rkey_of p.baseline), mapped_lem p.rkey_of k p.baseline)
          (rw (index_lem p.rkey_of k local [] d) (unfold lookup in ground arith))

    module _ (q q' : Q) (now : find_row p.rkey_of k local ≡ view q k) where
      abbrev merged : Option L
      merged =
          three_way (changed_from parse p) row (find_row p.rkey_of k p.baseline) (view q k)
            (find k p.desired)

      -- Both orders of the two loops give the same rows.
      pub in_order-view :
          (delete_first : Bool)
          → in_order delete_first
              (delete_stale p (spared parse p local) local)
              (upsert_desired (left_alone parse p local) p.desired)
              q
            ≡ ok q'
          → view q' k ≡ merged
      unfolding in_order is_changed
      in_order-view true h =
          let (q1, deleted, upserted) =
            bind-ok (delete_stale p (spared parse p local) local q) _ h in
          let e1 = delete_stale-view view p deletes _ k local q q1 deleted in
          let e2 = upsert_desired-view view row _ k p.desired q1 q' writes distinct upserted in
          rw
            (
              e2,
              e1,
              stale_lem p.rkey_of (spared parse p local) k local,
              changed_lem,
              deleted_lem,
              listed_lem,
              now,
            )
            (ground arith)
      in_order-view false h =
          let (q1, upserted, deleted) =
            bind-ok (upsert_desired (left_alone parse p local) p.desired q) _ h in
          let e1 = upsert_desired-view view row _ k p.desired q q1 writes distinct upserted in
          let e2 = delete_stale-view view p deletes _ k local q1 q' deleted in
          rw
            (
              e2,
              e1,
              stale_lem p.rkey_of (spared parse p local) k local,
              changed_lem,
              deleted_lem,
              listed_lem,
              now,
            )
            (ground arith)
