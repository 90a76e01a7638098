-- ===== src/Websource/Keys/Moves.antt =====
-- A source's move to another listing key: the statement RekeyWebSource of
-- app/internal/database/queries/web_sources.sql.
use morgenblau.Common.{
  ◌≡◌, refl, ap, some, some_inj, true, false, List, [], ◌∷◌, String, ◌==◌, eq_iff, eq_refl, arith,
  Bool-cases, inl, inr,
}
use morgenblau.Websource.{WebSource}
use morgenblau.Websource.Store.{update_rows}
use morgenblau.Websource.Keys.{has_id, has_key, with_key}
use morgenblau.Websource.Keys.Rows.{rows_distinct, has_row, owner, has_row-has_id, has_row-has_key}

module _ (id key : String) where
  abbrev pub rekeyed : List WebSource → List WebSource
  rekeyed rows = update_rows (λ row. row.id == id) (with_key key) rows

  pub has_id-rekeyed :
      (i : String) (rows : List WebSource) → has_id i (rekeyed rows) ≡ has_id i rows
  has_id-rekeyed i [] = refl
  has_id-rekeyed i (row ∷ rows) = elim (Bool-cases (row.id == id)) [
    | inl e ↦ rw (e, has_id-rekeyed i rows) refl
    | inr e ↦ rw (e, has_id-rekeyed i rows) refl
  ]

  -- No other key comes into use.
  pub has_key-rekeyed :
      (k : String) (rows : List WebSource)
      → (key == k) ≡ false
      → has_key k rows ≡ false
      → has_key k (rekeyed rows) ≡ false
  has_key-rekeyed k [] other h = refl
  has_key-rekeyed k (row ∷ rows) other h = elim (Bool-cases (row.id == id)) [
    | inl e ↦ rw (e, other) (has_key-rekeyed k rows other (ground arith))
    | inr e ↦ rw e (ground (arith, has_key-rekeyed k rows other))
  ]

  -- Without the source nothing changes.
  rekeyed_absent : (rows : List WebSource) → has_id id rows ≡ false → rekeyed rows ≡ rows
  rekeyed_absent [] h = refl
  rekeyed_absent (row ∷ rows) h = elim (Bool-cases (row.id == id)) [
    | inl e ↦ absurd (ground arith)
    | inr e ↦ rw e (ap (λ t. row ∷ t) (rekeyed_absent rows (ground arith)))
  ]

  pub owner_moved :
      (rows : List WebSource)
      → has_id id rows ≡ true
      → has_key key rows ≡ false
      → owner key (rekeyed rows) ≡ some id
  unfolding owner
  owner_moved [] h free = cc
  owner_moved (row ∷ rows) h free = elim (Bool-cases (row.id == id)) [
    | inl e ↦ rw (e, eq_refl key, (eq_iff row.id id).0 e) refl
    | inr e ↦
        let other : (row.listing_key == key) ≡ false = ground arith in
        rw (e, other) (owner_moved rows (ground arith) (ground arith))
  ]

  pub owner_unmoved :
      (k i : String) (rows : List WebSource)
      → (key == k) ≡ false
      → (i == id) ≡ false
      → owner k rows ≡ some i
      → owner k (rekeyed rows) ≡ some i
  unfolding owner
  owner_unmoved k i [] other else_ h = h
  owner_unmoved k i (row ∷ rows) other else_ h = elim (Bool-cases (row.id == id)) [
    | inl e ↦ elim (Bool-cases (row.listing_key == k)) [
      | inl own ↦
          let same = some_inj (rw own at h) in let e' : (i == id) ≡ true = rw (← same) e in cc
      | inr own ↦ rw (e, other) (owner_unmoved k i rows other else_ (rw own at h))
    ]
    | inr e ↦ elim (Bool-cases (row.listing_key == k)) [
      | inl own ↦ rw (e, own) (rw own at h)
      | inr own ↦ rw (e, own) (owner_unmoved k i rows other else_ (rw own at h))
    ]
  ]

  pub rows_distinct-rekeyed :
      (rows : List WebSource)
      → rows_distinct rows ≡ true
      → has_key key rows ≡ false
      → rows_distinct (rekeyed rows) ≡ true
  unfolding rows_distinct
  rows_distinct-rekeyed [] d free = refl
  rows_distinct-rekeyed (row ∷ rows) d free = elim (Bool-cases (row.id == id)) [
    | inl e ↦
        let gone : has_id id rows ≡ false = rw (← (eq_iff row.id id).0 e) (ground arith) in
        let same = rekeyed_absent rows gone in rw (e, same) (ground arith)
    | inr e ↦
        let other : (key == row.listing_key) ≡ false =
          ground (arith, eq_iff key row.listing_key, eq_iff row.listing_key key) in
        rw
          (e, has_id-rekeyed row.id rows, has_key-rekeyed row.listing_key rows other (ground arith))
          (ground (arith, rows_distinct-rekeyed rows))
  ]

  -- The old key is free.
  pub old_key_free :
      (old : String) (rows : List WebSource)
      → rows_distinct rows ≡ true
      → has_row id old rows ≡ true
      → (key == old) ≡ false
      → has_key old (rekeyed rows) ≡ false
  unfolding rows_distinct
  old_key_free old [] d h other = refl
  old_key_free old (row ∷ rows) d h other = elim (Bool-cases (row.id == id)) [
    | inl e ↦
        let gone : has_id id rows ≡ false = rw (← (eq_iff row.id id).0 e) (ground arith) in
        let own : (row.listing_key == old) ≡ true = ground (arith, has_row-has_id id old rows) in
        let free : has_key old rows ≡ false =
          rw (← (eq_iff row.listing_key old).0 own) (ground arith) in
        rw (e, other, rekeyed_absent rows gone) free
    | inr e ↦
        let there : has_row id old rows ≡ true = ground arith in
        let rest = old_key_free old rows (ground arith) there other in
        rw e (ground (arith, has_row-has_key id old rows, eq_iff row.listing_key old))
  ]
