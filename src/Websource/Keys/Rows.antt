-- ===== src/Websource/Keys/Rows.antt =====
-- Ids and listing keys in the table of web sources under the statements that write it:
-- app/internal/database/queries/web_sources.sql.
use morgenblau.Common.{
  ◌≡◌, refl, ap, Option, none, some, some_inj, Bool, true, false, ◌&&◌, not, List, [], ◌∷◌, String,
  ◌==◌, eq_iff, arith, any, Bool-cases, inl, inr, if◌then◌else◌,
}
use morgenblau.Websource.{WebSource}
use morgenblau.Websource.Store.{update_rows}
use morgenblau.Websource.Keys.{has_id, has_key}

-- PRIMARY KEY (id) and UNIQUE (listing_key)
unfoldable pub rows_distinct : List WebSource → Bool
rows_distinct [] = true
rows_distinct (row ∷ rows) =
    not (has_id row.id rows) && not (has_key row.listing_key rows) && rows_distinct rows

abbrev pub has_row : String → String → List WebSource → Bool
has_row id key rows = any (λ row. row.id == id && row.listing_key == key) rows

-- The id of the source with this key.
unfoldable pub owner : String → List WebSource → Option String
owner key [] = none
owner key (row ∷ rows) =
    let rest = owner key rows in if row.listing_key == key then some row.id else rest

pub owner_absent :
    (key : String) (rows : List WebSource) → has_key key rows ≡ false → owner key rows ≡ none
unfolding owner
owner_absent key [] h = refl
owner_absent key (row ∷ rows) h = ground (arith, owner_absent key rows)

pub owner_absent_iff :
    (key : String) (rows : List WebSource) → owner key rows ≡ none → has_key key rows ≡ false
unfolding owner
owner_absent_iff key [] h = refl
owner_absent_iff key (row ∷ rows) h = ground (arith, owner_absent_iff key rows)

pub owner-has_row :
    (key id : String) (rows : List WebSource)
    → owner key rows ≡ some id
    → has_row id key rows ≡ true
unfolding owner
owner-has_row key id [] h = cc
owner-has_row key id (row ∷ rows) h = elim (Bool-cases (row.listing_key == key)) [
  | inl own ↦ let same = (eq_iff row.id id).1 (some_inj (rw own at h)) in rw (own, same) refl
  | inr other ↦ ground (arith, owner-has_row key id rows (rw other at h))
]

pub has_row-has_id :
    (id key : String) (rows : List WebSource) → has_row id key rows ≡ true → has_id id rows ≡ true
has_row-has_id id key [] h = h
has_row-has_id id key (row ∷ rows) h = ground (arith, has_row-has_id id key rows)

pub has_row-has_key :
    (id key : String) (rows : List WebSource) → has_row id key rows ≡ true → has_key key rows ≡ true
has_row-has_key id key [] h = h
has_row-has_key id key (row ∷ rows) h = ground (arith, has_row-has_key id key rows)

-- A source has one key.
pub has_row_unique :
    (id key other : String) (rows : List WebSource)
    → rows_distinct rows ≡ true
    → has_row id key rows ≡ true
    → has_row id other rows ≡ true
    → key ≡ other
unfolding rows_distinct
has_row_unique id key other [] d h h' = cc
has_row_unique id key other (row ∷ rows) d h h' = ground (
  arith,
  has_row_unique id key other rows,
  has_row-has_id id key rows,
  has_row-has_id id other rows,
  eq_iff row.id id,
  eq_iff row.listing_key key,
  eq_iff row.listing_key other,
)

-- An update that leaves ids and keys.
module _ (test : WebSource → Bool) (f : WebSource → WebSource)
    (same_id : (r : WebSource) → (f r).id ≡ r.id)
    (same_key : (r : WebSource) → (f r).listing_key ≡ r.listing_key) where
  updated_same :
      (row : WebSource)
      → ((if test row then f row else row).id ≡ row.id)
        × ((if test row then f row else row).listing_key ≡ row.listing_key)
  updated_same row = elim (Bool-cases (test row)) [
    | inl e ↦ rw e (same_id row, same_key row)
    | inr e ↦ rw e (refl, refl)
  ]

  pub has_id-update :
      (id : String) (rows : List WebSource) → has_id id (update_rows test f rows) ≡ has_id id rows
  has_id-update id [] = refl
  has_id-update id (row ∷ rows) = rw ((updated_same row).0, has_id-update id rows) refl

  pub has_key-update :
      (key : String) (rows : List WebSource)
      → has_key key (update_rows test f rows) ≡ has_key key rows
  has_key-update key [] = refl
  has_key-update key (row ∷ rows) = rw ((updated_same row).1, has_key-update key rows) refl

  pub has_row-update :
      (id key : String) (rows : List WebSource)
      → has_row id key (update_rows test f rows) ≡ has_row id key rows
  has_row-update id key [] = refl
  has_row-update id key (row ∷ rows) =
      rw ((updated_same row).0, (updated_same row).1, has_row-update id key rows) refl

  pub owner-update :
      (key : String) (rows : List WebSource) → owner key (update_rows test f rows) ≡ owner key rows
  unfolding owner
  owner-update key [] = refl
  owner-update key (row ∷ rows) =
      rw ((updated_same row).0, (updated_same row).1, owner-update key rows) refl

  pub rows_distinct-update :
      (rows : List WebSource) → rows_distinct (update_rows test f rows) ≡ rows_distinct rows
  unfolding rows_distinct
  rows_distinct-update [] = refl
  rows_distinct-update (row ∷ rows) =
      rw ((updated_same row).0, (updated_same row).1, rows_distinct-update rows)
        (rw (has_id-update row.id rows, has_key-update row.listing_key rows) refl)

pub has_row-owner :
    (id key : String) (rows : List WebSource)
    → rows_distinct rows ≡ true
    → has_row id key rows ≡ true
    → owner key rows ≡ some id
unfolding rows_distinct owner
has_row-owner id key [] d h = cc
has_row-owner id key (row ∷ rows) d h = elim (Bool-cases (row.listing_key == key)) [
  | inl own ↦
      let clash = has_row-has_key id key rows in
      let free : has_key key rows ≡ false =
        rw (← (eq_iff row.listing_key key).0 own) (ground arith) in
      let itself : (row.id == id) ≡ true = ground (arith, clash) in
      rw own (ap some ((eq_iff row.id id).0 itself))
  | inr other ↦ rw other (has_row-owner id key rows (ground arith) (ground arith))
]
