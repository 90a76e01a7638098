-- ===== src/Sync/Table.antt =====
-- One user's rows of a table that sync writes: a primary key (did, rkey) and a second unique column,
-- as the migrations declare them. A statement that breaks the unique index fails.
use morgenblau.Common.{
  ◌≡◌, refl, Option, none, some, Bool, true, false, ◌&&◌, not, List, [], ◌∷◌, String, ◌==◌,
  if◌then◌else◌, Assoc, lookup, insert, remove, lookup-insert, lookup-remove, any, map, some_inj,
  Bool-cases, inl, inr,
}
use morgenblau.Sync.Collection.Loops.{Deletes}

-- Go's *string of a string that may be empty.
abbrev pub nil_if_empty : String → Option String
nil_if_empty s = if s == "" then none else some s

-- app/internal/tags/tags.go; json.Marshal is a parameter, and cannot fail on strings.
abbrev pub marshal_tags : (List String → String) → List String → Option String
marshal_tags to_json [] = none
marshal_tags to_json (t ∷ ts) = some (to_json (t ∷ ts))

abbrev pub string_changed : Option String → Option String → Bool
string_changed none none = false
string_changed none (some b) = true
string_changed (some a) none = true
string_changed (some a) (some b) = not (a == b)

-- How the database answers the queries inside one transaction, beyond what the constraints say: the
-- read of the rows, and the delete and the upserts of each rkey.
pub record Answers : Type 0 where
  pub reads : Bool
  pub deletes : String → Bool
  pub writes : String → Bool

-- A query that the database answers or fails.
abbrev pub query : {A : Type 0} → Bool → Option A → Option A
query true result = result
query false result = none

module _ {R : Type 0} (unique : R → String) where
  -- Another row holds the value in the unique column.
  abbrev pub taken : String → String → Assoc R → Bool
  taken k v t = any (λ e. not (e.0 == k) && unique e.1 == v) t

  -- INSERT … ON CONFLICT (did, rkey) DO UPDATE: `fresh` is the inserted row, `update` what the
  -- clause makes of a row that is there.
  unfoldable pub upsert : String → R → (R → R) → Assoc R → Option (Assoc R)
  upsert k fresh update t =
      if taken k (unique fresh) t
      then none
      else some (insert k (elim (lookup k t) [ none ↦ fresh | some old ↦ update old ]) t)

  pub upsert-other :
      (k j : String) (fresh : R) (update : R → R) (t t' : Assoc R)
      → upsert j fresh update t ≡ some t'
      → (j == k) ≡ false
      → lookup k t' ≡ lookup k t
  unfolding upsert
  upsert-other k j fresh update t t' h other = elim (Bool-cases (taken j (unique fresh) t)) [
    | inl hit ↦ let h' = rw hit at h in cc
    | inr free ↦ rw (← some_inj (rw free at h), lookup-insert j k _ t, other) refl
  ]

module _ {R : Type 0} where
  -- SELECT … WHERE did = ?
  abbrev pub rows : Assoc R → List R
  rows t = map (λ e. e.1) t

  -- DELETE … WHERE did = ? AND rkey = ?
  abbrev pub delete_row : String → Assoc R → Option (Assoc R)
  delete_row k t = some (remove k t)

  pub delete_row-Deletes : Deletes (λ (t : Assoc R) k. lookup k t) delete_row
  delete_row-Deletes k j q q' h = rw (← some_inj h) (lookup-remove k j q)
