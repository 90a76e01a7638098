-- ===== src/Websource/Keys/Stable.antt =====
-- Listing keys keep finding the source that they find: addAlias and rekey of
-- app/internal/websource/service.go.
use morgenblau.Common.{
  ◌≡◌, refl, ap, ◌∙◌, Option, none, some, Bool, true, false, ◌&&◌, List, [], ◌∷◌, String, ◌==◌,
  eq_iff, arith, Bool-cases, Option-cases, inl, inr, lookup,
}
use morgenblau.Websource.{WebSource}
use morgenblau.Websource.Store.{Store, find_row}
use morgenblau.Websource.Keys.{has_id, has_key, source_by_key, own_or_aliased, aliased, put_alias}
use morgenblau.Websource.Keys.Rows.{rows_distinct, owner}
use morgenblau.Websource.Keys.Aliases.{
  aliases_fit, lookup-fits, put_alias-fits, lookup-put_alias_old,
}

-- Ids and keys are unique, aliases point to sources, and no alias is a source's own key.
unfoldable pub keyed : Store → Bool
keyed q = rows_distinct q.sources && aliases_fit q.sources q.aliases

abbrev pub id_of : Option WebSource → Option String
id_of none = none
id_of (some row) = some row.id

abbrev pub or_else : Option String → Option String → Option String
or_else none b = b
or_else (some a) b = some a

abbrev pub found : String → Store → Option String
found key q = or_else (owner key q.sources) (lookup key q.aliases)

pub keyed-distinct : (q : Store) → keyed q ≡ true → rows_distinct q.sources ≡ true
unfolding keyed
keyed-distinct q h = ground arith

pub keyed-fit : (q : Store) → keyed q ≡ true → aliases_fit q.sources q.aliases ≡ true
unfolding keyed
keyed-fit q h = ground arith

find_row-owner :
    (key : String) (rows : List WebSource)
    → id_of (find_row (λ row. row.listing_key == key) rows) ≡ owner key rows
unfolding owner
find_row-owner key [] = refl
find_row-owner key (row ∷ rows) = elim (Bool-cases (row.listing_key == key)) [
  | inl own ↦ rw own refl
  | inr other ↦ rw other (find_row-owner key rows)
]

find_row_by_id :
    (id : String) (rows : List WebSource)
    → has_id id rows ≡ true
    → id_of (find_row (λ row. row.id == id) rows) ≡ some id
find_row_by_id id [] h = cc
find_row_by_id id (row ∷ rows) h = elim (Bool-cases (row.id == id)) [
  | inl own ↦ rw own (ap some ((eq_iff row.id id).0 own))
  | inr other ↦ rw other (find_row_by_id id rows (rw other at h))
]

aliased_found :
    (q : Store) (key : String) (o : Option String)
    → keyed q ≡ true
    → lookup key q.aliases ≡ o
    → id_of (aliased o q) ≡ o
unfolding aliased
aliased_found q key none h e = refl
aliased_found q key (some id) h e =
    find_row_by_id id q.sources (lookup-fits q.sources q.aliases key id (keyed-fit q h) e).0

own_or_aliased_found :
    (q : Store) (key : String) (o : Option WebSource)
    → keyed q ≡ true
    → id_of (own_or_aliased o key q) ≡ or_else (id_of o) (lookup key q.aliases)
unfolding own_or_aliased
own_or_aliased_found q key none h = aliased_found q key (lookup key q.aliases) h refl
own_or_aliased_found q key (some row) h = refl

pub source_by_key-found :
    (q : Store) (key : String) → keyed q ≡ true → id_of (source_by_key key q) ≡ found key q
unfolding source_by_key
source_by_key-found q key h =
    own_or_aliased_found q key (find_row (λ row. row.listing_key == key) q.sources) h
    ∙ ap (λ o. or_else o (lookup key q.aliases)) (find_row-owner key q.sources)

-- Keys stay in order, and a key that finds a source finds it still.
abbrev pub Keeps : Store → Store → Type 0
Keeps q r = (keyed r ≡ true) × ((k i : String) → found k q ≡ some i → found k r ≡ some i)

pub found_alias :
    (k i : String) (q : Store)
    → owner k q.sources ≡ none
    → found k q ≡ some i
    → lookup k q.aliases ≡ some i
found_alias k i q absent h = rw absent at h

pub put_alias-Keeps :
    (key : String) (row : WebSource) (q : Store)
    → keyed q ≡ true
    → has_id row.id q.sources ≡ true
    → has_key key q.sources ≡ false
    → Keeps q (record q { aliases = put_alias key row.id q.aliases })
unfolding keyed
put_alias-Keeps key row q h there free = (
  ground (arith, put_alias-fits q.sources q.aliases key row.id (keyed-fit q h) there free),
  λ k i e. elim (Option-cases (owner k q.sources)) [
    | inr (o, own) ↦ rw own (rw own at e)
    | inl absent ↦
        rw absent (lookup-put_alias_old key row.id k i q.aliases (found_alias k i q absent e))
  ],
)
