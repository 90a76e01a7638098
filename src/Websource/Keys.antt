-- ===== src/Websource/Keys.antt =====
-- Which source a listing key finds: storedSource, addAlias and rekey of
-- app/internal/websource/service.go, with GetWebSourceByKey and the statements on aliases.
pub mod Rows
pub mod Moves
pub mod Aliases
pub mod Stable
pub mod Rekeyed
pub mod Kept
pub mod Landing
use morgenblau.Common.{
  ℕ, Option, none, some, Bool, true, false, ◌&&◌, ◌||◌, not, List, [], ◌∷◌, String, ◌==◌,
  if◌then◌else◌, any, Assoc, lookup, insert, remove,
}
use morgenblau.Websource.{WebSource}
use morgenblau.Websource.Store.{
  Store, Statement, get_source, get_by_key, delete_alias, insert_alias, rekey_source, ◌>>=◌,
  when_works, update_rows, find_row,
}

abbrev pub has_id : String → List WebSource → Bool
has_id id rows = any (λ row. row.id == id) rows

abbrev pub has_key : String → List WebSource → Bool
has_key key rows = any (λ row. row.listing_key == key) rows

-- GetWebSource
unfoldable pub source_by_id : String → Store → Option WebSource
source_by_id id q = find_row (λ row. row.id == id) q.sources

aliased : Option String → Store → Option WebSource
aliased none q = none
aliased (some id) q = find_row (λ row. row.id == id) q.sources

own_or_aliased : Option WebSource → String → Store → Option WebSource
own_or_aliased (some row) key q = some row
own_or_aliased none key q = aliased (lookup key q.aliases) q

-- GetWebSourceByKey: the source keyed by it, else the source that it is an alias of.
unfoldable pub source_by_key : String → Store → Option WebSource
unfolding own_or_aliased aliased
source_by_key key q = own_or_aliased (find_row (λ row. row.listing_key == key) q.sources) key q

abbrev pub is_alias_of : Option String → String → Bool
is_alias_of none id = false
is_alias_of (some other) id = other == id

abbrev pub is_some : {A : Type 0} → Option A → Bool
is_some none = false
is_some (some a) = true

-- INSERT ... ON CONFLICT (listing_key) DO NOTHING
unfoldable pub put_alias : String → String → Assoc String → Assoc String
put_alias key id aliases = if is_some (lookup key aliases) then aliases else insert key id aliases

unfoldable pub drop_alias : String → String → Assoc String → Assoc String
drop_alias key id aliases =
    if is_alias_of (lookup key aliases) id then remove key aliases else aliases

abbrev pub with_key : String → WebSource → WebSource
with_key key row = record row { listing_key = key }

-- The statement fails on a key that another source has.
unfoldable pub move_key : String → String → List WebSource → Option (List WebSource)
move_key id key rows =
    if any (λ row. row.listing_key == key && not (row.id == id)) rows
    then none
    else some (update_rows (λ row. row.id == id) (with_key key) rows)

is_other : Option WebSource → String → Bool
is_other none id = false
is_other (some owner) id = not (owner.id == id)

module _ (works : Statement → Bool) where
  unfoldable pub add_alias : String → WebSource → Store → Option Store
  add_alias key row q =
      if key == row.listing_key
      then some q
      else when_works (works insert_alias) (record q { aliases = put_alias key row.id q.aliases })

  moved : WebSource → String → Store → Option Store
  moved row key q =
      when_works (works delete_alias && works rekey_source && works insert_alias)
        (move_key row.id key q.sources)
      >>= λ rows. rows >>= λ sources. some (record q {
        sources = sources;
        aliases = put_alias row.listing_key row.id (drop_alias key row.id q.aliases);
      })

  unfoldable pub rekey : WebSource → String → Store → Option Store
  unfolding moved is_other
  rekey row key q =
      if key == row.listing_key
      then some q
      else (when_works (works (get_by_key key)) (source_by_key key q) >>= λ owner.
          (if is_other owner row.id then some q else moved row key q))

  -- The source that a setup lands on. The outer `none` is a failed query.
  stored_by_key : String → String → Store → Option WebSource → Option (Option WebSource)
  stored_by_key pasted_key key q (some row) = some (some row)
  stored_by_key pasted_key key q none =
      if key == pasted_key
      then some none
      else when_works (works (get_by_key key)) (source_by_key key q)

  by_keys : String → String → Store → Option (Option WebSource)
  by_keys pasted_key key q =
      when_works (works (get_by_key pasted_key)) (source_by_key pasted_key q)
      >>= stored_by_key pasted_key key q

  replaced_or : String → String → Store → Option WebSource → Option (Option WebSource)
  replaced_or pasted_key key q (some row) = some (some row)
  replaced_or pasted_key key q none = by_keys pasted_key key q

  unfoldable pub stored_source : String → String → String → Store → Option (Option WebSource)
  unfolding by_keys stored_by_key replaced_or
  stored_source replaces pasted_key key q =
      if replaces == ""
      then by_keys pasted_key key q
      else (when_works (works get_source) (source_by_id replaces q)
          >>= replaced_or pasted_key key q)
