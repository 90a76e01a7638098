-- ===== src/Websource/Keys/Kept.antt =====
-- addAlias, rekey and storedSource of app/internal/websource/service.go on a store whose keys are in
-- order.
use morgenblau.Common.{
  ◌≡◌, refl, ap, ◌∙◌, Option, none, some, some_inj, Bool, true, false, ◌&&◌, not, List, [], ◌∷◌,
  String, ◌==◌, eq_iff, eq_refl, arith, any, Bool-cases, inl, inr, ◌⊎◌, lookup,
}
use morgenblau.Websource.{WebSource}
use morgenblau.Websource.Store.{
  Store, Statement, delete_alias, rekey_source, insert_alias, get_by_key, when_works, find_row,
}
use morgenblau.Websource.Store.Frame.{bind-some, when_works-some}
use morgenblau.Websource.Keys.{
  has_key, source_by_key, own_or_aliased, aliased, add_alias, rekey, moved, is_other, move_key,
  put_alias,
}
use morgenblau.Websource.Keys.Rows.{has_row, owner_absent, has_row-has_id, has_row-owner}
use morgenblau.Websource.Keys.Aliases.{lookup-put_alias, lookup-put_alias_old}
use morgenblau.Websource.Keys.Stable.{
  keyed, id_of, found, keyed-distinct, source_by_key-found, Keeps, put_alias-Keeps,
}
use morgenblau.Websource.Keys.Rekeyed.{own_or_free, alias_cases, moved_store-Keeps}

pub find_row-has_row :
    (test : WebSource → Bool) (rows : List WebSource) (row : WebSource)
    → find_row test rows ≡ some row
    → (has_row row.id row.listing_key rows ≡ true) × (test row ≡ true)
find_row-has_row test [] row h = cc
find_row-has_row test (r ∷ rows) row h = elim (Bool-cases (test r)) [
  | inl e ↦
      let same = some_inj (rw e at h) in rw (← same, eq_refl r.id, eq_refl r.listing_key) (refl, e)
  | inr e ↦
      let (there, passes) = find_row-has_row test rows row (rw e at h) in (ground arith, passes)
]

aliased-has_row :
    (q : Store) (o : Option String) (row : WebSource)
    → aliased o q ≡ some row
    → has_row row.id row.listing_key q.sources ≡ true
unfolding aliased
aliased-has_row q none row h = cc
aliased-has_row q (some id) row h = (find_row-has_row (λ r. r.id == id) q.sources row h).0

own_or_aliased-has_row :
    (q : Store) (key : String) (o : Option WebSource) (row : WebSource)
    → find_row (λ r. r.listing_key == key) q.sources ≡ o
    → own_or_aliased o key q ≡ some row
    → has_row row.id row.listing_key q.sources ≡ true
unfolding own_or_aliased
own_or_aliased-has_row q key none row e h = aliased-has_row q (lookup key q.aliases) row h
own_or_aliased-has_row q key (some r) row e h =
    (find_row-has_row (λ r. r.listing_key == key) q.sources row (e ∙ h)).0

pub source_by_key-has_row :
    (q : Store) (key : String) (row : WebSource)
    → source_by_key key q ≡ some row
    → has_row row.id row.listing_key q.sources ≡ true
unfolding source_by_key
source_by_key-has_row q key row h = own_or_aliased-has_row q key _ row refl h

found_other :
    (owner_ : Option WebSource) (id : String)
    → is_other owner_ id ≡ false
    → (id_of owner_ ≡ none) ⊎ (id_of owner_ ≡ some id)
unfolding is_other
found_other none id h = inl refl
found_other (some r) id h = inr (ap some ((eq_iff r.id id).0 (ground arith)))

pub Keeps-refl : (q : Store) → keyed q ≡ true → Keeps q q
Keeps-refl q h = (h, λ k i e. e)

pub Keeps-trans : (q r s : Store) → Keeps q r → Keeps r s → Keeps q s
Keeps-trans q r s (_, f) (h, g) = (h, λ k i e. g k i (f k i e))

module _ (works : Statement → Bool) where
  moved-Keeps :
      (row : WebSource) (key : String) (q r : Store)
      → keyed q ≡ true
      → has_row row.id row.listing_key q.sources ≡ true
      → (key == row.listing_key) ≡ false
      → is_other (source_by_key key q) row.id ≡ false
      → moved works row key q ≡ some r
      → Keeps q r
  unfolding moved move_key
  moved-Keeps row key q r h there other mine e =
      let finds = found_other (source_by_key key q) row.id mine in
      let finds' : (found key q ≡ none) ⊎ (found key q ≡ some row.id) =
        rw (source_by_key-found q key h) at finds in
      let free = own_or_free key row.id row.listing_key q h there other finds' in
      let alias = alias_cases key row.id q free finds' in
      let clash = any (λ o. o.listing_key == key && not (o.id == row.id)) q.sources in
      let to = move_key row.id key q.sources in
      let ready = works delete_alias && works rekey_source && works insert_alias in
      let (rows, asked, e1) = bind-some (when_works ready to) _ r e in
      let (sources, got, e2) = bind-some rows _ r e1 in
      let done : to ≡ some sources = when_works-some ready to rows asked ∙ got in
      elim (Bool-cases clash) [
        | inl bad ↦ let done' = rw bad at done in cc
        | inr fine ↦
            let same = some_inj (rw fine at done) in
            rw (← some_inj e2, ← same) (moved_store-Keeps key row q h there other free alias)
      ]

  pub rekey-Keeps :
      (row : WebSource) (key : String) (q r : Store)
      → keyed q ≡ true
      → has_row row.id row.listing_key q.sources ≡ true
      → rekey works row key q ≡ some r
      → Keeps q r
  unfolding rekey
  rekey-Keeps row key q r h there e = elim (Bool-cases (key == row.listing_key)) [
    | inl own ↦ rw (← some_inj (rw own at e)) (Keeps-refl q h)
    | inr other ↦
        let (found_, asked, e1) =
          bind-some (when_works (works (get_by_key key)) (source_by_key key q)) _ r
            (rw other at e) in
        let same = when_works-some (works (get_by_key key)) (source_by_key key q) found_ asked in
        elim (Bool-cases (is_other found_ row.id)) [
          | inl foreign ↦ rw (← some_inj (rw foreign at e1)) (Keeps-refl q h)
          | inr mine ↦ moved-Keeps row key q r h there other (rw same mine) (rw mine at e1)
        ]
  ]

  pub add_alias-Keeps :
      (key : String) (row : WebSource) (q r : Store)
      → keyed q ≡ true
      → has_row row.id row.listing_key q.sources ≡ true
      → (found key q ≡ none) ⊎ (found key q ≡ some row.id)
      → add_alias works key row q ≡ some r
      → Keeps q r
  unfolding add_alias
  add_alias-Keeps key row q r h there finds e = elim (Bool-cases (key == row.listing_key)) [
    | inl own ↦ rw (← some_inj (rw own at e)) (Keeps-refl q h)
    | inr other ↦
        let free = own_or_free key row.id row.listing_key q h there other finds in
        let same = when_works-some (works insert_alias) _ r (rw other at e) in
        rw (← same)
          (put_alias-Keeps key row q h (has_row-has_id row.id row.listing_key q.sources there) free)
  ]

put_alias-finds :
    (key id : String) (q : Store)
    → has_key key q.sources ≡ false
    → (lookup key q.aliases ≡ none) ⊎ (lookup key q.aliases ≡ some id)
    → found key (record q { aliases = put_alias key id q.aliases }) ≡ some id
put_alias-finds key id q free (inl absent) =
    rw (owner_absent key q.sources free, lookup-put_alias key id key q.aliases absent, eq_refl key)
      refl
put_alias-finds key id q free (inr own) =
    rw (owner_absent key q.sources free) (lookup-put_alias_old key id key id q.aliases own)

-- The key then finds the source.
pub add_alias-finds :
    (works : Statement → Bool) (key : String) (row : WebSource) (q r : Store)
    → keyed q ≡ true
    → has_row row.id row.listing_key q.sources ≡ true
    → (found key q ≡ none) ⊎ (found key q ≡ some row.id)
    → add_alias works key row q ≡ some r
    → found key r ≡ some row.id
unfolding add_alias
add_alias-finds works key row q r h there finds e = elim (Bool-cases (key == row.listing_key)) [
  | inl own ↦
      let owns = has_row-owner row.id row.listing_key q.sources (keyed-distinct q h) there in
      rw (← some_inj (rw own at e), (eq_iff key row.listing_key).0 own, owns) refl
  | inr other ↦
      let free = own_or_free key row.id row.listing_key q h there other finds in
      rw (← when_works-some (works insert_alias) _ r (rw other at e))
        (put_alias-finds key row.id q free (alias_cases key row.id q free finds))
]
