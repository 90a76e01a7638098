-- ===== src/Websource/Keys/Rekeyed.antt =====
-- What addAlias and rekey of app/internal/websource/service.go keep of the listing keys.
use morgenblau.Common.{
  ◌≡◌, refl, ap, ◌∙◌, none, some, some_inj, true, false, String, ◌==◌, eq_iff, eq_refl, arith,
  Bool-cases, Option-cases, inl, inr, ◌⊎◌, lookup,
}
use morgenblau.Websource.{WebSource}
use morgenblau.Websource.Store.{Store}
use morgenblau.Websource.Keys.{has_id, has_key, put_alias, drop_alias}
use morgenblau.Websource.Keys.Rows.{
  has_row, owner, owner_absent, owner_absent_iff, owner-has_row, has_row-has_id, has_row-has_key,
  has_row_unique,
}
use morgenblau.Websource.Keys.Moves.{
  rekeyed, has_id-rekeyed, has_key-rekeyed, owner_moved, owner_unmoved, rows_distinct-rekeyed,
  old_key_free,
}
use morgenblau.Websource.Keys.Aliases.{
  lookup-fits, put_alias-fits, drop_alias-fits, fits_after, lookup-put_alias, lookup-put_alias_old,
  lookup-drop_alias, lookup-drop_alias_own,
}
use morgenblau.Websource.Keys.Stable.{keyed, found, keyed-distinct, keyed-fit, Keeps, found_alias}

-- A key that finds no source but this one is the source's own, or no own key of any.
pub own_or_free :
    (key id old : String) (q : Store)
    → keyed q ≡ true
    → has_row id old q.sources ≡ true
    → (key == old) ≡ false
    → (found key q ≡ none) ⊎ (found key q ≡ some id)
    → has_key key q.sources ≡ false
own_or_free key id old q h row other (inl nothing) = elim (Option-cases (owner key q.sources)) [
  | inl absent ↦ owner_absent_iff key q.sources absent
  | inr (o, own) ↦ let nothing' = rw own at nothing in cc
]
own_or_free key id old q h row other (inr itself) = elim (Option-cases (owner key q.sources)) [
  | inl absent ↦ owner_absent_iff key q.sources absent
  | inr (o, own) ↦
      let same = some_inj (rw own at itself) in
      let there : has_row id key q.sources ≡ true =
        rw (← same) (owner-has_row key o q.sources own) in
      let e = has_row_unique id key old q.sources (keyed-distinct q h) there row in
      let other' = rw e at other in cc (eq_refl old)
]

pub alias_cases :
    (key id : String) (q : Store)
    → has_key key q.sources ≡ false
    → (found key q ≡ none) ⊎ (found key q ≡ some id)
    → (lookup key q.aliases ≡ none) ⊎ (lookup key q.aliases ≡ some id)
alias_cases key id q free (inl e) = inl (rw (owner_absent key q.sources free) at e)
alias_cases key id q free (inr e) = inr (rw (owner_absent key q.sources free) at e)

module _ (key : String) (row : WebSource) (q : Store) where
  abbrev pub moved_store : Store
  moved_store = record q {
    sources = rekeyed row.id key q.sources;
    aliases = put_alias row.listing_key row.id (drop_alias key row.id q.aliases);
  }

  module _ (h : keyed q ≡ true) (there : has_row row.id row.listing_key q.sources ≡ true)
      (other : (key == row.listing_key) ≡ false) (free : has_key key q.sources ≡ false)
      (alias : (lookup key q.aliases ≡ none) ⊎ (lookup key q.aliases ≡ some row.id)) where
    known : has_id row.id q.sources ≡ true
    known = has_row-has_id row.id row.listing_key q.sources there

    -- A source's own key is no alias.
    old_no_alias : lookup row.listing_key (drop_alias key row.id q.aliases) ≡ none
    old_no_alias = elim (Option-cases (lookup row.listing_key q.aliases)) [
      | inl absent ↦ lookup-drop_alias key row.id row.listing_key q.aliases other ∙ absent
      | inr (i, e) ↦
          let (_, shadowed) = lookup-fits q.sources q.aliases row.listing_key i (keyed-fit q h) e in
          let own = has_row-has_key row.id row.listing_key q.sources there in cc
    ]

    moved-keyed : keyed moved_store ≡ true
    unfolding keyed
    moved-keyed =
        let rows = rekeyed row.id key q.sources in
        let distinct = rows_distinct-rekeyed row.id key q.sources (keyed-distinct q h) free in
        let fit =
          fits_after key q.sources rows (drop_alias key row.id q.aliases)
            (λ i e. has_id-rekeyed row.id key i q.sources ∙ e)
            (λ k n e. has_key-rekeyed row.id key k q.sources n e)
            (lookup-drop_alias_own key row.id q.aliases alias)
            (drop_alias-fits q.sources q.aliases key row.id (keyed-fit q h)) in
        let fit' =
          put_alias-fits rows (drop_alias key row.id q.aliases) row.listing_key row.id fit
            (has_id-rekeyed row.id key row.id q.sources ∙ known)
            (old_key_free row.id key row.listing_key q.sources (keyed-distinct q h) there other) in
        ground (arith, distinct, fit')

    -- Its old key finds the source through the alias.
    old_key_finds : found row.listing_key moved_store ≡ some row.id
    old_key_finds =
        let rows = rekeyed row.id key q.sources in
        let dropped = drop_alias key row.id q.aliases in
        let gone =
          old_key_free row.id key row.listing_key q.sources (keyed-distinct q h) there other in
        rw
          (
            owner_absent row.listing_key rows gone,
            lookup-put_alias row.listing_key row.id row.listing_key dropped old_no_alias,
            eq_refl row.listing_key,
          )
          refl

    owned_finds :
        (k i : String)
        → (key == k) ≡ false
        → owner k q.sources ≡ some i
        → found k moved_store ≡ some i
    owned_finds k i apart own = elim (Bool-cases (i == row.id)) [
      | inr else_ ↦ rw (owner_unmoved row.id key k i q.sources apart else_ own) refl
      | inl itself ↦
          let same = (eq_iff i row.id).0 itself in
          let here : has_row row.id k q.sources ≡ true =
            rw (← same) (owner-has_row k i q.sources own) in
          let old =
            has_row_unique row.id k row.listing_key q.sources (keyed-distinct q h) here there in
          rw (old, same) old_key_finds
    ]

    aliased_finds :
        (k i : String)
        → (key == k) ≡ false
        → owner k q.sources ≡ none
        → lookup k q.aliases ≡ some i
        → found k moved_store ≡ some i
    aliased_finds k i apart absent e =
        let rows = rekeyed row.id key q.sources in
        let free' =
          has_key-rekeyed row.id key k q.sources apart (owner_absent_iff k q.sources absent) in
        let kept = lookup-drop_alias key row.id k q.aliases apart ∙ e in
        rw (owner_absent k rows free')
          (lookup-put_alias_old row.listing_key row.id k i (drop_alias key row.id q.aliases) kept)

    new_key_finds : (i : String) → found key q ≡ some i → found key moved_store ≡ some i
    new_key_finds i e =
        let e' = rw (owner_absent key q.sources free) at e in
        let itself : row.id ≡ i = elim alias [
          | inl absent ↦ let e'' = rw absent at e' in cc
          | inr own ↦ some_inj (rw own at e')
        ] in
        rw (owner_moved row.id key q.sources known free) (ap some itself)

    pub moved_store-Keeps : Keeps q moved_store
    moved_store-Keeps = (
      moved-keyed,
      λ k i e. elim (Bool-cases (key == k)) [
        | inl new ↦
            let same = (eq_iff key k).0 new in rw (← same) (new_key_finds i (rw (← same) at e))
        | inr apart ↦ elim (Option-cases (owner k q.sources)) [
          | inr (o, own) ↦ owned_finds k i apart (own ∙ (rw own at e))
          | inl absent ↦ aliased_finds k i apart absent (found_alias k i q absent e)
        ]
      ],
    )
