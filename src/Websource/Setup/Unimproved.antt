-- ===== src/Websource/Setup/Unimproved.antt =====
-- A setup that does not improve on the one in force: storeSetup of
-- app/internal/websource/service.go.
use morgenblau.Common.{
  ℕ, ◌≡◌, refl, ap, ◌∙◌, Option, some, some_inj, Bool, true, false, List, [], ◌∷◌, String, ◌==◌,
  Bool-cases, map, inl, inr,
}
use morgenblau.Websource.{WebSource}
use morgenblau.Websource.Store.{Store, Statement, find_row}
use morgenblau.Websource.Store.Frame.{bind-some, when_works-some}
use morgenblau.Websource.{Library, improves}
use morgenblau.Websource.Store.{update_rows, record_spend, mark_tried}
use morgenblau.Websource.Store.Frame.{record_spend-Same}
use morgenblau.Websource.Keys.{stored_source}
use morgenblau.Websource.Keys.Landing.{asked_source}
use morgenblau.Websource.Setup.{
  SetupRow, Stored, is_late, tried_row, stored_kept, stored_on, land, store_setup,
}
use morgenblau.Websource.Keys.{source_by_id}
use morgenblau.Websource.Keys.Kept.{find_row-has_row}

-- What a setup decides of the sources.
abbrev pub setups : List WebSource → List (String × String × String × ℕ)
setups rows = map (λ row. (row.id, row.listing_key, row.recipe, row.setup_seq)) rows

setups-update :
    (test : WebSource → Bool) (f : WebSource → WebSource) (rows : List WebSource)
    → ((r : WebSource)
        → (f r).id ≡ r.id
          × (f r).listing_key ≡ r.listing_key
          × (f r).recipe ≡ r.recipe
          × (f r).setup_seq ≡ r.setup_seq)
    → setups (update_rows test f rows) ≡ setups rows
setups-update test f [] same = refl
setups-update test f (row ∷ rows) same = elim (Bool-cases (test row)) [
  | inl e ↦ let (a, b, c, d) = same row in rw (e, a, b, c, d, setups-update test f rows same) refl
  | inr e ↦ rw (e, setups-update test f rows same) refl
]

module _ (lib : Library) (works : Statement → Bool) (now interval : ℕ) where
  stored_on_unimproved :
      (setup : SetupRow) (row : WebSource) (q : Store) (r : Stored)
      → improves setup.gen.health row ≡ false
      → stored_on lib works now interval setup row q ≡ some r
      → (setups r.store.sources ≡ setups q.sources) × (r.kept ≡ true)
  unfolding stored_on stored_kept tried_row
  stored_on_unimproved setup row q r worse e =
      elim (Bool-cases (is_late lib works now interval setup.at_seq row)) [
        | inl late ↦ rw (← some_inj (rw late at e)) (refl, refl)
        | inr in_time ↦
            let same = when_works-some (works mark_tried) _ r (rw (in_time, worse) at e) in
            rw (← same) (
              setups-update (λ o. o.id == row.id) (tried_row lib works now interval) q.sources
                  (λ o. (refl, refl, refl, refl)),
              refl,
            )
      ]

  -- Nothing of any setup changes, and the caller is told that the old one was kept.
  pub unimproved_setup_kept :
      (did : String) (new_id : Option String) (setup : SetupRow) (row : WebSource) (q : Store)
      (r : Stored)
      → (setup.replaces == "") ≡ false
      → source_by_id setup.replaces q ≡ some row
      → improves setup.gen.health row ≡ false
      → store_setup lib works now interval did new_id setup q ≡ some r
      → (setups r.store.sources ≡ setups q.sources) × (r.kept ≡ true)
  unfolding store_setup land source_by_id
  unimproved_setup_kept did new_id setup row q r given there worse e =
      let (a, spent, e1) = bind-some (record_spend lib works now "setup" setup.gen.usd q) _ r e in
      let same = record_spend-Same lib works now "setup" setup.gen.usd q a spent in
      let there' : source_by_id setup.replaces a ≡ some row =
        ap (λ rows. find_row (λ o. o.id == setup.replaces) rows) same.0 ∙ there in
      let (o, stored, landed) =
        bind-some (stored_source works setup.replaces setup.pasted_key setup.key a) _ r e1 in
      let here =
        asked_source works setup.replaces setup.pasted_key setup.key a row o given there' stored in
      let own = (find_row-has_row (λ w. w.id == setup.replaces) q.sources row there).1 in
      let (kept, told) = stored_on_unimproved setup row a r worse (rw (← here, own) at landed) in
      (kept ∙ ap setups same.0, told)
