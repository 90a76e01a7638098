-- ===== src/Websource/Setup/Keyed.antt =====
-- Listing keys and stored setups: storeSetup of app/internal/websource/service.go.
use morgenblau.Common.{
  ℕ, ◌≡◌, refl, ap, sym, ◌∙◌, Option, none, some, some_inj, Bool, true, not, String, ◌==◌,
  Bool-cases, keep_if, inl, inr, ◌⊎◌,
}
use morgenblau.Websource.{WebSource}
use morgenblau.Websource.Store.{Store, Statement, ◌>>=◌, when_works}
use morgenblau.Websource.Store.Frame.{bind-some, when_works-some}
use morgenblau.Websource.Keys.Rows.{has_row}
use morgenblau.Websource.Keys.Stable.{keyed, id_of, found, source_by_key-found, Keeps}
use morgenblau.Websource.{Library, improves}
use morgenblau.Websource.Store.{update_rows, record_spend, mark_tried, replace_setup, delete_polls}
use morgenblau.Websource.Store.Frame.{record_spend-Same}
use morgenblau.Websource.Keys.{source_by_key, add_alias, rekey, stored_source}
use morgenblau.Websource.Keys.Rows.{has_row-update}
use morgenblau.Websource.Keys.Kept.{Keeps-refl, Keeps-trans, rekey-Keeps, add_alias-Keeps}
use morgenblau.Websource.Keys.Landing.{Landing, stored_source-Landing}
use morgenblau.Websource.Setup.{
  SetupRow, Stored, replaced_row, add_history, is_late, tried_row, stored_kept, stored_replaced,
  stored_on, stored_other, land, store_setup,
}
use morgenblau.Websource.Setup.Landed.{Keeps-same, update-Keeps, add_history_keeps}
use morgenblau.Websource.Setup.Created.{stored_new-Keeps}

module _ (lib : Library) (works : Statement → Bool) (now interval : ℕ) where
  stored_kept-Keeps :
      (setup : SetupRow) (row : WebSource) (q : Store) (r : Stored)
      → keyed q ≡ true
      → stored_kept lib works now interval setup row q ≡ some r
      → Keeps q r.store
  unfolding stored_kept tried_row
  stored_kept-Keeps setup row q r h e =
      let same = when_works-some (works mark_tried) _ r e in
      rw (← same) (
        update-Keeps (λ o. o.id == row.id) (tried_row lib works now interval) (λ o. refl)
          (λ o. refl) q h)

  stored_replaced-Keeps :
      (setup : SetupRow) (row : WebSource) (q : Store) (r : Stored)
      → keyed q ≡ true
      → has_row row.id row.listing_key q.sources ≡ true
      → stored_replaced lib works now interval setup row q ≡ some r
      → Keeps q r.store
  unfolding stored_replaced replaced_row
  stored_replaced-Keeps setup row q r h there e =
      let f = replaced_row lib setup now interval in
      let mine : WebSource → Bool = λ o. o.id == row.id in
      let written = record q { sources = update_rows mine f q.sources } in
      let (a, rekeyed_, e1) =
        bind-some (when_works (works replace_setup) written >>= rekey works row setup.key) _ r e in
      let (b, wrote, rekeyed') =
        bind-some (when_works (works replace_setup) written) _ a rekeyed_ in
      let same = when_works-some (works replace_setup) written b wrote in
      let (c, filled, e2) =
        bind-some
          (when_works (works delete_polls)
              (record a { polls = keep_if (λ p. not (p.source_id == row.id)) a.polls })
            >>= add_history lib works now interval row.id setup.gen)
          _ r e1 in
      let (d, emptied, history) =
        bind-some
          (when_works (works delete_polls)
            (record a { polls = keep_if (λ p. not (p.source_id == row.id)) a.polls }))
          _ c filled in
      let same' = when_works-some (works delete_polls) _ d emptied in
      let updated = update-Keeps mine f (λ o. refl) (λ o. refl) q h in
      let there' =
        has_row-update mine f (λ o. refl) (λ o. refl) row.id row.listing_key q.sources ∙ there in
      let moved_ =
        rekey-Keeps works row setup.key written a updated.0 there' (rw (← same) at rekeyed') in
      let (sources, aliases) =
        add_history_keeps lib works now interval row.id setup.gen d c history in
      let all = Keeps-trans q written a updated moved_ in
      rw (← some_inj e2) (
        Keeps-same q a c all (sources ∙ sym (ap (λ t. t.sources) same'))
          (aliases ∙ sym (ap (λ t. t.aliases) same')))

  stored_on-Keeps :
      (setup : SetupRow) (row : WebSource) (q : Store) (r : Stored)
      → keyed q ≡ true
      → has_row row.id row.listing_key q.sources ≡ true
      → stored_on lib works now interval setup row q ≡ some r
      → Keeps q r.store
  unfolding stored_on
  stored_on-Keeps setup row q r h there e =
      elim (Bool-cases (is_late lib works now interval setup.at_seq row)) [
        | inl late ↦ rw (← some_inj (rw late at e)) (Keeps-refl q h)
        | inr in_time ↦ elim (Bool-cases (improves setup.gen.health row)) [
          | inl better ↦ stored_replaced-Keeps setup row q r h there (rw (in_time, better) at e)
          | inr worse ↦ stored_kept-Keeps setup row q r h (rw (in_time, worse) at e)
        ]
      ]

  land-Keeps :
      (did : String) (new_id : Option String) (setup : SetupRow) (q : Store) (o : Option WebSource)
      (r : Stored)
      → keyed q ≡ true
      → Landing setup.replaces setup.pasted_key setup.key q o
      → land lib works now interval did new_id setup q o ≡ some r
      → Keeps q r.store
  unfolding land stored_other
  land-Keeps did new_id setup q none r h (unpasted, nothing) e =
      (stored_new-Keeps lib works now interval did setup q new_id r h unpasted nothing e).0
  land-Keeps did new_id setup q (some row) r h (there, finds) e =
      elim (Bool-cases (row.id == setup.replaces)) [
        | inl own ↦ stored_on-Keeps setup row q r h there (rw own at e)
        | inr other ↦
            let (a, alias, e1) =
              bind-some (add_alias works setup.pasted_key row q) _ r (rw other at e) in
            let finds' : (found setup.pasted_key q ≡ none)
                ⊎ (found setup.pasted_key q ≡ some row.id) =
              elim finds [ inl own ↦ absurd (cc) | inr f ↦ f ] in
            rw (← some_inj e1) (add_alias-Keeps works setup.pasted_key row q a h there finds' alias)
      ]

-- If ids and listing keys are unique, aliases point to sources and none is a source's own key, then
-- all this holds after a setup is stored, new or in place of another, and every listing key that
-- found a source still finds the same one.
pub stored_setup_keeps_keys :
    (lib : Library) (works : Statement → Bool) (now interval : ℕ) (did : String)
    (new_id : Option String) (setup : SetupRow) (q : Store) (r : Stored) (key id : String)
    → keyed q ≡ true
    → store_setup lib works now interval did new_id setup q ≡ some r
    → id_of (source_by_key key q) ≡ some id
    → (keyed r.store ≡ true) × (id_of (source_by_key key r.store) ≡ some id)
unfolding store_setup
stored_setup_keeps_keys lib works now interval did new_id setup q r key id h e finds =
    let (a, spent, e1) = bind-some (record_spend lib works now "setup" setup.gen.usd q) _ r e in
    let same = record_spend-Same lib works now "setup" setup.gen.usd q a spent in
    let spent_keeps = Keeps-same q q a (Keeps-refl q h) same.0 same.1 in
    let (o, stored, landed) =
      bind-some (stored_source works setup.replaces setup.pasted_key setup.key a) _ r e1 in
    let landing =
      stored_source-Landing works setup.replaces setup.pasted_key setup.key a spent_keeps.0 o
        stored in
    let (h', still) =
      Keeps-trans q a r.store spent_keeps
        (land-Keeps lib works now interval did new_id setup a o r spent_keeps.0 landing landed) in
    (
      h',
      source_by_key-found r.store key h' ∙ still key id (sym (source_by_key-found q key h) ∙ finds),
    )
