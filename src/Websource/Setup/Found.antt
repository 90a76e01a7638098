-- ===== src/Websource/Setup/Found.antt =====
-- The pasted listing finds the source that its setup is stored in: storeSetup of
-- app/internal/websource/service.go.
use morgenblau.Common.{
  ℕ, ◌≡◌, ap, ◌∙◌, Option, none, some, some_inj, Bool, true, false, String, ◌==◌, eq_iff,
  Bool-cases, inl, inr, ◌⊎◌,
}
use morgenblau.Websource.{WebSource}
use morgenblau.Websource.Store.{Store, Statement}
use morgenblau.Websource.Store.Frame.{bind-some}
use morgenblau.Websource.Keys.Rows.{has_row-has_id}
use morgenblau.Websource.Keys.Stable.{keyed, id_of, found, source_by_key-found}
use morgenblau.Websource.{Library}
use morgenblau.Websource.Store.{record_spend}
use morgenblau.Websource.Store.Frame.{record_spend-Same}
use morgenblau.Websource.Keys.{has_id, source_by_key, add_alias, stored_source}
use morgenblau.Websource.Keys.Kept.{Keeps-refl, add_alias-Keeps, add_alias-finds}
use morgenblau.Websource.Keys.Landing.{Landing, stored_source-Landing}
use morgenblau.Websource.Setup.{SetupRow, Stored, stored_other, land, store_setup}
use morgenblau.Websource.Setup.Landed.{Keeps-same}
use morgenblau.Websource.Setup.Created.{stored_new-Keeps}

module _ (lib : Library) (works : Statement → Bool) (now interval : ℕ) where
  -- Not a setup that replaces a source.
  land_finds :
      (did : String) (new_id : Option String) (setup : SetupRow) (q : Store) (o : Option WebSource)
      (r : Stored)
      → keyed q ≡ true
      → has_id setup.replaces q.sources ≡ false
      → Landing setup.replaces setup.pasted_key setup.key q o
      → land lib works now interval did new_id setup q o ≡ some r
      → (keyed r.store ≡ true) × (found setup.pasted_key r.store ≡ some r.id)
  unfolding land stored_other
  land_finds did new_id setup q none r h fresh (unpasted, nothing) e =
      let (keeps, finds) =
        stored_new-Keeps lib works now interval did setup q new_id r h unpasted nothing e in
      (keeps.0, finds)
  land_finds did new_id setup q (some row) r h fresh (there, finds) e =
      elim (Bool-cases (row.id == setup.replaces)) [
        | inl own ↦
            let known = has_row-has_id row.id row.listing_key q.sources there in
            let clash : has_id setup.replaces q.sources ≡ true =
              rw (← (eq_iff row.id setup.replaces).0 own) known in
            cc
        | inr other ↦
            let (a, alias, e1) =
              bind-some (add_alias works setup.pasted_key row q) _ r (rw other at e) in
            let finds' : (found setup.pasted_key q ≡ none)
                ⊎ (found setup.pasted_key q ≡ some row.id) =
              elim finds [ inl own ↦ absurd (cc) | inr f ↦ f ] in
            let keeps = add_alias-Keeps works setup.pasted_key row q a h there finds' alias in
            let named = add_alias-finds works setup.pasted_key row q a h there finds' alias in
            rw (← some_inj e1) (keeps.0, named)
      ]

-- If ids and listing keys are unique, aliases point to sources and none is a source's own key, then
-- after a setup that replaces no source is stored, the pasted listing's key finds the source that the
-- setup ended in.
pub pasted_listing_found :
    (lib : Library) (works : Statement → Bool) (now interval : ℕ) (did : String)
    (new_id : Option String) (setup : SetupRow) (q : Store) (r : Stored)
    → keyed q ≡ true
    → has_id setup.replaces q.sources ≡ false
    → store_setup lib works now interval did new_id setup q ≡ some r
    → id_of (source_by_key setup.pasted_key r.store) ≡ some r.id
unfolding store_setup
pasted_listing_found lib works now interval did new_id setup q r h fresh e =
    let (a, spent, e1) = bind-some (record_spend lib works now "setup" setup.gen.usd q) _ r e in
    let same = record_spend-Same lib works now "setup" setup.gen.usd q a spent in
    let (h', _) = Keeps-same q q a (Keeps-refl q h) same.0 same.1 in
    let (o, stored, landed) =
      bind-some (stored_source works setup.replaces setup.pasted_key setup.key a) _ r e1 in
    let landing =
      stored_source-Landing works setup.replaces setup.pasted_key setup.key a h' o stored in
    let fresh' = ap (has_id setup.replaces) same.0 ∙ fresh in
    let (done, finds) =
      land_finds lib works now interval did new_id setup a o r h' fresh' landing landed in
    source_by_key-found r.store setup.pasted_key done ∙ finds
