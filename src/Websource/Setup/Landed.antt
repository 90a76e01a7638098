-- ===== src/Websource/Setup/Landed.antt =====
-- What a stored setup keeps of the listing keys: storeSetup of app/internal/websource/service.go.
use morgenblau.Common.{
  ℕ, ◌≡◌, refl, some, some_inj, Bool, true, ◌&&◌, List, [], ◌∷◌, String, arith, Bool-cases, inl,
  inr, Assoc,
}
use morgenblau.Websource.{WebSource}
use morgenblau.Websource.Store.{Store, Statement}
use morgenblau.Websource.Store.Frame.{bind-some, when_works-some}
use morgenblau.Websource.Keys.Aliases.{aliases_fit}
use morgenblau.Websource.Keys.Stable.{keyed, keyed-fit, Keeps}
use morgenblau.Websource.{Library, is_healthy}
use morgenblau.Websource.Items.{dedupe_items}
use morgenblau.Websource.Store.{
  update_rows, insert_items, insert_from, record_poll, insert_poll, prune_polls,
}
use morgenblau.Websource.Keys.Rows.{
  has_id-update, has_key-update, owner-update, rows_distinct-update,
}
use morgenblau.Websource.Setup.{Generated, add_history}

pub Keeps-same :
    (q r s : Store) → Keeps q r → s.sources ≡ r.sources → s.aliases ≡ r.aliases → Keeps q s
unfolding keyed
Keeps-same q r s (h, f) e e' = rw (e, e') (h, f)

-- An update that leaves ids and keys.
module _ (test : WebSource → Bool) (f : WebSource → WebSource)
    (same_id : (r : WebSource) → (f r).id ≡ r.id)
    (same_key : (r : WebSource) → (f r).listing_key ≡ r.listing_key) where
  fit-update :
      (rows : List WebSource) (m : Assoc String)
      → aliases_fit rows m ≡ true
      → aliases_fit (update_rows test f rows) m ≡ true
  unfolding aliases_fit
  fit-update rows [] h = refl
  fit-update rows ((k, i) ∷ m) h =
      rw
        (
          has_id-update test f same_id same_key i rows,
          has_key-update test f same_id same_key k rows,
        )
        (ground (arith, fit-update rows m))

  pub update-Keeps :
      (q : Store) → keyed q ≡ true → Keeps q (record q { sources = update_rows test f q.sources })
  unfolding keyed
  update-Keeps q h = (
    rw
        (
          rows_distinct-update test f same_id same_key q.sources,
          fit-update q.sources q.aliases (keyed-fit q h),
        )
        (ground arith),
    λ k i e. rw (owner-update test f same_id same_key k q.sources) e,
  )

module _ (lib : Library) (works : Statement → Bool) (now interval : ℕ) where
  pub add_history_keeps :
      (id : String) (gen : Generated) (q r : Store)
      → add_history lib works now interval id gen q ≡ some r
      → (r.sources ≡ q.sources) × (r.aliases ≡ q.aliases)
  unfolding add_history insert_items record_poll
  add_history_keeps id gen q r e =
      let items = dedupe_items lib gen.items in
      let (a, filled, e1) = bind-some (insert_items lib works id now true items q) _ r e in
      let (rows, _, e2) =
        bind-some (insert_from lib works 0 id now true items q.items) _ a filled in
      let same = some_inj e2 in
      elim (Bool-cases (is_healthy gen.health)) [
        | inl good ↦
            let e3 = when_works-some (works insert_poll && works prune_polls) _ r (rw good at e1) in
            rw (← e3, ← same) (refl, refl)
        | inr bad ↦ rw (← some_inj (rw bad at e1), ← same) (refl, refl)
      ]
