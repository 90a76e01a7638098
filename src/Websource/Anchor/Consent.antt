-- ===== src/Websource/Anchor/Consent.antt =====
-- When a reader's post may rebuild a source that others follow: vetAnchor and storeSetup of
-- app/internal/websource/service.go.
use morgenblau.Common.{
  ℕ, ◌≡◌, refl, ap, Option, none, some, Bool, true, false, ◌&&◌, ◌||◌, not, String, ◌==◌, arith,
  Bool-cases, inl, inr,
}
use morgenblau.Sync.Collection.{Tx}
use morgenblau.Websource.{WebSource, Library, improves}
use morgenblau.Websource.Store.{Store, Statement, record_spend}
use morgenblau.Websource.Store.Frame.{record_spend-Same}
use morgenblau.Websource.Poll.Write.Steps.{transact_keeps}
use morgenblau.Websource.Keys.{source_by_id}
use morgenblau.Websource.Setup.{SetupRow, Generated, Stored, store_setup}
use morgenblau.Websource.Setup.Unimproved.{setups, unimproved_setup_kept}
use morgenblau.Websource.Keys.{source_by_id}
use morgenblau.Websource.Anchor.{
  Answers, Confirmation, Vetting, vet_error, passed, rejected, record_model_spend, agreement,
  ask_model, vet_followed, vet_by, vet_anchor, setup_done, after_vetting, rebuild_anchored,
}

-- The model agreed, within the budget, that the list is the site's posts.
agrees : Option Confirmation → Option Bool → Bool
agrees (some c) (some left) = left && not c.failed && c.agreed
agrees none left = false
agrees (some c) none = false

-- The page links the post, and the model agreed.
unfoldable pub consented : Answers → Bool
unfolding agrees
consented a = a.on_page && agrees a.confirm a.budget_left

module _ (lib : Library) (works : Statement → Bool) (tx : Tx) (now : ℕ) where
  spend_keeps :
      (usd : ℕ) (q : Store)
      → (record_model_spend lib works tx now "anchor_check" usd q).1.sources ≡ q.sources
  unfolding record_model_spend
  spend_keeps usd q = elim (Bool-cases (lib.no_spend usd)) [
    | inl free ↦ rw free refl
    | inr paid ↦ rw paid (
        transact_keeps (λ r. r.sources ≡ q.sources) tx
          (record_spend lib works now "anchor_check" usd) q refl
          (λ r e. (record_spend-Same lib works now "anchor_check" usd q r e).0))
  ]

  -- Not passed, with the sources as they were.
  Refused : Store → Vetting × Store → Type 0
  Refused q (passed, r) = ⊥
  Refused q (vet_error, r) = r.sources ≡ q.sources
  Refused q (rejected why, r) = r.sources ≡ q.sources

  agreement-Refused :
      (c : Confirmation) (q : Store) (spent : Bool × Store)
      → (not c.failed && c.agreed) ≡ false
      → spent.1.sources ≡ q.sources
      → Refused q (agreement lib works tx now c spent)
  unfolding Refused agreement
  agreement-Refused c q (false, r) no_ e = e
  agreement-Refused c q (true, r) no_ e =
      let t : (c.failed || not c.agreed) ≡ true = ground arith in rw t e

  ask_model-Refused :
      (confirm : Option Confirmation) (left : Option Bool) (q : Store)
      → agrees confirm left ≡ false
      → Refused q (ask_model lib works tx now confirm left q)
  unfolding Refused agrees ask_model
  ask_model-Refused none left q h = refl
  ask_model-Refused (some c) none q h = refl
  ask_model-Refused (some c) (some false) q h = refl
  ask_model-Refused (some c) (some true) q h =
      agreement-Refused c q (record_model_spend lib works tx now "anchor_check" c.usd q) h
        (spend_keeps c.usd q)

  -- Refused, or passed as it would not replace the setup in force anyway.
  Held : Generated → WebSource → Store → Vetting × Store → Type 0
  Held gen existing q (passed, r) = (improves gen.health existing ≡ false) × (r ≡ q)
  Held gen existing q (vet_error, r) = r.sources ≡ q.sources
  Held gen existing q (rejected why, r) = r.sources ≡ q.sources

  Refused-Held :
      (gen : Generated) (existing : WebSource) (q : Store) (v : Vetting × Store)
      → Refused q v
      → Held gen existing q v
  unfolding Refused Held
  Refused-Held gen existing q (passed, r) h = absurd h
  Refused-Held gen existing q (vet_error, r) h = h
  Refused-Held gen existing q (rejected why, r) h = h

  vet_followed-Held :
      (a : Answers) (existing : WebSource) (gen : Generated) (q : Store)
      → consented a ≡ false
      → Held gen existing q (vet_followed lib works tx now a existing gen q)
  unfolding Held vet_followed consented
  vet_followed-Held a existing gen q h = elim (Bool-cases a.on_page) [
    | inr off ↦ rw off refl
    | inl on ↦ elim (Bool-cases (improves gen.health existing)) [
      | inr worse ↦ rw (on, worse) (worse, refl)
      | inl better ↦
          rw (on, better)
            (Refused-Held gen existing q (ask_model lib works tx now a.confirm a.budget_left q)
              (ask_model-Refused a.confirm a.budget_left q (rw on at h)))
    ]
  ]

  vet_anchor-Held :
      (a : Answers) (existing : WebSource) (gen : Generated) (q : Store)
      → a.followed ≡ some true
      → consented a ≡ false
      → Held gen existing q (vet_anchor lib works tx now a existing gen q)
  unfolding vet_anchor vet_by
  vet_anchor-Held a existing gen q followed h = rw followed (vet_followed-Held a existing gen q h)

  setup_done_keeps :
      (begins commits : Bool) (o : Option Stored) (q : Store)
      → ((r : Stored) → o ≡ some r → setups r.store.sources ≡ setups q.sources)
      → setups (setup_done lib works tx now begins commits o q).1.sources ≡ setups q.sources
  unfolding setup_done
  setup_done_keeps true true (some r) q h = h r refl
  setup_done_keeps true true none q h = refl
  setup_done_keeps true false o q h = refl
  setup_done_keeps false commits o q h = refl

  after_vetting_keeps :
      (interval : ℕ) (did : String) (new_id : Option String) (existing : WebSource)
      (setup : SetupRow) (q : Store) (v : Vetting × Store)
      → (setup.replaces == "") ≡ false
      → source_by_id setup.replaces q ≡ some existing
      → Held setup.gen existing q v
      → setups (after_vetting lib works tx now interval did new_id setup v).1.sources
        ≡ setups q.sources
  unfolding after_vetting Held
  after_vetting_keeps interval did new_id existing setup q (vet_error, r) given there h =
      ap setups h
  after_vetting_keeps interval did new_id existing setup q (rejected why, r) given there h =
      ap setups h
  after_vetting_keeps interval did new_id existing setup q (passed, r) given there (worse, same) =
      rw same (
        setup_done_keeps tx.begins tx.commits
          (store_setup lib works now interval did new_id setup q) q
          (λ st e.
            (unimproved_setup_kept lib works now interval did new_id setup existing q st given there
              worse e).0))

-- If others follow a source, and the setup around a reader's post does not link the post or the model
-- has not agreed within the budget that its list is the site's posts, then no source's id, key,
-- recipe or setup counter changes, provided the source is as it was read and has an id.
pub followed_source_needs_consent :
    (lib : Library) (works : Statement → Bool) (tx : Tx) (now interval : ℕ) (did : String)
    (new_id : Option String) (a : Answers) (existing : WebSource) (setup : SetupRow) (q : Store)
    → a.followed ≡ some true
    → consented a ≡ false
    → (existing.id == "") ≡ false
    → source_by_id existing.id q ≡ some existing
    → setups (rebuild_anchored lib works tx now interval did new_id a existing setup q).1.sources
      ≡ setups q.sources
unfolding rebuild_anchored
followed_source_needs_consent lib works tx now interval did new_id a existing setup q followed h
      given there =
    let named = record setup { anchored_by = did; replaces = existing.id } in
    after_vetting_keeps lib works tx now interval did new_id existing named q
      (vet_anchor lib works tx now a existing setup.gen q) given there
      (vet_anchor-Held lib works tx now a existing setup.gen q followed h)
