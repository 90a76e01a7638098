-- ===== src/Websource/Anchor.antt =====
-- A source rebuilt around a reader's post: vetAnchor, and generate from there on, of
-- app/internal/websource/service.go. The query for followers, the model's look at the list and the
-- budget are arguments; an answer `none` is an error.
pub mod Consent
use morgenblau.Common.{
  ℕ, Option, none, some, Bool, true, false, ◌&&◌, ◌||◌, not, String, if◌then◌else◌,
}
use morgenblau.Sync.Collection.{Tx}
use morgenblau.Websource.{WebSource, Library, improves}
use morgenblau.Websource.Store.{Store, Statement, record_spend}
use morgenblau.Websource.Poll.Write.{transact}
use morgenblau.Websource.Setup.{SetupRow, Generated, Stored, store_setup}

pub data Rejection : Type 0 where
  not_on_page not_confirmed no_better : Rejection

pub data Vetting : Type 0 where
  vet_error passed : Vetting
  rejected : Rejection → Vetting

pub record Confirmation : Type 0 where
  pub failed : Bool
  pub agreed : Bool
  pub usd : ℕ

-- `confirm` is none without a model.
pub record Answers : Type 0 where
  pub followed : Option Bool
  pub on_page : Bool
  pub confirm : Option Confirmation
  pub budget_left : Option Bool

pub data Rebuilt : Type 0 where
  rebuild_failed rebuilt : Rebuilt
  turned_down : Rejection → Rebuilt

module _ (lib : Library) (works : Statement → Bool) (tx : Tx) (now : ℕ) where
  -- recordModelSpend
  unfoldable pub record_model_spend : String → ℕ → Store → Bool × Store
  record_model_spend kind usd q =
      if lib.no_spend usd then (true, q) else transact tx (record_spend lib works now kind usd) q

  agreement : Confirmation → Bool × Store → Vetting × Store
  agreement c (false, q) = (vet_error, q)
  agreement c (true, q) = (if c.failed || not c.agreed then rejected not_confirmed else passed, q)

  ask_model : Option Confirmation → Option Bool → Store → Vetting × Store
  ask_model none left q = (rejected not_confirmed, q)
  ask_model (some c) none q = (vet_error, q)
  ask_model (some c) (some false) q = (rejected not_confirmed, q)
  ask_model (some c) (some true) q = agreement c (record_model_spend "anchor_check" c.usd q)

  vet_followed : Answers → WebSource → Generated → Store → Vetting × Store
  vet_followed a existing gen q =
      if not a.on_page
      then (rejected not_on_page, q)
      else (if not (improves gen.health existing)
          then (passed, q)
          else ask_model a.confirm a.budget_left q)

  vet_by : Option Bool → Answers → WebSource → Generated → Store → Vetting × Store
  vet_by none a existing gen q = (vet_error, q)
  vet_by (some false) a existing gen q = (passed, q)
  vet_by (some true) a existing gen q = vet_followed a existing gen q

  unfoldable pub vet_anchor : Answers → WebSource → Generated → Store → Vetting × Store
  unfolding vet_by vet_followed ask_model agreement record_model_spend
  vet_anchor a existing gen q = vet_by a.followed a existing gen q

  setup_done : Bool → Bool → Option Stored → Store → Rebuilt × Store
  setup_done true true (some r) q = (if r.kept then turned_down no_better else rebuilt, r.store)
  setup_done true true none q = (rebuild_failed, q)
  setup_done true false result q = (rebuild_failed, q)
  setup_done false commits result q = (rebuild_failed, q)

  module _ (interval : ℕ) (did : String) (new_id : Option String) where
    after_vetting : SetupRow → Vetting × Store → Rebuilt × Store
    after_vetting setup (vet_error, q) = (rebuild_failed, q)
    after_vetting setup (rejected why, q) = (turned_down why, q)
    after_vetting setup (passed, q) =
        setup_done tx.begins tx.commits (store_setup lib works now interval did new_id setup q) q

    -- The setup of a regenerated source names the source and the reader.
    unfoldable pub rebuild_anchored : Answers → WebSource → SetupRow → Store → Rebuilt × Store
    unfolding after_vetting setup_done
    rebuild_anchored a existing setup q =
        after_vetting (record setup { anchored_by = did; replaces = existing.id })
          (vet_anchor a existing setup.gen q)
