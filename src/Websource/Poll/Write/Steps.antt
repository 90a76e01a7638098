-- ===== src/Websource/Poll/Write/Steps.antt =====
-- The steps of storePoll and pollOne of app/internal/websource/service.go, one at a time.
use morgenblau.Common.{
  ℕ, suc, ◌≡◌, refl, sym, ◌∙◌, Option, none, some, some_inj, Bool, true, false, List, String, ◌==◌,
  Bool-cases, inl, inr, ◌&&◌, not, any, eqb, ltb, length, keep_if, add_time,
}
use morgenblau.Sync.Collection.{Tx}
use morgenblau.Websource.{
  Library, WebSource, PollOutcome, RepairReport, Verdict, ok_verdict, suspect, broken_verdict,
  is_healthy,
}
use morgenblau.Websource.Store.{Store, Statement, count_repairs, hours, record_spend}
use morgenblau.Websource.Store.Frame.{when_works-some, Same, record_spend-Same}
use morgenblau.Websource.Poll.{
  Schedule, PollUpdate, judged, doubted, is_broken_verdict, is_model_repair_of, join_reasons,
  poll_update, is_polled_row,
}
use morgenblau.Websource.Poll.Write.{transact, after_tx, note_repairs, noted, spend_repair}

after_tx_keeps :
    (P : Store → Type 0) (begins commits : Bool) (result : Option Store) (q : Store)
    → P q
    → ((r : Store) → result ≡ some r → P r)
    → P (after_tx begins commits result q).1
unfolding after_tx
after_tx_keeps P true true (some done) q old new = new done refl
after_tx_keeps P true true none q old new = old
after_tx_keeps P true false result q old new = old
after_tx_keeps P false commits result q old new = old

after_tx-some :
    (begins commits : Bool) (result : Option Store) (q : Store)
    → (after_tx begins commits result q).0 ≡ true
    → result ≡ some (after_tx begins commits result q).1
unfolding after_tx
after_tx-some true true (some done) q h = refl
after_tx-some true true none q h = cc
after_tx-some true false result q h = cc
after_tx-some false commits result q h = cc

-- A transaction that succeeds leaves what its function returns.
pub transact-some :
    (tx : Tx) (fn : Store → Option Store) (q : Store)
    → (transact tx fn q).0 ≡ true
    → fn q ≡ some (transact tx fn q).1
unfolding transact
transact-some tx fn q h = after_tx-some tx.begins tx.commits (fn q) q h

-- What holds before a transaction and after its function holds after it.
pub transact_keeps :
    (P : Store → Type 0) (tx : Tx) (fn : Store → Option Store) (q : Store)
    → P q
    → ((r : Store) → fn q ≡ some r → P r)
    → P (transact tx fn q).1
unfolding transact
transact_keeps P tx fn q old new = after_tx_keeps P tx.begins tx.commits (fn q) q old new

module _ (lib : Library) (works : Statement → Bool) where
  spend_repair-Same :
      (now : ℕ) (repair : Option RepairReport) (q r : Store)
      → spend_repair lib works now repair q ≡ some r
      → Same q r
  spend_repair-Same now none q r h = rw (← some_inj h) (refl, refl, refl, refl, refl)
  spend_repair-Same now (some report) q r h =
      record_spend-Same lib works now "repair" report.usd q r h

  noted_reason :
      (src : WebSource) (now : ℕ) (update : PollUpdate) (q : Store)
      → (reason : String) × (noted lib works src now update q
          ≡ record update { health_reason = reason })
  unfolding noted
  noted_reason src now update q =
      elim (Bool-cases (
        ltb 3 (
          suc (
            length (
              keep_if (is_model_repair_of src.id (lib.format_time (add_time now (hours 168))))
                q.repairs))))) [
                  | inl many ↦ (
                    join_reasons update.health_reason "the page changed often this week",
                    rw many refl,
                  )
                  | inr few ↦ (update.health_reason, rw few refl)
                ]

  -- A note changes the reason and nothing else.
  pub note_repairs_reason :
      (src : WebSource) (now : ℕ) (repair : Option RepairReport) (update update' : PollUpdate)
      (q : Store)
      → note_repairs lib works src now repair update q ≡ some update'
      → (reason : String) × (update' ≡ record update { health_reason = reason })
  unfolding note_repairs
  note_repairs_reason src now none update update' q h =
      (update.health_reason, rw (← some_inj h) refl)
  note_repairs_reason src now (some r) update update' q h = elim (Bool-cases r.used_model) [
    | inl model ↦
        let (reason, e) = noted_reason src now update q in
        (reason, sym (when_works-some (works count_repairs) _ update' (rw model at h)) ∙ e)
    | inr free ↦ (update.health_reason, sym (some_inj (rw free at h)))
  ]

pub Same-trans : (q r s : Store) → Same q r → Same r s → Same q s
Same-trans q r s (a, b, c, d, e) (a', b', c', d', e') = (a' ∙ a, b' ∙ b, c' ∙ c, d' ∙ d, e' ∙ e)

module _ (lib : Library) (works : Statement → Bool) where
  -- What a transaction of a poll has written before the update of the row.
  pub spent-Same :
      (now : ℕ) (out : PollOutcome) (q r s : Store)
      → record_spend lib works now "check" out.check_usd q ≡ some r
      → spend_repair lib works now out.repair r ≡ some s
      → Same q s
  spent-Same now out q r s checked repaired =
      Same-trans q r s (record_spend-Same lib works now "check" out.check_usd q r checked)
        (spend_repair-Same lib works now out.repair r s repaired)

pub not_polled :
    (id : String) (seq : ℕ) (update : PollUpdate) (rows : List WebSource)
    → update.id ≡ id
    → update.setup_seq ≡ seq
    → any (λ row. row.id == id && eqb row.setup_seq seq) rows ≡ false
    → any (is_polled_row update) rows ≡ false
not_polled id seq update rows e e' gone = rw (e, e') gone

module _ (lib : Library) (cfg : Schedule) where
  judged_row :
      (verdict : Verdict) (src : WebSource) (out : PollOutcome) (now : ℕ)
      → ((judged lib cfg verdict src out now).id ≡ src.id)
        × ((judged lib cfg verdict src out now).setup_seq ≡ src.setup_seq)
  unfolding judged
  judged_row ok_verdict src out now = (refl, refl)
  judged_row suspect src out now = (refl, refl)
  judged_row broken_verdict src out now = (refl, refl)

  doubted_row :
      (src : WebSource) (out : PollOutcome) (update : PollUpdate)
      → ((doubted lib cfg src out update).id ≡ update.id)
        × ((doubted lib cfg src out update).setup_seq ≡ update.setup_seq)
  unfolding doubted
  doubted_row src out update =
      elim (Bool-cases (not (is_broken_verdict out.verdict) && not (is_healthy src.setup_health))) [
        | inl unsure ↦ rw unsure (refl, refl)
        | inr settled ↦ rw settled (refl, refl)
      ]

  pub poll_update_row :
      (src : WebSource) (out : PollOutcome) (now : ℕ)
      → ((poll_update lib cfg src out now).id ≡ src.id)
        × ((poll_update lib cfg src out now).setup_seq ≡ src.setup_seq)
  unfolding poll_update
  poll_update_row src out now =
      let first = judged lib cfg out.verdict src out now in
      let (e, e') = judged_row out.verdict src out now in
      let (d, d') = doubted_row src out first in (d ∙ e, d' ∙ e')
