-- ===== src/Jobs/Reads.antt =====
-- The two lookups by user of app/internal/jobs/jobs.go.
use morgenblau.Common.{
  ℕ, Option, none, some, Bool, true, false, List, [], ◌∷◌, String, ltb, ◌==◌, ◌&&◌, not,
  if◌then◌else◌, Assoc, lookup, get_elem?,
}
use morgenblau.Jobs.{Job, Tracker, is_finished, deref, gc}

-- The loop of ActiveForUser, with the best job so far.
abbrev better : Job → Option Job → Bool
better j none = true
better j (some best) = ltb best.started_at j.started_at

unfoldable pub best_active : String → List Job → Assoc ℕ → Option Job → Option Job
best_active did heap [] best = best
best_active did heap ((id, p) ∷ rest) best = best_active did heap rest (elim (get_elem? heap p) [
  | none ↦ best
  | some j ↦
      if j.user_did == did && not (is_finished j.status) && better j best then some j else best
])

unfoldable pub active_for_user : String → ℕ → Tracker → Option Job × Tracker
active_for_user did now t = let t' = gc now t in (best_active did t'.heap t'.jobs none, t')

abbrev is_active : Option Job → Bool
is_active none = false
is_active (some j) = not (is_finished j.status)

abbrev or_else : Option Job → Option Job → Option Job
or_else (some j) other = some j
or_else none other = other

unfoldable pub latest_sync_for_user : String → ℕ → Tracker → Option Job × Tracker
latest_sync_for_user did now t =
    let t' = gc now t in
    let latest = deref t'.heap (lookup did t'.latest_sync) in
    let failure = deref t'.heap (lookup did t'.sync_failures) in
    (if is_active latest then latest else or_else failure latest, t')
