-- ===== src/Jobs/Failures.antt =====
-- How long a failed sync stays visible in jobs.go.
use morgenblau.Common.{
  ℕ, ◌≡◌, refl, ◌∙◌, ap, Option, none, some, true, false, ◌⊎◌, List, [], ◌∷◌, String, arith, lookup,
  insert, lookup-insert, eq_refl, get_elem?, get_elem?-set, set, eqb, Bool-cases, inl, inr,
  str_lt_irrefl,
}
use morgenblau.Jobs.{
  Job, Tracker, sync_user, is_sync, failed, deref, job_is_newer, track_sync, write, with_job,
  set_failed, transition, gc,
}
use morgenblau.Jobs.Reads.{latest_sync_for_user}
use morgenblau.Jobs.Frame.{heap-gc, failures-gc, latest-gc}

job_is_newer_irrefl : (j : Job) → job_is_newer j (some j) ≡ false
unfolding job_is_newer
job_is_newer_irrefl j = ground (arith, str_lt_irrefl j.id)

-- The user's failed sync is recorded, and no other job is the latest.
record Failed (did : String) (p : ℕ) (j : Job) (t : Tracker) : Type 0 where
  recorded : lookup did t.sync_failures ≡ some p
  stored : get_elem? t.heap p ≡ some j
  latest : (lookup did t.latest_sync ≡ none) ⊎ (lookup did t.latest_sync ≡ some p)
  is_failed : j.status ≡ failed

gc-Failed :
    {did : String} {p : ℕ} {j : Job} (now : ℕ) (t : Tracker)
    → Failed did p j t
    → Failed did p j (gc now t)
gc-Failed {did} now t f = record {
  recorded = rw failures-gc f.recorded;
  stored = rw heap-gc f.stored;
  latest = elim (latest-gc now did t) [ inl gone ↦ inl gone | inr same ↦ rw same f.latest ];
  is_failed = f.is_failed;
}

-- Collections at any instants, one after the other.
unfoldable pub collect : List ℕ → Tracker → Tracker
collect [] t = t
collect (now ∷ nows) t = collect nows (gc now t)

collect-Failed :
    {did : String} {p : ℕ} {j : Job} (nows : List ℕ) (t : Tracker)
    → Failed did p j t
    → Failed did p j (collect nows t)
unfolding collect
collect-Failed [] t f = f
collect-Failed (now ∷ nows) t f = collect-Failed nows (gc now t) (gc-Failed now t f)

latest-Failed :
    {did : String} {p : ℕ} {j : Job} (now : ℕ) (t : Tracker)
    → Failed did p j t
    → (latest_sync_for_user did now t).0 ≡ some j
unfolding latest_sync_for_user
latest-Failed {did} {p} {j} now t f =
    let g = gc-Failed now t f in
    elim g.latest [
      | inl gone ↦ rw (gone, g.recorded, g.stored)
      | inr same ↦ rw (same, g.recorded, g.stored) (ground (arith, g.is_failed))
    ]

-- The job as a failure at `now` leaves it.
abbrev pub failed_at : ℕ → Job → Job
failed_at now j = record j { status = failed; finished_at = now }

newer_failed :
    (now : ℕ) (j : Job) (o : Option Job) → job_is_newer (failed_at now j) o ≡ job_is_newer j o
unfolding job_is_newer
newer_failed now j none = refl
newer_failed now j (some k) = refl

module _ (p now : ℕ) (j : Job) (heap : List Job) (at_p : get_elem? heap p ≡ some j) where
  stored_failed : get_elem? (set heap p (failed_at now j)) p ≡ some (failed_at now j)
  stored_failed = ground (arith, get_elem?-set heap p p j (failed_at now j) at_p)

  -- Unless it is the job itself, the failure on record is not touched by the write.
  still_newer :
      (o : Option ℕ)
      → job_is_newer j (deref heap o) ≡ true
      → job_is_newer (failed_at now j) (deref (set heap p (failed_at now j)) o) ≡ true
  still_newer none newer = newer_failed now j none ∙ newer
  still_newer (some q) newer = elim (Bool-cases (eqb p q)) [
    | inl e ↦
        let same : p ≡ q = ground arith in
        cc (job_is_newer_irrefl j, at_p, ap (λ i. get_elem? heap i) same)
    | inr ne ↦
        rw (get_elem?-set heap p q j (failed_at now j) at_p, ne)
          (newer_failed now j (get_elem? heap q) ∙ newer)
  ]

set_failed-write :
    (id : String) (p now : ℕ) (j : Job) (t : Tracker)
    → lookup id t.jobs ≡ some p
    → get_elem? t.heap p ≡ some j
    → set_failed id now t ≡ write p (failed_at now j) t
unfolding transition
set_failed-write id p now j t at_id at_p = rw at_id (rw (at_p, with_job))

module _ (id : String) (p now : ℕ) (j : Job) (t : Tracker) where
  set_failed-eq :
      lookup id t.jobs ≡ some p
      → get_elem? t.heap p ≡ some j
      → j.kind ≡ sync_user
      → lookup j.user_did t.latest_sync ≡ some p
      → job_is_newer j (deref t.heap (lookup j.user_did t.sync_failures)) ≡ true
      → set_failed id now t ≡ record t {
        heap = set t.heap p (failed_at now j);
        sync_failures = insert j.user_did p t.sync_failures;
      }
  unfolding write track_sync
  set_failed-eq at_id at_p sync latest newer =
      let stored = stored_failed p now j t.heap at_p in
      let first = still_newer p now j t.heap at_p (lookup j.user_did t.sync_failures) newer in
      set_failed-write id p now j t at_id at_p
      ∙ rw (ap is_sync sync, latest) (rw (stored, job_is_newer_irrefl) (rw first))

  set_failed-Failed :
      lookup id t.jobs ≡ some p
      → get_elem? t.heap p ≡ some j
      → j.kind ≡ sync_user
      → lookup j.user_did t.latest_sync ≡ some p
      → job_is_newer j (deref t.heap (lookup j.user_did t.sync_failures)) ≡ true
      → Failed j.user_did p (failed_at now j) (set_failed id now t)
  set_failed-Failed at_id at_p sync latest newer =
      rw (set_failed-eq at_id at_p sync latest newer) (record {
        recorded = rw (lookup-insert, eq_refl);
        stored = stored_failed p now j t.heap at_p;
        latest = inr latest;
        is_failed = refl;
      })

-- When the user's latest sync fails, and no failure on record is as new, the reader goes on seeing
-- that failed job with its finish time, however often and however late the tracker is collected.
pub failure_stays_visible :
    (id : String) (p now later : ℕ) (nows : List ℕ) (j : Job) (t : Tracker)
    → lookup id t.jobs ≡ some p
    → get_elem? t.heap p ≡ some j
    → j.kind ≡ sync_user
    → lookup j.user_did t.latest_sync ≡ some p
    → job_is_newer j (deref t.heap (lookup j.user_did t.sync_failures)) ≡ true
    → (latest_sync_for_user j.user_did later (collect nows (set_failed id now t))).0
      ≡ some (failed_at now j)
failure_stays_visible id p now later nows j t at_id at_p sync latest newer =
    latest-Failed later _
      (collect-Failed nows _ (set_failed-Failed id p now j t at_id at_p sync latest newer))
