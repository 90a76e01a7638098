-- ===== src/Jobs/Retention.antt =====
-- What the garbage collection of jobs.go removes.
use morgenblau.Common.{
  ℕ, ◌≡◌, refl, Option, none, some, Bool, true, false, ◌||◌, not, leb, ◌+◌, List, [], ◌∷◌, String,
  arith, ◌==◌, if◌then◌else◌, Assoc, lookup, lookup-remove, lookup_absent, IsMap, eq_iff, get_elem?,
  Bool-cases, Option-cases, inl, inr,
}
use morgenblau.Jobs.{
  Job, Status, pending, running, done, failed, Tracker, sweep, sweep_entry, gc, deref, is_expired,
}
use morgenblau.Jobs.Frame.{heap-sweep_entry, retention-sweep_entry}

-- A finished job whose retention has passed.
abbrev expired : ℕ → ℕ → Option Job → Bool
expired retention now none = false
expired retention now (some j) = is_expired retention now j

-- Some entry of the list is that of `k` and has expired.
expired_in : String → Assoc ℕ → ℕ → ℕ → List Job → Bool
expired_in k [] retention now heap = false
expired_in k ((id, p) ∷ es) retention now heap =
    let rest = expired_in k es retention now heap in
    if id == k then expired retention now (get_elem? heap p) || rest else rest

sweep_entry_lem :
    (now : ℕ) (k id : String) (p : ℕ) (t : Tracker)
    → lookup k (sweep_entry now id p t).jobs ≡ (
        if id == k
        then if expired t.retention now (get_elem? t.heap p) then none else lookup k t.jobs
        else lookup k t.jobs)
unfolding sweep_entry
sweep_entry_lem now k id p t = elim (Option-cases (get_elem? t.heap p)) [
  | inl e ↦ rw (e, sweep_entry) (ground arith)
  | inr (j, e) ↦ rw (e, sweep_entry) (ground (arith, lookup-remove id k t.jobs))
]

sweep_lem :
    (now : ℕ) (k : String) (es : Assoc ℕ) (t : Tracker)
    → lookup k (sweep now es t).jobs
      ≡ (if expired_in k es t.retention now t.heap then none else lookup k t.jobs)
unfolding sweep expired_in
sweep_lem now k [] t = refl
sweep_lem now k ((id, p) ∷ es) t =
    let t' = sweep_entry now id p t in
    let rest = sweep_lem now k es t' in
    rw (rest, heap-sweep_entry, retention-sweep_entry, sweep_entry_lem) (ground arith)

expired_in_lem :
    (k : String) (es : Assoc ℕ) (retention now : ℕ) (heap : List Job)
    → IsMap es
    → expired_in k es retention now heap ≡ expired retention now (deref heap (lookup k es))
unfolding expired_in lookup
expired_in_lem k [] retention now heap u = refl
expired_in_lem k ((id, p) ∷ es) retention now heap u = elim (Bool-cases (id == k)) [
  | inl e ↦
      let absent = lookup_absent k es (λ h. u.0 (rw ((eq_iff id k).0 e) h)) in
      let rest = expired_in_lem k es retention now heap u.1 in ground (arith, rest, absent)
  | inr ne ↦ rw ne (expired_in_lem k es retention now heap u.1)
]

-- Whether a job of that status and finishing time outlives a collection: a pending or running one
-- always does, a done or failed one until its retention is over.
abbrev pub is_kept : Status → ℕ → ℕ → ℕ → Bool
is_kept pending finished_at retention now = true
is_kept running finished_at retention now = true
is_kept done finished_at retention now = leb now (finished_at + retention)
is_kept failed finished_at retention now = leb now (finished_at + retention)

abbrev pub kept : ℕ → ℕ → Option Job → Bool
kept retention now none = true
kept retention now (some j) = is_kept j.status j.finished_at retention now

expired-kept :
    (retention now : ℕ) (o : Option Job) → expired retention now o ≡ not (kept retention now o)
unfolding is_expired
expired-kept retention now none = refl
expired-kept retention now (some j) = by_status j.status refl
  where
    by_status :
        (s : Status)
        → j.status ≡ s
        → expired retention now (some j) ≡ not (kept retention now (some j))
    by_status pending e = rw e refl
    by_status running e = rw e refl
    by_status done e = rw e (ground arith)
    by_status failed e = rw e (ground arith)

-- After a collection a job that is pending or running is under its id as before, and so is a done or
-- failed one whose finishing time is at most the retention ago; a done or failed job that finished
-- earlier is gone. (The map holds an id once.)
pub gc_exact :
    (now : ℕ) (id : String) (t : Tracker)
    → IsMap t.jobs
    → lookup id (gc now t).jobs
      ≡ (if kept t.retention now (deref t.heap (lookup id t.jobs)) then lookup id t.jobs else none)
unfolding gc
gc_exact now id t u =
    rw
      (
        sweep_lem,
        expired_in_lem id t.jobs t.retention now t.heap u,
        expired-kept t.retention now (deref t.heap (lookup id t.jobs)),
      )
      (ground arith)
