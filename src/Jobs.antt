-- ===== src/Jobs.antt =====
-- app/internal/jobs/jobs.go: the in-memory job tracker. A *Job is an index into the heap of jobs
-- that were ever allocated, so that the three maps alias one object as they do in Go. The clock's
-- reading and the generated ULID are arguments of the operations.
pub mod Reads
pub mod Frame
pub mod Retention
pub mod Dedup
pub mod Failures
use morgenblau.Common.{
  ℕ, zero, suc, ◌+◌, Option, none, some, Bool, true, false, List, [], ◌∷◌, ◌++◌, String, ltb, eqb,
  ◌==◌, ◌&&◌, ◌||◌, not, if◌then◌else◌, Assoc, lookup, insert, remove, str_lt, length, get_elem?,
  set, ◌⊎◌, inl, inr,
}

pub data Status : Type 0 where
  pending running done failed : Status

pub data Kind : Type 0 where
  sync_user fetch_one_feed : Kind

pub data Trigger : Type 0 where
  login manual add : Trigger

pub record Job : Type 0 where
  pub id : String
  pub kind : Kind
  pub trigger : Trigger
  pub user_did : String
  pub status : Status
  pub started_at : ℕ
  pub finished_at : ℕ  -- 0 is the zero time

pub record Tracker : Type 0 where
  pub heap : List Job
  pub jobs : Assoc ℕ
  pub latest_sync : Assoc ℕ
  pub sync_failures : Assoc ℕ
  pub retention : ℕ

pub data GetError : Type 0 where
  not_found forbidden : GetError

unfoldable pub new_with_options : ℕ → Tracker
new_with_options retention = record {
  heap = [];
  jobs = [];
  latest_sync = [];
  sync_failures = [];
  retention = retention;
}

abbrev pub is_finished : Status → Bool
is_finished done = true
is_finished failed = true
is_finished _ = false

abbrev pub is_sync : Kind → Bool
is_sync sync_user = true
is_sync fetch_one_feed = false

abbrev pub same_kind : Kind → Kind → Bool
same_kind sync_user k = is_sync k
same_kind fetch_one_feed k = not (is_sync k)

-- What a map entry points to; a missing entry is nil.
abbrev pub deref : List Job → Option ℕ → Option Job
deref heap none = none
deref heap (some p) = get_elem? heap p

unfoldable pub job_is_newer : Job → Option Job → Bool
job_is_newer job none = true
job_is_newer job (some current) =
    ltb current.started_at job.started_at
    || (eqb job.started_at current.started_at && str_lt current.id job.id)

track_latest : ℕ → Job → Tracker → Tracker
track_latest p j t =
    if job_is_newer j (deref t.heap (lookup j.user_did t.latest_sync))
    then record t { latest_sync = insert j.user_did p t.latest_sync }
    else t

clear_failure : Job → Option Job → Tracker → Tracker
clear_failure j none t = t
clear_failure j (some old) t =
    if job_is_newer j (some old)
    then record t { sync_failures = remove j.user_did t.sync_failures }
    else t

track_outcome : Status → ℕ → Job → Tracker → Tracker
unfolding clear_failure
track_outcome failed p j t =
    if job_is_newer j (deref t.heap (lookup j.user_did t.sync_failures))
    then record t { sync_failures = insert j.user_did p t.sync_failures }
    else t
track_outcome done p j t = clear_failure j (deref t.heap (lookup j.user_did t.sync_failures)) t
track_outcome _ p j t = t

-- trackSyncLocked(j), for the object j at `p`.
unfoldable pub track_sync : ℕ → Job → Tracker → Tracker
unfolding track_latest track_outcome
track_sync p j t = if is_sync j.kind then track_outcome j.status p j (track_latest p j t) else t

-- The allocation that Create and CreateOrReturnExisting share; the new pointer comes back.
unfoldable pub create : Kind → String → Trigger → ℕ → String → Tracker → ℕ × Tracker
create kind did trigger now id t =
    let j : Job = record {
      id = id;
      kind = kind;
      trigger = trigger;
      user_did = did;
      status = pending;
      started_at = now;
      finished_at = 0;
    } in
    let p = length t.heap in
    (p, track_sync p j (record t { heap = t.heap ++ j ∷ []; jobs = insert id p t.jobs }))

-- An unfinished job of the kind and the user that started after now - guard.
abbrev pub in_flight : Kind → String → ℕ → ℕ → Job → Bool
in_flight kind did guard now j =
    j.user_did == did
    && same_kind j.kind kind
    && not (is_finished j.status)
    && ltb now (j.started_at + guard)

abbrev pub or_next : (Job → Bool) → Option Job → Option Job → Option Job
or_next match none next = next
or_next match (some j) next = if match j then some j else next

-- The loop over t.jobs, which returns the first job in flight.
unfoldable pub existing : Kind → String → ℕ → ℕ → List Job → Assoc ℕ → Option Job
existing kind did guard now heap [] = none
existing kind did guard now heap ((id, p) ∷ rest) =
    or_next (in_flight kind did guard now) (get_elem? heap p)
      (existing kind did guard now heap rest)

create_unless :
    Option Job → Kind → String → Trigger → ℕ → String → Tracker → Option Job × Bool × Tracker
create_unless (some j) kind did trigger now id t = (some j, true, t)
create_unless none kind did trigger now id t =
    let (p, t') = create kind did trigger now id t in (get_elem? t'.heap p, false, t')

-- The returned job is a copy; the Boolean says that it existed.
unfoldable pub create_or_return_existing :
    Kind → String → Trigger → ℕ → ℕ → String → Tracker → Option Job × Bool × Tracker
unfolding create_unless
create_or_return_existing kind did trigger guard now id t =
    create_unless (existing kind did guard now t.heap t.jobs) kind did trigger now id t

-- A write through the pointer p, and the tracking that follows it.
pub write : ℕ → Job → Tracker → Tracker
write p j t = track_sync p j (record t { heap = set t.heap p j })

with_job : Option ℕ → (Job → Job) → Tracker → Tracker
unfolding write
with_job none f t = t
with_job (some p) f t = elim (get_elem? t.heap p) [ none ↦ t | some j ↦ write p (f j) t ]

unfoldable pub set_running : String → Tracker → Tracker
unfolding with_job
set_running id t =
    with_job (lookup id t.jobs) (λ j. record j { status = running; finished_at = 0 }) t

unfoldable pub transition : String → Status → ℕ → Tracker → Tracker
unfolding with_job
transition id s now t =
    with_job (lookup id t.jobs)
      (λ j. record j { status = s; finished_at = if is_finished s then now else 0 }) t

abbrev pub set_done : String → ℕ → Tracker → Tracker
set_done id = transition id done

abbrev pub set_failed : String → ℕ → Tracker → Tracker
set_failed id = transition id failed

unfoldable pub get : String → String → Tracker → GetError ⊎ Job
get id did t = elim (deref t.heap (lookup id t.jobs)) [
  | none ↦ inl not_found
  | some j ↦ if j.user_did == did then inr j else inl forbidden
]

-- FinishedAt.Before(now - retention)
unfoldable pub is_expired : ℕ → ℕ → Job → Bool
is_expired retention now j = is_finished j.status && ltb (j.finished_at + retention) now

abbrev pub points_to : Option ℕ → ℕ → Bool
points_to none p = false
points_to (some q) p = eqb q p

sweep_job : String → ℕ → Job → Tracker → Tracker
sweep_job id p j t = record t {
  jobs = remove id t.jobs;
  latest_sync =
      if points_to (lookup j.user_did t.latest_sync) p
      then remove j.user_did t.latest_sync
      else t.latest_sync;
}

pub sweep_entry : ℕ → String → ℕ → Tracker → Tracker
unfolding sweep_job is_expired
sweep_entry now id p t = elim (get_elem? t.heap p) [
  | none ↦ t
  | some j ↦ if is_expired t.retention now j then sweep_job id p j t else t
]

-- The loop over the entries that t.jobs had when it began.
pub sweep : ℕ → Assoc ℕ → Tracker → Tracker
unfolding sweep_entry
sweep now [] t = t
sweep now ((id, p) ∷ rest) t = sweep now rest (sweep_entry now id p t)

unfoldable pub gc : ℕ → Tracker → Tracker
unfolding sweep
gc now t = sweep now t.jobs t
