-- ===== src/Sync/Engine.antt =====
-- app/internal/sync/syncuser.go: the coalescing of sync triggers into one run per user. A run's
-- goroutine touches the shared state in two critical sections, the start of a pass and its end;
-- `at_top` is its program counter between them. Events interleave them with SyncUser's calls.
-- What a pass resumes, lists and fetches is an argument of the event that ends it.
pub mod Runs
pub mod Histories
use morgenblau.Common.{
  ℕ, Option, none, some, Bool, true, false, ◌&&◌, ◌||◌, not, List, [], ◌∷◌, String, ◌==◌,
  if◌then◌else◌, Assoc, lookup, insert, remove, any,
}
use morgenblau.Jobs.{
  Tracker, Trigger, manual, login, add, sync_user, create, set_running, set_done, set_failed,
}

pub record UserRun : Type 0 where
  pub id : String
  pub did : String
  pub session_id : String
  pub pass_session_id : String
  pub rerun : Bool
  pub at_top : Bool

pub record Engine : Type 0 where
  pub active : Assoc UserRun
  pub jobs : Tracker

-- A present proof is `true`.
pub record SyncReceipt : Type 0 where
  pub rss : Bool
  pub standardfeed : Bool
  pub saves : Bool

abbrev pub is_manual : Trigger → Bool
is_manual manual = true
is_manual _ = false

-- What a trigger does to the run that is already active.
unfoldable pub coalesce : String → Trigger → UserRun → UserRun
coalesce session_id trigger run =
    let session_changed = not (run.session_id == session_id) in
    record run {
      session_id = session_id;
      rerun =
          run.rerun
          || (not (run.pass_session_id == "")
              && (is_manual trigger
                  || (session_changed && not (run.pass_session_id == session_id))));
    }

unfoldable pub start_run :
    String → String → Trigger → ℕ → String → Option UserRun → Engine → String × Engine
unfolding coalesce
start_run did session_id trigger now new_id (some run) e =
    (run.id, record e { active = insert did (coalesce session_id trigger run) e.active })
start_run did session_id trigger now new_id none e =
    let run : UserRun = record {
      id = new_id;
      did = did;
      session_id = session_id;
      pass_session_id = "";
      rerun = false;
      at_top = true;
    } in
    (
      new_id,
      record {
        active = insert did run e.active;
        jobs = (create sync_user did trigger now new_id e.jobs).1;
      },
    )

-- SyncUser: the id of the job that the trigger ends up in; `new_id` is the ULID of a fresh job.
unfoldable pub request_sync : String → String → Trigger → ℕ → String → Engine → String × Engine
unfolding start_run
request_sync did session_id trigger now new_id e =
    start_run did session_id trigger now new_id (lookup did e.active) e

-- run, from the loop's head to the pass: the session of the pass, and the job runs.
unfoldable pub begin_pass : String → Option UserRun → Engine → Option Engine
begin_pass did none e = none
begin_pass did (some run) e =
    if run.at_top
    then some (record {
      active =
          insert did (record run { pass_session_id = run.session_id; at_top = false }) e.active;
      jobs = set_running run.id e.jobs;
    })
    else none

-- finishSync, with whether the pass returned an error.
unfoldable pub finish_sync : String → SyncReceipt → Bool → ℕ → Tracker → Tracker
finish_sync id r failed now t =
    if failed || not r.rss || not r.standardfeed || not r.saves
    then set_failed id now t
    else set_done id now t

-- run, from the pass to the loop's head or the return; `alive` is parentCtx.Err() == nil.
unfoldable pub end_pass :
    String → Bool → SyncReceipt → Bool → ℕ → Option UserRun → Engine → Option Engine
unfolding finish_sync
end_pass did alive r failed now none e = none
end_pass did alive r failed now (some run) e =
    if run.at_top
    then none
    else (if run.rerun && alive
        then some (record e {
          active =
              insert did (record run { rerun = false; pass_session_id = ""; at_top = true })
                e.active;
        })
        else some (record {
          active = remove did e.active;
          jobs = finish_sync run.id r failed now e.jobs;
        }))

pub data Event : Type 0 where
  triggered : (did session_id : String) (trigger : Trigger) (now : ℕ) (new_id : String) → Event
  began : (did : String) → Event
  ended : (did : String) (alive : Bool) (r : SyncReceipt) (failed : Bool) (now : ℕ) → Event

-- `none` is an event that no goroutine is ready for.
unfoldable pub step : Event → Engine → Option Engine
unfolding request_sync begin_pass end_pass
step (triggered did session_id trigger now new_id) e =
    some (request_sync did session_id trigger now new_id e).1
step (began did) e = begin_pass did (lookup did e.active) e
step (ended did alive r failed now) e = end_pass did alive r failed now (lookup did e.active) e

-- The engine after a history, the newest event first.
unfoldable pub after : Engine → List Event → Option Engine
unfolding step
after e [] = some e
after e (ev ∷ earlier) = elim (after e earlier) [ none ↦ none | some e' ↦ step ev e' ]
