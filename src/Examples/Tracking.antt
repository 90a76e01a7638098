-- ===== src/Examples/Tracking.antt =====
-- Examples for jobs.go.
use morgenblau.Common.{
  ℕ, ◌≡◌, refl, none, some, true, [], ◌∷◌, arith, if◌then◌else◌, lookup, eq_iff, inl, inr,
}
use morgenblau.Jobs.{
  Job, Tracker, Status, running, done, manual, login, sync_user, new_with_options, existing,
  in_flight, create_or_return_existing, gc, deref, job_is_newer, set_failed,
}
use morgenblau.Jobs.Reads.{latest_sync_for_user}
use morgenblau.Jobs.Dedup.{second_trigger_deduped}
use morgenblau.Jobs.Retention.{kept, gc_exact}
use morgenblau.Jobs.Failures.{collect, failed_at, failure_stays_visible}

abbrev job_in : Status → ℕ → Job
job_in status finished_at = record {
  id = "01A";
  kind = sync_user;
  trigger = manual;
  user_did = "did:plc:a";
  status = status;
  started_at = 5;
  finished_at = finished_at;
}

abbrev tracker_with : Job → Tracker
tracker_with j = record {
  heap = j ∷ [];
  jobs = ("01A", 0) ∷ [];
  latest_sync = ("did:plc:a", 0) ∷ [];
  sync_failures = [];
  retention = 300;
}

second_trigger_deduped_example :
    let first =
      create_or_return_existing sync_user "did:plc:a" manual 30 100 "01A" (new_with_options 300) in
    let second = create_or_return_existing sync_user "did:plc:a" login 30 120 "01B" first.2 in
    (j : Job) × (second ≡ (some j, true, first.2))
    × (in_flight sync_user "did:plc:a" 30 120 j ≡ true)
unfolding existing new_with_options
second_trigger_deduped_example =
    second_trigger_deduped sync_user "did:plc:a" manual login 30 100 120 "01A" "01B"
      (new_with_options 300) refl (omega arith)

abbrev two_jobs : Tracker
two_jobs = record (tracker_with (job_in done 10)) {
  heap = job_in done 10 ∷ job_in running 0 ∷ [];
  jobs = ("01A", 0) ∷ ("01B", 1) ∷ [];
}

gc_exact_example : lookup "01B" (gc 1000 two_jobs).jobs ≡ (
    if kept 300 1000 (deref two_jobs.heap (lookup "01B" two_jobs.jobs))
    then lookup "01B" two_jobs.jobs
    else none)
gc_exact_example =
    gc_exact 1000 "01B" two_jobs
      ((λ h. elim h [ inl e ↦ cc ((eq_iff "01A" "01B").1 e) | inr h ↦ h ]), ((λ h. h), tt))

failure_stays_visible_example :
    (latest_sync_for_user "did:plc:a" 5000
      (collect (500 ∷ 900 ∷ []) (set_failed "01A" 10 (tracker_with (job_in running 0))))).0
    ≡ some (failed_at 10 (job_in running 0))
unfolding lookup job_is_newer
failure_stays_visible_example =
    failure_stays_visible "01A" 0 10 5000 (500 ∷ 900 ∷ []) (job_in running 0)
      (tracker_with (job_in running 0)) refl refl refl refl refl
