-- ===== src/Jobs/Frame.antt =====
-- What the tracker's helpers in jobs.go leave alone.
use morgenblau.Common.{
  ℕ, ◌≡◌, refl, ◌∙◌, none, [], ◌∷◌, String, arith, Assoc, lookup, lookup-remove, get_elem?,
  Option-cases, inl, inr, ◌⊎◌,
}
use morgenblau.Jobs.{Job, Tracker, track_sync, sweep, sweep_entry, gc}

module _ (p : ℕ) (j : Job) (t : Tracker) where
  pub heap-track_sync : (track_sync p j t).heap ≡ t.heap
  unfolding track_sync
  heap-track_sync = ground arith

  pub jobs-track_sync : (track_sync p j t).jobs ≡ t.jobs
  unfolding track_sync
  jobs-track_sync = ground arith

  pub retention-track_sync : (track_sync p j t).retention ≡ t.retention
  unfolding track_sync
  retention-track_sync = ground arith

module _ (now : ℕ) (id : String) (p : ℕ) (t : Tracker) where
  pub heap-sweep_entry : (sweep_entry now id p t).heap ≡ t.heap
  unfolding sweep_entry
  heap-sweep_entry = ground arith

  failures-sweep_entry : (sweep_entry now id p t).sync_failures ≡ t.sync_failures
  unfolding sweep_entry
  failures-sweep_entry = ground arith

  pub retention-sweep_entry : (sweep_entry now id p t).retention ≡ t.retention
  unfolding sweep_entry
  retention-sweep_entry = ground arith

heap-sweep : (now : ℕ) (es : Assoc ℕ) (t : Tracker) → (sweep now es t).heap ≡ t.heap
unfolding sweep
heap-sweep now [] t = refl
heap-sweep now ((id, p) ∷ es) t =
    heap-sweep now es (sweep_entry now id p t) ∙ heap-sweep_entry now id p t

failures-sweep :
    (now : ℕ) (es : Assoc ℕ) (t : Tracker) → (sweep now es t).sync_failures ≡ t.sync_failures
unfolding sweep
failures-sweep now [] t = refl
failures-sweep now ((id, p) ∷ es) t =
    failures-sweep now es (sweep_entry now id p t) ∙ failures-sweep_entry now id p t

pub heap-gc : (now : ℕ) (t : Tracker) → (gc now t).heap ≡ t.heap
unfolding gc
heap-gc now t = heap-sweep now t.jobs t

pub failures-gc : (now : ℕ) (t : Tracker) → (gc now t).sync_failures ≡ t.sync_failures
unfolding gc
failures-gc now t = failures-sweep now t.jobs t

-- A sweep keeps an entry of latest_sync or drops it.
latest-sweep_entry :
    (now : ℕ) (id did : String) (p : ℕ) (t : Tracker)
    → (lookup did (sweep_entry now id p t).latest_sync ≡ none)
      ⊎ (lookup did (sweep_entry now id p t).latest_sync ≡ lookup did t.latest_sync)
unfolding sweep_entry
latest-sweep_entry now id did p t = elim (Option-cases (get_elem? t.heap p)) [
  | inl e ↦ rw (e, sweep_entry) (inr refl)
  | inr (j, e) ↦ rw (e, sweep_entry) (ground (arith, lookup-remove j.user_did did t.latest_sync))
]

latest-sweep :
    (now : ℕ) (did : String) (es : Assoc ℕ) (t : Tracker)
    → (lookup did (sweep now es t).latest_sync ≡ none)
      ⊎ (lookup did (sweep now es t).latest_sync ≡ lookup did t.latest_sync)
unfolding sweep
latest-sweep now did [] t = inr refl
latest-sweep now did ((id, p) ∷ es) t = elim (latest-sweep now did es (sweep_entry now id p t)) [
  | inl gone ↦ inl gone
  | inr kept ↦ elim (latest-sweep_entry now id did p t) [
    | inl gone ↦ inl (kept ∙ gone)
    | inr same ↦ inr (kept ∙ same)
  ]
]

pub latest-gc :
    (now : ℕ) (did : String) (t : Tracker)
    → (lookup did (gc now t).latest_sync ≡ none)
      ⊎ (lookup did (gc now t).latest_sync ≡ lookup did t.latest_sync)
unfolding gc
latest-gc now did t = latest-sweep now did t.jobs t
