-- ===== src/Jobs/Dedup.antt =====
-- The in-flight guard of CreateOrReturnExisting in jobs.go.
use morgenblau.Common.{
  ℕ, ◌+◌, ◌<◌, ◌≡◌, refl, Option, none, some, Bool, true, List, [], ◌∷◌, ◌++◌, String, arith, ◌==◌,
  Assoc, lookup, insert, lookup-insert, eq_refl, get_elem?, get_elem?-append, length, Bool-cases,
  inl, inr, some_inj,
}
use native.Mathlib.Nat.{add-zero}
use morgenblau.Jobs.{
  Job, Tracker, Kind, sync_user, fetch_one_feed, Trigger, same_kind, in_flight, or_next, pending,
  create, existing, create_or_return_existing,
}
use morgenblau.Jobs.Frame.{heap-track_sync, jobs-track_sync}

or_next-some :
    (match : Job → Bool) (o : Option Job) (k : Job)
    → (j : Job) × (or_next match o (some k) ≡ some j)
or_next-some match none k = (k, refl)
or_next-some match (some j) k = elim (Bool-cases (match j)) [
  | inl e ↦ (j, rw e)
  | inr e ↦ (k, rw e)
]

or_next_match :
    (match : Job → Bool) (o next : Option Job) (j : Job)
    → or_next match o next ≡ some j
    → (next ≡ some j → match j ≡ true)
    → match j ≡ true
or_next_match match none next j h rest = rest h
or_next_match match (some k) next j h rest = elim (Bool-cases (match k)) [
  | inl e ↦ let same : k ≡ j = some_inj (rw e at h) in rw same at e
  | inr e ↦ rest (rw e at h)
]

module _ (kind : Kind) (did : String) (guard now : ℕ) (heap : List Job) where
  existing_sound :
      (m : Assoc ℕ) (j : Job)
      → existing kind did guard now heap m ≡ some j
      → in_flight kind did guard now j ≡ true
  unfolding existing
  existing_sound [] j h = cc
  existing_sound ((id, p) ∷ m) j h =
      or_next_match (in_flight kind did guard now) (get_elem? heap p) _ j h (existing_sound m j)

  existing_complete :
      (m : Assoc ℕ) (id : String) (p : ℕ) (j : Job)
      → lookup id m ≡ some p
      → get_elem? heap p ≡ some j
      → in_flight kind did guard now j ≡ true
      → (k : Job) × (existing kind did guard now heap m ≡ some k)
  unfolding existing lookup
  existing_complete [] id p j found at_p match = cc
  existing_complete ((i, q) ∷ m) id p j found at_p match = elim (Bool-cases (i == id)) [
    | inl e ↦ let same : q ≡ p = some_inj (rw e at found) in (j, rw (same, at_p, match))
    | inr ne ↦
        let (k, rest) = existing_complete m id p j (rw ne at found) at_p match in
        rw rest (or_next-some (in_flight kind did guard now) (get_elem? heap q) k)
  ]

-- What the allocation leaves: the new job is in flight, behind its id.
module _ (kind : Kind) (did : String) (trigger : Trigger) (now : ℕ) (id : String)
    (t : Tracker) where
  created : Job
  created = record {
    id = id;
    kind = kind;
    trigger = trigger;
    user_did = did;
    status = pending;
    started_at = now;
    finished_at = 0;
  }

  heap-create : (create kind did trigger now id t).1.heap ≡ t.heap ++ created ∷ []
  unfolding create created
  heap-create = heap-track_sync _ _ _

  jobs-create : (create kind did trigger now id t).1.jobs ≡ insert id (length t.heap) t.jobs
  unfolding create
  jobs-create = jobs-track_sync _ _ _

  lookup-create : lookup id (create kind did trigger now id t).1.jobs ≡ some (length t.heap)
  lookup-create = rw (jobs-create, lookup-insert, eq_refl)

  at-create : get_elem? (create kind did trigger now id t).1.heap (length t.heap) ≡ some created
  at-create = rw heap-create (rw add-zero at (get_elem?-append t.heap (created ∷ []) 0))

same_kind_refl : (k : Kind) → same_kind k k ≡ true
same_kind_refl sync_user = refl
same_kind_refl fetch_one_feed = refl

created-in_flight :
    (kind : Kind) (did : String) (trigger : Trigger) (guard now now' : ℕ) (id : String)
    (t : Tracker)
    → now' < now + guard
    → in_flight kind did guard now' (created kind did trigger now id t) ≡ true
unfolding created
created-in_flight kind did trigger guard now now' id t soon =
    rw (eq_refl, same_kind_refl) (ground arith)

-- Once a trigger has created a job, a second trigger of the kind for the user, before the guard has
-- passed since, gets a job that is in flight, creates none and changes nothing.
pub second_trigger_deduped :
    (kind : Kind) (did : String) (trigger trigger' : Trigger) (guard now now' : ℕ) (id id' : String)
    (t : Tracker)
    → existing kind did guard now t.heap t.jobs ≡ none
    → now' < now + guard
    → let first = create_or_return_existing kind did trigger guard now id t in
      let second = create_or_return_existing kind did trigger' guard now' id' first.2 in
      (j : Job) × (second ≡ (some j, true, first.2)) × (in_flight kind did guard now' j ≡ true)
unfolding create_or_return_existing
second_trigger_deduped kind did trigger trigger' guard now now' id id' t fresh soon =
    let t' = (create kind did trigger now id t).1 in
    let match : in_flight kind did guard now' (created kind did trigger now id t) ≡ true =
      created-in_flight kind did trigger guard now now' id t soon in
    let (j, found) =
      existing_complete kind did guard now' t'.heap t'.jobs id (length t.heap) _
        (lookup-create kind did trigger now id t) (at-create kind did trigger now id t) match in
    rw fresh (j, rw found, existing_sound kind did guard now' t'.heap t'.jobs j found)
