-- ===== src/Newsletter/Requests/Order.antt =====
-- Messages, saves and the sources that are stopped, under changes of a mailbox: app/internal/newsletter/service.go.
use morgenblau.Common.{
  ◌≡◌, refl, Bool, true, false, ◌&&◌, ◌||◌, not, List, [], ◌∷◌, String, ◌==◌, eq_iff, any, keep_if,
  arith, Bool-cases, inl, inr,
}
use morgenblau.Newsletter.{
  Source, Message, Save, update_where, is_stopped, is_saved, is_active, is_visible,
}

-- Every message of a source that is stopped is saved.
unfoldable pub only_saved_stopped : List Source → List Save → List Message → Bool
only_saved_stopped sources saves [] = true
only_saved_stopped sources saves (m ∷ messages) =
    (not (is_stopped m.source_id sources) || is_saved saves m)
    && only_saved_stopped sources saves messages

-- A change of the tables under which every message stays in order.
pub order_kept :
    (sources sources' : List Source) (saves saves' : List Save) (messages : List Message)
    → ((m : Message)
        → (not (is_stopped m.source_id sources) || is_saved saves m) ≡ true
        → (not (is_stopped m.source_id sources') || is_saved saves' m) ≡ true)
    → only_saved_stopped sources saves messages ≡ true
    → only_saved_stopped sources' saves' messages ≡ true
unfolding only_saved_stopped
order_kept sources sources' saves saves' [] keep h = h
order_kept sources sources' saves saves' (m ∷ messages) keep h =
    ground (arith, keep m, order_kept sources sources' saves saves' messages keep)

-- A filter under which what it leaves is in order.
pub order_filtered :
    (sources sources' : List Source) (saves saves' : List Save) (test : Message → Bool)
    (messages : List Message)
    → ((m : Message)
        → (not (is_stopped m.source_id sources) || is_saved saves m) ≡ true
        → test m ≡ true
        → (not (is_stopped m.source_id sources') || is_saved saves' m) ≡ true)
    → only_saved_stopped sources saves messages ≡ true
    → only_saved_stopped sources' saves' (keep_if test messages) ≡ true
unfolding only_saved_stopped
order_filtered sources sources' saves saves' test [] keep h = h
order_filtered sources sources' saves saves' test (m ∷ messages) keep h =
    ground (arith, keep m, order_filtered sources sources' saves saves' test messages keep)

-- An update that leaves ids and statuses.
pub stopped_same :
    (id : String) (test : Source → Bool) (f : Source → Source) (sources : List Source)
    → ((s : Source) → (f s).id ≡ s.id × (f s).status ≡ s.status)
    → is_stopped id (update_where test f sources) ≡ is_stopped id sources
stopped_same id test f [] same = refl
stopped_same id test f (s ∷ sources) same = elim (Bool-cases (test s)) [
  | inl e ↦ rw (e, (same s).0, (same s).1, stopped_same id test f sources same) refl
  | inr e ↦ rw (e, stopped_same id test f sources same) refl
]

-- Stopping a source stops it alone.
pub stopped_other :
    (id other : String) (test : Source → Bool) (f : Source → Source) (sources : List Source)
    → ((s : Source) → test s ≡ true → (s.id == id) ≡ true)
    → ((s : Source) → (f s).id ≡ s.id)
    → (other == id) ≡ false
    → is_stopped other (update_where test f sources) ≡ is_stopped other sources
stopped_other id other test f [] mine same apart = refl
stopped_other id other test f (s ∷ sources) mine same apart = elim (Bool-cases (test s)) [
  | inl e ↦
      let own = (eq_iff s.id id).0 (mine s e) in
      let foreign : (s.id == other) ≡ false =
        ground (arith, eq_iff s.id other, eq_iff other id, mine s e) in
      rw (e, same s, foreign, stopped_other id other test f sources mine same apart) refl
  | inr e ↦ rw (e, stopped_other id other test f sources mine same apart) refl
]

-- Enabling sources stops none.
pub enabled_fewer :
    (id : String) (test : Source → Bool) (f : Source → Source) (sources : List Source)
    → ((s : Source) → is_active (f s).status ≡ true)
    → is_stopped id sources ≡ false
    → is_stopped id (update_where test f sources) ≡ false
enabled_fewer id test f [] on h = h
enabled_fewer id test f (s ∷ sources) on h = elim (Bool-cases (test s)) [
  | inl e ↦ rw (e, on s) (ground (arith, enabled_fewer id test f sources on))
  | inr e ↦ rw e (ground (arith, enabled_fewer id test f sources on))
]

pub kept_fewer :
    (id : String) (test : Source → Bool) (sources : List Source)
    → is_stopped id sources ≡ false
    → is_stopped id (keep_if test sources) ≡ false
kept_fewer id test [] h = h
kept_fewer id test (s ∷ sources) h = ground (arith, kept_fewer id test sources)

unfoldable pub ids_distinct : List Source → Bool
ids_distinct [] = true
ids_distinct (s ∷ sources) = not (any (λ o. o.id == s.id) sources) && ids_distinct sources

pub absent_not_stopped :
    (id : String) (sources : List Source)
    → any (λ o. o.id == id) sources ≡ false
    → is_stopped id sources ≡ false
absent_not_stopped id [] h = refl
absent_not_stopped id (s ∷ sources) h = ground (arith, absent_not_stopped id sources)

absent_no_target :
    (id : String) (sources : List Source)
    → any (λ o. o.id == id) sources ≡ false
    → any (λ src. is_visible id src && is_active src.status) sources ≡ false
absent_no_target id [] h = refl
absent_no_target id (s ∷ sources) h = ground (arith, absent_no_target id sources)

ids_update :
    (id : String) (test : Source → Bool) (f : Source → Source) (sources : List Source)
    → ((s : Source) → (f s).id ≡ s.id)
    → any (λ o. o.id == id) (update_where test f sources) ≡ any (λ o. o.id == id) sources
ids_update id test f [] same = refl
ids_update id test f (s ∷ sources) same = elim (Bool-cases (test s)) [
  | inl e ↦ rw (e, same s, ids_update id test f sources same) refl
  | inr e ↦ rw (e, ids_update id test f sources same) refl
]

ids_filter :
    (id : String) (test : Source → Bool) (sources : List Source)
    → any (λ o. o.id == id) sources ≡ false
    → any (λ o. o.id == id) (keep_if test sources) ≡ false
ids_filter id test [] h = h
ids_filter id test (s ∷ sources) h = ground (arith, ids_filter id test sources)

-- The source that can take a message is not stopped.
pub target_not_stopped :
    (id : String) (sources : List Source)
    → ids_distinct sources ≡ true
    → any (λ src. is_visible id src && is_active src.status) sources ≡ true
    → is_stopped id sources ≡ false
unfolding ids_distinct
target_not_stopped id [] d h = refl
target_not_stopped id (s ∷ sources) d h = elim (Bool-cases (s.id == id)) [
  | inl own ↦
      let alone : any (λ o. o.id == id) sources ≡ false =
        rw (← (eq_iff s.id id).0 own) (ground arith) in
      let rest = absent_not_stopped id sources alone in
      let none_ = absent_no_target id sources alone in ground (arith, rest, none_)
  | inr other ↦
      let rest = target_not_stopped id sources (ground arith) (ground arith) in ground (arith, rest)
]

pub distinct_update :
    (test : Source → Bool) (f : Source → Source) (sources : List Source)
    → ((s : Source) → (f s).id ≡ s.id)
    → ids_distinct sources ≡ true
    → ids_distinct (update_where test f sources) ≡ true
unfolding ids_distinct
distinct_update test f [] same d = refl
distinct_update test f (s ∷ sources) same d =
    let rest = distinct_update test f sources same (ground arith) in
    elim (Bool-cases (test s)) [
      | inl e ↦ rw (e, same s, ids_update s.id test f sources same) (ground (arith, rest))
      | inr e ↦ rw (e, ids_update s.id test f sources same) (ground (arith, rest))
    ]

pub distinct_filter :
    (test : Source → Bool) (sources : List Source)
    → ids_distinct sources ≡ true
    → ids_distinct (keep_if test sources) ≡ true
unfolding ids_distinct
distinct_filter test [] d = refl
distinct_filter test (s ∷ sources) d =
    ground (arith, distinct_filter test sources, ids_filter s.id test sources)
