-- ===== src/Newsletter/Requests/SaveOrder.antt =====
-- Messages of stopped sources under the writes on messages and saves: app/internal/newsletter/service.go.
use morgenblau.Common.{
  some_inj, ◌≡◌, refl, ap, some, Bool, true, false, not, List, [], ◌∷◌, String, ◌==◌, eq_iff, any,
  keep_if, arith, Bool-cases, inl, inr,
}
use morgenblau.Newsletter.{Source, Message, Save, update_where, is_stopped, is_saved}
use morgenblau.Newsletter.Requests.{find_save}
use morgenblau.Newsletter.Requests.Order.{only_saved_stopped}
use morgenblau.Newsletter.Requests.SourceOrder.{saves_distinct}

-- A message goes where nothing is stopped.
pub moved_order :
    (id target : String) (f : Message → Message) (sources : List Source) (saves : List Save)
    (messages : List Message)
    → ((m : Message) → (f m).source_id ≡ target)
    → is_stopped target sources ≡ false
    → only_saved_stopped sources saves messages ≡ true
    → only_saved_stopped sources saves (update_where (λ m. m.id == id) f messages) ≡ true
unfolding only_saved_stopped
moved_order id target f sources saves [] goes on h = h
moved_order id target f sources saves (m ∷ messages) goes on h =
    let rest = moved_order id target f sources saves messages goes on (ground arith) in
    elim (Bool-cases (m.id == id)) [
      | inl e ↦ rw (e, goes m, on) (ground (arith, rest))
      | inr e ↦ rw e (ground (arith, rest))
    ]

-- A change of messages that leaves ids and sources.
pub images_order :
    (test : Message → Bool) (f : Message → Message) (sources : List Source) (saves : List Save)
    (messages : List Message)
    → ((m : Message) → (f m).source_id ≡ m.source_id × (f m).id ≡ m.id)
    → only_saved_stopped sources saves messages ≡ true
    → only_saved_stopped sources saves (update_where test f messages) ≡ true
unfolding only_saved_stopped
images_order test f sources saves [] same h = h
images_order test f sources saves (m ∷ messages) same h =
    let rest = images_order test f sources saves messages same (ground arith) in
    elim (Bool-cases (test m)) [
      | inl e ↦ rw (e, (same m).0, (same m).1) (ground (arith, rest))
      | inr e ↦ rw e (ground (arith, rest))
    ]

pub is_saved-update :
    (test : Save → Bool) (f : Save → Save) (saves : List Save) (m : Message)
    → ((s : Save) → (f s).message_id ≡ s.message_id)
    → is_saved (update_where test f saves) m ≡ is_saved saves m
is_saved-update test f [] m same = refl
is_saved-update test f (s ∷ saves) m same = elim (Bool-cases (test s)) [
  | inl e ↦ rw (e, same s, is_saved-update test f saves m same) refl
  | inr e ↦ rw (e, is_saved-update test f saves m same) refl
]

pub find_save-message :
    (id : String) (saves : List Save) (row : Save)
    → find_save id saves ≡ some row
    → (row.id ≡ id) × (any (λ s. s.id == id) saves ≡ true)
find_save-message id [] row e = cc
find_save-message id (s ∷ saves) row e = elim (Bool-cases (s.id == id)) [
  | inl own ↦ let same = some_inj (rw own at e) in rw (← same) ((eq_iff s.id id).0 own, rw own refl)
  | inr other ↦
      let (mine, there) = find_save-message id saves row (rw other at e) in (mine, ground arith)
]

absent_saves_stay :
    (id : String) (saves : List Save)
    → any (λ s. s.id == id) saves ≡ false
    → keep_if (λ s. not (s.id == id)) saves ≡ saves
absent_saves_stay id [] h = refl
absent_saves_stay id (s ∷ saves) h =
    let other : (s.id == id) ≡ false = ground arith in
    rw other (ap (λ t. s ∷ t) (absent_saves_stay id saves (ground arith)))

-- Only the message of the save that is deleted may lose its save.
pub is_saved-other :
    (id : String) (row : Save) (saves : List Save) (m : Message)
    → saves_distinct saves ≡ true
    → find_save id saves ≡ some row
    → (m.id == row.message_id) ≡ false
    → is_saved saves m ≡ true
    → is_saved (keep_if (λ s. not (s.id == id)) saves) m ≡ true
unfolding saves_distinct
is_saved-other id row [] m d e other h = cc
is_saved-other id row (s ∷ saves) m d e other h = elim (Bool-cases (s.id == id)) [
  | inl own ↦
      let same = some_inj (rw own at e) in
      let alone : any (λ o. o.id == id) saves ≡ false =
        rw (← (eq_iff s.id id).0 own) (ground arith) in
      let foreign : (s.message_id == m.id) ≡ false =
        rw same (ground (arith, eq_iff row.message_id m.id, eq_iff m.id row.message_id)) in
      rw (own, absent_saves_stay id saves alone) (rw foreign at h)
  | inr apart ↦
      let rest = is_saved-other id row saves m (ground arith) (rw apart at e) other in
      rw apart (ground (arith, rest))
]

saves_filtered :
    (id k : String) (saves : List Save)
    → any (λ o. o.id == k) saves ≡ false
    → any (λ o. o.id == k) (keep_if (λ s. not (s.id == id)) saves) ≡ false
saves_filtered id k [] h = h
saves_filtered id k (s ∷ saves) h = ground (arith, saves_filtered id k saves)

pub distinct_saves_filtered :
    (id : String) (saves : List Save)
    → saves_distinct saves ≡ true
    → saves_distinct (keep_if (λ s. not (s.id == id)) saves) ≡ true
unfolding saves_distinct
distinct_saves_filtered id [] h = h
distinct_saves_filtered id (s ∷ saves) h =
    ground (arith, distinct_saves_filtered id saves, saves_filtered id s.id saves)

saves_updated :
    (k : String) (test : Save → Bool) (f : Save → Save) (saves : List Save)
    → ((s : Save) → (f s).id ≡ s.id)
    → any (λ o. o.id == k) (update_where test f saves) ≡ any (λ o. o.id == k) saves
saves_updated k test f [] same = refl
saves_updated k test f (s ∷ saves) same = elim (Bool-cases (test s)) [
  | inl e ↦ rw (e, same s, saves_updated k test f saves same) refl
  | inr e ↦ rw (e, saves_updated k test f saves same) refl
]

pub distinct_saves_updated :
    (test : Save → Bool) (f : Save → Save) (saves : List Save)
    → ((s : Save) → (f s).id ≡ s.id)
    → saves_distinct saves ≡ true
    → saves_distinct (update_where test f saves) ≡ true
unfolding saves_distinct
distinct_saves_updated test f [] same d = d
distinct_saves_updated test f (s ∷ saves) same d =
    let rest = distinct_saves_updated test f saves same (ground arith) in
    elim (Bool-cases (test s)) [
      | inl e ↦ rw (e, same s, saves_updated s.id test f saves same) (ground (arith, rest))
      | inr e ↦ rw (e, saves_updated s.id test f saves same) (ground (arith, rest))
    ]
