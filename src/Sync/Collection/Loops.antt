-- ===== src/Sync/Collection/Loops.antt =====
-- The two loops of reconcileCollection in reconcile.go, over a store that is read row by row.
use morgenblau.Common.{
  ◌≡◌, refl, ap, sym, Option, none, some, Bool, false, ◌&&◌, not, List, [], ◌∷◌, String, arith,
  ◌==◌, if◌then◌else◌, eq_iff, any, All, Bool-cases, inl, inr,
}
use morgenblau.Sync.Collection.{
  SyncError, Result, ok, err, ◌>>=◌, or_fail, DesiredRow, ReconcilePass, delete_stale, delete_one,
  upsert_desired, upsert_one,
}

-- A chain that ends in a result has one at its first step.
pub bind-ok :
    {Q R : Type 0} (first : Result Q) (rest : Q → Result R) {end_ : R}
    → (first >>= rest) ≡ ok end_
    → (mid : Q) × (first ≡ ok mid) × (rest mid ≡ ok end_)
bind-ok (ok mid) rest reached = (mid, refl, reached)
bind-ok (err failure) rest reached = cc

or_fail-ok : {A : Type 0} (e : SyncError) (o : Option A) {a : A} → or_fail e o ≡ ok a → o ≡ some a
or_fail-ok e none h = cc
or_fail-ok e (some a) h = cc

ok_inj : {A : Type 0} {a b : A} → ok a ≡ ok b → a ≡ b
ok_inj h = cc

-- `view q k` is the row that the store holds under the rkey `k`.
module _ {L Q : Type 0} (view : Q → String → Option L) where
  -- A delete removes the row of its rkey and no other.
  abbrev pub Deletes : (String → Q → Option Q) → Type 0
  Deletes delete_row =
      (k j : String) (q q' : Q)
      → delete_row k q ≡ some q'
      → view q' j ≡ (if k == j then none else view q j)

  -- A write puts a row that may depend on the one it replaces.
  abbrev pub Writes : (DesiredRow Q → Option L → L) → DesiredRow Q → Type 0
  Writes row d =
      (j : String) (q q' : Q)
      → d.write q ≡ some q'
      → view q' j ≡ (if d.rkey == j then some (row d (view q j)) else view q j)

-- Some row of the list has the rkey and is not spared.
abbrev pub stale : {L : Type 0} → (L → String) → (String → Bool) → String → List L → Bool
stale rkey_of spare k rows = any (λ row. rkey_of row == k && not (spare k)) rows

unfoldable pub find : {Q : Type 0} → String → List (DesiredRow Q) → Option (DesiredRow Q)
find k [] = none
find k (d ∷ ds) = if d.rkey == k then some d else find k ds

abbrev pub NoRkey : {Q : Type 0} → String → List (DesiredRow Q) → Type 0
NoRkey k [] = Unit
NoRkey k (d ∷ ds) = ((d.rkey == k) ≡ false) × NoRkey k ds

-- The records of a listing have distinct rkeys.
abbrev pub Distinct : {Q : Type 0} → List (DesiredRow Q) → Type 0
Distinct [] = Unit
Distinct (d ∷ ds) = NoRkey d.rkey ds × Distinct ds

find-NoRkey : {Q : Type 0} (k : String) (ds : List (DesiredRow Q)) → NoRkey k ds → find k ds ≡ none
unfolding find
find-NoRkey k [] h = refl
find-NoRkey k (d ∷ ds) h = rw (h.0) (find-NoRkey k ds h.1)

module _ {L Q : Type 0} (view : Q → String → Option L) (p : ReconcilePass L Q)
    (deletes : Deletes view p.delete_row) where
  delete_one-view :
      (spare : String → Bool) (k j : String) (q q' : Q)
      → delete_one p spare k q ≡ ok q'
      → view q' j ≡ (if k == j && not (spare j) then none else view q j)
  unfolding delete_one
  delete_one-view spare k j q q' h = elim (Bool-cases (spare k)) [
    | inl kept ↦
        let same : q ≡ q' = ok_inj (rw kept at h) in rw (← same) (ground (arith, eq_iff k j))
    | inr gone ↦
        let e = deletes k j q q' (or_fail-ok _ (p.delete_row k q) (rw gone at h)) in
        ground (arith, e, eq_iff k j)
  ]

  pub delete_stale-view :
      (spare : String → Bool) (j : String) (rows : List L) (q q' : Q)
      → delete_stale p spare rows q ≡ ok q'
      → view q' j ≡ (if stale p.rkey_of spare j rows then none else view q j)
  unfolding delete_stale
  delete_stale-view spare j [] q q' h = ap (λ x. view x j) (sym (ok_inj h))
  delete_stale-view spare j (row ∷ rows) q q' h =
      let (q1, first, rest) = bind-ok (delete_one p spare (p.rkey_of row) q) _ h in
      let e = delete_one-view spare (p.rkey_of row) j q q1 first in
      let es = delete_stale-view spare j rows q1 q' rest in rw (es, e) (ground arith)

-- What a listing leaves of a row: the listed record over it, if there is one.
abbrev pub written :
    {L Q : Type 0} → (DesiredRow Q → Option L → L) → Option (DesiredRow Q) → Option L → Option L
written row none old = old
written row (some d) old = some (row d old)

module _ {L Q : Type 0} (view : Q → String → Option L) (row : DesiredRow Q → Option L → L) where
  upsert_one-view :
      (leave : String → Bool) (d : DesiredRow Q) (j : String) (q q' : Q)
      → Writes view row d
      → upsert_one leave d q ≡ ok q'
      → view q' j ≡ (if d.rkey == j && not (leave j) then some (row d (view q j)) else view q j)
  unfolding upsert_one
  upsert_one-view leave d j q q' writes h = elim (Bool-cases (leave d.rkey)) [
    | inl kept ↦
        let same : q ≡ q' = ok_inj (rw kept at h) in rw (← same) (ground (arith, eq_iff d.rkey j))
    | inr gone ↦
        let e = writes j q q' (or_fail-ok _ (d.write q) (rw gone at h)) in
        ground (arith, e, eq_iff d.rkey j)
  ]

  pub upsert_desired-view :
      (leave : String → Bool) (j : String) (ds : List (DesiredRow Q)) (q q' : Q)
      → All (Writes view row) ds
      → Distinct ds
      → upsert_desired leave ds q ≡ ok q'
      → view q' j ≡ (if leave j then view q j else written row (find j ds) (view q j))
  unfolding upsert_desired find
  upsert_desired-view leave j [] q q' writes distinct h = rw (← ok_inj h) (ground arith)
  upsert_desired-view leave j (d ∷ ds) q q' writes distinct h =
      let (q1, first, rest) = bind-ok (upsert_one leave d q) _ h in
      let e = upsert_one-view leave d j q q1 writes.0 first in
      let es = upsert_desired-view leave j ds q1 q' writes.1 distinct.1 rest in
      elim (Bool-cases (d.rkey == j)) [
        | inl hit ↦
            let absent : find j ds ≡ none =
              find-NoRkey j ds (rw ((eq_iff d.rkey j).0 hit) at distinct.0) in
            rw (es, e, absent, hit) (ground arith)
        | inr miss ↦ rw (es, e, miss)
      ]
