-- ===== src/Sync/Collection/Keeps.antt =====
-- A pass changes no part of the store that its deletes and its writes leave alone.
use morgenblau.Common.{
  ℕ, ◌≡◌, refl, ◌∙◌, Option, none, some, Bool, true, false, List, [], ◌∷◌, String, All,
  if◌then◌else◌,
}
use morgenblau.Sync.Collection.{
  SyncError, Result, ok, err, or_fail, DesiredRow, ReconcilePass, Tx, settle, delete_failed,
  upsert_failed, delete_stale, delete_one, upsert_desired, upsert_one, in_order, spared, left_alone,
  apply_diff, reconcile_body, reconcile_collection,
}
use morgenblau.Sync.Collection.Loops.{bind-ok}

module _ {Q V : Type 0} (view : Q → V) where
  -- The operation leaves the view as it is when it succeeds.
  abbrev pub Keeps : (Q → Option Q) → Type 0
  Keeps f = (q q' : Q) → f q ≡ some q' → view q' ≡ view q

  abbrev KeepsView : (Q → Result Q) → Type 0
  KeepsView f = (q q' : Q) → f q ≡ ok q' → view q' ≡ view q

  keeps_ok :
      (e : SyncError) (o : Option Q) (q q' : Q)
      → ((s : Q) → o ≡ some s → view s ≡ view q)
      → or_fail e o ≡ ok q'
      → view q' ≡ view q
  keeps_ok e none q q' k h = cc
  keeps_ok e (some s) q q' k h = let s' = k s refl in cc

  one-Keeps :
      (skip : Bool) (e : SyncError) (f : Q → Option Q) (q q' : Q)
      → Keeps f
      → (if skip then ok q else or_fail e (f q)) ≡ ok q'
      → view q' ≡ view q
  one-Keeps true e f q q' k h = cc
  one-Keeps false e f q q' k h = keeps_ok e (f q) q q' (k q) h

  in_order_keeps :
      (first : Bool) (f g : Q → Result Q)
      → KeepsView f
      → KeepsView g
      → KeepsView (in_order first f g)
  unfolding in_order
  in_order_keeps true f g kf kg q q' h =
      let (q1, h1, h2) = bind-ok (f q) g h in kg q1 q' h2 ∙ kf q q1 h1
  in_order_keeps false f g kf kg q q' h =
      let (q1, h1, h2) = bind-ok (g q) f h in kf q1 q' h2 ∙ kg q q1 h1

  upsert_desired-Keeps :
      (skip : String → Bool) (ds : List (DesiredRow Q))
      → All (λ d. Keeps d.write) ds
      → KeepsView (upsert_desired skip ds)
  unfolding upsert_desired upsert_one
  upsert_desired-Keeps skip [] k q q' h = cc
  upsert_desired-Keeps skip (d ∷ ds) k q q' h =
      let (q1, h1, h2) = bind-ok (upsert_one skip d q) (upsert_desired skip ds) h in
      upsert_desired-Keeps skip ds k.1 q1 q' h2
      ∙ one-Keeps (skip d.rkey) (upsert_failed d.rkey) d.write q q1 k.0 h1

  settle_keeps :
      (begins commits : Bool) (r : Result Q) (q : Q)
      → ((q' : Q) → r ≡ ok q' → view q' ≡ view q)
      → view (settle begins commits r q).1 ≡ view q
  unfolding settle
  settle_keeps false commits r q k = refl
  settle_keeps true commits (err e) q k = refl
  settle_keeps true true (ok q') q k = k q' refl
  settle_keeps true false (ok q') q k = refl

  module _ {L : Type 0} (parse : String → Option ℕ) (p : ReconcilePass L Q) where
    delete_stale-Keeps :
        (skip : String → Bool) (local : List L)
        → All (λ row. Keeps (p.delete_row (p.rkey_of row))) local
        → KeepsView (delete_stale p skip local)
    unfolding delete_stale delete_one
    delete_stale-Keeps skip [] k q q' h = cc
    delete_stale-Keeps skip (row ∷ local) k q q' h =
        let (q1, h1, h2) =
          bind-ok (delete_one p skip (p.rkey_of row) q) (delete_stale p skip local) h in
        delete_stale-Keeps skip local k.1 q1 q' h2
        ∙ one-Keeps (skip (p.rkey_of row)) (delete_failed (p.rkey_of row))
            (p.delete_row (p.rkey_of row)) q q1 k.0 h1

    body-Keeps :
        (q : Q) (snap : Option (List L))
        → p.snapshot q ≡ snap
        → ((local : List L)
            → snap ≡ some local
            → All (λ row. Keeps (p.delete_row (p.rkey_of row))) local)
        → All (λ d. Keeps d.write) p.desired
        → (q' : Q) → reconcile_body parse p q ≡ ok q'
        → view q' ≡ view q
    unfolding reconcile_body apply_diff
    body-Keeps q none read deletes writes q' h = let h' = rw (read, reconcile_body) at h in cc
    body-Keeps q (some local) read deletes writes q' h =
        in_order_keeps p.delete_first (delete_stale p (spared parse p local) local)
          (upsert_desired (left_alone parse p local) p.desired)
          (delete_stale-Keeps (spared parse p local) local (deletes local refl))
          (upsert_desired-Keeps (left_alone parse p local) p.desired writes) q q'
          (rw (read, reconcile_body) at h)

    pub pass-Keeps :
        (tx : Tx) (q : Q)
        → ((local : List L)
            → p.snapshot q ≡ some local
            → All (λ row. Keeps (p.delete_row (p.rkey_of row))) local)
        → All (λ d. Keeps d.write) p.desired
        → view (reconcile_collection parse tx p q).1 ≡ view q
    unfolding reconcile_collection
    pass-Keeps tx q deletes writes =
        settle_keeps tx.begins tx.commits (reconcile_body parse p q) q
          (body-Keeps q (p.snapshot q) refl deletes writes)
