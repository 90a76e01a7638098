-- ===== src/Sync/Saves/Rekeyed.antt =====
-- What reconcileSaves does with a save that was deleted and created again under a new rkey.
use morgenblau.Common.{
  ℕ, ◌≡◌, refl, ap, ◌∙◌, Option, none, some, Bool, true, false, List, [], ◌∷◌, String, map, ◌==◌,
  eq_iff, arith, Assoc, lookup, keep_if, Bool-cases, inl, inr, some_inj,
}
use morgenblau.Sync.Collection.{
  err, ◌>>=◌, DesiredRow, upsert_failed, contains, changed_during_listing, deleted_during_listing,
  delete_stale, upsert_desired, left_alone, spared, apply_diff, reconcile_body, settle,
  reconcile_collection, in_order, ReconcilePass,
}
use morgenblau.Sync.Table.{taken, upsert, rows, Answers, query}
use morgenblau.Sync.Saves.{
  UserSave, PdsSave, desired_save, upsert_user_save, saves_pass, reconcile_saves,
}

kept_absent :
    {L : Type 0} (keep : L → Bool) (key : L → String) (k : String) (xs : List L)
    → contains (map key xs) k ≡ false
    → contains (map key (keep_if keep xs)) k ≡ false
kept_absent keep key k [] h = refl
kept_absent keep key k (x ∷ xs) h = ground (arith, kept_absent keep key k xs)

keys_absent :
    (keep : String → Bool) (k : String) (xs : List String)
    → contains xs k ≡ false
    → contains (keep_if keep xs) k ≡ false
keys_absent keep k [] h = refl
keys_absent keep k (x ∷ xs) h = ground (arith, keys_absent keep k xs)

held_taken :
    (k : String) (s : UserSave) (rkey url : String) (t : Assoc UserSave)
    → lookup k t ≡ some s
    → (k == rkey) ≡ false
    → (s.item_url == url) ≡ true
    → taken (λ x. x.item_url) rkey url t ≡ true
unfolding lookup
held_taken k s rkey url [] found other same = cc
held_taken k s rkey url ((j, v) ∷ t) found other same = elim (Bool-cases (j == k)) [
  | inl e ↦ rw ((eq_iff j k).0 e, some_inj (rw e at found), other, same) refl
  | inr e ↦ ground (arith, held_taken k s rkey url t (rw e at found) other same)
]

new_left_alone :
    {L Q : Type 0} (parse : String → Option ℕ) (p : ReconcilePass L Q) (local : List L) (k : String)
    → contains (map p.rkey_of p.baseline) k ≡ false
    → contains (map p.rkey_of local) k ≡ false
    → left_alone parse p local k ≡ false
unfolding changed_during_listing deleted_during_listing
new_left_alone parse p local k new new_local =
    rw (keys_absent _ k (map p.rkey_of p.baseline) new, kept_absent _ p.rkey_of k local new_local)
      refl

body_reads :
    {L Q : Type 0} (parse : String → Option ℕ) (p : ReconcilePass L Q) (q : Q) (local : List L)
    → p.snapshot q ≡ some local
    → reconcile_body parse p q ≡ apply_diff parse p local q
unfolding reconcile_body
body_reads parse p q local read = rw (read, reconcile_body)

upsert_fails :
    {Q : Type 0} (leave : String → Bool) (d : DesiredRow Q) (ds : List (DesiredRow Q)) (q : Q)
    → leave d.rkey ≡ false
    → d.write q ≡ none
    → upsert_desired leave (d ∷ ds) q ≡ err (upsert_failed d.rkey)
unfolding upsert_desired
upsert_fails leave d ds q e h = rw (e, h) refl

module _ (to_json : List String → String) (parse : String → Option ℕ) (did : String)
    (snapshot_at : ℕ) (now : String) (db : Answers) where
  taken_fails :
      (r : PdsSave) (q : Assoc UserSave)
      → taken (λ x. x.item_url) r.rkey r.item_url q ≡ true
      → upsert_user_save to_json db did now r q ≡ none
  unfolding upsert_user_save upsert
  taken_fails r q h = rw h refl

  write_fails :
      (answered : Bool) (r : PdsSave) (q : Assoc UserSave)
      → taken (λ x. x.item_url) r.rkey r.item_url q ≡ true
      → query answered (upsert_user_save to_json db did now r q) ≡ none
  write_fails true r q h = taken_fails r q h
  write_fails false r q h = refl

  -- When the first listed save has a rkey that neither the baseline nor the store knows, and the
  -- item URL of a save that the store holds under another rkey, the pass ends in that upsert's error
  -- and no row of the store is changed, if the transaction begins and its rows are read, however
  -- the database answers the other queries.
  pub rekeyed_save_fails :
      (baseline : List UserSave) (r : PdsSave) (remote : List PdsSave) (k : String) (s : UserSave)
      (q : Assoc UserSave)
      → db.reads ≡ true
      → contains (map (λ x. x.rkey) baseline) r.rkey ≡ false
      → contains (map (λ x. x.rkey) (rows q)) r.rkey ≡ false
      → lookup k q ≡ some s
      → (k == r.rkey) ≡ false
      → (s.item_url == r.item_url) ≡ true
      → reconcile_saves to_json parse
          (record { begins = true; commits = true })
          db
          did
          snapshot_at
          now
          (some baseline)
          (some (r ∷ remote))
          q
        ≡ (err (upsert_failed r.rkey), q)
  unfolding reconcile_saves reconcile_collection apply_diff in_order saves_pass
  rekeyed_save_fails baseline r remote k s q read new new_local found other same =
      ap (λ x. settle true true x q)
        (body_reads parse pass q (rows q) (ap (λ b. query b (some (rows q))) read)
          ∙ ap (λ x. x >>= delete_stale pass (spared parse pass (rows q)) (rows q))
              (upsert_fails (left_alone parse pass (rows q)) (desired_save to_json db did now r) _ q
                (new_left_alone parse pass (rows q) r.rkey new new_local)
                (write_fails (db.writes r.rkey) r q
                  (held_taken k s r.rkey r.item_url q found other same))))
    where
      pass : ReconcilePass UserSave (Assoc UserSave)
      pass = saves_pass to_json db did now snapshot_at baseline (r ∷ remote)
