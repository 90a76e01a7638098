-- ===== src/Sync/Sidecars.antt =====
-- app/internal/sync/reconcile_sidecar.go: which of several records for one key counts, and which
-- sidecars are deleted from the PDS, whose DeleteRecord is a parameter.
pub mod Choice
pub mod Cleanup
use morgenblau.Common.{
  ℕ, Option, none, some, Bool, true, false, ◌&&◌, List, [], ◌∷◌, ◌++◌, String, ◌==◌, if◌then◌else◌,
  Assoc, lookup, insert, str_lt,
}

abbrev pub is_there : {A : Type 0} → Option A → Bool
is_there none = false
is_there (some a) = true

module _ {R : Type 0} (key_of rkey_of : R → String) where
  abbrev pub wins : (R → R → Bool) → R → Option R → Bool
  wins better r none = true
  wins better r (some cur) = better r cur

  -- The loop that both functions run over the records that are left.
  unfoldable pub choose_from : (R → R → Bool) → List R → Assoc R → Assoc R
  choose_from better [] by_key = by_key
  choose_from better (r ∷ rs) by_key =
      choose_from better rs
        (if wins better r (lookup (key_of r) by_key) then insert (key_of r) r by_key else by_key)

  abbrev pub is_older : R → R → Bool
  is_older r cur = str_lt (rkey_of r) (rkey_of cur)

  abbrev pub is_newer : R → R → Bool
  is_newer r cur = str_lt (rkey_of cur) (rkey_of r)

  unfoldable pub canonical_by_key : List R → Assoc R
  canonical_by_key records = choose_from is_older records []

  -- newestSidecarByKey; onDuplicate only logs.
  unfoldable pub newest_sidecar_by_key : List R → Assoc R
  newest_sidecar_by_key sidecars = choose_from is_newer sidecars []

  abbrev pub is_newest : Assoc R → R → Bool
  is_newest newest sc = elim (lookup (key_of sc) newest) [
    | none ↦ "" == rkey_of sc
    | some best ↦ rkey_of best == rkey_of sc
  ]

  abbrev pub is_wanted : {C : Type 0} → Assoc C → Assoc R → R → Bool
  is_wanted canonical newest sc = is_there (lookup (key_of sc) canonical) && is_newest newest sc

-- atprepo.Writer's DeleteRecord, on what is known of the PDS: `false` is an error.
abbrev pub DeleteRecord : Type 0 → Type 0
DeleteRecord P = String → P → Bool × P

module _ {R P : Type 0} (key_of rkey_of : R → String) where
  -- The rkeys that onErr is given, and the PDS.
  delete_sidecar : DeleteRecord P → String → P → List String × P
  delete_sidecar delete_record rkey p =
      let (deleted, p') = delete_record rkey p in (if deleted then [] else rkey ∷ [], p')

  cleanup_one : DeleteRecord P → Bool → String → P → List String × P
  unfolding delete_sidecar
  cleanup_one delete_record wanted rkey p =
      if wanted then ([], p) else delete_sidecar delete_record rkey p

  pub cleanup_loop :
      {C : Type 0} → DeleteRecord P → List R → Assoc C → Assoc R → P → List String × P
  unfolding cleanup_one
  cleanup_loop delete_record [] canonical newest p = ([], p)
  cleanup_loop delete_record (sc ∷ rest) canonical newest p =
      let wanted = is_wanted key_of rkey_of canonical newest sc in
      let (failed, p') = cleanup_one delete_record wanted (rkey_of sc) p in
      let (more, p'') = cleanup_loop delete_record rest canonical newest p' in (failed ++ more, p'')

  -- `none` is the nil pds.
  unfoldable pub sidecar_cleanup :
      {C : Type 0} → Option (DeleteRecord P) → List R → Assoc C → Assoc R → P → List String × P
  unfolding cleanup_loop
  sidecar_cleanup none sidecars canonical newest p = ([], p)
  sidecar_cleanup (some delete_record) sidecars canonical newest p =
      cleanup_loop delete_record sidecars canonical newest p
