-- ===== src/Sync/Sidecars/Cleanup.antt =====
-- What sidecarCleanup of reconcile_sidecar.go leaves on the PDS, and which failures it reports.
use morgenblau.Common.{
  Option, none, some, ◌≡◌, Bool, true, false, ◌&&◌, not, List, [], ◌∷◌, String, ◌==◌, any, Assoc,
  lookup, str_lt,
}
use morgenblau.Sync.Sidecars.{is_there, is_wanted, DeleteRecord, cleanup_loop, cleanup_one}

module _ {R : Type 0} (key_of rkey_of : R → String) where
  -- A sidecar of the same key with a larger rkey.
  abbrev pub superseded : List R → R → Bool
  superseded rs sc = any (λ s. key_of s == key_of sc && str_lt (rkey_of sc) (rkey_of s)) rs

  abbrev pub NoRkey : String → List R → Type 0
  NoRkey k [] = Unit
  NoRkey k (s ∷ rs) = ((rkey_of s == k) ≡ false) × NoRkey k rs

  abbrev pub DistinctRkeys : List R → Type 0
  DistinctRkeys [] = Unit
  DistinctRkeys (s ∷ rs) = NoRkey (rkey_of s) rs × DistinctRkeys rs

-- DeleteRecord removes the record that it names when it succeeds, nothing else, and nothing when it
-- fails; `holds j p` is that the PDS `p` has a record under `j`.
abbrev pub IsLawful : {P : Type 0} → (String → P → Bool) → Option (DeleteRecord P) → Type 0
IsLawful holds none = Unit
IsLawful {P = P} holds (some delete_record) =
    (j k : String) (p : P)
    → holds j (delete_record k p).1 ≡ (holds j p && not ((delete_record k p).0 && k == j))

abbrev pub is_nil : {A : Type 0} → Option A → Bool
is_nil none = true
is_nil (some a) = false

abbrev pub names : String → List String → Bool
names k = any (λ j. j == k)

module _ {R P C : Type 0} (key_of rkey_of : R → String) (delete_record : DeleteRecord P)
    (canonical : Assoc C) (newest : Assoc R) where
  doomed : String → R → Bool
  doomed k s = rkey_of s == k && not (is_wanted key_of rkey_of canonical newest s)

  one : R → P → List String × P
  one s p =
      cleanup_one key_of rkey_of delete_record (is_wanted key_of rkey_of canonical newest s)
        (rkey_of s) p

  loop : List R → P → List String × P
  loop rs p = cleanup_loop key_of rkey_of delete_record rs canonical newest p

  -- The delete asked for, if the sidecar is to go, fails.
  refused : R → P → Bool
  refused s p = not (delete_record (rkey_of s) p).0

module _ {R C : Type 0} (key_of rkey_of : R → String) (canonical : Assoc C) (rs : List R) where
  -- Some sidecar of the rkey has a key without a subscription, or a sidecar of its key has a larger
  -- rkey.
  abbrev pub is_orphan : String → Bool
  is_orphan k =
      any
        (λ s.
          rkey_of s == k
          && not (is_there (lookup (key_of s) canonical) && not (superseded key_of rkey_of rs s)))
        rs
