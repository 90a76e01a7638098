-- ===== src/Websource/Keys/Aliases.antt =====
-- The aliases of listing keys, which point to sources and shadow no source's own key:
-- app/internal/websource/service.go.
use morgenblau.Common.{
  ◌≡◌, refl, none, some, some_inj, Bool, true, false, ◌&&◌, not, List, [], ◌∷◌, String, ◌==◌,
  eq_iff, eq_refl, arith, Bool-cases, Option-cases, inl, inr, ◌⊎◌, if◌then◌else◌, Assoc, lookup,
  insert, remove, lookup-insert, lookup-remove,
}
use morgenblau.Websource.{WebSource}
use morgenblau.Websource.Keys.{has_id, has_key, put_alias, drop_alias, is_alias_of}

-- Every alias points to a source, and none is a source's own key.
unfoldable pub aliases_fit : List WebSource → Assoc String → Bool
aliases_fit rows [] = true
aliases_fit rows ((key, id) ∷ rest) =
    has_id id rows && not (has_key key rows) && aliases_fit rows rest

pub lookup-fits :
    (rows : List WebSource) (m : Assoc String) (k i : String)
    → aliases_fit rows m ≡ true
    → lookup k m ≡ some i
    → (has_id i rows ≡ true) × (has_key k rows ≡ false)
unfolding aliases_fit lookup
lookup-fits rows [] k i fit h = cc
lookup-fits rows ((key, id) ∷ rest) k i fit h = elim (Bool-cases (key == k)) [
  | inl own ↦
      let same = some_inj (rw own at h) in
      rw (← same, ← (eq_iff key k).0 own) (ground arith, ground arith)
  | inr other ↦ lookup-fits rows rest k i (ground arith) (rw other at h)
]

insert-fits :
    (rows : List WebSource) (m : Assoc String) (k i : String)
    → aliases_fit rows m ≡ true
    → has_id i rows ≡ true
    → has_key k rows ≡ false
    → aliases_fit rows (insert k i m) ≡ true
unfolding aliases_fit insert
insert-fits rows [] k i fit known free = ground arith
insert-fits rows ((key, id) ∷ rest) k i fit known free = ground (arith, insert-fits rows rest k i)

remove-fits :
    (rows : List WebSource) (m : Assoc String) (k : String)
    → aliases_fit rows m ≡ true
    → aliases_fit rows (remove k m) ≡ true
unfolding aliases_fit remove
remove-fits rows [] k fit = fit
remove-fits rows ((key, id) ∷ rest) k fit = ground (arith, remove-fits rows rest k)

pub put_alias-fits :
    (rows : List WebSource) (m : Assoc String) (k i : String)
    → aliases_fit rows m ≡ true
    → has_id i rows ≡ true
    → has_key k rows ≡ false
    → aliases_fit rows (put_alias k i m) ≡ true
unfolding put_alias
put_alias-fits rows m k i fit known free = ground (arith, insert-fits rows m k i fit known free)

pub drop_alias-fits :
    (rows : List WebSource) (m : Assoc String) (k i : String)
    → aliases_fit rows m ≡ true
    → aliases_fit rows (drop_alias k i m) ≡ true
unfolding drop_alias
drop_alias-fits rows m k i fit = ground (arith, remove-fits rows m k fit)

-- The aliases still fit after a change of the table that frees no source and takes no key but one
-- that is no alias.
pub fits_after :
    (key : String) (rows rows' : List WebSource) (m : Assoc String)
    → ((i : String) → has_id i rows ≡ true → has_id i rows' ≡ true)
    → ((k : String) → (key == k) ≡ false → has_key k rows ≡ false → has_key k rows' ≡ false)
    → lookup key m ≡ none
    → aliases_fit rows m ≡ true
    → aliases_fit rows' m ≡ true
unfolding aliases_fit lookup
fits_after key rows rows' [] ids keys free fit = refl
fits_after key rows rows' ((k, i) ∷ rest) ids keys free fit = elim (Bool-cases (k == key)) [
  | inl own ↦ let free' = rw own at free in cc
  | inr other ↦
      let other' : (key == k) ≡ false = ground (arith, eq_iff key k, eq_iff k key) in
      let later = fits_after key rows rows' rest ids keys (rw other at free) (ground arith) in
      ground (arith, ids i, keys k other', later)
]

pub lookup-put_alias :
    (k i j : String) (m : Assoc String)
    → lookup k m ≡ none
    → lookup j (put_alias k i m) ≡ (if k == j then some i else lookup j m)
unfolding put_alias
lookup-put_alias k i j m free = rw free (lookup-insert k j i m)

-- An alias that is there stays.
pub lookup-put_alias_old :
    (k i j n : String) (m : Assoc String)
    → lookup j m ≡ some n
    → lookup j (put_alias k i m) ≡ some n
unfolding put_alias
lookup-put_alias_old k i j n m h = elim (Option-cases (lookup k m)) [
  | inr (o, e) ↦ rw e h
  | inl e ↦ rw e (
      rw (lookup-insert k j i m) (elim (Bool-cases (k == j)) [
        | inl own ↦ let e' = rw ((eq_iff k j).0 own) at e in cc
        | inr other ↦ rw other h
      ]))
]

pub lookup-drop_alias :
    (k i j : String) (m : Assoc String)
    → (k == j) ≡ false
    → lookup j (drop_alias k i m) ≡ lookup j m
unfolding drop_alias
lookup-drop_alias k i j m other = elim (Bool-cases (is_alias_of (lookup k m) i)) [
  | inl own ↦ rw own (rw (lookup-remove k j m, other) refl)
  | inr kept ↦ rw kept refl
]

pub lookup-drop_alias_own :
    (k i : String) (m : Assoc String)
    → (lookup k m ≡ none) ⊎ (lookup k m ≡ some i)
    → lookup k (drop_alias k i m) ≡ none
unfolding drop_alias
lookup-drop_alias_own k i m (inl absent) = rw absent absent
lookup-drop_alias_own k i m (inr own) =
    rw (own, eq_refl i) (rw (lookup-remove k k m, eq_refl k) refl)
