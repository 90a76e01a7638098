-- ===== src/Common/Dict.antt =====
-- Go's map with string keys as an association list. A ranged loop sees the entries in the list's
-- order, so what must hold for every iteration order is proved for every list.
use Prim.Native.String.{String}
use mathlib.Core.Path.{◌≡◌, refl, sym}
use mathlib.Core.Logic.{◌⊎◌, inl, inr}
use mathlib.Core.Option.{Option, none, some}
use mathlib.Core.List.{List, [], ◌∷◌}
use native.Mathlib.Omega.{arith}
use text.Mathlib.Text.{◌==◌}
use text.Mathlib.TextEquality.{eq_iff}
use morgenblau.Common.Tests.{Bool-cases, Option-cases, if◌then◌else◌}

abbrev pub Assoc {ℓ} : Type ℓ → Type ℓ
Assoc V = List (String × V)

module _ {ℓ} {V : Type ℓ} where
  -- v, ok := m[k]
  unfoldable pub lookup : String → Assoc V → Option V
  lookup name [] = none
  lookup name ((key, value) ∷ rest) = if key == name then some value else lookup name rest

  -- m[k] = v
  unfoldable pub insert : String → V → Assoc V → Assoc V
  insert name new [] = (name, new) ∷ []
  insert name new ((key, value) ∷ rest) =
      let written = insert name new rest in
      if key == name then (name, new) ∷ rest else (key, value) ∷ written

  -- delete(m, k)
  unfoldable pub remove : String → Assoc V → Assoc V
  remove k [] = []
  remove k ((j, w) ∷ m) = let rest = remove k m in if j == k then rest else (j, w) ∷ rest

  abbrev pub IsKey : String → Assoc V → Type 0
  IsKey k [] = ⊥
  IsKey k ((j, w) ∷ m) = (k ≡ j) ⊎ IsKey k m

  pub lookup-insert :
      (name other : String) (new : V) (m : Assoc V)
      → lookup other (insert name new m) ≡ (if name == other then some new else lookup other m)
  unfolding insert lookup
  lookup-insert name other new [] = refl
  lookup-insert name other new ((key, value) ∷ rest) =
      let earlier = lookup-insert name other new rest in
      ground (arith, earlier, eq_iff key name, eq_iff key other, eq_iff name other)

  pub lookup-remove :
      (k j : String) (m : Assoc V) → lookup j (remove k m) ≡ (if k == j then none else lookup j m)
  unfolding lookup remove
  lookup-remove k j [] = ground arith
  lookup-remove k j ((i, w) ∷ m) =
      ground (arith, eq_iff k j, eq_iff i k, eq_iff i j, lookup-remove k j m)

  pub lookup-IsKey : (k : String) (m : Assoc V) (v : V) → lookup k m ≡ some v → IsKey k m
  unfolding lookup
  lookup-IsKey k [] v h = cc
  lookup-IsKey k ((j, w) ∷ m) v h = elim (Bool-cases (j == k)) [
    | inl e ↦ inl (sym ((eq_iff j k).0 e))
    | inr e ↦ inr (lookup-IsKey k m v (rw e at h))
  ]

  -- Go's maps hold a key once.
  abbrev pub IsMap : Assoc V → Type 0
  IsMap [] = Unit
  IsMap ((j, w) ∷ m) = (IsKey j m → ⊥) × IsMap m

  pub lookup_absent : (k : String) (m : Assoc V) → (IsKey k m → ⊥) → lookup k m ≡ none
  lookup_absent k m h = elim (Option-cases (lookup k m)) [
    | inl e ↦ e
    | inr (v, e) ↦ absurd (h (lookup-IsKey k m v e))
  ]

  pub insert-IsKey :
      (j k : String) (v : V) (m : Assoc V) → IsKey j (insert k v m) → (j ≡ k) ⊎ IsKey j m
  unfolding insert
  insert-IsKey j k v [] h = h
  insert-IsKey j k v ((i, w) ∷ m) h = ground (arith, eq_iff i k, insert-IsKey j k v m)

  pub remove-IsKey : (j k : String) (m : Assoc V) → IsKey j (remove k m) → IsKey j m
  unfolding remove
  remove-IsKey j k [] h = h
  remove-IsKey j k ((i, w) ∷ m) h = ground (arith, remove-IsKey j k m)

  pub insert-IsMap : (k : String) (v : V) (m : Assoc V) → IsMap m → IsMap (insert k v m)
  unfolding insert
  insert-IsMap k v [] u = (λ h. h, tt)
  insert-IsMap k v ((i, w) ∷ m) u = elim (Bool-cases (i == k)) [
    | inl e ↦ rw e (rw (← (eq_iff i k).0 e) u)
    | inr e ↦ rw e (
      λ h. elim (insert-IsKey i k v m h) [ inl p ↦ cc ((eq_iff i k).1 p) | inr q ↦ u.0 q ],
      insert-IsMap k v m u.1,
    )
  ]

  pub remove-IsMap : (k : String) (m : Assoc V) → IsMap m → IsMap (remove k m)
  unfolding remove
  remove-IsMap k [] u = tt
  remove-IsMap k ((i, w) ∷ m) u = elim (Bool-cases (i == k)) [
    | inl e ↦ rw e (remove-IsMap k m u.1)
    | inr e ↦ rw e (λ h. u.0 (remove-IsKey i k m h), remove-IsMap k m u.1)
  ]
