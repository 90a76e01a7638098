-- ===== src/Common/Lists.antt =====
-- Lists measured and indexed by native numbers, and predicates on lists by recursion.
use Prim.Native.Nat.{ℕ, zero, suc, ◌+◌}
use mathlib.Core.Path.{◌≡◌, refl}
use mathlib.Core.Logic.{◌⊎◌, inl, inr}
use mathlib.Core.Bool.{Bool, true, false, ◌||◌}
use mathlib.Core.List.{List, [], ◌∷◌, ◌++◌}
use mathlib.Core.Option.{Option, none, some}
use native.Mathlib.Omega.{arith}
use morgenblau.Common.Tests.{if◌then◌else◌, eqb, Bool-cases}
use native.Mathlib.Nat.{zero-add, suc-add}

module _ {ℓ} {A : Type ℓ} where
  abbrev pub length : List A → ℕ
  length [] = 0
  length (x ∷ xs) = suc (length xs)

  abbrev pub get_elem? : List A → ℕ → Option A
  get_elem? [] i = none
  get_elem? (x ∷ xs) zero = some x
  get_elem? (x ∷ xs) (suc i) = get_elem? xs i

  -- A write out of bounds changes nothing.
  abbrev pub set : List A → ℕ → A → List A
  set [] i v = []
  set (x ∷ xs) zero v = v ∷ xs
  set (x ∷ xs) (suc i) v = x ∷ set xs i v

  -- The elements that a Go loop with `continue` on the others appends.
  abbrev pub keep_if : (A → Bool) → List A → List A
  keep_if p [] = []
  keep_if p (x ∷ xs) = let rest = keep_if p xs in if p x then x ∷ rest else rest

  abbrev pub any : (A → Bool) → List A → Bool
  any p [] = false
  any p (x ∷ xs) = p x || any p xs

-- Membership that computes, so that the tactics take it apart.
abbrev pub In : {A : Type 0} → A → List A → Type 0
In a [] = ⊥
In a (x ∷ xs) = (a ≡ x) ⊎ In a xs

module _ {ℓ κ} {A : Type ℓ} where
  abbrev pub All : (A → Type κ) → List A → Type κ
  All P [] = Unit
  All P (x ∷ xs) = P x × All P xs

module _ {ℓ} {A : Type ℓ} where
  pub get_elem?-append :
      (xs ys : List A) (k : ℕ) → get_elem? (xs ++ ys) (length xs + k) ≡ get_elem? ys k
  get_elem?-append [] ys k = rw zero-add
  get_elem?-append (x ∷ xs) ys k = rw suc-add (get_elem?-append xs ys k)

  pub get_elem?-append_old :
      (xs ys : List A) (i : ℕ) (v : A) → get_elem? xs i ≡ some v → get_elem? (xs ++ ys) i ≡ some v
  get_elem?-append_old [] ys i v h = cc
  get_elem?-append_old (x ∷ xs) ys zero v h = h
  get_elem?-append_old (x ∷ xs) ys (suc i) v h = get_elem?-append_old xs ys i v h

  pub get_elem?-set :
      (xs : List A) (i j : ℕ) (u v : A)
      → get_elem? xs i ≡ some u
      → get_elem? (set xs i v) j ≡ (if eqb i j then some v else get_elem? xs j)
  get_elem?-set [] i j u v h = cc
  get_elem?-set (x ∷ xs) zero zero u v h = ground arith
  get_elem?-set (x ∷ xs) zero (suc j) u v h = ground arith
  get_elem?-set (x ∷ xs) (suc i) zero u v h = ground arith
  get_elem?-set (x ∷ xs) (suc i) (suc j) u v h = ground (arith, get_elem?-set xs i j u v h)

pub any_of_In :
    {R : Type 0} (test : R → Bool) (r : R) (rs : List R)
    → In r rs
    → test r ≡ true
    → any test rs ≡ true
any_of_In test r [] i h = elim i [ ]
any_of_In test r (s ∷ rs) (inl e) h = rw (← e, h)
any_of_In test r (s ∷ rs) (inr i) h = ground (arith, any_of_In test r rs i h)

pub none_of_any :
    {R : Type 0} (test : R → Bool) (r : R) (rs : List R)
    → In r rs
    → any test rs ≡ false
    → test r ≡ false
none_of_any test r [] i h = elim i [ ]
none_of_any test r (s ∷ rs) (inl e) h = rw e (ground arith)
none_of_any test r (s ∷ rs) (inr i) h = none_of_any test r rs i (ground arith)

pub some_of_any :
    {R : Type 0} (test : R → Bool) (rs : List R)
    → any test rs ≡ true
    → (r : R) × In r rs × (test r ≡ true)
some_of_any test [] h = cc
some_of_any test (s ∷ rs) h = elim (Bool-cases (test s)) [
  | inl e ↦ (s, inl refl, e)
  | inr e ↦ let (r, i, found) = some_of_any test rs (rw e at h) in (r, inr i, found)
]
