-- ===== src/Sync/Sidecars/Choice.antt =====
-- Which record of a key reconcile_sidecar.go chooses.
use morgenblau.Common.{
  ◌≡◌, refl, ap, ◌∙◌, Option, none, some, Bool, true, false, ◌&&◌, List, [], ◌∷◌, String, arith,
  ◌==◌, if◌then◌else◌, eq_iff, any, In, Bool-cases, inl, inr, ◌⊎◌, Assoc, lookup, lookup-insert,
  str_lt, str_lt_trans, str_lt_irrefl, str_lt_total, str_lt_asymm,
}
use morgenblau.Sync.Sidecars.{
  wins, choose_from, is_older, is_newer, canonical_by_key, newest_sidecar_by_key,
}

-- What the choice relies on: an order in which the losers of a loser lose.
module _ {R : Type 0} (key_of rkey_of : R → String) (better : R → R → Bool)
    (trans : (a b c : R) → better a b ≡ false → better b c ≡ false → better a c ≡ false)
    (irrefl : (a : R) → better a a ≡ false)
    (flip : (a b : R) → better a b ≡ true → better b a ≡ false) where
  abbrev rival : String → R → R → Bool
  rival k r s = key_of s == k && better s r

  -- The choice over a list, given what was chosen before.
  abbrev pick : String → List R → Option R → Option R
  pick k [] cur = cur
  pick k (r ∷ rs) cur =
      pick k rs (if key_of r == k && wins key_of rkey_of better r cur then some r else cur)

  choose_from_lem :
      (k : String) (rs : List R) (m : Assoc R)
      → lookup k (choose_from key_of rkey_of better rs m) ≡ pick k rs (lookup k m)
  unfolding choose_from
  choose_from_lem k [] m = refl
  choose_from_lem k (r ∷ rs) m =
      choose_from_lem k rs _
      ∙ ap (pick k rs) (ground (arith, lookup-insert (key_of r) k r m, eq_iff (key_of r) k))

  -- `r` was in the list under the key, or there before.
  abbrev From : String → List R → R → R → Type 0
  From k rs cur r = (r ≡ cur) ⊎ (In r rs × ((key_of r == k) ≡ true))

  abbrev Best : String → List R → Option R → Type 0
  Best k rs o =
      (r : R) × (o ≡ some r) × (any (rival k r) rs ≡ false) × In r rs × ((key_of r == k) ≡ true)

  abbrev BestFrom : String → List R → R → Option R → Type 0
  BestFrom k rs cur o =
      (r : R) × (o ≡ some r)
      × (any (rival k r) rs ≡ false)
      × (better cur r ≡ false)
      × From k rs cur r

  later_From :
      (k : String) (r0 : R) (rs : List R) (cur r : R) → From k rs cur r → From k (r0 ∷ rs) cur r
  later_From k r0 rs cur r (inl e) = inl e
  later_From k r0 rs cur r (inr (i, e)) = inr (inr i, e)

  switched_From :
      (k : String) (r0 : R) (rs : List R) (cur r : R)
      → (key_of r0 == k) ≡ true
      → From k rs r0 r
      → From k (r0 ∷ rs) cur r
  switched_From k r0 rs cur r same (inl e) = inr (inl e, rw e same)
  switched_From k r0 rs cur r same (inr (i, e)) = inr (inr i, e)

  pick_from : (k : String) (rs : List R) (cur : R) → BestFrom k rs cur (pick k rs (some cur))
  pick_from k [] cur = (cur, refl, refl, irrefl cur, inl refl)
  pick_from k (r0 ∷ rs) cur = elim (Bool-cases (key_of r0 == k)) [
    | inr miss ↦
        let (r, e, unbeaten, not_cur, from) = pick_from k rs cur in
        rw miss (r, e, unbeaten, not_cur, later_From k r0 rs cur r from)
    | inl hit ↦ elim (Bool-cases (better r0 cur)) [
      | inl won ↦
          let (r, e, unbeaten, not_r0, from) = pick_from k rs r0 in
          rw (hit, won)
            (
              r,
              e,
              rw not_r0 unbeaten,
              trans cur r0 r (flip r0 cur won) not_r0,
              switched_From k r0 rs cur r hit from,
            )
      | inr lost ↦
          let (r, e, unbeaten, not_cur, from) = pick_from k rs cur in
          rw (hit, lost)
            (
              r,
              e,
              rw (trans r0 cur r lost not_cur) unbeaten,
              not_cur,
              later_From k r0 rs cur r from,
            )
    ]
  ]

  found :
      (k : String) (r0 : R) (rs : List R) (r : R)
      → (key_of r0 == k) ≡ true
      → From k rs r0 r
      → In r (r0 ∷ rs) × ((key_of r == k) ≡ true)
  found k r0 rs r hit (inl e) = (inl e, rw e hit)
  found k r0 rs r hit (inr (i, same)) = (inr i, same)

  abbrev Absent : String → List R → Option R → Type 0
  Absent k rs o = (o ≡ none) × (any (λ s. key_of s == k) rs ≡ false)

  pick_cases :
      (k : String) (rs : List R) → Best k rs (pick k rs none) ⊎ Absent k rs (pick k rs none)
  pick_cases k [] = inr (refl, refl)
  pick_cases k (r0 ∷ rs) = elim (Bool-cases (key_of r0 == k)) [
    | inl hit ↦
        let (r, e, unbeaten, not_r0, from) = pick_from k rs r0 in
        let (i, same) = found k r0 rs r hit from in rw hit (inl (r, e, rw not_r0 unbeaten, i, same))
    | inr miss ↦ elim (pick_cases k rs) [
      | inl (r, e, unbeaten, i, same) ↦ rw miss (inl (r, e, unbeaten, inr i, same))
      | inr (e, absent) ↦ rw miss (inr (e, absent))
    ]
  ]

  choose_cases :
      (k : String) (rs : List R)
      → Best k rs (lookup k (choose_from key_of rkey_of better rs []))
        ⊎ Absent k rs (lookup k (choose_from key_of rkey_of better rs []))
  unfolding lookup
  choose_cases k rs = rw (choose_from_lem k rs []) (pick_cases k rs)

not_lt_trans : (a b c : String) → str_lt a b ≡ false → str_lt b c ≡ false → str_lt a c ≡ false
not_lt_trans a b c h k = elim (Bool-cases (str_lt a c)) [
  | inr e ↦ e
  | inl e ↦ elim (Bool-cases (str_lt b a)) [
    | inl back ↦ cc (str_lt_trans b a c back e)
    | inr same ↦ cc (ap (λ x. str_lt x c) (str_lt_total a b h same))
  ]
]

module _ {R : Type 0} (key_of rkey_of : R → String) where
  -- The canonical record of a key is one of its records, and none of them has a smaller rkey; a key
  -- without records has none.
  pub canonical_is_oldest :
      (k : String) (rs : List R)
      → ((r : R) × (lookup k (canonical_by_key key_of rkey_of rs) ≡ some r)
          × (any (λ s. key_of s == k && str_lt (rkey_of s) (rkey_of r)) rs ≡ false)
          × In r rs
          × ((key_of r == k) ≡ true))
        ⊎ ((lookup k (canonical_by_key key_of rkey_of rs) ≡ none)
            × (any (λ s. key_of s == k) rs ≡ false))
  unfolding canonical_by_key
  canonical_is_oldest k rs =
      choose_cases key_of rkey_of (is_older key_of rkey_of)
        (λ a b c. not_lt_trans (rkey_of a) (rkey_of b) (rkey_of c)) (λ a. str_lt_irrefl (rkey_of a))
        (λ a b. str_lt_asymm (rkey_of a) (rkey_of b)) k rs

  pub newest_cases :
      (k : String) (rs : List R)
      → ((r : R) × (lookup k (newest_sidecar_by_key key_of rkey_of rs) ≡ some r)
          × (any (λ s. key_of s == k && str_lt (rkey_of r) (rkey_of s)) rs ≡ false)
          × In r rs
          × ((key_of r == k) ≡ true))
        ⊎ ((lookup k (newest_sidecar_by_key key_of rkey_of rs) ≡ none)
            × (any (λ s. key_of s == k) rs ≡ false))
  unfolding newest_sidecar_by_key
  newest_cases k rs =
      choose_cases key_of rkey_of (is_newer key_of rkey_of)
        (λ a b c h h'. not_lt_trans (rkey_of c) (rkey_of b) (rkey_of a) h' h)
        (λ a. str_lt_irrefl (rkey_of a)) (λ a b h. str_lt_asymm (rkey_of b) (rkey_of a) h) k rs
