-- ===== src/Webfeed/Template/Merge.antt =====
-- What a merged pattern of template.go stands for.
use morgenblau.Common.{
  none_of_any, some_of_any, suc, ◌≡◌, refl, ap, sym, ◌∙◌, some, some_inj, Bool, true, false, ◌&&◌,
  ◌||◌, not, List, [], ◌∷◌, String, ◌==◌, eq_iff, eq_refl, arith, if◌then◌else◌, any, length, eqb,
  map, In, Bool-cases, inl, inr,
}
use morgenblau.Webfeed.Template.{
  Template, same_template, same_segs, distinct, fits_first, head_of, tail_of, merge_segs,
  has_literal, merge_templates, generalize_templates, match_segs, match_template,
}

abbrev pub no_empty : List String → Bool
no_empty [] = true
no_empty (s ∷ rest) = not (s == "") && no_empty rest

cell_matches :
    (differs : Bool) (s x : String)
    → (differs ≡ false → (x == s) ≡ true)
    → not (x == "") ≡ true
    → not (x == "") && ((if differs then "*" else s) == "*" || (if differs then "*" else s) == x)
      ≡ true
cell_matches true s x same full = ground (arith, eq_refl "*")
cell_matches false s x same full = ground (arith, eq_iff x s, eq_refl s, same refl)

both : {a b : Bool} → a ≡ true → b ≡ true → a && b ≡ true
both {a} {b} h k = rw (h, k) refl

left_of : (a b : Bool) → a && b ≡ true → a ≡ true
left_of a b h = ground arith

right_of : (a b : Bool) → a && b ≡ true → b ≡ true
right_of a b h = ground arith

not-not : (a : Bool) → not a ≡ false → a ≡ true
not-not a h = ground arith

match_first :
    (first : List String) (others : List (List String))
    → no_empty first ≡ true
    → match_segs (merge_segs first others) first ≡ true
unfolding merge_segs match_segs
match_first [] others h = refl
match_first (s ∷ rest) others h =
    both (cell_matches _ s s (λ same. eq_refl s) (left_of _ _ h))
      (match_first rest (map tail_of others) (right_of _ _ h))

In-map : {A B : Type 0} (f : A → B) (a : A) (xs : List A) → In a xs → In (f a) (map f xs)
In-map f a [] i = i
In-map f a (x ∷ xs) (inl e) = inl (ap f e)
In-map f a (x ∷ xs) (inr i) = inr (In-map f a xs i)

match_other :
    (first t : List String) (others : List (List String))
    → In t others
    → eqb (length t) (length first) ≡ true
    → no_empty t ≡ true
    → match_segs (merge_segs first others) t ≡ true
unfolding merge_segs match_segs
match_other [] [] others i e h = refl
match_other [] (x ∷ t) others i e h = elim (wrong_length e) [ ]
  where
    wrong_length : eqb (suc (length t)) 0 ≡ true → ⊥
    wrong_length e' = ground arith
match_other (s ∷ rest) [] others i e h = elim (wrong_length e) [ ]
  where
    wrong_length : eqb 0 (suc (length rest)) ≡ true → ⊥
    wrong_length e' = ground arith
match_other (s ∷ rest) (x ∷ t) others i e h =
    both
      (cell_matches _ s x
        (λ same. not-not _ (none_of_any (λ o. not (head_of o == s)) (x ∷ t) others i same))
        (left_of _ _ h))
      (match_other rest t (map tail_of others) (In-map tail_of (x ∷ t) others i) (ground arith)
        (right_of _ _ h))

same_segs-eq : (a b : List String) → same_segs a b ≡ true → a ≡ b
same_segs-eq [] [] h = refl
same_segs-eq [] (y ∷ b) h = cc
same_segs-eq (x ∷ a) [] h = cc
same_segs-eq (x ∷ a) (y ∷ b) h =
    let head : x ≡ y = (eq_iff x y).0 (left_of (x == y) (same_segs a b) h) in
    let rest : a ≡ b = same_segs-eq a b (right_of (x == y) (same_segs a b) h) in cc

-- A template of the list is represented in `distinct` by one with the same parts.
distinct-In :
    (t : Template) (ts : List Template)
    → In t ts
    → (u : Template) × In u (distinct ts) × (u.host ≡ t.host) × (u.segs ≡ t.segs)
unfolding distinct
distinct-In t [] i = elim i [ ]
distinct-In t (x ∷ ts) i = elim (Bool-cases (any (same_template x) (distinct ts))) [
  | inl known ↦
      rw known (known_In (distinct-In t ts) i (some_of_any (same_template x) (distinct ts) known))
  | inr new ↦ rw new (new_In (distinct-In t ts) i)
]
  where
    known_In :
        (In t ts → (u : Template) × In u (distinct ts) × (u.host ≡ t.host) × (u.segs ≡ t.segs))
        → In t (x ∷ ts)
        → (r : Template) × In r (distinct ts) × (same_template x r ≡ true)
        → (u : Template) × In u (distinct ts) × (u.host ≡ t.host) × (u.segs ≡ t.segs)
    known_In earlier (inl e) (r, j, same) = (
      r,
      j,
      sym ((eq_iff x.host r.host).0 (left_of _ _ same)) ∙ ap (λ y. y.host) (sym e),
      sym (same_segs-eq x.segs r.segs (right_of _ _ same)) ∙ ap (λ y. y.segs) (sym e),
    )
    known_In earlier (inr j) r = earlier j

    new_In :
        (In t ts → (u : Template) × In u (distinct ts) × (u.host ≡ t.host) × (u.segs ≡ t.segs))
        → In t (x ∷ ts)
        → (u : Template) × In u (x ∷ distinct ts) × (u.host ≡ t.host) × (u.segs ≡ t.segs)
    new_In earlier (inl e) = (x, inl refl, ap (λ y. y.host) (sym e), ap (λ y. y.segs) (sym e))
    new_In earlier (inr j) = let (u, k, same, same_rest) = earlier j in (u, inr k, same, same_rest)

host_eq : (a b : String) → a ≡ b → (a == b) ≡ true
host_eq a b e = (eq_iff a b).1 e

matches_by_segs :
    (p t : Template)
    → (p.host == t.host) ≡ true
    → match_segs p.segs t.segs ≡ true
    → match_template p t ≡ true
unfolding match_template
matches_by_segs p t h k = rw (h, k) (ground arith)

match_first_of :
    (first t : Template)
    → t ≡ first
    → (others : List (List String)) → no_empty t.segs ≡ true
    → match_segs (merge_segs first.segs others) t.segs ≡ true
match_first_of first t e others full =
    ap (match_segs (merge_segs first.segs others)) (ap (λ x. x.segs) e)
    ∙ match_first first.segs others (ap no_empty (ap (λ x. x.segs) (sym e)) ∙ full)

left_false : (a b : Bool) → a || b ≡ false → a ≡ false
left_false a b h = ground arith

same_parts :
    (g u t : Template)
    → u.host ≡ t.host
    → u.segs ≡ t.segs
    → match_template g u ≡ true
    → match_template g t ≡ true
unfolding match_template
same_parts g u t h k m =
    ap (λ y. g.host == y && same_segs g.segs t.segs || g.host == y && match_segs g.segs t.segs)
      (sym h)
    ∙ ap (λ y. g.host == u.host && same_segs g.segs y || g.host == u.host && match_segs g.segs y)
        (sym k)
    ∙ m

abbrev refused : Template → Template → List Template → Bool
refused first second more =
    any (λ o. not (fits_first first o)) (second ∷ more)
    || not (has_literal (merge_segs first.segs (map (λ o. o.segs) (second ∷ more))))

fits_matches :
    (first : Template) (others : List Template) (t : Template)
    → any (λ o. not (fits_first first o)) others ≡ false
    → In t (first ∷ others)
    → no_empty t.segs ≡ true
    → match_template
        (record { host = first.host; segs = merge_segs first.segs (map (λ o. o.segs) others) })
        t
      ≡ true
unfolding match_template
fits_matches first others t fit (inl e) full =
    matches_by_segs _ t (host_eq first.host t.host (ap (λ x. x.host) (sym e)))
      (match_first_of first t e _ full)
fits_matches first others t fit (inr i) full =
    let fits = not-not _ (none_of_any (λ o. not (fits_first first o)) t others i fit) in
    matches_by_segs _ t
      (host_eq first.host t.host
        (sym ((eq_iff t.host first.host).0 (left_of (t.host == first.host) _ fits))))
      (match_other first.segs t.segs (map (λ o. o.segs) others) (In-map (λ o. o.segs) t others i)
        (right_of (t.host == first.host) _ fits) full)

merged_matches :
    (ds : List Template) (g t : Template)
    → merge_templates ds ≡ some g
    → In t ds
    → no_empty t.segs ≡ true
    → match_template g t ≡ true
unfolding merge_templates
merged_matches [] g t h i full = cc
merged_matches (first ∷ []) g t h i full = cc
merged_matches (first ∷ second ∷ more) g t h i full =
    elim (Bool-cases (refused first second more)) [
      | inl no_merge ↦ let h' = rw (no_merge, refused) at h in cc
      | inr merges ↦
          rw (← some_inj (rw (merges, refused) at h))
            (fits_matches first (second ∷ more) t (left_false _ _ merges) i full)
    ]

-- Every template of a list that is merged into one pattern matches the pattern, unless it has an
-- empty segment: no page of the streams that are merged is lost.
pub generalized_matches :
    (ts : List Template) (g t : Template)
    → generalize_templates ts ≡ some g
    → In t ts
    → no_empty t.segs ≡ true
    → match_template g t ≡ true
unfolding generalize_templates
generalized_matches ts g t h i full =
    let (u, j, same_host, same_segs_) = distinct-In t ts i in
    same_parts g u t same_host same_segs_
      (merged_matches (distinct ts) g u h j (ap no_empty same_segs_ ∙ full))
