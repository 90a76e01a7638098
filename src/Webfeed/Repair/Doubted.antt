-- ===== src/Webfeed/Repair/Doubted.antt =====
-- What an accepted repair of repair.go has shown.
use morgenblau.Common.{
  ◌≤◌, ◌≡◌, refl, ap, sym, Option, none, some, some_inj, Bool, true, false, ◌&&◌, ◌||◌, not, List,
  [], ◌∷◌, arith, length, ltb, eqb, Bool-cases, Option-cases, inl, inr,
}
use morgenblau.Webfeed.Repair.{
  RepairStep, Rule, different_list, Item, RepairInput, RepairResult, SetupResult, Failure, fine,
  failed, canceled, Parts, LadderEnd, taken, exhausted, unreadable, accept_min_items, same_keys,
  item_url_keys, accept_other, accept_for, with_tried, steps_for, judge,
}
use morgenblau.Webfeed.Repair.Ladder.{
  on_page, try_items, or_out, judged, after_setup, ask_judge, fresh_result, after_page, climb,
  repair,
}

module _ {P R : Type 0} (parts : Parts P R) where
  -- If the result is an accepted repair, its list is a fresh one of at least three posts.
  abbrev pub Fresh : List Item → RepairResult R → Type 0
  Fresh polled out =
      (s : RepairStep × Rule)
      → out.rule ≡ some s
      → (s.1 ≡ different_list)
        × (ltb (length out.items) accept_min_items ≡ false)
        × (same_keys (parts.key_set (item_url_keys parts out.items))
              (parts.key_set (item_url_keys parts polled))
            ≡ false)

  abbrev FreshEnd : List Item → LadderEnd R → Type 0
  FreshEnd polled (taken out) = Fresh polled out
  FreshEnd polled (exhausted out) = Fresh polled out
  FreshEnd polled unreadable = Unit

  left_no : (a b c : Bool) → a || b || c ≡ false → a ≡ false
  left_no a b c h = ground arith

  mid_no : (a b c : Bool) → a || b || c ≡ false → b ≡ false
  mid_no a b c h = ground arith

  other-Fresh :
      (polled : List Item) (step : RepairStep) (rec : R) (items : List Item)
      (out out' : RepairResult R)
      → accept_other parts step rec items (parts.key_set (item_url_keys parts polled)) out
        ≡ some out'
      → Fresh polled out'
  unfolding accept_other
  other-Fresh polled step rec items out out' h = elim (Bool-cases (refused)) [
    | inl no_take ↦ let h' = rw no_take at h in cc
    | inr ok_ ↦
        rw (← some_inj (rw ok_ at h))
          (λ s e. (sym (ap (λ x. x.1) (some_inj e)), left_no _ _ _ ok_, mid_no _ _ _ ok_))
  ]
    where
      refused : Bool
      refused =
          ltb (length items) accept_min_items
          || same_keys (parts.key_set (item_url_keys parts items))
              (parts.key_set (item_url_keys parts polled))
          || parts.has_doubts items (parts.recipe_templates rec)

  for-Fresh :
      (input : RepairInput R) (polled : List Item) (step : RepairStep) (rec : R) (items : List Item)
      (picked : Bool) (out out' : RepairResult R)
      → input.is_doubted ≡ true
      → accept_for parts input polled step rec items picked out ≡ some out'
      → Fresh polled out'
  unfolding accept_for
  for-Fresh input polled step rec items picked out out' d h =
      other-Fresh polled step rec items out out' (rw d at h)

  try_fresh :
      (input : RepairInput R) (polled : List Item) (step : RepairStep) (rec : R) (items : List Item)
      (out : RepairResult R) (next : RepairResult R → LadderEnd R)
      → input.is_doubted ≡ true
      → FreshEnd polled (next (with_tried parts step out))
      → FreshEnd polled (try_items parts input polled step rec items out next)
  unfolding try_items
  try_fresh input polled step rec items out next d f =
      elim (Option-cases
        (accept_for parts input polled step rec items false (with_tried parts step out))) [
          | inl refused ↦ rw (refused, try_items) f
          | inr (out', accepted) ↦
              rw (accepted, try_items)
                (for-Fresh input polled step rec items false (with_tried parts step out) out' d
                  accepted)
        ]

  on_page-Fresh :
      (input : RepairInput R) (polled : List Item) (page : P) (steps : List RepairStep)
      (out : RepairResult R)
      → input.is_doubted ≡ true
      → Fresh polled out
      → FreshEnd polled (on_page parts input polled page steps out)
  unfolding on_page
  on_page-Fresh input polled page [] out d f = f
  on_page-Fresh input polled page (step ∷ steps) out d f =
      elim (Option-cases (parts.reinfer step page input)) [
        | inl none_found ↦ rw (none_found, on_page) (on_page-Fresh input polled page steps out d f)
        | inr (rec, found) ↦ elim (Option-cases (parts.apply_page rec page)) [
          | inl bad ↦ rw (found, bad, on_page) tt
          | inr (items, read) ↦
              rw (found, read, on_page)
                (try_fresh input polled step rec items out (on_page parts input polled page steps) d
                  (on_page-Fresh input polled page steps (with_tried parts step out) d f))
        ]
      ]

  or_Fresh :
      (polled : List Item) (o : Option (RepairResult R)) (out : RepairResult R)
      → ((out' : RepairResult R) → o ≡ some out' → Fresh polled out')
      → Fresh polled out
      → Fresh polled (or_out parts o out)
  or_Fresh polled none out g f = f
  or_Fresh polled (some out') out g f = g out' refl

  judged-Fresh :
      (input : RepairInput R) (polled : List Item) (res : SetupResult R) (out : RepairResult R)
      → input.is_doubted ≡ true
      → Fresh polled out
      → Fresh polled (judged parts input polled res out)
  unfolding judged
  judged-Fresh input polled res out d f =
      elim (Bool-cases ((input.is_doubted && not res.healthy) || res.blocked)) [
        | inl refused ↦ rw (refused, judged) f
        | inr open_ ↦
            rw (open_, judged)
              (or_Fresh polled _ out
                (λ out'.
                  for-Fresh input polled judge res.recipe res.items out.used_model out out' d)
                f)
      ]

  after_setup-Fresh :
      (input : RepairInput R) (polled : List Item) (res : Option (SetupResult R) × Failure)
      (out : RepairResult R)
      → input.is_doubted ≡ true
      → Fresh polled out
      → Fresh polled (after_setup parts input polled res out).1
  unfolding after_setup
  after_setup-Fresh input polled (none, canceled) out d f = f
  after_setup-Fresh input polled (none, fine) out d f = f
  after_setup-Fresh input polled (none, failed) out d f = f
  after_setup-Fresh input polled (some res, canceled) out d f = f
  after_setup-Fresh input polled (some res, failed) out d f = f
  after_setup-Fresh input polled (some res, fine) out d f = judged-Fresh input polled res _ d f

  ask_judge-Fresh :
      (input : RepairInput R) (polled : List Item) (has_model : Bool) (out : RepairResult R)
      → input.is_doubted ≡ true
      → Fresh polled out
      → Fresh polled (ask_judge parts input polled has_model out).1
  unfolding ask_judge
  ask_judge-Fresh input polled has_model out d f =
      elim (Bool-cases (input.allow_model && has_model)) [
        | inl may ↦
            rw (may, ask_judge)
              (after_setup-Fresh input polled (parts.setup_listing input.recipe) out d f)
        | inr closed ↦ rw (closed, ask_judge) f
      ]

  nothing-Fresh : (polled : List Item) → Fresh polled (fresh_result parts)
  nothing-Fresh polled s e = cc

  after_page-Fresh :
      (input : RepairInput R) (polled : List Item) (has_model : Bool) (end_ : LadderEnd R)
      → input.is_doubted ≡ true
      → FreshEnd polled end_
      → Fresh polled (after_page parts input polled has_model end_).1
  unfolding after_page
  after_page-Fresh input polled has_model (taken out) d f = f
  after_page-Fresh input polled has_model (exhausted out) d f =
      ask_judge-Fresh input polled has_model out d f
  after_page-Fresh input polled has_model unreadable d f = nothing-Fresh polled

  climb-Fresh :
      (input : RepairInput R) (polled : List Item) (has_model : Bool) (page : Option P)
      → input.is_doubted ≡ true
      → Fresh polled (climb parts input polled has_model page).1
  unfolding climb
  climb-Fresh input polled has_model none d =
      ask_judge-Fresh input polled has_model (fresh_result parts) d (nothing-Fresh polled)
  climb-Fresh input polled has_model (some page) d = after_page-Fresh input polled has_model _ d (
      on_page-Fresh input polled page (steps_for parts input.is_doubted) (fresh_result parts) d
        (nothing-Fresh polled))

  repair-Fresh :
      (input : RepairInput R) (polled : List Item) (page : Option P) (has_model : Bool)
      → input.is_doubted ≡ true
      → Fresh polled (repair parts (some (polled, page)) input has_model).1
  unfolding repair
  repair-Fresh input polled page has_model d = elim (Bool-cases (eqb (length input.history) 0)) [
    | inl empty ↦ rw (empty, repair) (nothing-Fresh polled)
    | inr full ↦ rw (full, repair) (climb-Fresh input polled has_model page d)
  ]

  -- A repair of a list that a check doubted is accepted only with a list of at least three posts
  -- that is not the doubted one, under the rule for that, whichever step of the ladder found it and
  -- whatever the page, the setup and the model returned.
  pub doubted_repair_differs :
      (input : RepairInput R) (polled : List Item) (page : Option P) (has_model : Bool)
      (step : RepairStep) (rule : Rule)
      → input.is_doubted ≡ true
      → (repair parts (some (polled, page)) input has_model).1.rule ≡ some (step, rule)
      → let out = (repair parts (some (polled, page)) input has_model).1 in
        (rule ≡ different_list)
        × (3 ≤ length out.items)
        × (same_keys
              (parts.key_set (item_url_keys parts out.items))
              (parts.key_set (item_url_keys parts polled))
            ≡ false)
  doubted_repair_differs input polled page has_model step rule d accepted =
      let (by_rule, enough, differs) =
        repair-Fresh input polled page has_model d (step, rule) accepted in
      (by_rule, ground (arith, enough), differs)
