-- ===== src/Webfeed/Repair/Ladder.antt =====
-- The ladder itself: Repair of app/internal/webfeed/repair.go.
use morgenblau.Common.{
  Option, none, some, Bool, false, ◌&&◌, ◌||◌, not, List, [], ◌∷◌, if◌then◌else◌, length, ltb, eqb,
}
use morgenblau.Webfeed.Repair.{
  RepairStep, Item, RepairInput, RepairResult, SetupResult, Failure, RepairError, Parts, LadderEnd,
  accept_for, steps_for, with_tried, judge, fine, failed, canceled, no_page, bad_page, context_done,
  taken, exhausted, unreadable,
}

module _ {P R : Type 0} (parts : Parts P R) where
  unfoldable pub try_items :
      RepairInput R
      → List Item
      → RepairStep
      → R
      → List Item
      → RepairResult R
      → (RepairResult R → LadderEnd R)
      → LadderEnd R
  try_items input polled step rec items out next =
      elim (accept_for parts input polled step rec items false (with_tried parts step out)) [
        | none ↦ next (with_tried parts step out)
        | some out' ↦ taken out'
      ]

  -- The loop over the steps on the polled page.
  unfoldable pub on_page :
      RepairInput R → List Item → P → List RepairStep → RepairResult R → LadderEnd R
  unfolding try_items
  on_page input polled page [] out = exhausted out
  on_page input polled page (step ∷ steps) out = elim (parts.reinfer step page input) [
    | none ↦ on_page input polled page steps out
    | some rec ↦ elim (parts.apply_page rec page) [
      | none ↦ unreadable
      | some items ↦ try_items input polled step rec items out (on_page input polled page steps)
    ]
  ]

  abbrev pub or_out : Option (RepairResult R) → RepairResult R → RepairResult R
  or_out none out = out
  or_out (some out') out = out'

  -- The judge step after a setup that did not fail.
  unfoldable pub judged :
      RepairInput R → List Item → SetupResult R → RepairResult R → RepairResult R
  judged input polled res out =
      if (input.is_doubted && not res.healthy) || res.blocked
      then out
      else or_out (accept_for parts input polled judge res.recipe res.items out.used_model out) out

  unfoldable pub after_setup :
      RepairInput R
      → List Item
      → Option (SetupResult R) × Failure
      → RepairResult R
      → Option RepairError × RepairResult R
  unfolding judged
  after_setup input polled (none, canceled) out = (some context_done, out)
  after_setup input polled (none, _) out = (none, out)
  after_setup input polled (some res, failure) out =
      let paid = record (with_tried parts judge out) { used_model = ltb 0 res.model_calls } in
      elim failure [
        | fine ↦ (none, judged input polled res paid)
        | failed ↦ (none, paid)
        | canceled ↦ (some context_done, paid)
      ]

  unfoldable pub ask_judge :
      RepairInput R → List Item → Bool → RepairResult R → Option RepairError × RepairResult R
  unfolding after_setup
  ask_judge input polled has_model out =
      if input.allow_model && has_model
      then after_setup input polled (parts.setup_listing input.recipe) out
      else (none, out)

  abbrev pub fresh_result : RepairResult R
  fresh_result = record {
    rule = none;
    false_alarm = false;
    used_model = false;
    tried = [];
    recipe = none;
    items = [];
  }

  unfoldable pub after_page :
      RepairInput R → List Item → Bool → LadderEnd R → Option RepairError × RepairResult R
  unfolding ask_judge
  after_page input polled has_model (taken out) = (none, out)
  after_page input polled has_model (exhausted out) = ask_judge input polled has_model out
  after_page input polled has_model unreadable = (some bad_page, fresh_result)

  unfoldable pub climb :
      RepairInput R → List Item → Bool → Option P → Option RepairError × RepairResult R
  unfolding after_page on_page
  climb input polled has_model none = ask_judge input polled has_model fresh_result
  climb input polled has_model (some page) =
      after_page input polled has_model
        (on_page input polled page (steps_for parts input.is_doubted) fresh_result)

  -- Repair. A poll that fetched a page has its items and, unless it was a sitemap, the document.
  unfoldable pub repair :
      Option (List Item × Option P) → RepairInput R → Bool → Option RepairError × RepairResult R
  unfolding climb
  repair none input has_model = (some no_page, fresh_result)
  repair (some (polled, page)) input has_model =
      if eqb (length input.history) 0
      then (none, fresh_result)
      else climb input polled has_model page
