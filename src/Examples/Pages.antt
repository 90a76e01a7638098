-- ===== src/Examples/Pages.antt =====
-- Examples for template.go and repair.go.
use morgenblau.Common.{
  ◌≤◌, ℕ, ◌≡◌, refl, none, some, true, false, List, [], ◌∷◌, String, length, inl,
}
use morgenblau.Webfeed.Template.{
  Template, generalize_templates, distinct, merge_templates, merge_segs, has_literal,
  match_template,
}
use morgenblau.Webfeed.Template.Merge.{generalized_matches}
use morgenblau.Webfeed.Repair.{
  Item, RepairInput, RepairResult, Parts, fine, accept_for, accept_other, same_keys, item_url_keys,
  heuristic, different_list,
}
use morgenblau.Webfeed.Repair.Ladder.{repair, climb, on_page, try_items, after_page}
use morgenblau.Webfeed.Repair.Doubted.{doubted_repair_differs}

abbrev year : String → Template
year y = record { host = "a.com"; segs = "blog" ∷ y ∷ "*" ∷ [] }

abbrev two_years : List Template
two_years = year "2024" ∷ year "2025" ∷ []

generalized_matches_example : match_template (year "*") (year "2024") ≡ true
unfolding generalize_templates distinct merge_templates merge_segs has_literal
generalized_matches_example =
    generalized_matches two_years (year "*") (year "2024") refl (inl refl) refl

abbrev post : String → Item
post u = record { url = u; title = u }

abbrev parts : Parts ℕ String
parts = record {
  reinfer = λ step page input. some "fresh";
  apply_page = λ rec page. some (post "u" ∷ post "v" ∷ post "w" ∷ []);
  setup_listing = λ rec. (none, fine);
  recipe_templates = λ rec. [];
  dominant_template = λ items templates. none;
  has_doubts = λ items templates. false;
  refingerprint = λ rec items templates. rec;
  url_key = λ u. u;
  title_key = λ t. t;
  key_set = λ keys. keys;
}

abbrev doubted_input : RepairInput String
doubted_input = record {
  recipe = "old";
  history = record { urls = "u" ∷ []; titles = []; url_template = none } ∷ [];
  allow_model = false;
  is_doubted = true;
}

abbrev repaired : RepairResult String
repaired = (repair parts (some (post "u" ∷ [], some 0)) doubted_input false).1

doubted_repair_differs_example :
    (different_list ≡ different_list)
    × (3 ≤ length repaired.items)
    × (same_keys
          (parts.key_set (item_url_keys parts repaired.items))
          (parts.key_set (item_url_keys parts (post "u" ∷ [])))
        ≡ false)
unfolding repair climb on_page try_items after_page accept_for accept_other
doubted_repair_differs_example =
    doubted_repair_differs parts doubted_input (post "u" ∷ []) (some 0) false heuristic
      different_list refl refl
