-- ===== src/Webfeed/Repair.antt =====
-- app/internal/webfeed/repair.go: the acceptance rules of the repair ladder. What re-finds a list on the page, runs a
-- setup, measures a list and keys a post are the fields of `Parts`; `R` is the type of recipes.
-- The excerpts and the cost of a result are left out.
pub mod Ladder
pub mod Doubted
use morgenblau.Common.{
  ℕ, suc, ◌+◌, ◌*◌, Option, none, some, Bool, true, false, ◌&&◌, ◌||◌, not, List, [], ◌∷◌, ◌++◌,
  String, ◌==◌, if◌then◌else◌, any, keep_if, length, ltb, leb, map, eqb,
}
use morgenblau.Webfeed.Template.{Template, same_template}

pub data RepairStep : Type 0 where
  known_urls template heuristic judge : RepairStep

pub data Rule : Type 0 where
  known_url same_shape titles model different_list : Rule

pub record Item : Type 0 where
  pub url : String
  pub title : String

pub record GoodPoll : Type 0 where
  pub urls : List String
  pub titles : List String
  pub url_template : Option Template

pub record RepairInput (R : Type 0) : Type 0 where
  pub recipe : R
  pub history : List GoodPoll
  pub allow_model : Bool
  pub is_doubted : Bool

pub record RepairResult (R : Type 0) : Type 0 where
  pub rule : Option (RepairStep × Rule)  -- of an accepted repair
  pub false_alarm : Bool
  pub used_model : Bool
  pub tried : List RepairStep
  pub recipe : Option R
  pub items : List Item

-- What setupListing returns: its result, and whether it failed and the context is done.
pub record SetupResult (R : Type 0) : Type 0 where
  pub recipe : R
  pub items : List Item
  pub healthy : Bool
  pub blocked : Bool
  pub model_calls : ℕ

pub data Failure : Type 0 where
  fine failed canceled : Failure

pub data RepairError : Type 0 where
  no_page bad_page context_done : RepairError

pub record Parts (P R : Type 0) : Type 0 where
  pub reinfer : RepairStep → P → RepairInput R → Option R
  pub apply_page : R → P → Option (List Item)
  pub setup_listing : R → Option (SetupResult R) × Failure
  pub recipe_templates : R → List Template
  pub dominant_template : List Item → List Template → Option Template
  pub has_doubts : List Item → List Template → Bool
  pub refingerprint : R → List Item → List Template → R
  pub url_key : String → String
  pub title_key : String → String
  pub key_set : List String → List String  -- sorted, without repeats

-- How the loop over the steps ends.
pub data LadderEnd (R : Type 0) : Type 0 where
  taken exhausted : RepairResult R → LadderEnd R
  unreadable : LadderEnd R

abbrev pub accept_min_items : ℕ
accept_min_items = 3

abbrev pub same_keys : List String → List String → Bool
same_keys [] [] = true
same_keys [] (b ∷ bs) = false
same_keys (a ∷ rest) [] = false
same_keys (a ∷ rest) (b ∷ bs) = a == b && same_keys rest bs

abbrev pub same_shape? : Option Template → Option Template → Bool
same_shape? none last = false
same_shape? (some d) none = false
same_shape? (some d) (some t) = same_template d t

abbrev pub has_key : List String → String → Bool
has_key keys k = any (λ j. j == k) keys

module _ {P R : Type 0} (parts : Parts P R) where
  abbrev pub item_url_keys : List Item → List String
  item_url_keys items = map (λ it. parts.url_key it.url) items

  abbrev pub title_keys : List Item → List String
  title_keys items = map (λ it. parts.title_key it.title) items

  -- How many of the last poll's titles are on the page again.
  abbrev pub reappearing : GoodPoll → List Item → ℕ
  reappearing last items =
      length (keep_if (λ t. has_key (title_keys items) (parts.title_key t)) last.titles)

  judge_by : List Item → Option Template → GoodPoll → Bool → Option Rule
  judge_by items dominant last model_step =
      let reappear = reappearing last items in
      if any (λ it. has_key (map parts.url_key last.urls) (parts.url_key it.url)) items
      then some known_url
      else (if leb accept_min_items (length items) && same_shape? dominant last.url_template
          then some same_shape
          else (if ltb 0 (length last.titles) && leb (length last.titles) (2 * reappear)
              then some titles
              else (if model_step && leb accept_min_items (length items) && ltb 0 reappear
                  then some model
                  else none)))

  unfoldable pub accept_repair : List Item → Option Template → List GoodPoll → Bool → Option Rule
  unfolding judge_by
  accept_repair items dominant [] model_step = none
  accept_repair [] dominant (last ∷ older) model_step = none
  accept_repair (it ∷ items) dominant (last ∷ older) model_step =
      judge_by (it ∷ items) dominant last model_step

  -- out.take, with the accepted rule and whether it is a false alarm.
  abbrev pub take : RepairStep → Rule → Bool → R → List Item → RepairResult R → RepairResult R
  take step rule alarm rec items out = record out {
    rule = some (step, rule);
    false_alarm = alarm;
    recipe = some (parts.refingerprint rec items (parts.recipe_templates rec));
    items = items;
  }

  abbrev pub is_alarm : List Item → List GoodPoll → Bool
  is_alarm items [] = false
  is_alarm items (last ∷ older) =
      same_keys (parts.key_set (item_url_keys items)) (parts.key_set (map parts.url_key last.urls))

  take_if :
      Option Rule → RepairStep → Bool → R → List Item → RepairResult R → Option (RepairResult R)
  take_if none step alarm rec items out = none
  take_if (some rule) step alarm rec items out = some (take step rule alarm rec items out)

  -- `none` is a repair that is not accepted.
  unfoldable pub accept :
      RepairStep → R → List Item → List GoodPoll → Bool → RepairResult R → Option (RepairResult R)
  unfolding take_if
  accept step rec items history model_picked out =
      take_if
        (accept_repair items (parts.dominant_template items (parts.recipe_templates rec)) history
          model_picked)
        step (is_alarm items history) rec items out

  unfoldable pub accept_other :
      RepairStep → R → List Item → List String → RepairResult R → Option (RepairResult R)
  accept_other step rec items doubted_keys out =
      if ltb (length items) accept_min_items
        || same_keys (parts.key_set (item_url_keys items)) doubted_keys
        || parts.has_doubts items (parts.recipe_templates rec)
      then none
      else some (take step different_list out.false_alarm rec items out)

  -- The acceptance that Repair chooses, over the items of the poll.
  unfoldable pub accept_for :
      RepairInput R
      → List Item
      → RepairStep
      → R
      → List Item
      → Bool
      → RepairResult R
      → Option (RepairResult R)
  accept_for input polled step rec items model_picked out =
      if input.is_doubted
      then accept_other step rec items (parts.key_set (item_url_keys polled)) out
      else accept step rec items input.history model_picked out

  abbrev pub steps_for : Bool → List RepairStep
  steps_for true = heuristic ∷ []
  steps_for false = known_urls ∷ template ∷ heuristic ∷ []

  abbrev pub with_tried : RepairStep → RepairResult R → RepairResult R
  with_tried step out = record out { tried = out.tried ++ step ∷ [] }
