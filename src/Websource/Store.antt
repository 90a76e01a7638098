-- ===== src/Websource/Store.antt =====
-- The tables of app/internal/database/queries/web_sources.sql and the statements on them that
-- app/internal/websource/service.go runs in a transaction. A statement that fails is `none`. Tables
-- with an id have their newest row first.
pub mod Frame
pub mod Distinct
use morgenblau.Common.{
  ℕ, zero, suc, ◌-◌, ◌*◌, ◌+◌, Option, none, some, Bool, true, false, ◌&&◌, ◌||◌, not, List, [],
  ◌∷◌, String, ◌==◌, eqb, ltb, leb, str_lt, if◌then◌else◌, any, keep_if, length, map, Assoc, lookup,
  insert, ℤ, pos, add_time, negsuc,
}
use morgenblau.Websource.{
  Health, RepairCause, RepairOutcome, Item, Fingerprint, RepairReport, WebSource, Library,
}
use morgenblau.Websource.Items.{Known}
use morgenblau.Websource.Excerpt.{excerpt}

pub record ItemRow : Type 0 where
  pub source_id : String
  pub url : String
  pub title : String
  pub published_at : Option String
  pub excerpt : String
  pub first_seen_at : String
  pub history : Bool
  pub position : ℕ

pub record PollRow : Type 0 where
  pub source_id : String
  pub polled_at : String
  pub item_count : ℕ
  pub urls : String
  pub titles : String
  pub fingerprint : Fingerprint

pub record RepairRow : Type 0 where
  pub source_id : String
  pub attempted_at : String
  pub report : RepairReport

pub record SpendRow : Type 0 where
  pub spent_at : String
  pub kind : String
  pub usd : ℕ

pub record Store : Type 0 where
  pub sources : List WebSource
  pub aliases : Assoc String
  pub items : List ItemRow
  pub polls : List PollRow
  pub repairs : List RepairRow
  pub spend : List SpendRow

-- The statements of a transaction, as they may fail.
pub data Statement : Type 0 where
  insert_spend prune_spend count_repairs update_poll insert_repair prune_repairs : Statement
  list_known oldest_date insert_poll prune_polls delete_polls get_source : Statement
  delete_alias insert_alias rekey_source mark_tried replace_setup create_source : Statement
  get_by_key : (key : String) → Statement
  insert_item : (url : String) → Statement

infixl 10 ◌>>=◌
abbrev pub ◌>>=◌ : {A B : Type 0} → Option A → (A → Option B) → Option B
none >>= next = none
some a >>= next = next a

abbrev pub when_works : {A : Type 0} → Bool → A → Option A
when_works true a = some a
when_works false a = none

-- UPDATE ... WHERE
abbrev pub update_rows : {A : Type 0} → (A → Bool) → (A → A) → List A → List A
update_rows test f [] = []
update_rows test f (row ∷ rows) = (if test row then f row else row) ∷ update_rows test f rows

-- The first row that passes.
abbrev pub find_row : {A : Type 0} → (A → Bool) → List A → Option A
find_row test [] = none
find_row test (row ∷ rows) = let rest = find_row test rows in if test row then some row else rest

-- INSERT ... ON CONFLICT (source_id, url) DO NOTHING
unfoldable pub add_item : ItemRow → List ItemRow → List ItemRow
add_item row rows =
    if any (λ r. r.source_id == row.source_id && r.url == row.url) rows then rows else row ∷ rows

abbrev pub is_known_of : String → List ItemRow → List Known
is_known_of id [] = []
is_known_of id (row ∷ rows) =
    let rest = is_known_of id rows in
    if row.source_id == id then record { url = row.url; title = row.title } ∷ rest else rest

abbrev pub sooner : Option String → Option String → Option String
sooner none b = b
sooner (some a) none = some a
sooner (some a) (some b) = if str_lt b a then some b else some a

-- GetOldestWebSourceItemDate
unfoldable pub oldest_of : String → List ItemRow → Option String
oldest_of id [] = none
oldest_of id (row ∷ rows) =
    let rest = oldest_of id rows in
    if row.source_id == id then sooner row.published_at rest else rest

-- The first `n` rows of the source, and all rows of others.
unfoldable pub keep_newest : String → ℕ → List PollRow → List PollRow
keep_newest id n [] = []
keep_newest id n (row ∷ rows) =
    let other = keep_newest id n rows in
    let rest = keep_newest id (n - 1) rows in
    if row.source_id == id then (if eqb n 0 then rest else row ∷ rest) else row ∷ other

abbrev pub hours : ℕ → ℤ
hours n = negsuc (n * 3600000000000 - 1)

module _ (lib : Library) (works : Statement → Bool) where
  -- recordSpend; the oldest that the sum of a day's spend needs is kept twice as long.
  unfoldable pub record_spend : ℕ → String → ℕ → Store → Option Store
  record_spend now kind usd q =
      if lib.no_spend usd
      then some q
      else when_works (works insert_spend && works prune_spend) (
          let row : SpendRow = record { spent_at = lib.format_time now; kind = kind; usd = usd } in
          let before = lib.format_time (add_time now (hours 48)) in
          record q { spend = keep_if (λ r. not (str_lt r.spent_at before)) (row ∷ q.spend) })

  abbrev pub published_at : ℕ → Option String
  published_at date = if eqb date 0 then none else some (lib.format_time date)

  abbrev pub item_row : String → ℕ → Bool → ℕ → Item → ItemRow
  item_row id now history i it = record {
    source_id = id;
    url = it.url;
    title = it.title;
    published_at = published_at it.date;
    excerpt = excerpt lib.join_fields it.excerpt;
    first_seen_at = lib.format_time now;
    history = history;
    position = i;
  }

  unfoldable pub insert_from :
      ℕ → String → ℕ → Bool → List Item → List ItemRow → Option (List ItemRow)
  insert_from i id now history [] rows = some rows
  insert_from i id now history (it ∷ items) rows =
      when_works (works (insert_item it.url)) (add_item (item_row id now history i it) rows)
      >>= insert_from (suc i) id now history items

  unfoldable pub insert_items : String → ℕ → Bool → List Item → Store → Option Store
  unfolding insert_from
  insert_items id now history items q =
      insert_from 0 id now history items q.items >>= λ rows. some (record q { items = rows })

  unfoldable pub record_poll : String → ℕ → List Item → Fingerprint → Store → Option Store
  unfolding keep_newest
  record_poll id now items fp q = when_works (works insert_poll && works prune_polls) (
      let row : PollRow = record {
        source_id = id;
        polled_at = lib.format_time now;
        item_count = length items;
        urls = lib.to_json (map (λ it. it.url) items);
        titles = lib.to_json (map (λ it. it.title) items);
        fingerprint = fp;
      } in
      record q { polls = keep_newest id 6 (row ∷ q.polls) })
