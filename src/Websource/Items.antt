-- ===== src/Websource/Items.antt =====
-- The items that app/internal/websource/service.go stores: the gate that every item passes, and what
-- a poll publishes of them.
pub mod Gate
pub mod Apart
pub mod Sorted
use morgenblau.Common.{
  ℕ, suc, Option, none, some, Bool, true, false, ◌&&◌, ◌||◌, not, List, [], ◌∷◌, String, ◌==◌, ltb,
  eqb, if◌then◌else◌, any, length,
}
use morgenblau.Websource.{Library, Url, Item, url_key}

abbrev pub max_items : ℕ
max_items = 200

abbrev pub is_member : String → List String → Bool
is_member k keys = any (λ j. j == k) keys

module _ (lib : Library) where
  web_url : Option Url → Bool
  web_url none = false
  web_url (some u) =
      (u.scheme == "http" || u.scheme == "https") && not (u.host == "") && not u.has_user

  unfoldable pub is_web_link : String → Bool
  unfolding web_url
  is_web_link raw = web_url (lib.parse_url raw)

  abbrev pub trimmed : Item → Item
  trimmed it =
      let url = lib.trim_space it.url in
      let title = lib.trim_space it.title in
      record it { url = url; title = if title == "" then url else title }

  -- The loop; `kept` is len(out).
  unfoldable pub dedupe_from : List String → ℕ → List Item → List Item
  unfolding is_web_link
  dedupe_from seen kept [] = []
  dedupe_from seen kept (it ∷ items) =
      let url = lib.trim_space it.url in
      let key = url_key lib url in
      let passed_over = dedupe_from seen kept items in
      let rest = dedupe_from (key ∷ seen) (suc kept) items in
      if eqb kept max_items
      then []
      else (if is_member key seen || not (is_web_link url) then passed_over else trimmed it ∷ rest)

  unfoldable pub dedupe_items : List Item → List Item
  unfolding dedupe_from
  dedupe_items items = dedupe_from [] 0 items

-- A stored item as ListWebSourceKnownItems gives it.
pub record Known : Type 0 where
  pub url : String
  pub title : String

module _ (lib : Library) where
  abbrev pub knows_url : List Known → String → Bool
  knows_url known url = any (λ k. url_key lib k.url == url_key lib url) known

  abbrev pub on_page : List Item → String → Bool
  on_page items url = any (λ it. url_key lib it.url == url_key lib url) items

  -- A known post with the same title whose URL had another shape and is gone from the page.
  unfoldable pub moved_from : List Known → List Item → Item → Bool
  moved_from known items it =
      any
        (λ k.
          lib.title_key k.title == lib.title_key it.title
          && not (on_page items k.url)
          && not (lib.url_template k.url == lib.url_template it.url))
        known

  -- `oldest` 0 is no date.
  unfoldable pub is_dropped : List Known → ℕ → Item → Bool
  is_dropped known oldest it =
      knows_url known it.url || (not (eqb it.date 0) && not (eqb oldest 0) && ltb it.date oldest)

  -- The fresh items and the moved ones of the page `items`.
  unfoldable pub sort_out : List Known → ℕ → List Item → List Item → List Item × List Item
  unfolding is_dropped moved_from
  sort_out known oldest items [] = ([], [])
  sort_out known oldest items (it ∷ more) =
      let (fresh, moved) = sort_out known oldest items more in
      if is_dropped known oldest it
      then (fresh, moved)
      else (if moved_from known items it then (fresh, it ∷ moved) else (it ∷ fresh, moved))

  unfoldable pub unpublished : List Known → ℕ → List Item → List Item × List Item
  unfolding sort_out
  unpublished known oldest items = sort_out known oldest items items
