-- ===== src/Websource/Store/Distinct.antt =====
-- Posts stored once: insertItems of app/internal/websource/service.go with the statement
-- InsertWebSourceItem.
use morgenblau.Common.{
  ℕ, suc, ◌≡◌, refl, ap, sym, ◌∙◌, some, some_inj, Bool, true, false, ◌&&◌, ◌||◌, not, List, [],
  ◌∷◌, String, ◌==◌, eq_iff, eq_refl, arith, any, Bool-cases, inl, inr,
}
use morgenblau.Websource.{Library, Item, url_key}
use morgenblau.Websource.Items.Gate.{has_key}
use morgenblau.Websource.Items.Apart.{apart, apart_mono, is_known_key}
use morgenblau.Websource.Store.{
  Statement, insert_item, ItemRow, when_works, add_item, insert_from, item_row, is_known_of,
}
use morgenblau.Websource.Store.Frame.{bind-some, when_works-some}

module _ (lib : Library) where
  abbrev pub has_post : String → List ItemRow → String → Bool
  has_post id rows key = any (λ row. row.source_id == id && url_key lib row.url == key) rows

  -- No two items of the source have the same key.
  unfoldable pub posts_distinct : String → List ItemRow → Bool
  posts_distinct id [] = true
  posts_distinct id (row ∷ rows) =
      not (row.source_id == id && has_post id rows (url_key lib row.url)) && posts_distinct id rows

  pub known_key_has_post :
      (id key : String) (rows : List ItemRow)
      → is_known_key lib (is_known_of id rows) key ≡ has_post id rows key
  known_key_has_post id key [] = refl
  known_key_has_post id key (row ∷ rows) = ground (arith, known_key_has_post id key rows)

  new_post_new_row :
      (id url : String) (rows : List ItemRow)
      → has_post id rows (url_key lib url) ≡ false
      → any (λ r. r.source_id == id && r.url == url) rows ≡ false
  new_post_new_row id url [] h = refl
  new_post_new_row id url (row ∷ rows) h = elim (Bool-cases (row.url == url)) [
    | inl same ↦
        let e = ap (url_key lib) ((eq_iff row.url url).0 same) in
        ground (arith, new_post_new_row id url rows, eq_iff (url_key lib row.url) (url_key lib url))
    | inr other ↦ ground (arith, new_post_new_row id url rows)
  ]

  add_item_new :
      (row : ItemRow) (rows : List ItemRow)
      → has_post row.source_id rows (url_key lib row.url) ≡ false
      → add_item row rows ≡ row ∷ rows
  unfolding add_item
  add_item_new row rows h = rw (new_post_new_row row.source_id row.url rows h) refl

  -- Items with keys of their own are added one by one, and their keys with them.
  pub insert_from_adds :
      (works : Statement → Bool) (i : ℕ) (id : String) (now : ℕ) (history : Bool)
      (items : List Item) (rows rows' : List ItemRow)
      → posts_distinct id rows ≡ true
      → apart lib (has_post id rows) items ≡ true
      → insert_from lib works i id now history items rows ≡ some rows'
      → (posts_distinct id rows' ≡ true)
        × ((k : String) → has_post id rows' k ≡ (has_key lib k items || has_post id rows k))
  unfolding insert_from apart posts_distinct
  insert_from_adds works i id now history [] rows rows' d a h = rw (← some_inj h) (d, λ k. refl)
  insert_from_adds works i id now history (it ∷ items) rows rows' d a h =
      let row = item_row lib works id now history i it in
      let key = url_key lib it.url in
      let new : has_post id rows key ≡ false = ground arith in
      let (added, inserted, h1) =
        bind-some (when_works (works (insert_item it.url)) (add_item row rows)) _ rows' h in
      let e : added ≡ row ∷ rows =
        sym (when_works-some (works (insert_item it.url)) _ added inserted)
        ∙ add_item_new row rows new in
      let (distinct, keys) =
        insert_from_adds works (suc i) id now history items (row ∷ rows) rows'
          (ground (arith, eq_refl id))
          (apart_mono lib (λ k. key == k || has_post id rows k) (has_post id (row ∷ rows)) items
            (λ k f. ground (arith, eq_refl id)) (ground arith))
          (rw e at h1) in
      (distinct, λ k. ground (arith, keys k, eq_refl id))
