-- ===== src/Newsletter/Requests/SourceOrder.antt =====
-- Messages of stopped sources under the requests on sources: app/internal/newsletter/service.go.
use morgenblau.Common.{
  ◌≡◌, refl, Option, none, some, Bool, true, false, ◌&&◌, ◌||◌, not, List, [], ◌∷◌, String, ◌==◌,
  if◌then◌else◌, any, keep_if, arith, Bool-cases, inl, inr,
}
use morgenblau.Newsletter.Tags.{TagLibrary, clean_tags}
use morgenblau.Newsletter.{
  Source, Save, Mailbox, Outcome, not_found, update_where, is_stopped, has_source, is_saved,
  delete_unsaved, delete_empty, in_tx, patch, patch_tags, patch_rows, stop, enable, delete,
  is_visible,
}
use morgenblau.Newsletter.{patch_cleaned, halted, enabled, marked_deleted, patched, is_none}
use morgenblau.Newsletter.Requests.Order.{
  only_saved_stopped, order_kept, order_filtered, stopped_same, stopped_other, enabled_fewer,
  kept_fewer, ids_distinct, distinct_update, distinct_filter,
}

unfoldable pub saves_distinct : List Save → Bool
saves_distinct [] = true
saves_distinct (s ∷ saves) = not (any (λ o. o.id == s.id) saves) && saves_distinct saves

-- Sources have ids of their own, so have saves, and every message of a stopped source is saved.
unfoldable pub in_order : Mailbox → Bool
in_order box =
    ids_distinct box.sources
    && saves_distinct box.saves
    && only_saved_stopped box.sources box.saves box.messages

abbrev pub InOrder : Outcome × Mailbox → Type 0
InOrder (outcome, box) = in_order box ≡ true

pub order_by :
    (box : Mailbox)
    → ids_distinct box.sources ≡ true
    → saves_distinct box.saves ≡ true
    → only_saved_stopped box.sources box.saves box.messages ≡ true
    → in_order box ≡ true
unfolding in_order
order_by box d u h = ground arith

pub saves_of : (box : Mailbox) → in_order box ≡ true → saves_distinct box.saves ≡ true
unfolding in_order
saves_of box h = ground arith

pub ids_of : (box : Mailbox) → in_order box ≡ true → ids_distinct box.sources ≡ true
unfolding in_order
ids_of box h = ground arith

pub saved_of :
    (box : Mailbox)
    → in_order box ≡ true
    → only_saved_stopped box.sources box.saves box.messages ≡ true
unfolding in_order
saved_of box h = ground arith

pub tested :
    (test commits : Bool) (after box : Mailbox) (refused : Outcome)
    → in_order box ≡ true
    → in_order after ≡ true
    → InOrder (if test then in_tx commits after box else (refused, box))
tested true true after box refused h h' = h'
tested true false after box refused h h' = h
tested false commits after box refused h h' = h

pub delete_empty_order : (box : Mailbox) → in_order box ≡ true → in_order (delete_empty box) ≡ true
unfolding delete_empty
delete_empty_order box h =
    let test : Source → Bool =
      λ src. is_none src.deleted_at || any (λ m. m.source_id == src.id) box.messages in
    order_by (delete_empty box) (distinct_filter test box.sources (ids_of box h)) (saves_of box h) (
      order_kept box.sources (keep_if test box.sources) box.saves box.saves box.messages
        (λ m e. elim (Bool-cases (is_stopped m.source_id box.sources)) [
          | inl halted_ ↦ ground (arith, e, halted_)
          | inr active_ ↦
              let still = kept_fewer m.source_id test box.sources active_ in ground (arith, still)
        ])
        (saved_of box h))

-- Stopping some sources of one id, and deleting its unsaved messages.
halt_order :
    (id : String) (test : Source → Bool) (f : Source → Source) (box : Mailbox)
    → ((s : Source) → test s ≡ true → (s.id == id) ≡ true)
    → ((s : Source) → (f s).id ≡ s.id)
    → in_order box ≡ true
    → in_order (delete_unsaved id (record box { sources = update_where test f box.sources })) ≡ true
unfolding delete_unsaved
halt_order id test f box mine same h =
    order_by (delete_unsaved id (record box { sources = update_where test f box.sources }))
      (distinct_update test f box.sources same (ids_of box h)) (saves_of box h)
      (order_filtered box.sources (update_where test f box.sources) box.saves box.saves
        (λ m. not (m.source_id == id) || is_saved box.saves m) box.messages
        (λ m e kept. elim (Bool-cases (m.source_id == id)) [
          | inl own ↦ ground (arith, kept, own)
          | inr other ↦
              let alone = stopped_other id m.source_id test f box.sources mine same other in
              ground (arith, e, alone)
        ])
        (saved_of box h))

module _ (lib : TagLibrary) (now : String) (commits : Bool) (box : Mailbox)
    (h : in_order box ≡ true) where
  patch_rows_order :
      (id : String) (title : Option String) (primary : Option Bool) (tags : Option String)
      → InOrder (patch_rows lib now commits id title primary tags box)
  unfolding patch_rows
  patch_rows_order id title primary tags =
      let f = patched lib now commits title primary tags in
      let rows = update_where (is_visible id) f box.sources in
      tested (has_source id box) commits (record box { sources = rows }) box not_found h
        (order_by (record box { sources = rows })
          (distinct_update (is_visible id) f box.sources (λ s. refl) (ids_of box h))
          (saves_of box h)
          (order_kept box.sources rows box.saves box.saves box.messages
            (λ m e.
              let same =
                stopped_same m.source_id (is_visible id) f box.sources (λ s. (refl, refl)) in
              ground (arith, e, same))
            (saved_of box h)))

  patch_cleaned_order :
      (id : String) (title : Option String) (primary : Option Bool) (tags : Option (List String))
      → InOrder (patch_cleaned lib now commits id title primary tags box)
  unfolding patch_cleaned
  patch_cleaned_order id title primary none = h
  patch_cleaned_order id title primary (some cleaned) =
      patch_rows_order id title primary (some (lib.to_json cleaned))

  patch_tags_order :
      (id : String) (title : Option String) (primary : Option Bool) (tags : Option (List String))
      → InOrder (patch_tags lib now commits id title primary tags box)
  unfolding patch_tags
  patch_tags_order id title primary none = patch_rows_order id title primary none
  patch_tags_order id title primary (some tags) =
      patch_cleaned_order id title primary (clean_tags lib tags)

  pub patch_order :
      (id : String) (title : Option String) (primary : Option Bool) (tags : Option (List String))
      → InOrder (patch lib now commits id title primary tags box)
  unfolding patch
  patch_order id none primary tags = patch_tags_order id none primary tags
  patch_order id (some title) primary tags = elim (Bool-cases (lib.trim_space title == "")) [
    | inl empty ↦ rw empty h
    | inr given ↦ rw given (patch_tags_order id (some (lib.trim_space title)) primary tags)
  ]

  pub stop_order : (id : String) → InOrder (stop lib now commits id box)
  unfolding stop
  stop_order id =
      tested (has_source id box) commits _ box not_found h
        (halt_order id (λ s. s.id == id) (halted lib now commits) box (λ s e. e) (λ s. refl) h)

  pub delete_order : (id : String) → InOrder (delete lib now commits id box)
  unfolding delete
  delete_order id = tested (has_source id box) commits _ box not_found h (
      delete_empty_order _ (
        halt_order id (is_visible id) (marked_deleted lib now commits) box (λ s e. ground arith)
          (λ s. refl) h))

  pub enable_order : (id : String) → InOrder (enable lib now commits id box)
  unfolding enable
  enable_order id =
      let mine : Source → Bool = λ s. s.id == id in
      let f = enabled lib now commits in
      let rows = update_where mine f box.sources in
      tested (has_source id box) commits (record box { sources = rows }) box not_found h
        (order_by (record box { sources = rows })
          (distinct_update mine f box.sources (λ s. refl) (ids_of box h)) (saves_of box h)
          (order_kept box.sources rows box.saves box.saves box.messages
            (λ m e. elim (Bool-cases (is_stopped m.source_id box.sources)) [
              | inl halted_ ↦ ground (arith, e, halted_)
              | inr active_ ↦
                  let still = enabled_fewer m.source_id mine f box.sources (λ s. refl) active_ in
                  ground (arith, still)
            ])
            (saved_of box h)))
