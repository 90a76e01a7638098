-- ===== src/Newsletter/Requests/RequestOrder.antt =====
-- Messages of stopped sources under the requests on messages and saves: app/internal/newsletter/service.go.
use morgenblau.Common.{
  ◌≡◌, refl, Option, none, some, Bool, true, false, ◌&&◌, ◌||◌, not, List, ◌∷◌, String, ◌==◌, ltb,
  any, keep_if, length, arith, Bool-cases, Option-cases, inl, inr,
}
use morgenblau.Newsletter.Tags.{TagLibrary}
use morgenblau.Newsletter.{
  Message, Save, Mailbox, not_found, update_where, is_stopped, has_message, is_saved, delete_empty,
  delete_stopped_unsaved, in_tx, allow_images,
}
use morgenblau.Newsletter.Requests.{find_save, save, unsave, unsaved, with_tags}
use morgenblau.Newsletter.{moved_to}
use morgenblau.Newsletter.Requests.{with_moved}
use morgenblau.Newsletter.Requests.Order.{order_kept, order_filtered}
use morgenblau.Newsletter.Requests.SourceOrder.{
  in_order, InOrder, saves_distinct, saves_of, order_by, ids_of, saved_of, tested,
  delete_empty_order,
}
use morgenblau.Newsletter.Requests.{with_save, can_save}
use morgenblau.Newsletter.Requests.SaveOrder.{
  moved_order, images_order, is_saved-update, is_saved-other, distinct_saves_filtered,
  distinct_saves_updated,
}

module _ (lib : TagLibrary) (now : String) (commits : Bool) (box : Mailbox)
    (h : in_order box ≡ true) where
  pub in_tx_order :
      (works : Bool) (after : Mailbox) → in_order after ≡ true → InOrder (in_tx works after box)
  in_tx_order true after h' = h'
  in_tx_order false after h' = h

  pub allow_images_order : (id : String) → InOrder (allow_images lib now commits id box)
  unfolding allow_images
  allow_images_order id =
      let f : Message → Message =
        λ m. record m { remote_images_allowed = true; updated_at = now } in
      let after = record box { messages = update_where (λ m. m.id == id) f box.messages } in
      tested (has_message id box) commits after box not_found h (
        order_by after (ids_of box h) (saves_of box h) (
          images_order (λ m. m.id == id) f box.sources box.saves box.messages (λ m. (refl, refl))
            (saved_of box h)))

  pub target_order :
      (id target : String)
      → is_stopped target box.sources ≡ false
      → in_order (with_moved lib now commits id target box) ≡ true
  target_order id target on =
      let f = moved_to lib now commits target in
      let after = record box { messages = update_where (λ m. m.id == id) f box.messages } in
      delete_empty_order after (
        order_by after (ids_of box h) (saves_of box h) (
          moved_order id target f box.sources box.saves box.messages (λ m. refl) on
            (saved_of box h)))

  -- In order if the transaction works.
  pub in_tx_guarded :
      (works : Bool) (after : Mailbox)
      → ((works ≡ true) → in_order after ≡ true)
      → InOrder (in_tx (commits && works) after box)
  in_tx_guarded true after h' = in_tx_order (commits && true) after (h' refl)
  in_tx_guarded false after h' = elim (Bool-cases commits) [ inl e ↦ rw e h | inr e ↦ rw e h ]

  new_save_order :
      (new : Save)
      → any (λ s. s.id == new.id) box.saves ≡ false
      → in_order (record box { saves = new ∷ box.saves }) ≡ true
  unfolding saves_distinct
  new_save_order new fresh =
      let own = saves_of box h in
      order_by (record box { saves = new ∷ box.saves }) (ids_of box h) (ground (arith, own))
        (order_kept box.sources box.sources box.saves (new ∷ box.saves) box.messages
          (λ m e. ground arith) (saved_of box h))

  with_save_order :
      (id new_id : String)
      → can_save lib now commits id new_id box ≡ true
      → in_order (with_save lib now commits id new_id box) ≡ true
  with_save_order id new_id can = elim (Bool-cases (any (λ s. s.message_id == id) box.saves)) [
    | inl saved ↦ rw saved h
    | inr new ↦
        let can' = rw new at can in
        rw new (
          new_save_order (record { id = new_id; message_id = id; created_at = now; tags = "[]" })
            (ground (arith, can')))
  ]

  pub save_order : (id new_id : String) → InOrder (save lib now commits id new_id box)
  unfolding save
  save_order id new_id = elim (Bool-cases (has_message id box)) [
    | inr absent ↦ rw absent h
    | inl there ↦ rw there (
        in_tx_guarded (can_save lib now commits id new_id box)
          (with_save lib now commits id new_id box) (with_save_order id new_id))
  ]

  unsaved_order :
      (id : String) (row : Save)
      → find_save id box.saves ≡ some row
      → InOrder (unsaved lib now commits id (some row) box)
  unfolding unsaved delete_stopped_unsaved
  unsaved_order id row e =
      let saves = keep_if (λ s. not (s.id == id)) box.saves in
      let removed = record box { saves = saves } in
      in_tx_order commits (delete_empty (delete_stopped_unsaved row.message_id removed)) (
        delete_empty_order (delete_stopped_unsaved row.message_id removed) (
          order_by (delete_stopped_unsaved row.message_id removed) (ids_of box h)
            (distinct_saves_filtered id box.saves (saves_of box h))
            (order_filtered box.sources box.sources box.saves saves
              (λ m.
                not (m.id == row.message_id)
                || is_saved saves m
                || not (is_stopped m.source_id box.sources))
              box.messages
              (λ m old kept. elim (Bool-cases (m.id == row.message_id)) [
                | inl own ↦ ground (arith, own, kept)
                | inr other ↦
                    let still = is_saved-other id row box.saves m (saves_of box h) e other in
                    ground (arith, old, still)
              ])
              (saved_of box h))))

  pub unsave_order : (id : String) → InOrder (unsave lib now commits id box)
  unfolding unsave unsaved
  unsave_order id = elim (Option-cases (find_save id box.saves)) [
    | inl absent ↦ rw absent h
    | inr (row, e) ↦ rw e (unsaved_order id row e)
  ]

  pub with_tags_order :
      (id : String) (tags : Option (List String)) → InOrder (with_tags lib now commits id tags box)
  unfolding with_tags
  with_tags_order id none = h
  with_tags_order id (some cleaned) = elim (Bool-cases (ltb 10 (length cleaned))) [
    | inl many ↦ rw many h
    | inr few ↦
        let f : Save → Save = λ s. record s { tags = lib.to_json cleaned } in
        let saves = update_where (λ s. s.id == id) f box.saves in
        rw few (
          tested (any (λ s. s.id == id) box.saves) commits (record box { saves = saves }) box
            not_found h
            (order_by (record box { saves = saves }) (ids_of box h)
              (distinct_saves_updated (λ s. s.id == id) f box.saves (λ s. refl) (saves_of box h))
              (order_kept box.sources box.sources box.saves saves box.messages
                (λ m e.
                  let same = is_saved-update (λ s. s.id == id) f box.saves m (λ s. refl) in
                  ground (arith, e, same))
                (saved_of box h))))
  ]
