-- ===== src/Newsletter/Requests/Stopped.antt =====
-- A stopped source keeps its saved issues only: app/internal/newsletter/service.go.
use morgenblau.Common.{
  ◌≡◌, refl, Bool, true, false, ◌&&◌, ◌||◌, not, List, [], ◌∷◌, String, ◌==◌, any, arith,
  Bool-cases, inl, inr,
}
use morgenblau.Newsletter.Tags.{TagLibrary, clean_tags}
use morgenblau.Newsletter.{
  Source, Mailbox, Request, patch_source, stop_source, enable_source, delete_source,
  allow_remote_images, delete_save, move_message, save_message, set_save_tags, has_message,
  is_active, is_visible,
}
use morgenblau.Newsletter.Requests.{is_target, move, tag_save, handle, Timed, handle_all}
use morgenblau.Newsletter.Requests.{with_moved, manual_source}
use morgenblau.Newsletter.Requests.Order.{
  order_kept, ids_distinct, target_not_stopped, absent_not_stopped,
}
use morgenblau.Newsletter.Requests.SourceOrder.{
  in_order, InOrder, saves_of, order_by, ids_of, saved_of, patch_order, stop_order, delete_order,
  enable_order,
}
use morgenblau.Newsletter.Requests.RequestOrder.{
  in_tx_order, allow_images_order, target_order, in_tx_guarded, save_order, unsave_order,
  with_tags_order,
}

-- A new source that is not stopped.
new_source_order :
    (new : Source) (box : Mailbox)
    → in_order box ≡ true
    → is_active new.status ≡ true
    → any (λ s. s.id == new.id) box.sources ≡ false
    → in_order (record box { sources = new ∷ box.sources }) ≡ true
unfolding ids_distinct
new_source_order new box h on fresh =
    let ids = ids_of box h in
    order_by (record box { sources = new ∷ box.sources }) (ground (arith, ids)) (saves_of box h)
      (order_kept box.sources (new ∷ box.sources) box.saves box.saves box.messages
        (λ m e. ground (arith, e, on)) (saved_of box h))

module _ (lib : TagLibrary) (now : String) (commits : Bool) (box : Mailbox)
    (h : in_order box ≡ true) where
  fresh_order :
      (id new_id title : String)
      → not (any (λ s. s.id == new_id) box.sources) ≡ true
      → in_order (
          with_moved lib now commits id new_id
            (record box { sources = manual_source lib now commits new_id title ∷ box.sources }))
        ≡ true
  fresh_order id new_id title free =
      let new = manual_source lib now commits new_id title in
      let wider = record box { sources = new ∷ box.sources } in
      let absent : any (λ s. s.id == new_id) box.sources ≡ false = ground arith in
      let idle = absent_not_stopped new_id box.sources absent in
      target_order lib now commits wider (new_source_order new box h refl absent) id new_id
        (ground (arith, idle))

  move_order :
      (id source_id title new_id : String)
      → InOrder (move lib now commits id source_id title new_id box)
  unfolding move
  move_order id source_id title new_id =
      elim (Bool-cases
        ((source_id == "" && title == "") || (not (source_id == "") && not (title == "")))) [
          | inl bad ↦ rw bad h
          | inr one ↦ elim (Bool-cases (has_message id box)) [
            | inr absent ↦ rw (one, absent) h
            | inl there ↦ elim (Bool-cases (source_id == "")) [
              | inl fresh ↦
                  rw (one, there, fresh)
                    (in_tx_guarded lib now commits box h
                      (not (any (λ s. s.id == new_id) box.sources)) _ (fresh_order id new_id title))
              | inr named ↦ elim (Bool-cases (any (is_visible source_id) box.sources)) [
                | inr hidden ↦ rw (one, there, named, hidden) h
                | inl visible ↦ elim (Bool-cases (is_target source_id box)) [
                  | inr idle ↦ rw (one, there, named, visible, idle) h
                  | inl target ↦
                      rw (one, there, named, visible, target)
                        (in_tx_order lib now commits box h commits _ (
                          target_order lib now commits box h id source_id
                            (target_not_stopped source_id box.sources (ids_of box h) target)))
                ]
              ]
            ]
          ]
        ]

handle_order :
    (lib : TagLibrary) (now : String) (commits : Bool) (box : Mailbox) (r : Request)
    → in_order box ≡ true
    → InOrder (handle lib now commits r box)
unfolding handle tag_save
handle_order lib now commits box (patch_source id title primary tags) h =
    patch_order lib now commits box h id title primary tags
handle_order lib now commits box (stop_source id) h = stop_order lib now commits box h id
handle_order lib now commits box (enable_source id) h = enable_order lib now commits box h id
handle_order lib now commits box (delete_source id) h = delete_order lib now commits box h id
handle_order lib now commits box (allow_remote_images id) h =
    allow_images_order lib now commits box h id
handle_order lib now commits box (delete_save id) h = unsave_order lib now commits box h id
handle_order lib now commits box (move_message id source_id title new_id) h =
    move_order lib now commits box h id (lib.trim_space source_id) (lib.trim_space title) new_id
handle_order lib now commits box (save_message id new_id) h =
    save_order lib now commits box h id new_id
handle_order lib now commits box (set_save_tags id tags) h =
    with_tags_order lib now commits box h id (clean_tags lib tags)

-- If sources have ids of their own, saves too, and every message of a stopped source is saved, then
-- this holds after any requests, one after the other, whichever of their transactions fail.
pub stopped_source_keeps_saved :
    (lib : TagLibrary) (requests : List Timed) (box : Mailbox)
    → in_order box ≡ true
    → in_order (handle_all lib requests box) ≡ true
unfolding handle_all
stopped_source_keeps_saved lib [] box h = h
stopped_source_keeps_saved lib (r ∷ rs) box h =
    stopped_source_keeps_saved lib rs (handle lib r.now r.commits r.request box).1
      (handle_order lib r.now r.commits box r.request h)
