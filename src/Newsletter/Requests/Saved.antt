-- ===== src/Newsletter/Requests/Saved.antt =====
-- Saved issues stay until their save is deleted: app/internal/newsletter/service.go.
use morgenblau.Common.{
  ◌≡◌, refl, Option, none, some, Bool, true, false, ◌&&◌, ◌||◌, not, List, [], ◌∷◌, String, ◌==◌,
  eq_iff, ltb, if◌then◌else◌, any, keep_if, length, arith, Bool-cases, inl, inr,
}
use morgenblau.Newsletter.Tags.{TagLibrary, clean_tags}
use morgenblau.Newsletter.{
  Message, Save, Mailbox, Outcome, not_found, invalid, Request, patch_source, stop_source,
  enable_source, delete_source, allow_remote_images, delete_save, move_message, save_message,
  set_save_tags, update_where, has_message, has_source, delete_empty, in_tx, patch, patch_tags,
  patch_rows, stop, enable, delete, allow_images, is_visible,
}
use morgenblau.Newsletter.Requests.{
  with_save, can_save, find_save, is_target, move, save, unsave, unsaved, tag_save, with_tags,
  handle, Timed, handle_all,
}
use morgenblau.Newsletter.{patch_cleaned, moved_to}
use morgenblau.Newsletter.Requests.Held.{
  is_held, Held, in_tx_keeps, updated_message, updated_save, kept_save, messages_held, saves_held,
  held_by, delete_unsaved_keeps, delete_stopped_unsaved_keeps,
}

module _ (sid mid : String) (lib : TagLibrary) (now : String) (commits : Bool) (box : Mailbox)
    (h : is_held sid mid box ≡ true) where
  tx : (after : Mailbox) → is_held sid mid after ≡ true → Held sid mid (in_tx commits after box)
  tx after h' = in_tx_keeps sid mid commits after box h h'

  -- A transaction, if a test passes.
  tested :
      (test : Bool) (after : Mailbox) (refused : Outcome)
      → is_held sid mid after ≡ true
      → Held sid mid (if test then in_tx commits after box else (refused, box))
  tested true after refused h' = tx after h'
  tested false after refused h' = h

  patch_cleaned_keeps :
      (id : String) (title : Option String) (primary : Option Bool) (tags : Option (List String))
      → Held sid mid (patch_cleaned lib now commits id title primary tags box)
  unfolding patch_cleaned patch_rows
  patch_cleaned_keeps id title primary none = h
  patch_cleaned_keeps id title primary (some cleaned) = tested (has_source id box) _ not_found h

  patch_tags_keeps :
      (id : String) (title : Option String) (primary : Option Bool) (tags : Option (List String))
      → Held sid mid (patch_tags lib now commits id title primary tags box)
  unfolding patch_tags patch_rows
  patch_tags_keeps id title primary none = tested (has_source id box) _ not_found h
  patch_tags_keeps id title primary (some tags) =
      patch_cleaned_keeps id title primary (clean_tags lib tags)

  patch_keeps :
      (id : String) (title : Option String) (primary : Option Bool) (tags : Option (List String))
      → Held sid mid (patch lib now commits id title primary tags box)
  unfolding patch
  patch_keeps id none primary tags = patch_tags_keeps id none primary tags
  patch_keeps id (some title) primary tags = elim (Bool-cases (lib.trim_space title == "")) [
    | inl empty ↦ rw empty h
    | inr given ↦ rw given (patch_tags_keeps id (some (lib.trim_space title)) primary tags)
  ]

  stop_keeps : (id : String) → Held sid mid (stop lib now commits id box)
  unfolding stop
  stop_keeps id = tested (has_source id box) _ not_found (delete_unsaved_keeps sid mid id _ h)

  enable_keeps : (id : String) → Held sid mid (enable lib now commits id box)
  unfolding enable
  enable_keeps id = tested (has_source id box) _ not_found h

  delete_keeps : (id : String) → Held sid mid (delete lib now commits id box)
  unfolding delete delete_empty
  delete_keeps id = tested (has_source id box) _ not_found (delete_unsaved_keeps sid mid id _ h)

  updated :
      (test : Message → Bool) (f : Message → Message)
      → ((m : Message) → (f m).id ≡ m.id)
      → is_held sid mid (record box { messages = update_where test f box.messages }) ≡ true
  updated test f same =
      held_by sid mid (record box { messages = update_where test f box.messages })
        (updated_message sid mid test f box.messages same (messages_held sid mid box h))
        (saves_held sid mid box h)

  allow_images_keeps : (id : String) → Held sid mid (allow_images lib now commits id box)
  unfolding allow_images
  allow_images_keeps id =
      tested (has_message id box) _ not_found (updated (λ m. m.id == id) _ (λ m. refl))

  move_keeps :
      (id source_id title new_id : String)
      → Held sid mid (move lib now commits id source_id title new_id box)
  unfolding move delete_empty
  move_keeps id source_id title new_id =
      let moved_ = λ (target : String).
        updated (λ m. m.id == id) (moved_to lib now commits target) (λ m. refl) in
      elim (Bool-cases
        ((source_id == "" && title == "") || (not (source_id == "") && not (title == "")))) [
          | inl bad ↦ rw bad h
          | inr one ↦ elim (Bool-cases (has_message id box)) [
            | inr absent ↦ rw (one, absent) h
            | inl there ↦ elim (Bool-cases (source_id == "")) [
              | inl fresh ↦ rw (one, there, fresh) (in_tx_keeps sid mid _ _ box h (moved_ new_id))
              | inr named ↦ elim (Bool-cases (any (is_visible source_id) box.sources)) [
                | inr hidden ↦ rw (one, there, named, hidden) h
                | inl visible ↦
                    rw (one, there, named, visible)
                      (tested (is_target source_id box) _ invalid (moved_ source_id))
              ]
            ]
          ]
        ]

  save_keeps : (id new_id : String) → Held sid mid (save lib now commits id new_id box)
  unfolding save
  save_keeps id new_id = elim (Bool-cases (has_message id box)) [
    | inr absent ↦ rw absent h
    | inl there ↦ rw there (
        in_tx_keeps sid mid (commits && can_save lib now commits id new_id box)
          (with_save lib now commits id new_id box) box h
          (elim (Bool-cases (any (λ s. s.message_id == id) box.saves)) [
            | inl saved ↦ rw saved h
            | inr new ↦ rw new (ground arith)
          ]))
  ]

  unsaved_keeps :
      (id : String) (row : Option Save)
      → (id == sid) ≡ false
      → Held sid mid (unsaved lib now commits id row box)
  unfolding unsaved delete_empty
  unsaved_keeps id none other = h
  unsaved_keeps id (some row) other =
      let kept =
        kept_save sid mid (λ s. not (s.id == id)) box.saves
          (λ s e. ground (arith, e, other, eq_iff s.id sid, eq_iff id sid, eq_iff s.id id))
          (saves_held sid mid box h) in
      let removed = record box { saves = keep_if (λ s. not (s.id == id)) box.saves } in
      tx _ (
        delete_stopped_unsaved_keeps sid mid row.message_id removed
          (held_by sid mid removed (messages_held sid mid box h) kept))

  with_tags_keeps :
      (id : String) (tags : Option (List String))
      → Held sid mid (with_tags lib now commits id tags box)
  unfolding with_tags
  with_tags_keeps id none = h
  with_tags_keeps id (some cleaned) = elim (Bool-cases (ltb 10 (length cleaned))) [
    | inl many ↦ rw many h
    | inr few ↦
        let tagged = record box {
          saves =
              update_where (λ s. s.id == id) (λ s. record s { tags = lib.to_json cleaned })
                box.saves;
        } in
        rw few (
          tested (any (λ s. s.id == id) box.saves) tagged not_found (
            held_by sid mid tagged (messages_held sid mid box h) (
              updated_save sid mid (λ s. s.id == id) _ box.saves (λ s. (refl, refl))
                (saves_held sid mid box h))))
  ]

-- Whether the request deletes this save.
abbrev pub deletes_save : String → Request → Bool
deletes_save sid (delete_save id) = id == sid
deletes_save sid _ = false

module _ (sid mid : String) (lib : TagLibrary) where
  handle_keeps :
      (now : String) (commits : Bool) (box : Mailbox) (r : Request)
      → is_held sid mid box ≡ true
      → deletes_save sid r ≡ false
      → Held sid mid (handle lib now commits r box)
  unfolding handle unsave tag_save
  handle_keeps now commits box (patch_source id title primary tags) h other =
      patch_keeps sid mid lib now commits box h id title primary tags
  handle_keeps now commits box (stop_source id) h other =
      stop_keeps sid mid lib now commits box h id
  handle_keeps now commits box (enable_source id) h other =
      enable_keeps sid mid lib now commits box h id
  handle_keeps now commits box (delete_source id) h other =
      delete_keeps sid mid lib now commits box h id
  handle_keeps now commits box (allow_remote_images id) h other =
      allow_images_keeps sid mid lib now commits box h id
  handle_keeps now commits box (delete_save id) h other =
      unsaved_keeps sid mid lib now commits box h id (find_save id box.saves) other
  handle_keeps now commits box (move_message id source_id title new_id) h other =
      move_keeps sid mid lib now commits box h id (lib.trim_space source_id) (lib.trim_space title)
        new_id
  handle_keeps now commits box (save_message id new_id) h other =
      save_keeps sid mid lib now commits box h id new_id
  handle_keeps now commits box (set_save_tags id tags) h other =
      with_tags_keeps sid mid lib now commits box h id (clean_tags lib tags)

-- A saved message and its save stay through any requests of which none deletes that save, whatever
-- sources these stop, delete or change and whichever of their transactions fail.
pub saved_message_stays :
    (lib : TagLibrary) (sid mid : String) (requests : List Timed) (box : Mailbox)
    → is_held sid mid box ≡ true
    → any (λ r. deletes_save sid r.request) requests ≡ false
    → is_held sid mid (handle_all lib requests box) ≡ true
unfolding handle_all
saved_message_stays lib sid mid [] box h none_ = h
saved_message_stays lib sid mid (r ∷ rs) box h none_ =
    saved_message_stays lib sid mid rs (handle lib r.now r.commits r.request box).1
      (handle_keeps sid mid lib r.now r.commits box r.request h (ground arith)) (ground arith)
