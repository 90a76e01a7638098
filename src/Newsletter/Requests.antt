-- ===== src/Newsletter/Requests.antt =====
-- The requests on messages and saves of app/internal/newsletter/service.go, and all of them in turn.
pub mod Held
pub mod Saved
pub mod Order
pub mod SourceOrder
pub mod SaveOrder
pub mod RequestOrder
pub mod Stopped
use morgenblau.Common.{
  ℕ, suc, Option, none, some, Bool, true, false, ◌&&◌, ◌||◌, not, List, [], ◌∷◌, String, ◌==◌, eqb,
  ltb, if◌then◌else◌, any, keep_if, length,
}
use Prim.Native.String.{◌++◌}
use morgenblau.Newsletter.Tags.{TagLibrary, clean_tags}
use morgenblau.Newsletter.{
  Source, active, Message, Save, Mailbox, Outcome, not_found, invalid, Request, patch_source,
  stop_source, enable_source, delete_source, allow_remote_images, delete_save, move_message,
  save_message, set_save_tags, is_active, update_where, has_message, is_visible, delete_empty,
  delete_stopped_unsaved, in_tx, moved_to, patch, stop, enable, delete, allow_images,
}

abbrev pub find_save : String → List Save → Option Save
find_save id [] = none
find_save id (s ∷ saves) = let rest = find_save id saves in if s.id == id then some s else rest

-- Whether the source can take a message.
abbrev pub is_target : String → Mailbox → Bool
is_target id box = any (λ src. is_visible id src && is_active src.status) box.sources

module _ (lib : TagLibrary) (now : String) (commits : Bool) where
  -- CreateManualNewsletterSource
  abbrev pub manual_source : String → String → Source
  manual_source id title = record {
    id = id;
    source_key = "manual:" ++ id;
    title = title;
    status = active;
    accept_after = none;
    is_primary = false;
    tags = "[]";
    unsubscribe_url = none;
    deleted_at = none;
    updated_at = now;
  }

  abbrev pub with_moved : String → String → Mailbox → Mailbox
  with_moved id source_id box = delete_empty (record box {
    messages = update_where (λ m. m.id == id) (moved_to lib now commits source_id) box.messages;
  })

  -- MoveMessage, with the trimmed parts of its target; no two sources have one id.
  unfoldable pub move : String → String → String → String → Mailbox → Outcome × Mailbox
  move id source_id title new_id box =
      if (source_id == "" && title == "") || (not (source_id == "") && not (title == ""))
      then (invalid, box)
      else (if not (has_message id box)
          then (not_found, box)
          else (if source_id == ""
              then in_tx (commits && not (any (λ src. src.id == new_id) box.sources))
                  (with_moved id new_id
                    (record box { sources = manual_source new_id title ∷ box.sources }))
                  box
              else (if not (any (is_visible source_id) box.sources)
                  then (not_found, box)
                  else (if is_target source_id box
                      then in_tx commits (with_moved id source_id box) box
                      else (invalid, box)))))

  -- CreateNewsletterSave: a message that is saved keeps its save.
  abbrev pub with_save : String → String → Mailbox → Mailbox
  with_save id new_id box = if any (λ s. s.message_id == id) box.saves then box else record box {
    saves = record { id = new_id; message_id = id; created_at = now; tags = "[]" } ∷ box.saves;
  }

  -- No two saves have one id.
  abbrev pub can_save : String → String → Mailbox → Bool
  can_save id new_id box =
      any (λ s. s.message_id == id) box.saves || not (any (λ s. s.id == new_id) box.saves)

  unfoldable pub save : String → String → Mailbox → Outcome × Mailbox
  save id new_id box =
      if has_message id box
      then in_tx (commits && can_save id new_id box) (with_save id new_id box) box
      else (not_found, box)

  unsaved : String → Option Save → Mailbox → Outcome × Mailbox
  unsaved id none box = (not_found, box)
  unsaved id (some row) box =
      in_tx commits
        (delete_empty (
          delete_stopped_unsaved row.message_id
            (record box { saves = keep_if (λ s. not (s.id == id)) box.saves })))
        box

  -- DeleteSave
  unfoldable pub unsave : String → Mailbox → Outcome × Mailbox
  unfolding unsaved
  unsave id box = unsaved id (find_save id box.saves) box

  pub with_tags : String → Option (List String) → Mailbox → Outcome × Mailbox
  with_tags id none box = (invalid, box)
  with_tags id (some cleaned) box =
      if ltb 10 (length cleaned)
      then (invalid, box)
      else (if any (λ s. s.id == id) box.saves
          then in_tx commits
              (record box {
                saves =
                    update_where (λ s. s.id == id) (λ s. record s { tags = lib.to_json cleaned })
                      box.saves;
              })
              box
          else (not_found, box))

  unfoldable pub tag_save : String → List String → Mailbox → Outcome × Mailbox
  unfolding with_tags
  tag_save id tags box = with_tags id (clean_tags lib tags) box

  unfoldable pub handle : Request → Mailbox → Outcome × Mailbox
  unfolding move save unsave tag_save
  handle (patch_source id title primary tags) box = patch lib now commits id title primary tags box
  handle (stop_source id) box = stop lib now commits id box
  handle (enable_source id) box = enable lib now commits id box
  handle (delete_source id) box = delete lib now commits id box
  handle (allow_remote_images id) box = allow_images lib now commits id box
  handle (delete_save id) box = unsave id box
  handle (move_message id source_id title new_id) box =
      move id (lib.trim_space source_id) (lib.trim_space title) new_id box
  handle (save_message id new_id) box = save id new_id box
  handle (set_save_tags id tags) box = tag_save id tags box

-- A request with the time and the luck of its transaction.
pub record Timed : Type 0 where
  pub now : String
  pub commits : Bool
  pub request : Request

unfoldable pub handle_all : TagLibrary → List Timed → Mailbox → Mailbox
unfolding handle
handle_all lib [] box = box
handle_all lib (r ∷ rs) box = handle_all lib rs (handle lib r.now r.commits r.request box).1
