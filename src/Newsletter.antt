-- ===== src/Newsletter.antt =====
-- app/internal/newsletter/service.go with app/internal/database/queries/newsletters.sql: what a reader
-- asks of their newsletters. A mailbox holds the rows of one owner. `commits` says whether a
-- request's transaction succeeds; the read that follows it is left out. package strings, JSON and
-- ulid are parameters.
pub mod Tags
pub mod Requests
use morgenblau.Common.{
  ℕ, suc, Option, none, some, Bool, true, false, ◌&&◌, ◌||◌, not, List, [], ◌∷◌, String, ◌==◌, eqb,
  ltb, if◌then◌else◌, any, keep_if, length,
}
use Prim.Native.String.{◌++◌}
use morgenblau.Newsletter.Tags.{TagLibrary, clean_tags}

pub data Status : Type 0 where
  active stopped : Status

pub record Source : Type 0 where
  pub id : String
  pub source_key : String
  pub title : String
  pub status : Status
  pub accept_after : Option String
  pub is_primary : Bool
  pub tags : String
  pub unsubscribe_url : Option String
  pub deleted_at : Option String
  pub updated_at : String

pub record Message : Type 0 where
  pub id : String
  pub source_id : String
  pub remote_images_allowed : Bool
  pub updated_at : String

pub record Save : Type 0 where
  pub id : String
  pub message_id : String
  pub created_at : String
  pub tags : String

pub record Mailbox : Type 0 where
  pub sources : List Source
  pub messages : List Message
  pub saves : List Save

pub data Outcome : Type 0 where
  done not_found invalid failed : Outcome

pub data Request : Type 0 where
  patch_source :
      (id : String) (title : Option String) (primary : Option Bool) (tags : Option (List String))
      → Request
  stop_source enable_source delete_source allow_remote_images delete_save : (id : String) → Request
  move_message : (id source_id new_title new_id : String) → Request
  save_message : (id new_id : String) → Request
  set_save_tags : (id : String) (tags : List String) → Request

abbrev pub is_active : Status → Bool
is_active active = true
is_active stopped = false

abbrev pub is_none : {A : Type 0} → Option A → Bool
is_none none = true
is_none (some a) = false

abbrev pub or_old : {A : Type 0} → Option A → A → A
or_old none old = old
or_old (some new) old = new

abbrev pub update_where : {A : Type 0} → (A → Bool) → (A → A) → List A → List A
update_where test f [] = []
update_where test f (row ∷ rows) = (if test row then f row else row) ∷ update_where test f rows

abbrev pub is_saved : List Save → Message → Bool
is_saved saves m = any (λ s. s.message_id == m.id) saves

abbrev pub is_visible : String → Source → Bool
is_visible id src = src.id == id && is_none src.deleted_at

-- GetSource finds it.
abbrev pub has_source : String → Mailbox → Bool
has_source id box = any (is_visible id) box.sources

abbrev pub has_message : String → Mailbox → Bool
has_message id box = any (λ m. m.id == id) box.messages

abbrev pub is_stopped : String → List Source → Bool
is_stopped id sources = any (λ src. src.id == id && not (is_active src.status)) sources

-- DeleteUnsavedNewsletterMessages
unfoldable pub delete_unsaved : String → Mailbox → Mailbox
delete_unsaved id box = record box {
  messages = keep_if (λ m. not (m.source_id == id) || is_saved box.saves m) box.messages;
}

-- DeleteEmptyDeletedNewsletterSources
unfoldable pub delete_empty : Mailbox → Mailbox
delete_empty box = record box {
  sources =
      keep_if (λ src. is_none src.deleted_at || any (λ m. m.source_id == src.id) box.messages)
        box.sources;
}

-- DeleteStoppedUnsavedNewsletterMessage
unfoldable pub delete_stopped_unsaved : String → Mailbox → Mailbox
delete_stopped_unsaved id box = record box {
  messages =
      keep_if
        (λ m. not (m.id == id) || is_saved box.saves m || not (is_stopped m.source_id box.sources))
        box.messages;
}

-- A request's transaction.
abbrev pub in_tx : Bool → Mailbox → Mailbox → Outcome × Mailbox
in_tx true after before = (done, after)
in_tx false after before = (failed, before)

module _ (lib : TagLibrary) (now : String) (commits : Bool) where
  abbrev pub enabled : Source → Source
  enabled src = record src { status = active; accept_after = some now; updated_at = now }

  abbrev pub halted : Source → Source
  halted src = record src { status = stopped; updated_at = now }

  -- MarkNewsletterSourceDeleted
  abbrev pub marked_deleted : Source → Source
  marked_deleted src = record src {
    status = stopped;
    source_key = "deleted:" ++ src.id;
    unsubscribe_url = none;
    deleted_at = some now;
    updated_at = now;
  }

  abbrev pub patched : Option String → Option Bool → Option String → Source → Source
  patched title primary tags src = record src {
    title = or_old title src.title;
    is_primary = or_old primary src.is_primary;
    tags = or_old tags src.tags;
    updated_at = now;
  }

  abbrev pub moved_to : String → Message → Message
  moved_to source_id m = record m { source_id = source_id; updated_at = now }

  patch_rows : String → Option String → Option Bool → Option String → Mailbox → Outcome × Mailbox
  patch_rows id title primary tags box =
      if has_source id box
      then in_tx commits
          (record box {
            sources = update_where (is_visible id) (patched title primary tags) box.sources;
          })
          box
      else (not_found, box)

  patch_cleaned :
      String → Option String → Option Bool → Option (List String) → Mailbox → Outcome × Mailbox
  patch_cleaned id title primary none box = (invalid, box)
  patch_cleaned id title primary (some cleaned) box =
      patch_rows id title primary (some (lib.to_json cleaned)) box

  patch_tags :
      String → Option String → Option Bool → Option (List String) → Mailbox → Outcome × Mailbox
  patch_tags id title primary none box = patch_rows id title primary none box
  patch_tags id title primary (some tags) box =
      patch_cleaned id title primary (clean_tags lib tags) box

  -- PatchSource: an empty title and bad tags are refused first.
  unfoldable pub patch :
      String → Option String → Option Bool → Option (List String) → Mailbox → Outcome × Mailbox
  unfolding patch_rows patch_cleaned patch_tags
  patch id none primary tags box = patch_tags id none primary tags box
  patch id (some title) primary tags box =
      if lib.trim_space title == ""
      then (invalid, box)
      else patch_tags id (some (lib.trim_space title)) primary tags box

  -- StopSource
  unfoldable pub stop : String → Mailbox → Outcome × Mailbox
  stop id box =
      if has_source id box
      then in_tx commits
          (delete_unsaved id
            (record box { sources = update_where (λ src. src.id == id) halted box.sources }))
          box
      else (not_found, box)

  unfoldable pub enable : String → Mailbox → Outcome × Mailbox
  enable id box =
      if has_source id box
      then in_tx commits
          (record box { sources = update_where (λ src. src.id == id) enabled box.sources }) box
      else (not_found, box)

  -- DeleteSource
  unfoldable pub delete : String → Mailbox → Outcome × Mailbox
  delete id box =
      if has_source id box
      then in_tx commits
          (delete_empty (
            delete_unsaved id
              (record box { sources = update_where (is_visible id) marked_deleted box.sources })))
          box
      else (not_found, box)

  unfoldable pub allow_images : String → Mailbox → Outcome × Mailbox
  allow_images id box =
      if has_message id box
      then in_tx commits
          (record box {
            messages =
                update_where (λ m. m.id == id)
                  (λ m. record m { remote_images_allowed = true; updated_at = now }) box.messages;
          })
          box
      else (not_found, box)
