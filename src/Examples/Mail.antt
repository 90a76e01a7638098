-- ===== src/Examples/Mail.antt =====
-- Examples for the requests of app/internal/newsletter.
use morgenblau.Common.{◌≡◌, refl, none, true, false, List, [], ◌∷◌, String}
use morgenblau.Newsletter.Tags.{
  TagLibrary, clean_tags, clean_from, are_clean, cleaned_tags_distinct,
}
use morgenblau.Newsletter.{Source, active, Message, Mailbox, Request, stop_source, delete_source}
use morgenblau.Newsletter.Requests.{Timed, handle_all}
use morgenblau.Newsletter.Requests.Held.{is_held}
use morgenblau.Newsletter.Requests.Saved.{saved_message_stays}
use morgenblau.Newsletter.Requests.Order.{only_saved_stopped, ids_distinct}
use morgenblau.Newsletter.Requests.SourceOrder.{in_order, saves_distinct}
use morgenblau.Newsletter.Requests.Stopped.{stopped_source_keeps_saved}

abbrev tag_lib : TagLibrary
tag_lib = record {
  trim_space = λ s. s;
  to_lower = λ s. s;
  rune_count = λ s. 3;
  to_json = λ tags. "[]";
}

cleaned_tags_distinct_example : are_clean tag_lib [] ("art" ∷ "law" ∷ []) ≡ true
unfolding clean_tags clean_from
cleaned_tags_distinct_example =
    cleaned_tags_distinct tag_lib ("art" ∷ "law" ∷ "art" ∷ []) ("art" ∷ "law" ∷ []) refl

abbrev weekly : Source
weekly = record {
  id = "n1";
  source_key = "list:a";
  title = "Weekly";
  status = active;
  accept_after = none;
  is_primary = false;
  tags = "[]";
  unsubscribe_url = none;
  deleted_at = none;
  updated_at = "t0";
}

abbrev issue : String → Message
issue id = record { id = id; source_id = "n1"; remote_images_allowed = false; updated_at = "t0" }

abbrev mailbox : Mailbox
mailbox = record {
  sources = weekly ∷ [];
  messages = issue "m1" ∷ issue "m2" ∷ [];
  saves = record { id = "s1"; message_id = "m1"; created_at = "t0"; tags = "[]" } ∷ [];
}

abbrev at : Request → Timed
at r = record { now = "t1"; commits = true; request = r }

abbrev requests : List Timed
requests = at (stop_source "n1") ∷ at (delete_source "n1") ∷ []

saved_message_stays_example : is_held "s1" "m1" (handle_all tag_lib requests mailbox) ≡ true
saved_message_stays_example = saved_message_stays tag_lib "s1" "m1" requests mailbox refl refl

stopped_source_keeps_saved_example : in_order (handle_all tag_lib requests mailbox) ≡ true
unfolding in_order ids_distinct saves_distinct only_saved_stopped
stopped_source_keeps_saved_example = stopped_source_keeps_saved tag_lib requests mailbox refl
