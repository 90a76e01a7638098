-- ===== src/Sync/FeedPipeline.antt =====
-- app/internal/sync/feedpipeline.go: the choices that FetchAndStore makes for an item and a feed.
-- Go's strings, html, net/url, time and encoding/json and the sanitizer are the fields of
-- `Library`; times are read and written as RFC 3339.
pub mod Store
pub mod Fetch
pub mod Rest
pub mod Dates
use morgenblau.Common.{
  ℕ, suc, ◌+◌, ◌*◌, ◌≤◌, min, max, Option, none, some, Bool, true, false, ◌&&◌, ◌||◌, not, List, [],
  ◌∷◌, ◌++◌, String, ◌==◌, ltb, leb, eqb, if◌then◌else◌, any, ℤ, pos, negsuc, minute, hour,
}
use morgenblau.Backoff.{Policy, delay, cap}
use morgenblau.Sync.Catalog.{Feed}
use morgenblau.Sync.Table.{nil_if_empty}

pub record Url : Type 0 where
  pub scheme : String
  pub host : String

pub record Enclosure : Type 0 where
  pub url : String
  pub type : String

-- A gofeed.Item. An author that is nil is `none`, and so is an image.
pub record Item : Type 0 where
  pub guid : String
  pub link : String
  pub title : String
  pub content : String
  pub description : String
  pub published : String
  pub published_parsed : Option ℕ
  pub updated : String
  pub updated_parsed : Option ℕ
  pub enclosures : List Enclosure
  pub authors : List (Option String)
  pub image : Option String

pub record Metadata : Type 0 where
  pub author : Option String
  pub image : Option String
  pub enclosure : Option Enclosure

pub record Library : Type 0 where
  pub trim_space : String → String
  pub to_lower : String → String
  pub unescape_html : String → String
  pub sanitize : String → String
  pub has_part : String → String → Bool
  pub has_prefix : String → String → Bool
  pub cut_at_t : String → Option (String × String)
  pub parse_url : String → Option Url
  pub parse_time : String → Option ℕ
  pub parse_extra : String → Option ℕ
  pub format_time : ℕ → String
  pub join : String → String → String → String
  pub marshal : Metadata → Option String

abbrev pub icon_refresh_after : ℕ
icon_refresh_after = 720 * hour

abbrev pub feed_backoff : Policy
feed_backoff = record { steps = 5 * minute ∷ 15 * minute ∷ hour ∷ 6 * hour ∷ 24 * hour ∷ [] }

abbrev pub or_unparsed : Option ℕ → Option ℕ → Option ℕ
or_unparsed none b = b
or_unparsed (some t) b = some t

module _ (lib : Library) where
  unfoldable pub choose_guid : Item → String
  choose_guid item =
      let guid = lib.trim_space item.guid in if guid == "" then lib.trim_space item.link else guid

  padded_date : Option (String × String) → Option ℕ
  padded_date none = none
  padded_date (some (date, clock)) = lib.parse_time (lib.join (lib.trim_space date) "T" clock)

  unfoldable pub parse_raw_date : String → Option ℕ
  unfolding padded_date
  parse_raw_date s =
      let trimmed = lib.trim_space s in
      if trimmed == ""
      then none
      else or_unparsed (padded_date (lib.cut_at_t trimmed)) (lib.parse_extra trimmed)

  abbrev pub or_zero : Option ℕ → ℕ → ℕ
  or_zero none fallback = fallback
  or_zero (some t) fallback = t

  unfoldable pub choose_time : Item → ℕ → ℕ
  unfolding parse_raw_date
  choose_time item fallback =
      or_zero
        (or_unparsed (parse_raw_date item.published) (
          or_unparsed item.published_parsed
            (or_unparsed item.updated_parsed (parse_raw_date item.updated))))
        fallback

  unfoldable pub choose_body : Item → String
  choose_body item =
      let content = lib.trim_space item.content in
      if content == "" then lib.trim_space item.description else content

  is_youtube : Option Url → Bool
  is_youtube none = false
  is_youtube (some u) =
      let host = lib.to_lower u.host in
      lib.has_part host "youtube.com" || lib.has_part host "youtu.be"

  unfoldable pub classify_content_type : String → Item → String
  unfolding is_youtube
  classify_content_type feed_url item =
      if is_youtube (lib.parse_url feed_url)
      then "video"
      else (if any (λ enc. lib.has_prefix (lib.to_lower enc.type) "video/") item.enclosures
          then "video"
          else (if lib.trim_space item.title == "" then "microblog" else "blogpost"))

abbrev pub first_author : List (Option String) → Option String
first_author [] = none
first_author (none ∷ rest) = none
first_author (some name ∷ rest) = nil_if_empty name

abbrev pub image_url : Option String → Option String
image_url none = none
image_url (some url) = nil_if_empty url

abbrev pub first_enclosure : List Enclosure → Option Enclosure
first_enclosure [] = none
first_enclosure (enc ∷ rest) = some enc

abbrev pub build_metadata : Item → Metadata
build_metadata item = record {
  author = first_author item.authors;
  image = image_url item.image;
  enclosure = first_enclosure item.enclosures;
}

abbrev pub is_empty_meta : Option String → Option String → Option Enclosure → Bool
is_empty_meta none none none = true
is_empty_meta _ _ _ = false

-- `none` is also what a failed json.Marshal leaves.
unfoldable pub meta_json : Library → Metadata → Option String
meta_json lib meta =
    if is_empty_meta meta.author meta.image meta.enclosure then none else lib.marshal meta

module _ (lib : Library) where
  abbrev pub before_stamp : ℕ → Option ℕ → Bool
  before_stamp now none = false
  before_stamp now (some next) = ltb now next

  -- A feed's next_fetch_at; a feed that is not stored has none.
  unfoldable pub in_backoff : Option String → ℕ → Bool
  in_backoff none now = false
  in_backoff (some next_fetch_at) now = before_stamp now (lib.parse_time next_fetch_at)

  abbrev pub is_stale : ℕ → Option ℕ → Bool
  is_stale now none = true
  is_stale now (some then_) = ltb (then_ + icon_refresh_after) now

  icon_age : Option String → ℕ → Bool
  icon_age none now = true
  icon_age (some icon_fetched_at) now = is_stale now (lib.parse_time icon_fetched_at)

  -- The icon URL and the stamp of the feed's row.
  unfoldable pub should_discover_icon : Option String → Option String → ℕ → Bool
  unfolding icon_age
  should_discover_icon none icon_fetched_at now = true
  should_discover_icon (some icon) icon_fetched_at now =
      if icon == "" then true else icon_age icon_fetched_at now

-- The delay after a failure with the given count; `retry_after` is that of an HTTPError, or 0.
unfoldable pub failure_delay : ℕ → ℤ → ℕ
failure_delay failures (pos retry_after) =
    max (delay feed_backoff (pos failures)) (min retry_after (cap feed_backoff))
failure_delay failures (negsuc n) = delay feed_backoff (pos failures)
