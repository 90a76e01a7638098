-- ===== src/Websource.antt =====
-- app/internal/websource: generated feeds for sites without one, from types.go and service.go. Times
-- are kept as the text that formatTime gives them, float64 amounts as their bits. net/url, package
-- strings, the clock's text format, JSON and webfeed.URLTemplate are parameters.
pub mod Items
pub mod Excerpt
pub mod Store
pub mod Poll
pub mod Keys
pub mod FeedUrl
pub mod Setup
pub mod Anchor
use morgenblau.Common.{
  ℕ, suc, Option, none, some, Bool, true, false, ◌&&◌, ◌||◌, not, List, String, ◌==◌, ltb,
  if◌then◌else◌, ℤ,
}

pub data Health : Type 0 where
  healthy needs_attention blocked_by_site broken : Health

pub data Verdict : Type 0 where
  ok_verdict suspect broken_verdict : Verdict

pub data RepairCause : Type 0 where
  detector weekly_check : RepairCause

pub data RepairOutcome : Type 0 where
  accepted false_alarm unresolved : RepairOutcome

-- `date` 0 is the zero time.
pub record Item : Type 0 where
  pub url : String
  pub title : String
  pub date : ℕ
  pub excerpt : String

pub record Fingerprint : Type 0 where
  pub url_template : String
  pub date_frac : ℕ
  pub title_shape : ℕ

pub record RepairReport : Type 0 where
  pub cause : RepairCause
  pub outcome : RepairOutcome
  pub step : String
  pub rule : String
  pub reason : String
  pub used_model : Bool
  pub usd : ℕ

-- An empty recipe is "".
pub record PollOutcome : Type 0 where
  pub verdict : Verdict
  pub reason : String
  pub blocked : Bool
  pub not_modified : Bool
  pub items : List Item
  pub recipe : String
  pub etag : String
  pub last_modified : String
  pub link_set_hash : String
  pub fingerprint : Fingerprint
  pub repair : Option RepairReport
  pub checked : Bool
  pub check_usd : ℕ

-- A row of web_sources.
pub record WebSource : Type 0 where
  pub id : String
  pub listing_key : String
  pub listing_url : String
  pub site_url : String
  pub title : String
  pub recipe : String
  pub health : Health
  pub health_reason : String
  pub setup_cost : String
  pub created_by : String
  pub created_at : String
  pub updated_at : String
  pub setup_at : String
  pub setup_health : Health
  pub setup_health_reason : String
  pub setup_seq : ℕ
  pub setup_tried_at : String
  pub next_poll_at : Option String
  pub last_polled_at : Option String
  pub etag : Option String
  pub last_modified : Option String
  pub link_set_hash : Option String
  pub consecutive_failures : ℕ
  pub last_checked_at : Option String
  pub anchored_by : Option String
  pub anchored_at : Option String
  pub offered_at : String
  pub served_at : Option String

pub record Url : Type 0 where
  pub scheme : String
  pub host : String
  pub path : String
  pub raw_query : String
  pub has_user : Bool

-- `key_from` is postkey.FromURL, `title_key` postkey.Title, `no_spend` the test `usd <= 0`.
pub record Library : Type 0 where
  pub parse_url : String → Option Url
  pub key_from : Url → String
  pub title_key : String → String
  pub trim_space : String → String
  pub join_fields : String → String
  pub url_template : String → String
  pub format_time : ℕ → String
  pub parse_time : String → Option ℕ
  pub to_json : List String → String
  pub no_spend : ℕ → Bool

unfoldable pub rank : Health → ℕ
rank healthy = 3
rank needs_attention = 2
rank blocked_by_site = 1
rank broken = 0

abbrev pub is_healthy : Health → Bool
is_healthy healthy = true
is_healthy _ = false

-- Whether a setup's verdict should replace that of the source.
unfoldable pub improves : Health → WebSource → Bool
unfolding rank
improves next row =
    is_healthy next
    || (ltb (rank row.setup_health) (rank next) && ltb (rank row.health) (rank next))

-- Whether a repair left a list that the weekly check doubts for another.
unfoldable pub answers_alarm : Option RepairReport → Bool
answers_alarm none = false
answers_alarm (some r) = is_weekly r.cause && is_accepted r.outcome
  where
    is_weekly : RepairCause → Bool
    is_weekly weekly_check = true
    is_weekly detector = false

    is_accepted : RepairOutcome → Bool
    is_accepted accepted = true
    is_accepted _ = false

abbrev pub or_keep : String → Option String → Option String
or_keep v old = if v == "" then old else some v

-- postkey.URL
unfoldable pub url_key : Library → String → String
url_key lib raw = elim (lib.parse_url raw) [ none ↦ raw | some u ↦ lib.key_from u ]
