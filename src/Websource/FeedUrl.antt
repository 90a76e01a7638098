-- ===== src/Websource/FeedUrl.antt =====
-- The addresses of generated feeds: FeedURL, IDFromFeedURL and SameFeedURLs of
-- app/internal/websource/service.go, feedID of app/internal/websource/feed.go. url.Parse and
-- strings.EqualFold are parameters.
use morgenblau.Common.{
  ℕ, Option, none, some, Bool, true, false, ◌&&◌, ◌||◌, not, List, [], ◌∷◌, String, ◌==◌, eqb,
  if◌then◌else◌,
}
use Prim.Native.Char.{code}
use Prim.Native.String.{◌++◌}
use morgenblau.Websource.{Url}
pub mod RoundTrip

-- strings.CutPrefix, whose second result is whether there is a first.
unfoldable pub cut_prefix : String → String → Option String
cut_prefix s String.[] = some s
cut_prefix String.[] (String.◌∷◌ p ps) = none
cut_prefix (String.◌∷◌ c s) (String.◌∷◌ p ps) =
    let rest = cut_prefix s ps in if eqb (code c) (code p) then rest else none

-- strings.Contains(s, "/")
unfoldable pub has_slash : String → Bool
has_slash String.[] = false
has_slash (String.◌∷◌ c s) = eqb (code c) 47 || has_slash s

abbrev pub feed_path : String
feed_path = "/feed/"

abbrev pub legacy_feed_path : String
legacy_feed_path = "/web/"

checked_id : Option String → Option String
checked_id none = none
checked_id (some id) = if not (id == "") && not (has_slash id) then some id else none

-- The loop over the prefixes.
unfoldable pub feed_id : List String → String → Option String
unfolding checked_id cut_prefix has_slash
feed_id [] path = none
feed_id (prefix ∷ prefixes) path =
    let rest = feed_id prefixes path in
    elim (checked_id (cut_prefix path prefix)) [ some id ↦ some id | none ↦ rest ]

abbrev pub feed_paths : List String
feed_paths = feed_path ∷ legacy_feed_path ∷ []

abbrev pub feed_url : String → String → String
feed_url base id = base ++ (feed_path ++ id)

abbrev pub legacy_feed_url : String → String → String
legacy_feed_url base id = base ++ (legacy_feed_path ++ id)

module _ (parse : String → Option Url) (equal_fold : String → String → Bool) (base : String) where
  same_origin : Url → Url → Bool
  same_origin u b = not (b.host == "") && equal_fold u.scheme b.scheme && equal_fold u.host b.host

  id_of_parsed : Option Url → Option Url → Option String
  id_of_parsed none b = none
  id_of_parsed (some u) none = none
  id_of_parsed (some u) (some b) = if same_origin u b then feed_id feed_paths u.path else none

  -- The second result, ok, is whether there is an id.
  unfoldable pub id_from_feed_url : String → Option String
  unfolding same_origin id_of_parsed feed_id
  id_from_feed_url raw = id_of_parsed (parse raw) (parse base)

  abbrev pub both_urls : Option String → List String
  both_urls none = []
  both_urls (some id) = feed_url base id ∷ legacy_feed_url base id ∷ []

  unfoldable pub same_feed_urls : String → List String
  unfolding id_from_feed_url
  same_feed_urls raw = both_urls (id_from_feed_url raw)
