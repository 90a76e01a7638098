-- ===== src/Websource/FeedUrl/RoundTrip.antt =====
-- Generated feeds' addresses name their source: IDFromFeedURL of app/internal/websource/service.go.
use morgenblau.Common.{
  ◌≡◌, refl, ap, sym, ◌∙◌, Option, none, some, Bool, true, false, [], ◌∷◌, String, ◌==◌, arith,
}
use Prim.Native.String.{◌++◌}
use Prim.Native.String.append as Append
use morgenblau.Websource.{Url}
use morgenblau.Websource.FeedUrl.{
  cut_prefix, has_slash, feed_path, legacy_feed_path, checked_id, feed_id, feed_paths, feed_url,
  legacy_feed_url, id_of_parsed, same_origin, id_from_feed_url, same_feed_urls, both_urls,
}

cut_prefix-append : (p s : String) → cut_prefix (p ++ s) p ≡ some s
unfolding cut_prefix
cut_prefix-append String.[] s = ap some (Append.nil s)
cut_prefix-append (String.◌∷◌ c p) s =
    rw (Append.cons c p s) (ground (arith, cut_prefix-append p s))

checked_id-some :
    (id : String) → (id == "") ≡ false → has_slash id ≡ false → checked_id (some id) ≡ some id
unfolding checked_id
checked_id-some id named flat = rw (named, flat) refl

feed_id-feed :
    (id : String)
    → (id == "") ≡ false
    → has_slash id ≡ false
    → feed_id feed_paths (feed_path ++ id) ≡ some id
unfolding feed_id
feed_id-feed id named flat =
    rw (feed_id, cut_prefix-append feed_path id, checked_id-some id named flat) refl

legacy_is_no_feed : (id : String) → cut_prefix (legacy_feed_path ++ id) feed_path ≡ none
unfolding cut_prefix
legacy_is_no_feed id = rw (Append.cons "/" "web/" id, Append.cons "w" "eb/" id) refl

feed_id-legacy :
    (id : String)
    → (id == "") ≡ false
    → has_slash id ≡ false
    → feed_id feed_paths (legacy_feed_path ++ id) ≡ some id
unfolding feed_id checked_id
feed_id-legacy id named flat =
    rw
      (
        feed_id,
        legacy_is_no_feed id,
        cut_prefix-append legacy_feed_path id,
        checked_id-some id named flat,
      )
      refl

module _ (parse : String → Option Url) (equal_fold : String → String → Bool) (base : String) where
  parsed_under_base :
      (b : Url) (raw path id : String)
      → (b.host == "") ≡ false
      → ((s : String) → equal_fold s s ≡ true)
      → parse base ≡ some b
      → parse raw ≡ some (record b { path = path })
      → feed_id feed_paths path ≡ some id
      → id_from_feed_url parse equal_fold base raw ≡ some id
  unfolding id_from_feed_url id_of_parsed same_origin
  parsed_under_base b raw path id hosted fold origin parsed e =
      rw (origin, parsed, hosted, fold b.scheme, fold b.host) e

-- Where the public base URL is an origin, so that url.Parse splits a feed's two addresses into that
-- origin and their paths, and strings.EqualFold is reflexive, both addresses of a source name its id,
-- and from either one SameFeedURLs gives the two, provided the id is not empty and has no slash.
pub feed_url_round_trip :
    (parse : String → Option Url) (equal_fold : String → String → Bool) (base id : String) (b : Url)
    → (id == "") ≡ false
    → has_slash id ≡ false
    → (b.host == "") ≡ false
    → ((s : String) → equal_fold s s ≡ true)
    → parse base ≡ some b
    → parse (feed_url base id) ≡ some (record b { path = feed_path ++ id })
    → parse (legacy_feed_url base id) ≡ some (record b { path = legacy_feed_path ++ id })
    → (id_from_feed_url parse equal_fold base (feed_url base id) ≡ some id)
      × (id_from_feed_url parse equal_fold base (legacy_feed_url base id) ≡ some id)
      × (same_feed_urls parse equal_fold base (feed_url base id)
          ≡ same_feed_urls parse equal_fold base (legacy_feed_url base id))
      × (same_feed_urls parse equal_fold base (legacy_feed_url base id)
          ≡ feed_url base id ∷ legacy_feed_url base id ∷ [])
unfolding same_feed_urls
feed_url_round_trip parse equal_fold base id b named flat hosted fold origin current legacy =
    let under = parsed_under_base parse equal_fold base b in
    let new =
      under (feed_url base id) (feed_path ++ id) id hosted fold origin current
        (feed_id-feed id named flat) in
    let old =
      under (legacy_feed_url base id) (legacy_feed_path ++ id) id hosted fold origin legacy
        (feed_id-legacy id named flat) in
    let urls = both_urls parse equal_fold base in
    (new, old, ap urls new ∙ sym (ap urls old), ap urls old)
