-- ===== src/RateLimit/ClientAddress.antt =====
-- The client key of app/internal/middleware/ratelimit/ratelimit.go: ClientIP and its helpers.
use morgenblau.Common.{
  ◌≡◌, ap, sym, ◌∙◌, Option, none, some, Bool, true, false, List, [], ◌∷◌, String, ◌==◌,
  if◌then◌else◌,
}

-- net/netip and net.SplitHostPort, and the table of Cloudflare's prefixes under `Contains`.
pub record AddressLibrary : Type 1 where
  pub Addr : Type 0
  pub parse_addr : String → Option Addr
  pub zone : Addr → String
  pub unmap : Addr → Addr
  pub to_string : Addr → String
  pub invalid_text : String
  pub split_host : String → Option String
  pub in_cloudflare : Addr → Bool

-- The parts of *http.Request that are read: the values of the two headers, and the peer.
pub record Request : Type 0 where
  pub fly_client_ip : List String
  pub cf_connecting_ip : List String
  pub remote_addr : String

module _ (lib : AddressLibrary) where
  open lib use {Addr, parse_addr, zone, unmap, to_string, invalid_text, split_host, in_cloudflare}

  -- `none` is the invalid address.
  unfoldable pub parse_ip : String → Option Addr
  parse_ip value = elim (parse_addr value) [
    | none ↦ none
    | some ip ↦ if zone ip == "" then some (unmap ip) else none
  ]

  unfoldable pub header_ip : List String → Option Addr
  unfolding parse_ip
  header_ip (value ∷ []) = parse_ip value
  header_ip _ = none

  abbrev text : Option Addr → String
  text none = invalid_text
  text (some ip) = to_string ip

  peer_host : String → Option String → String
  peer_host remote none = remote
  peer_host remote (some host) = host

  pub peer_ip : Request → String
  unfolding parse_ip peer_host
  peer_ip r = text (parse_ip (peer_host r.remote_addr (split_host r.remote_addr)))

  -- A request that came through Fly's proxy from `ip`.
  through_fly : Request → Addr → String
  unfolding header_ip
  through_fly r ip =
      if in_cloudflare ip
      then (elim (header_ip r.cf_connecting_ip) [
        | none ↦ to_string ip
        | some client ↦ to_string client
      ])
      else to_string ip

  unfoldable pub client_ip : Bool → Request → String
  unfolding through_fly header_ip peer_ip
  client_ip false r = peer_ip r
  client_ip true r = elim (header_ip r.fly_client_ip) [
    | none ↦ peer_ip r
    | some ip ↦ through_fly r ip
  ]

  client_ip_outside :
      (r : Request) (ip : Addr)
      → header_ip r.fly_client_ip ≡ some ip
      → in_cloudflare ip ≡ false
      → client_ip true r ≡ to_string ip
  unfolding client_ip
  client_ip_outside r ip valid outside = rw (client_ip, valid, outside)

  -- A client chooses neither key: behind Fly, requests with one valid Fly-Client-IP outside
  -- Cloudflare's prefixes share a key whatever their CF-Connecting-IP and peer, and away from Fly
  -- requests from one peer share a key whatever the two headers.
  pub forwarded_headers_untrusted :
      (r s t : Request) (ip : Addr)
      → header_ip r.fly_client_ip ≡ some ip
      → in_cloudflare ip ≡ false
      → s.fly_client_ip ≡ r.fly_client_ip
      → t.remote_addr ≡ r.remote_addr
      → (client_ip true s ≡ client_ip true r) × (client_ip false t ≡ client_ip false r)
  unfolding client_ip peer_ip
  forwarded_headers_untrusted r s t ip valid outside same_fly same_peer = (
    client_ip_outside s ip (ap header_ip same_fly ∙ valid) outside
        ∙ sym (client_ip_outside r ip valid outside),
    ap (λ p. text (parse_ip (peer_host p (split_host p)))) same_peer,
  )
