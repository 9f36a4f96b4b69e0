-- ===== src/Tests/NetworkTests.antt =====
-- The theorems on the egress gateway and the destinations at concrete addresses and hosts.
use openlinker_plugin.Base.{
  ℕ, ◌≡◌, ◌≢◌, ◌↔◌, ◌≤◌, ◌<◌, ◌+◌, ◌*◌, refl, true, Option, none, some, List, [], ◌∷◌, arith, codes,
  pos, length, has_code, same_codes, split_dots,
}
use openlinker_plugin.Network.Addresses.{Ip, four, is_blocked_ip, is_blocked_address, any_contains}
use openlinker_plugin.Network.Addresses.Ranges.{IsReserved, is_blocked_ip-Reserved, at}
use openlinker_plugin.Network.Hosts.{
  is_valid_public_hostname, ends_with, looks_like_ip_literal, trim_codes, trim_dot,
}
use openlinker_plugin.Network.Gateway.{
  Request, Method, Target, Hijack, is_ip, serve_http, panicked, tunnelled, atoi, open_tunnel,
  resolve_public, validate_port,
}
use openlinker_plugin.Network.Gateway.Public.{Guarded, serve_http-Guarded}
use openlinker_plugin.Network.Resolver.{Answer, QueryType, cached, max_doh_cache_entries, second}
use openlinker_plugin.Network.Resolver.Cache.{
  after_exchanges, after_exchanges-Fresh, Exchanged, resolved_at,
}
use openlinker_plugin.Network.Destination.{check_destination_host, check_destination_host-gateway}

abbrev same_rune : ℕ → ℕ
same_rune c = c

abbrev no_ip : List ℕ → Option Ip
no_ip host = none

abbrev one_address : List ℕ → Option (List Ip)
one_address host = some (four (at 93 184 216 34) ∷ [])

abbrev dial : ℕ → Target → Option ℕ
dial index target = some index

abbrev round_trip : Target → Option ℕ
round_trip target = some 0

abbrev tunnel_request : Request
tunnel_request = record {
  method = Method.connect;
  url = none;
  authority = some (codes "example.com", codes "443");
}

private_blocked : is_blocked_ip (four (at 10 1 2 3)) ≡ true
unfolding is_blocked_ip is_blocked_address any_contains
private_blocked = refl

tunnel_opened :
    serve_http same_rune no_ip one_address dial round_trip Hijack.taken tunnel_request
    ≡ (record { address = four (at 93 184 216 34); port = codes "443" } ∷ [], tunnelled 0)
unfolding serve_http validate_port atoi resolve_public is_valid_public_hostname trim_codes trim_dot
    has_code looks_like_ip_literal split_dots ends_with same_codes is_blocked_ip open_tunnel
tunnel_opened = refl

serve_http-Guarded_example :
    Guarded same_rune no_ip one_address
      (some (codes "example.com"))
      true
      (serve_http same_rune no_ip one_address dial round_trip Hijack.taken tunnel_request).0
    × ((serve_http same_rune no_ip one_address dial round_trip Hijack.taken tunnel_request).1
        ≢ panicked)
serve_http-Guarded_example =
    serve_http-Guarded same_rune no_ip one_address dial round_trip Hijack.taken tunnel_request

is_blocked_ip-Reserved_example :
    (is_blocked_ip (four (at 100 64 0 1)) ≡ true) ↔ IsReserved (four (at 100 64 0 1))
is_blocked_ip-Reserved_example = is_blocked_ip-Reserved (four (at 100 64 0 1)) (omega arith)

abbrev an_ip : List ℕ → Option Ip
an_ip host = some (four (at 93 184 216 34))

abbrev exchange : ℕ → List ℕ → QueryType → Option (List Answer)
exchange now host QueryType.a =
    some (record { type = pos 1; ttl = pos 60; data_text = codes "93.184.216.34" } ∷ [])
exchange now host QueryType.aaaa = none

abbrev exchanges : List (ℕ × List ℕ)
exchanges = (20 * second, codes "example.com") ∷ (10 * second, codes "example.org") ∷ []

after_exchanges-Fresh_example :
    (length (after_exchanges same_rune an_ip exchange exchanges) ≤ max_doh_cache_entries)
    × ((key : List ℕ) (t : ℕ) (addresses : List Ip)
        → cached key t (after_exchanges same_rune an_ip exchange exchanges) ≡ some addresses
        → (time : ℕ) × (Exchanged same_rune an_ip exchange key time exchanges
            × ((addresses ≡ (resolved_at same_rune an_ip exchange time key).0)
                × (t < time + 300 * second))))
after_exchanges-Fresh_example = after_exchanges-Fresh same_rune an_ip exchange exchanges

check_destination_host-gateway_example :
    (check_destination_host same_rune no_ip (codes "example.com") ≡ none) ↔ (
      (is_valid_public_hostname same_rune (is_ip no_ip) (codes "example.com") ≡ true)
      × (no_ip (codes "example.com") ≡ none))
check_destination_host-gateway_example =
    check_destination_host-gateway same_rune no_ip (codes "example.com") refl
