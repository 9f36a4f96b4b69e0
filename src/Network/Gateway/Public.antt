-- ===== src/Network/Gateway/Public.antt =====
-- What a request can make the egress gateway dial.
use openlinker_plugin.Base.{
  ℕ, ◌≤◌, ◌≡◌, ◌≢◌, inl, inr, refl, Bool, true, false, String, ◌||◌, codes, same_codes, not, Option,
  none, some, List, [], ◌∷◌, arith, length, pos, Option-cases, if◌then◌else◌,
}
use openlinker_plugin.Network.Addresses.{Ip}
use openlinker_plugin.Network.Gateway.{
  Target, Method, Request, RequestUrl, Response, Hijack, panicked, atoi, validate_port,
  resolve_public, open_tunnel, serve_connect, serve_plain, serve_http, max_tunnel_dial_addresses,
  hand_over, tunnel, connect_resolved, connect_checked, answer_trip, forward_resolved,
  forward_checked, serve_method, is_health, no_codes, port_or_80,
}
use openlinker_plugin.Network.Gateway.Dials.{
  Unblocked, destination_port, Aims, valid_port, resolve-Chosen, open_tunnel-Aims,
}

abbrev pub is_connect : Method → Bool
is_connect Method.connect = true
is_connect _ = false

abbrev url_host : Option RequestUrl → Option (List ℕ)
url_host none = none
url_host (some url) = some url.hostname

abbrev authority_host : Option (List ℕ × List ℕ) → Option (List ℕ)
authority_host none = none
authority_host (some (host, port)) = some host

-- The host that the request names.
abbrev pub asked_host : Request → Option (List ℕ)
asked_host request =
    if is_connect request.method then authority_host request.authority else url_host request.url

-- What may be dialled for a request: nothing, or some of the addresses of one resolution.
pub data Guarded (lower_rune : ℕ → ℕ) (parse_ip : List ℕ → Option Ip)
    (lookup_ip : List ℕ → Option (List Ip)) (asked : Option (List ℕ)) (secure : Bool)
    (targets : List Target) : Type 0 where
  idle : targets ≡ [] → Guarded lower_rune parse_ip lookup_ip asked secure targets
  pinned :
      (host port : List ℕ) (addresses : List Ip)
      → asked ≡ some host
      → resolve_public lower_rune parse_ip lookup_ip host ≡ some addresses
      → Unblocked addresses
      → atoi port ≡ some (pos (destination_port secure))
      → Aims port addresses targets
      → length targets ≤ max_tunnel_dial_addresses
      → Guarded lower_rune parse_ip lookup_ip asked secure targets

module _ {C : Type 0} (lower_rune : ℕ → ℕ) (parse_ip : List ℕ → Option Ip)
    (lookup_ip : List ℕ → Option (List Ip)) (dial : ℕ → Target → Option C)
    (round_trip : Target → Option C) (hijack : Hijack) where
  abbrev Safe : Option (List ℕ) → Bool → List Target × Response C → Type 0
  Safe asked secure (targets, answer) =
      Guarded lower_rune parse_ip lookup_ip asked secure targets × (answer ≢ panicked)

  hand_over-Safe :
      (asked : Option (List ℕ)) (h : Hijack) (targets : List Target) (c : C)
      → Guarded lower_rune parse_ip lookup_ip asked true targets
      → Safe asked true (hand_over lower_rune parse_ip lookup_ip dial round_trip hijack h targets c)
  unfolding hand_over
  hand_over-Safe asked Hijack.unsupported targets c g = (g, λ e. cc)
  hand_over-Safe asked Hijack.refused targets c g = (g, λ e. cc)
  hand_over-Safe asked Hijack.taken targets c g = (g, λ e. cc)

  tunnel-Safe :
      (asked : Option (List ℕ)) (opened : List Target × Option C)
      → Guarded lower_rune parse_ip lookup_ip asked true opened.0
      → Safe asked true (tunnel lower_rune parse_ip lookup_ip dial round_trip hijack opened)
  unfolding tunnel
  tunnel-Safe asked (targets, none) g = (g, λ e. cc)
  tunnel-Safe asked (targets, some c) g = hand_over-Safe asked hijack targets c g

  connect_resolved-Safe :
      (host port : List ℕ)
      → atoi port ≡ some (pos 443)
      → (o : Option (List Ip)) → resolve_public lower_rune parse_ip lookup_ip host ≡ o
      → Safe
          (some host)
          true
          (connect_resolved lower_rune parse_ip lookup_ip dial round_trip hijack port o)
  unfolding connect_resolved
  connect_resolved-Safe host port p none h = (idle refl, λ e. cc)
  connect_resolved-Safe host port p (some addresses) h =
      let (aims, few) = open_tunnel-Aims dial addresses port in
      tunnel-Safe (some host) (open_tunnel dial addresses port) (
        pinned host port addresses refl h
          (resolve-Chosen lower_rune parse_ip lookup_ip host addresses h).0 p aims few)

  connect-Safe :
      (authority : Option (List ℕ × List ℕ))
      → Safe
          (authority_host authority)
          true
          (serve_connect lower_rune parse_ip lookup_ip dial round_trip hijack authority)
  unfolding serve_connect connect_checked
  connect-Safe none = (idle refl, λ e. cc)
  connect-Safe (some (host, port)) = elim (Option-cases (validate_port port true)) [
    | inl p ↦ rw p (
        connect_resolved-Safe host port (valid_port port true p)
          (resolve_public lower_rune parse_ip lookup_ip host) refl)
    | inr (m, p) ↦ rw p (idle refl, λ e. cc)
  ]

  first_only :
      (host port : List ℕ) (a : Ip) (rest : List Ip)
      → atoi port ≡ some (pos 80)
      → resolve_public lower_rune parse_ip lookup_ip host ≡ some (a ∷ rest)
      → Guarded lower_rune parse_ip lookup_ip
          (some host)
          false
          (record { address = a; port = port } ∷ [])
  first_only host port a rest p h =
      pinned host port (a ∷ rest) refl h
        (resolve-Chosen lower_rune parse_ip lookup_ip host (a ∷ rest) h).0 p
        ((rest, refl), (refl, tt)) (omega arith)

  trip-Safe :
      (host port : List ℕ) (a : Ip) (rest : List Ip)
      → atoi port ≡ some (pos 80)
      → resolve_public lower_rune parse_ip lookup_ip host ≡ some (a ∷ rest)
      → (o : Option C)
      → Safe (some host) false (
          answer_trip lower_rune parse_ip lookup_ip dial round_trip hijack
            (record { address = a; port = port })
            o)
  unfolding answer_trip
  trip-Safe host port a rest p h none = (first_only host port a rest p h, λ e. cc)
  trip-Safe host port a rest p h (some c) = (first_only host port a rest p h, λ e. cc)

  forward_resolved-Safe :
      (host port : List ℕ)
      → atoi port ≡ some (pos 80)
      → (o : Option (List Ip)) → resolve_public lower_rune parse_ip lookup_ip host ≡ o
      → Safe
          (some host)
          false
          (forward_resolved lower_rune parse_ip lookup_ip dial round_trip hijack port o)
  unfolding forward_resolved
  forward_resolved-Safe host port p none h = (idle refl, λ e. cc)
  forward_resolved-Safe host port p (some []) h =
      absurd ((resolve-Chosen lower_rune parse_ip lookup_ip host [] h).1 refl)
  forward_resolved-Safe host port p (some (a ∷ rest)) h =
      trip-Safe host port a rest p h (round_trip (record { address = a; port = port }))

  if-Safe :
      (asked : Option (List ℕ)) (secure b : Bool) (x y : List Target × Response C)
      → Safe asked secure x
      → Safe asked secure y
      → Safe asked secure (if b then x else y)
  if-Safe asked secure true x y h k = h
  if-Safe asked secure false x y h k = k

  forward_checked-Safe :
      (host port : List ℕ) (o : Option String)
      → validate_port port false ≡ o
      → Safe
          (some host)
          false
          (forward_checked lower_rune parse_ip lookup_ip dial round_trip hijack host port o)
  unfolding forward_checked
  forward_checked-Safe host port (some m) p = (idle refl, λ e. cc)
  forward_checked-Safe host port none p =
      forward_resolved-Safe host port (valid_port port false p)
        (resolve_public lower_rune parse_ip lookup_ip host) refl

  plain-Safe :
      (url : Option RequestUrl)
      → Safe
          (url_host url)
          false
          (serve_plain lower_rune parse_ip lookup_ip dial round_trip hijack url)
  unfolding serve_plain
  plain-Safe none = (idle refl, λ e. cc)
  plain-Safe (some url) =
      if-Safe (some url.hostname) false (no_codes url.scheme || no_codes url.host || url.has_user) _
        _ (idle refl, λ e. cc)
        (if-Safe (some url.hostname) false (not (same_codes url.scheme (codes "http"))) _ _
          (idle refl, λ e. cc)
          (forward_checked-Safe url.hostname (port_or_80 url.port)
            (validate_port (port_or_80 url.port) false) refl))

  method-Safe :
      (method : Method) (request : Request)
      → request.method ≡ method
      → Safe
          (asked_host request)
          (is_connect method)
          (serve_method lower_rune parse_ip lookup_ip dial round_trip hijack method request)
  unfolding serve_method
  method-Safe Method.connect request m = rw m (connect-Safe request.authority)
  method-Safe Method.get request m = rw m (plain-Safe request.url)
  method-Safe Method.other request m = rw m (plain-Safe request.url)

  -- Whatever the resolver, the dialer and the transport answer, one request makes the gateway dial
  -- nothing, or at most 8 addresses that are, in order, the first of the addresses that the host the
  -- request names resolved to in one resolution; none of the addresses of that resolution is a
  -- blocked one, the port is 443 for a CONNECT and 80 for any other request, and no index is out of
  -- range.
  pub serve_http-Guarded :
      (request : Request)
      → Guarded lower_rune parse_ip lookup_ip
          (asked_host request)
          (is_connect request.method)
          (serve_http lower_rune parse_ip lookup_ip dial round_trip hijack request).0
        × ((serve_http lower_rune parse_ip lookup_ip dial round_trip hijack request).1 ≢ panicked)
  unfolding serve_http
  serve_http-Guarded request =
      if-Safe (asked_host request) (is_connect request.method)
        (is_health lower_rune parse_ip lookup_ip dial round_trip hijack request.method request.url)
        _ _ (idle refl, λ e. cc) (method-Safe request.method request refl)
