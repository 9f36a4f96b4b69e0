-- ===== src/Network/Gateway.antt =====
-- The egress gateway, packages/browser-runtime/egressgateway/gateway.go: what one request makes it
-- dial and answer. Outside are `net.ParseIP`, `unicode.ToLower`, the resolver, the dialer (with its
-- optional upstream proxy, which is asked for the same target) and the HTTP transport; each is an
-- argument. `validatePort`'s two messages stand for the error it returns.
pub mod Dials
pub mod Public
use openlinker_plugin.Base.{
  ℕ, zero, suc, ◌+◌, ◌*◌, ◌-◌, String, Bool, true, false, ◌||◌, ◌&&◌, not, Option, none, some, List,
  [], ◌∷◌, ltb, leb, ◌==◌, ◌=s=◌, if◌then◌else◌, length, min, is_digit, codes, ℤ, pos, negsuc,
  pos_part, neg_part, all_codes, eq_int, lt_int, same_codes,
}
use openlinker_plugin.Network.Hosts.{trim_codes, trim_dot, is_valid_public_hostname}
use openlinker_plugin.Network.Addresses.{Ip, is_blocked_ip}

abbrev is_some : Option Ip → Bool
is_some none = false
is_some (some ip) = true

abbrev pub max_tunnel_dial_addresses : ℕ
max_tunnel_dial_addresses = 8

-- The value of decimal digits after those of value `n`.
digits_value : ℕ → List ℕ → Option ℕ
digits_value n [] = some n
digits_value n (c ∷ cs) =
    let rest = digits_value (10 * n + (c - b'0')) cs in if is_digit c then rest else none

digits : List ℕ → Option ℕ
unfolding digits_value
digits [] = none
digits (c ∷ cs) = digits_value 0 (c ∷ cs)

abbrev negated : Option ℕ → Option ℤ
negated none = none
negated (some zero) = some (pos zero)
negated (some (suc n)) = some (negsuc n)

abbrev positive : Option ℕ → Option ℤ
positive none = none
positive (some n) = some (pos n)

-- strconv.Atoi. A number outside `int`, which is an error there, is returned here; `validatePort`
-- refuses both.
unfoldable pub atoi : List ℕ → Option ℤ
unfolding digits
atoi [] = none
atoi (c ∷ cs) =
    if c == b'-'
    then negated (digits cs)
    else if c == b'+'
    then positive (digits cs)
    else positive (digits (c ∷ cs))

-- validatePort, on the number read.
unfoldable pub validate_port_number : Option ℤ → Bool → Option String
validate_port_number none secure = some "invalid destination port"
validate_port_number (some port) secure =
    if not (lt_int (pos 0) port) || lt_int (pos 65535) port
    then some "invalid destination port"
    else if secure && not (eq_int port (pos 443))
    then some "CONNECT is restricted to port 443"
    else if not secure && not (eq_int port (pos 80))
    then some "plain HTTP is restricted to port 80"
    else none

-- validatePort
unfoldable pub validate_port : List ℕ → Bool → Option String
unfolding validate_port_number
validate_port raw secure = validate_port_number (atoi raw) secure

-- A destination: an address and the text of a port (`net.JoinHostPort`).
pub record Target : Type 0 where
  pub address : Ip
  pub port : List ℕ

pub data Method : Type 0 where
  get connect other : Method

-- What the handler reads of an `*http.Request`; `url` is `none` for a nil URL.
pub record RequestUrl : Type 0 where
  pub scheme : List ℕ
  pub host : List ℕ
  pub has_user : Bool
  pub hostname : List ℕ
  pub port : List ℕ
  pub path : List ℕ
  pub raw_query : List ℕ

pub record Request : Type 0 where
  pub method : Method
  pub url : Option RequestUrl
  pub authority : Option (List ℕ × List ℕ)  -- net.SplitHostPort of Host, `none` for an error

pub data Response (C : Type 0) : Type 0 where
  healthy : Response C  -- 204 with the health decision
  bad_request : String → Response C
  blocked : String → Response C  -- 403 with the blocked decision
  unavailable : Response C  -- 502
  untunnelled : Response C  -- 500, the connection is closed
  forwarded : C → Response C
  tunnelled : C → Response C
  dropped : Response C  -- no answer, both connections are left
  panicked : Response C  -- an index out of range

is_get : Method → Bool
is_get Method.get = true
is_get _ = false

abbrev no_codes : List ℕ → Bool
no_codes [] = true
no_codes _ = false

-- isDirectHealthRequest, for a request with a URL.
unfoldable pub is_direct_health_request : Method → RequestUrl → Bool
unfolding is_get
is_direct_health_request method url =
    is_get method
    && no_codes url.scheme
    && no_codes url.host
    && same_codes url.path (codes "/__openlinker_health")
    && no_codes url.raw_query

unfoldable pub any_blocked : List Ip → Bool
any_blocked [] = false
any_blocked (address ∷ rest) = is_blocked_ip address || any_blocked rest

-- The addresses a name resolved to, `none` for an error.
unfoldable pub resolved_public : Option (List Ip) → Option (List Ip)
unfolding any_blocked
resolved_public none = none
resolved_public (some []) = none
resolved_public (some (a ∷ rest)) = if any_blocked (a ∷ rest) then none else some (a ∷ rest)

-- `net.ParseIP(host) != nil`
abbrev pub is_ip : (List ℕ → Option Ip) → List ℕ → Bool
is_ip parse_ip host = is_some (parse_ip host)

module _ (lower_rune : ℕ → ℕ) (parse_ip : List ℕ → Option Ip)
    (lookup_ip : List ℕ → Option (List Ip)) where
  literal_or_name : List ℕ → Option Ip → Option (List Ip)
  unfolding resolved_public
  literal_or_name host (some literal) = if is_blocked_ip literal then none else some (literal ∷ [])
  literal_or_name host none = resolved_public (lookup_ip host)

  resolve_trimmed : List ℕ → Option (List Ip)
  unfolding literal_or_name
  resolve_trimmed host =
      if not (is_valid_public_hostname lower_rune (is_ip parse_ip) host)
      then none
      else literal_or_name host (parse_ip host)

  -- resolvePublic
  unfoldable pub resolve_public : List ℕ → Option (List Ip)
  unfolding resolve_trimmed
  resolve_public host = resolve_trimmed (trim_codes (trim_dot host))

-- The loop of `openTunnel`: the targets dialled, in order, and the connection. `dial` is what the
-- attempt with this index gives.
module _ {C : Type 0} (dial : ℕ → Target → Option C) where
  dialled : Target → Option C → List Target × Option C → List Target × Option C
  dialled target (some connection) later = (target ∷ [], some connection)
  dialled target none (targets, found) = (target ∷ targets, found)

  unfoldable pub dial_each : ℕ → ℕ → List Ip → List ℕ → List Target × Option C
  unfolding dialled
  dial_each zero index addresses port = ([], none)
  dial_each (suc left) index [] port = ([], none)
  dial_each (suc left) index (address ∷ rest) port =
      let target : Target = record { address = address; port = port } in
      dialled target (dial index target) (dial_each left (index + 1) rest port)

  -- openTunnel
  unfoldable pub open_tunnel : List Ip → List ℕ → List Target × Option C
  unfolding dial_each
  open_tunnel addresses port =
      dial_each (min max_tunnel_dial_addresses (length addresses)) 0 addresses port

-- What `http.Hijacker` does with the client's connection.
pub data Hijack : Type 0 where
  unsupported refused taken : Hijack

port_or_80 : List ℕ → List ℕ
port_or_80 [] = codes "80"
port_or_80 (c ∷ cs) = c ∷ cs

module _ {C : Type 0} (lower_rune : ℕ → ℕ) (parse_ip : List ℕ → Option Ip)
    (lookup_ip : List ℕ → Option (List Ip)) (dial : ℕ → Target → Option C)
    (round_trip : Target → Option C) (hijack : Hijack) where
  hand_over : Hijack → List Target → C → List Target × Response C
  hand_over unsupported targets connection = (targets, untunnelled)
  hand_over refused targets connection = (targets, dropped)
  hand_over taken targets connection = (targets, tunnelled connection)

  tunnel : List Target × Option C → List Target × Response C
  unfolding hand_over
  tunnel (targets, none) = (targets, unavailable)
  tunnel (targets, some connection) = hand_over hijack targets connection

  connect_resolved : List ℕ → Option (List Ip) → List Target × Response C
  unfolding tunnel
  connect_resolved port none = ([], blocked "private or invalid destination blocked")
  connect_resolved port (some addresses) = tunnel (open_tunnel dial addresses port)

  connect_checked : List ℕ → List ℕ → Option String → List Target × Response C
  unfolding connect_resolved
  connect_checked host port (some message) = ([], blocked message)
  connect_checked host port none =
      connect_resolved port (resolve_public lower_rune parse_ip lookup_ip host)

  -- serveConnect
  unfoldable pub serve_connect : Option (List ℕ × List ℕ) → List Target × Response C
  unfolding connect_checked
  serve_connect none = ([], bad_request "CONNECT requires host:port")
  serve_connect (some (host, port)) = connect_checked host port (validate_port port true)

  answer_trip : Target → Option C → List Target × Response C
  answer_trip target none = (target ∷ [], unavailable)
  answer_trip target (some response) = (target ∷ [], forwarded response)

  -- The request is pinned to the first address that was resolved.
  forward_resolved : List ℕ → Option (List Ip) → List Target × Response C
  unfolding answer_trip
  forward_resolved port none = ([], blocked "private or invalid destination blocked")
  forward_resolved port (some []) = ([], panicked)
  forward_resolved port (some (address ∷ rest)) =
      let target : Target = record { address = address; port = port } in
      answer_trip target (round_trip target)

  forward_checked : List ℕ → List ℕ → Option String → List Target × Response C
  unfolding forward_resolved
  forward_checked host port (some message) = ([], blocked message)
  forward_checked host port none =
      forward_resolved port (resolve_public lower_rune parse_ip lookup_ip host)

  -- The part of `ServeHTTP` for a request that is neither a health request nor a CONNECT.
  unfoldable pub serve_plain : Option RequestUrl → List Target × Response C
  unfolding forward_checked port_or_80
  serve_plain none = ([], bad_request "absolute public URL required")
  serve_plain (some url) =
      if no_codes url.scheme || no_codes url.host || url.has_user
      then ([], bad_request "absolute public URL required")
      else if not (same_codes url.scheme (codes "http"))
      then ([], bad_request "HTTPS proxy requests must use CONNECT")
      else forward_checked url.hostname (port_or_80 url.port)
          (validate_port (port_or_80 url.port) false)

  serve_method : Method → Request → List Target × Response C
  unfolding serve_connect serve_plain
  serve_method Method.connect request = serve_connect request.authority
  serve_method _ request = serve_plain request.url

  is_health : Method → Option RequestUrl → Bool
  unfolding is_direct_health_request
  is_health method none = false
  is_health method (some url) = is_direct_health_request method url

  -- ServeHTTP: the targets dialled, in order, and the answer.
  unfoldable pub serve_http : Request → List Target × Response C
  unfolding serve_method is_health
  serve_http request =
      if is_health request.method request.url
      then ([], healthy)
      else serve_method request.method request
