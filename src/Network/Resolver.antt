-- ===== src/Network/Resolver.antt =====
-- The DNS-over-HTTPS resolver of the egress gateway, packages/browser-runtime/egressgateway/doh.go.
-- The exchange with the endpoint (`none` for any error, otherwise the decoded answers of a response
-- with status 0), `net.ParseIP` and `unicode.ToLower` are arguments; a time counts nanoseconds. The
-- cache is read under the lock once before the exchange and written under it once after, so those
-- are two steps.
pub mod Cache
use openlinker_plugin.Base.{
  ℕ, suc, ◌+◌, ◌*◌, Bool, true, false, ◌||◌, ◌&&◌, not, Option, none, some, List, [], ◌∷◌, ◌++◌,
  ltb, leb, ◌==◌, if◌then◌else◌, length, same_codes, ℤ, pos, negsuc, pos_part, lt_int, eq_int,
}
use openlinker_plugin.Network.Hosts.{trim_codes, trim_dot, to_lower}
use openlinker_plugin.Network.Addresses.{Ip}

abbrev pub max_doh_cache_entries : ℕ
max_doh_cache_entries = 1024

abbrev pub second : ℕ
second = 1000000000

-- One answer of the JSON response.
pub record Answer : Type 0 where
  pub type : ℤ
  pub ttl : ℤ
  pub data_text : List ℕ

pub data QueryType : Type 0 where
  a aaaa : QueryType

abbrev wanted : QueryType → ℤ
wanted a = pos 1
wanted aaaa = pos 28

-- dohCacheEntry, with its key.
pub record CacheEntry : Type 0 where
  pub host : List ℕ
  pub addresses : List Ip
  pub expires : ℕ

abbrev pub Cache : Type 0
Cache = List CacheEntry

-- The smaller of the TTLs seen, 0 for none; a TTL that is not positive does not count.
abbrev pub shorter : ℕ → ℕ → ℕ
shorter ttl minimum = if not (ttl == 0) && (minimum == 0 || ltb ttl minimum) then ttl else minimum

-- Addresses found and the shortest TTL.
abbrev pub Found : Type 0
Found = List Ip × ℕ

module _ (parse_ip : List ℕ → Option Ip) where
  keep_answer : Option Ip → ℕ → Found → Found
  keep_answer none ttl found = found
  keep_answer (some address) ttl (addresses, minimum) =
      (addresses ++ address ∷ [], shorter ttl minimum)

  -- The loop over the answers.
  unfoldable pub read_answers : QueryType → List Answer → Found → Found
  unfolding keep_answer
  read_answers query [] found = found
  read_answers query (answer ∷ rest) found =
      let kept = keep_answer (parse_ip (trim_codes answer.data_text)) (pos_part answer.ttl) found in
      read_answers query rest (if eq_int answer.type (wanted query) then kept else found)

  found_any : Found → Option Found
  found_any ([], minimum) = none
  found_any (address ∷ rest, minimum) = some (address ∷ rest, minimum)

  -- lookupType
  unfoldable pub lookup_type : QueryType → Option (List Answer) → Option Found
  unfolding found_any
  lookup_type query none = none
  lookup_type query (some answers) = found_any (read_answers query answers ([], 0))

-- The body of the loop over the two types.
unfoldable pub add_found : Found → Option Found → Found
add_found found none = found
add_found (addresses, minimum) (some (more, ttl)) = (addresses ++ more, shorter ttl minimum)

-- The lifetime of what was found, in seconds.
abbrev pub lifetime : ℕ → ℕ
lifetime minimum = if minimum == 0 then 30 else if ltb 300 minimum then 300 else minimum

-- The reading of the cache that opens `LookupIP`.
unfoldable pub cached : List ℕ → ℕ → Cache → Option (List Ip)
cached host now [] = none
cached host now (entry ∷ rest) =
    if same_codes entry.host host
    then (if ltb now entry.expires then some entry.addresses else none)
    else cached host now rest

unfoldable pub drop_expired : ℕ → Cache → Cache
drop_expired now [] = []
drop_expired now (entry ∷ rest) =
    let kept = drop_expired now rest in if ltb now entry.expires then entry ∷ kept else kept

-- The search for the oldest entry; the map is walked in any order.
unfoldable pub oldest_from : List ℕ → ℕ → Cache → List ℕ
oldest_from oldest_host oldest_expiry [] = oldest_host
oldest_from oldest_host oldest_expiry (entry ∷ rest) =
    let older = same_codes oldest_host [] || ltb entry.expires oldest_expiry in
    oldest_from (if older then entry.host else oldest_host)
      (if older then entry.expires else oldest_expiry) rest

-- delete(cache, host)
unfoldable pub remove_host : List ℕ → Cache → Cache
remove_host host [] = []
remove_host host (entry ∷ rest) =
    let kept = remove_host host rest in if same_codes entry.host host then kept else entry ∷ kept

unfoldable pub make_room : Cache → Cache
unfolding oldest_from remove_host
make_room cache =
    if leb max_doh_cache_entries (length cache)
    then remove_host (oldest_from [] 0 cache) cache
    else cache

-- The writing of the cache that closes `LookupIP`.
unfoldable pub store : List ℕ → ℕ → Found → Cache → Cache
unfolding make_room drop_expired
store host now (addresses, minimum) cache =
    record { host = host; addresses = addresses; expires = now + lifetime minimum * second }
    ∷ remove_host host (make_room (drop_expired now cache))

-- The key of a host, for a `unicode.ToLower`.
abbrev pub cache_key : (ℕ → ℕ) → List ℕ → List ℕ
cache_key lower_rune host = to_lower lower_rune (trim_dot (trim_codes host))

module _ (lower_rune : ℕ → ℕ) (parse_ip : List ℕ → Option Ip)
    (exchange : List ℕ → QueryType → Option (List Answer)) where
  unfoldable pub both_types : List ℕ → Found
  unfolding add_found
  both_types host =
      add_found (add_found ([], 0) (lookup_type parse_ip QueryType.a (exchange host QueryType.a)))
        (lookup_type parse_ip QueryType.aaaa (exchange host QueryType.aaaa))

  unfoldable pub keep_found : List ℕ → ℕ → Found → Cache → Cache × Option (List Ip)
  keep_found host now ([], minimum) cache = (cache, none)
  keep_found host now (address ∷ rest, minimum) cache =
      (store host now (address ∷ rest, minimum) cache, some (address ∷ rest))

  answer_from : List ℕ → ℕ → Option (List Ip) → Cache → Cache × Option (List Ip)
  unfolding both_types keep_found
  answer_from host now (some addresses) cache = (cache, some addresses)
  answer_from host now none cache = keep_found host now (both_types host) cache

  -- LookupIP, with no other call between its two steps: the cache after it and the addresses,
  -- `none` for an error.
  unfoldable pub lookup_ip : ℕ → List ℕ → Cache → Cache × Option (List Ip)
  unfolding answer_from
  lookup_ip now host cache =
      answer_from (cache_key lower_rune host) now (cached (cache_key lower_rune host) now cache)
        cache
