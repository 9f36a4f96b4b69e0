-- ===== src/Network/Destination.antt =====
-- `validateNavigateURL` of packages/browser-runtime/browserprotocol/destination.go, against the
-- host check that the egress gateway makes on its own. `url.Parse`, `net.ParseIP` and
-- `unicode.ToLower` are arguments.
use openlinker_plugin.Base.{
  ℕ, String, ◌≡◌, ◌↔◌, refl, Bool, true, false, ◌||◌, ◌&&◌, not, Option, none, some, List, [], ◌∷◌,
  arith, ltb, ◌==◌, ◌=s=◌, if◌then◌else◌, len, length, has_code, same_codes, codes,
  eq_of_same_codes,
}
use openlinker_plugin.Protocol.Types.{Failure, ErrorCode}
use openlinker_plugin.Protocol.Failure.{new_failure}
use openlinker_plugin.Network.Hosts.{
  trim_dot, ends_with, to_lower, looks_like_ip_literal, contains_separator,
  is_valid_public_hostname,
}
use openlinker_plugin.Network.Addresses.{Ip, is_blocked_ip}
use openlinker_plugin.Network.Gateway.{RequestUrl, is_ip}

refuse_destination : String → Option Failure
refuse_destination message = some (new_failure ErrorCode.protocol_invalid message false)

-- `localhost` has no dot.
dotless : (host : List ℕ) → same_codes host (codes "localhost") ≡ true → has_code b'.' host ≡ false
unfolding has_code
dotless host h = rw (eq_of_same_codes host (codes "localhost") h) refl

empty_dotless : (host : List ℕ) → (length host == 0) ≡ true → has_code b'.' host ≡ false
unfolding has_code
empty_dotless [] h = refl
empty_dotless (c ∷ cs) h = ground arith

module _ (lower_rune : ℕ → ℕ) (parse_ip : List ℕ → Option Ip) where
  -- The tests on a host name that is no IP address.
  abbrev is_not_public : List ℕ → Bool
  is_not_public host =
      looks_like_ip_literal lower_rune (is_ip parse_ip) host
      || same_codes host (codes "localhost")
      || not (has_code b'.' host)
      || ends_with (codes ".local") host
      || ends_with (codes ".internal") host
      || ends_with (codes ".localhost") host
      || same_codes host (codes "metadata.google.internal")
      || contains_separator host

  check_host : List ℕ → Option Ip → Option Failure
  unfolding refuse_destination
  check_host host (some ip) =
      if is_blocked_ip ip
      then refuse_destination "navigate URL address is not public"
      else refuse_destination "navigate URL must use a public DNS hostname"
  check_host host none =
      if is_not_public host then refuse_destination "navigate URL host is not public" else none

  -- What is checked of the host, in lower case and without a trailing dot.
  unfoldable pub check_destination_host : List ℕ → Option Failure
  unfolding check_host
  check_destination_host host = check_host host (parse_ip host)

  check_parsed : Option RequestUrl → Option Failure
  unfolding refuse_destination check_destination_host
  check_parsed none = refuse_destination "navigate URL must be an HTTP(S) URL without credentials"
  check_parsed (some url) =
      if (not (same_codes url.scheme (codes "http")) && not (same_codes url.scheme (codes "https")))
        || length url.hostname == 0
        || url.has_user
      then refuse_destination "navigate URL must be an HTTP(S) URL without credentials"
      else check_destination_host (to_lower lower_rune (trim_dot url.hostname))

  -- validateNavigateURL
  unfoldable pub validate_navigate_url : (String → Option RequestUrl) → String → Option Failure
  unfolding refuse_destination check_parsed
  validate_navigate_url parse raw =
      if raw =s= "" || ltb 4096 (len raw)
      then refuse_destination "navigate URL is empty or too large"
      else check_parsed (parse raw)

  -- Both tests on a name that is no IP address and has no upper-case letter.
  same_name_tests :
      (host : List ℕ)
      → to_lower lower_rune host ≡ host
      → parse_ip host ≡ none
      → (is_not_public host ≡ false)
        ↔ (is_valid_public_hostname lower_rune (is_ip parse_ip) host ≡ true)
  unfolding is_valid_public_hostname
  same_name_tests host l p = rw (l, p) (ground (arith, dotless host, empty_dotless host))

  checked_host :
      (host : List ℕ) (o : Option Ip)
      → parse_ip host ≡ o
      → to_lower lower_rune host ≡ host
      → (check_host host o ≡ none)
        ↔ ((is_valid_public_hostname lower_rune (is_ip parse_ip) host ≡ true) × (o ≡ none))
  unfolding check_host refuse_destination
  checked_host host (some ip) p l = ground arith
  checked_host host none p l = ground (arith, same_name_tests host l p)

  -- For a host without upper-case letters, the protocol's check accepts exactly the names that the
  -- gateway's own check accepts and that are no IP address.
  pub check_destination_host-gateway :
      (host : List ℕ)
      → to_lower lower_rune host ≡ host
      → (check_destination_host host ≡ none) ↔ (
          (is_valid_public_hostname lower_rune (is_ip parse_ip) host ≡ true)
          × (parse_ip host ≡ none))
  unfolding check_destination_host
  check_destination_host-gateway host l = checked_host host (parse_ip host) refl l
