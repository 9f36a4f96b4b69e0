-- ===== src/Network/Addresses.antt =====
-- IP addresses and the blocked prefixes: packages/browser-runtime/netpolicy/prefixes.go and
-- `IsBlockedIP` of egressgateway/gateway.go (`blockedIP` of browserprotocol/destination.go reads
-- the same). The functions of net/netip are written out; an address has no zone.
pub mod Ranges
use openlinker_plugin.Base.{
  ℕ, ◌+◌, ◌-◌, ◌*◌, ◌/◌, ◌%◌, ◌^◌, Bool, true, false, ◌||◌, not, List, [], ◌∷◌, ◌==◌, if◌then◌else◌,
}

-- A `net.IP` of 4 bytes, of 16 bytes, or of another length.
pub data Ip : Type 0 where
  four sixteen : ℕ → Ip
  malformed : Ip

-- A valid `netip.Addr`.
pub data Address : Type 0 where
  v4 v6 : ℕ → Address

-- `Unmap` on an address of 16 bytes.
abbrev pub unmap : ℕ → Address
unmap n = if n / 2 ^ 32 == 0xffff then v4 (n % 2 ^ 32) else v6 n

-- Addr.IsGlobalUnicast: neither unspecified, broadcast, loopback, multicast nor link-local.
abbrev pub is_global_unicast : Address → Bool
is_global_unicast (v4 n) =
    not (n == 0 || n == 0xffffffff || n / 2 ^ 24 == 127 || n / 2 ^ 28 == 14 || n / 2 ^ 16 == 0xa9fe)
is_global_unicast (v6 n) = not (n == 0 || n == 1 || n / 2 ^ 120 == 0xff || n / 2 ^ 118 == 0x3fa)

-- A prefix of either family: its address and its bits.
pub data Prefix : Type 0 where
  net4 net6 : ℕ → ℕ → Prefix

-- Prefix.Contains
abbrev pub contains : Prefix → Address → Bool
contains (net4 base bits) (v4 n) = n / 2 ^ (32 - bits) == base / 2 ^ (32 - bits)
contains (net6 base bits) (v6 n) = n / 2 ^ (128 - bits) == base / 2 ^ (128 - bits)
contains _ _ = false

-- Four bytes, and the first of the eight groups of an IPv6 prefix.
abbrev dotted : ℕ → ℕ → ℕ → ℕ
dotted a b c = ((a * 256 + b) * 256 + c) * 256

abbrev groups : ℕ → ℕ → ℕ → ℕ
groups a b c = ((a * 65536 + b) * 65536 + c) * 2 ^ 80

-- blockedDestinationPrefixes
abbrev pub blocked_destination_prefixes : List Prefix
blocked_destination_prefixes =
    net4 (dotted 0 0 0) 8
    ∷ net4 (dotted 10 0 0) 8
    ∷ net4 (dotted 100 64 0) 10
    ∷ net4 (dotted 127 0 0) 8
    ∷ net4 (dotted 169 254 0) 16
    ∷ net4 (dotted 172 16 0) 12
    ∷ net4 (dotted 192 0 0) 24
    ∷ net4 (dotted 192 0 2) 24
    ∷ net4 (dotted 192 88 99) 24
    ∷ net4 (dotted 192 168 0) 16
    ∷ net4 (dotted 198 18 0) 15
    ∷ net4 (dotted 198 51 100) 24
    ∷ net4 (dotted 203 0 113) 24
    ∷ net4 (dotted 224 0 0) 4
    ∷ net4 (dotted 240 0 0) 4
    ∷ net6 0 128
    ∷ net6 1 128
    ∷ net6 (groups 0x64 0xff9b 0) 96
    ∷ net6 (groups 0x64 0xff9b 1) 48
    ∷ net6 (groups 0x100 0 0) 64
    ∷ net6 (groups 0x2001 0 0) 23
    ∷ net6 (groups 0x2001 0xdb8 0) 32
    ∷ net6 (groups 0x2002 0 0) 16
    ∷ net6 (groups 0x3fff 0 0) 20
    ∷ net6 (groups 0x5f00 0 0) 16
    ∷ net6 (groups 0xfc00 0 0) 7
    ∷ net6 (groups 0xfe80 0 0) 10
    ∷ net6 (groups 0xff00 0 0) 8
    ∷ []

unfoldable pub any_contains : List Prefix → Address → Bool
any_contains [] address = false
any_contains (prefix ∷ rest) address = contains prefix address || any_contains rest address

unfoldable pub is_blocked_address : Address → Bool
unfolding any_contains
is_blocked_address address =
    if not (is_global_unicast address)
    then true
    else any_contains blocked_destination_prefixes address

-- IsBlockedIP
unfoldable pub is_blocked_ip : Ip → Bool
unfolding is_blocked_address
is_blocked_ip malformed = true
is_blocked_ip (four n) = is_blocked_address (v4 n)
is_blocked_ip (sixteen n) = is_blocked_address (unmap n)
