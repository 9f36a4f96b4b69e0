-- ===== src/Network/Addresses/Ranges.antt =====
-- The addresses that are blocked, as ranges from the first to the last.
use openlinker_plugin.Base.{
  ℕ, ◌+◌, ◌-◌, ◌*◌, refl, Bool-cases, ◌^◌, ◌≤◌, ◌<◌, ◌≡◌, ap, ◌↔◌, ◌⊎◌, inl, inr, true, arith, ◌/◌,
  ◌==◌, ==_iff,
}
use openlinker_plugin.Network.Addresses.{
  Ip, v4, v6, four, sixteen, malformed, is_blocked_ip, is_blocked_address, any_contains, unmap,
}

abbrev pub at : ℕ → ℕ → ℕ → ℕ → ℕ
at a b c d = 16777216 * a + 65536 * b + 256 * c + d

-- Unspecified, private, shared, loopback, link-local, protocol, documentation, relay, benchmark,
-- multicast and reserved addresses.
abbrev pub IsReserved4 : ℕ → Type 0
IsReserved4 n =
    (n ≤ at 0 255 255 255)
    ⊎ ((at 10 0 0 0 ≤ n) × (n ≤ at 10 255 255 255))
    ⊎ ((at 100 64 0 0 ≤ n) × (n ≤ at 100 127 255 255))
    ⊎ ((at 127 0 0 0 ≤ n) × (n ≤ at 127 255 255 255))
    ⊎ ((at 169 254 0 0 ≤ n) × (n ≤ at 169 254 255 255))
    ⊎ ((at 172 16 0 0 ≤ n) × (n ≤ at 172 31 255 255))
    ⊎ ((at 192 0 0 0 ≤ n) × (n ≤ at 192 0 0 255))
    ⊎ ((at 192 0 2 0 ≤ n) × (n ≤ at 192 0 2 255))
    ⊎ ((at 192 88 99 0 ≤ n) × (n ≤ at 192 88 99 255))
    ⊎ ((at 192 168 0 0 ≤ n) × (n ≤ at 192 168 255 255))
    ⊎ ((at 198 18 0 0 ≤ n) × (n ≤ at 198 19 255 255))
    ⊎ ((at 198 51 100 0 ≤ n) × (n ≤ at 198 51 100 255))
    ⊎ ((at 203 0 113 0 ≤ n) × (n ≤ at 203 0 113 255))
    ⊎ (at 224 0 0 0 ≤ n)

IsReserved4-iff : (n : ℕ) → n < 2 ^ 32 → (is_blocked_address (v4 n) ≡ true) ↔ IsReserved4 n
unfolding is_blocked_address any_contains
IsReserved4-iff n h = ground arith

-- An address whose first groups are these and whose other groups are zero.
abbrev pub at6 : ℕ → ℕ → ℕ → ℕ
at6 a b c = a * 2 ^ 112 + b * 2 ^ 96 + c * 2 ^ 80

abbrev mapped : ℕ
mapped = 0xffff * 2 ^ 32

abbrev IsMapped : ℕ → Type 0
IsMapped n = (mapped ≤ n) × (n < mapped + 2 ^ 32)

-- Unspecified, loopback, translation, discard, protocol, documentation, 6to4, segment-routing,
-- unique-local, link-local and multicast addresses.
abbrev pub IsReserved6 : ℕ → Type 0
IsReserved6 n =
    (n ≤ 1)
    ⊎ ((at6 0x64 0xff9b 0 ≤ n) × (n < at6 0x64 0xff9b 0 + 2 ^ 32))
    ⊎ ((at6 0x64 0xff9b 1 ≤ n) × (n < at6 0x64 0xff9b 2))
    ⊎ ((at6 0x100 0 0 ≤ n) × (n < at6 0x100 0 0 + 2 ^ 64))
    ⊎ ((at6 0x2001 0 0 ≤ n) × (n < at6 0x2001 0x200 0))
    ⊎ ((at6 0x2001 0xdb8 0 ≤ n) × (n < at6 0x2001 0xdb9 0))
    ⊎ ((at6 0x2002 0 0 ≤ n) × (n < at6 0x2003 0 0))
    ⊎ ((at6 0x3fff 0 0 ≤ n) × (n < at6 0x3fff 0x1000 0))
    ⊎ ((at6 0x5f00 0 0 ≤ n) × (n < at6 0x5f01 0 0))
    ⊎ ((at6 0xfc00 0 0 ≤ n) × (n < at6 0xfe00 0 0))
    ⊎ ((at6 0xfe80 0 0 ≤ n) × (n < at6 0xfec0 0 0))
    ⊎ (at6 0xff00 0 0 ≤ n)

IsReserved6-iff : (n : ℕ) → n < 2 ^ 128 → (is_blocked_address (v6 n) ≡ true) ↔ IsReserved6 n
unfolding is_blocked_address any_contains
IsReserved6-iff n h = ground arith

-- The address an address of 16 bytes stands for is the IPv4 address when it is a mapped one.
abbrev pub IsReserved : Ip → Type 0
IsReserved malformed = Unit
IsReserved (four n) = IsReserved4 n
IsReserved (sixteen n) = (IsMapped n × IsReserved4 (n - mapped)) ⊎ ((¬ IsMapped n) × IsReserved6 n)

abbrev pub FitsBytes : Ip → Type 0
FitsBytes malformed = Unit
FitsBytes (four n) = n < 2 ^ 32
FitsBytes (sixteen n) = n < 2 ^ 128

unmap_cases :
    (n : ℕ) → (IsMapped n × (unmap n ≡ v4 (n - mapped))) ⊎ ((¬ IsMapped n) × (unmap n ≡ v6 n))
unmap_cases n = elim (Bool-cases (n / 2 ^ 32 == 0xffff)) [
  | inl h ↦ inl (ground arith, rw h (ap v4 (omega (arith, (==_iff (n / 2 ^ 32) 0xffff).0 h))))
  | inr h ↦ inr (ground arith, rw h refl)
]

mapped_iff :
    (n : ℕ) → IsMapped n → (is_blocked_address (v4 (n - mapped)) ≡ true) ↔ IsReserved (sixteen n)
mapped_iff n m =
    let (to, from) = IsReserved4-iff (n - mapped) (omega arith) in
    (λ b. inl (m, to b), λ r. elim r [ inl (_, r4) ↦ from r4 | inr (out, _) ↦ absurd (out m) ])

unmapped_iff :
    (n : ℕ)
    → ¬ IsMapped n
    → n < 2 ^ 128
    → (is_blocked_address (v6 n) ≡ true) ↔ IsReserved (sixteen n)
unmapped_iff n m h =
    let (to, from) = IsReserved6-iff n h in
    (
      λ b. inr (m, to b),
      λ r. elim r [ inl (inside, _) ↦ absurd (m inside) | inr (_, r6) ↦ from r6 ],
    )

-- An address is blocked exactly when it is not an address at all or lies in one of the reserved
-- ranges, an IPv4 address mapped into IPv6 being judged as the IPv4 address; the address has the
-- bytes its form says.
pub is_blocked_ip-Reserved : (ip : Ip) → FitsBytes ip → (is_blocked_ip ip ≡ true) ↔ IsReserved ip
unfolding is_blocked_ip
is_blocked_ip-Reserved malformed h = (λ _. tt, λ _. refl)
is_blocked_ip-Reserved (four n) h = IsReserved4-iff n h
is_blocked_ip-Reserved (sixteen n) h = elim (unmap_cases n) [
  | inl (m, e) ↦ rw e (mapped_iff n m)
  | inr (m, e) ↦ rw e (unmapped_iff n m h)
]
