-- ===== src/Network/Resolver/Cache.antt =====
-- How old an answer of the resolver's cache can be, and how large the cache grows.
use openlinker_plugin.Base.{
  ℕ, suc, ◌+◌, ◌*◌, ◌≤◌, ◌<◌, ◌≡◌, ◌⊎◌, inl, inr, refl, sym, Bool, true, false, ◌||◌, Option, none,
  some, List, [], ◌∷◌, arith, ltb, leb, if◌then◌else◌, length, All, All-map, same_codes,
  same_codes_refl, eq_of_same_codes, Bool-cases, if_of_true, if_of_false, ◌∙◌, ap,
}
use openlinker_plugin.Network.Addresses.{Ip}
use openlinker_plugin.Network.Resolver.{
  Cache, CacheEntry, Answer, QueryType, Found, max_doh_cache_entries, second, lifetime, cached,
  drop_expired, oldest_from, remove_host, make_room, store, keep_found, both_types, cache_key,
}

if-< :
    (b : Bool) (c removed : Cache)
    → length c ≤ max_doh_cache_entries
    → leb max_doh_cache_entries (length c) ≡ b
    → suc (length removed) ≤ length c
    → length (if b then removed else c) < max_doh_cache_entries
if-< true c removed h b k = omega (arith, h, k)
if-< false c removed h b k = ground arith

hit :
    (t : ℕ) (e : CacheEntry) (addresses : List Ip)
    → (if ltb t e.expires then some e.addresses else none) ≡ some addresses
    → (e.addresses ≡ addresses) × (t < e.expires)
hit t e addresses h = ground arith

length-drop_expired : (now : ℕ) (c : Cache) → length (drop_expired now c) ≤ length c
unfolding drop_expired
length-drop_expired now [] = omega arith
length-drop_expired now (e ∷ c) = ground (arith, length-drop_expired now c)

length-remove_host : (host : List ℕ) (c : Cache) → length (remove_host host c) ≤ length c
unfolding remove_host
length-remove_host host [] = omega arith
length-remove_host host (e ∷ c) = ground (arith, length-remove_host host c)

-- A host of the cache.
abbrev Caches : List ℕ → Cache → Type 0
Caches host [] = ⊥
Caches host (e ∷ c) = (e.host ≡ host) ⊎ Caches host c

length-remove_cached :
    (host : List ℕ) (c : Cache) → Caches host c → suc (length (remove_host host c)) ≤ length c
unfolding remove_host
length-remove_cached host [] h = absurd h
length-remove_cached host (e ∷ c) (inl h) =
    rw (h, same_codes_refl host) (omega (arith, length-remove_host host c))
length-remove_cached host (e ∷ c) (inr h) = ground (arith, length-remove_cached host c h)

-- What the search returns is the host it had or one of the cache.
Picks : List ℕ → ℕ → Cache → Type 0
Picks host expiry c = (oldest_from host expiry c ≡ host) ⊎ Caches (oldest_from host expiry c) c

older-Picks :
    (b : Bool) (host : List ℕ) (expiry : ℕ) (e : CacheEntry) (c : Cache)
    → Picks e.host e.expires c
    → Picks host expiry c
    → (let found = oldest_from (if b then e.host else host) (if b then e.expires else expiry) c in
        (found ≡ host) ⊎ Caches found (e ∷ c))
unfolding Picks
older-Picks true host expiry e c h k = elim h [ inl h ↦ inr (inl (sym h)) | inr h ↦ inr (inr h) ]
older-Picks false host expiry e c h k = elim k [ inl h ↦ inl h | inr h ↦ inr (inr h) ]

oldest-Picks : (host : List ℕ) (expiry : ℕ) (c : Cache) → Picks host expiry c
unfolding oldest_from Picks
oldest-Picks host expiry [] = inl refl
oldest-Picks host expiry (e ∷ c) =
    older-Picks (same_codes host [] || ltb e.expires expiry) host expiry e c
      (oldest-Picks e.host e.expires c) (oldest-Picks host expiry c)

oldest-Caches : (e : CacheEntry) (c : Cache) → Caches (oldest_from [] 0 (e ∷ c)) (e ∷ c)
unfolding oldest_from Picks same_codes
oldest-Caches e c = elim (oldest-Picks e.host e.expires c) [ inl h ↦ inl (sym h) | inr h ↦ inr h ]

make_room-bounded :
    (c : Cache) → length c ≤ max_doh_cache_entries → length (make_room c) < max_doh_cache_entries
unfolding make_room
make_room-bounded [] h = omega arith
make_room-bounded (e ∷ c) h =
    if-< (leb max_doh_cache_entries (length (e ∷ c))) (e ∷ c)
      (remove_host (oldest_from [] 0 (e ∷ c)) (e ∷ c)) h refl
      (length-remove_cached (oldest_from [] 0 (e ∷ c)) (e ∷ c) (oldest-Caches e c))

store-bounded :
    (host : List ℕ) (now : ℕ) (found : Found) (c : Cache)
    → length c ≤ max_doh_cache_entries
    → length (store host now found c) ≤ max_doh_cache_entries
unfolding store
store-bounded host now (addresses, minimum) c h = omega (
  arith,
  length-remove_host host (make_room (drop_expired now c)),
  make_room-bounded (drop_expired now c) (omega (arith, length-drop_expired now c)),
)

-- What holds of every entry holds of those that stay.
module _ (P : CacheEntry → Type 0) where
  if-All : (b : Bool) (x y : Cache) → All P x → All P y → All P (if b then x else y)
  if-All true x y h k = h
  if-All false x y h k = k

  All-drop_expired : (now : ℕ) (c : Cache) → All P c → All P (drop_expired now c)
  unfolding drop_expired
  All-drop_expired now [] h = tt
  All-drop_expired now (e ∷ c) (h, hs) =
      if-All (ltb now e.expires) _ _ (h, All-drop_expired now c hs) (All-drop_expired now c hs)

  All-remove_host : (host : List ℕ) (c : Cache) → All P c → All P (remove_host host c)
  unfolding remove_host
  All-remove_host host [] h = tt
  All-remove_host host (e ∷ c) (h, hs) =
      if-All (same_codes e.host host) _ _ (All-remove_host host c hs) (h, All-remove_host host c hs)

  All-make_room : (c : Cache) → All P c → All P (make_room c)
  unfolding make_room
  All-make_room c h =
      if-All (leb max_doh_cache_entries (length c)) _ _ (All-remove_host (oldest_from [] 0 c) c h) h

  All-store :
      (host : List ℕ) (now minimum : ℕ) (addresses : List Ip) (c : Cache)
      → P (record { host = host; addresses = addresses; expires = now + lifetime minimum * second })
      → All P c
      → All P (store host now (addresses, minimum) c)
  unfolding store
  All-store host now minimum addresses c h hs = (
    h,
    All-remove_host host (make_room (drop_expired now c))
        (All-make_room (drop_expired now c) (All-drop_expired now c hs)),
  )

  -- The entry that an answer comes from.
  cached-All :
      (host : List ℕ) (t : ℕ) (c : Cache) (addresses : List Ip)
      → cached host t c ≡ some addresses
      → All P c
      → (e : CacheEntry) × (P e × ((e.host ≡ host) × ((e.addresses ≡ addresses) × (t < e.expires))))
  unfolding cached
  cached-All host t [] addresses h hs = ground arith
  cached-All host t (e ∷ c) addresses h (p, ps) = elim (Bool-cases (same_codes e.host host)) [
    | inl s ↦ (
      e,
      (
        p,
        (
          eq_of_same_codes e.host host s,
          hit t e addresses (sym (if_of_true (same_codes e.host host) _ _ s) ∙ h),
        ),
      ),
    )
    | inr s ↦
        cached-All host t c addresses (sym (if_of_false (same_codes e.host host) _ _ s) ∙ h) ps
  ]

-- What an earlier event is.
module _ (lower_rune : ℕ → ℕ) (parse_ip : List ℕ → Option Ip)
    (exchange : ℕ → List ℕ → QueryType → Option (List Answer)) where
  -- What the endpoint's answers at time `now` give for a host.
  abbrev pub resolved_at : ℕ → List ℕ → Found
  resolved_at now key = both_types lower_rune parse_ip (exchange now) key

  -- The cache after the exchanges of the calls that missed it, the latest first: each with the time
  -- its call read and its host, in the order in which they wrote the cache.
  unfoldable pub after_exchanges : List (ℕ × List ℕ) → Cache
  after_exchanges [] = []
  after_exchanges ((now, host) ∷ earlier) =
      (keep_found lower_rune parse_ip (exchange now) (cache_key lower_rune host) now
        (resolved_at now (cache_key lower_rune host)) (after_exchanges earlier)).0

  -- One of the exchanges was at this time for this host.
  abbrev pub Exchanged : List ℕ → ℕ → List (ℕ × List ℕ) → Type 0
  Exchanged key time [] = ⊥
  Exchanged key time ((now, host) ∷ earlier) =
      ((now ≡ time) × (cache_key lower_rune host ≡ key)) ⊎ Exchanged key time earlier

  -- The entry holds what one of the exchanges gave.
  abbrev Sourced : List (ℕ × List ℕ) → CacheEntry → Type 0
  Sourced events e =
      (time : ℕ) × (Exchanged e.host time events
        × ((e.addresses ≡ (resolved_at time e.host).0)
            × (e.expires ≡ time + lifetime (resolved_at time e.host).1 * second)))

  kept-Sourced :
      (now : ℕ) (host : List ℕ) (earlier : List (ℕ × List ℕ)) (found : Found) (c : Cache)
      → resolved_at now (cache_key lower_rune host) ≡ found
      → All (Sourced earlier) c
      → length c ≤ max_doh_cache_entries
      → (let kept =
            (keep_found lower_rune parse_ip
              (exchange now)
              (cache_key lower_rune host)
              now
              found
              c).0 in
          All (Sourced ((now, host) ∷ earlier)) kept × (length kept ≤ max_doh_cache_entries))
  unfolding keep_found
  kept-Sourced now host earlier ([], minimum) c r s b =
      (All-map (λ e (time, (x, rest)). (time, (inr x, rest))) c s, b)
  kept-Sourced now host earlier (a ∷ rest, minimum) c r s b =
      let key = cache_key lower_rune host in
      (
        All-store (Sourced ((now, host) ∷ earlier)) key now minimum (a ∷ rest) c
            (
              now,
              (
                inl (refl, refl),
                (sym (ap (λ f. f.0) r), sym (ap (λ f. now + lifetime f.1 * second) r)),
              ),
            )
            (All-map (λ e (time, (x, rest)). (time, (inr x, rest))) c s),
        store-bounded key now (a ∷ rest, minimum) c b,
      )

  after_exchanges-Sourced :
      (events : List (ℕ × List ℕ))
      → All (Sourced events) (after_exchanges events)
        × (length (after_exchanges events) ≤ max_doh_cache_entries)
  unfolding after_exchanges
  after_exchanges-Sourced [] = (tt, omega arith)
  after_exchanges-Sourced ((now, host) ∷ earlier) =
      let (sourced, bounded) = after_exchanges-Sourced earlier in
      kept-Sourced now host earlier _ (after_exchanges earlier) refl sourced bounded

  lifetime-bounded : (n : ℕ) → lifetime n ≤ 300
  lifetime-bounded n = ground arith

  recent :
      (events : List (ℕ × List ℕ)) (e : CacheEntry) (key : List ℕ) (t : ℕ) (addresses : List Ip)
      → Sourced events e
      → e.host ≡ key
      → e.addresses ≡ addresses
      → t < e.expires
      → (time : ℕ) × (Exchanged key time events
          × ((addresses ≡ (resolved_at time key).0) × (t < time + 300 * second)))
  recent events e key t addresses (time, (x, (same, expiry))) host found before = rw (sym host) (
    time,
    (
      x,
      (
        sym found ∙ same,
        omega (arith, before, expiry, lifetime-bounded (resolved_at time e.host).1),
      ),
    ),
  )

  -- However many exchanges the calls make, and in whatever order they write the cache, the cache
  -- holds at most 1024 entries; and an answer that it gives for a host at a time `t` is what the
  -- endpoint answered for that host in one of the exchanges, whose call read a time less than 300
  -- seconds before `t`.
  pub after_exchanges-Fresh :
      (events : List (ℕ × List ℕ))
      → (length (after_exchanges events) ≤ max_doh_cache_entries)
        × ((key : List ℕ) (t : ℕ) (addresses : List Ip)
            → cached key t (after_exchanges events) ≡ some addresses
            → (time : ℕ) × (Exchanged key time events
                × ((addresses ≡ (resolved_at time key).0) × (t < time + 300 * second))))
  after_exchanges-Fresh events =
      let (sourced, bounded) = after_exchanges-Sourced events in
      (
        bounded,
        λ key t addresses h.
            let (e, ((time, (x, (same, expiry))), (host, (found, before)))) =
              cached-All (Sourced events) key t (after_exchanges events) addresses h sourced in
            recent events e key t addresses (time, (x, (same, expiry))) host found before,
      )
