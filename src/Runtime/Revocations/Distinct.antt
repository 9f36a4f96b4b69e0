-- ===== src/Runtime/Revocations/Distinct.antt =====
-- The hashes of an index: that they stay distinct, and which of them stay.
use openlinker_plugin.Base.{
  ℕ, zero, suc, ◌+◌, ◌≤◌, ◌<◌, ◌≡◌, refl, sym, ap, ◌∙◌, inl, inr, Bool, true, false, ◌||◌, ◌&&◌,
  List, [], ◌∷◌, ◌++◌, arith, leb, if◌then◌else◌, length, same_codes, Bool-cases, or-false,
}
use openlinker_plugin.Runtime.Revocations.{
  RevocationEntry, max_revocations, has_hash, older_revocation, sorts_before, insert_entry,
  sort_entries, oldest_position, remove_at, drop_oldest, evict,
}
use openlinker_plugin.Runtime.Revocations.Lists.{
  keep, Distinct, same_codes_sym, has-insert_entry, has-sort_entries, has-remove_at, has-keep,
  has-append,
}

-- Distinct hashes stay distinct.
pick-Distinct :
    (b : Bool) (xs ys : List RevocationEntry)
    → Distinct xs
    → Distinct ys
    → Distinct (if b then xs else ys)
pick-Distinct true xs ys h k = h
pick-Distinct false xs ys h k = k

insert_entry-Distinct :
    (x : RevocationEntry) (ys : List RevocationEntry)
    → has_hash x.identity_hash ys ≡ false
    → Distinct ys
    → Distinct (insert_entry x ys)
unfolding has_hash insert_entry
insert_entry-Distinct x [] h d = (refl, tt)
insert_entry-Distinct x (y ∷ ys) h (n, d) =
    pick-Distinct (sorts_before y x) _ _
      (
        ground (
          arith,
          has-insert_entry y.identity_hash x ys,
          same_codes_sym x.identity_hash y.identity_hash,
        ),
        insert_entry-Distinct x ys (or-false h).1 d,
      )
      (h, (n, d))

pub sort_entries-Distinct : (xs : List RevocationEntry) → Distinct xs → Distinct (sort_entries xs)
unfolding sort_entries
sort_entries-Distinct [] d = tt
sort_entries-Distinct (x ∷ xs) (n, d) =
    insert_entry-Distinct x (sort_entries xs) (has-sort_entries x.identity_hash xs ∙ n)
      (sort_entries-Distinct xs d)

pub add_last-Distinct :
    (xs : List RevocationEntry) (e : RevocationEntry)
    → Distinct xs
    → has_hash e.identity_hash xs ≡ false
    → Distinct (xs ++ (e ∷ []))
unfolding has_hash
add_last-Distinct [] e d h = (refl, tt)
add_last-Distinct (x ∷ xs) e (n, d) h = (
  ground (
    arith,
    has-append x.identity_hash xs (e ∷ []),
    same_codes_sym x.identity_hash e.identity_hash,
  ),
  add_last-Distinct xs e d (ground arith),
)

pub keep-Distinct :
    (p : RevocationEntry → Bool) (xs : List RevocationEntry) → Distinct xs → Distinct (keep p xs)
keep-Distinct p [] d = tt
keep-Distinct p (x ∷ xs) (n, d) =
    pick-Distinct (p x) _ _ (has-keep x.identity_hash p xs n, keep-Distinct p xs d)
      (keep-Distinct p xs d)

remove_at-Distinct : (n : ℕ) (xs : List RevocationEntry) → Distinct xs → Distinct (remove_at n xs)
unfolding remove_at
remove_at-Distinct n [] d = tt
remove_at-Distinct zero (x ∷ xs) (m, d) = d
remove_at-Distinct (suc n) (x ∷ xs) (m, d) =
    (has-remove_at x.identity_hash n xs m, remove_at-Distinct n xs d)

drop_oldest-Distinct : (xs : List RevocationEntry) → Distinct xs → Distinct (drop_oldest xs)
unfolding drop_oldest
drop_oldest-Distinct [] d = tt
drop_oldest-Distinct (x ∷ xs) d = remove_at-Distinct (oldest_position 1 0 x xs) (x ∷ xs) d

pub evict-Distinct : (xs : List RevocationEntry) → Distinct xs → Distinct (evict xs)
unfolding evict
evict-Distinct xs d =
    pick-Distinct (leb max_revocations (length xs)) _ _ (drop_oldest-Distinct xs d) d

-- The room that eviction makes.
newer_below :
    (b : Bool) (position oldest : ℕ)
    → oldest < position
    → (if b then position else oldest) < position + 1
newer_below true position oldest h = omega arith
newer_below false position oldest h = omega (arith, h)

oldest_position-bounded :
    (position oldest : ℕ) (best : RevocationEntry) (rest : List RevocationEntry)
    → oldest < position
    → oldest_position position oldest best rest < position + length rest
unfolding oldest_position
oldest_position-bounded position oldest best [] h = omega (arith, h)
oldest_position-bounded position oldest best (e ∷ rest) h =
    let found = older_revocation e best in
    omega (
      arith,
      oldest_position-bounded (position + 1) (if found then position else oldest)
          (if found then e else best) rest (newer_below found position oldest h),
    )

length-remove_at :
    (n : ℕ) (xs : List RevocationEntry) → n < length xs → suc (length (remove_at n xs)) ≡ length xs
unfolding remove_at
length-remove_at n [] h = absurd (omega arith)
length-remove_at zero (x ∷ xs) h = refl
length-remove_at (suc n) (x ∷ xs) h = omega (arith, length-remove_at n xs (omega (arith, h)))

length-drop_oldest :
    (xs : List RevocationEntry)
    → length xs ≤ max_revocations
    → length (drop_oldest xs) < max_revocations
unfolding drop_oldest
length-drop_oldest [] h = omega arith
length-drop_oldest (x ∷ xs) h = omega (
  arith,
  h,
  length-remove_at (oldest_position 1 0 x xs) (x ∷ xs)
      (omega (arith, oldest_position-bounded 1 0 x xs (omega arith))),
)

pub length-evict :
    (xs : List RevocationEntry) → length xs ≤ max_revocations → length (evict xs) < max_revocations
unfolding evict
length-evict xs h = elim (Bool-cases (leb max_revocations (length xs))) [
  | inl b ↦ rw b (length-drop_oldest xs h)
  | inr b ↦ rw b (ground arith)
]

-- Which hashes stay after keeping some of the entries, whatever their order.
has-kept :
    (h : List ℕ) (p : RevocationEntry → Bool) (x : RevocationEntry) (xs : List RevocationEntry)
    → has_hash h (keep p (x ∷ xs))
      ≡ ((same_codes x.identity_hash h && p x) || has_hash h (keep p xs))
unfolding has_hash
has-kept h p x xs = ground arith

has-keep_insert :
    (h : List ℕ) (p : RevocationEntry → Bool) (x : RevocationEntry) (ys : List RevocationEntry)
    → has_hash h (keep p (insert_entry x ys))
      ≡ ((same_codes x.identity_hash h && p x) || has_hash h (keep p ys))
unfolding insert_entry
has-keep_insert h p x [] = has-kept h p x []
has-keep_insert h p x (y ∷ ys) = ground (
  arith,
  has-kept h p y (insert_entry x ys),
  has-kept h p y ys,
  has-kept h p x (y ∷ ys),
  has-keep_insert h p x ys,
)

pub has-keep_sorted :
    (h : List ℕ) (p : RevocationEntry → Bool) (xs : List RevocationEntry)
    → has_hash h (keep p (sort_entries xs)) ≡ has_hash h (keep p xs)
unfolding sort_entries
has-keep_sorted h p [] = refl
has-keep_sorted h p (x ∷ xs) =
    has-keep_insert h p x (sort_entries xs)
    ∙ (ap (λ b. (same_codes x.identity_hash h && p x) || b) (has-keep_sorted h p xs)
        ∙ sym (has-kept h p x xs))

pub has-keep_last :
    (h : List ℕ) (p : RevocationEntry → Bool) (xs : List RevocationEntry) (e : RevocationEntry)
    → has_hash h (keep p (xs ++ (e ∷ [])))
      ≡ (has_hash h (keep p xs) || (same_codes e.identity_hash h && p e))
unfolding has_hash
has-keep_last h p [] e = ground (arith, has-kept h p e [])
has-keep_last h p (x ∷ xs) e =
    ground (arith, has-kept h p x (xs ++ (e ∷ [])), has-kept h p x xs, has-keep_last h p xs e)

-- Keeping first what a weaker test keeps changes nothing.
pub has-keep_twice :
    (h : List ℕ) (p q : RevocationEntry → Bool) (xs : List RevocationEntry)
    → ((e : RevocationEntry) → p e ≡ true → q e ≡ true)
    → has_hash h (keep p (keep q xs)) ≡ has_hash h (keep p xs)
unfolding has_hash
has-keep_twice h p q [] w = refl
has-keep_twice h p q (x ∷ xs) w =
    ground (arith, w x, has-keep_twice h p q xs w, has-kept h p x (keep q xs), has-kept h p x xs)
