-- ===== src/Runtime/Revocations/Lists.antt =====
-- The lists of revocations: what sorting, evicting and keeping do to the hashes in them.
use openlinker_plugin.Base.{
  ℕ, zero, suc, ◌≡◌, refl, ap, ◌∙◌, Bool, true, false, ◌||◌, List, [], ◌∷◌, ◌++◌, arith, leb,
  if◌then◌else◌, length, same_codes, All, or-false,
}
use openlinker_plugin.Runtime.Revocations.{
  RevocationEntry, max_revocations, has_hash, sorts_before, insert_entry, sort_entries,
  oldest_position, remove_at, drop_oldest, evict,
}

abbrev pub keep : (RevocationEntry → Bool) → List RevocationEntry → List RevocationEntry
keep p [] = []
keep p (e ∷ es) = if p e then e ∷ keep p es else keep p es

-- No hash occurs twice.
abbrev pub Distinct : List RevocationEntry → Type 0
Distinct [] = Unit
Distinct (e ∷ es) = (has_hash e.identity_hash es ≡ false) × Distinct es

pub same_codes_sym : (a b : List ℕ) → same_codes a b ≡ same_codes b a
unfolding same_codes
same_codes_sym [] [] = refl
same_codes_sym [] (d ∷ b) = refl
same_codes_sym (c ∷ a) [] = refl
same_codes_sym (c ∷ a) (d ∷ b) = ground (arith, same_codes_sym a b)

or_swap : (a b c : Bool) → (a || (b || c)) ≡ (b || (a || c))
or_swap a b c = ground arith

-- Sorting.
pub has-insert_entry :
    (h : List ℕ) (x : RevocationEntry) (ys : List RevocationEntry)
    → has_hash h (insert_entry x ys) ≡ (same_codes x.identity_hash h || has_hash h ys)
unfolding has_hash insert_entry
has-insert_entry h x [] = refl
has-insert_entry h x (y ∷ ys) = ground (arith, has-insert_entry h x ys)

pub has-sort_entries :
    (h : List ℕ) (xs : List RevocationEntry) → has_hash h (sort_entries xs) ≡ has_hash h xs
unfolding has_hash sort_entries
has-sort_entries h [] = refl
has-sort_entries h (x ∷ xs) =
    has-insert_entry h x (sort_entries xs)
    ∙ ap (λ b. same_codes x.identity_hash h || b) (has-sort_entries h xs)

length-insert_entry :
    (x : RevocationEntry) (ys : List RevocationEntry) → length (insert_entry x ys) ≡ suc (length ys)
unfolding insert_entry
length-insert_entry x [] = refl
length-insert_entry x (y ∷ ys) = ground (arith, length-insert_entry x ys)

pub length-sort_entries : (xs : List RevocationEntry) → length (sort_entries xs) ≡ length xs
unfolding sort_entries
length-sort_entries [] = refl
length-sort_entries (x ∷ xs) =
    length-insert_entry x (sort_entries xs) ∙ ap suc (length-sort_entries xs)

module _ (P : RevocationEntry → Type 0) where
  if-All :
      (b : Bool) (xs ys : List RevocationEntry) → All P xs → All P ys → All P (if b then xs else ys)
  if-All true xs ys h k = h
  if-All false xs ys h k = k

  All-insert_entry :
      (x : RevocationEntry) (ys : List RevocationEntry) → P x → All P ys → All P (insert_entry x ys)
  unfolding insert_entry
  All-insert_entry x [] h k = (h, tt)
  All-insert_entry x (y ∷ ys) h (k, ks) =
      if-All (sorts_before y x) _ _ (k, All-insert_entry x ys h ks) (h, (k, ks))

  pub All-sort_entries : (xs : List RevocationEntry) → All P xs → All P (sort_entries xs)
  unfolding sort_entries
  All-sort_entries [] h = tt
  All-sort_entries (x ∷ xs) (h, hs) =
      All-insert_entry x (sort_entries xs) h (All-sort_entries xs hs)

  pub All-append : (xs ys : List RevocationEntry) → All P xs → All P ys → All P (xs ++ ys)
  All-append [] ys h k = k
  All-append (x ∷ xs) ys (h, hs) k = (h, All-append xs ys hs k)

  All-remove_at : (n : ℕ) (xs : List RevocationEntry) → All P xs → All P (remove_at n xs)
  unfolding remove_at
  All-remove_at n [] h = tt
  All-remove_at zero (x ∷ xs) (h, hs) = hs
  All-remove_at (suc n) (x ∷ xs) (h, hs) = (h, All-remove_at n xs hs)

  All-drop_oldest : (xs : List RevocationEntry) → All P xs → All P (drop_oldest xs)
  unfolding drop_oldest
  All-drop_oldest [] h = tt
  All-drop_oldest (x ∷ xs) h = All-remove_at (oldest_position 1 0 x xs) (x ∷ xs) h

  pub All-evict : (xs : List RevocationEntry) → All P xs → All P (evict xs)
  unfolding evict
  All-evict xs h = if-All (leb max_revocations (length xs)) _ _ (All-drop_oldest xs h) h

  pub All-keep :
      (p : RevocationEntry → Bool) (xs : List RevocationEntry) → All P xs → All P (keep p xs)
  All-keep p [] h = tt
  All-keep p (x ∷ xs) (h, hs) = if-All (p x) _ _ (h, All-keep p xs hs) (All-keep p xs hs)

-- A hash that no entry has.
abbrev Lacks : List ℕ → List RevocationEntry → Type 0
Lacks h = All (λ e. same_codes e.identity_hash h ≡ false)

lacking : (h : List ℕ) (xs : List RevocationEntry) → has_hash h xs ≡ false → Lacks h xs
unfolding has_hash
lacking h [] k = tt
lacking h (x ∷ xs) k = let (a, b) = or-false k in (a, lacking h xs b)

not_having : (h : List ℕ) (xs : List RevocationEntry) → Lacks h xs → has_hash h xs ≡ false
unfolding has_hash
not_having h [] k = refl
not_having h (x ∷ xs) (a, b) = rw a (not_having h xs b)

pub has-evict :
    (h : List ℕ) (xs : List RevocationEntry) → has_hash h xs ≡ false → has_hash h (evict xs) ≡ false
has-evict h xs k = not_having h (evict xs) (All-evict _ xs (lacking h xs k))

pub has-remove_at :
    (h : List ℕ) (n : ℕ) (xs : List RevocationEntry)
    → has_hash h xs ≡ false
    → has_hash h (remove_at n xs) ≡ false
has-remove_at h n xs k = not_having h (remove_at n xs) (All-remove_at _ n xs (lacking h xs k))

pub has-keep :
    (h : List ℕ) (p : RevocationEntry → Bool) (xs : List RevocationEntry)
    → has_hash h xs ≡ false
    → has_hash h (keep p xs) ≡ false
has-keep h p xs k = not_having h (keep p xs) (All-keep _ p xs (lacking h xs k))

pub has-append :
    (h : List ℕ) (xs ys : List RevocationEntry)
    → has_hash h (xs ++ ys) ≡ (has_hash h xs || has_hash h ys)
unfolding has_hash
has-append h [] ys = refl
has-append h (x ∷ xs) ys = ground (arith, has-append h xs ys)
