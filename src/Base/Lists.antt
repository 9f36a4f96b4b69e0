-- ===== src/Base/Lists.antt =====
-- Lists measured by native numbers, and sets of texts as lists (a Go `map[string]struct{}`).
use Prim.Native.Nat.{ℕ, suc, ◌+◌}
use Prim.Native.String.{String}
use mathlib.Core.Path.{◌≡◌, refl, ap}
use mathlib.Core.Bool.{Bool, true, false, ◌||◌, ◌&&◌}
use mathlib.Core.List.{List, [], ◌∷◌, ◌++◌}
use native.Mathlib.Omega.{arith}
use text.Mathlib.TextPositions.{eq_refl}
use openlinker_plugin.Base.Tests.{◌==◌, ◌=s=◌}

module _ {ℓ} {A : Type ℓ} where
  abbrev pub length : List A → ℕ
  length [] = 0
  length (x ∷ xs) = suc (length xs)

  pub append_assoc : (xs ys zs : List A) → (xs ++ ys) ++ zs ≡ xs ++ (ys ++ zs)
  append_assoc [] ys zs = refl
  append_assoc (x ∷ xs) ys zs = ap (λ l. x ∷ l) (append_assoc xs ys zs)

  pub length-append : (xs ys : List A) → length (xs ++ ys) ≡ length xs + length ys
  length-append [] ys = omega arith
  length-append (x ∷ xs) ys = omega (arith, length-append xs ys)

abbrev pub All {ℓ κ} : {A : Type ℓ} → (A → Type κ) → List A → Type κ
All P [] = Unit
All P (x ∷ xs) = P x × All P xs

-- `_, found := set[key]`
unfoldable pub has : String → List String → Bool
has key [] = false
has key (x ∷ xs) = x =s= key || has key xs

pub has-cons_self : (key : String) (xs : List String) → has key (key ∷ xs) ≡ true
unfolding has
has-cons_self key xs = ground (arith, eq_refl key)

pub has-cons : (key x : String) (xs : List String) → has key xs ≡ true → has key (x ∷ xs) ≡ true
unfolding has
has-cons key x xs h = ground arith

-- `strings.ContainsRune`
unfoldable pub has_code : ℕ → List ℕ → Bool
has_code c [] = false
has_code c (d ∷ ds) = c == d || has_code c ds

-- Equality of two texts given by their runes.
unfoldable pub same_codes : List ℕ → List ℕ → Bool
same_codes [] [] = true
same_codes (c ∷ cs) (d ∷ ds) = c == d && same_codes cs ds
same_codes _ _ = false

pub same_codes_refl : (cs : List ℕ) → same_codes cs cs ≡ true
unfolding same_codes
same_codes_refl [] = refl
same_codes_refl (c ∷ cs) = ground (arith, same_codes_refl cs)

pub eq_of_same_codes : (cs ds : List ℕ) → same_codes cs ds ≡ true → cs ≡ ds
unfolding same_codes
eq_of_same_codes [] [] h = refl
eq_of_same_codes [] (d ∷ ds) h = cc
eq_of_same_codes (c ∷ cs) [] h = cc
eq_of_same_codes (c ∷ cs) (d ∷ ds) h = ground (arith, eq_of_same_codes cs ds)
