-- ===== src/Base/Order.antt =====
-- Go's `<` on strings (bytewise, which for UTF-8 is the order of the runes), and lists in which
-- each element stands before the next.
use Prim.Native.Nat.{ℕ}
use Prim.Native.String.{String}
use mathlib.Core.Path.{◌≡◌, refl}
use mathlib.Core.Bool.{Bool, true, false, ◌||◌, ◌&&◌}
use mathlib.Core.List.{List, [], ◌∷◌}
use mathlib.Core.Option.{Option, none, some}
use native.Mathlib.Omega.{arith}
use openlinker_plugin.Base.Tests.{ltb, ◌==◌, and-true}
use openlinker_plugin.Base.Lists.{All}
use openlinker_plugin.Base.Text.{codes}

unfoldable pub less_codes : List ℕ → List ℕ → Bool
less_codes [] [] = false
less_codes [] (d ∷ ds) = true
less_codes (c ∷ cs) [] = false
less_codes (c ∷ cs) (d ∷ ds) = ltb c d || (c == d && less_codes cs ds)

abbrev pub less_text : String → String → Bool
less_text a b = less_codes (codes a) (codes b)

pub less_codes_trans :
    (a b c : List ℕ) → less_codes a b ≡ true → less_codes b c ≡ true → less_codes a c ≡ true
unfolding less_codes
less_codes_trans [] [] c h k = k
less_codes_trans [] (y ∷ b) [] h k = cc
less_codes_trans [] (y ∷ b) (z ∷ c) h k = refl
less_codes_trans (x ∷ a) [] c h k = cc
less_codes_trans (x ∷ a) (y ∷ b) [] h k = cc
less_codes_trans (x ∷ a) (y ∷ b) (z ∷ c) h k = ground (arith, less_codes_trans a b c)

pub less_codes_irrefl : (a : List ℕ) → less_codes a a ≡ false
unfolding less_codes
less_codes_irrefl [] = refl
less_codes_irrefl (x ∷ a) = ground (arith, less_codes_irrefl a)

-- Every element stands before each later one.
abbrev pub Ordered {ℓ} : {A : Type ℓ} → (A → A → Bool) → List A → Type ℓ
Ordered before [] = Unit
Ordered before (x ∷ xs) = All (λ y. before x y ≡ true) xs × Ordered before xs

module _ {ℓ} {A : Type ℓ} (before : A → A → Bool) where
  -- A loop that compares an element with the one before it.
  abbrev pub follows : Option A → A → Bool
  follows none x = true
  follows (some previous) x = before previous x

  unfoldable pub chain : Option A → List A → Bool
  chain previous [] = true
  chain previous (x ∷ xs) = follows previous x && chain (some x) xs

pub and-intro : {a b : Bool} → a ≡ true → b ≡ true → (a && b) ≡ true
and-intro {a} {b} h k = ground arith

pub All-map {ℓ κ μ} :
    {A : Type ℓ} {P : A → Type κ} {Q : A → Type μ}
    → ((x : A) → P x → Q x)
    → (xs : List A) → All P xs
    → All Q xs
All-map f [] h = tt
All-map f (x ∷ xs) (p, ps) = (f x p, All-map f xs ps)

module _ {ℓ} {A : Type ℓ} (before : A → A → Bool) where
  Ordered-chain :
      (p : A) (xs : List A)
      → All (λ y. before p y ≡ true) xs
      → Ordered before xs
      → chain before (some p) xs ≡ true
  unfolding chain
  Ordered-chain p [] h o = refl
  Ordered-chain p (x ∷ xs) (first, h) (after, o) = and-intro first (Ordered-chain x xs after o)

  pub Ordered-chain-none : (xs : List A) → Ordered before xs → chain before none xs ≡ true
  unfolding chain
  Ordered-chain-none [] o = refl
  Ordered-chain-none (x ∷ xs) (after, o) = Ordered-chain x xs after o

module _ {ℓ} {A : Type ℓ} (before : A → A → Bool)
    (trans : (x y z : A) → before x y ≡ true → before y z ≡ true → before x z ≡ true) where
  chain-after :
      (p : A) (xs : List A) → chain before (some p) xs ≡ true → All (λ y. before p y ≡ true) xs
  unfolding chain
  chain-after p [] h = tt
  chain-after p (x ∷ xs) h =
      let (first, rest) = and-true h in
      (first, All-map (λ y k. trans p x y first k) xs (chain-after x xs rest))

  pub chain-Ordered :
      (previous : Option A) (xs : List A) → chain before previous xs ≡ true → Ordered before xs
  unfolding chain
  chain-Ordered previous [] h = tt
  chain-Ordered previous (x ∷ xs) h =
      let (first, rest) = and-true h in (chain-after x xs rest, chain-Ordered (some x) xs rest)
