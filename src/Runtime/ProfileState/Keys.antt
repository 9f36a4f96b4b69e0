-- ===== src/Runtime/ProfileState/Keys.antt =====
-- The keys that a validation has met, and those still to come.
use openlinker_plugin.Base.{
  String, ◌≡◌, sym, inl, inr, refl, false, List, [], ◌∷◌, arith, All, All-map, has, ◌=s=◌, eq_iff,
  or-false, Bool-cases,
}

-- No key occurs twice.
abbrev pub DistinctKeys : List String → Type 0
DistinctKeys [] = Unit
DistinctKeys (key ∷ keys) = (has key keys ≡ false) × DistinctKeys keys

text_differs : (a b : String) → (a =s= b) ≡ false → (b =s= a) ≡ false
text_differs a b h = elim (Bool-cases (b =s= a)) [
  | inl e ↦ ground (arith, (eq_iff a b).1 (sym ((eq_iff b a).0 e)))
  | inr n ↦ n
]

-- No key of the list is among those seen.
abbrev pub Fresh : List String → List String → Type 0
Fresh seen keys = All (λ key. has key seen ≡ false) keys

pub Fresh-below :
    (key : String) (seen keys : List String) → Fresh (key ∷ seen) keys → Fresh seen keys
unfolding has
Fresh-below key seen keys f = All-map (λ k h. (or-false h).1) keys f

pub not_among :
    (key : String) (seen keys : List String) → Fresh (key ∷ seen) keys → has key keys ≡ false
unfolding has
not_among key seen [] f = refl
not_among key seen (k ∷ ks) (f, fs) = ground (arith, not_among key seen ks fs, text_differs key k)

pub Fresh-with :
    (key : String) (seen keys : List String)
    → Fresh seen keys
    → has key keys ≡ false
    → Fresh (key ∷ seen) keys
unfolding has
Fresh-with key seen [] f n = tt
Fresh-with key seen (k ∷ ks) (f, fs) n =
    (ground (arith, text_differs k key), Fresh-with key seen ks fs (ground arith))

pub nothing_seen : (keys : List String) → Fresh [] keys
unfolding has
nothing_seen [] = tt
nothing_seen (k ∷ ks) = (refl, nothing_seen ks)
