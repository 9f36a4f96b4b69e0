-- ===== src/Runtime/Scope/Injective.antt =====
-- The scope texts tell attachments apart.
use mathlib.Core.Path.{ap₂}
use text.Mathlib.TextEquality.{Char-path}
use openlinker_plugin.Base.{
  ℕ, zero, suc, ◌+◌, ◌-◌, ◌*◌, ◌/◌, ◌%◌, ◌<◌, String, ◌≡◌, refl, ap, sym, ◌∙◌, true, false, List,
  [], ◌∷◌, ◌++◌, arith, ltb, ◌==◌, codes, All, Bool-cases, inl, inr,
}
use openlinker_plugin.Protocol.Types.{Identity}
use openlinker_plugin.Protocol.Identifiers.{is_valid_uuid, uuid-no_bar}
use openlinker_plugin.Runtime.Scope.{decimal_fuel, decimal, bar, attachment_request_scope}

abbrev NoBar : List ℕ → Type 0
NoBar cs = All (λ c. (c == bar) ≡ false) cs

split_bar :
    (xs ys xs' ys' : List ℕ)
    → NoBar xs
    → NoBar xs'
    → xs ++ (bar ∷ ys) ≡ xs' ++ (bar ∷ ys')
    → (xs ≡ xs') × (ys ≡ ys')
split_bar [] ys [] ys' p q h = (refl, ground arith)
split_bar [] ys (x ∷ xs') ys' p q h = ground arith
split_bar (x ∷ xs) ys [] ys' p q h = ground arith
split_bar (x ∷ xs) ys (x' ∷ xs') ys' p q h = ground (arith, split_bar xs ys xs' ys' p.1 q.1)

codes_injective : (s t : String) → codes s ≡ codes t → s ≡ t
codes_injective String.[] String.[] h = refl
codes_injective String.[] (String.◌∷◌ d t) h = cc
codes_injective (String.◌∷◌ c s) String.[] h = cc
codes_injective (String.◌∷◌ c s) (String.◌∷◌ d t) h =
    ap₂ String.◌∷◌ (Char-path c d (cc)) (codes_injective s t (cc))

-- The number that digits stand for.
from_digits : ℕ → List ℕ → ℕ
from_digits acc [] = acc
from_digits acc (c ∷ cs) = from_digits (acc * 10 + (c - b'0')) cs

from_digits-append :
    (acc : ℕ) (cs : List ℕ) (c : ℕ)
    → from_digits acc (cs ++ c ∷ []) ≡ from_digits acc cs * 10 + (c - b'0')
unfolding from_digits
from_digits-append acc [] c = refl
from_digits-append acc (d ∷ cs) c = from_digits-append (acc * 10 + (d - b'0')) cs c

from_digits-decimal : (f n : ℕ) → n < f → from_digits 0 (decimal_fuel f n) ≡ n
unfolding decimal_fuel from_digits
from_digits-decimal zero n h = elim h [ ]
from_digits-decimal (suc f) n h = elim (Bool-cases (ltb n 10)) [
  | inl small ↦ rw small (omega arith)
  | inr large ↦
      rw (large, from_digits-append 0 (decimal_fuel f (n / 10)) (b'0' + n % 10))
        (ground (arith, from_digits-decimal f (n / 10)))
]

decimal_injective : (m n : ℕ) → decimal m ≡ decimal n → m ≡ n
unfolding decimal
decimal_injective m n h =
    sym (from_digits-decimal (suc m) m (omega arith))
    ∙ (ap (from_digits 0) h ∙ from_digits-decimal (suc n) n (omega arith))

NoBar-append : (xs : List ℕ) (c : ℕ) → NoBar xs → (c == bar) ≡ false → NoBar (xs ++ c ∷ [])
NoBar-append [] c p q = (q, tt)
NoBar-append (x ∷ xs) c p q = (p.0, NoBar-append xs c p.1 q)

NoBar-decimal_fuel : (f n : ℕ) → NoBar (decimal_fuel f n)
unfolding decimal_fuel
NoBar-decimal_fuel zero n = tt
NoBar-decimal_fuel (suc f) n = elim (Bool-cases (ltb n 10)) [
  | inl small ↦ rw small (ground arith, tt)
  | inr large ↦ rw large (
      NoBar-append (decimal_fuel f (n / 10)) (b'0' + n % 10) (NoBar-decimal_fuel f (n / 10))
        (ground arith))
]

NoBar-decimal : (n : ℕ) → NoBar (decimal n)
unfolding decimal
NoBar-decimal n = NoBar-decimal_fuel (suc n) n

-- Two identities with valid Run and attachment ids have the same attachment scope only if they
-- agree in Run, attachment, Session epoch and control epoch.
pub attachment_request_scope_injective :
    (a b : Identity)
    → is_valid_uuid a.run_id ≡ true
    → is_valid_uuid a.attachment_id ≡ true
    → is_valid_uuid b.run_id ≡ true
    → is_valid_uuid b.attachment_id ≡ true
    → attachment_request_scope a ≡ attachment_request_scope b
    → (a.run_id ≡ b.run_id)
      × (a.attachment_id ≡ b.attachment_id)
      × (a.session_epoch ≡ b.session_epoch)
      × (a.control_epoch ≡ b.control_epoch)
unfolding attachment_request_scope
attachment_request_scope_injective a b ar aa br ba h =
    let (run, h₁) =
      split_bar (codes a.run_id) _ (codes b.run_id) _ (uuid-no_bar a.run_id ar)
        (uuid-no_bar b.run_id br) h in
    let (attachment, h₂) =
      split_bar (codes a.attachment_id) _ (codes b.attachment_id) _ (uuid-no_bar a.attachment_id aa)
        (uuid-no_bar b.attachment_id ba) h₁ in
    let (session, control) =
      split_bar (decimal a.session_epoch) _ (decimal b.session_epoch) _
        (NoBar-decimal a.session_epoch) (NoBar-decimal b.session_epoch) h₂ in
    (
      codes_injective a.run_id b.run_id run,
      codes_injective a.attachment_id b.attachment_id attachment,
      decimal_injective a.session_epoch b.session_epoch session,
      decimal_injective a.control_epoch b.control_epoch control,
    )
