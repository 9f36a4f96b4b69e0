-- ===== src/Runtime/Observer/Exclusive.antt =====
-- The lease is held by exactly one open connection, and is never left behind.
use openlinker_plugin.Base.{
  ℕ, String, Bool, true, false, ◌≡◌, ◌≢◌, ◌⊎◌, inl, inr, refl, sym, ap, ◌∙◌, Option, none, some,
  arith, ◌=s=◌, if◌then◌else◌, Bool-cases, eq_iff, eq_refl, ==_iff, ◌==◌,
}
use openlinker_plugin.Protocol.OpsObserver.{ParsedUrl}
use openlinker_plugin.Runtime.Observer.{Lease, Manager, release}
use openlinker_plugin.Runtime.Observer.Connection.{
  Line, Turn, turn, Shared, set, hang_up, after_turn, serve,
}
use openlinker_plugin.Runtime.Observer.Holder.{
  Keeps, SameLease, TurnEffect, kept, taken, turn-TurnEffect,
}

-- No lease and no connection that claims one; or a lease that one connection claims and no other
-- connection claims any.
pub data Held (s : Shared) : Type 0 where
  idle : s.manager ≡ none → ((d : ℕ) → s.admitted d ≡ "") → Held s
  held :
      (l : Lease) (c : ℕ)
      → s.manager ≡ some l
      → s.admitted c ≡ l.id
      → l.id ≢ ""
      → ((d : ℕ) → d ≢ c → s.admitted d ≡ "")
      → Held s

set_self : (f : ℕ → String) (c : ℕ) (v : String) (d : ℕ) → v ≡ f c → set f c v d ≡ f d
set_self f c v d h = elim (Bool-cases (d == c)) [
  | inl e ↦ rw e (h ∙ ap f (sym ((==_iff d c).0 e)))
  | inr e ↦ ground arith
]

set-other : (f : ℕ → String) (c : ℕ) (v : String) (d : ℕ) → d ≢ c → set f c v d ≡ f d
set-other f c v d h = ground arith

set-at : (f : ℕ → String) (c : ℕ) (v : String) → set f c v c ≡ v
set-at f c v = ground arith

SameLease-none : (m n : Manager) → m ≡ none → SameLease m n → n ≡ none
SameLease-none none none e h = refl
SameLease-none none (some y) e h = elim h [ ]
SameLease-none (some x) n e h = cc

SameLease-some :
    (m n : Manager) (l : Lease)
    → m ≡ some l
    → SameLease m n
    → (v : Lease) × ((n ≡ some v) × (l.id ≡ v.id))
SameLease-some (some x) (some y) l e h = (y, (refl, ap (λ z. z.id) (same e) ∙ h.0))
  where
    same : some x ≡ some l → l ≡ x
    same p = cc
SameLease-some (some x) none l e h = elim h [ ]
SameLease-some none n l e h = cc

module _ (s : Shared) (c : ℕ) (t : Turn) where
  -- The lease and the claims after the turn, before any hang-up.
  abbrev turned : Shared
  turned = record { manager = t.manager; admitted = set s.admitted c t.admitted }

  kept-Held : Held s → Keeps (s.admitted c) s.manager t → Held turned
  kept-Held (idle free all) k =
      idle (SameLease-none s.manager t.manager free k.same_lease)
        (λ d. set_self s.admitted c t.admitted d k.same_claim ∙ all d)
  kept-Held (held l d m a n others) k =
      let (v, (q, h)) = SameLease-some s.manager t.manager l m k.same_lease in
      held v d q (set_self s.admitted c t.admitted d k.same_claim ∙ a ∙ h) (λ z. n (h ∙ z))
        (λ e x. set_self s.admitted c t.admitted e k.same_claim ∙ others e x)

  turned-Held : Held s → TurnEffect (s.admitted c) s.manager t → Held turned
  turned-Held h (kept k) = kept-Held h k
  turned-Held (idle free all) (taken l e m q a n) =
      held l c q (set-at s.admitted c t.admitted ∙ a) n
        (λ d x. set-other s.admitted c t.admitted d x ∙ all d)
  turned-Held (held v d m' b n' others) (taken l e m q a n) = cc

-- A connection that claims a lease is the one that holds it.
same_connection :
    (f : ℕ → String) (c d : ℕ) → (f c =s= "") ≡ false → ((e : ℕ) → e ≢ d → f e ≡ "") → c ≡ d
same_connection f c d e others = elim (Bool-cases (c == d)) [
  | inl same ↦ (==_iff c d).0 same
  | inr apart ↦ elim (clash (others c (λ z. differ (rw z refl) apart)) e) [ ]
]
  where
    differ : (c == d) ≡ (d == d) → (c == d) ≡ false → ⊥
    differ p q = ground arith

    clash : f c ≡ "" → (f c =s= "") ≡ false → ⊥
    clash p q = ground (arith, eq_iff (f c) "")

released : (l : Lease) (a : String) → a ≡ l.id → release (some l) a ≡ none
unfolding release
released l a e = rw (e, eq_refl l.id) refl

hang_up-Held : (s : Shared) (c : ℕ) → Held s → Held (hang_up s c)
unfolding hang_up
hang_up-Held s c (idle free all) =
    idle (rw (all c) free) (λ d. set_self s.admitted c "" d (sym (all c)) ∙ all d)
hang_up-Held s c (held l d m a n others) = elim (Bool-cases (s.admitted c =s= "")) [
  | inl e ↦
      held l d (rw e m) (set_self s.admitted c "" d (sym ((eq_iff (s.admitted c) "").0 e)) ∙ a) n
        (λ g x. set_self s.admitted c "" g (sym ((eq_iff (s.admitted c) "").0 e)) ∙ others g x)
  | inr e ↦
      let same = same_connection s.admitted c d e others in
      idle (rw (e, m) (released l (s.admitted c) (ap s.admitted same ∙ a)))
        (λ g. cleared g (==_cases g c) (λ x. others g (λ z. x (z ∙ sym same))))
]
  where
    ==_cases : (g c : ℕ) → (g ≡ c) ⊎ (g ≢ c)
    ==_cases g c = ground arith

    cleared : (g : ℕ) → (g ≡ c) ⊎ (g ≢ c) → (g ≢ c → s.admitted g ≡ "") → set s.admitted c "" g ≡ ""
    cleared g (inl e) h = rw e (set-at s.admitted c "")
    cleared g (inr e) h = set-other s.admitted c "" g e ∙ h e

after_turn-Held :
    (s : Shared) (c : ℕ) (t : Turn)
    → Held s
    → TurnEffect (s.admitted c) s.manager t
    → Held (after_turn c s t)
unfolding after_turn
after_turn-Held s c t h e = by_loop t.continues
  where
    by_loop : (b : Bool) → Held (if b then turned s c t else hang_up (turned s c t) c)
    by_loop true = turned-Held s c t h e
    by_loop false = hang_up-Held (turned s c t) c (turned-Held s c t h e)

module _ (parse_url : String → Option ParsedUrl) (credential : String) where
  -- The states that lines on connections and broken connections lead to.
  pub data Served : Shared → Type 0 where
    fresh : Served (record { manager = none; admitted = λ c. "" })
    line_read :
        {s : Shared} (c : ℕ) (line : Line) → Served s → Served (serve parse_url credential s c line)
    broken : {s : Shared} (c : ℕ) → Served s → Served (hang_up s c)

  -- However the lines of all connections interleave, and wherever connections break: there is no
  -- lease and no connection claims one, or the lease is claimed by exactly one connection, under
  -- the lease's own name, which is not empty. So the lease is never shared and never left behind.
  pub lease-Held : (s : Shared) → Served s → Held s
  unfolding serve
  lease-Held s fresh = idle refl (λ d. refl)
  lease-Held s (line_read {s = r} c line h) =
      after_turn-Held r c (turn parse_url credential line (r.admitted c) r.manager) (lease-Held r h)
        (turn-TurnEffect parse_url credential line (r.admitted c) r.manager)
  lease-Held s (broken {s = r} c h) = hang_up-Held r c (lease-Held r h)
