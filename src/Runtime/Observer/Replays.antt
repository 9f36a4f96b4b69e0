-- ===== src/Runtime/Observer/Replays.antt =====
-- A request id is answered with an observation at most once while a lease lasts.
use openlinker_plugin.Base.{
  ℕ, String, Bool, true, false, ◌≡◌, ◌≢◌, refl, sym, ap, ◌∙◌, Option, none, some, arith, not, ◌=s=◌,
  if◌then◌else◌, has,
}
use openlinker_plugin.Protocol.OpsObserver.{
  OpsRequest, OpsError, OpsObservation, ParsedUrl, validate_request, is_probe, error_response,
}
use openlinker_plugin.Runtime.Observer.{
  Lease, Manager, admit, admit_request, validate_lease, release,
}
use openlinker_plugin.Runtime.Observer.Connection.{
  Line, Turn, turn, decoded_turn, validated_turn, lease_turn, claimed, checked, observe,
  admit_lease, stop, ttl_too_short, ttl_error, Shared, serve, after_turn, hang_up, set,
}
use openlinker_plugin.Runtime.Observer.Frames.{observation-Shown}
use openlinker_plugin.Runtime.Observer.Holder.{
  Grown, SameLease, TurnEffect, kept, taken, turn-TurnEffect,
}

abbrev pub ShowsNothing : Turn → Type 0
ShowsNothing t = t.response.observation ≡ none

module _ (parse_url : String → Option ParsedUrl) (line : Line) (r : OpsRequest) (l : Lease)
    (seen : has r.request_id l.seen ≡ true) where
  replay_refused : (lease_id : String) → (admit_request (some l) lease_id r.request_id).1 ≢ none
  unfolding admit_request
  replay_refused lease_id h = ground arith

  observe_nothing :
      (a : String) (p : Manager × Option OpsError)
      → p.1 ≢ none
      → ShowsNothing (observe parse_url line a r p)
  unfolding observe error_response
  observe_nothing a (m, some e) h = refl
  observe_nothing a (m, none) h = elim (h refl) [ ]

  claimed_nothing :
      (closed : Bool) → ShowsNothing (claimed parse_url line r (admit_lease closed (some l) r))
  unfolding claimed admit_lease admit error_response
  claimed_nothing true = refl
  claimed_nothing false = refl

  checked_nothing :
      (a : String) (e : Option OpsError) → ShowsNothing (checked parse_url line a r (some l) e)
  unfolding checked error_response
  checked_nothing a (some e) = refl
  checked_nothing a none =
      observe_nothing a (admit_request (some l) r.observer_lease_id r.request_id)
        (replay_refused r.observer_lease_id)

  if_nothing :
      (b : Bool) (t u : Turn) → ShowsNothing t → ShowsNothing u → ShowsNothing (if b then t else u)
  if_nothing true t u h k = h
  if_nothing false t u h k = k

  lease_nothing : (a : String) → ShowsNothing (lease_turn parse_url line a r (some l))
  unfolding lease_turn error_response
  lease_nothing a =
      if_nothing (a =s= "") _ _
        (if_nothing (ttl_too_short line r) (stop (some l) a r.request_id ttl_error)
          (claimed parse_url line r (admit_lease line.closed (some l) r)) refl
          (claimed_nothing line.closed))
        (checked_nothing a (validate_lease (some l) line.lease_now r))

  validated_nothing :
      (a : String) (e : Option OpsError)
      → ShowsNothing (validated_turn parse_url line a r (some l) e)
  unfolding validated_turn error_response
  validated_nothing a (some e) = refl
  validated_nothing a none = if_nothing (is_probe r.operation) _ _ refl (lease_nothing a)

  decoded_nothing :
      (credential a : String)
      → ShowsNothing (decoded_turn parse_url credential line a (some l) (some r))
  unfolding decoded_turn error_response
  decoded_nothing credential a =
      if_nothing (not (r.channel_credential =s= credential)) _ _ refl
        (validated_nothing a (validate_request r line.now))

module _ (parse_url : String → Option ParsedUrl) (credential : String) where
  -- The states that follow `s` while its lease lasts.
  pub data Lasting (s : Shared) : Shared → Type 0 where
    same : Lasting s s
    line_read :
        {t : Shared} (c : ℕ) (line : Line)
        → Lasting s t
        → (serve parse_url credential t c line).manager ≢ none
        → Lasting s (serve parse_url credential t c line)
    broken :
        {t : Shared} (c : ℕ) → Lasting s t → (hang_up t c).manager ≢ none → Lasting s (hang_up t c)

  -- The manager of a lease that has forgotten none of the ids of `l`.
  record Remembers (l : Lease) (m : Manager) : Type 0 where
    lease : Lease
    live : m ≡ some lease
    grown : Grown l lease

  release_keeps :
      (k : Lease) (m : Manager) (a : String)
      → m ≡ some k
      → release m a ≢ none
      → release m a ≡ some k
  unfolding release
  release_keeps k none a e n = cc
  release_keeps k (some v) a e n = ground arith

  hang_up_keeps :
      (s : Shared) (c : ℕ) (k : Lease)
      → s.manager ≡ some k
      → (hang_up s c).manager ≢ none
      → (hang_up s c).manager ≡ some k
  unfolding hang_up
  hang_up_keeps s c k e = by_claim (s.admitted c =s= "")
    where
      by_claim :
          (b : Bool)
          → (if b then s.manager else release s.manager (s.admitted c)) ≢ none
          → (if b then s.manager else release s.manager (s.admitted c)) ≡ some k
      by_claim true n = e
      by_claim false n = release_keeps k s.manager (s.admitted c) e n

  hang_up-Remembers :
      (l : Lease) (s : Shared) (c : ℕ)
      → Remembers l s.manager
      → (hang_up s c).manager ≢ none
      → Remembers l (hang_up s c).manager
  hang_up-Remembers l s c h n = record {
    lease = h.lease;
    live = hang_up_keeps s c h.lease h.live n;
    grown = h.grown;
  }

  same-Remembers :
      (l k : Lease) (m n : Manager) → m ≡ some k → Grown l k → SameLease m n → Remembers l n
  same-Remembers l k (some v) (some w) e g h = record {
    lease = w;
    live = refl;
    grown = λ x q. h.1 x (rw (known e) (g x q));
  }
    where
      known : some v ≡ some k → v ≡ k
      known p = cc
  same-Remembers l k (some v) none e g h = elim h [ ]
  same-Remembers l k none n e g h = cc

  effect-Remembers :
      (l : Lease) (a : String) (m : Manager) (t : Turn)
      → Remembers l m
      → TurnEffect a m t
      → Remembers l t.manager
  effect-Remembers l a m t h (kept k) =
      same-Remembers l h.lease m t.manager h.live h.grown k.same_lease
  effect-Remembers l a m t h (taken v e q p z n) = elim (clash h.live q) [ ]
    where
      clash : m ≡ some h.lease → m ≡ none → ⊥
      clash x y = cc

  if-Remembers :
      (l : Lease) (b : Bool) (x y : Shared)
      → Remembers l x.manager
      → (y.manager ≢ none → Remembers l y.manager)
      → (if b then x else y).manager ≢ none
      → Remembers l (if b then x else y).manager
  if-Remembers l true x y h k n = h
  if-Remembers l false x y h k n = k n

  after-Remembers :
      (l : Lease) (c : ℕ) (s : Shared) (t : Turn)
      → Remembers l t.manager
      → (after_turn c s t).manager ≢ none
      → Remembers l (after_turn c s t).manager
  unfolding after_turn
  after-Remembers l c s t h =
      let u : Shared = record { manager = t.manager; admitted = set s.admitted c t.admitted } in
      if-Remembers l t.continues u (hang_up u c) h (λ n. hang_up-Remembers l u c h n)

  serve-Remembers :
      (l : Lease) (s : Shared) (c : ℕ) (line : Line)
      → Remembers l s.manager
      → (serve parse_url credential s c line).manager ≢ none
      → Remembers l (serve parse_url credential s c line).manager
  unfolding serve
  serve-Remembers l s c line h =
      after-Remembers l c s (turn parse_url credential line (s.admitted c) s.manager) (
        effect-Remembers l (s.admitted c) s.manager
          (turn parse_url credential line (s.admitted c) s.manager) h
          (turn-TurnEffect parse_url credential line (s.admitted c) s.manager))

  Lasting-Remembers :
      (l : Lease) (s t : Shared) → s.manager ≡ some l → Lasting s t → Remembers l t.manager
  Lasting-Remembers l s t e same = record { lease = l; live = e; grown = λ x h. h }
  Lasting-Remembers l s t e (line_read {t = u} c line h n) =
      serve-Remembers l u c line (Lasting-Remembers l s u e h) n
  Lasting-Remembers l s t e (broken {t = u} c h n) =
      hang_up-Remembers l u c (Lasting-Remembers l s u e h) n

  seen-ShowsNothing :
      (line : Line) (a : String) (m : Manager) (l : Lease) (r : OpsRequest)
      → line.request ≡ some r
      → m ≡ some l
      → has r.request_id l.seen ≡ true
      → ShowsNothing (turn parse_url credential line a m)
  unfolding turn
  seen-ShowsNothing line a m l r e f h =
      rw (e, f) (decoded_nothing parse_url line r l h credential a)

  -- Once a turn has answered a request with an observation, then while the lease lasts that the
  -- turn left, whatever lines are read and connections break, no turn on any connection answers a
  -- request of the same id with an observation.
  pub observation_shown_once :
      (line line' : Line) (a : String) (m : Manager) (o : OpsObservation) (s t : Shared) (c : ℕ)
      (r r' : OpsRequest)
      → line.request ≡ some r
      → (turn parse_url credential line a m).response.observation ≡ some o
      → s.manager ≡ (turn parse_url credential line a m).manager
      → Lasting s t
      → line'.request ≡ some r'
      → r'.request_id ≡ r.request_id
      → ShowsNothing (turn parse_url credential line' (t.admitted c) t.manager)
  observation_shown_once line line' a m o s t c r r' e shown left h e' same_id =
      let first = observation-Shown parse_url credential line a m o shown in
      let later = Lasting-Remembers first.lease s t (left ∙ first.live) h in
      seen-ShowsNothing line' (t.admitted c) t.manager later.lease r' e' later.live (
        later.grown r'.request_id (
          ap (λ x. has x first.lease.seen)
            (same_id ∙ ap (λ x. x.request_id) (one (sym e ∙ first.read)))
          ∙ first.admitted))
    where
      one : {x y : OpsRequest} → some x ≡ some y → x ≡ y
      one p = cc
