-- ===== src/Runtime/Observer/Holder.antt =====
-- The lease is held by exactly one open connection, and is never left behind.
use openlinker_plugin.Base.{
  has, has-cons, leb, length, ℕ, String, Bool, true, false, ◌≡◌, ◌≢◌, refl, sym, ◌∙◌, not, Option,
  none, some, [], ◌=s=◌, if◌then◌else◌, eq_iff,
}
use openlinker_plugin.Protocol.OpsObserver.{
  OpsRequest, OpsError, OpsObservation, ParsedUrl, validate_request, is_probe, validate_observation,
  validated_lease,
}
use openlinker_plugin.Runtime.Observer.{
  Lease, Manager, Sequenced, stale, sequenced, admit, validate_lease, admit_request, next_sequence,
  max_ops_observer_requests_per_lease,
}
use openlinker_plugin.Runtime.Observer.Connection.{
  Observed, refused, occupied, observed, Line, Turn, admit_lease, number, report, observe, claimed,
  checked, lease_turn, validated_turn, decoded_turn, turn, answered,
}

-- No request id is forgotten.
abbrev pub Grown : Lease → Lease → Type 0
Grown l k = (x : String) → has x l.seen ≡ true → has x k.seen ≡ true

-- The same lease is held, or none.
abbrev pub SameLease : Manager → Manager → Type 0
SameLease none none = Unit
SameLease (some l) (some k) = (l.id ≡ k.id) × Grown l k
SameLease _ _ = ⊥

SameLease-self : (m : Manager) → SameLease m m
SameLease-self none = tt
SameLease-self (some l) = (refl, λ x h. h)

-- A turn keeps the lease and the connection's claim on it.
pub record Keeps (admitted : String) (m : Manager) (t : Turn) : Type 0 where
  pub same_claim : t.admitted ≡ admitted
  pub same_lease : SameLease m t.manager

if-SameLease :
    {E : Type 0} (l : Lease) (b : Bool) (x y : Manager × E)
    → SameLease (some l) x.0
    → SameLease (some l) y.0
    → SameLease (some l) (if b then x else y).0
if-SameLease l true x y p q = p
if-SameLease l false x y p q = q

admit_request-same :
    (m : Manager) (lease_id request_id : String)
    → SameLease m (admit_request m lease_id request_id).0
unfolding admit_request
admit_request-same none lease_id request_id = tt
admit_request-same (some l) lease_id request_id =
    if-SameLease l (not (l.id =s= lease_id)) _ _ (refl, λ x h. h)
      (if-SameLease l (has request_id l.seen) _ _ (refl, λ x h. h)
        (if-SameLease l (leb max_ops_observer_requests_per_lease (length l.seen)) _ _
          (refl, λ x h. h) (refl, λ x h. has-cons x request_id l.seen h)))

next_sequence-same : (m : Manager) (lease_id : String) → SameLease m (next_sequence m lease_id).0
unfolding next_sequence
next_sequence-same none lease_id = tt
next_sequence-same (some l) lease_id =
    if-SameLease l (not (l.id =s= lease_id)) _ _ (refl, λ x h. h) (refl, λ x h. h)

SameLease-trans : (a b c : Manager) → SameLease a b → SameLease b c → SameLease a c
SameLease-trans none none none p q = tt
SameLease-trans (some x) (some y) (some z) p q = (p.0 ∙ q.0, λ w h. q.1 w (p.1 w h))
SameLease-trans (some x) (some y) none p q = elim q [ ]
SameLease-trans (some x) none c p q = elim p [ ]
SameLease-trans none (some y) c p q = elim p [ ]
SameLease-trans none none (some z) p q = elim q [ ]

-- A turn keeps the claim and the lease, or claims a free lease under a name that is not empty.
pub data TurnEffect (a : String) (m : Manager) (t : Turn) : Type 0 where
  kept : Keeps a m t → TurnEffect a m t
  taken :
      (l : Lease)
      → a ≡ ""
      → m ≡ none
      → t.manager ≡ some l
      → t.admitted ≡ l.id
      → l.id ≢ ""
      → TurnEffect a m t

module _ (parse_url : String → Option ParsedUrl) where
  answered-Keeps :
      (m : Manager) (a : String) (r : OpsRequest) (o : OpsObservation) (e : Option OpsError)
      → Keeps a m (answered parse_url m a r o e)
  answered-Keeps m a r o (some e) = record { same_claim = refl; same_lease = SameLease-self m }
  answered-Keeps m a r o none = record { same_claim = refl; same_lease = SameLease-self m }

  number-Keeps :
      (at : ℕ) (a : String) (r : OpsRequest) (o : OpsObservation) (m : Manager)
      (p : Manager × Sequenced)
      → SameLease m p.0
      → Keeps a m (number parse_url at a r o p)
  unfolding number
  number-Keeps at a r o m (n, stale e) h = record { same_claim = refl; same_lease = h }
  number-Keeps at a r o m (n, sequenced k) h =
      let frame : OpsObservation = record o { frame_sequence = k; captured_at = at } in
      let kept = answered-Keeps n a r frame (validate_observation parse_url frame r.operation) in
      record { same_claim = kept.same_claim; same_lease = SameLease-trans m n _ h kept.same_lease }

  report-Keeps :
      (at : ℕ) (a : String) (r : OpsRequest) (m n : Manager) (e : Observed)
      → SameLease m n
      → Keeps a m (report parse_url at a r n e)
  unfolding report
  report-Keeps at a r m n (refused e) h = record { same_claim = refl; same_lease = h }
  report-Keeps at a r m n occupied h = record { same_claim = refl; same_lease = h }
  report-Keeps at a r m n (observed o) h =
      number-Keeps at a r o m (next_sequence n r.observer_lease_id)
        (SameLease-trans m n _ h (next_sequence-same n r.observer_lease_id))

  observe-Keeps :
      (line : Line) (a : String) (r : OpsRequest) (m : Manager) (p : Manager × Option OpsError)
      → SameLease m p.0
      → Keeps a m (observe parse_url line a r p)
  unfolding observe
  observe-Keeps line a r m (n, some e) h = record { same_claim = refl; same_lease = h }
  observe-Keeps line a r m (n, none) h = report-Keeps line.captured_at a r m n line.engine h

  checked-Keeps :
      (line : Line) (a : String) (r : OpsRequest) (m : Manager) (e : Option OpsError)
      → Keeps a m (checked parse_url line a r m e)
  unfolding checked
  checked-Keeps line a r m (some e) = record { same_claim = refl; same_lease = SameLease-self m }
  checked-Keeps line a r m none =
      observe-Keeps line a r m (admit_request m r.observer_lease_id r.request_id)
        (admit_request-same m r.observer_lease_id r.request_id)

  claimed_effect :
      (l : Lease) (r : OpsRequest) (m : Manager) (a : String) (t : Turn)
      → a ≡ ""
      → m ≡ none
      → l.id ≡ r.observer_lease_id
      → l.id ≢ ""
      → Keeps r.observer_lease_id (some l) t
      → TurnEffect a m t
  claimed_effect l r m a t e f g n k = by_manager t.manager refl k.same_lease
    where
      by_manager : (u : Manager) → t.manager ≡ u → SameLease (some l) u → TurnEffect a m t
      by_manager none q h = elim h [ ]
      by_manager (some v) q h = taken v e f q (k.same_claim ∙ sym g ∙ h.0) (λ z. n (h.0 ∙ z))

  claimed-TurnEffect :
      (line : Line) (r : OpsRequest) (closed : Bool) (m : Manager)
      → r.observer_lease_id ≢ ""
      → TurnEffect "" m (claimed parse_url line r (admit_lease closed m r))
  unfolding claimed admit_lease admit
  claimed-TurnEffect line r true m n =
      kept (record { same_claim = refl; same_lease = SameLease-self m })
  claimed-TurnEffect line r false (some l) n =
      kept (record { same_claim = refl; same_lease = (refl, λ x h. h) })
  claimed-TurnEffect line r false none n =
      let l : Lease = record {
        id = r.observer_lease_id;
        run_id = r.run_id;
        expires_at = r.lease_expires_at;
        sequence = 0;
        seen = [];
      } in
      let request : Manager × Option OpsError =
        admit_request (some l) r.observer_lease_id r.request_id in
      claimed_effect l r none "" (observe parse_url line r.observer_lease_id r request) refl refl
        refl n
        (observe-Keeps line r.observer_lease_id r (some l) request
          (admit_request-same (some l) r.observer_lease_id r.request_id))

  fresh-TurnEffect :
      (line : Line) (a : String) (r : OpsRequest) (m : Manager)
      → (a =s= "") ≡ true
      → r.observer_lease_id ≢ ""
      → TurnEffect a m (claimed parse_url line r (admit_lease line.closed m r))
  fresh-TurnEffect line a r m e n =
      rw ((eq_iff a "").0 e) (claimed-TurnEffect line r line.closed m n)

  if-TurnEffect :
      (a : String) (m : Manager) (b : Bool) (t u : Turn)
      → (b ≡ true → TurnEffect a m t)
      → (b ≡ false → TurnEffect a m u)
      → TurnEffect a m (if b then t else u)
  if-TurnEffect a m true t u h k = h refl
  if-TurnEffect a m false t u h k = k refl

  lease_turn-TurnEffect :
      (line : Line) (a : String) (r : OpsRequest) (m : Manager)
      → r.observer_lease_id ≢ ""
      → TurnEffect a m (lease_turn parse_url line a r m)
  unfolding lease_turn
  lease_turn-TurnEffect line a r m n =
      if-TurnEffect a m (a =s= "") _ _
        (λ e.
          if-TurnEffect a m _ _ _
            (λ _. kept (record { same_claim = refl; same_lease = SameLease-self m }))
            (λ _. fresh-TurnEffect line a r m e n))
        (λ _. kept (checked-Keeps line a r m (validate_lease m line.lease_now r)))

  validated-TurnEffect :
      (line : Line) (a : String) (r : OpsRequest) (m : Manager) (e : Option OpsError)
      → validate_request r line.now ≡ e
      → TurnEffect a m (validated_turn parse_url line a r m e)
  unfolding validated_turn
  validated-TurnEffect line a r m (some e) v =
      kept (record { same_claim = refl; same_lease = SameLease-self m })
  validated-TurnEffect line a r m none v =
      if-TurnEffect a m (is_probe r.operation) _ _
        (λ _. kept (record { same_claim = refl; same_lease = SameLease-self m }))
        (λ p. lease_turn-TurnEffect line a r m (validated_lease r line.now p v))

  decoded-TurnEffect :
      (credential : String) (line : Line) (a : String) (m : Manager) (o : Option OpsRequest)
      → TurnEffect a m (decoded_turn parse_url credential line a m o)
  unfolding decoded_turn
  decoded-TurnEffect credential line a m none =
      kept (record { same_claim = refl; same_lease = SameLease-self m })
  decoded-TurnEffect credential line a m (some r) =
      if-TurnEffect a m (not (r.channel_credential =s= credential)) _ _
        (λ _. kept (record { same_claim = refl; same_lease = SameLease-self m }))
        (λ _. validated-TurnEffect line a r m (validate_request r line.now) refl)

  pub turn-TurnEffect :
      (credential : String) (line : Line) (a : String) (m : Manager)
      → TurnEffect a m (turn parse_url credential line a m)
  unfolding turn
  turn-TurnEffect credential line a m = decoded-TurnEffect credential line a m line.request
