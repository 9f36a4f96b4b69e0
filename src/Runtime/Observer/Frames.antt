-- ===== src/Runtime/Observer/Frames.antt =====
-- What the answer to an observation request carries.
use openlinker_plugin.Base.{
  ℕ, ◌+◌, ◌%◌, String, Bool, true, false, ◌≡◌, refl, sym, ap, ◌∙◌, Option, none, some, arith, ◌=s=◌,
  if◌then◌else◌, not, eq_iff, has, has-cons_self, leb, length, ◌∷◌,
}
use openlinker_plugin.Protocol.OpsObserver.{
  OpsRequest, OpsError, OpsObservation, ParsedUrl, validate_request, is_probe, validate_observation,
  error_response,
}
use openlinker_plugin.Runtime.Observer.{
  Lease, Manager, admit_request, validate_lease, next_sequence, Sequenced, stale, sequenced,
  uint64_range, max_ops_observer_requests_per_lease,
}
use openlinker_plugin.Runtime.Observer.Connection.{
  Line, Turn, Observed, refused, occupied, observed, turn, decoded_turn, validated_turn, lease_turn,
  claimed, checked, observe, report, number, answered, admit_lease, ttl_too_short, ttl_error,
  unauthorized_error, stop,
}

-- The manager holds the lease `lease_id`, and the request is one it has admitted.
record LiveWith (lease_id request_id : String) (m : Manager) : Type 0 where
  lease : Lease
  live : m ≡ some lease
  own : lease.id ≡ lease_id
  admitted : has request_id lease.seen ≡ true

admit_tests :
    (l : Lease) (lease_id request_id : String)
    → (admit_request (some l) lease_id request_id).1 ≡ none
    → ((l.id =s= lease_id) ≡ true)
      × ((has request_id l.seen ≡ false)
          × (leb max_ops_observer_requests_per_lease (length l.seen) ≡ false))
unfolding admit_request
admit_tests l lease_id request_id h = ground arith

sequence_tests :
    (v : Lease) (lease_id : String) (n : ℕ)
    → (next_sequence (some v) lease_id).1 ≡ sequenced n
    → ((v.id =s= lease_id) ≡ true) × ((v.sequence + 1) % uint64_range ≡ n)
unfolding next_sequence
sequence_tests v lease_id n h = ground arith

admitted-LiveWith :
    (m : Manager) (lease_id request_id : String)
    → (admit_request m lease_id request_id).1 ≡ none
    → LiveWith lease_id request_id (admit_request m lease_id request_id).0
unfolding admit_request
admitted-LiveWith none lease_id request_id h = cc
admitted-LiveWith (some l) lease_id request_id h =
    let (a, (b, c)) = admit_tests l lease_id request_id h in
    rw (a, b, c)
      (record {
        lease = record l { seen = request_id ∷ l.seen };
        live = refl;
        own = (eq_iff l.id lease_id).0 a;
        admitted = has-cons_self request_id l.seen;
      })

-- The lease after a frame was numbered.
record Numbered (lease_id request_id : String) (n : ℕ) (m : Manager) : Type 0 where
  lease : Lease
  live : m ≡ some lease
  own : lease.id ≡ lease_id
  admitted : has request_id lease.seen ≡ true
  number : lease.sequence ≡ n

next-Numbered :
    (m : Manager) (lease_id request_id : String) (n : ℕ)
    → LiveWith lease_id request_id m
    → (next_sequence m lease_id).1 ≡ sequenced n
    → Numbered lease_id request_id n (next_sequence m lease_id).0
unfolding next_sequence
next-Numbered none lease_id request_id n l h = cc
next-Numbered (some v) lease_id request_id n l h =
    let (a, b) = sequence_tests v lease_id n h in
    rw a (record {
      lease = record v { sequence = (v.sequence + 1) % uint64_range };
      live = refl;
      own = (eq_iff v.id lease_id).0 a;
      admitted = ap (λ z. has request_id z.seen) (same l.live) ∙ l.admitted;
      number = b;
    })
  where
    same : {x y : Lease} → some x ≡ some y → x ≡ y
    same e = cc

module _ (parse_url : String → Option ParsedUrl) where
  -- The observation of an answer goes to a valid, authorised request that the live lease has
  -- admitted, is valid for its operation, and carries the lease's frame number.
  pub record Shown (credential : String) (line : Line) (t : Turn) (o : OpsObservation)
      : Type 0 where
    pub request : OpsRequest
    pub lease : Lease
    pub read : line.request ≡ some request
    pub authorised : request.channel_credential ≡ credential
    pub accepted : validate_request request line.now ≡ none
    pub live : t.manager ≡ some lease
    pub own : lease.id ≡ request.observer_lease_id
    pub admitted : has request.request_id lease.seen ≡ true
    pub number : o.frame_sequence ≡ lease.sequence
    pub time : o.captured_at ≡ line.captured_at
    pub valid : validate_observation parse_url o request.operation ≡ none

  module _ (line : Line) (r : OpsRequest) (o : OpsObservation) where
    -- The part of it that the request's admission gives.
    record ShownTo (t : Turn) : Type 0 where
      lease : Lease
      live : t.manager ≡ some lease
      own : lease.id ≡ r.observer_lease_id
      admitted : has r.request_id lease.seen ≡ true
      number : o.frame_sequence ≡ lease.sequence
      time : o.captured_at ≡ line.captured_at
      valid : validate_observation parse_url o r.operation ≡ none

    answered-ShownTo :
        (m : Manager) (a : String) (p : OpsObservation) (n : ℕ) (e : Option OpsError)
        → Numbered r.observer_lease_id r.request_id n m
        → p.frame_sequence ≡ n
        → p.captured_at ≡ line.captured_at
        → validate_observation parse_url p r.operation ≡ e
        → (answered parse_url m a r p e).response.observation ≡ some o
        → ShownTo (answered parse_url m a r p e)
    unfolding error_response
    answered-ShownTo m a p n (some e) k q c v h = cc
    answered-ShownTo m a p n none k q c v h = record {
      lease = k.lease;
      live = k.live;
      own = k.own;
      admitted = k.admitted;
      number = ap (λ z. z.frame_sequence) (shown h) ∙ q ∙ sym k.number;
      time = ap (λ z. z.captured_at) (shown h) ∙ c;
      valid = ap (λ z. validate_observation parse_url z r.operation) (shown h) ∙ v;
    }
      where
        shown : some p ≡ some o → o ≡ p
        shown e = cc

    number-ShownTo :
        (a : String) (p : OpsObservation) (m : Manager) (q : Manager × Sequenced)
        → ((n : ℕ) → q.1 ≡ sequenced n → Numbered r.observer_lease_id r.request_id n q.0)
        → (number parse_url line.captured_at a r p q).response.observation ≡ some o
        → ShownTo (number parse_url line.captured_at a r p q)
    unfolding number error_response
    number-ShownTo a p m (n, stale e) k h = cc
    number-ShownTo a p m (n, sequenced i) k h =
        let frame : OpsObservation = record p {
          frame_sequence = i;
          captured_at = line.captured_at;
        } in
        answered-ShownTo n a frame i (validate_observation parse_url frame r.operation) (k i refl)
          refl refl refl h

    report-ShownTo :
        (a : String) (m : Manager) (e : Observed)
        → LiveWith r.observer_lease_id r.request_id m
        → (report parse_url line.captured_at a r m e).response.observation ≡ some o
        → ShownTo (report parse_url line.captured_at a r m e)
    unfolding report error_response
    report-ShownTo a m (refused e) k h = cc
    report-ShownTo a m occupied k h = cc
    report-ShownTo a m (observed p) k h =
        number-ShownTo a p m (next_sequence m r.observer_lease_id)
          (λ n e. next-Numbered m r.observer_lease_id r.request_id n k e) h

    observe-ShownTo :
        (a : String) (p : Manager × Option OpsError)
        → (p.1 ≡ none → LiveWith r.observer_lease_id r.request_id p.0)
        → (observe parse_url line a r p).response.observation ≡ some o
        → ShownTo (observe parse_url line a r p)
    unfolding observe error_response
    observe-ShownTo a (m, some e) k h = cc
    observe-ShownTo a (m, none) k h = report-ShownTo a m line.engine (k refl) h

    claimed-ShownTo :
        (p : Manager × Option OpsError)
        → (claimed parse_url line r p).response.observation ≡ some o
        → ShownTo (claimed parse_url line r p)
    unfolding claimed error_response
    claimed-ShownTo (m, some e) h = cc
    claimed-ShownTo (m, none) h =
        observe-ShownTo r.observer_lease_id (admit_request m r.observer_lease_id r.request_id)
          (admitted-LiveWith m r.observer_lease_id r.request_id) h

    checked-ShownTo :
        (a : String) (m : Manager) (e : Option OpsError)
        → (checked parse_url line a r m e).response.observation ≡ some o
        → ShownTo (checked parse_url line a r m e)
    unfolding checked error_response
    checked-ShownTo a m (some e) h = cc
    checked-ShownTo a m none h =
        observe-ShownTo a (admit_request m r.observer_lease_id r.request_id)
          (admitted-LiveWith m r.observer_lease_id r.request_id) h

    if-ShownTo :
        (b : Bool) (t u : Turn)
        → (t.response.observation ≡ some o → ShownTo t)
        → (u.response.observation ≡ some o → ShownTo u)
        → (if b then t else u).response.observation ≡ some o
        → ShownTo (if b then t else u)
    if-ShownTo true t u h k = h
    if-ShownTo false t u h k = k

    nothing_shown : {t : Turn} → none ≡ some o → ShownTo t
    nothing_shown e = cc

    lease_turn-ShownTo :
        (a : String) (m : Manager)
        → (lease_turn parse_url line a r m).response.observation ≡ some o
        → ShownTo (lease_turn parse_url line a r m)
    unfolding lease_turn error_response
    lease_turn-ShownTo a m =
        if-ShownTo (a =s= "")
          (if ttl_too_short line r
            then stop m a r.request_id ttl_error
            else claimed parse_url line r (admit_lease line.closed m r))
          (checked parse_url line a r m (validate_lease m line.lease_now r))
          (if-ShownTo (ttl_too_short line r) (stop m a r.request_id ttl_error)
            (claimed parse_url line r (admit_lease line.closed m r)) (λ e. nothing_shown e)
            (claimed-ShownTo (admit_lease line.closed m r)))
          (checked-ShownTo a m (validate_lease m line.lease_now r))

    validated-ShownTo :
        (a : String) (m : Manager) (e : Option OpsError)
        → (validated_turn parse_url line a r m e).response.observation ≡ some o
        → (e ≡ none) × ShownTo (validated_turn parse_url line a r m e)
    unfolding validated_turn error_response
    validated-ShownTo a m (some e) h = cc
    validated-ShownTo a m none h = (
      refl,
      if-ShownTo (is_probe r.operation) _ _ (λ e. nothing_shown e) (lease_turn-ShownTo a m) h,
    )

  valid_request-Shown :
      (credential : String) (line : Line) (a : String) (m : Manager) (o : OpsObservation)
      (r : OpsRequest)
      → line.request ≡ some r
      → (decoded_turn parse_url credential line a m (some r)).response.observation ≡ some o
      → Shown credential line (decoded_turn parse_url credential line a m (some r)) o
  unfolding decoded_turn error_response
  valid_request-Shown credential line a m o r e h =
      by_credential (r.channel_credential =s= credential) refl h
    where
      by_credential :
          (b : Bool)
          → (r.channel_credential =s= credential) ≡ b
          → (if not b
              then stop m a r.request_id unauthorized_error
              else validated_turn parse_url line a r m
                  (validate_request r line.now)).response.observation
            ≡ some o
          → Shown credential line
              (if not b
                then stop m a r.request_id unauthorized_error
                else validated_turn parse_url line a r m (validate_request r line.now))
              o
      by_credential false q k = cc
      by_credential true q k =
          let (v, s) = validated-ShownTo line r o a m (validate_request r line.now) k in
          record {
            request = r;
            lease = s.lease;
            read = e;
            authorised = (eq_iff r.channel_credential credential).0 q;
            accepted = v;
            live = s.live;
            own = s.own;
            admitted = s.admitted;
            number = s.number;
            time = s.time;
            valid = s.valid;
          }

  decoded-Shown :
      (credential : String) (line : Line) (a : String) (m : Manager) (o : OpsObservation)
      (r : Option OpsRequest)
      → line.request ≡ r
      → (decoded_turn parse_url credential line a m r).response.observation ≡ some o
      → Shown credential line (decoded_turn parse_url credential line a m r) o
  unfolding decoded_turn error_response
  decoded-Shown credential line a m o none e h = cc
  decoded-Shown credential line a m o (some r) e h = valid_request-Shown credential line a m o r e h

  -- An answer that holds an observation goes to a request that carries the server's credential and
  -- passes its validation, which the lease that is then held has admitted under its own name; the
  -- observation is valid for the operation and carries the lease's frame number and the capture time.
  pub observation-Shown :
      (credential : String) (line : Line) (a : String) (m : Manager) (o : OpsObservation)
      → (turn parse_url credential line a m).response.observation ≡ some o
      → Shown credential line (turn parse_url credential line a m) o
  unfolding turn
  observation-Shown credential line a m o h =
      decoded-Shown credential line a m o line.request refl h
