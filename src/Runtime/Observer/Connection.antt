-- ===== src/Runtime/Observer/Connection.antt =====
-- `handleConnection` of browserruntime/ops_observer.go: one turn of a connection, and the turns of
-- all connections that share the lease, in the order in which they are taken.
use openlinker_plugin.Base.{
  ℕ, ◌+◌, ◌-◌, String, Bool, true, false, not, Option, none, some, ltb, ◌==◌, ◌=s=◌, if◌then◌else◌,
}
use openlinker_plugin.Protocol.OpsObserver.{
  OpsRequest, OpsResponse, OpsObservation, OpsError, OpsErrorCode, ParsedUrl, new_ops_error,
  validate_request, validate_observation, is_probe, probe_response, success_response, busy_response,
  error_response, min_ops_observer_ttl, max_ops_observer_deadline,
}
use openlinker_plugin.Runtime.Observer.{
  Manager, Sequenced, stale, sequenced, admit, validate_lease, admit_request, next_sequence,
  release,
}

-- What `ObserveOps` of the engine gives back.
pub data Observed : Type 0 where
  refused : OpsError → Observed
  occupied : Observed
  observed : OpsObservation → Observed

-- One line read from a connection: the request it decodes to, if any, the clock readings, whether
-- the server is closed, and what the engine would answer.
pub record Line : Type 0 where
  pub request : Option OpsRequest
  pub now : ℕ
  pub lease_now : ℕ
  pub captured_at : ℕ
  pub closed : Bool
  pub engine : Observed

-- What a turn leaves: the lease, `admittedLeaseID`, the response, and whether the loop goes on.
pub record Turn : Type 0 where
  pub manager : Manager
  pub admitted : String
  pub response : OpsResponse
  pub continues : Bool

abbrev pub stop : Manager → String → String → OpsError → Turn
stop manager admitted request_id e = record {
  manager = manager;
  admitted = admitted;
  response = error_response request_id e;
  continues = false;
}

abbrev pub ttl_error : OpsError
ttl_error = new_ops_error OpsErrorCode.protocol_invalid "Ops Observer initial TTL is too short"

abbrev pub unauthorized_error : OpsError
unauthorized_error = new_ops_error OpsErrorCode.unauthorized "Ops Observer request is unauthorized"

-- The lease of a first request expires too early.
abbrev pub ttl_too_short : Line → OpsRequest → Bool
ttl_too_short line r =
    ltb r.lease_expires_at (line.now + (min_ops_observer_ttl - max_ops_observer_deadline))

abbrev proceed : Manager → String → OpsResponse → Turn
proceed manager admitted response = record {
  manager = manager;
  admitted = admitted;
  response = response;
  continues = true;
}

-- admitLease
unfoldable pub admit_lease : Bool → Manager → OpsRequest → Manager × Option OpsError
admit_lease true manager r =
    (manager, some (new_ops_error OpsErrorCode.disabled "Ops Observer is unavailable"))
admit_lease false manager r = admit manager r

-- The lease, and the `admittedLeaseID` of each connection (empty where it holds none).
pub record Shared : Type 0 where
  pub manager : Manager
  pub admitted : ℕ → String

abbrev pub set : (ℕ → String) → ℕ → String → ℕ → String
set f c v d = if d == c then v else f d

-- The deferred release.
unfoldable pub hang_up : Shared → ℕ → Shared
hang_up s c = record {
  manager = if s.admitted c =s= "" then s.manager else release s.manager (s.admitted c);
  admitted = set s.admitted c "";
}

unfoldable pub after_turn : ℕ → Shared → Turn → Shared
after_turn c s t =
    let u : Shared = record { manager = t.manager; admitted = set s.admitted c t.admitted } in
    if t.continues then u else hang_up u c

module _ (parse_url : String → Option ParsedUrl) where
  abbrev pub answered : Manager → String → OpsRequest → OpsObservation → Option OpsError → Turn
  answered manager admitted r o (some e) = proceed manager admitted (error_response r.request_id e)
  answered manager admitted r o none = proceed manager admitted (success_response r.request_id o)

  unfoldable pub number : ℕ → String → OpsRequest → OpsObservation → Manager × Sequenced → Turn
  number captured_at admitted r o (manager, stale e) = stop manager admitted r.request_id e
  number captured_at admitted r o (manager, sequenced n) =
      let frame = record o { frame_sequence = n; captured_at = captured_at } in
      answered manager admitted r frame (validate_observation parse_url frame r.operation)

  -- From the engine's answer on.
  unfoldable pub report : ℕ → String → OpsRequest → Manager → Observed → Turn
  unfolding number
  report captured_at admitted r manager (refused e) =
      proceed manager admitted (error_response r.request_id e)
  report captured_at admitted r manager occupied =
      proceed manager admitted (busy_response r.request_id)
  report captured_at admitted r manager (observed o) =
      number captured_at admitted r o (next_sequence manager r.observer_lease_id)

  -- From the admission of the request on.
  unfoldable pub observe : Line → String → OpsRequest → Manager × Option OpsError → Turn
  unfolding report
  observe line admitted r (manager, some e) = stop manager admitted r.request_id e
  observe line admitted r (manager, none) = report line.captured_at admitted r manager line.engine

  -- The first request of a connection, after its lease was claimed or refused.
  unfoldable pub claimed : Line → OpsRequest → Manager × Option OpsError → Turn
  unfolding observe
  claimed line r (manager, some e) = stop manager "" r.request_id e
  claimed line r (manager, none) =
      observe line r.observer_lease_id r (admit_request manager r.observer_lease_id r.request_id)

  -- A later request, after its lease was checked.
  unfoldable pub checked : Line → String → OpsRequest → Manager → Option OpsError → Turn
  unfolding observe
  checked line admitted r manager (some e) = stop manager admitted r.request_id e
  checked line admitted r manager none =
      observe line admitted r (admit_request manager r.observer_lease_id r.request_id)

  -- A request that passed its own validation and is no probe.
  unfoldable pub lease_turn : Line → String → OpsRequest → Manager → Turn
  unfolding claimed checked
  lease_turn line admitted r manager =
      if admitted =s= ""
      then (if ttl_too_short line r
          then stop manager admitted r.request_id ttl_error
          else claimed line r (admit_lease line.closed manager r))
      else checked line admitted r manager (validate_lease manager line.lease_now r)

  unfoldable pub validated_turn : Line → String → OpsRequest → Manager → Option OpsError → Turn
  unfolding lease_turn
  validated_turn line admitted r manager (some e) = stop manager admitted r.request_id e
  validated_turn line admitted r manager none =
      if is_probe r.operation
      then proceed manager admitted (probe_response r.request_id)
      else lease_turn line admitted r manager

  unfoldable pub decoded_turn : String → Line → String → Manager → Option OpsRequest → Turn
  unfolding validated_turn
  decoded_turn credential line admitted manager none =
      stop manager admitted ""
        (new_ops_error OpsErrorCode.protocol_invalid "Ops Observer request is invalid")
  decoded_turn credential line admitted manager (some r) =
      if not (r.channel_credential =s= credential)
      then stop manager admitted r.request_id unauthorized_error
      else validated_turn line admitted r manager (validate_request r line.now)

  -- The body of the loop of handleConnection.
  unfoldable pub turn : String → Line → String → Manager → Turn
  unfolding decoded_turn
  turn credential line admitted manager = decoded_turn credential line admitted manager line.request

  -- A line on connection `c`, the loop's exit included.
  unfoldable pub serve : String → Shared → ℕ → Line → Shared
  unfolding after_turn
  serve credential s c line = after_turn c s (turn credential line (s.admitted c) s.manager)
