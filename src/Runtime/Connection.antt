-- ===== src/Runtime/Connection.antt =====
-- `handleConnection` of browserruntime/connection.go for a Browser request: what one connection
-- does to the admission state, what it asks the lease and the engine to do, and what it answers.
-- `Serve` admits one connection at a time (the channel `sem` has room for one), so a connection is
-- one step. The lease, the engine and the clock are outside: what each call of them returns is a
-- field of `Outside`.
pub mod Endings
pub mod Histories
pub mod Permits
pub mod Replies
pub mod Executes
pub mod Writes
use openlinker_plugin.Base.{
  ℕ, String, Bool, true, false, ◌&&◌, not, Option, none, some, List, [], ◌∷◌, ◌++◌, ◌=s=◌,
  if◌then◌else◌,
}
use openlinker_plugin.Protocol.Types.{
  Identity, ActionKind, ObservationMode, ActionFields, Action, Actions, Observation, Failure,
  ErrorCode, action, nil,
}
use openlinker_plugin.Protocol.Failure.{new_failure, Result, ok, failed}
use openlinker_plugin.Protocol.Failure.Validate.{validate_failure}
use openlinker_plugin.Protocol.Request.{
  Request, Response, success, error_response, validate_request,
}
use openlinker_plugin.Protocol.Observed.{validate_engine, validate_closed}
use openlinker_plugin.Runtime.Admission.{
  Server, RevocationState, unreadable, revoked, live, is_close, is_click, kind_of, reserve_request,
  record_engine_observation, record_blocked_click, reset_click_navigation_baseline,
  close_required_challenge,
}

-- What the calls of one connection return. A lease that is no `LeaseRevoker` has no revocation.
pub record Outside : Type 0 where
  pub now : ℕ
  pub lease_failure : Option Failure  -- Lease.Validate
  pub is_revoked : Option RevocationState  -- IsRevoked
  pub revoke_failure : Option Failure  -- Revoke
  pub executed : Result Observation  -- Engine.Execute
  pub deadline_passed : Bool  -- actionContext.Err() != nil, after it
  pub later_is_revoked : Option RevocationState  -- IsRevoked, in closeRequiredChallenge
  pub later_revoke_failure : Option Failure  -- Revoke, in closeRequiredChallenge

-- The options of the server that a request meets.
pub record Limits : Type 0 where
  pub channel_credential : String
  pub max_requests : ℕ
  pub human_control_available : Bool

-- The functions of the protocol's validation that rest on other libraries.
pub record Checks : Type 0 where
  pub canonical_mutation_origin : String → Option String
  pub digest : List String → String
  pub validate_navigate_url : String → Option Failure
  pub is_json : String → Bool

-- A call that changes what is outside.
pub data Effect : Type 0 where
  revoke : Identity → Effect
  execute : Identity → Action → Effect

pub record Reply : Type 0 where
  pub server : Server
  pub effects : List Effect
  pub response : Response

abbrev pub close_action : Action
close_action =
    action
      (record {
        kind = ActionKind.close;
        observation = ObservationMode.default;
        backend_mode = "";
        url = "";
        x = none;
        y = none;
        delta_x = none;
        delta_y = none;
        text = "";
        key = "";
        value = "";
        duration_ms = none;
      })
      nil

abbrev pub is_high_impact : ErrorCode → Bool
is_high_impact ErrorCode.high_impact_action_blocked = true
is_high_impact _ = false

abbrev pub is_challenge : ErrorCode → Bool
is_challenge ErrorCode.challenge_required = true
is_challenge _ = false

abbrev pub is_checkpoint : ActionKind → Bool
is_checkpoint ActionKind.checkpoint = true
is_checkpoint _ = false

-- The answer that refuses a request.
unfoldable pub refuse : Server → List Effect → String → Failure → Reply
refuse s effects request_id failure = record {
  server = s;
  effects = effects;
  response = error_response request_id failure;
}

-- The failure that the engine's answer and the deadline give.
unfoldable pub outcome_of : Result Observation → Bool → Result Observation
outcome_of (failed failure) passed = failed failure
outcome_of (ok observation) passed =
    if passed
    then failed (new_failure ErrorCode.deadline_exceeded "browser action deadline elapsed" true)
    else ok observation

-- The calls that closeRequiredChallenge makes: the revocation, and the close of the engine once the
-- attachment is fenced.
unfoldable pub challenge_effects : Identity → Option RevocationState → Option Failure → List Effect
challenge_effects i none revoking = []
challenge_effects i (some (unreadable failure)) revoking = []
challenge_effects i (some revoked) revoking = execute i close_action ∷ []
challenge_effects i (some live) (some failure) = revoke i ∷ []
challenge_effects i (some live) none = revoke i ∷ execute i close_action ∷ []

-- `ErrorChallengeRequired` of a failure that is about to be answered.
fenced : Failure → Server × Option Failure → Server × Failure
fenced failure (s, none) = (s, failure)
fenced failure (s, some terminal) = (s, terminal)

module _ (limits : Limits) (checks : Checks) (outside : Outside) where
  -- What a failure of the engine does, given the verdict on its evidence.
  unfoldable pub judge_failure : Server → Request → Failure → Option Failure → Server × Failure
  judge_failure s request failure (some invalid) = (s, invalid)
  judge_failure s request failure none =
      if is_click (kind_of request.act) && is_high_impact failure.code
      then record_blocked_click s request.identity failure
      else if failure.engine_process_reset
      then (reset_click_navigation_baseline s request.identity, failure)
      else (s, failure)

  -- The rest of the error branch.
  unfoldable pub answer_failure : List Effect → Request → Server × Failure → Reply
  unfolding fenced
  answer_failure effects request (s, failure) =
      if not (is_challenge failure.code)
      then refuse s effects request.request_id failure
      else if limits.human_control_available
      then refuse s effects request.request_id (record failure { human_control_available = true })
      else let after =
          fenced failure
            (close_required_challenge s outside.later_is_revoked outside.later_revoke_failure) in
        refuse after.0
          (effects
            ++ challenge_effects request.identity outside.later_is_revoked
                outside.later_revoke_failure)
          request.request_id after.1

  record_checked : Server → Request → Observation → Option Failure → Server × Option Failure
  record_checked s request observation (some failure) = (s, some failure)
  record_checked s request observation none =
      record_engine_observation s request.identity observation

  -- The validation of an observation, and its recording when it is an engine's.
  unfoldable pub accept_observation : Server → Request → Observation → Server × Option Failure
  unfolding record_checked
  accept_observation s request observation =
      if is_close (kind_of request.act)
      then (s, validate_closed observation)
      else record_checked s request observation (validate_engine checks.is_json observation)

  unfoldable pub answer_observation :
      List Effect → Request → Observation → Server × Option Failure → Reply
  answer_observation effects request observation (s, some failure) =
      refuse s effects request.request_id failure
  answer_observation effects request observation (s, none) = record {
    server =
        if is_checkpoint (kind_of request.act)
        then reset_click_navigation_baseline s request.identity
        else s;
    effects = effects;
    response = success request.request_id observation;
  }

  unfoldable pub answer_engine : Server → List Effect → Request → Result Observation → Reply
  answer_engine s effects request (failed failure) = answer_failure effects request (
      judge_failure s request failure
        (validate_failure checks.canonical_mutation_origin checks.digest failure))
  answer_engine s effects request (ok observation) =
      answer_observation effects request observation (accept_observation s request observation)

  -- From the call of the engine on.
  unfoldable pub execute_request : Server → List Effect → Request → Reply
  unfolding answer_engine
  execute_request s effects request =
      answer_engine s (effects ++ execute request.identity request.act ∷ []) request
        (outcome_of outside.executed outside.deadline_passed)

  revoked_first : Server → Request → Option Failure → Reply
  unfolding execute_request
  revoked_first s request (some failure) =
      refuse s (revoke request.identity ∷ []) request.request_id failure
  revoked_first s request none = execute_request s (revoke request.identity ∷ []) request

  -- From the admission on; `revoking` when the close has to revoke the lease first.
  unfoldable pub admitted : Bool → Request → Server × Option Failure → Reply
  unfolding revoked_first
  admitted revoking request (s, some failure) = refuse s [] request.request_id failure
  admitted revoking request (s, none) =
      if revoking
      then revoked_first s request outside.revoke_failure
      else execute_request s [] request

  unfoldable pub admit : Server → Bool → Request → Reply
  unfolding admitted
  admit s revoking request =
      admitted revoking request
        (reserve_request limits.max_requests s request.identity request.request_id request.act)

  leased : Server → Bool → Request → Option Failure → Reply
  unfolding admit
  leased s revoking request (some failure) = refuse s [] request.request_id failure
  leased s revoking request none = admit s revoking request

  -- The revocation state is read for a close only.
  unfoldable pub close_leased : Server → Request → Option RevocationState → Reply
  unfolding leased
  close_leased s request none = refuse s [] request.request_id (
      new_failure ErrorCode.runtime_unavailable
        "browser runtime lease does not support durable closure" false)
  close_leased s request (some (unreadable failure)) = refuse s [] request.request_id failure
  close_leased s request (some revoked) = admit s false request
  close_leased s request (some live) = leased s true request outside.lease_failure

  unfoldable pub lease_request : Server → Request → Reply
  unfolding close_leased
  lease_request s request =
      if is_close (kind_of request.act)
      then close_leased s request outside.is_revoked
      else leased s false request outside.lease_failure

  validated : Server → Request → Option Failure → Reply
  unfolding lease_request
  validated s request (some failure) = refuse s [] request.request_id failure
  validated s request none = lease_request s request

  -- handleConnection, from the decoded request on; the failure is that of `decodeRequest`.
  unfoldable pub handle_request : Server → Request → Option Failure → Reply
  unfolding validated
  handle_request s request (some failure) = refuse s [] request.request_id failure
  handle_request s request none =
      if not (request.channel_credential =s= limits.channel_credential)
      then refuse s [] request.request_id
          (new_failure ErrorCode.unauthorized "browser channel credential is invalid" false)
      else validated s request (
          validate_request checks.canonical_mutation_origin checks.digest
            checks.validate_navigate_url request outside.now)
