-- ===== src/Protocol/Request.antt =====
-- A request and its answer: `Identity.Validate`, `Request.Validate`, `ErrorResponse` and
-- `SuccessResponse` of browserprotocol (validation.go, types.go). A time counts nanoseconds from
-- Go's zero time; the canonical origin, the digest of the origins and the check of a navigate URL
-- are arguments.
use openlinker_plugin.Base.{
  ℕ, ◌+◌, String, Bool, true, false, ◌||◌, not, Option, none, some, List, ltb, ◌==◌, ◌=s=◌,
  if◌then◌else◌, pos, lt_int,
}
use openlinker_plugin.Protocol.Types.{Identity, Controller, Action, Observation, Failure, ErrorCode}
use openlinker_plugin.Protocol.Failure.{new_failure, bounded_string}
use openlinker_plugin.Protocol.Failure.Validate.{◌orelse◌}
use openlinker_plugin.Protocol.Identifiers.{is_valid_uuid, valid_opaque_id}
use openlinker_plugin.Protocol.Origins.{validate_mutation_origins}
use openlinker_plugin.Protocol.Action.{validate_for_policy}

abbrev pub contract_id : String
contract_id = "openlinker.browser.v2"

-- MaxActionDeadline, 60 seconds.
abbrev pub max_action_deadline : ℕ
max_action_deadline = 60000000000

pub record Request : Type 0 where
  pub contract : String
  pub channel_credential : String
  pub request_id : String
  pub deadline : ℕ
  pub identity : Identity
  pub act : Action

-- `Response`, by its status.
pub data Response : Type 0 where
  success : String → Observation → Response
  error : String → Failure → Response

-- ErrorResponse, for a failure that is there.
unfoldable pub error_response : String → Failure → Response
error_response request_id failure = error (bounded_string request_id 128) failure

refuse_request : String → Option Failure
refuse_request message = some (new_failure ErrorCode.protocol_invalid message false)

is_known_controller : Controller → Bool
is_known_controller (Controller.other name) = false
is_known_controller _ = true

-- The loop over the four identifiers. The map is walked in any order, so another of those that are
-- no UUIDs may be the one named.
unfoldable pub check_uuids : Identity → Option Failure
unfolding refuse_request
check_uuids i =
    if not (is_valid_uuid i.run_id)
    then refuse_request "run_id must be a UUID"
    else if not (is_valid_uuid i.agent_id)
    then refuse_request "agent_id must be a UUID"
    else if not (is_valid_uuid i.browser_session_id)
    then refuse_request "browser_session_id must be a UUID"
    else if not (is_valid_uuid i.attachment_id)
    then refuse_request "attachment_id must be a UUID"
    else none

unfoldable pub check_epochs : Identity → Option Failure
unfolding refuse_request
check_epochs i =
    if not (valid_opaque_id i.principal_scope_id 256)
    then refuse_request "principal_scope_id is invalid"
    else if i.session_epoch == 0
    then refuse_request "session_epoch must be positive"
    else if i.control_epoch == 0
    then refuse_request "control_epoch must be positive"
    else if lt_int i.browser_interaction_policy_generation (pos 1)
    then refuse_request "browser_interaction_policy_generation must be positive"
    else none

check_controller : Identity → Option Failure
unfolding refuse_request is_known_controller
check_controller i =
    if is_known_controller i.controller then none else refuse_request "controller is invalid"

module _ (canonical_mutation_origin : String → Option String) (digest : List String → String) where
  -- Identity.Validate
  unfoldable pub validate_identity : Identity → Option Failure
  unfolding check_controller
  validate_identity i =
      check_uuids i
      orelse check_epochs i
      orelse validate_mutation_origins canonical_mutation_origin digest i.browser_interaction_policy
          i.browser_mutation_origins i.browser_mutation_origins_sha256
      orelse check_controller i

  unfoldable pub check_deadline : ℕ → ℕ → Option Failure
  unfolding refuse_request
  check_deadline deadline now =
      if deadline == 0 || not (ltb now deadline)
      then some (new_failure ErrorCode.deadline_exceeded "browser action deadline has elapsed" true)
      else if ltb (now + max_action_deadline) deadline
      then refuse_request "browser action deadline exceeds the allowed horizon"
      else none

  module _ (validate_navigate_url : String → Option Failure) where
    -- Request.Validate
    unfoldable pub validate_request : Request → ℕ → Option Failure
    unfolding refuse_request
    validate_request request now =
        (if not (request.contract =s= contract_id)
          then refuse_request "unsupported browser contract"
          else if not (is_valid_uuid request.request_id)
          then refuse_request "request_id must be a UUID"
          else none)
        orelse validate_identity request.identity
        orelse check_deadline request.deadline now
        orelse validate_for_policy validate_navigate_url request.identity.browser_interaction_policy
            request.act
