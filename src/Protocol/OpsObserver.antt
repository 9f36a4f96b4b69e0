-- ===== src/Protocol/OpsObserver.antt =====
-- browserprotocol/ops_observer.go: requests, observations and responses of the Ops observer, with
-- their validation. A time is a number of nanoseconds since Go's zero time.
use openlinker_plugin.Base.{
  ℕ, ◌+◌, ◌*◌, String, Bool, true, false, ◌||◌, ◌&&◌, not, Option, none, some, ltb, ◌≡◌, ◌≢◌, refl,
  sym, ap, ◌∙◌, arith, leb, ◌==◌, ◌=s=◌, if◌then◌else◌, len, codes, has_code, trim_space,
}
use openlinker_plugin.Protocol.Viewer.{ViewerFrame, valid_viewer_frame}
use openlinker_plugin.Protocol.Types.{Controller, other}
use openlinker_plugin.Protocol.Failure.{bounded_string}
use openlinker_plugin.Protocol.Identifiers.{is_valid_uuid}
use openlinker_plugin.Protocol.Backend.{valid_lower_hex, backend_official_chrome, backend_isolated}

abbrev pub ops_observer_contract_id : String
ops_observer_contract_id = "openlinker.browser.ops-observer.v1"

abbrev pub second : ℕ
second = 1000000000

abbrev pub min_ops_observer_ttl : ℕ
min_ops_observer_ttl = 60 * second

abbrev pub max_ops_observer_ttl : ℕ
max_ops_observer_ttl = 1800 * second

abbrev pub max_ops_observer_deadline : ℕ
max_ops_observer_deadline = 2 * second

pub data OpsOperation : Type 0 where
  observe_status observe_frame observe_probe unknown_operation : OpsOperation

pub data OpsErrorCode : Type 0 where
  disabled unauthorized protocol_invalid run_not_active already_active busy internal : OpsErrorCode

pub record OpsError : Type 0 where
  pub code : OpsErrorCode
  pub message : String

pub record OpsRequest : Type 0 where
  pub contract_id : String
  pub channel_credential : String
  pub request_id : String
  pub observer_lease_id : String
  pub run_id : String
  pub operation : OpsOperation
  pub deadline : ℕ
  pub lease_expires_at : ℕ

pub record OpsObservation : Type 0 where
  pub run_id : String
  pub controller : Controller
  pub session_epoch : ℕ
  pub control_epoch : ℕ
  pub browser_session_sha256 : String
  pub attachment_sha256 : String
  pub selected_backend : String
  pub profile_generation : ℕ
  pub frame_sequence : ℕ
  pub captured_at : ℕ
  pub page_url : String
  pub page_title : String
  pub action_in_flight : Option Bool
  pub frame : Option ViewerFrame

pub record OpsResponse : Type 0 where
  pub request_id : String
  pub status : String
  pub observation : Option OpsObservation
  pub error : Option OpsError

-- NewOpsObserverError
unfoldable pub new_ops_error : OpsErrorCode → String → OpsError
new_ops_error code message = record {
  code = code;
  message = bounded_string (trim_space message) 300;
}

abbrev pub protocol_error : String → Option OpsError
protocol_error message = some (new_ops_error OpsErrorCode.protocol_invalid message)

abbrev pub is_probe : OpsOperation → Bool
is_probe OpsOperation.observe_probe = true
is_probe _ = false

abbrev is_known_operation : OpsOperation → Bool
is_known_operation OpsOperation.unknown_operation = false
is_known_operation _ = true

-- The deadline is set, after `now`, and at most two seconds after it.
abbrev deadline_invalid : ℕ → ℕ → Bool
deadline_invalid now deadline =
    deadline == 0 || leb deadline now || ltb (now + max_ops_observer_deadline) deadline

validate_probe : OpsRequest → ℕ → Option OpsError
validate_probe r now =
    if not (is_valid_uuid r.request_id)
    then protocol_error "Ops Observer identity is invalid"
    else if not (r.observer_lease_id =s= "")
        || not (r.run_id =s= "")
        || not (r.lease_expires_at == 0)
    then protocol_error "Ops Observer probe must not carry a lease"
    else if deadline_invalid now r.deadline
    then protocol_error "Ops Observer deadline is invalid"
    else none

validate_observe : OpsRequest → ℕ → Option OpsError
validate_observe r now =
    if not (is_valid_uuid r.request_id)
      || not (is_valid_uuid r.observer_lease_id)
      || not (is_valid_uuid r.run_id)
    then protocol_error "Ops Observer identity is invalid"
    else if not (is_known_operation r.operation)
    then protocol_error "Ops Observer operation is invalid"
    else if deadline_invalid now r.deadline
    then protocol_error "Ops Observer deadline is invalid"
    else if r.lease_expires_at == 0
        || leb r.lease_expires_at now
        || ltb (now + max_ops_observer_ttl) r.lease_expires_at
    then protocol_error "Ops Observer lease expiry is invalid"
    else none

-- OpsObserverRequest.Validate
unfoldable pub validate_request : OpsRequest → ℕ → Option OpsError
unfolding validate_probe validate_observe
validate_request r now =
    if not (r.contract_id =s= ops_observer_contract_id)
    then protocol_error "unsupported Ops Observer contract"
    else if ltb (len r.channel_credential) 32 || ltb 512 (len r.channel_credential)
    then protocol_error "Ops Observer credential shape is invalid"
    else if is_probe r.operation
    then validate_probe r now
    else validate_observe r now

abbrev known_controller : Controller → Bool
known_controller (other name) = false
known_controller _ = true

-- What net/url reads in a URL.
pub record ParsedUrl : Type 0 where
  pub scheme : String
  pub host : String
  pub raw_query : String
  pub fragment : String
  pub has_user : Bool

abbrev accepted_url : Option ParsedUrl → Bool
accepted_url none = false
accepted_url (some u) =
    (u.scheme =s= "https" || u.scheme =s= "http")
    && not (u.host =s= "")
    && u.raw_query =s= ""
    && u.fragment =s= ""
    && not u.has_user

abbrev internal_error : String → Option OpsError
internal_error message = some (new_ops_error OpsErrorCode.internal message)

validate_frame : OpsOperation → Option ViewerFrame → Option OpsError
validate_frame OpsOperation.observe_frame none = internal_error "Ops Observer frame is missing"
validate_frame OpsOperation.observe_frame (some f) =
    if valid_viewer_frame f then none else internal_error "Ops Observer frame is invalid"
validate_frame OpsOperation.observe_status (some f) =
    internal_error "Ops Observer status contains a frame"
validate_frame _ _ = none

module _ (parse_url : String → Option ParsedUrl) where
  -- validObserverPageURL
  unfoldable pub valid_observer_page_url : String → Bool
  valid_observer_page_url raw = raw =s= "about:blank" || accepted_url (parse_url raw)

  -- OpsObserverObservation.Validate
  unfoldable pub validate_observation : OpsObservation → OpsOperation → Option OpsError
  unfolding validate_frame
  validate_observation o operation =
      if not (is_valid_uuid o.run_id)
        || o.session_epoch == 0
        || o.control_epoch == 0
        || not (valid_lower_hex o.browser_session_sha256 64)
        || not (valid_lower_hex o.attachment_sha256 64)
        || o.frame_sequence == 0
        || o.captured_at == 0
      then internal_error "Ops Observer identity evidence is invalid"
      else if not (known_controller o.controller)
      then internal_error "Ops Observer controller evidence is invalid"
      else if not (o.selected_backend =s= backend_official_chrome)
          && not (o.selected_backend =s= backend_isolated)
      then internal_error "Ops Observer backend evidence is invalid"
      else if ltb 4096 (len o.page_url)
          || ltb 512 (len o.page_title)
          || has_code 0 (codes o.page_title)
          || not (valid_observer_page_url o.page_url)
      then internal_error "Ops Observer page evidence is invalid"
      else validate_frame operation o.frame

-- OpsObserverProbeResponse
abbrev pub probe_response : String → OpsResponse
probe_response request_id = record {
  request_id = request_id;
  status = "ok";
  observation = none;
  error = none;
}

-- OpsObserverSuccessResponse
abbrev pub success_response : String → OpsObservation → OpsResponse
success_response request_id o = record {
  request_id = request_id;
  status = "ok";
  observation = some o;
  error = none;
}

-- OpsObserverBusyResponse
abbrev pub busy_response : String → OpsResponse
busy_response request_id = record {
  request_id = request_id;
  status = "busy";
  observation = none;
  error = none;
}

-- OpsObserverErrorResponse, for an error that is not nil.
unfoldable pub error_response : String → OpsError → OpsResponse
error_response request_id e = record {
  request_id = bounded_string request_id 128;
  status = "error";
  observation = none;
  error = some e;
}

empty_uuid : is_valid_uuid "" ≡ false
unfolding is_valid_uuid
empty_uuid = refl

valid_uuid-nonempty : (value : String) → is_valid_uuid value ≡ true → value ≢ ""
valid_uuid-nonempty value h e = absurd (sym h ∙ ap is_valid_uuid e ∙ empty_uuid)
  where
    absurd : true ≡ false → ⊥
    absurd p = cc

observe-uuid :
    (r : OpsRequest) (now : ℕ)
    → validate_observe r now ≡ none
    → is_valid_uuid r.observer_lease_id ≡ true
unfolding validate_observe
observe-uuid r now h = ground arith

-- A request that is accepted and is no probe names a lease.
pub validated_lease :
    (r : OpsRequest) (now : ℕ)
    → is_probe r.operation ≡ false
    → validate_request r now ≡ none
    → r.observer_lease_id ≢ ""
unfolding validate_request
validated_lease r now p h =
    valid_uuid-nonempty r.observer_lease_id (ground (arith, observe-uuid r now))
