-- ===== src/Protocol/Health.antt =====
-- The health requests and responses of browserprotocol/health.go.
use openlinker_plugin.Base.{String, ◌||◌, ◌&&◌, not, Option, none, some, ◌=s=◌, if◌then◌else◌}
use openlinker_plugin.Protocol.Failure.{bounded_string}
use openlinker_plugin.Protocol.Identifiers.{is_valid_uuid}

abbrev pub health_contract_id : String
health_contract_id = "openlinker.browser.health.v1"

pub record HealthRequest : Type 0 where
  pub contract : String
  pub channel_credential : String
  pub request_id : String

-- A reason that is absent is the empty text.
pub record HealthResponse : Type 0 where
  pub contract : String
  pub request_id : String
  pub status : String
  pub reason : String

-- HealthRequest.Validate, `none` for no error.
unfoldable pub validate_health_request : HealthRequest → Option String
validate_health_request r =
    if not (r.contract =s= health_contract_id)
    then some "unsupported browser health contract"
    else if not (is_valid_uuid r.request_id)
    then some "browser health request_id must be a UUID"
    else none

-- HealthResponse.Validate
unfoldable pub validate_health_response : String → HealthResponse → Option String
validate_health_response request_id r =
    if not (r.contract =s= health_contract_id) || not (r.request_id =s= request_id)
    then some "browser health response identity is invalid"
    else if r.status =s= "ok"
    then (if not (r.reason =s= "") then some "browser health success response is invalid" else none)
    else if r.status =s= "error"
    then (if not (r.reason =s= "invalid_request") && not (r.reason =s= "unauthorized")
        then some "browser health error response is invalid"
        else none)
    else some "browser health response status is invalid"

-- HealthSuccessResponse
unfoldable pub health_success : String → HealthResponse
health_success request_id = record {
  contract = health_contract_id;
  request_id = request_id;
  status = "ok";
  reason = "";
}

-- HealthErrorResponse
unfoldable pub health_error : String → String → HealthResponse
health_error request_id reason = record {
  contract = health_contract_id;
  request_id = bounded_string request_id 128;
  status = "error";
  reason = reason;
}
