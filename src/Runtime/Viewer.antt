-- ===== src/Runtime/Viewer.antt =====
-- `handleViewerConnection` and `handleHealthConnection` of browserruntime/connection.go: what a
-- connection with a Viewer or a health request does and answers. What the lease, the engine and the
-- clock return is in `ViewerOutside`.
pub mod Permits
use openlinker_plugin.Base.{
  ℕ, String, Bool, true, false, ◌&&◌, not, Option, none, some, List, [], ◌∷◌, ltb, ◌=s=◌,
  if◌then◌else◌,
}
use openlinker_plugin.Protocol.Types.{Identity, Failure, ErrorCode}
use openlinker_plugin.Protocol.Failure.{new_failure, Result, ok, failed}
use openlinker_plugin.Protocol.Failure.Validate.{validate_failure, is_some}
use openlinker_plugin.Protocol.Viewer.{
  ViewerOperation, ViewerInput, ViewerRequest, ViewerFrame, ViewerResponse, viewer_success,
  viewer_error_response, validate_viewer_request, validate_viewer_frame,
}
use openlinker_plugin.Protocol.Health.{
  HealthRequest, HealthResponse, validate_health_request, health_success, health_error,
}
use openlinker_plugin.Runtime.Admission.{Server, reserve_viewer_request}
use openlinker_plugin.Runtime.Connection.{Limits, Checks}

-- `viewed` is `none` when the engine is no ViewerEngine.
pub record ViewerOutside : Type 0 where
  pub now : ℕ
  pub lease_failure : Option Failure
  pub viewed : Option (Result (Option ViewerFrame))
  pub deadline_passed : Bool

-- A call of the engine's ExecuteViewer.
pub record View : Type 0 where
  pub identity : Identity
  pub operation : ViewerOperation
  pub given : Option ViewerInput

pub record ViewerReply : Type 0 where
  pub server : Server
  pub views : List View
  pub response : ViewerResponse

unfoldable pub refuse_viewer : Server → List View → String → Failure → ViewerReply
refuse_viewer s views request_id failure = record {
  server = s;
  views = views;
  response = viewer_error_response request_id failure;
}

show_frame : Server → List View → String → Option ViewerFrame → ViewerReply
show_frame s views request_id frame = record {
  server = s;
  views = views;
  response = viewer_success request_id frame;
}

module _ (limits : Limits) (checks : Checks) (outside : ViewerOutside) where
  judged_frame : Server → List View → ViewerRequest → ViewerFrame → Option Failure → ViewerReply
  unfolding show_frame
  judged_frame s views r frame (some failure) = refuse_viewer s views r.request_id failure
  judged_frame s views r frame none = show_frame s views r.request_id (some frame)

  judged_viewer_failure :
      Server → List View → ViewerRequest → Failure → Option Failure → ViewerReply
  judged_viewer_failure s views r failure (some invalid) =
      refuse_viewer s views r.request_id invalid
  judged_viewer_failure s views r failure none = refuse_viewer s views r.request_id failure

  -- What follows the call of the engine; the flag is that of the passed deadline.
  unfoldable pub answer_view :
      Server → List View → ViewerRequest → Result (Option ViewerFrame) → Bool → ViewerReply
  unfolding show_frame judged_frame judged_viewer_failure
  answer_view s views r (failed failure) passed =
      judged_viewer_failure s views r failure
        (validate_failure checks.canonical_mutation_origin checks.digest failure)
  answer_view s views r (ok frame) true =
      let failure =
        new_failure ErrorCode.deadline_exceeded "browser viewer deadline elapsed" true in
      judged_viewer_failure s views r failure
        (validate_failure checks.canonical_mutation_origin checks.digest failure)
  answer_view s views r (ok none) false = show_frame s views r.request_id none
  answer_view s views r (ok (some frame)) false =
      judged_frame s views r frame (validate_viewer_frame frame)

  unfoldable pub execute_view :
      Server → ViewerRequest → Option (Result (Option ViewerFrame)) → ViewerReply
  unfolding answer_view
  execute_view s r none =
      refuse_viewer s [] r.request_id
        (new_failure ErrorCode.viewer_unavailable "browser runtime Viewer is unavailable" false)
  execute_view s r (some viewed) =
      let view : View = record {
        identity = r.identity;
        operation = r.operation;
        given = r.given;
      } in
      answer_view s (view ∷ []) r viewed outside.deadline_passed

  unfoldable pub admitted_viewer : ViewerRequest → Server × Option Failure → ViewerReply
  unfolding execute_view
  admitted_viewer r (s, some failure) = refuse_viewer s [] r.request_id failure
  admitted_viewer r (s, none) = execute_view s r outside.viewed

  unfoldable pub leased_viewer : Server → ViewerRequest → Option Failure → ViewerReply
  unfolding admitted_viewer
  leased_viewer s r (some failure) = refuse_viewer s [] r.request_id failure
  leased_viewer s r none = admitted_viewer r (reserve_viewer_request s r.identity r.request_id)

  unfoldable pub validated_viewer : Server → ViewerRequest → Option Failure → ViewerReply
  unfolding leased_viewer
  validated_viewer s r (some failure) = refuse_viewer s [] r.request_id failure
  validated_viewer s r none = leased_viewer s r outside.lease_failure

  -- handleViewerConnection; `none` for a request that DecodeViewerRequest refuses.
  unfoldable pub handle_viewer : Server → Option ViewerRequest → ViewerReply
  unfolding validated_viewer
  handle_viewer s none =
      refuse_viewer s [] ""
        (new_failure ErrorCode.protocol_invalid "browser viewer request is not valid" false)
  handle_viewer s (some r) =
      if not (r.channel_credential =s= limits.channel_credential)
      then refuse_viewer s [] r.request_id
          (new_failure ErrorCode.unauthorized "browser viewer channel credential is invalid" false)
      else validated_viewer s r
          (validate_viewer_request checks.canonical_mutation_origin checks.digest r outside.now)

-- handleHealthConnection, for the length of the request, what DecodeHealthRequest makes of it (the
-- flag is that of an error), and the credential of the server.
unfoldable pub handle_health : String → ℕ → HealthRequest → Bool → HealthResponse
handle_health channel_credential size r undecoded =
    if ltb 1024 size
    then health_error "" "invalid_request"
    else if undecoded
    then health_error "" "invalid_request"
    else if is_some (validate_health_request r)
    then health_error r.request_id "invalid_request"
    else if not (r.channel_credential =s= channel_credential)
    then health_error r.request_id "unauthorized"
    else health_success r.request_id
