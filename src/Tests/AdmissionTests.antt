-- ===== src/Tests/AdmissionTests.antt =====
-- Admission of requests on concrete histories (browserruntime/connection.go).
use openlinker_plugin.Base.{
  all_codes, ◌≤◌, String, ◌≡◌, ◌↔◌, refl, true, Option, none, some, ◌⊎◌, List, [], ◌∷◌, has,
  same_codes, trim_space,
}
use openlinker_plugin.Protocol.Types.{Failure, ErrorCode, TargetCategory}
use openlinker_plugin.Protocol.Failure.{FailsWith, new_failure}
use openlinker_plugin.Protocol.Identifiers.{is_valid_uuid}
use openlinker_plugin.Protocol.Failure.Validate.{
  validate_failure, envelope_evidence, click_evidence, click_budget_evidence,
  validate_site_failure_evidence, validate_mutation_failure_evidence, human_control_evidence,
  valid_error_code, valid_target_category,
}
use openlinker_plugin.Runtime.Scope.{attachment_request_scope, click_navigation_scope, decimal}
use openlinker_plugin.Runtime.Scope.Injective.{attachment_request_scope_injective}
use openlinker_plugin.Runtime.Admission.{
  Server, new_server, enter_scope, prepare_click_scope, reserve_in_scope, reserve_request,
  reserve_viewer_request, record_blocked_click, reset_click_navigation_baseline,
  click_retry_failure,
}
use openlinker_plugin.Runtime.Admission.Events.{
  Event, request, viewer_request, blocked_click, reset_baseline, run,
}
use openlinker_plugin.Runtime.Admission.Replay.{request_admitted_once}
use openlinker_plugin.Runtime.Admission.Terminal.{terminal_refuses_actions}
use openlinker_plugin.Runtime.Admission.Budget.{served, served_within_limit}
use openlinker_plugin.Runtime.Admission.Evidence.{
  RemembersClick, retry_failure_valid_iff, retry_after_reset_rejected, blocked_click_answer_valid,
}
use openlinker_plugin.Tests.Sample.{
  identity, click_action, batch_action, first_request, second_request, blocked,
}

abbrev plain_origin : String → Option String
plain_origin raw = some raw

abbrev no_digest : List String → String
no_digest origins = ""

abbrev history : List Event
history =
    blocked_click identity blocked
    ∷ viewer_request identity second_request
    ∷ reset_baseline identity
    ∷ []

first_click_admitted : (reserve_request 10 new_server identity first_request click_action).1 ≡ none
unfolding reserve_request reserve_in_scope enter_scope prepare_click_scope attachment_request_scope
    click_navigation_scope decimal has same_codes
first_click_admitted = refl

request_admitted_once_example :
    let t = run 10 (reserve_request 10 new_server identity first_request click_action).0 history in
    FailsWith ErrorCode.request_replayed
      (reserve_request 10 t identity first_request batch_action).1
    × ((reserve_request 10 t identity first_request batch_action).0
        ≡ prepare_click_scope t identity)
    × FailsWith ErrorCode.request_replayed (reserve_viewer_request t identity first_request).1
    × ((reserve_viewer_request t identity first_request).0 ≡ t)
request_admitted_once_example =
    request_admitted_once 10 new_server identity first_request click_action history identity
      batch_action first_click_admitted (tt, (refl, (tt, tt))) refl

served_within_limit_example :
    served 10 new_server (request identity first_request batch_action ∷ history) ≤ 10
unfolding attachment_request_scope same_codes
served_within_limit_example =
    served_within_limit 10 new_server identity first_request batch_action history refl
      (tt, (refl, (tt, tt)))

abbrev ended_server : Server
ended_server = record new_server {
  seen_scope = attachment_request_scope identity;
  close_count = 3;
  terminal = true;
}

terminal_refuses_actions_example :
    FailsWith ErrorCode.request_replayed
      (reserve_request 10 (run 10 ended_server history) identity first_request batch_action).1
    ⊎ FailsWith ErrorCode.close_retry_exhausted
        (reserve_request 10 (run 10 ended_server history) identity first_request batch_action).1
terminal_refuses_actions_example =
    terminal_refuses_actions (attachment_request_scope identity) 10 ended_server history identity
      first_request batch_action (record { in_scope = refl; ended = refl }) (tt, (refl, (tt, tt)))
      refl refl

abbrev blocked_server : Server
blocked_server = record new_server {
  click_run_id = identity.run_id;
  blocked_click_run_count = 12;
  navigation_scope = click_navigation_scope identity;
  click_engine_instance_id = 7;
  click_navigation_generation = 4;
  blocked_click_navigation_count = 2;
  click_page_state_id = "page-1";
  last_blocked_target_category = TargetCategory.button;
}

retry_failure_valid_iff_example :
    (validate_failure plain_origin no_digest (click_retry_failure blocked_server) ≡ none)
    ↔ RemembersClick blocked_server
retry_failure_valid_iff_example = retry_failure_valid_iff plain_origin no_digest blocked_server

abbrev forgotten : Failure
forgotten = click_retry_failure (record blocked_server {
  seen_scope = attachment_request_scope identity;
  seen = first_request ∷ [];
  action_count = 1;
  click_engine_instance_id = 0;
  click_navigation_generation = 0;
  blocked_click_navigation_count = 0;
})

retry_after_reset_rejected_example :
    FailsWith ErrorCode.output_invalid (validate_failure plain_origin no_digest forgotten)
unfolding reserve_request reserve_in_scope enter_scope prepare_click_scope
    reset_click_navigation_baseline attachment_request_scope click_navigation_scope decimal has
    same_codes click_retry_failure new_failure
retry_after_reset_rejected_example =
    retry_after_reset_rejected plain_origin no_digest 10 blocked_server identity first_request
      click_action forgotten refl refl refl

blocked_valid : validate_failure plain_origin no_digest blocked ≡ none
unfolding validate_failure envelope_evidence click_evidence click_budget_evidence
    validate_site_failure_evidence validate_mutation_failure_evidence human_control_evidence
    valid_error_code valid_target_category new_failure trim_space
blocked_valid = refl

blocked_click_answer_valid_example :
    ((record_blocked_click new_server identity blocked).1.code ≡ ErrorCode.output_invalid)
    ⊎ (validate_failure plain_origin no_digest (record_blocked_click new_server identity blocked).1
        ≡ none)
unfolding new_failure
blocked_click_answer_valid_example =
    blocked_click_answer_valid plain_origin no_digest new_server identity blocked refl blocked_valid

attachment_request_scope_injective_example :
    (identity.run_id ≡ identity.run_id)
    × (identity.attachment_id ≡ identity.attachment_id)
    × (identity.session_epoch ≡ identity.session_epoch)
    × (identity.control_epoch ≡ identity.control_epoch)
unfolding is_valid_uuid all_codes
attachment_request_scope_injective_example =
    attachment_request_scope_injective identity identity refl refl refl refl refl
