-- ===== src/Tests/ClientTests.antt =====
-- The theorems on the client and on Viewer connections at concrete requests.
use openlinker_plugin.Protocol.Failure.Validate.{
  click_budget_evidence, click_evidence, envelope_evidence, human_control_evidence, reject,
  valid_error_code, validate_failure, validate_mutation_failure_evidence,
  validate_site_failure_evidence,
}
use openlinker_plugin.Protocol.Observed.{validate_common, validate_engine, agreeing_click}
use openlinker_plugin.Runtime.Scope.{attachment_request_scope, click_navigation_scope, decimal}
use openlinker_plugin.Protocol.Action.{
  validate_for_policy, validate_kind, validate_observation_mode,
}
use openlinker_plugin.Protocol.Origins.{
  canonical_mutation_origins, collect_origins, fits_policy, same_texts, sort_texts,
  validate_mutation_origins,
}
use openlinker_plugin.Protocol.Identifiers.{is_valid_uuid, valid_opaque_id}
use openlinker_plugin.Base.{
  ◌≡◌, refl, true, false, none, some, [], ◌∷◌, pos, arith, all_codes, has, same_codes, trim_space,
}
use openlinker_plugin.Protocol.Types.{Controller, Observation, action, nil}
use openlinker_plugin.Protocol.Failure.{ok, bounded_string, new_failure}
use openlinker_plugin.Protocol.Request.{
  Request, validate_request, check_deadline, check_epochs, check_uuids, error_response,
  validate_identity,
}
use openlinker_plugin.Protocol.Viewer.{
  ViewerRequest, ViewerInput, click, pointer, no_keyboard, finite, input, check_controller_human,
  check_operation, check_viewer_deadline, validate_input, validate_viewer_request,
}
use openlinker_plugin.Runtime.Admission.{
  new_server, enter_scope, prepare_click_scope, reserve_in_scope, reserve_request,
  reserve_viewer_request, accept_engine_state, record_engine_observation,
}
use openlinker_plugin.Runtime.Connection.{
  Outside, handle_request, accept_observation, answer_observation, outcome_of, refuse,
}
use openlinker_plugin.Runtime.Viewer.{ViewerOutside, handle_viewer}
use openlinker_plugin.Runtime.Viewer.Permits.{ViewerPermitted, handle_viewer-Permitted}
use openlinker_plugin.Client.{
  Client, Config, ExecuteCall, new_client, execute, request_of, deadline_of, valid_credential,
}
use openlinker_plugin.Client.Builds.{built_request-Valid}
use openlinker_plugin.Client.Served.{through}
use openlinker_plugin.Client.Lease.{ActiveLease, validate_lease}
use openlinker_plugin.Tests.Sample.{identity, wait_fields, first_request}
use openlinker_plugin.Tests.ConnectionTests.{limits, checks, outside}
use openlinker_plugin.Tests.SelectorTests.{page}

abbrev lease : ActiveLease
lease = record {
  contract_id = "openlinker.browser.lease.v2";
  expires_at = 5000;
  identity = identity;
}

abbrev config : Config
config = record {
  socket_absolute = true;
  credential = some "0123456789abcdef0123456789abcdef\n";
  lease = some lease;
  timeout = pos 0;
}

abbrev client : Client
client = record {
  channel_credential = "0123456789abcdef0123456789abcdef";
  lease = lease;
  timeout = 20000000000;
}

-- A page in the viewport of the browser, which the engine answers.
abbrev shown_page : Observation
shown_page = record page { viewport = some (record { width = pos 1280; height = pos 720 }) }

abbrev engine_outside : Outside
engine_outside = record outside { executed = ok shown_page }

abbrev call : ExecuteCall
call = through limits checks engine_outside new_server 900 (some 3000) (some first_request)

abbrev request : Request
request = request_of client call first_request (action wait_fields nil)

client_built : new_client checks 800 config ≡ some client
unfolding new_client valid_credential all_codes validate_lease validate_identity check_uuids
    is_valid_uuid check_epochs valid_opaque_id trim_space validate_mutation_origins
    canonical_mutation_origins collect_origins fits_policy sort_texts has same_texts
client_built = refl

request_sent : (execute checks client call (action wait_fields nil)).0 ≡ some request
unfolding execute validate_for_policy validate_observation_mode validate_kind validate_lease
    validate_identity check_uuids is_valid_uuid all_codes check_epochs valid_opaque_id trim_space
    validate_mutation_origins canonical_mutation_origins collect_origins fits_policy sort_texts has
    same_texts
request_sent = refl

-- The client receives the page that the engine shows.
page_received : (execute checks client call (action wait_fields nil)).1 ≡ ok shown_page
unfolding execute validate_for_policy validate_observation_mode validate_kind validate_lease
    validate_identity check_uuids is_valid_uuid all_codes check_epochs valid_opaque_id trim_space
    validate_mutation_origins canonical_mutation_origins collect_origins fits_policy sort_texts has
    same_texts handle_request request_of validate_request check_deadline deadline_of reserve_request
    reserve_in_scope prepare_click_scope same_codes enter_scope attachment_request_scope
    click_navigation_scope outcome_of answer_observation accept_observation validate_engine
    validate_common reject refuse error_response bounded_string validate_failure envelope_evidence
    valid_error_code new_failure click_evidence click_budget_evidence validate_site_failure_evidence
    validate_mutation_failure_evidence human_control_evidence agreeing_click
    record_engine_observation accept_engine_state decimal
page_received = refl

built_request-Valid_example :
    (request.channel_credential ≡ client.channel_credential)
    × ((request.identity ≡ identity)
        × (validate_request checks.canonical_mutation_origin checks.digest
              checks.validate_navigate_url request 1000
            ≡ none))
unfolding is_valid_uuid request_of all_codes deadline_of
built_request-Valid_example =
    built_request-Valid checks 800 config client call (action wait_fields nil) request 1000
      client_built request_sent refl (omega arith) (omega arith)

-- A click of the human.
abbrev clicked : ViewerInput
clicked = record {
  kind = pointer;
  pointer_action = click;
  keyboard_action = no_keyboard;
  x = some (pos 10);
  y = some (pos 20);
  button = "left";
  click_count = pos 1;
  key = "";
  content = "";
  delta_x = finite false 0 (pos 0);
  delta_y = finite false 0 (pos 0);
}

abbrev click_request : ViewerRequest
click_request = record {
  contract = "openlinker.browser.viewer.v1";
  channel_credential = "0123456789abcdef0123456789abcdef";
  request_id = first_request;
  deadline = 2000;
  identity = record identity { controller = Controller.human };
  operation = input;
  given = some clicked;
}

abbrev viewer_outside : ViewerOutside
viewer_outside = record {
  now = 1000;
  lease_failure = none;
  viewed = some (ok none);
  deadline_passed = false;
}

click_seen :
    (handle_viewer limits checks viewer_outside new_server (some click_request)).views
    ≡ record { identity = click_request.identity; operation = input; given = some clicked } ∷ []
unfolding handle_viewer validate_viewer_request is_valid_uuid all_codes validate_identity
    check_uuids check_epochs valid_opaque_id trim_space validate_mutation_origins
    canonical_mutation_origins collect_origins fits_policy sort_texts has same_texts
    check_controller_human check_viewer_deadline check_operation validate_input
    reserve_viewer_request enter_scope same_codes attachment_request_scope
click_seen = refl

handle_viewer-Permitted_example :
    ViewerPermitted limits checks viewer_outside new_server click_request
      (handle_viewer limits checks viewer_outside new_server (some click_request))
handle_viewer-Permitted_example =
    handle_viewer-Permitted limits checks viewer_outside new_server click_request
