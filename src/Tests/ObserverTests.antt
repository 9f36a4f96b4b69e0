-- ===== src/Tests/ObserverTests.antt =====
-- The theorems on the Ops observer at concrete requests.
use openlinker_plugin.Base.{
  if◌then◌else◌, ◌==◌, ◌*◌, String, false, refl, Option, none, some, all_codes, has, has_code,
}
use openlinker_plugin.Protocol.Types.{Controller}
use openlinker_plugin.Protocol.Identifiers.{is_valid_uuid}
use openlinker_plugin.Protocol.Backend.{valid_lower_hex, backend_isolated}
use openlinker_plugin.Protocol.OpsObserver.{
  OpsOperation, OpsRequest, OpsObservation, ParsedUrl, ops_observer_contract_id, second,
  validate_request, validate_observation, valid_observer_page_url,
}
use openlinker_plugin.Runtime.Observer.{admit, admit_request, next_sequence}
use openlinker_plugin.Runtime.Observer.Connection.{
  Line, observed, Shared, turn, decoded_turn, validated_turn, lease_turn, claimed, observe, report,
  number, admit_lease, serve, hang_up,
}
use openlinker_plugin.Runtime.Observer.Exclusive.{Held, fresh, line_read, broken, lease-Held}
use openlinker_plugin.Runtime.Observer.Frames.{Shown, observation-Shown}
use openlinker_plugin.Runtime.Observer.Replays.{ShowsNothing, same, observation_shown_once}
use openlinker_plugin.Tests.Sample.{run_id, first_request, second_request}

abbrev no_urls : String → Option ParsedUrl
no_urls raw = none

abbrev credential : String
credential = "0123456789abcdef0123456789abcdef"

abbrev status_request : OpsRequest
status_request = record {
  contract_id = ops_observer_contract_id;
  channel_credential = credential;
  request_id = first_request;
  observer_lease_id = second_request;
  run_id = run_id;
  operation = OpsOperation.observe_status;
  deadline = 101 * second;
  lease_expires_at = 700 * second;
}

abbrev probe_request : OpsRequest
probe_request = record status_request {
  observer_lease_id = "";
  run_id = "";
  operation = OpsOperation.observe_probe;
  lease_expires_at = 0;
}

abbrev page_status : OpsObservation
page_status = record {
  run_id = run_id;
  controller = Controller.agent;
  session_epoch = 1;
  control_epoch = 1;
  browser_session_sha256 = "0000000000000000000000000000000000000000000000000000000000000000";
  attachment_sha256 = "1111111111111111111111111111111111111111111111111111111111111111";
  selected_backend = backend_isolated;
  profile_generation = 0;
  frame_sequence = 0;
  captured_at = 0;
  page_url = "about:blank";
  page_title = "";
  action_in_flight = none;
  frame = none;
}

abbrev status_line : Line
status_line = record {
  request = some status_request;
  now = 100 * second;
  lease_now = 100 * second;
  captured_at = 100 * second;
  closed = false;
  engine = observed page_status;
}

abbrev probe_line : Line
probe_line = record status_line { request = some probe_request }

abbrev no_connections : Shared
no_connections = record { manager = none; admitted = λ c. "" }

lease-Held_example : Held (
    hang_up
      (serve no_urls credential
        (serve no_urls credential no_connections 4 status_line)
        5
        status_line)
      4)
lease-Held_example =
    lease-Held no_urls credential
      (hang_up
        (serve no_urls credential (serve no_urls credential no_connections 4 status_line) 5
          status_line)
        4)
      (broken 4 (line_read 5 status_line (line_read 4 status_line fresh)))

abbrev first_frame : OpsObservation
first_frame = record page_status { frame_sequence = 1; captured_at = 100 * second }

observation-Shown_example :
    Shown no_urls credential status_line (turn no_urls credential status_line "" none) first_frame
unfolding turn decoded_turn validated_turn lease_turn claimed observe report number admit_lease
    admit admit_request next_sequence validate_request is_valid_uuid validate_observation
    valid_lower_hex valid_observer_page_url all_codes has has_code
observation-Shown_example =
    observation-Shown no_urls credential status_line "" none first_frame refl

-- After the first status line, with the lease claimed by connection 4.
abbrev answered_once : Shared
answered_once = record {
  manager = (turn no_urls credential status_line "" none).manager;
  admitted = λ c. if c == 4 then second_request else "";
}

observation_shown_once_example :
    ShowsNothing
      (turn no_urls credential status_line (answered_once.admitted 4) answered_once.manager)
unfolding turn decoded_turn validated_turn lease_turn claimed observe report number admit_lease
    admit admit_request next_sequence validate_request is_valid_uuid validate_observation
    valid_lower_hex valid_observer_page_url all_codes has has_code
observation_shown_once_example =
    observation_shown_once no_urls credential status_line status_line "" none first_frame
      answered_once answered_once 4 status_request status_request refl refl refl same refl refl
