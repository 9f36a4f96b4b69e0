-- ===== src/Tests/ConnectionTests.antt =====
-- The theorems on connections at a request of a concrete identity, for a lease that lets it pass.
use openlinker_plugin.Protocol.Failure.Validate.{reject}
use openlinker_plugin.Protocol.Observed.{validate_common, validate_engine}
use openlinker_plugin.Runtime.Scope.{attachment_request_scope, click_navigation_scope}
use openlinker_plugin.Protocol.Action.{
  validate_for_policy, validate_kind, validate_observation_mode,
}
use openlinker_plugin.Protocol.Origins.{
  canonical_mutation_origins, collect_origins, fits_policy, same_texts, sort_texts,
  validate_mutation_origins,
}
use openlinker_plugin.Protocol.Identifiers.{is_valid_uuid, valid_opaque_id}
use openlinker_plugin.Base.{
  ℕ, suc, Bool, ◌≡◌, refl, true, false, Option, none, some, List, [], ◌∷◌, ℤ, pos, all_codes, has,
  same_codes, trim_space,
}
use openlinker_plugin.Protocol.Types.{action, nil}
use openlinker_plugin.Protocol.Failure.{ok}
use openlinker_plugin.Protocol.Request.{
  Request, Response, success, check_deadline, check_epochs, check_uuids, validate_identity,
  validate_request,
}
use openlinker_plugin.Runtime.Admission.{
  new_server, live, enter_scope, prepare_click_scope, reserve_in_scope, reserve_request,
}
use openlinker_plugin.Runtime.Connection.{
  Outside, Limits, Checks, Effect, close_action, handle_request, accept_observation,
  answer_observation, outcome_of, refuse,
}
use openlinker_plugin.Runtime.Connection.Histories.{Connection, Histories}
use openlinker_plugin.Runtime.Connection.Permits.{Permitted, Answered}
use openlinker_plugin.Runtime.Connection.Executes.{handle_request-Permitted}
use openlinker_plugin.Runtime.Connection.Writes.{
  Ends, response_line, write_response, write_response-Ends,
}
use openlinker_plugin.Tests.Sample.{identity, wait_fields, first_request, second_request}
use openlinker_plugin.Tests.SelectorTests.{page}

abbrev pub limits : Limits
limits = record {
  channel_credential = "0123456789abcdef0123456789abcdef";
  max_requests = 2048;
  human_control_available = false;
}

abbrev pub checks : Checks
checks = record {
  canonical_mutation_origin = λ origin. some origin;
  digest = λ origins. "";
  validate_navigate_url = λ url. none;
  is_json = λ raw. true;
}

abbrev pub outside : Outside
outside = record {
  now = 1000;
  lease_failure = none;
  is_revoked = some live;
  revoke_failure = none;
  executed = ok page;
  deadline_passed = false;
  later_is_revoked = some live;
  later_revoke_failure = none;
}

abbrev wait_request : Request
wait_request = record {
  contract = "openlinker.browser.v2";
  channel_credential = "0123456789abcdef0123456789abcdef";
  request_id = first_request;
  deadline = 2000;
  identity = identity;
  act = action wait_fields nil;
}

abbrev close_request : Request
close_request = record wait_request { request_id = second_request; act = close_action }

abbrev served : List Connection
served =
    record { request = wait_request; undecoded = none; outside = outside }
    ∷ record { request = close_request; undecoded = none; outside = outside }
    ∷ []

waited :
    (handle_request limits checks outside new_server wait_request none).effects
    ≡ Effect.execute identity (action wait_fields nil) ∷ []
unfolding handle_request validate_request is_valid_uuid all_codes validate_identity check_uuids
    check_epochs valid_opaque_id trim_space validate_mutation_origins canonical_mutation_origins
    collect_origins fits_policy sort_texts has same_texts check_deadline validate_for_policy
    validate_observation_mode validate_kind reserve_request reserve_in_scope prepare_click_scope
    same_codes enter_scope attachment_request_scope click_navigation_scope outcome_of
    answer_observation accept_observation validate_engine validate_common reject refuse
waited = refl

handle_request-Permitted_example :
    Permitted limits checks outside new_server wait_request
      (handle_request limits checks outside new_server wait_request none).effects
    × Answered checks outside wait_request
        (handle_request limits checks outside new_server wait_request none).response
handle_request-Permitted_example =
    handle_request-Permitted limits checks outside new_server wait_request none

abbrev marshal : Response → Option (List ℕ)
marshal response = some (b'{' ∷ b'}' ∷ [])

-- A writer that takes one byte at a time.
abbrev slow_write : ℕ → List ℕ → ℤ × Bool × ℕ
slow_write calls bytes = (pos 1, false, suc calls)

write_response-Ends_example :
    Ends slow_write
      (response_line marshal 1024 (success first_request page))
      (write_response marshal 1024 slow_write 0 (success first_request page))
write_response-Ends_example =
    write_response-Ends marshal 1024 slow_write 0 (success first_request page)
