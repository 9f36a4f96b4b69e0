-- ===== src/Tests/Sample.antt =====
-- The identities and actions that the tests share.
use openlinker_plugin.Base.{String, true, none, some, [], ◌∷◌, pos}
use openlinker_plugin.Protocol.Types.{
  Controller, ActionKind, ObservationMode, Identity, ActionFields, Action, Actions, TargetCategory,
  ErrorCode, Failure, action, nil, cons,
}
use openlinker_plugin.Protocol.Failure.{new_failure}

abbrev pub run_id : String
run_id = "11111111-1111-4111-8111-111111111111"

abbrev pub attachment_id : String
attachment_id = "22222222-2222-4222-8222-222222222222"

abbrev pub first_request : String
first_request = "33333333-3333-4333-8333-333333333333"

abbrev pub second_request : String
second_request = "44444444-4444-4444-8444-444444444444"

abbrev pub identity : Identity
identity = record {
  run_id = run_id;
  agent_id = "55555555-5555-4555-8555-555555555555";
  principal_scope_id = "user:1";
  browser_session_id = "66666666-6666-4666-8666-666666666666";
  session_epoch = 12;
  attachment_id = attachment_id;
  control_epoch = 3;
  controller = Controller.agent;
  browser_interaction_policy = "full";
  browser_interaction_policy_generation = pos 1;
  browser_mutation_origins = some ("https://example.com" ∷ []);
  browser_mutation_origins_sha256 = "";
}

abbrev pub blank : ActionKind → ActionFields
blank kind = record {
  kind = kind;
  observation = ObservationMode.default;
  backend_mode = "";
  url = "";
  x = none;
  y = none;
  delta_x = none;
  delta_y = none;
  text = "";
  key = "";
  value = "";
  duration_ms = none;
}

abbrev pub click_fields : ActionFields
click_fields = record (blank ActionKind.click) { x = some (pos 10); y = some (pos 20) }

abbrev pub click_action : Action
click_action = action click_fields nil

abbrev pub wait_fields : ActionFields
wait_fields = record (blank ActionKind.wait) { duration_ms = some (pos 100) }

abbrev pub batch_fields : ActionFields
batch_fields = blank ActionKind.batch

abbrev pub two_waits : Actions
two_waits = cons (action wait_fields nil) (cons (action wait_fields nil) nil)

abbrev pub batch_action : Action
batch_action = action batch_fields two_waits

abbrev pub blocked : Failure
blocked = record (new_failure ErrorCode.high_impact_action_blocked "blocked" true) {
  target_category = TargetCategory.button;
  page_state_id = "page-1";
  navigation_generation = 1;
  engine_instance_id = 7;
}
