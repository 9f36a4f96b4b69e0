-- ===== src/Tests/SelectorTests.antt =====
-- The theorems on the backend selector at concrete backends, over a world that counts calls.
use openlinker_plugin.Base.{
  ℕ, suc, String, Bool, true, false, ◌≡◌, ◌⊎◌, refl, ap, inl, Option, none, some, pos,
  if◌then◌else◌, ◌==◌,
}
use openlinker_plugin.Protocol.Types.{
  Identity, ActionKind, Action, Observation, Failure, ErrorCode, ClickEffect, TargetCategory,
  BackendSelectionEvidence, action, nil,
}
use openlinker_plugin.Protocol.Failure.{new_failure, ok}
use openlinker_plugin.Protocol.Backend.{
  validate_selection_evidence, backend_official_chrome, mode_openlinker_native_chrome,
  valid_backend_fallback_reason,
}
use openlinker_plugin.Runtime.Selector.Backends.{Backend}
use openlinker_plugin.Runtime.Selector.{
  Selector, Options, new_selector, no_evidence, install, is_preflight, refuse,
}
use openlinker_plugin.Runtime.Selector.Start.{fields_of, execute_unselected}
use openlinker_plugin.Runtime.Selector.Execute.{execute, execute_from, execute_with}
use openlinker_plugin.Runtime.Selector.Guard.{unguarded, session_check_never_decides}
use openlinker_plugin.Runtime.Selector.Moves.{Trusted}
use openlinker_plugin.Runtime.Selector.New.{ClassifierValid, accept_options, accept_options-Trusted}
use openlinker_plugin.Runtime.Selector.Guarantees.{
  EvidenceValid, Reachable, start, call, selection-EvidenceValid, failure_keeps_or_drops,
}
use openlinker_plugin.Tests.Sample.{identity, blank, click_action}

abbrev pub page : Observation
page = record {
  page_state_id = "page-1";
  viewport = none;
  navigation_generation = 1;
  screenshot = none;
  ax_tree = "";
  dom_diff = "";
  ax_tree_timed_out = false;
  dom_diff_timed_out = false;
  origin = "https://example.com";
  title = "";
  click_effect = ClickEffect.unset;
  target_category = TargetCategory.unset;
  environment = none;
  backend_selection = none;
  site_outcome = ErrorCode.unset;
  classifier_rules_version = "";
  challenge_release_unavailable = false;
  blocked_mutation_requests = pos 0;
  mutation_requests_observed = pos 0;
  engine_instance_id = 1;
}

abbrev isolated_backend : Backend ℕ
isolated_backend = record {
  execute = λ w i a. (suc w, ok page);
  abort_startup = λ w. (w, false);
  close = λ w. w;
  profile_selection_evidence = none;
  startup_fallback_reason = none;
  is_ops_observer = true;
  viewer = none;
}

-- The Profile evidence of the first call only.
abbrev report : ℕ → Option (ℕ × Bool)
report w = if w == 1 then some (4, false) else none

abbrev chrome_backend : Backend ℕ
chrome_backend = record isolated_backend { profile_selection_evidence = some report }

abbrev isolated_options : Options ℕ
isolated_options = record {
  official = none;
  official_evidence = no_evidence;
  official_unavailable_reason = "official_platform_unsupported";
  isolated = isolated_backend;
}

abbrev preflight_action : Action
preflight_action = action (blank ActionKind.preflight) nil

abbrev chrome_evidence : BackendSelectionEvidence
chrome_evidence = record {
  requested_mode = mode_openlinker_native_chrome;
  selected_backend = backend_official_chrome;
  fallback_reason = "";
  asset_manifest_sha256 = "0000000000000000000000000000000000000000000000000000000000000000";
  extension_id = "abcdefghijklmnopabcdefghijklmnop";
  extension_version = "1.2";
  native_host_protocol = "v1";
  profile_generation = 4;
  session_recovered = false;
}

abbrev chrome_options : Options ℕ
chrome_options = record {
  official = some chrome_backend;
  official_evidence = chrome_evidence;
  official_unavailable_reason = "";
  isolated = isolated_backend;
}

abbrev native_preflight : Action
native_preflight =
    action (record (blank ActionKind.preflight) { backend_mode = mode_openlinker_native_chrome })
      nil

abbrev pub rotated_identity : Identity
rotated_identity = record identity { attachment_id = "77777777-7777-4777-8777-777777777777" }

-- The selector after the native Chrome backend was selected.
abbrev chrome_selected : Selector ℕ
chrome_selected = (execute chrome_options new_selector 0 identity native_preflight).selector

some-injective : {x y : Backend ℕ} → some x ≡ some y → x ≡ y
some-injective h = cc

no_reason :
    (o : Option (Failure → String)) (classify : Failure → String) → none ≡ o → o ≡ some classify → ⊥
no_reason o classify p q = cc

chrome-Trusted : Trusted chrome_options
chrome-Trusted = record {
  official_name = λ b q. refl;
  unavailable = inl refl;
  classifier = λ b classify f q r.
      elim (no_reason b.startup_fallback_reason classify
        (ap (λ x. x.startup_fallback_reason) (some-injective q)) r) [ ];
}

chrome_reached : Reachable chrome_options chrome_selected
chrome_reached = call 0 identity native_preflight start

no_classifier : ClassifierValid isolated_options
unfolding valid_backend_fallback_reason
no_classifier b classify f q = cc

accept_options-Trusted_example : Trusted isolated_options
unfolding accept_options valid_backend_fallback_reason validate_selection_evidence
accept_options-Trusted_example =
    accept_options-Trusted isolated_options isolated_options no_classifier refl

selection-EvidenceValid_example : EvidenceValid chrome_selected
selection-EvidenceValid_example =
    selection-EvidenceValid chrome_options chrome_selected chrome-Trusted chrome_reached

failure_keeps_or_drops_example :
    ((execute isolated_options new_selector 0 identity click_action).selector ≡ new_selector)
    ⊎ (((execute isolated_options new_selector 0 identity click_action).selector.selected ≡ none)
        × (is_preflight (fields_of click_action).kind ≡ true))
unfolding execute execute_from execute_unselected refuse
failure_keeps_or_drops_example =
    failure_keeps_or_drops isolated_options new_selector 0 identity click_action
      (new_failure ErrorCode.engine_unavailable "Browser backend must be selected by preflight"
        false)
      accept_options-Trusted_example refl

abbrev chrome_installed : Selector ℕ
chrome_installed = install new_selector chrome_backend chrome_evidence identity

session_check_never_decides_example :
    execute_with chrome_options chrome_installed 1 chrome_backend rotated_identity click_action
    ≡ unguarded chrome_options chrome_installed 1 chrome_backend rotated_identity click_action
session_check_never_decides_example =
    session_check_never_decides chrome_options chrome_installed 1 chrome_backend rotated_identity
      click_action
