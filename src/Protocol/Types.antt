-- ===== src/Protocol/Types.antt =====
-- packages/browser-runtime/browserprotocol/types.go. A Go type `string` with named constants is a
-- data type with those constants; `unset` is the empty string and `unknown` any other string, of
-- which the code reads nothing more. A pointer field is an `Option`; `int` is an integer.
use openlinker_plugin.Base.{ℕ, String, Bool, Option, List, ℤ}

pub data Controller : Type 0 where
  agent nobody human : Controller
  other : String → Controller

pub data ActionKind : Type 0 where
  navigate click type_non_secret scroll keypress select wait back forward screenshot : ActionKind
  checkpoint close preflight batch unknown : ActionKind

pub data ObservationMode : Type 0 where
  default semantic screenshot both nothing unknown : ObservationMode

pub data ErrorCode : Type 0 where
  protocol_invalid request_too_large output_too_large unauthorized identity_mismatch : ErrorCode
  stale_control_epoch request_replayed deadline_exceeded runtime_unavailable : ErrorCode
  engine_unavailable egress_unavailable target_blocked profile_locked profile_corrupt : ErrorCode
  profile_environment_mismatch profile_engine_downgrade profile_engine_upgrade : ErrorCode
  user_action_required high_impact_action_blocked mutation_origin_blocked : ErrorCode
  mutation_outcome_unknown access_denied rate_limited challenge_suspected : ErrorCode
  challenge_required origin_rate_limited viewer_unavailable action_limit_exceeded : ErrorCode
  click_retry_exhausted close_retry_exhausted canceled action_rejected output_invalid : ErrorCode
  internal unset unknown : ErrorCode

pub data ClickEffect : Type 0 where
  unset activated focused unknown : ClickEffect

pub data TargetCategory : Type 0 where
  unset link text_input button custom nothing other unknown : TargetCategory

pub record Identity : Type 0 where
  pub run_id : String
  pub agent_id : String
  pub principal_scope_id : String
  pub browser_session_id : String
  pub session_epoch : ℕ  -- uint64
  pub attachment_id : String
  pub control_epoch : ℕ  -- uint64
  pub controller : Controller
  pub browser_interaction_policy : String
  pub browser_interaction_policy_generation : ℤ  -- int64
  pub browser_mutation_origins : Option (List String)  -- a nil slice is `none`
  pub browser_mutation_origins_sha256 : String

-- The fields of `Action` other than `Actions`.
pub record ActionFields : Type 0 where
  pub kind : ActionKind
  pub observation : ObservationMode
  pub backend_mode : String
  pub url : String
  pub x : Option ℤ
  pub y : Option ℤ
  pub delta_x : Option ℤ
  pub delta_y : Option ℤ
  pub text : String
  pub key : String
  pub value : String
  pub duration_ms : Option ℤ

mutual
  pub data Action : Type 0 where
    action : ActionFields → Actions → Action

  -- `[]Action`
  pub data Actions : Type 0 where
    nil : Actions
    cons : Action → Actions → Actions

pub record BackendSelectionEvidence : Type 0 where
  pub requested_mode : String
  pub selected_backend : String
  pub fallback_reason : String
  pub asset_manifest_sha256 : String
  pub extension_id : String
  pub extension_version : String
  pub native_host_protocol : String
  pub profile_generation : ℕ  -- uint64
  pub session_recovered : Bool

pub record Screenshot : Type 0 where
  pub mime_type : String
  pub bytes : List ℕ
  pub width : ℤ
  pub height : ℤ

pub record Viewport : Type 0 where
  pub width : ℤ
  pub height : ℤ

pub record EnvironmentEvidence : Type 0 where
  pub browser_engine : String
  pub browser_distribution : String
  pub browser_version : String
  pub browser_major_version : ℤ
  pub browser_locale : String
  pub browser_timezone : String
  pub font_contract_version : String
  pub font_manifest_sha256 : String

pub record Observation : Type 0 where
  pub page_state_id : String
  pub viewport : Option Viewport
  pub navigation_generation : ℕ  -- uint64
  pub screenshot : Option Screenshot
  pub ax_tree : String  -- raw JSON
  pub dom_diff : String  -- raw JSON
  pub ax_tree_timed_out : Bool
  pub dom_diff_timed_out : Bool
  pub origin : String
  pub title : String
  pub click_effect : ClickEffect
  pub target_category : TargetCategory
  pub environment : Option EnvironmentEvidence
  pub backend_selection : Option BackendSelectionEvidence
  pub site_outcome : ErrorCode
  pub classifier_rules_version : String
  pub challenge_release_unavailable : Bool
  pub blocked_mutation_requests : ℤ
  pub mutation_requests_observed : ℤ
  pub engine_instance_id : ℕ  -- uint64

pub record Failure : Type 0 where
  pub code : ErrorCode
  pub message : String
  pub recoverable : Bool
  pub action_index : Option ℤ
  pub target_category : TargetCategory
  pub page_state_id : String
  pub navigation_generation : ℕ  -- uint64
  pub blocked_click_navigation_attempts_remaining : Option ℤ
  pub blocked_click_run_attempts_remaining : Option ℤ
  pub site_outcome : ErrorCode
  pub retry_after_ms : Option ℤ
  pub classifier_rules_version : String
  pub consecutive_access_denials : Option ℤ
  pub origin_blocked_for_attachment : Bool
  pub challenge_release_unavailable : Bool
  pub retry_same_action : Option Bool
  pub attachment_usable : Option Bool
  pub fresh_observation_required : Option Bool
  pub mutation_outcome_reason : String
  pub attempted_units : Option ℤ
  pub undispatched_units : Option ℤ
  pub completed_actions : Option ℤ
  pub mutation_requests_observed : ℤ
  pub observed_origin : String
  pub browser_mutation_origins : Option (List String)  -- a nil slice is `none`
  pub human_control_available : Bool
  pub engine_instance_id : ℕ  -- uint64
  pub engine_process_reset : Bool
