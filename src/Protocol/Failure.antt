-- ===== src/Protocol/Failure.antt =====
-- `NewFailure` of browserprotocol/types.go and `ValidateFailure` of browserprotocol/validation.go.
pub mod Validate
use Prim.Native.String.{slice}
use openlinker_plugin.Base.{
  ℕ, String, ◌≡◌, refl, Bool, true, false, Option, none, some, arith, leb, if◌then◌else◌, len,
  trim_space, ℤ, pos,
}
use openlinker_plugin.Protocol.Types.{ErrorCode, TargetCategory, Failure}

-- `boundedString` of identifiers.go, at a text whose limit falls between two runes.
unfoldable pub bounded_string : String → ℕ → String
bounded_string value limit = if leb (len value) limit then value else slice value 0 limit

unfoldable pub new_failure : ErrorCode → String → Bool → Failure
unfolding bounded_string
new_failure code message recoverable = record {
  code = code;
  message = bounded_string (trim_space message) 500;
  recoverable = recoverable;
  action_index = none;
  target_category = TargetCategory.unset;
  page_state_id = "";
  navigation_generation = 0;
  blocked_click_navigation_attempts_remaining = none;
  blocked_click_run_attempts_remaining = none;
  site_outcome = ErrorCode.unset;
  retry_after_ms = none;
  classifier_rules_version = "";
  consecutive_access_denials = none;
  origin_blocked_for_attachment = false;
  challenge_release_unavailable = false;
  retry_same_action = none;
  attachment_usable = none;
  fresh_observation_required = none;
  mutation_outcome_reason = "";
  attempted_units = none;
  undispatched_units = none;
  completed_actions = none;
  mutation_requests_observed = pos 0;
  observed_origin = "";
  browser_mutation_origins = none;
  human_control_available = false;
  engine_instance_id = 0;
  engine_process_reset = false;
}

-- The code of a new failure is the one given.
pub code-new_failure : (c : ErrorCode) (m : String) (r : Bool) → (new_failure c m r).code ≡ c
unfolding new_failure
code-new_failure c m r = refl

-- The result is a failure with this code.
abbrev pub FailsWith : ErrorCode → Option Failure → Type 0
FailsWith c none = ⊥
FailsWith c (some failure) = failure.code ≡ c

-- A value, or the failure that stands for it.
pub data Result {ℓ} (A : Type ℓ) : Type ℓ where
  ok : A → Result A
  failed : Failure → Result A
