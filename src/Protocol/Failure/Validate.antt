-- ===== src/Protocol/Failure/Validate.antt =====
-- `ValidateFailure` of browserprotocol/validation.go with its helpers: what the evidence of a
-- failure must look like, on the Runtime's side and on the client's.
use openlinker_plugin.Base.{
  ℕ, String, Bool, true, false, ◌||◌, ◌&&◌, not, Option, none, some, List, ltb, ◌==◌, ◌=s=◌,
  if◌then◌else◌, len, trim_space, ℤ, pos, lt_int, eq_int,
}
use openlinker_plugin.Protocol.Types.{Failure, ErrorCode, TargetCategory}
use openlinker_plugin.Protocol.Failure.{new_failure, ok, failed}
use openlinker_plugin.Protocol.Identifiers.{valid_opaque_id}
use openlinker_plugin.Protocol.Origins.{canonical_mutation_origins, same_texts}

abbrev pub is_some {ℓ} : {A : Type ℓ} → Option A → Bool
is_some none = false
is_some (some a) = true

-- `value != nil && (*value < low || *value > high)`
abbrev pub outside : ℕ → ℕ → Option ℤ → Bool
outside low high none = false
outside low high (some v) = lt_int v (pos low) || lt_int (pos high) v

-- `flag == nil || *flag`, `flag == nil || !*flag`
abbrev nil_or_true : Option Bool → Bool
nil_or_true none = true
nil_or_true (some b) = b

abbrev nil_or_false : Option Bool → Bool
nil_or_false none = true
nil_or_false (some b) = not b

unfoldable pub valid_error_code : ErrorCode → Bool
valid_error_code ErrorCode.unset = false
valid_error_code ErrorCode.unknown = false
valid_error_code _ = true

unfoldable pub valid_target_category : TargetCategory → Bool
valid_target_category TargetCategory.unset = false
valid_target_category TargetCategory.unknown = false
valid_target_category _ = true

unfoldable pub reject : String → Option Failure
reject message = some (new_failure ErrorCode.output_invalid message false)

abbrev is_unset_category : TargetCategory → Bool
is_unset_category TargetCategory.unset = true
is_unset_category _ = false

abbrev pub challenge_rules_version : String
challenge_rules_version = "openlinker.browser.challenge-rules.v1"

-- The site outcomes that `validateSiteFailureEvidence` admits.
pub data SiteOutcome : Type 0 where
  absent access_denied rate_limited challenge_suspected challenge_required : SiteOutcome
  origin_rate_limited invalid : SiteOutcome

unfoldable pub site_outcome_of : ErrorCode → SiteOutcome
site_outcome_of ErrorCode.unset = SiteOutcome.absent
site_outcome_of ErrorCode.access_denied = SiteOutcome.access_denied
site_outcome_of ErrorCode.rate_limited = SiteOutcome.rate_limited
site_outcome_of ErrorCode.challenge_suspected = SiteOutcome.challenge_suspected
site_outcome_of ErrorCode.challenge_required = SiteOutcome.challenge_required
site_outcome_of ErrorCode.origin_rate_limited = SiteOutcome.origin_rate_limited
site_outcome_of _ = SiteOutcome.invalid

-- `failure.Code == failure.SiteOutcome`, where the outcome is one of the five admitted.
abbrev same_outcome : SiteOutcome → SiteOutcome → Bool
same_outcome SiteOutcome.access_denied SiteOutcome.access_denied = true
same_outcome SiteOutcome.rate_limited SiteOutcome.rate_limited = true
same_outcome SiteOutcome.challenge_suspected SiteOutcome.challenge_suspected = true
same_outcome SiteOutcome.challenge_required SiteOutcome.challenge_required = true
same_outcome SiteOutcome.origin_rate_limited SiteOutcome.origin_rate_limited = true
same_outcome _ _ = false

abbrev is_challenge : SiteOutcome → Bool
is_challenge SiteOutcome.challenge_suspected = true
is_challenge SiteOutcome.challenge_required = true
is_challenge _ = false

abbrev is_rate_limit : SiteOutcome → Bool
is_rate_limit SiteOutcome.rate_limited = true
is_rate_limit SiteOutcome.origin_rate_limited = true
is_rate_limit _ = false

abbrev is_denial : SiteOutcome → Bool
is_denial SiteOutcome.access_denied = true
is_denial _ = false

abbrev bool_eq : Bool → Bool → Bool
bool_eq true b = b
bool_eq false b = not b

abbrev is_three : Option ℤ → Bool
is_three none = false
is_three (some v) = eq_int v (pos 3)

unfoldable pub site_evidence : SiteOutcome → Failure → Option Failure
unfolding site_outcome_of
site_evidence SiteOutcome.absent failure =
    if is_some failure.retry_after_ms
      || not (failure.classifier_rules_version =s= "")
      || is_some failure.consecutive_access_denials
      || failure.origin_blocked_for_attachment
    then reject "browser site evidence has no outcome"
    else none
site_evidence SiteOutcome.invalid failure = reject "browser site outcome is invalid"
site_evidence outcome failure =
    if not (same_outcome (site_outcome_of failure.code) outcome)
    then reject "browser site outcome does not match the failure"
    else if not (bool_eq (is_challenge outcome) (not (failure.classifier_rules_version =s= "")))
    then reject "browser classifier version evidence is invalid"
    else if not (failure.classifier_rules_version =s= "")
        && not (failure.classifier_rules_version =s= challenge_rules_version)
    then reject "browser classifier version is unsupported"
    else if is_some failure.retry_after_ms
        && (outside 1 900000 failure.retry_after_ms || not (is_rate_limit outcome))
    then reject "browser retry-after evidence is invalid"
    else if is_some failure.consecutive_access_denials
        && (not (is_denial outcome) || outside 1 3 failure.consecutive_access_denials)
    then reject "browser access-denial evidence is invalid"
    else if failure.origin_blocked_for_attachment
        && not (is_three failure.consecutive_access_denials)
    then reject "browser origin-block evidence is invalid"
    else none

-- validateSiteFailureEvidence
unfoldable pub validate_site_failure_evidence : Failure → Option Failure
unfolding site_evidence
validate_site_failure_evidence failure =
    site_evidence (site_outcome_of failure.site_outcome) failure

-- The test that opens the `ErrorMutationOutcomeUnknown` case.
abbrev unknown_evidence_invalid : Failure → Bool
unknown_evidence_invalid f =
    f.recoverable
    || nil_or_true f.retry_same_action
    || not (is_some f.attachment_usable)
    || not (is_some f.fresh_observation_required)
    || f.mutation_outcome_reason =s= ""
    || not (valid_opaque_id f.mutation_outcome_reason 96)
    || not (f.observed_origin =s= "")
    || is_some f.browser_mutation_origins

abbrev same_flags : Option Bool → Option Bool → Bool
same_flags (some a) (some b) = bool_eq a b
same_flags _ _ = false

abbrev origin_evidence_invalid : Failure → Bool
origin_evidence_invalid f =
    f.recoverable
    || nil_or_true f.retry_same_action
    || nil_or_false f.attachment_usable
    || not (is_some f.fresh_observation_required)
    || not (f.mutation_outcome_reason =s= "")
    || is_some f.attempted_units
    || is_some f.undispatched_units
    || not (is_some f.browser_mutation_origins)

abbrev has_mutation_evidence : Failure → Bool
has_mutation_evidence f =
    is_some f.retry_same_action
    || is_some f.attachment_usable
    || is_some f.fresh_observation_required
    || not (f.mutation_outcome_reason =s= "")
    || is_some f.attempted_units
    || is_some f.undispatched_units
    || not (f.observed_origin =s= "")
    || is_some f.browser_mutation_origins

module _ (canonical_mutation_origin : String → Option String) (digest : List String → String) where
  is_canonical_origin : String → Bool
  is_canonical_origin origin = elim (canonical_mutation_origin origin) [
    | none ↦ false
    | some canonical ↦ canonical =s= origin
  ]

  are_canonical_origins : Option (List String) → Bool
  are_canonical_origins none = false
  are_canonical_origins (some origins) =
      elim (canonical_mutation_origins canonical_mutation_origin digest "full" (some origins)) [
        | failed failure ↦ false
        | ok (canonical, found) ↦ same_texts canonical origins
      ]

  origin_evidence : Failure → Option Failure
  unfolding is_canonical_origin are_canonical_origins
  origin_evidence f =
      if origin_evidence_invalid f
      then reject "browser mutation-origin evidence is invalid"
      else if not (f.observed_origin =s= "") && not (is_canonical_origin f.observed_origin)
      then reject "browser observed mutation origin is invalid"
      else if not (are_canonical_origins f.browser_mutation_origins)
      then reject "browser mutation-origin evidence is invalid"
      else none

  outcome_evidence : Failure → Option Failure
  outcome_evidence f =
      if unknown_evidence_invalid f
      then reject "browser mutation uncertainty evidence is invalid"
      else if not (same_flags f.attachment_usable f.fresh_observation_required)
      then reject "browser mutation uncertainty recovery is invalid"
      else if not (bool_eq (is_some f.attempted_units) (is_some f.undispatched_units))
      then reject "browser text-entry uncertainty evidence is invalid"
      else if outside 0 2048 f.attempted_units || outside 0 2048 f.undispatched_units
      then reject "browser text-entry uncertainty evidence is invalid"
      else none

  mutation_evidence : ErrorCode → Failure → Option Failure
  unfolding origin_evidence outcome_evidence
  mutation_evidence ErrorCode.mutation_origin_blocked f = origin_evidence f
  mutation_evidence ErrorCode.mutation_outcome_unknown f = outcome_evidence f
  mutation_evidence _ f =
      if has_mutation_evidence f
      then reject "browser failure contains unexpected mutation evidence"
      else none

  -- validateMutationFailureEvidence
  unfoldable pub validate_mutation_failure_evidence : Failure → Option Failure
  unfolding mutation_evidence
  validate_mutation_failure_evidence f = mutation_evidence f.code f

-- The target, page state and generation that a blocked click must carry.
abbrev pub click_target_invalid : Failure → Bool
click_target_invalid f =
    not (valid_target_category f.target_category)
    || f.page_state_id =s= ""
    || ltb 256 (len f.page_state_id)
    || f.navigation_generation == 0

abbrev has_click_context : Failure → Bool
has_click_context f =
    not (is_unset_category f.target_category)
    || not (f.page_state_id =s= "")
    || not (f.navigation_generation == 0)
    || is_some f.blocked_click_navigation_attempts_remaining
    || is_some f.blocked_click_run_attempts_remaining

-- The evidence of a blocked click, which no other failure may carry.
unfoldable pub click_evidence : ErrorCode → Failure → Option Failure
click_evidence ErrorCode.high_impact_action_blocked f =
    if click_target_invalid f then reject "browser blocked-click evidence is invalid" else none
click_evidence ErrorCode.click_retry_exhausted f =
    if click_target_invalid f
      || not (is_some f.blocked_click_navigation_attempts_remaining)
      || not (is_some f.blocked_click_run_attempts_remaining)
    then reject "browser click retry evidence is invalid"
    else none
click_evidence _ f =
    if has_click_context f
    then reject "browser failure contains unexpected click evidence"
    else none

-- `failure.CompletedActions` against `failure.ActionIndex`.
abbrev completion_invalid : Option ℤ → Option ℤ → Bool
completion_invalid none index = false
completion_invalid (some completed) none = true
completion_invalid (some completed) (some index) =
    outside 0 8 (some completed) || not (eq_int completed index)

abbrev allows_human_control : ErrorCode → Bool
allows_human_control ErrorCode.user_action_required = true
allows_human_control ErrorCode.challenge_required = true
allows_human_control ErrorCode.viewer_unavailable = true
allows_human_control _ = false

-- The first rejection wins.
infixr 20 ◌orelse◌
abbrev pub ◌orelse◌ : Option Failure → Option Failure → Option Failure
none orelse b = b
some failure orelse b = some failure

unfoldable pub envelope_evidence : Failure → Option Failure
envelope_evidence f =
    if not (valid_error_code f.code)
    then reject "browser failure code is invalid"
    else if f.message =s= "" || not (trim_space f.message =s= f.message) || ltb 500 (len f.message)
    then reject "browser failure message is invalid"
    else if outside 0 7 f.action_index
    then reject "browser failure action index is invalid"
    else if completion_invalid f.completed_actions f.action_index
    then reject "browser batch completion evidence is invalid"
    else if outside 0 32 (some f.mutation_requests_observed)
    then reject "observed mutation request count is invalid"
    else none

unfoldable pub click_budget_evidence : Failure → Option Failure
click_budget_evidence f =
    if outside 0 3 f.blocked_click_navigation_attempts_remaining
    then reject "browser navigation click retry budget is invalid"
    else if outside 0 12 f.blocked_click_run_attempts_remaining
    then reject "browser Run click retry budget is invalid"
    else none

unfoldable pub human_control_evidence : Failure → Option Failure
human_control_evidence f =
    if f.human_control_available && not (allows_human_control f.code)
    then reject "browser failure contains unexpected human-control availability"
    else none

module _ (canonical_mutation_origin : String → Option String) (digest : List String → String) where
  -- ValidateFailure, of a failure that is there.
  unfoldable pub validate_failure : Failure → Option Failure
  validate_failure f =
      envelope_evidence f
      orelse click_evidence f.code f
      orelse click_budget_evidence f
      orelse validate_site_failure_evidence f
      orelse validate_mutation_failure_evidence canonical_mutation_origin digest f
      orelse human_control_evidence f
