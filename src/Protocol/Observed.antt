-- ===== src/Protocol/Observed.antt =====
-- `Observation.ValidateEngine`, `ValidateClosed` and `EnvironmentEvidence.Validate` of
-- browserprotocol/validation.go. `json.Valid` is an argument.
use openlinker_plugin.Base.{
  ℕ, String, Bool, true, false, ◌||◌, ◌&&◌, not, Option, none, some, List, [], ◌∷◌, ltb, ◌==◌,
  ◌=s=◌, if◌then◌else◌, len, length, codes, all_codes, has_code, is_digit, is_lower, is_upper,
  trim_space, same_codes, split_dots, pos, lt_int, eq_int, pos_part,
}
use openlinker_plugin.Protocol.Types.{
  Observation, Viewport, Screenshot, EnvironmentEvidence, BackendSelectionEvidence, ClickEffect,
  TargetCategory, ErrorCode, Failure,
}
use openlinker_plugin.Protocol.Failure.{new_failure}
use openlinker_plugin.Protocol.Failure.Validate.{is_some, reject, ◌orelse◌, challenge_rules_version}
use openlinker_plugin.Protocol.Identifiers.{valid_opaque_id}
use openlinker_plugin.Protocol.Backend.{
  valid_browser_version, valid_lower_hex, validate_selection_evidence,
}
use openlinker_plugin.Protocol.Action.{viewport_width, viewport_height}
use openlinker_plugin.Runtime.Scope.{decimal}

too_large : String → Option Failure
too_large message = some (new_failure ErrorCode.output_too_large message false)

-- The first part of a version.
first_part : List (List ℕ) → List ℕ
first_part [] = []
first_part (part ∷ parts) = part

-- validLocaleEvidence
unfoldable pub valid_locale_evidence : String → Bool
valid_locale_evidence value =
    if value =s= "" || ltb 64 (len value) || not (trim_space value =s= value)
    then false
    else all_codes (λ c. is_lower c || is_upper c || is_digit c || c == b'-') (codes value)

starts_with : List ℕ → List ℕ → Bool
starts_with [] cs = true
starts_with (p ∷ ps) [] = false
starts_with (p ∷ ps) (c ∷ cs) = p == c && starts_with ps cs

-- `strings.Contains(value, "..")`
has_two_dots : List ℕ → Bool
unfolding starts_with
has_two_dots [] = false
has_two_dots (c ∷ cs) = starts_with (codes "..") (c ∷ cs) || has_two_dots cs

-- validTimezoneEvidence
unfoldable pub valid_timezone_evidence : String → Bool
unfolding starts_with has_two_dots
valid_timezone_evidence value =
    if value =s= ""
      || ltb 128 (len value)
      || not (trim_space value =s= value)
      || starts_with (codes "/") (codes value)
      || has_two_dots (codes value)
    then false
    else all_codes (λ c. is_lower c || is_upper c || is_digit c || has_code c (codes "_+-/"))
        (codes value)

-- The switch on the distribution.
valid_distribution : String → String → Bool
valid_distribution distribution engine =
    if distribution =s= "playwright_chromium"
    then engine =s= "chromium"
    else if distribution =s= "google_chrome" || distribution =s= "chrome_for_testing"
    then engine =s= "chrome"
    else false

-- EnvironmentEvidence.Validate
unfoldable pub validate_environment : EnvironmentEvidence → Option Failure
unfolding first_part valid_distribution
validate_environment e =
    if not (e.browser_engine =s= "chromium") && not (e.browser_engine =s= "chrome")
    then reject "browser engine evidence is invalid"
    else if not (valid_distribution e.browser_distribution e.browser_engine)
    then reject "browser distribution evidence is invalid"
    else if lt_int e.browser_major_version (pos 1) || lt_int (pos 1000) e.browser_major_version
    then reject "browser version evidence is invalid"
    else if not (valid_browser_version e.browser_version)
        || not (
            same_codes (first_part (split_dots (codes e.browser_version)))
              (decimal (pos_part e.browser_major_version)))
    then reject "browser version evidence is invalid"
    else if not (valid_locale_evidence e.browser_locale)
        || not (valid_timezone_evidence e.browser_timezone)
        || not (valid_opaque_id e.font_contract_version 64)
        || not (valid_lower_hex e.font_manifest_sha256 64)
    then reject "browser environment evidence is invalid"
    else none

abbrev max_screenshot_bytes : ℕ
max_screenshot_bytes = 4194304

check_screenshot : Option Screenshot → Option Failure
unfolding too_large
check_screenshot none = none
check_screenshot (some shot) =
    if not (shot.mime_type =s= "image/png") && not (shot.mime_type =s= "image/jpeg")
    then reject "screenshot MIME type is not allowed"
    else if length shot.bytes == 0 || ltb max_screenshot_bytes (length shot.bytes)
    then too_large "screenshot exceeds the output limit"
    else if not (lt_int (pos 0) shot.width) || not (lt_int (pos 0) shot.height)
    then reject "screenshot dimensions are invalid"
    else none

-- The click effect agrees with the category of its target.
unfoldable pub agreeing_click : ClickEffect → TargetCategory → Bool
agreeing_click ClickEffect.unset TargetCategory.unset = true
agreeing_click ClickEffect.activated TargetCategory.link = true
agreeing_click ClickEffect.activated TargetCategory.button = true
agreeing_click ClickEffect.activated TargetCategory.custom = true
agreeing_click ClickEffect.activated TargetCategory.other = true
agreeing_click ClickEffect.focused TargetCategory.text_input = true
agreeing_click _ _ = false

abbrev viewport_agrees : Option Viewport → Bool
viewport_agrees none = false
viewport_agrees (some v) =
    eq_int v.width (pos viewport_width) && eq_int v.height (pos viewport_height)

abbrev shot_agrees : Option Screenshot → Bool
shot_agrees none = true
shot_agrees (some shot) =
    eq_int shot.width (pos viewport_width) && eq_int shot.height (pos viewport_height)

check_environment : Option EnvironmentEvidence → Option Failure
check_environment none = none
check_environment (some e) = validate_environment e

check_selection : Option BackendSelectionEvidence → Option Failure
check_selection none = none
check_selection (some e) = validate_selection_evidence e

-- The evidence that the site's outcome asks for.
site_evidence_agrees : ErrorCode → Observation → Bool
site_evidence_agrees ErrorCode.unset o =
    o.classifier_rules_version =s= "" && not o.challenge_release_unavailable
site_evidence_agrees ErrorCode.challenge_suspected o =
    o.classifier_rules_version =s= challenge_rules_version && o.challenge_release_unavailable
site_evidence_agrees _ o = false

module _ (is_json : String → Bool) where
  -- The body of the loop over the two trees.
  check_tree : ℕ → String → String → String → Option Failure
  unfolding too_large
  check_tree limit oversized malformed raw =
      if len raw == 0
      then none
      else if ltb limit (len raw)
      then too_large oversized
      else if not (is_json raw)
      then reject malformed
      else none

  -- validateCommon
  unfoldable pub validate_common : Observation → Option Failure
  unfolding check_screenshot check_tree too_large
  validate_common o =
      (if o.page_state_id =s= "" || ltb 256 (len o.page_state_id)
        then reject "page_state_id is empty or too large"
        else none)
      orelse check_screenshot o.screenshot
      orelse check_tree 1048576 "ax_tree exceeds the output limit" "ax_tree is not valid JSON"
          o.ax_tree
      orelse check_tree 1048576 "dom_diff exceeds the output limit" "dom_diff is not valid JSON"
          o.dom_diff
      orelse (if ltb 512 (len o.origin) || ltb 2048 (len o.title)
          then too_large "page metadata exceeds the output limit"
          else none)

  check_page : Observation → Option Failure
  check_page o =
      if not (viewport_agrees o.viewport)
      then reject "browser viewport is invalid"
      else if o.navigation_generation == 0
      then reject "navigation_generation must be positive"
      else if not (shot_agrees o.screenshot)
      then reject "screenshot dimensions are invalid"
      else if not (agreeing_click o.click_effect o.target_category)
      then reject "browser click effect is invalid"
      else none

  check_counts : Observation → Option Failure
  unfolding site_evidence_agrees
  check_counts o =
      if lt_int o.blocked_mutation_requests (pos 0) || lt_int (pos 1024) o.blocked_mutation_requests
      then reject "blocked mutation request count is invalid"
      else if lt_int o.mutation_requests_observed (pos 0)
          || lt_int (pos 32) o.mutation_requests_observed
      then reject "observed mutation request count is invalid"
      else if not (site_evidence_agrees o.site_outcome o)
      then reject "browser observation site evidence is invalid"
      else none

  -- Observation.ValidateEngine
  unfoldable pub validate_engine : Observation → Option Failure
  unfolding check_page check_counts check_environment check_selection
  validate_engine o =
      validate_common o
      orelse check_page o
      orelse check_environment o.environment
      orelse check_selection o.backend_selection
      orelse check_counts o

abbrev is_unset_effect : ClickEffect → Bool
is_unset_effect ClickEffect.unset = true
is_unset_effect _ = false

abbrev is_unset_target : TargetCategory → Bool
is_unset_target TargetCategory.unset = true
is_unset_target _ = false

abbrev is_unset_code : ErrorCode → Bool
is_unset_code ErrorCode.unset = true
is_unset_code _ = false

-- An observation with none of the fields that an engine fills.
has_engine_fields : Observation → Bool
has_engine_fields o =
    is_some o.viewport
    || not (o.navigation_generation == 0)
    || is_some o.screenshot
    || not (len o.ax_tree == 0)
    || not (len o.dom_diff == 0)
    || o.ax_tree_timed_out
    || o.dom_diff_timed_out
    || not (o.origin =s= "")
    || not (o.title =s= "")
    || not (is_unset_effect o.click_effect)
    || not (is_unset_target o.target_category)
    || is_some o.environment
    || is_some o.backend_selection
    || not (is_unset_code o.site_outcome)
    || not (o.classifier_rules_version =s= "")
    || o.challenge_release_unavailable
    || not (eq_int o.blocked_mutation_requests (pos 0))
    || not (eq_int o.mutation_requests_observed (pos 0))

-- Observation.ValidateClosed
unfoldable pub validate_closed : Observation → Option Failure
unfolding starts_with has_engine_fields
validate_closed o =
    if o.page_state_id =s= ""
      || ltb 256 (len o.page_state_id)
      || not (starts_with (codes "closed-") (codes o.page_state_id))
    then reject "closed page_state_id is invalid"
    else if has_engine_fields o
    then reject "closed observation contains Engine fields"
    else none
