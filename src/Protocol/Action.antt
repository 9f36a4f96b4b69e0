-- ===== src/Protocol/Action.antt =====
-- packages/browser-runtime/browserprotocol/action.go: `Action.ValidateForPolicy`. The destination
-- check of `navigate` (destination.go, on net/url and net/netip) is an argument.
pub mod Policy
pub mod Bounds
use openlinker_plugin.Base.{
  ℕ, suc, ◌+◌, String, Bool, true, false, ◌||◌, ◌&&◌, not, Option, none, some, List, [], ◌∷◌, ltb,
  leb, ◌==◌, ◌=s=◌, if◌then◌else◌, len, has, ℤ, pos, negsuc, lt_int, eq_int, min_int_magnitude,
}
use openlinker_plugin.Protocol.Types.{
  ActionKind, ObservationMode, ActionFields, Action, Actions, Failure, ErrorCode, action, nil, cons,
}
use openlinker_plugin.Protocol.Failure.{new_failure}
use openlinker_plugin.Protocol.Failure.Validate.{is_some, ◌orelse◌}

abbrev pub viewport_width : ℕ
viewport_width = 1280

abbrev pub viewport_height : ℕ
viewport_height = 720

unfoldable pub invalid : String → Option Failure
invalid message = some (new_failure ErrorCode.protocol_invalid message false)

-- The keys of `presentFields`.
pub data Field : Type 0 where
  url backend_mode x y delta_x delta_y text key value duration_ms actions : Field

abbrev field_index : Field → ℕ
field_index Field.url = 0
field_index Field.backend_mode = 1
field_index Field.x = 2
field_index Field.y = 3
field_index Field.delta_x = 4
field_index Field.delta_y = 5
field_index Field.text = 6
field_index Field.key = 7
field_index Field.value = 8
field_index Field.duration_ms = 9
field_index Field.actions = 10

abbrev all_fields : List Field
all_fields =
    Field.url ∷ Field.backend_mode ∷ Field.x ∷ Field.y ∷ Field.delta_x ∷ Field.delta_y ∷ Field.text
    ∷ Field.key ∷ Field.value ∷ Field.duration_ms ∷ Field.actions ∷ []

abbrev pub count_nested : Actions → ℕ
count_nested nil = 0
count_nested (cons a rest) = suc (count_nested rest)

-- presentFields
abbrev pub present : ActionFields → Actions → Field → Bool
present f nested Field.url = not (f.url =s= "")
present f nested Field.backend_mode = not (f.backend_mode =s= "")
present f nested Field.x = is_some f.x
present f nested Field.y = is_some f.y
present f nested Field.delta_x = is_some f.delta_x
present f nested Field.delta_y = is_some f.delta_y
present f nested Field.text = not (f.text =s= "")
present f nested Field.key = not (f.key =s= "")
present f nested Field.value = not (f.value =s= "")
present f nested Field.duration_ms = is_some f.duration_ms
present f nested Field.actions = not (count_nested nested == 0)

abbrev pub is_listed : Field → List Field → Bool
is_listed field [] = false
is_listed field (other ∷ rest) = field_index field == field_index other || is_listed field rest

abbrev unexpected : ActionFields → Actions → List Field → List Field → Bool
unexpected f nested allowed [] = false
unexpected f nested allowed (field ∷ rest) =
    (present f nested field && not (is_listed field allowed)) || unexpected f nested allowed rest

abbrev missing : ActionFields → Actions → List Field → Bool
missing f nested [] = false
missing f nested (field ∷ rest) = not (present f nested field) || missing f nested rest

-- allowOnly. The map is walked in any order; every refusal is the same.
unfoldable pub allow_only : ActionFields → Actions → List Field → Option Failure
allow_only f nested allowed =
    if unexpected f nested allowed all_fields
    then invalid "browser action contains an unexpected field"
    else none

-- requireOnly
unfoldable pub require_only : ActionFields → Actions → List Field → Option Failure
unfolding allow_only
require_only f nested fields =
    allow_only f nested fields
    orelse (if missing f nested fields
        then invalid "browser action is missing a required field"
        else none)

-- abs of action.go, on 64-bit integers: the least one is its own negation.
abbrev pub abs : ℤ → ℤ
abs (pos n) = pos n
abs (negsuc n) = if n + 1 == min_int_magnitude then negsuc n else pos (n + 1)

-- valueOrZero
abbrev pub value_or_zero : Option ℤ → ℤ
value_or_zero none = pos 0
value_or_zero (some v) = v

abbrev pub keys : List String
keys =
    "Enter" ∷ "Space" ∷ "Tab" ∷ "Escape" ∷ "ArrowUp" ∷ "ArrowDown" ∷ "ArrowLeft" ∷ "ArrowRight"
    ∷ "PageUp" ∷ "PageDown" ∷ "Home" ∷ "End" ∷ "Backspace" ∷ "Delete" ∷ []

-- allowedKey
unfoldable pub allowed_key : String → Bool
allowed_key name = has name keys

-- validateCoordinates
unfoldable pub validate_coordinates : Option ℤ → Option ℤ → Option Failure
validate_coordinates (some left) (some top) =
    if lt_int left (pos 0)
      || lt_int top (pos 0)
      || not (lt_int left (pos viewport_width))
      || not (lt_int top (pos viewport_height))
    then invalid "browser action coordinates are out of range"
    else none
validate_coordinates _ _ = invalid "browser action requires coordinates"

unfoldable pub validate_scroll : ActionFields → Option Failure
validate_scroll f =
    if not (is_some f.delta_x) && not (is_some f.delta_y)
    then invalid "scroll requires a delta"
    else if eq_int (value_or_zero f.delta_x) (pos 0) && eq_int (value_or_zero f.delta_y) (pos 0)
    then invalid "scroll delta must be non-zero"
    else if lt_int (pos 32768) (abs (value_or_zero f.delta_x))
        || lt_int (pos 32768) (abs (value_or_zero f.delta_y))
    then invalid "scroll delta is out of range"
    else none

unfoldable pub validate_key : String → String → Option Failure
validate_key policy name =
    if not (allowed_key name)
    then invalid "keypress key is not allowed"
    else if name =s= "Space" && not (policy =s= "full")
    then invalid "restricted policy does not allow Space"
    else none

-- `duration == nil || *duration < 1 || *duration > 5000`
abbrev duration_invalid : Option ℤ → Bool
duration_invalid none = true
duration_invalid (some v) = lt_int v (pos 1) || lt_int (pos 5000) v

abbrev known_backend_mode : String → Bool
known_backend_mode mode =
    mode =s= "auto"
    || mode =s= "openlinker-native-chrome"
    || mode =s= "official-chrome"
    || mode =s= "isolated"

validate_preflight : ActionFields → Actions → Option Failure
unfolding require_only
validate_preflight f nested =
    if f.backend_mode =s= ""
    then require_only f nested []
    else if known_backend_mode f.backend_mode
    then require_only f nested (Field.backend_mode ∷ [])
    else invalid "browser backend mode is invalid"

validate_select : String → ActionFields → Actions → Option Failure
unfolding require_only
validate_select policy f nested =
    if not (policy =s= "full")
    then some (new_failure ErrorCode.action_rejected "Phase 1 does not allow select controls" false)
    else require_only f nested (Field.value ∷ [])
      orelse (if f.value =s= "" || ltb 2048 (len f.value)
          then invalid "select value is empty or too large"
          else none)

-- ObservationMode.Validate
unfoldable pub validate_observation_mode : ObservationMode → Option Failure
validate_observation_mode ObservationMode.unknown = invalid "observation mode is invalid"
validate_observation_mode _ = none

abbrev pub is_default : ObservationMode → Bool
is_default ObservationMode.default = true
is_default _ = false

abbrev barred_in_batch : ActionKind → Bool
barred_in_batch ActionKind.batch = true
barred_in_batch ActionKind.close = true
barred_in_batch ActionKind.checkpoint = true
barred_in_batch ActionKind.preflight = true
barred_in_batch _ = false

abbrev pub passive_in_batch : ActionKind → Bool
passive_in_batch ActionKind.scroll = true
passive_in_batch ActionKind.wait = true
passive_in_batch ActionKind.screenshot = true
passive_in_batch _ = false

-- The tests of the batch loop on one nested action, before it is validated itself.
unfoldable pub nested_rule : String → ActionFields → Option Failure
nested_rule policy f =
    if not (is_default f.observation)
    then invalid "browser batch controls the final observation"
    else if barred_in_batch f.kind
    then invalid "browser batch contains a disallowed action"
    else if not (policy =s= "full") && not (passive_in_batch f.kind)
    then invalid "browser batch contains a disallowed action"
    else none

module _ (validate_navigate_url : String → Option Failure) where
  -- The `switch` on the kind; `within` is the verdict on the nested actions.
  unfoldable pub validate_kind :
      ActionKind → String → ActionFields → Actions → Option Failure → Option Failure
  unfolding require_only allow_only validate_preflight validate_select
  validate_kind ActionKind.navigate policy f nested within =
      require_only f nested (Field.url ∷ []) orelse validate_navigate_url f.url
  validate_kind ActionKind.click policy f nested within =
      require_only f nested (Field.x ∷ Field.y ∷ []) orelse validate_coordinates f.x f.y
  validate_kind ActionKind.type_non_secret policy f nested within =
      require_only f nested (Field.text ∷ [])
      orelse (if f.text =s= "" || ltb 16384 (len f.text)
          then invalid "type_non_secret text is empty or too large"
          else none)
  validate_kind ActionKind.scroll policy f nested within =
      allow_only f nested (Field.delta_x ∷ Field.delta_y ∷ []) orelse validate_scroll f
  validate_kind ActionKind.keypress policy f nested within =
      require_only f nested (Field.key ∷ []) orelse validate_key policy f.key
  validate_kind ActionKind.select policy f nested within = validate_select policy f nested
  validate_kind ActionKind.wait policy f nested within =
      require_only f nested (Field.duration_ms ∷ [])
      orelse (if duration_invalid f.duration_ms
          then invalid "wait duration must be between 1 and 5000 milliseconds"
          else none)
  validate_kind ActionKind.preflight policy f nested within = validate_preflight f nested
  validate_kind ActionKind.batch policy f nested within =
      require_only f nested (Field.actions ∷ [])
      orelse (if ltb (count_nested nested) 2 || ltb 8 (count_nested nested)
          then invalid "browser batch requires two to eight actions"
          else within)
  validate_kind ActionKind.unknown policy f nested within = invalid "browser action is not allowed"
  validate_kind _ policy f nested within = require_only f nested []

  unfoldable mutual
    -- Action.ValidateForPolicy
    pub validate_for_policy : String → Action → Option Failure
    validate_for_policy policy (action f nested) =
        validate_observation_mode f.observation
        orelse validate_kind f.kind policy f nested (validate_nested policy nested)

    -- The loop over `action.Actions`.
    pub validate_nested : String → Actions → Option Failure
    validate_nested policy nil = none
    validate_nested policy (cons (action f inner) rest) =
        nested_rule policy f
        orelse validate_for_policy policy (action f inner)
        orelse validate_nested policy rest
