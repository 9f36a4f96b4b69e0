-- ===== src/Protocol/Viewer.antt =====
-- The Viewer requests and frames of browserprotocol/viewer.go: their types and validation. A time
-- counts nanoseconds.
use openlinker_plugin.Base.{
  ℕ, suc, ◌+◌, ◌*◌, ◌^◌, String, Bool, true, false, ◌||◌, ◌&&◌, not, Option, none, some, List, ltb,
  leb, length, ◌==◌, ◌=s=◌, if◌then◌else◌, codes, len, all_codes, ℤ, pos, negsuc, lt_int, eq_int,
}
use openlinker_plugin.Protocol.Types.{Identity, Controller, human, Failure, ErrorCode}
use openlinker_plugin.Protocol.Failure.{new_failure, bounded_string}
use openlinker_plugin.Protocol.Failure.Validate.{◌orelse◌, is_some}
use openlinker_plugin.Protocol.Identifiers.{is_valid_uuid}
use openlinker_plugin.Protocol.Action.{viewport_width, viewport_height}
use openlinker_plugin.Protocol.Request.{max_action_deadline, validate_identity}

-- A float64: a finite one is its sign, mantissa and binary exponent.
pub data Float64 : Type 0 where
  nan : Float64
  infinite : Bool → Float64
  finite : Bool → ℕ → ℤ → Float64

-- `x != 0`
abbrev pub not_zero : Float64 → Bool
not_zero (finite negative m e) = not (m == 0)
not_zero _ = true

-- `math.Abs(x) > limit`
abbrev pub exceeds : ℕ → Float64 → Bool
exceeds limit nan = false
exceeds limit (infinite negative) = true
exceeds limit (finite negative m (pos e)) = ltb limit (m * 2 ^ e)
exceeds limit (finite negative m (negsuc e)) = ltb (limit * 2 ^ suc e) m

-- `math.IsNaN(x) || math.IsInf(x, 0)`
abbrev pub not_finite : Float64 → Bool
not_finite (finite negative m e) = false
not_finite _ = true

pub data ViewerOperation : Type 0 where
  enter exit frame input : ViewerOperation
  other_operation : String → ViewerOperation

pub data InputKind : Type 0 where
  pointer keyboard scroll : InputKind
  other_kind : String → InputKind

-- An absent action is the empty text.
pub data PointerAction : Type 0 where
  no_pointer move click : PointerAction
  other_pointer : String → PointerAction

pub data KeyboardAction : Type 0 where
  no_keyboard press text : KeyboardAction
  other_keyboard : String → KeyboardAction

pub record ViewerInput : Type 0 where
  pub kind : InputKind
  pub pointer_action : PointerAction
  pub keyboard_action : KeyboardAction
  pub x : Option ℤ
  pub y : Option ℤ
  pub button : String
  pub click_count : ℤ
  pub key : String
  pub content : String  -- `Text`
  pub delta_x : Float64
  pub delta_y : Float64

pub record ViewerRequest : Type 0 where
  pub contract : String
  pub channel_credential : String
  pub request_id : String
  pub deadline : ℕ
  pub identity : Identity
  pub operation : ViewerOperation
  pub given : Option ViewerInput  -- `Input`

pub record ViewerFrame : Type 0 where
  pub mime_type : String
  pub bytes : List ℕ
  pub width : ℤ
  pub height : ℤ

-- `ViewerResponse`, by its status.
pub data ViewerResponse : Type 0 where
  viewer_success : String → Option ViewerFrame → ViewerResponse
  viewer_error : String → Failure → ViewerResponse

-- ViewerErrorResponse, for a failure that is there.
unfoldable pub viewer_error_response : String → Failure → ViewerResponse
viewer_error_response request_id failure = viewer_error (bounded_string request_id 128) failure

abbrev pub viewer_invalid : String → Option Failure
viewer_invalid message = some (new_failure ErrorCode.protocol_invalid message false)

abbrev pub has_pointer : PointerAction → Bool
has_pointer no_pointer = false
has_pointer _ = true

abbrev pub has_keyboard : KeyboardAction → Bool
has_keyboard no_keyboard = false
has_keyboard _ = true

-- A coordinate below a bound.
abbrev pub inside : Option ℤ → ℕ → Bool
inside none bound = false
inside (some v) bound = not (lt_int v (pos 0)) && lt_int v (pos bound)

unfoldable pub check_pointer_action : PointerAction → ViewerInput → Option Failure
check_pointer_action move i =
    if not (i.button =s= "") || not (eq_int i.click_count (pos 0))
    then viewer_invalid "browser viewer pointer move is invalid"
    else none
check_pointer_action click i =
    if not (i.button =s= "left" || i.button =s= "middle" || i.button =s= "right")
    then viewer_invalid "browser viewer pointer button is invalid"
    else if lt_int i.click_count (pos 1) || lt_int (pos 3) i.click_count
    then viewer_invalid "browser viewer click count is invalid"
    else none
check_pointer_action _ i = viewer_invalid "browser viewer pointer action is invalid"

-- validatePointer
unfoldable pub validate_pointer : ViewerInput → Option Failure
unfolding check_pointer_action
validate_pointer i =
    if not (inside i.x viewport_width && inside i.y viewport_height)
    then viewer_invalid "browser viewer pointer coordinates are invalid"
    else if has_keyboard i.keyboard_action
        || not (i.key =s= "")
        || not (i.content =s= "")
        || not_zero i.delta_x
        || not_zero i.delta_y
    then viewer_invalid "browser viewer pointer input is invalid"
    else check_pointer_action i.pointer_action i

unfoldable pub check_keyboard_action : KeyboardAction → ViewerInput → Option Failure
check_keyboard_action press i =
    if i.key =s= "" || ltb 64 (len i.key) || not (i.content =s= "")
    then viewer_invalid "browser viewer key press is invalid"
    else none
check_keyboard_action text i =
    if not (i.key =s= "")
      || i.content =s= ""
      || ltb 4096 (len i.content)
      || not (all_codes (λ c. not (c == 0)) (codes i.content))
    then viewer_invalid "browser viewer text input is invalid"
    else none
check_keyboard_action _ i = viewer_invalid "browser viewer keyboard action is invalid"

-- validateKeyboard
unfoldable pub validate_keyboard : ViewerInput → Option Failure
unfolding check_keyboard_action
validate_keyboard i =
    if has_pointer i.pointer_action
      || is_some i.x
      || is_some i.y
      || not (i.button =s= "")
      || not (eq_int i.click_count (pos 0))
      || not_zero i.delta_x
      || not_zero i.delta_y
    then viewer_invalid "browser viewer keyboard input is invalid"
    else check_keyboard_action i.keyboard_action i

-- validateScroll
unfoldable pub validate_viewer_scroll : ViewerInput → Option Failure
validate_viewer_scroll i =
    if has_pointer i.pointer_action
      || has_keyboard i.keyboard_action
      || is_some i.x
      || is_some i.y
      || not (i.button =s= "")
      || not (eq_int i.click_count (pos 0))
      || not (i.key =s= "")
      || not (i.content =s= "")
      || not_finite i.delta_x
      || not_finite i.delta_y
      || exceeds 4096 i.delta_x
      || exceeds 4096 i.delta_y
      || (not (not_zero i.delta_x) && not (not_zero i.delta_y))
    then viewer_invalid "browser viewer scroll input is invalid"
    else none

check_input_kind : InputKind → ViewerInput → Option Failure
unfolding validate_pointer validate_keyboard validate_viewer_scroll
check_input_kind pointer i = validate_pointer i
check_input_kind keyboard i = validate_keyboard i
check_input_kind scroll i = validate_viewer_scroll i
check_input_kind (other_kind name) i = viewer_invalid "browser viewer input kind is invalid"

-- ViewerInput.Validate
unfoldable pub validate_input : ViewerInput → Option Failure
unfolding check_input_kind
validate_input i = check_input_kind i.kind i

abbrev pub max_viewer_frame_bytes : ℕ
max_viewer_frame_bytes = 1048576

-- The test of ViewerFrame.Validate
unfoldable pub valid_viewer_frame : ViewerFrame → Bool
valid_viewer_frame f =
    f.mime_type =s= "image/jpeg"
    && not (length f.bytes == 0)
    && leb (length f.bytes) max_viewer_frame_bytes
    && eq_int f.width (pos viewport_width)
    && eq_int f.height (pos viewport_height)

-- ViewerFrame.Validate
unfoldable pub validate_viewer_frame : ViewerFrame → Option Failure
validate_viewer_frame f =
    if valid_viewer_frame f
    then none
    else some (new_failure ErrorCode.output_invalid "browser viewer frame is invalid" false)

no_input : Option ViewerInput → Option Failure
no_input none = none
no_input (some i) = viewer_invalid "browser viewer operation contains unexpected input"

needed_input : Option ViewerInput → Option Failure
needed_input none = viewer_invalid "browser viewer input is missing"
needed_input (some i) = validate_input i

unfoldable pub check_operation : ViewerOperation → Option ViewerInput → Option Failure
unfolding no_input needed_input
check_operation input given = needed_input given
check_operation (other_operation name) given = viewer_invalid "browser viewer operation is invalid"
check_operation _ given = no_input given

abbrev pub is_human : Controller → Bool
is_human human = true
is_human _ = false

unfoldable pub check_viewer_deadline : ℕ → ℕ → Option Failure
check_viewer_deadline deadline now =
    if deadline == 0 || not (ltb now deadline)
    then some (new_failure ErrorCode.deadline_exceeded "browser viewer deadline has elapsed" true)
    else if ltb (now + max_action_deadline) deadline
    then viewer_invalid "browser viewer deadline exceeds the allowed horizon"
    else none

unfoldable pub check_controller_human : Controller → Option Failure
check_controller_human controller =
    if is_human controller
    then none
    else some (
        new_failure ErrorCode.stale_control_epoch
          "browser viewer request does not hold human control" false)

module _ (canonical_mutation_origin : String → Option String) (digest : List String → String) where
  -- ViewerRequest.Validate
  unfoldable pub validate_viewer_request : ViewerRequest → ℕ → Option Failure
  validate_viewer_request r now =
      (if not (r.contract =s= "openlinker.browser.viewer.v1")
        then viewer_invalid "unsupported browser viewer contract"
        else if not (is_valid_uuid r.request_id)
        then viewer_invalid "request_id must be a UUID"
        else none)
      orelse validate_identity canonical_mutation_origin digest r.identity
      orelse check_controller_human r.identity.controller
      orelse check_viewer_deadline r.deadline now
      orelse check_operation r.operation r.given
