-- ===== src/Runtime/Admission.antt =====
-- Admission of requests by the Browser Runtime server: the state of `Server` that `seenMu` guards
-- (browserruntime/server.go) and the functions of browserruntime/connection.go that change it.
-- Every function runs under that lock, so each is one step on the state. The counters are `int`s
-- below their limits, so they do not wrap.
pub mod Events
pub mod Limits
pub mod Replay
pub mod Terminal
pub mod Budget
pub mod Clicks
pub mod Evidence
pub mod Requests
use openlinker_plugin.Base.{
  ℕ, suc, ◌+◌, ◌-◌, String, Bool, true, false, ◌&&◌, ◌||◌, not, Option, none, some, List, [], ◌∷◌,
  ltb, leb, ◌==◌, ◌=s=◌, if◌then◌else◌, has, same_codes, pos,
}
use openlinker_plugin.Protocol.Types.{
  Identity, ActionKind, ActionFields, Action, Actions, Observation, Failure, ErrorCode,
  TargetCategory, action, nil, cons,
}
use openlinker_plugin.Protocol.Failure.{new_failure}
use openlinker_plugin.Runtime.Scope.{attachment_request_scope, click_navigation_scope}
pub use openlinker_plugin.Runtime.Server.{Server}
unfoldable pub use openlinker_plugin.Runtime.Server.{
  max_close_attempts_per_attachment, max_blocked_clicks_per_navigation, max_blocked_clicks_per_run,
  max_viewer_requests_per_epoch, new_server, enter_scope, prepare_click_scope,
}

-- clickRetryFailureLocked. `max(0, limit - count)` is the truncated difference.
unfoldable pub click_retry_failure : Server → Failure
click_retry_failure s =
    let failure =
      new_failure ErrorCode.click_retry_exhausted "browser blocked-click retry budget is exhausted"
        false in
    record failure {
      target_category = s.last_blocked_target_category;
      page_state_id = s.click_page_state_id;
      navigation_generation = s.click_navigation_generation;
      blocked_click_navigation_attempts_remaining =
          some (pos (max_blocked_clicks_per_navigation - s.blocked_click_navigation_count));
      blocked_click_run_attempts_remaining =
          some (pos (max_blocked_clicks_per_run - s.blocked_click_run_count));
    }

abbrev pub is_close : ActionKind → Bool
is_close ActionKind.close = true
is_close _ = false

abbrev pub is_click : ActionKind → Bool
is_click ActionKind.click = true
is_click _ = false

-- len(action.Actions)
abbrev pub count_actions : Actions → ℕ
count_actions nil = 0
count_actions (cons a rest) = suc (count_actions rest)

abbrev batch_cost : ActionKind → Actions → ℕ
batch_cost ActionKind.batch nested = count_actions nested
batch_cost _ nested = 1

abbrev pub kind_of : Action → ActionKind
kind_of (action fields nested) = fields.kind

-- What an action counts for: a batch by its length.
abbrev pub cost : Action → ℕ
cost (action fields nested) = batch_cost fields.kind nested

-- The close branch of `reserveRequest`, after the replay check.
unfoldable pub reserve_close : Server → String → Server × Option Failure
reserve_close s request_id =
    if leb max_close_attempts_per_attachment s.close_count
    then (
      record s { terminal = true },
      some (
          new_failure ErrorCode.close_retry_exhausted
            "browser attachment close retry budget is exhausted" false),
    )
    else (
      record s {
        seen = request_id ∷ s.seen;
        close_count = s.close_count + 1;
        terminal = s.close_count + 1 == max_close_attempts_per_attachment || s.terminal;
      },
      none,
    )

-- The other actions, after the replay check.
unfoldable pub reserve_action : ℕ → Server → String → ActionKind → ℕ → Server × Option Failure
reserve_action max_requests s request_id kind price =
    if s.terminal
    then (
      s,
      some (
          new_failure ErrorCode.close_retry_exhausted
            "browser attachment is terminal after close retry exhaustion" false),
    )
    else if ltb max_requests (s.action_count + price)
    then (
      s,
      some (
          new_failure ErrorCode.action_limit_exceeded "browser attachment reached its action limit"
            false),
    )
    else let t = record s { seen = request_id ∷ s.seen; action_count = s.action_count + price } in
      (
        t,
        if is_click kind
              && (leb max_blocked_clicks_per_navigation s.blocked_click_navigation_count
                  || leb max_blocked_clicks_per_run s.blocked_click_run_count)
            then some (click_retry_failure t)
            else none,
      )

-- The body of `reserveRequest` once the scopes are set.
unfoldable pub reserve_in_scope : ℕ → Server → String → ActionKind → ℕ → Server × Option Failure
unfolding reserve_close reserve_action
reserve_in_scope max_requests s request_id kind price =
    if has request_id s.seen
    then (
      s,
      some
          (new_failure ErrorCode.request_replayed "browser request_id has already been used" false),
    )
    else if is_close kind
    then reserve_close s request_id
    else reserve_action max_requests s request_id kind price

-- reserveRequest
unfoldable pub reserve_request : ℕ → Server → Identity → String → Action → Server × Option Failure
reserve_request max_requests s identity request_id act =
    reserve_in_scope max_requests (prepare_click_scope (enter_scope s identity) identity) request_id
      (kind_of act) (cost act)

reserve_viewer_in_scope : Server → String → Server × Option Failure
reserve_viewer_in_scope s request_id =
    if has request_id s.seen
    then (
      s,
      some (
          new_failure ErrorCode.request_replayed "browser viewer request_id has already been used"
            false),
    )
    else if leb max_viewer_requests_per_epoch s.viewer_count
    then (
      s,
      some (
          new_failure ErrorCode.action_limit_exceeded "browser Viewer reached its request limit"
            false),
    )
    else (record s { seen = request_id ∷ s.seen; viewer_count = s.viewer_count + 1 }, none)

-- reserveViewerRequest
unfoldable pub reserve_viewer_request : Server → Identity → String → Server × Option Failure
unfolding reserve_viewer_in_scope
reserve_viewer_request s identity request_id =
    reserve_viewer_in_scope (enter_scope s identity) request_id

-- acceptEngineStateLocked, with the instance already defaulted.
accept_engine_instance : Server → ℕ → ℕ → Server × Option Failure
accept_engine_instance s instance_id generation =
    if not (s.click_engine_instance_id == instance_id)
    then (
      record s {
        click_engine_instance_id = instance_id;
        click_navigation_generation = generation;
        blocked_click_navigation_count = 0;
      },
      none,
    )
    else if ltb generation s.click_navigation_generation
    then (
      s,
      some (new_failure ErrorCode.output_invalid "browser navigation generation decreased" false),
    )
    else if ltb s.click_navigation_generation generation
    then (
      record s { click_navigation_generation = generation; blocked_click_navigation_count = 0 },
      none,
    )
    else (s, none)

-- acceptEngineStateLocked
unfoldable pub accept_engine_state : Server → ℕ → ℕ → Server × Option Failure
unfolding accept_engine_instance
accept_engine_state s instance_id generation =
    if generation == 0
    then (
      s,
      some (new_failure ErrorCode.output_invalid "browser navigation generation is invalid" false),
    )
    else accept_engine_instance s (if instance_id == 0 then 1 else instance_id) generation

note_page_state : String → Server × Option Failure → Server × Option Failure
note_page_state page_state_id (s, some failure) = (s, some failure)
note_page_state page_state_id (s, none) = (record s { click_page_state_id = page_state_id }, none)

-- recordEngineObservation
unfoldable pub record_engine_observation : Server → Identity → Observation → Server × Option Failure
unfolding note_page_state
record_engine_observation s identity observation = note_page_state observation.page_state_id (
    accept_engine_state (prepare_click_scope s identity) observation.engine_instance_id
      observation.navigation_generation)

count_blocked_click : Failure → Server × Option Failure → Server × Failure
count_blocked_click failure (s, some state_failure) = (s, state_failure)
count_blocked_click failure (s, none) =
    let t = record s {
      blocked_click_navigation_count = s.blocked_click_navigation_count + 1;
      blocked_click_run_count = s.blocked_click_run_count + 1;
      click_page_state_id = failure.page_state_id;
      last_blocked_target_category = failure.target_category;
    } in
    (
      t,
      record failure {
        blocked_click_navigation_attempts_remaining =
            some (pos (max_blocked_clicks_per_navigation - t.blocked_click_navigation_count));
        blocked_click_run_attempts_remaining =
            some (pos (max_blocked_clicks_per_run - t.blocked_click_run_count));
      },
    )

-- recordBlockedClick
unfoldable pub record_blocked_click : Server → Identity → Failure → Server × Failure
unfolding count_blocked_click
record_blocked_click s identity failure = count_blocked_click failure (
    accept_engine_state (prepare_click_scope s identity) failure.engine_instance_id
      failure.navigation_generation)

-- resetClickNavigationBaseline
unfoldable pub reset_click_navigation_baseline : Server → Identity → Server
reset_click_navigation_baseline s identity = record (prepare_click_scope s identity) {
  click_engine_instance_id = 0;
  click_navigation_generation = 0;
  blocked_click_navigation_count = 0;
}

-- What the lease says of an identity: `IsRevoked` and `Revoke` of a `LeaseRevoker`.
pub data RevocationState : Type 0 where
  unreadable : Failure → RevocationState
  revoked live : RevocationState

fence : Server → Option Failure → Server × Option Failure
fence s (some failure) = (s, some failure)
fence s none = (record s { terminal = true }, none)

-- closeRequiredChallenge: `none` is a lease that is no `LeaseRevoker`; `revoking` is what `Revoke`
-- would return. The close sent to the engine is ignored whatever comes back.
unfoldable pub close_required_challenge :
    Server → Option RevocationState → Option Failure → Server × Option Failure
unfolding fence
close_required_challenge s none revoking = (
  s,
  some (
      new_failure ErrorCode.runtime_unavailable
        "browser runtime cannot durably fence a required challenge" false),
)
close_required_challenge s (some (unreadable failure)) revoking = (s, some failure)
close_required_challenge s (some revoked) revoking = fence s none
close_required_challenge s (some live) revoking = fence s revoking
