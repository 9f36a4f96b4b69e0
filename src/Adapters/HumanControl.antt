-- ===== src/Adapters/HumanControl.antt =====
-- `browserHumanControl` of packages/agent-adapters/agentexec/browser_human_control.go: how control of
-- a paused Browser run passes to a human and back. Goroutines of the provider pause and wait; one
-- goroutine handles the commands. A channel is a number; a part under the mutex is one step.
pub mod Channels
pub mod Turns
use openlinker_plugin.Base.{
  ℕ, suc, ◌+◌, String, Bool, true, false, ◌||◌, ◌&&◌, not, Option, none, some, List, [], ◌∷◌, ◌==◌,
  ◌=s=◌, if◌then◌else◌,
}
use openlinker_plugin.Protocol.Types.{
  Identity, Controller, agent, nobody, human, Failure, ErrorCode,
}
use openlinker_plugin.Protocol.Failure.{new_failure}
use openlinker_plugin.Runtime.Lease.{same_controller}
use openlinker_plugin.Adapters.RunLease.{RunLease, Disk, transition_controller, pause, close}

-- An event that emitBrowserControlLifecycle emits.
pub record Lifecycle : Type 0 where
  pub phase : String
  pub reason : String
  pub identity : Identity

pub record Control : Type 0 where
  pub lease : RunLease
  pub paused : Bool
  pub resumed : ℕ
  pub made : ℕ  -- the number of channels made
  pub closed_channels : List ℕ
  pub terminal : Option Failure
  pub framing : Bool  -- `frameCancel != nil`
  pub emitted : List Lifecycle  -- the latest first
  pub panicked : Bool  -- a channel was closed twice

-- newBrowserHumanControl
abbrev pub new_control : RunLease → Control
new_control lease = record {
  lease = lease;
  paused = false;
  resumed = 0;
  made = 1;
  closed_channels = [];
  terminal = none;
  framing = false;
  emitted = [];
  panicked = false;
}

unfoldable pub has_channel : ℕ → List ℕ → Bool
has_channel c [] = false
has_channel c (x ∷ xs) = c == x || has_channel c xs

-- `close` of a channel, which panics when it is closed already.
unfoldable pub close_channel : ℕ → Control → Control
unfolding has_channel
close_channel c s =
    if has_channel c s.closed_channels
    then record s { panicked = true }
    else record s { closed_channels = c ∷ s.closed_channels }

-- The first part of pauseAndWait under the mutex; the channel to wait on is `resumed` after it, and
-- the result says whether this call is the first.
unfoldable pub mark_paused : Control → Control × Bool
mark_paused s =
    if s.paused
    then (s, false)
    else (record s { paused = true; resumed = s.made; made = s.made + 1; terminal = none }, true)

-- The part for a pause that failed; `c` is the channel of its first part.
unfoldable pub pause_failed : ℕ → Control → Control
unfolding close_channel
pause_failed c s = close_channel c (record s { paused = false })

-- The part of resume under the mutex.
unfoldable pub mark_resumed : Control → Control
unfolding close_channel
mark_resumed s = if s.paused then close_channel s.resumed (record s { paused = false }) else s

-- The part of terminate under the mutex.
unfoldable pub mark_terminated : Failure → Control → Control
unfolding close_channel
mark_terminated failure s =
    if s.paused
    then close_channel s.resumed (record s { terminal = some failure; paused = false })
    else record s { terminal = some failure }

emit_control : String → String → Identity → Control → Control
emit_control phase reason i s = record s {
  emitted = record { phase = phase; reason = reason; identity = i } ∷ s.emitted;
}

paused_lease : ℕ → Control → RunLease × Option String → Control × Option Failure
unfolding emit_control pause_failed
paused_lease c s (lease, none) =
    (emit_control "paused" "user_action_required" lease.identity (record s { lease = lease }), none)
paused_lease c s (lease, some error) = (
  pause_failed c (record s { lease = lease }),
  some (new_failure ErrorCode.runtime_unavailable "browser attachment could not pause" false),
)

-- The pause of the lease by the first call, with its channel.
unfoldable pub pause_lease : Disk → ℕ → Control → Control × Option Failure
unfolding paused_lease
pause_lease d c s = paused_lease c s (pause d s.lease)

-- The wait that ends pauseAndWait: `none` while it blocks. When the context is done as well as the
-- channel closed, Go takes either; this is the result of the channel.
unfoldable pub wait_resumed : ℕ → Control → Option (Option Failure)
wait_resumed c s = if has_channel c s.closed_channels then some s.terminal else none

-- stopFrames
abbrev pub stop_frames : Control → Control
stop_frames s = record s { framing = false }

-- startFrames, up to the goroutine it starts
abbrev pub start_frames : Control → Control
start_frames s = record s { framing = true }

-- What the rest of the system answers during one command. `viewer_ok` is whether ExecuteViewer
-- succeeds, `close_failure` the failure of the close that closeBrowserRuntime sends.
pub record Answers : Type 0 where
  pub disk : Disk
  pub close_disk : Disk  -- for the Close of the lease that terminate makes
  pub client_made : Bool
  pub viewer_ok : Bool
  pub close_failure : Option Failure

pub data ViewerAction : Type 0 where
  claim input release resume terminate : ViewerAction
  other_action : String → ViewerAction

-- `RuntimeViewerCommand`, its attempt identity by the fields that are compared.
pub record Command : Type 0 where
  pub run_id : String
  pub agent_id : String
  pub browser_session_id : String
  pub session_epoch : ℕ  -- uint64
  pub attachment_id : String
  pub previous_control_epoch : ℕ  -- uint64
  pub control_epoch : ℕ  -- uint64
  pub action : ViewerAction
  pub has_input : Bool

-- viewerClient: the lease after it and whether there is a client.
unfoldable pub viewer_client : Answers → RunLease → RunLease × Bool
viewer_client a lease =
    if lease.closed then (lease, false) else (record lease { runtime_used = true }, a.client_made)

abbrev pub tolerated : ErrorCode → Bool
tolerated ErrorCode.identity_mismatch = true
tolerated ErrorCode.stale_control_epoch = true
tolerated _ = false

-- The failure of the close that closeBrowserRuntime passes on.
close_outcome : Option Failure → Bool
close_outcome none = true
close_outcome (some failure) = tolerated failure.code

runtime_closed : Answers → RunLease × Option String → RunLease × Bool
unfolding close_outcome
runtime_closed a (lease, some error) = (lease, false)
runtime_closed a (lease, none) =
    if not a.client_made then (lease, false) else (lease, close_outcome a.close_failure)

-- closeBrowserRuntime; `false` for an error.
unfoldable pub close_browser_runtime : Answers → RunLease → RunLease × Bool
unfolding runtime_closed
close_browser_runtime a lease =
    if not lease.runtime_used || lease.closed || not lease.selected
    then (lease, true)
    else if not (same_controller lease.identity.controller agent)
    then runtime_closed a (transition_controller a.disk lease.identity.controller agent 0 lease)
    else runtime_closed a (lease, none)

claim_client : Answers → Control → RunLease × Bool → Control
unfolding emit_control
claim_client a s (lease, client) =
    if client && a.viewer_ok
    then start_frames (emit_control "human" "claimed" lease.identity (record s { lease = lease }))
    else record s { lease = lease }

claimed_lease : Answers → Control → RunLease × Option String → Control
unfolding claim_client
claimed_lease a s (lease, some error) = record s { lease = lease }
claimed_lease a s (lease, none) = claim_client a s (viewer_client a lease)

-- The release, once the human's session of the engine has ended.
released_lease : Control → RunLease × Option String → Control
unfolding emit_control
released_lease s (lease, some error) = record s { lease = lease }
released_lease s (lease, none) =
    emit_control "released" "released" lease.identity (record s { lease = lease })

release_client : Answers → Command → Control → RunLease × Bool → Control
unfolding released_lease
release_client a c s (lease, client) =
    if client && a.viewer_ok
    then released_lease (stop_frames s)
        (transition_controller a.disk human nobody c.control_epoch lease)
    else record s { lease = lease }

resumed_lease : Control → RunLease × Option String → Control
unfolding emit_control
resumed_lease s (lease, some error) = record s { lease = lease }
resumed_lease s (lease, none) =
    emit_control "resumed" "agent" lease.identity (mark_resumed (record s { lease = lease }))

-- The failure that terminate leaves, for the outcomes of its two closings.
abbrev pub terminal_failure : Bool → Failure
terminal_failure closed =
    if closed
    then new_failure ErrorCode.deadline_exceeded "browser human-control lease expired" false
    else new_failure ErrorCode.runtime_unavailable "browser human-control cleanup failed closed"
        false

abbrev pub is_none {ℓ} : {A : Type ℓ} → Option A → Bool
is_none none = true
is_none (some x) = false

-- terminate
unfoldable pub terminate_control : Answers → Control → Control
unfolding mark_terminated
terminate_control a s =
    let ended = close_browser_runtime a s.lease in
    let left = close a.close_disk ended.0 in
    mark_terminated (terminal_failure (ended.1 && is_none left.1))
      (record s { framing = false; lease = left.0 })

-- The command's action, once it names the lease's identity.
unfoldable pub perform : Answers → Command → ViewerAction → Control → Control
unfolding claimed_lease release_client resumed_lease terminate_control
perform a c claim s =
    claimed_lease a s (transition_controller a.disk nobody human c.control_epoch s.lease)
perform a c input s =
    if not c.has_input || not (c.control_epoch == c.previous_control_epoch)
    then s
    else record s { lease = (viewer_client a s.lease).0 }
perform a c release s = release_client a c s (viewer_client a s.lease)
perform a c resume s =
    resumed_lease s (transition_controller a.disk nobody agent c.control_epoch s.lease)
perform a c terminate s = terminate_control a s
perform a c (other_action name) s = s

-- Whether a command names the identity of the lease.
unfoldable pub names_identity : Command → Identity → Bool
names_identity c i =
    c.run_id =s= i.run_id
    && c.agent_id =s= i.agent_id
    && c.browser_session_id =s= i.browser_session_id
    && c.session_epoch == i.session_epoch
    && c.attachment_id =s= i.attachment_id
    && c.previous_control_epoch == i.control_epoch

-- handleCommand
unfoldable pub handle_command : Answers → Command → Control → Control
unfolding perform names_identity
handle_command a c s =
    if s.lease.closed || not (names_identity c s.lease.identity) then s else perform a c c.action s
