-- ===== src/Adapters/RunLease.antt =====
-- The lease of a Browser run (`browserRunLease` of
-- packages/agent-adapters/agentexec/browser_run.go): who controls the browser, under which epoch,
-- and the files that tell the Browser Runtime. Each operation holds the mutex, so it is one step.
pub mod Epochs
use openlinker_plugin.Base.{
  ℕ, suc, ◌+◌, ◌%◌, ◌^◌, String, Bool, true, false, ◌||◌, ◌&&◌, not, Option, none, some, List, ◌==◌,
  ◌=s=◌, if◌then◌else◌, eq_int, ℤ,
}
use openlinker_plugin.Protocol.Types.{Identity, Controller, agent, nobody}
use openlinker_plugin.Runtime.Lease.{same_strings, same_controller}

-- `browserSessionState`
pub record SessionState : Type 0 where
  pub version : ℤ
  pub session_key_hash : String
  pub browser_session_id : String
  pub session_epoch : ℕ  -- uint64
  pub control_epoch : ℕ  -- uint64
  pub controller : Controller
  pub runtime_session_id : String
  pub runtime_session_epoch : ℤ  -- int64
  pub runtime_attachment_id : String
  pub interaction_policy : String
  pub policy_generation : ℤ  -- int64
  pub mutation_origins_hash : String
  pub updated_at : String

-- The three files of a lease; a lease file is the identity in it, its other fields never change.
pub record Files : Type 0 where
  pub session : Option SessionState
  pub active : Option Identity
  pub run : Option Identity

pub record RunLease : Type 0 where
  pub state : SessionState
  pub identity : Identity
  pub runtime_used : Bool
  pub selected : Bool  -- `backend != nil`
  pub scope_held : Bool  -- `releaseScope != nil`
  pub closed : Bool
  pub files : Files

-- What the system answers during one operation: the time, the lock of the authority, the three
-- writes, whether the active lease can be read, and the two removals. A write replaces its file or
-- leaves it.
pub record Disk : Type 0 where
  pub now : String
  pub locked : Bool
  pub session_written : Bool
  pub active_written : Bool
  pub run_written : Bool
  pub active_readable : Bool
  pub active_removed : Bool
  pub run_removed : Bool

-- SameIdentity
unfoldable pub same_identity : Identity → Identity → Bool
same_identity left right =
    left.run_id =s= right.run_id
    && left.agent_id =s= right.agent_id
    && left.principal_scope_id =s= right.principal_scope_id
    && left.browser_session_id =s= right.browser_session_id
    && left.session_epoch == right.session_epoch
    && left.attachment_id =s= right.attachment_id
    && left.control_epoch == right.control_epoch
    && same_controller left.controller right.controller
    && left.browser_interaction_policy =s= right.browser_interaction_policy
    && eq_int left.browser_interaction_policy_generation right.browser_interaction_policy_generation
    && left.browser_mutation_origins_sha256 =s= right.browser_mutation_origins_sha256
    && same_strings left.browser_mutation_origins right.browser_mutation_origins

-- The removal of the active lease of an identity, whatever is there now; `false` for an error.
unfoldable pub remove_active : Disk → Identity → Files → Option Identity → Files × Bool
remove_active d i files none = (files, true)
remove_active d i files (some current) =
    if not d.active_readable
    then (files, false)
    else if not (same_identity current i)
    then (files, true)
    else if d.active_removed
    then (record files { active = none }, true)
    else (files, false)

-- removeActiveIfCurrent
unfoldable pub remove_active_if_current : Disk → Identity → Files → Files × Bool
unfolding remove_active
remove_active_if_current d i files = remove_active d i files files.active

-- The writes of persist; the error, if any.
unfoldable pub write_files : Disk → SessionState → Identity → Files → Files × Option String
unfolding remove_active_if_current
write_files d state i files =
    let stated : Files = record files { session = some state } in
    let activated : Files = record stated { active = some i } in
    if not d.session_written
    then (files, some "persist Browser session state")
    else if not d.active_written
    then (stated, some "activate Browser lease")
    else if not d.run_written
    then ((remove_active_if_current d i activated).0, some "persist per-Run Browser lease")
    else (record activated { run = some i }, none)

-- persist
unfoldable pub persist : Disk → RunLease → RunLease × Option String
unfolding write_files
persist d lease =
    let written = write_files d lease.state lease.identity lease.files in
    if not d.locked
    then (lease, some "lock Browser lease authority")
    else (record lease { files = written.0 }, written.1)

-- The next epoch, a uint64.
abbrev pub next_epoch : ℕ → ℕ
next_epoch epoch = (epoch + 1) % 2 ^ 64

-- The lease with another epoch and controller in its state and its identity.
unfoldable pub with_control : Disk → RunLease → ℕ → Controller → RunLease
with_control d lease epoch controller =
    let s = lease.state in
    let i = lease.identity in
    record lease {
      state = record s { control_epoch = epoch; controller = controller; updated_at = d.now };
      identity = record i { control_epoch = epoch; controller = controller };
    }

-- The end of transitionController: a failed persist gives the state and the identity back.
unfoldable pub kept_or_back : RunLease → RunLease × Option String → RunLease × Option String
kept_or_back previous (lease, none) = (lease, none)
kept_or_back previous (lease, some error) =
    (record lease { state = previous.state; identity = previous.identity }, some error)

-- transitionController; the identity it returns on success is that of the lease after it.
unfoldable pub transition_controller :
    Disk → Controller → Controller → ℕ → RunLease → RunLease × Option String
unfolding persist with_control kept_or_back
transition_controller d expected next target lease =
    if lease.closed
    then (lease, some "Browser lease is closed")
    else if not (same_controller lease.identity.controller expected)
    then (lease, some "Browser controller is not the expected one")
    else if not (target == 0) && not (target == next_epoch lease.identity.control_epoch)
    then (lease, some "Browser control transition epoch is stale")
    else kept_or_back lease
        (persist d (with_control d lease (next_epoch lease.identity.control_epoch) next))

-- Pause
unfoldable pub pause : Disk → RunLease → RunLease × Option String
unfolding transition_controller
pause d lease = transition_controller d agent nobody 0 lease

-- The changes of Rotate, for a new attachment id.
unfoldable pub rotated : Disk → String → RunLease → RunLease
rotated d attachment_id lease =
    let s = lease.state in
    let i = lease.identity in
    record lease {
      state = record s {
        session_epoch = next_epoch s.session_epoch;
        control_epoch = next_epoch s.control_epoch;
        controller = agent;
        updated_at = d.now;
      };
      identity = record i {
        session_epoch = next_epoch s.session_epoch;
        control_epoch = next_epoch s.control_epoch;
        controller = agent;
        attachment_id = attachment_id;
      };
    }

rotate_open : Disk → Option String → RunLease → RunLease × Option String
unfolding persist rotated
rotate_open d none lease = (lease, some "generate Browser UUID")
rotate_open d (some attachment_id) lease = persist d (rotated d attachment_id lease)

-- Rotate; `fresh` is what newBrowserUUID gives.
unfoldable pub rotate : Disk → Option String → RunLease → RunLease × Option String
unfolding rotate_open
rotate d fresh lease =
    if lease.closed then (lease, some "Browser lease is closed") else rotate_open d fresh lease

-- The removals of Close, and the mark when both succeeded.
unfoldable pub close_files : Disk → RunLease → RunLease × Option String
unfolding remove_active_if_current
close_files d lease =
    let f = lease.files in
    let kept : Files = if d.run_removed then record f { run = none } else f in
    let after = remove_active_if_current d lease.identity kept in
    if d.run_removed && after.1
    then (record lease { files = after.0; closed = true; scope_held = false }, none)
    else (
      record lease { files = after.0; scope_held = false },
      some "Browser lease files could not be removed",
    )

-- Close
unfoldable pub close : Disk → RunLease → RunLease × Option String
unfolding close_files
close d lease =
    if lease.closed
    then (lease, none)
    else if not d.locked
    then (record lease { scope_held = false }, some "lock Browser lease authority")
    else close_files d lease
