-- ===== src/Runtime/Selector/Execute.antt =====
-- `Execute`, `ExecuteViewer` and `Close` of browserruntime/backend_selector.go, and the snapshot that
-- `ObserveOps` reads.
use openlinker_plugin.Base.{
  String, Bool, true, false, ◌||◌, ◌&&◌, not, Option, none, some, ◌=s=◌, if◌then◌else◌,
}
use openlinker_plugin.Protocol.Types.{
  Identity, ActionKind, Action, Observation, Failure, ErrorCode, BackendSelectionEvidence,
}
use openlinker_plugin.Protocol.Failure.{Result, ok, failed, new_failure}
use openlinker_plugin.Protocol.Viewer.{ViewerOperation, ViewerInput, ViewerFrame}
use openlinker_plugin.Runtime.Selector.Backends.{Backend}
use openlinker_plugin.Runtime.Selector.{
  Selector, Options, Outcome, OpsSnapshot, refuse, answer, publish_ops_snapshot, clear, install,
  bind_if_official, with_selection, matches, same_generation, is_equivalent_mode_continuation,
  is_preflight,
}
use openlinker_plugin.Runtime.Selector.Start.{
  fields_of, clear_mode, after_abort, execute_unselected,
}

module _ {W : Type 0} where
  unfoldable pub rotation_failed : Selector W → Backend W → ActionKind → Failure → W → Outcome W
  rotation_failed s b kind failure w =
      if is_preflight kind
      then after_abort s (publish_ops_snapshot (clear s))
          "rotated Browser backend preflight cleanup failed" failure (b.abort_startup w)
      else answer s w (failed failure)

  -- The Profile evidence of a rotated preflight. Where it fails, the snapshot is not published.
  unfoldable pub rotation_bound :
      Selector W
      → Backend W
      → Identity
      → Observation
      → W
      → Result BackendSelectionEvidence
      → Outcome W
  rotation_bound s b i o w (failed failure) =
      answer (clear s) (b.abort_startup w).0 (failed failure)
  rotation_bound s b i o w (ok evidence) =
      answer (install s b evidence i) w (ok (with_selection o evidence))

  unfoldable pub rotation_done :
      Selector W → Backend W → Identity → ActionKind → W × Result Observation → Outcome W
  unfolding rotation_failed rotation_bound
  rotation_done s b i kind (w, failed failure) = rotation_failed s b kind failure w
  rotation_done s b i kind (w, ok o) =
      if is_preflight kind
      then rotation_bound s b i o w (bind_if_official w b s.evidence)
      else answer (install s b s.evidence i) w (ok o)

  -- The selected backend takes another Session or attachment over.
  unfoldable pub execute_rotated : Selector W → W → Backend W → Identity → Action → Bool → Outcome W
  unfolding rotation_done
  execute_rotated s w b i act continuation =
      rotation_done s b i (fields_of act).kind
        (b.execute w i (if continuation then clear_mode act else act))

  unfoldable pub preflight_bound :
      Selector W → Observation → W → Result BackendSelectionEvidence → Outcome W
  preflight_bound s o w (failed failure) = answer s w (failed failure)
  preflight_bound s o w (ok evidence) =
      answer (publish_ops_snapshot (record s { evidence = evidence })) w
        (ok (with_selection o evidence))

  unfoldable pub continued :
      Selector W → Backend W → ActionKind → W × Result Observation → Outcome W
  unfolding preflight_bound
  continued s b kind (w, failed failure) = answer s w (failed failure)
  continued s b kind (w, ok o) =
      if is_preflight kind
      then preflight_bound s o w (bind_if_official w b s.evidence)
      else answer s w (ok o)

  -- The selected backend goes on with its Session.
  unfoldable pub execute_selected : Selector W → W → Backend W → Identity → Action → Outcome W
  unfolding continued
  execute_selected s w b i act =
      if not (matches s.scope i)
      then refuse s w ErrorCode.identity_mismatch
          "Browser backend selection belongs to another Session"
      else continued s b (fields_of act).kind (b.execute w i act)

  -- A new Session asks for a mode: the old backend is dropped first.
  unfoldable pub replaced : Options W → Selector W → Identity → Action → W × Bool → Outcome W
  replaced opts s i act (w, true) =
      refuse s w ErrorCode.runtime_unavailable "previous Browser backend Session cleanup failed"
  replaced opts s i act (w, false) =
      execute_unselected opts (publish_ops_snapshot (clear s)) w i act

  unfoldable pub execute_with :
      Options W → Selector W → W → Backend W → Identity → Action → Outcome W
  unfolding replaced
  execute_with opts s w b i act =
      let mode = (fields_of act).backend_mode in
      let continuation =
        is_equivalent_mode_continuation s.scope i (fields_of act) s.evidence.requested_mode in
      if (mode =s= "" || continuation) && not (matches s.scope i)
      then execute_rotated s w b i act continuation
      else if not (mode =s= "")
      then (if is_preflight (fields_of act).kind && not (same_generation s.scope i)
          then replaced opts s i act (b.abort_startup w)
          else refuse s w ErrorCode.protocol_invalid "Browser backend is already selected")
      else execute_selected s w b i act

  unfoldable pub execute_from :
      Options W → Option (Backend W) → Selector W → W → Identity → Action → Outcome W
  execute_from opts none s w i act = execute_unselected opts s w i act
  execute_from opts (some b) s w i act = execute_with opts s w b i act

  -- Execute
  unfoldable pub execute : Options W → Selector W → W → Identity → Action → Outcome W
  unfolding execute_from
  execute opts s w i act =
      if s.closed
      then refuse s w ErrorCode.runtime_unavailable "Browser backend selector is closed"
      else execute_from opts s.selected s w i act

  viewer_of :
      Option (Backend W)
      → Option
          (W → Identity → ViewerOperation → Option ViewerInput → W × Result (Option ViewerFrame))
  viewer_of none = none
  viewer_of (some b) = b.viewer

  view_with :
      Option (W → Identity → ViewerOperation → Option ViewerInput → W × Result (Option ViewerFrame))
      → W
      → Identity
      → ViewerOperation
      → Option ViewerInput
      → W × Result (Option ViewerFrame)
  view_with none w i operation given = (
    w,
    failed (
        new_failure ErrorCode.viewer_unavailable
          "selected Browser backend does not support human control" false),
  )
  view_with (some viewer) w i operation given = viewer w i operation given

  -- ExecuteViewer; it leaves the selector.
  unfoldable pub execute_viewer :
      Selector W
      → W
      → Identity
      → ViewerOperation
      → Option ViewerInput
      → W × Result (Option ViewerFrame)
  unfolding viewer_of view_with
  execute_viewer s w i operation given =
      if s.closed
      then (
        w,
        failed
            (new_failure ErrorCode.runtime_unavailable "Browser backend selector is closed" false),
      )
      else if not (matches s.scope i)
      then (
        w,
        failed (
            new_failure ErrorCode.identity_mismatch
              "Browser backend selection belongs to another Session" false),
      )
      else view_with (viewer_of s.selected) w i operation given

  abbrev close_official : Option (Backend W) → W → W
  close_official none w = w
  close_official (some b) w = b.close w

  -- Close
  unfoldable pub close_selector : Options W → Selector W → W → Selector W × W
  close_selector opts s w = if s.closed then (s, w) else (
    publish_ops_snapshot (record (clear s) { closed = true }),
    opts.isolated.close (close_official opts.official w),
  )

  observed : Option (OpsSnapshot W) → String → Option (OpsSnapshot W)
  observed none run_id = none
  observed (some snapshot) run_id = if snapshot.run_id =s= run_id then some snapshot else none

  -- The backend that `ObserveOps` asks, or `none` where it answers RUN_NOT_ACTIVE.
  unfoldable pub observed_snapshot : Selector W → String → Option (OpsSnapshot W)
  unfolding observed
  observed_snapshot s run_id = observed s.ops run_id
