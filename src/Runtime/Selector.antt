-- ===== src/Runtime/Selector.antt =====
-- packages/browser-runtime/browserruntime/backend_selector.go: which of two browser backends a
-- Session uses. `Execute`, `ExecuteViewer` and `Close` run under the selector's lock, so each is one
-- step; the backends are an interface over the world `W` they act on.
pub mod Backends
pub mod Start
pub mod Execute
pub mod Moves
pub mod New
pub mod Guarantees
pub mod Guard
use openlinker_plugin.Base.{
  ℕ, String, Bool, true, false, ◌||◌, ◌&&◌, not, Option, none, some, ◌==◌, ◌=s=◌, if◌then◌else◌,
  ◌≡◌, refl, arith, Bool-cases, inl, inr,
}
use openlinker_plugin.Protocol.Types.{
  Identity, ActionKind, ActionFields, Action, Actions, Observation, Failure, ErrorCode,
  BackendSelectionEvidence, action,
}
use openlinker_plugin.Protocol.Failure.{new_failure, Result, ok, failed}
use openlinker_plugin.Protocol.Backend.{
  validate_selection_evidence, backend_official_chrome, backend_isolated,
  mode_openlinker_native_chrome, mode_official_chrome_alias,
}
use openlinker_plugin.Runtime.Selector.Backends.{Backend}

pub record SelectionScope : Type 0 where
  pub run_id : String
  pub agent_id : String
  pub principal_scope_id : String
  pub browser_session_id : String
  pub session_epoch : ℕ
  pub attachment_id : String

abbrev pub no_scope : SelectionScope
no_scope = record {
  run_id = "";
  agent_id = "";
  principal_scope_id = "";
  browser_session_id = "";
  session_epoch = 0;
  attachment_id = "";
}

-- newBackendSelectionScope
unfoldable pub new_selection_scope : Identity → SelectionScope
new_selection_scope i = record {
  run_id = i.run_id;
  agent_id = i.agent_id;
  principal_scope_id = i.principal_scope_id;
  browser_session_id = i.browser_session_id;
  session_epoch = i.session_epoch;
  attachment_id = i.attachment_id;
}

abbrev pub no_evidence : BackendSelectionEvidence
no_evidence = record {
  requested_mode = "";
  selected_backend = "";
  fallback_reason = "";
  asset_manifest_sha256 = "";
  extension_id = "";
  extension_version = "";
  native_host_protocol = "";
  profile_generation = 0;
  session_recovered = false;
}

-- sameGeneration
unfoldable pub same_generation : SelectionScope → Identity → Bool
same_generation scope i =
    scope.agent_id =s= i.agent_id
    && scope.principal_scope_id =s= i.principal_scope_id
    && scope.browser_session_id =s= i.browser_session_id
    && scope.session_epoch == i.session_epoch

unfoldable pub matches : SelectionScope → Identity → Bool
matches scope i = same_generation scope i && scope.attachment_id =s= i.attachment_id

-- canonicalBackendMode: `none` where the second result is false.
canonical_backend_mode : String → Option String
canonical_backend_mode mode =
    if mode =s= mode_openlinker_native_chrome || mode =s= mode_official_chrome_alias
    then some mode_openlinker_native_chrome
    else if mode =s= "auto" || mode =s= "isolated"
    then some mode
    else none

abbrev same_mode : Option String → Option String → Bool
same_mode (some a) (some b) = a =s= b
same_mode _ _ = false

unfoldable pub equivalent_backend_mode : String → String → Bool
unfolding canonical_backend_mode
equivalent_backend_mode left right =
    same_mode (canonical_backend_mode left) (canonical_backend_mode right)

abbrev pub is_preflight : ActionKind → Bool
is_preflight ActionKind.preflight = true
is_preflight _ = false

-- isEquivalentModeContinuation
unfoldable pub is_equivalent_mode_continuation :
    SelectionScope → Identity → ActionFields → String → Bool
is_equivalent_mode_continuation scope i act locked_requested_mode =
    is_preflight act.kind
    && not (act.backend_mode =s= "")
    && same_generation scope i
    && not (scope.attachment_id =s= i.attachment_id)
    && equivalent_backend_mode act.backend_mode locked_requested_mode

pub record OpsSnapshot (W : Type 0) : Type 0 where
  pub observer : Backend W
  pub evidence : BackendSelectionEvidence
  pub run_id : String

pub record Selector (W : Type 0) : Type 0 where
  pub selected : Option (Backend W)
  pub evidence : BackendSelectionEvidence
  pub scope : SelectionScope
  pub closed : Bool
  pub ops : Option (OpsSnapshot W)

pub record Options (W : Type 0) : Type 0 where
  pub official : Option (Backend W)
  pub official_evidence : BackendSelectionEvidence
  pub official_unavailable_reason : String
  pub isolated : Backend W

-- What an operation leaves and answers.
pub record Outcome (W : Type 0) : Type 0 where
  pub selector : Selector W
  pub world : W
  pub reply : Result Observation

unfoldable pub refuse : {W : Type 0} → Selector W → W → ErrorCode → String → Outcome W
refuse s w code message = record {
  selector = s;
  world = w;
  reply = failed (new_failure code message false);
}

abbrev pub answer : {W : Type 0} → Selector W → W → Result Observation → Outcome W
answer s w reply = record { selector = s; world = w; reply = reply }

-- The zero values that `NewBackendSelector` leaves.
abbrev pub new_selector : {W : Type 0} → Selector W
new_selector = record {
  selected = none;
  evidence = no_evidence;
  scope = no_scope;
  closed = false;
  ops = none;
}

observer_snapshot :
    {W : Type 0} → Option (Backend W) → BackendSelectionEvidence → String → Option (OpsSnapshot W)
observer_snapshot none evidence run_id = none
observer_snapshot (some b) evidence run_id =
    if run_id =s= "" || not b.is_ops_observer
    then none
    else some (record { observer = b; evidence = evidence; run_id = run_id })

-- What publishOpsSnapshotLocked stores.
unfoldable pub snapshot_of : {W : Type 0} → Selector W → Option (OpsSnapshot W)
unfolding observer_snapshot
snapshot_of s = if s.closed then none else observer_snapshot s.selected s.evidence s.scope.run_id

-- publishOpsSnapshotLocked
unfoldable pub publish_ops_snapshot : {W : Type 0} → Selector W → Selector W
publish_ops_snapshot s = record s { ops = snapshot_of s }

-- `selected`, `evidence` and `scope` back to nothing.
unfoldable pub clear : {W : Type 0} → Selector W → Selector W
clear s = record s { selected = none; evidence = no_evidence; scope = no_scope }

-- `selected`, `evidence` and `scope` set, and the snapshot published.
unfoldable pub install :
    {W : Type 0} → Selector W → Backend W → BackendSelectionEvidence → Identity → Selector W
install s b evidence i =
    publish_ops_snapshot
      (record s { selected = some b; evidence = evidence; scope = new_selection_scope i })

abbrev pub with_selection : Observation → BackendSelectionEvidence → Observation
with_selection o evidence = record o { backend_selection = some evidence }

checked_evidence : BackendSelectionEvidence → Option Failure → Result BackendSelectionEvidence
checked_evidence e (some failure) = failed failure
checked_evidence e none = ok e

bind_reported : BackendSelectionEvidence → Option (ℕ × Bool) → Result BackendSelectionEvidence
unfolding checked_evidence
bind_reported e none = failed (
    new_failure ErrorCode.output_invalid
      "official Chrome Profile selection evidence did not match the locked assets" false)
bind_reported e (some (generation, recovered)) =
    if generation == 0
      || (not (e.profile_generation == 0) && not (e.profile_generation == generation))
    then failed (
        new_failure ErrorCode.output_invalid
          "official Chrome Profile selection evidence did not match the locked assets" false)
    else let bound = record e { profile_generation = generation; session_recovered = recovered } in
      checked_evidence bound (validate_selection_evidence bound)

bind_provider :
    {W : Type 0}
    → W
    → BackendSelectionEvidence
    → Option (W → Option (ℕ × Bool))
    → Result BackendSelectionEvidence
unfolding bind_reported
bind_provider w e none = failed (
    new_failure ErrorCode.output_invalid
      "official Chrome backend did not report Profile selection evidence" false)
bind_provider w e (some provider) = bind_reported e (provider w)

-- bindProfileSelectionEvidence: the evidence it leaves, or its failure. (Where validation fails
-- the code has changed the local evidence that the caller then drops.)
unfoldable pub bind_profile_selection_evidence :
    {W : Type 0} → W → Backend W → BackendSelectionEvidence → Result BackendSelectionEvidence
unfolding bind_provider
bind_profile_selection_evidence w b e = bind_provider w e b.profile_selection_evidence

-- The bind that is only done for the official backend.
unfoldable pub bind_if_official :
    {W : Type 0} → W → Backend W → BackendSelectionEvidence → Result BackendSelectionEvidence
bind_if_official w b e =
    if e.selected_backend =s= backend_official_chrome
    then bind_profile_selection_evidence w b e
    else ok e

checked-valid :
    (e e' : BackendSelectionEvidence) (r : Option Failure)
    → validate_selection_evidence e ≡ r
    → checked_evidence e r ≡ ok e'
    → validate_selection_evidence e' ≡ none
unfolding checked_evidence
checked-valid e e' (some failure) v h = cc
checked-valid e e' none v h = cc

bind_reported-valid :
    (e e' : BackendSelectionEvidence) (r : Option (ℕ × Bool))
    → bind_reported e r ≡ ok e'
    → validate_selection_evidence e' ≡ none
unfolding bind_reported
bind_reported-valid e e' none h = cc
bind_reported-valid e e' (some (generation, recovered)) h = ground (
  arith,
  checked-valid (record e { profile_generation = generation; session_recovered = recovered }) e'
      (validate_selection_evidence
        (record e { profile_generation = generation; session_recovered = recovered }))
      refl,
)

bind_provider-valid :
    {W : Type 0} (w : W) (e e' : BackendSelectionEvidence) (p : Option (W → Option (ℕ × Bool)))
    → bind_provider w e p ≡ ok e'
    → validate_selection_evidence e' ≡ none
unfolding bind_provider
bind_provider-valid w e e' none h = cc
bind_provider-valid w e e' (some p) h = bind_reported-valid e e' (p w) h

-- Evidence that a backend bound was validated.
pub bind-valid :
    {W : Type 0} (w : W) (b : Backend W) (e e' : BackendSelectionEvidence)
    → bind_profile_selection_evidence w b e ≡ ok e'
    → validate_selection_evidence e' ≡ none
unfolding bind_profile_selection_evidence
bind-valid w b e e' h = bind_provider-valid w e e' b.profile_selection_evidence h
