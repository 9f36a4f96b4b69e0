-- ===== src/Runtime/Selector/Start.antt =====
-- `selectBackend` and `selectAuto` of browserruntime/backend_selector.go, and `Execute` from where no
-- backend is selected.
use openlinker_plugin.Base.{
  String, Bool, true, false, ◌||◌, not, Option, none, some, ◌=s=◌, if◌then◌else◌,
}
use openlinker_plugin.Protocol.Types.{
  Identity, ActionFields, Action, Observation, Failure, ErrorCode, BackendSelectionEvidence, action,
}
use openlinker_plugin.Protocol.Failure.{Result, ok, failed}
use openlinker_plugin.Protocol.Backend.{
  backend_official_chrome, isolated_evidence, mode_openlinker_native_chrome,
  mode_official_chrome_alias,
}
use openlinker_plugin.Runtime.Selector.Backends.{Backend}
use openlinker_plugin.Runtime.Selector.{
  Selector, Options, Outcome, refuse, answer, install, bind_if_official, with_selection,
  is_preflight,
}

abbrev pub fields_of : Action → ActionFields
fields_of (action fields nested) = fields

-- `action.BackendMode = ""`
abbrev pub clear_mode : Action → Action
clear_mode (action fields nested) = action (record fields { backend_mode = "" }) nested

-- The reason that the backend gives for a failed start, if it gives one.
abbrev pub classified : Option (Failure → String) → Failure → String
classified none failure = "official_chrome_start_failed"
classified (some classify) failure =
    let reason = classify failure in
    if reason =s= "" then "official_chrome_start_failed" else reason

abbrev pub unavailable_reason : String → String
unavailable_reason reason = if reason =s= "" then "official_assets_unavailable" else reason

module _ {W : Type 0} where
  -- After a failed start: the cleanup, and what to leave and answer once it is done.
  abbrev pub after_abort : Selector W → Selector W → String → Failure → W × Bool → Outcome W
  after_abort s cleared message failure (w, true) = refuse s w ErrorCode.runtime_unavailable message
  after_abort s cleared message failure (w, false) = answer cleared w (failed failure)

  unfoldable pub start_bound :
      Selector W
      → Backend W
      → Identity
      → Observation
      → W
      → Result BackendSelectionEvidence
      → Outcome W
  start_bound s b i o w (failed failure) = answer s (b.abort_startup w).0 (failed failure)
  start_bound s b i o w (ok evidence) =
      answer (install s b evidence i) w (ok (with_selection o evidence))

  unfoldable pub started :
      Selector W
      → Backend W
      → BackendSelectionEvidence
      → Identity
      → W × Result Observation
      → Outcome W
  unfolding start_bound
  started s b evidence i (w, failed failure) =
      after_abort s s "Browser backend startup cleanup failed" failure (b.abort_startup w)
  started s b evidence i (w, ok o) = start_bound s b i o w (bind_if_official w b evidence)

  -- selectBackend
  unfoldable pub select_backend :
      Selector W → W → Identity → Action → Backend W → BackendSelectionEvidence → Outcome W
  unfolding started
  select_backend s w i act b evidence = started s b evidence i (b.execute w i act)

  unfoldable pub fall_back :
      Options W → Selector W → Identity → Action → String → W × Bool → Outcome W
  unfolding select_backend
  fall_back opts s i act reason (w, true) =
      refuse s w ErrorCode.runtime_unavailable "official Chrome startup cleanup failed"
  fall_back opts s i act reason (w, false) =
      select_backend s w i act opts.isolated (isolated_evidence "auto" reason)

  unfoldable pub auto_started :
      Options W → Selector W → Backend W → Identity → Action → W × Result Observation → Outcome W
  unfolding start_bound fall_back
  auto_started opts s b i act (w, ok o) = start_bound s b i o w (
      bind_if_official w b (record opts.official_evidence {
        requested_mode = "auto";
        selected_backend = backend_official_chrome;
        fallback_reason = "";
      }))
  auto_started opts s b i act (w, failed failure) =
      fall_back opts s i act (classified b.startup_fallback_reason failure) (b.abort_startup w)

  unfoldable pub select_auto_from :
      Options W → Option (Backend W) → Selector W → W → Identity → Action → Outcome W
  unfolding auto_started
  select_auto_from opts none s w i act =
      select_backend s w i act opts.isolated
        (isolated_evidence "auto" (unavailable_reason opts.official_unavailable_reason))
  select_auto_from opts (some b) s w i act = auto_started opts s b i act (b.execute w i act)

  -- selectAuto
  unfoldable pub select_auto : Options W → Selector W → W → Identity → Action → Outcome W
  unfolding select_auto_from
  select_auto opts s w i act = select_auto_from opts opts.official s w i act

  unfoldable pub select_official :
      Options W → Option (Backend W) → Selector W → W → Identity → Action → Outcome W
  select_official opts none s w i act =
      refuse s w ErrorCode.engine_unavailable "official Chrome Browser backend is unavailable"
  select_official opts (some b) s w i act =
      select_backend s w i act b
        (record opts.official_evidence { requested_mode = mode_openlinker_native_chrome })

  unfoldable pub select_mode : Options W → Selector W → W → Identity → Action → String → Outcome W
  unfolding select_official
  select_mode opts s w i act mode =
      if mode =s= "isolated"
      then select_backend s w i act opts.isolated (isolated_evidence mode "")
      else if mode =s= mode_openlinker_native_chrome || mode =s= mode_official_chrome_alias
      then select_official opts opts.official s w i act
      else if mode =s= "auto"
      then select_auto opts s w i act
      else refuse s w ErrorCode.protocol_invalid "Browser backend mode is invalid"

  -- `Execute` from where no backend is selected.
  unfoldable pub execute_unselected : Options W → Selector W → W → Identity → Action → Outcome W
  unfolding select_mode
  execute_unselected opts s w i act =
      if not (is_preflight (fields_of act).kind)
      then refuse s w ErrorCode.engine_unavailable "Browser backend must be selected by preflight"
      else (let mode = (fields_of act).backend_mode in
          select_mode opts s w i (clear_mode act) (if mode =s= "" then "isolated" else mode))
