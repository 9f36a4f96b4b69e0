-- ===== src/Runtime/Selector/Guard.antt =====
-- The Session check of the selected backend.
use openlinker_plugin.Base.{◌≡◌, ◌||◌, ◌&&◌, not, arith, ◌=s=◌, if◌then◌else◌}
use openlinker_plugin.Protocol.Types.{Identity, Action}
use openlinker_plugin.Runtime.Selector.Backends.{Backend}
use openlinker_plugin.Protocol.Types.{ErrorCode}
use openlinker_plugin.Runtime.Selector.{
  Selector, Options, Outcome, refuse, matches, is_preflight, same_generation,
  is_equivalent_mode_continuation,
}
use openlinker_plugin.Runtime.Selector.Start.{fields_of}
use openlinker_plugin.Runtime.Selector.Execute.{
  execute_rotated, execute_selected, execute_with, continued, replaced,
}

module _ {W : Type 0} where
  -- `Execute` with a backend selected, without the check that the selection belongs to the Session.
  pub unguarded : Options W → Selector W → W → Backend W → Identity → Action → Outcome W
  unguarded opts s w b i act =
      let mode = (fields_of act).backend_mode in
      let continuation =
        is_equivalent_mode_continuation s.scope i (fields_of act) s.evidence.requested_mode in
      if (mode =s= "" || continuation) && not (matches s.scope i)
      then execute_rotated s w b i act continuation
      else if not (mode =s= "")
      then (if is_preflight (fields_of act).kind && not (same_generation s.scope i)
          then replaced opts s i act (b.abort_startup w)
          else refuse s w ErrorCode.protocol_invalid "Browser backend is already selected")
      else continued s b (fields_of act).kind (b.execute w i act)

  -- The check that the selection belongs to the Session of the request never decides: with it or
  -- without it, Execute with a backend selected leaves and answers the same.
  pub session_check_never_decides :
      (opts : Options W) (s : Selector W) (w : W) (b : Backend W) (i : Identity) (act : Action)
      → execute_with opts s w b i act ≡ unguarded opts s w b i act
  unfolding execute_with execute_selected unguarded
  session_check_never_decides opts s w b i act = ground arith
