-- ===== src/Runtime/Selector/Backends.antt =====
-- The interface `BrowserBackend` of browserruntime/backend_selector.go with the optional interfaces
-- that the selector asks a backend for. Every method may change the world `W`; an optional interface
-- is an `Option`.
use openlinker_plugin.Base.{ℕ, String, Bool, Option}
use openlinker_plugin.Protocol.Types.{Identity, Action, Observation, Failure}
use openlinker_plugin.Protocol.Failure.{Result}
use openlinker_plugin.Protocol.Viewer.{ViewerOperation, ViewerInput, ViewerFrame}

pub record Backend (W : Type 0) : Type 0 where
  pub execute : W → Identity → Action → W × Result Observation
  pub abort_startup : W → W × Bool  -- whether an error comes back
  pub close : W → W
  pub profile_selection_evidence : Option (W → Option (ℕ × Bool))
  pub startup_fallback_reason : Option (Failure → String)
  pub is_ops_observer : Bool
  pub viewer :  -- `ViewerEngine`
      Option (W → Identity → ViewerOperation → Option ViewerInput → W × Result (Option ViewerFrame))
