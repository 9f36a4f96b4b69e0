-- ===== src/Runtime/Admission/Events.antt =====
-- Histories of admission: every call that changes the admission state, in the order in which the
-- lock admits them.
use openlinker_plugin.Base.{ℕ, String, ◌≡◌, Option, List, [], ◌∷◌}
use openlinker_plugin.Protocol.Types.{Identity, Action, Observation, Failure}
use openlinker_plugin.Runtime.Scope.{attachment_request_scope}
use openlinker_plugin.Runtime.Admission.{
  Server, RevocationState, reserve_request, reserve_viewer_request, record_engine_observation,
  record_blocked_click, reset_click_navigation_baseline, close_required_challenge,
}

pub data Event : Type 0 where
  request : Identity → String → Action → Event
  viewer_request : Identity → String → Event
  observation : Identity → Observation → Event
  blocked_click : Identity → Failure → Event
  reset_baseline : Identity → Event
  required_challenge : Option RevocationState → Option Failure → Event

-- The state after one call.
unfoldable pub step : ℕ → Server → Event → Server
step max_requests s (request identity id act) = (reserve_request max_requests s identity id act).0
step max_requests s (viewer_request identity id) = (reserve_viewer_request s identity id).0
step max_requests s (observation identity o) = (record_engine_observation s identity o).0
step max_requests s (blocked_click identity f) = (record_blocked_click s identity f).0
step max_requests s (reset_baseline identity) = reset_click_navigation_baseline s identity
step max_requests s (required_challenge lease revoking) =
    (close_required_challenge s lease revoking).0

unfoldable pub run : ℕ → Server → List Event → Server
run max_requests s [] = s
run max_requests s (e ∷ es) = run max_requests (step max_requests s e) es

-- The event belongs to the attachment epoch that `scope` names.
abbrev pub InScope : List ℕ → Event → Type 0
InScope scope (request identity id act) = attachment_request_scope identity ≡ scope
InScope scope (viewer_request identity id) = attachment_request_scope identity ≡ scope
InScope scope _ = Unit {0}
