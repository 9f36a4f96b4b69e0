-- ===== src/Runtime/Admission/Limits.antt =====
-- The budgets of an attachment epoch: what the counters of admission never pass.
use openlinker_plugin.Base.{ℕ, ◌+◌, ◌≤◌, ◌≡◌, true, arith, length}
use openlinker_plugin.Runtime.Admission.{
  Server, new_server, max_viewer_requests_per_epoch, max_close_attempts_per_attachment, cost,
}
use openlinker_plugin.Runtime.Admission.Events.{Event, request}

pub record WithinLimits (max_requests : ℕ) (s : Server) : Type 0 where
  pub actions_bounded : s.action_count ≤ max_requests
  pub viewers_bounded : s.viewer_count ≤ max_viewer_requests_per_epoch
  pub closes_bounded : s.close_count ≤ max_close_attempts_per_attachment
  pub closes_terminal : s.close_count ≡ max_close_attempts_per_attachment → s.terminal ≡ true
  pub memory_bounded : length s.seen ≤ s.action_count + s.viewer_count + s.close_count

-- A request in the history asks for at least one action, as a validated one does.
abbrev pub AsksForWork : Event → Type 0
AsksForWork (request identity id act) = 1 ≤ cost act
AsksForWork _ = Unit {0}

module _ (max_requests : ℕ) where
  pub new_server-WithinLimits : WithinLimits max_requests new_server
  new_server-WithinLimits = ground arith
