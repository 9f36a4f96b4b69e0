-- ===== src/Adapters/HumanControl/Turns.antt =====
-- What a command of the human's side does to the control of the browser.
use openlinker_plugin.Base.{ℕ, ◌≡◌, ◌⊎◌}
use openlinker_plugin.Protocol.Types.{Identity, Controller, agent, nobody, human}
use openlinker_plugin.Adapters.RunLease.{RunLease, next_epoch}
use openlinker_plugin.Adapters.HumanControl.{
  ViewerAction, claim, input, release, resume, terminate, other_action,
}

-- A change of the controller from one to another, to the next epoch; `target` is the epoch that was
-- asked for, 0 for any.
pub record Passed (expected next : Controller) (target : ℕ) (i j : Identity) : Type 0 where
  before : i.controller ≡ expected
  after : j.controller ≡ next
  epoch : j.control_epoch ≡ next_epoch i.control_epoch
  asked : (target ≡ 0) ⊎ (target ≡ next_epoch i.control_epoch)

abbrev Stays : Controller → Controller → ℕ → Identity → Identity → Type 0
Stays expected next target i j = (j ≡ i) ⊎ Passed expected next target i j

-- The change of the control that a command with this action can make.
abbrev pub Edge : ℕ → ViewerAction → Identity → Identity → Type 0
Edge target claim i j = Passed nobody human target i j
Edge target input i j = j ≡ i
Edge target release i j = Passed human nobody target i j
Edge target resume i j = Passed nobody agent target i j
Edge target terminate i j = Passed i.controller agent 0 i j
Edge target (other_action name) i j = j ≡ i
