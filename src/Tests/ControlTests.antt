-- ===== src/Tests/ControlTests.antt =====
-- The theorems on the control of a Browser run at a lease of the sample identity.
use openlinker_plugin.Base.{
  ℕ, suc, ◌≡◌, ◌≤◌, ◌<◌, ◌⊎◌, refl, true, false, none, some, List, [], ◌∷◌, pos, arith,
}
use openlinker_plugin.Protocol.Types.{agent, nobody, human}
use openlinker_plugin.Adapters.RunLease.{RunLease, SessionState, Disk, close, pause}
use openlinker_plugin.Adapters.RunLease.Epochs.{
  Agrees, Fenced, LeaseEvent, rotating, changing, closing, apply_events, apply_events-Fenced,
}
use openlinker_plugin.Adapters.HumanControl.{
  Control, Answers, Command, claim, new_control, mark_paused, mark_resumed, pause_lease,
  terminate_control, handle_command, wait_resumed, close_browser_runtime, viewer_client,
}
use openlinker_plugin.Adapters.HumanControl.Channels.{
  marking, resuming, started, followed, sections-Wake, terminate_in_pause-panics,
}
use openlinker_plugin.Tests.Sample.{identity}

abbrev disk : Disk
disk = record {
  now = "2026-01-01T00:00:00Z";
  locked = true;
  session_written = true;
  active_written = true;
  run_written = true;
  active_readable = true;
  active_removed = true;
  run_removed = true;
}

abbrev state : SessionState
state = record {
  version = pos 2;
  session_key_hash = "key";
  browser_session_id = identity.browser_session_id;
  session_epoch = identity.session_epoch;
  control_epoch = identity.control_epoch;
  controller = identity.controller;
  runtime_session_id = "";
  runtime_session_epoch = pos 0;
  runtime_attachment_id = "";
  interaction_policy = "restricted";
  policy_generation = pos 1;
  mutation_origins_hash = "";
  updated_at = "";
}

abbrev lease : RunLease
lease = record {
  state = state;
  identity = identity;
  runtime_used = false;
  selected = true;
  scope_held = true;
  closed = false;
  files = record { session = none; active = none; run = none };
}

-- A pause, a claim of the human, a release, a rotation whose files cannot be written, a closing.
abbrev events : List LeaseEvent
events =
    changing disk agent nobody 0
    ∷ changing disk nobody human 0
    ∷ changing disk human nobody 0
    ∷ rotating (record disk { run_written = false }) (some "00000000-0000-4000-8000-000000000009")
    ∷ closing disk
    ∷ []

apply_events-Fenced_example :
    Agrees (apply_events events lease) × Fenced 5 lease (apply_events events lease)
apply_events-Fenced_example = apply_events-Fenced events lease (refl, (refl, refl)) (omega arith)

abbrev control : Control
control = new_control lease

abbrev woken : Control
woken = mark_resumed (mark_paused control).0

sections-Wake_example :
    ((c : ℕ)
      → 1 ≤ c
      → c < woken.made
      → (wait_resumed c woken ≡ some woken.terminal)
        ⊎ ((c ≡ woken.resumed) × (woken.paused ≡ true)))
    × (woken.paused ≡ true → wait_resumed woken.resumed woken ≡ none)
unfolding mark_resumed mark_paused
sections-Wake_example =
    sections-Wake lease woken
      (followed (mark_paused control).0 woken
        (followed control (mark_paused control).0 started (marking control))
        (resuming (mark_paused control).0))
      refl

abbrev answers : Answers
answers = record {
  disk = disk;
  close_disk = disk;
  client_made = true;
  viewer_ok = true;
  close_failure = none;
}

terminate_in_pause-panics_example :
    (pause_lease disk
      (mark_paused control).0.resumed
      (terminate_control answers (mark_paused control).0)).0.panicked
    ≡ true
unfolding mark_paused terminate_control close close_browser_runtime
terminate_in_pause-panics_example = terminate_in_pause-panics disk answers control refl refl

-- The human's claim of a paused run.
abbrev paused_control : Control
paused_control = (pause_lease disk 1 (mark_paused control).0).0

abbrev claiming : Command
claiming = record {
  run_id = identity.run_id;
  agent_id = identity.agent_id;
  browser_session_id = identity.browser_session_id;
  session_epoch = identity.session_epoch;
  attachment_id = identity.attachment_id;
  previous_control_epoch = suc identity.control_epoch;
  control_epoch = suc (suc identity.control_epoch);
  action = claim;
  has_input = false;
}

claim_passes : (handle_command answers claiming paused_control).lease.identity.controller ≡ human
unfolding handle_command pause_lease pause mark_paused viewer_client
claim_passes = refl
