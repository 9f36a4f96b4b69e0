-- ===== src/Runtime/Admission/Clicks.antt =====
-- The retry budgets of blocked clicks and the navigation generation of the engine.
use openlinker_plugin.Base.{Option, ℕ, ◌+◌, ◌≤◌, ◌<◌, String, ◌≡◌, ◌≢◌, ◌⊎◌, none, arith}
use openlinker_plugin.Protocol.Types.{Identity, Failure, ErrorCode}
use openlinker_plugin.Protocol.Failure.{new_failure, FailsWith}
use openlinker_plugin.Runtime.Admission.{
  Server, prepare_click_scope, accept_engine_state, record_blocked_click,
}
use openlinker_plugin.Runtime.Admission.Events.{
  Event, request, viewer_request, observation, blocked_click, reset_baseline, required_challenge,
}

-- The event is of the Run `r`, or has no part in the click budget.
abbrev pub OfRun : String → Event → Type 0
OfRun r (request i id act) = i.run_id ≡ r
OfRun r (viewer_request i id) = Unit {0}
OfRun r (observation i o) = i.run_id ≡ r
OfRun r (blocked_click i f) = i.run_id ≡ r
OfRun r (reset_baseline i) = i.run_id ≡ r
OfRun r (required_challenge l v) = Unit {0}

-- At least `n` blocked clicks are counted for the Run `r`.
pub record Blocked (r : String) (n : ℕ) (s : Server) : Type 0 where
  pub of_run : s.click_run_id ≡ r
  pub counted : n ≤ s.blocked_click_run_count

-- The state and answer of the engine-state check that opens `recordBlockedClick`.
abbrev pub accepted : Server → Identity → Failure → Server × Option Failure
accepted s i f =
    accept_engine_state (prepare_click_scope s i) f.engine_instance_id f.navigation_generation

-- A blocked click whose engine state is accepted adds one to the Run's count, and to the count of
-- its navigation: to zero if it came from another engine instance or a later navigation.
blocked_click_counted :
    (s : Server) (i : Identity) (f : Failure)
    → (accepted s i f).1 ≡ none
    → ((record_blocked_click s i f).0.blocked_click_run_count
        ≡ (prepare_click_scope s i).blocked_click_run_count + 1)
      × ((record_blocked_click s i f).0.blocked_click_navigation_count
          ≡ (accepted s i f).0.blocked_click_navigation_count + 1)
      × ((((accepted s i f).0.blocked_click_navigation_count ≡ 0)
            × ((prepare_click_scope s i).click_navigation_generation < f.navigation_generation
                ⊎ ((accepted s i f).0.click_engine_instance_id
                    ≢ (prepare_click_scope s i).click_engine_instance_id)))
          ⊎ ((accepted s i f).0.blocked_click_navigation_count
              ≡ (prepare_click_scope s i).blocked_click_navigation_count))
unfolding record_blocked_click accept_engine_state
blocked_click_counted s i f h = ground arith

-- An accepted engine state has a positive generation, which becomes the server's, and within one
-- engine instance never goes back; a refused one changes nothing.
engine_generation_monotone :
    (s : Server) (instance_id generation : ℕ)
    → let (t, out) = accept_engine_state s instance_id generation in
      ((out ≡ none)
        × (0 < generation)
        × (t.click_navigation_generation ≡ generation)
        × (t.click_engine_instance_id ≡ s.click_engine_instance_id
            → s.click_navigation_generation ≤ generation))
      ⊎ (FailsWith ErrorCode.output_invalid out × (t ≡ s))
unfolding accept_engine_state new_failure
engine_generation_monotone s instance_id generation = ground arith
