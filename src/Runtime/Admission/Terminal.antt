-- ===== src/Runtime/Admission/Terminal.antt =====
-- A terminal attachment epoch stays terminal.
use openlinker_plugin.Base.{
  ℕ, String, ◌≡◌, true, false, ◌⊎◌, List, [], ◌∷◌, arith, All, same_codes_refl,
}
use openlinker_plugin.Protocol.Types.{Identity, ActionKind, Action, ErrorCode}
use openlinker_plugin.Protocol.Failure.{new_failure, FailsWith}
use openlinker_plugin.Runtime.Scope.{attachment_request_scope}
use openlinker_plugin.Runtime.Admission.{
  Server, enter_scope, prepare_click_scope, reserve_in_scope, reserve_request,
  reserve_viewer_request, accept_engine_state, record_engine_observation, record_blocked_click,
  reset_click_navigation_baseline, close_required_challenge, cost, kind_of, is_close,
}
use openlinker_plugin.Runtime.Admission.Events.{
  Event, request, viewer_request, observation, blocked_click, reset_baseline, required_challenge,
  InScope, step, run,
}

-- The server is in the attachment epoch `scope`, and that epoch is terminal.
pub record IsTerminal (scope : List ℕ) (s : Server) : Type 0 where
  pub in_scope : s.seen_scope ≡ scope
  pub ended : s.terminal ≡ true

module _ (scope : List ℕ) (m : ℕ) where
  enter-IsTerminal :
      (s : Server) (i : Identity)
      → attachment_request_scope i ≡ scope
      → IsTerminal scope s
      → IsTerminal scope (enter_scope s i)
  unfolding enter_scope
  enter-IsTerminal s i e h = ground (arith, same_codes_refl s.seen_scope)

  prepare-IsTerminal :
      (s : Server) (i : Identity) → IsTerminal scope s → IsTerminal scope (prepare_click_scope s i)
  unfolding prepare_click_scope
  prepare-IsTerminal s i h = ground arith

  in_scope-IsTerminal :
      (s : Server) (id : String) (kind : ActionKind) (price : ℕ)
      → IsTerminal scope s
      → IsTerminal scope (reserve_in_scope m s id kind price).0
  unfolding reserve_in_scope
  in_scope-IsTerminal s id kind price h = ground arith

  accept-IsTerminal :
      (s : Server) (instance_id generation : ℕ)
      → IsTerminal scope s
      → IsTerminal scope (accept_engine_state s instance_id generation).0
  unfolding accept_engine_state
  accept-IsTerminal s instance_id generation h = ground arith

  step-IsTerminal :
      (s : Server) (e : Event)
      → InScope scope e
      → IsTerminal scope s
      → IsTerminal scope (step m s e)
  unfolding step reserve_request reserve_viewer_request record_engine_observation
      record_blocked_click reset_click_navigation_baseline close_required_challenge
  step-IsTerminal s (request i id act) e h =
      in_scope-IsTerminal (prepare_click_scope (enter_scope s i) i) id (kind_of act) (cost act)
        (prepare-IsTerminal (enter_scope s i) i (enter-IsTerminal s i e h))
  step-IsTerminal s (viewer_request i id) e h = ground (arith, enter-IsTerminal s i e h)
  step-IsTerminal s (observation i o) e h = ground (
    arith,
    accept-IsTerminal (prepare_click_scope s i) o.engine_instance_id o.navigation_generation
        (prepare-IsTerminal s i h),
  )
  step-IsTerminal s (blocked_click i f) e h = ground (
    arith,
    accept-IsTerminal (prepare_click_scope s i) f.engine_instance_id f.navigation_generation
        (prepare-IsTerminal s i h),
  )
  step-IsTerminal s (reset_baseline i) e h = ground (arith, prepare-IsTerminal s i h)
  step-IsTerminal s (required_challenge lease revoking) e h = ground arith

  run-IsTerminal :
      (s : Server) (es : List Event)
      → All (InScope scope) es
      → IsTerminal scope s
      → IsTerminal scope (run m s es)
  unfolding run
  run-IsTerminal s [] e h = h
  run-IsTerminal s (x ∷ es) e h = run-IsTerminal (step m s x) es e.1 (step-IsTerminal s x e.0 h)

  in_scope_refused :
      (s : Server) (id : String) (kind : ActionKind) (price : ℕ)
      → is_close kind ≡ false
      → IsTerminal scope s
      → FailsWith ErrorCode.request_replayed (reserve_in_scope m s id kind price).1
        ⊎ FailsWith ErrorCode.close_retry_exhausted (reserve_in_scope m s id kind price).1
  unfolding reserve_in_scope new_failure
  in_scope_refused s id kind price k h = ground arith

  -- Once an attachment epoch is terminal, after any history in that epoch every request but a
  -- close is refused, as replayed or as exhausted.
  pub terminal_refuses_actions :
      (s : Server) (es : List Event) (i : Identity) (id : String) (act : Action)
      → IsTerminal scope s
      → All (InScope scope) es
      → attachment_request_scope i ≡ scope
      → is_close (kind_of act) ≡ false
      → FailsWith ErrorCode.request_replayed (reserve_request m (run m s es) i id act).1
        ⊎ FailsWith ErrorCode.close_retry_exhausted (reserve_request m (run m s es) i id act).1
  unfolding reserve_request
  terminal_refuses_actions s es i id act h inside e k =
      in_scope_refused (prepare_click_scope (enter_scope (run m s es) i) i) id (kind_of act)
        (cost act) k
        (prepare-IsTerminal (enter_scope (run m s es) i) i
          (enter-IsTerminal (run m s es) i e (run-IsTerminal s es inside h)))
