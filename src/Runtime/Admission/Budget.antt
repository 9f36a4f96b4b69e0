-- ===== src/Runtime/Admission/Budget.antt =====
-- What the engine is asked to do in one attachment epoch, against the action limit.
use openlinker_plugin.Base.{
  ℕ, ◌+◌, ◌≤◌, String, ◌≡◌, false, Option, none, some, List, [], ◌∷◌, arith, All, same_codes,
  same_codes_refl, if◌then◌else◌,
}
use openlinker_plugin.Protocol.Types.{Identity, ActionKind, Action, Observation, Failure}
use openlinker_plugin.Runtime.Scope.{attachment_request_scope}
use openlinker_plugin.Runtime.Admission.{
  Server, enter_scope, prepare_click_scope, reserve_in_scope, reserve_request,
  reserve_viewer_request, accept_engine_state, record_engine_observation, record_blocked_click,
  reset_click_navigation_baseline, close_required_challenge, cost, kind_of, is_close,
}
use openlinker_plugin.Runtime.Admission.Events.{
  Event, request, viewer_request, observation, blocked_click, reset_baseline, required_challenge,
  InScope, step,
}

-- The actions that one admission lets through to the engine: none if it fails or is a close.
abbrev pub let_through : Option Failure → ActionKind → ℕ → ℕ
let_through (some failure) kind price = 0
let_through none kind price = if is_close kind then 0 else price

-- The actions let through in a history.
pub served : ℕ → Server → List Event → ℕ
served m s [] = 0
served m s (request i id act ∷ es) =
    let_through (reserve_request m s i id act).1 (kind_of act) (cost act)
    + served m (step m s (request i id act)) es
served m s (viewer_request i id ∷ es) = served m (step m s (viewer_request i id)) es
served m s (observation i o ∷ es) = served m (step m s (observation i o)) es
served m s (blocked_click i f ∷ es) = served m (step m s (blocked_click i f)) es
served m s (reset_baseline i ∷ es) = served m (step m s (reset_baseline i)) es
served m s (required_challenge l r ∷ es) = served m (step m s (required_challenge l r)) es

module _ (scope : List ℕ) (m : ℕ) where
  -- In the epoch, with `n` actions counted.
  record Counted (n : ℕ) (s : Server) : Type 0 where
    pub in_scope : s.seen_scope ≡ scope
    pub counted : s.action_count ≡ n
    pub bounded : s.action_count ≤ m

  enter-Counted :
      (n : ℕ) (s : Server) (i : Identity)
      → attachment_request_scope i ≡ scope
      → Counted n s
      → Counted n (enter_scope s i)
  unfolding enter_scope
  enter-Counted n s i e h = ground (arith, same_codes_refl s.seen_scope)

  prepare-Counted :
      (n : ℕ) (s : Server) (i : Identity) → Counted n s → Counted n (prepare_click_scope s i)
  unfolding prepare_click_scope
  prepare-Counted n s i h = ground arith

  accept-Counted :
      (n : ℕ) (s : Server) (instance_id generation : ℕ)
      → Counted n s
      → Counted n (accept_engine_state s instance_id generation).0
  unfolding accept_engine_state
  accept-Counted n s instance_id generation h = ground arith

  in_scope-Counted :
      (n : ℕ) (s : Server) (id : String) (kind : ActionKind) (price : ℕ)
      → Counted n s
      → let (t, out) = reserve_in_scope m s id kind price in
        (n + let_through out kind price ≤ t.action_count) × Counted t.action_count t
  unfolding reserve_in_scope
  in_scope-Counted n s id kind price h = ground arith

  -- One request: what it lets through is counted, and the limit still holds.
  request-Counted :
      (n : ℕ) (s : Server) (i : Identity) (id : String) (act : Action)
      → attachment_request_scope i ≡ scope
      → Counted n s
      → let (t, out) = reserve_request m s i id act in
        (n + let_through out (kind_of act) (cost act) ≤ t.action_count) × Counted t.action_count t
  unfolding reserve_request
  request-Counted n s i id act e h =
      in_scope-Counted n (prepare_click_scope (enter_scope s i) i) id (kind_of act) (cost act)
        (prepare-Counted n (enter_scope s i) i (enter-Counted n s i e h))

  viewer-Counted :
      (n : ℕ) (s : Server) (i : Identity) (id : String)
      → attachment_request_scope i ≡ scope
      → Counted n s
      → Counted n (reserve_viewer_request s i id).0
  unfolding reserve_viewer_request
  viewer-Counted n s i id e h = ground (arith, enter-Counted n s i e h)

  observation-Counted :
      (n : ℕ) (s : Server) (i : Identity) (o : Observation)
      → Counted n s
      → Counted n (record_engine_observation s i o).0
  unfolding record_engine_observation
  observation-Counted n s i o h = ground (
    arith,
    accept-Counted n (prepare_click_scope s i) o.engine_instance_id o.navigation_generation
        (prepare-Counted n s i h),
  )

  blocked-Counted :
      (n : ℕ) (s : Server) (i : Identity) (f : Failure)
      → Counted n s
      → Counted n (record_blocked_click s i f).0
  unfolding record_blocked_click
  blocked-Counted n s i f h = ground (
    arith,
    accept-Counted n (prepare_click_scope s i) f.engine_instance_id f.navigation_generation
        (prepare-Counted n s i h),
  )

  served-Counted :
      (n : ℕ) (s : Server) (es : List Event)
      → All (InScope scope) es
      → Counted n s
      → n + served m s es ≤ m
  unfolding served step reset_click_navigation_baseline close_required_challenge
  served-Counted n s [] e h = ground arith
  served-Counted n s (request i id act ∷ es) e h =
      let (more, c) = request-Counted n s i id act e.0 h in
      omega (
        arith,
        more,
        served-Counted (reserve_request m s i id act).0.action_count
            (reserve_request m s i id act).0 es e.1 c,
      )
  served-Counted n s (viewer_request i id ∷ es) e h =
      served-Counted n (reserve_viewer_request s i id).0 es e.1 (viewer-Counted n s i id e.0 h)
  served-Counted n s (observation i o ∷ es) e h =
      served-Counted n (record_engine_observation s i o).0 es e.1 (observation-Counted n s i o h)
  served-Counted n s (blocked_click i f ∷ es) e h =
      served-Counted n (record_blocked_click s i f).0 es e.1 (blocked-Counted n s i f h)
  served-Counted n s (reset_baseline i ∷ es) e h =
      served-Counted n (reset_click_navigation_baseline s i) es e.1
        (ground (arith, prepare-Counted n s i h))
  served-Counted n s (required_challenge l r ∷ es) e h =
      served-Counted n (close_required_challenge s l r).0 es e.1 (ground arith)

-- When a request opens a new attachment epoch, the actions that it and any later history in that
-- epoch let through to the engine, batches counted by their length, total at most `max_requests`.
pub served_within_limit :
    (m : ℕ) (s : Server) (i : Identity) (id : String) (act : Action) (es : List Event)
    → same_codes (attachment_request_scope i) s.seen_scope ≡ false
    → All (InScope (attachment_request_scope i)) es
    → served m s (request i id act ∷ es) ≤ m
unfolding served step reserve_request enter_scope
served_within_limit m s i id act es fresh inside =
    let (more, c) =
      in_scope-Counted (attachment_request_scope i) m 0 (prepare_click_scope (enter_scope s i) i) id
        (kind_of act) (cost act)
        (prepare-Counted (attachment_request_scope i) m 0 (enter_scope s i) i (ground arith)) in
    omega (
      arith,
      more,
      served-Counted (attachment_request_scope i) m (reserve_request m s i id act).0.action_count
          (reserve_request m s i id act).0 es inside c,
    )
