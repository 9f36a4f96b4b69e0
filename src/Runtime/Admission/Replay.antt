-- ===== src/Runtime/Admission/Replay.antt =====
-- A request id is good for one admission in its attachment epoch, and a terminal attachment epoch
-- stays terminal.
use openlinker_plugin.Base.{
  ℕ, String, ◌≡◌, ◌∙◌, true, none, List, [], ◌∷◌, arith, has, has-cons, has-cons_self, All,
  same_codes_refl, eq_of_same_codes,
}
use openlinker_plugin.Protocol.Types.{Identity, ActionKind, Action, Observation, Failure, ErrorCode}
use openlinker_plugin.Protocol.Failure.{new_failure, FailsWith}
use openlinker_plugin.Runtime.Scope.{attachment_request_scope}
use openlinker_plugin.Runtime.Admission.{
  Server, enter_scope, prepare_click_scope, reserve_in_scope, reserve_request,
  reserve_viewer_request, accept_engine_state, record_engine_observation, record_blocked_click,
  reset_click_navigation_baseline, close_required_challenge, cost, kind_of,
}
use openlinker_plugin.Runtime.Admission.Events.{
  Event, request, viewer_request, observation, blocked_click, reset_baseline, required_challenge,
  InScope, step, run,
}

-- `id` was admitted in the attachment epoch `scope`, which the server is in.
pub record Spent (scope : List ℕ) (id : String) (s : Server) : Type 0 where
  pub in_scope : s.seen_scope ≡ scope
  pub remembered : has id s.seen ≡ true

enter_same_scope :
    (s : Server) (i : Identity) → attachment_request_scope i ≡ s.seen_scope → enter_scope s i ≡ s
unfolding enter_scope
enter_same_scope s i e = ground (arith, same_codes_refl s.seen_scope)

seen-prepare : (s : Server) (i : Identity) → (prepare_click_scope s i).seen ≡ s.seen
unfolding prepare_click_scope
seen-prepare s i = ground arith

scope-prepare : (s : Server) (i : Identity) → (prepare_click_scope s i).seen_scope ≡ s.seen_scope
unfolding prepare_click_scope
scope-prepare s i = ground arith

module _ (scope : List ℕ) (id : String) where
  prepare-Spent :
      (s : Server) (i : Identity) → Spent scope id s → Spent scope id (prepare_click_scope s i)
  prepare-Spent s i h = ground (arith, seen-prepare s i, scope-prepare s i)

  in_scope-Spent :
      (max_requests : ℕ) (s : Server) (other : String) (kind : ActionKind) (price : ℕ)
      → Spent scope id s
      → Spent scope id (reserve_in_scope max_requests s other kind price).0
  unfolding reserve_in_scope
  in_scope-Spent max_requests s other kind price h = ground (arith, has-cons id other s.seen)

  accept-Spent :
      (s : Server) (instance_id generation : ℕ)
      → Spent scope id s
      → Spent scope id (accept_engine_state s instance_id generation).0
  unfolding accept_engine_state
  accept-Spent s instance_id generation h = ground arith

  observation-Spent :
      (s : Server) (i : Identity) (o : Observation)
      → Spent scope id s
      → Spent scope id (record_engine_observation s i o).0
  unfolding record_engine_observation
  observation-Spent s i o h = ground (
    arith,
    accept-Spent (prepare_click_scope s i) o.engine_instance_id o.navigation_generation
        (prepare-Spent s i h),
  )

  blocked-Spent :
      (s : Server) (i : Identity) (f : Failure)
      → Spent scope id s
      → Spent scope id (record_blocked_click s i f).0
  unfolding record_blocked_click
  blocked-Spent s i f h = ground (
    arith,
    accept-Spent (prepare_click_scope s i) f.engine_instance_id f.navigation_generation
        (prepare-Spent s i h),
  )

  viewer-Spent :
      (s : Server) (i : Identity) (other : String)
      → attachment_request_scope i ≡ scope
      → Spent scope id s
      → Spent scope id (reserve_viewer_request s i other).0
  unfolding reserve_viewer_request
  viewer-Spent s i other e h = ground (arith, enter_same_scope s i, has-cons id other s.seen)

  request-Spent :
      (max_requests : ℕ) (s : Server) (i : Identity) (other : String) (act : Action)
      → attachment_request_scope i ≡ scope
      → Spent scope id s
      → Spent scope id (reserve_request max_requests s i other act).0
  unfolding reserve_request
  request-Spent max_requests s i other act e h =
      in_scope-Spent max_requests (prepare_click_scope (enter_scope s i) i) other (kind_of act)
        (cost act) (prepare-Spent (enter_scope s i) i (ground (arith, enter_same_scope s i)))

  step-Spent :
      (max_requests : ℕ) (s : Server) (e : Event)
      → InScope scope e
      → Spent scope id s
      → Spent scope id (step max_requests s e)
  unfolding step reset_click_navigation_baseline close_required_challenge
  step-Spent m s (request i other act) e h = request-Spent m s i other act e h
  step-Spent m s (viewer_request i other) e h = viewer-Spent s i other e h
  step-Spent m s (observation i o) e h = observation-Spent s i o h
  step-Spent m s (blocked_click i f) e h = blocked-Spent s i f h
  step-Spent m s (reset_baseline i) e h = ground (arith, prepare-Spent s i h)
  step-Spent m s (required_challenge lease revoking) e h = ground arith

  run-Spent :
      (max_requests : ℕ) (s : Server) (es : List Event)
      → All (InScope scope) es
      → Spent scope id s
      → Spent scope id (run max_requests s es)
  unfolding run
  run-Spent m s [] e h = h
  run-Spent m s (x ∷ es) e h = run-Spent m (step m s x) es e.1 (step-Spent m s x e.0 h)

in_scope-remembers :
    (m : ℕ) (s : Server) (id : String) (kind : ActionKind) (price : ℕ)
    → (reserve_in_scope m s id kind price).1 ≡ none
    → has id (reserve_in_scope m s id kind price).0.seen ≡ true
unfolding reserve_in_scope
in_scope-remembers m s id kind price h = ground (arith, has-cons_self id s.seen)

scope-in_scope :
    (m : ℕ) (s : Server) (id : String) (kind : ActionKind) (price : ℕ)
    → (reserve_in_scope m s id kind price).0.seen_scope ≡ s.seen_scope
unfolding reserve_in_scope
scope-in_scope m s id kind price = ground arith

scope-enter :
    (s : Server) (i : Identity) → (enter_scope s i).seen_scope ≡ attachment_request_scope i
unfolding enter_scope
scope-enter s i = ground (arith, eq_of_same_codes (attachment_request_scope i) s.seen_scope)

admitted-Spent :
    (m : ℕ) (s : Server) (i : Identity) (id : String) (act : Action)
    → (reserve_request m s i id act).1 ≡ none
    → Spent (attachment_request_scope i) id (reserve_request m s i id act).0
unfolding reserve_request
admitted-Spent m s i id act h = record {
  in_scope =
      scope-in_scope m (prepare_click_scope (enter_scope s i) i) id (kind_of act) (cost act)
      ∙ (scope-prepare (enter_scope s i) i ∙ scope-enter s i);
  remembered =
      in_scope-remembers m (prepare_click_scope (enter_scope s i) i) id (kind_of act) (cost act) h;
}

Spent-request_refused :
    (m : ℕ) (s : Server) (i : Identity) (id : String) (act : Action)
    → Spent (attachment_request_scope i) id s
    → FailsWith ErrorCode.request_replayed (reserve_request m s i id act).1
      × ((reserve_request m s i id act).0 ≡ prepare_click_scope s i)
unfolding reserve_request reserve_in_scope new_failure
Spent-request_refused m s i id act h = ground (arith, enter_same_scope s i, seen-prepare s i)

Spent-viewer_refused :
    (s : Server) (i : Identity) (id : String)
    → Spent (attachment_request_scope i) id s
    → FailsWith ErrorCode.request_replayed (reserve_viewer_request s i id).1
      × ((reserve_viewer_request s i id).0 ≡ s)
unfolding reserve_viewer_request new_failure
Spent-viewer_refused s i id h = ground (arith, enter_same_scope s i)

-- Once a request id was admitted, then after any history in the same attachment epoch that id is
-- refused as replayed: for a request, which changes nothing but the click scope, and for a Viewer
-- request, which changes nothing.
pub request_admitted_once :
    (m : ℕ) (s : Server) (i : Identity) (id : String) (act : Action) (es : List Event)
    (j : Identity) (again : Action)
    → (reserve_request m s i id act).1 ≡ none
    → All (InScope (attachment_request_scope i)) es
    → attachment_request_scope j ≡ attachment_request_scope i
    → let t = run m (reserve_request m s i id act).0 es in
      FailsWith ErrorCode.request_replayed (reserve_request m t j id again).1
      × ((reserve_request m t j id again).0 ≡ prepare_click_scope t j)
      × FailsWith ErrorCode.request_replayed (reserve_viewer_request t j id).1
      × ((reserve_viewer_request t j id).0 ≡ t)
request_admitted_once m s i id act es j again h inside same =
    let spent =
      run-Spent (attachment_request_scope i) id m (reserve_request m s i id act).0 es inside
        (admitted-Spent m s i id act h) in
    let here = rw (← same) at spent in
    let (a, b) =
      Spent-request_refused m (run m (reserve_request m s i id act).0 es) j id again here in
    let (c, d) = Spent-viewer_refused (run m (reserve_request m s i id act).0 es) j id here in
    (a, b, c, d)
