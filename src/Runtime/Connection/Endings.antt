-- ===== src/Runtime/Connection/Endings.antt =====
-- The steps of the admission state that one connection may take, and that it takes no others from
-- the call of the engine on.
use openlinker_plugin.Base.{
  ℕ, String, ◌≡◌, refl, ap, sym, ◌∙◌, Bool, true, false, ◌&&◌, not, Option, none, some, List, [],
  ◌∷◌, ◌++◌, if◌then◌else◌, ◌⊎◌, inl, inr,
}
use openlinker_plugin.Protocol.Types.{Identity, Action, Observation, Failure}
use openlinker_plugin.Protocol.Failure.{Result, ok, failed}
use openlinker_plugin.Protocol.Failure.Validate.{validate_failure}
use openlinker_plugin.Protocol.Observed.{validate_engine}
use openlinker_plugin.Protocol.Request.{Request}
use openlinker_plugin.Runtime.Admission.{
  Server, RevocationState, record_engine_observation, reset_click_navigation_baseline,
  close_required_challenge, is_close, is_click, kind_of,
}
use openlinker_plugin.Runtime.Admission.Events.{
  Event, request, observation, blocked_click, reset_baseline, required_challenge, step, run,
}
use openlinker_plugin.Runtime.Connection.{
  Outside, Limits, Checks, Effect, Reply, refuse, fenced, judge_failure, answer_failure,
  record_checked, accept_observation, answer_observation, answer_engine, execute_request,
  outcome_of, is_challenge, is_checkpoint, is_high_impact,
}

-- What is recorded of the engine's answer.
pub data Recorded (i : Identity) : List Event → Type 0 where
  nothing : Recorded i []
  observed : (o : Observation) → Recorded i (observation i o ∷ [])
  checkpointed : (o : Observation) → Recorded i (observation i o ∷ reset_baseline i ∷ [])
  blocked : (f : Failure) → Recorded i (blocked_click i f ∷ [])
  was_reset : Recorded i (reset_baseline i ∷ [])

-- The history of one connection: nothing, or the admission of its request, then what is recorded of
-- the engine's answer, then the fence of a required challenge.
pub data History (i : Identity) (id : String) (act : Action) : List Event → Type 0 where
  unadmitted : History i id act []
  answered : {es : List Event} → Recorded i es → History i id act (request i id act ∷ es)
  challenged :
      {es : List Event} (lease : Option RevocationState) (revoking : Option Failure)
      → Recorded i es
      → History i id act (request i id act ∷ (es ++ (required_challenge lease revoking ∷ [])))

pub run-append :
    (m : ℕ) (s : Server) (xs ys : List Event) → run m s (xs ++ ys) ≡ run m (run m s xs) ys
unfolding run
run-append m s [] ys = refl
run-append m s (x ∷ xs) ys = run-append m (step m s x) xs ys

-- What follows the admission.
pub data Ending (i : Identity) : List Event → Type 0 where
  plain : {es : List Event} → Recorded i es → Ending i es
  with_fence :
      {es : List Event} (lease : Option RevocationState) (revoking : Option Failure)
      → Recorded i es
      → Ending i (es ++ (required_challenge lease revoking ∷ []))

unfoldable pub Ended : ℕ → Identity → Server → Server → Type 0
Ended m i s t = (es : List Event) × (Ending i es × (t ≡ run m s es))

Noted : ℕ → Identity → Server → Server → Type 0
Noted m i s t = (es : List Event) × (Recorded i es × (t ≡ run m s es))

Noted-Ended : (m : ℕ) (i : Identity) (s t : Server) → Noted m i s t → Ended m i s t
unfolding Ended Noted
Noted-Ended m i s t (es, (r, h)) = (es, (plain r, h))

fenced_server : (f : Failure) (o : Server × Option Failure) → (fenced f o).0 ≡ o.0
unfolding fenced
fenced_server f (s, none) = refl
fenced_server f (s, some t) = refl

module _ (limits : Limits) (checks : Checks) (outside : Outside) where
  abbrev m : ℕ
  m = limits.max_requests

  pick-Noted :
      (i : Identity) (s : Server) (b : Bool) (x y : Server × Failure)
      → Noted m i s x.0
      → Noted m i s y.0
      → Noted m i s (if b then x else y).0
  pick-Noted i s true x y h k = h
  pick-Noted i s false x y h k = k

  judge-Noted :
      (s : Server) (r : Request) (f : Failure) (o : Option Failure)
      → Noted m r.identity s (judge_failure limits checks outside s r f o).0
  unfolding judge_failure Noted run step
  judge-Noted s r f (some invalid) = ([], (nothing, refl))
  judge-Noted s r f none =
      pick-Noted r.identity s (is_click (kind_of r.act) && is_high_impact f.code) _ _
        (blocked_click r.identity f ∷ [], (blocked f, refl))
        (pick-Noted r.identity s f.engine_process_reset _ _
          (reset_baseline r.identity ∷ [], (was_reset, refl)) ([], (nothing, refl)))

  pub pick-Ended :
      (i : Identity) (s : Server) (b : Bool) (x y : Reply)
      → Ended m i s x.server
      → Ended m i s y.server
      → Ended m i s (if b then x else y).server
  pick-Ended i s true x y h k = h
  pick-Ended i s false x y h k = k

  fence-Ended :
      (i : Identity) (s t : Server) (f : Failure)
      → Noted m i s t
      → Ended m i s
          (fenced f
            (close_required_challenge t outside.later_is_revoked outside.later_revoke_failure)).0
  unfolding Ended Noted run step
  fence-Ended i s t f (es, (r, h)) = (
    es ++ (required_challenge outside.later_is_revoked outside.later_revoke_failure ∷ []),
    (
      with_fence outside.later_is_revoked outside.later_revoke_failure r,
      fenced_server f
            (close_required_challenge t outside.later_is_revoked outside.later_revoke_failure)
          ∙ (ap
                (λ u.
                  (close_required_challenge u outside.later_is_revoked
                    outside.later_revoke_failure).0)
                h
              ∙ sym (
                  run-append m s es (
                    required_challenge outside.later_is_revoked outside.later_revoke_failure
                    ∷ []))),
    ),
  )

  failure-Ended :
      (effects : List Effect) (r : Request) (s : Server) (out : Server × Failure)
      → Noted m r.identity s out.0
      → Ended m r.identity s (answer_failure limits checks outside effects r out).server
  unfolding answer_failure refuse
  failure-Ended effects r s (t, f) h =
      pick-Ended r.identity s (not (is_challenge f.code)) _ _ (Noted-Ended m r.identity s t h) (
        pick-Ended r.identity s limits.human_control_available _ _ (Noted-Ended m r.identity s t h)
          (fence-Ended r.identity s t f h))

  -- The recording alone, before a checkpoint resets the baseline.
  RecordOnly : (i : Identity) (s t : Server) → Type 0
  RecordOnly i s t = (t ≡ s) ⊎ ((o : Observation) × (t ≡ (record_engine_observation s i o).0))

  pick_record :
      (i : Identity) (s : Server) (b : Bool) (x y : Server × Option Failure)
      → RecordOnly i s x.0
      → RecordOnly i s y.0
      → RecordOnly i s (if b then x else y).0
  pick_record i s true x y h k = h
  pick_record i s false x y h k = k

  checked-record :
      (r : Request) (s : Server) (o : Observation) (verdict : Option Failure)
      → RecordOnly r.identity s (record_checked limits checks outside s r o verdict).0
  unfolding RecordOnly record_checked
  checked-record r s o (some f) = inl refl
  checked-record r s o none = inr (o, refl)

  accept-record :
      (r : Request) (s : Server) (o : Observation)
      → RecordOnly r.identity s (accept_observation limits checks outside s r o).0
  unfolding RecordOnly accept_observation
  accept-record r s o =
      pick_record r.identity s (is_close (kind_of r.act)) _ _ (inl refl)
        (checked-record r s o (validate_engine checks.is_json o))

  reset-Noted :
      (i : Identity) (s t : Server) (b : Bool)
      → RecordOnly i s t
      → Noted m i s (if b then reset_click_navigation_baseline t i else t)
  unfolding RecordOnly Noted run step
  reset-Noted i s t true (inl h) =
      (reset_baseline i ∷ [], (was_reset, ap (λ u. reset_click_navigation_baseline u i) h))
  reset-Noted i s t true (inr (o, h)) = (
    observation i o ∷ reset_baseline i ∷ [],
    (checkpointed o, ap (λ u. reset_click_navigation_baseline u i) h),
  )
  reset-Noted i s t false (inl h) = ([], (nothing, h))
  reset-Noted i s t false (inr (o, h)) = (observation i o ∷ [], (observed o, h))

  observation-Ended :
      (effects : List Effect) (r : Request) (o : Observation) (s : Server)
      (out : Server × Option Failure)
      → RecordOnly r.identity s out.0
      → Ended m r.identity s (answer_observation limits checks outside effects r o out).server
  unfolding answer_observation refuse
  observation-Ended effects r o s (t, some f) h =
      Noted-Ended m r.identity s t (reset-Noted r.identity s t false h)
  observation-Ended effects r o s (t, none) h =
      Noted-Ended m r.identity s _ (reset-Noted r.identity s t (is_checkpoint (kind_of r.act)) h)

  engine-Ended :
      (s : Server) (effects : List Effect) (r : Request) (result : Result Observation)
      → Ended m r.identity s (answer_engine limits checks outside s effects r result).server
  unfolding answer_engine
  engine-Ended s effects r (failed f) =
      failure-Ended effects r s _
        (judge-Noted s r f (validate_failure checks.canonical_mutation_origin checks.digest f))
  engine-Ended s effects r (ok o) = observation-Ended effects r o s _ (accept-record r s o)

  pub execute-Ended :
      (s : Server) (effects : List Effect) (r : Request)
      → Ended m r.identity s (execute_request limits checks outside s effects r).server
  unfolding execute_request
  execute-Ended s effects r =
      engine-Ended s _ r (outcome_of outside.executed outside.deadline_passed)
