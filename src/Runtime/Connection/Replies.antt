-- ===== src/Runtime/Connection/Replies.antt =====
-- The calls and the answers of a connection from the call of the engine on.
use openlinker_plugin.Base.{
  String, ◌≡◌, refl, ap, ◌∙◌, Bool, true, false, not, Option, none, some, List, [], ◌∷◌, ◌++◌,
  if◌then◌else◌, inl, inr, arith,
}
use openlinker_plugin.Protocol.Types.{Observation, Failure}
use openlinker_plugin.Protocol.Failure.{Result, ok, failed}
use openlinker_plugin.Protocol.Observed.{validate_engine, validate_closed}
use openlinker_plugin.Protocol.Request.{Request, error_response}
use openlinker_plugin.Runtime.Admission.{Server, close_required_challenge, is_close, kind_of}
use openlinker_plugin.Runtime.Connection.{
  Outside, Limits, Checks, Effect, Reply, refuse, fenced, answer_failure, record_checked,
  accept_observation, answer_observation, answer_engine, execute_request, outcome_of, is_challenge,
  challenge_effects,
}
use openlinker_plugin.Runtime.Connection.Permits.{After, Answered, observed, refused, Told, untold}

module _ (limits : Limits) (checks : Checks) (outside : Outside) where
  -- The effects of a reply are those so far, with what may stand after them.
  unfoldable pub Extends : Request → List Effect → Reply → Type 0
  Extends r effects reply =
      (after : List Effect) × (After limits outside r after × (reply.effects ≡ effects ++ after))

  append-nil : (xs : List Effect) → xs ≡ xs ++ []
  append-nil [] = refl
  append-nil (x ∷ xs) = ap (λ ys. x ∷ ys) (append-nil xs)

  stops :
      (r : Request) (effects : List Effect) (reply : Reply)
      → reply.effects ≡ effects
      → Extends r effects reply
  unfolding Extends
  stops r effects reply h = ([], (inl refl, h ∙ append-nil effects))

  pick-Extends :
      (r : Request) (effects : List Effect) (b : Bool) (x y : Reply)
      → (b ≡ true → Extends r effects x)
      → (b ≡ false → Extends r effects y)
      → Extends r effects (if b then x else y)
  pick-Extends r effects true x y h k = h refl
  pick-Extends r effects false x y h k = k refl

  fence-Extends :
      (effects : List Effect) (r : Request) (out : Server × Failure)
      → limits.human_control_available ≡ false
      → (let after = fenced out.1 (
            close_required_challenge out.0 outside.later_is_revoked outside.later_revoke_failure) in
          Extends r effects (
            refuse after.0
              (effects
                ++ challenge_effects r.identity outside.later_is_revoked
                    outside.later_revoke_failure)
              r.request_id
              after.1))
  unfolding Extends refuse
  fence-Extends effects r out h = (
    challenge_effects r.identity outside.later_is_revoked outside.later_revoke_failure,
    (inr (h, refl), refl),
  )

  observation-Extends :
      (effects : List Effect) (r : Request) (o : Observation) (out : Server × Option Failure)
      → Extends r effects (answer_observation limits checks outside effects r o out)
  unfolding answer_observation refuse
  observation-Extends effects r o (t, some f) = stops r effects _ refl
  observation-Extends effects r o (t, none) = stops r effects _ refl

  failure-Extends :
      (effects : List Effect) (r : Request) (out : Server × Failure)
      → Extends r effects (answer_failure limits checks outside effects r out)
  unfolding answer_failure refuse
  failure-Extends effects r (t, f) =
      pick-Extends r effects (not (is_challenge f.code)) _ _ (λ _. stops r effects _ refl)
        (λ _.
          pick-Extends r effects limits.human_control_available _ _ (λ _. stops r effects _ refl)
            (λ h. fence-Extends effects r (t, f) h))

  engine-Extends :
      (s : Server) (effects : List Effect) (r : Request) (result : Result Observation)
      → Extends r effects (answer_engine limits checks outside s effects r result)
  unfolding answer_engine
  engine-Extends s effects r (failed f) = failure-Extends effects r _
  engine-Extends s effects r (ok o) = observation-Extends effects r o _

  pub execute-Extends :
      (s : Server) (effects : List Effect) (r : Request)
      → Extends r
          (effects ++ Effect.execute r.identity r.act ∷ [])
          (execute_request limits checks outside s effects r)
  unfolding execute_request
  execute-Extends s effects r =
      engine-Extends s (effects ++ Effect.execute r.identity r.act ∷ []) r
        (outcome_of outside.executed outside.deadline_passed)

  -- The answers.
  pub refuse-Answered :
      (r : Request) (s : Server) (effects : List Effect) (f : Failure)
      → Answered checks outside r (refuse s effects r.request_id f).response
  unfolding refuse error_response
  refuse-Answered r s effects f = refused f

  pick-Answered :
      (r : Request) (b : Bool) (x y : Reply)
      → Answered checks outside r x.response
      → Answered checks outside r y.response
      → Answered checks outside r (if b then x else y).response
  pick-Answered r true x y h k = h
  pick-Answered r false x y h k = k

  failure-Answered :
      (effects : List Effect) (r : Request) (out : Server × Failure)
      → Answered checks outside r (answer_failure limits checks outside effects r out).response
  unfolding answer_failure
  failure-Answered effects r (t, f) =
      pick-Answered r (not (is_challenge f.code)) _ _ (refuse-Answered r t effects f) (
        pick-Answered r limits.human_control_available _ _
          (refuse-Answered r t effects (record f { human_control_available = true }))
          (refuse-Answered r _ _ _))

  checked-verdict :
      (s : Server) (r : Request) (o : Observation) (v : Option Failure)
      → (record_checked limits checks outside s r o v).1 ≡ none
      → v ≡ none
  unfolding record_checked
  checked-verdict s r o (some f) h = ground arith
  checked-verdict s r o none h = refl

  pick_verdict :
      (b : Bool) (x y : Server × Option Failure) (v w : Option Failure)
      → (x.1 ≡ none → v ≡ none)
      → (y.1 ≡ none → w ≡ none)
      → (if b then x else y).1 ≡ none
      → (if b then v else w) ≡ none
  pick_verdict true x y v w h k e = h e
  pick_verdict false x y v w h k e = k e

  accepted-valid :
      (s : Server) (r : Request) (o : Observation)
      → (accept_observation limits checks outside s r o).1 ≡ none
      → (if is_close (kind_of r.act) then validate_closed o else validate_engine checks.is_json o)
        ≡ none
  unfolding accept_observation
  accepted-valid s r o =
      pick_verdict (is_close (kind_of r.act)) _ _ _ _ (λ h. h)
        (checked-verdict s r o (validate_engine checks.is_json o))

  observation-Answered :
      (effects : List Effect) (r : Request) (o : Observation) (out : Server × Option Failure)
      → outside.executed ≡ ok o
      → outside.deadline_passed ≡ false
      → (out.1 ≡ none
          → (if is_close (kind_of r.act)
              then validate_closed o
              else validate_engine checks.is_json o)
            ≡ none)
      → Answered checks outside r
          (answer_observation limits checks outside effects r o out).response
  unfolding answer_observation
  observation-Answered effects r o (t, some f) e d h = refuse-Answered r t effects f
  observation-Answered effects r o (t, none) e d h = observed o e d (h refl)

  engine-Answered :
      (s : Server) (effects : List Effect) (r : Request) (executed : Result Observation)
      (passed : Bool)
      → outside.executed ≡ executed
      → outside.deadline_passed ≡ passed
      → Answered checks outside r
          (answer_engine limits checks outside s effects r (outcome_of executed passed)).response
  unfolding answer_engine outcome_of
  engine-Answered s effects r (failed f) passed e d = failure-Answered effects r _
  engine-Answered s effects r (ok o) true e d = failure-Answered effects r _
  engine-Answered s effects r (ok o) false e d =
      observation-Answered effects r o _ e d (accepted-valid s r o)

  pub execute-Answered :
      (s : Server) (effects : List Effect) (r : Request)
      → Answered checks outside r (execute_request limits checks outside s effects r).response
  unfolding execute_request
  execute-Answered s effects r =
      engine-Answered s (effects ++ Effect.execute r.identity r.act ∷ []) r outside.executed
        outside.deadline_passed refl refl

  pub refuse-Told :
      (r : Request) (s : Server) (effects told : List Effect) (id : String) (f : Failure)
      → Told r effects (refuse s told id f).response
  unfolding refuse error_response
  refuse-Told r s effects told id f = untold _ f
