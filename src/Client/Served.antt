-- ===== src/Client/Served.antt =====
-- The client over the server: what Execute returns when the exchange reaches `handleConnection`.
use openlinker_plugin.Base.{ℕ, ◌≡◌, String, false, Option, none, List, ◌++◌, ◌∷◌}
use openlinker_plugin.Protocol.Types.{Identity, Action, Observation, Failure}
use openlinker_plugin.Protocol.Failure.{Result, ok}
use openlinker_plugin.Protocol.Failure.Validate.{validate_failure}
use openlinker_plugin.Protocol.Request.{Request, Response, success, error}
use openlinker_plugin.Runtime.Admission.{Server}
use openlinker_plugin.Runtime.Connection.{Outside, Limits, Checks, Effect, handle_request}
use openlinker_plugin.Client.{Client, ExecuteCall, wire, kept_failure, execute}

-- A call of Execute whose exchange is one connection of the server: the request is decoded as it was
-- sent, and the answer is within the limits of both sides.
abbrev pub through : Limits → Checks → Outside → Server → ℕ → Option ℕ → Option String → ExecuteCall
through limits checks outside s now context_deadline id = record {
  now = now;
  context_deadline = context_deadline;
  request_id = id;
  exchange = λ r. ok (wire (handle_request limits checks outside s r none).response);
}

-- What a response of the server means to the client.
abbrev pub delivered : Checks → Response → Result Observation
delivered checks (success id o) = ok o
delivered checks (error id f) =
    kept_failure checks f (validate_failure checks.canonical_mutation_origin checks.digest f)

module _ (limits : Limits) (checks : Checks) (outside : Outside) where
  -- The engine was called with the action for the identity, and answered the observation in time.
  pub data Executed (i : Identity) (act : Action) (effects : List Effect) (o : Observation)
      : Type 0 where
    by_call :
        (before after : List Effect)
        → effects ≡ before ++ (Effect.execute i act ∷ after)
        → outside.executed ≡ ok o
        → outside.deadline_passed ≡ false
        → Executed i act effects o
