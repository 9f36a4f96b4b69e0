-- ===== src/Runtime/Connection/Permits.antt =====
-- What a connection may ask the lease and the engine to do, and when it may answer with an
-- observation.
use openlinker_plugin.Base.{
  String, ◌≡◌, Bool, true, false, none, some, List, [], ◌∷◌, ◌++◌, if◌then◌else◌, ◌⊎◌, inl, inr,
}
use openlinker_plugin.Protocol.Types.{Observation, Failure}
use openlinker_plugin.Protocol.Failure.{ok, bounded_string}
use openlinker_plugin.Protocol.Observed.{validate_engine, validate_closed}
use openlinker_plugin.Protocol.Request.{Request, Response, success, validate_request}
use openlinker_plugin.Runtime.Admission.{Server, revoked, reserve_request, is_close, kind_of}
use openlinker_plugin.Runtime.Connection.{Outside, Limits, Checks, Effect, challenge_effects}

pub record Cleared (limits : Limits) (checks : Checks) (outside : Outside) (s : Server)
    (r : Request) : Type 0 where
  pub credential : r.channel_credential ≡ limits.channel_credential
  pub valid :
      validate_request checks.canonical_mutation_origin checks.digest checks.validate_navigate_url r
        outside.now
      ≡ none
  pub leased :
      (outside.lease_failure ≡ none)
      ⊎ ((is_close (kind_of r.act) ≡ true) × (outside.is_revoked ≡ some revoked))
  pub admitted : (reserve_request limits.max_requests s r.identity r.request_id r.act).1 ≡ none

-- What stands before the call of the engine: for a close of a live lease its revocation, which
-- succeeded; otherwise nothing.
abbrev pub Before : Outside → Request → List Effect → Type 0
Before outside r before =
    ((is_close (kind_of r.act) ≡ false) × (before ≡ []))
    ⊎ ((outside.is_revoked ≡ some revoked) × (before ≡ []))
    ⊎ ((outside.revoke_failure ≡ none) × (before ≡ Effect.revoke r.identity ∷ []))

-- What stands after it: nothing, or the fence of a required challenge when nobody can take over.
abbrev pub After : Limits → Outside → Request → List Effect → Type 0
After limits outside r after =
    (after ≡ [])
    ⊎ ((limits.human_control_available ≡ false)
        × (after
            ≡ challenge_effects r.identity outside.later_is_revoked outside.later_revoke_failure))

pub data Permitted (limits : Limits) (checks : Checks) (outside : Outside) (s : Server)
    (r : Request) (effects : List Effect) : Type 0 where
  idle : effects ≡ [] → Permitted limits checks outside s r effects
  revoking :
      Cleared limits checks outside s r
      → is_close (kind_of r.act) ≡ true
      → effects ≡ Effect.revoke r.identity ∷ []
      → Permitted limits checks outside s r effects
  executing :
      (before after : List Effect)
      → Cleared limits checks outside s r
      → Before outside r before
      → After limits outside r after
      → effects ≡ before ++ (Effect.execute r.identity r.act ∷ after)
      → Permitted limits checks outside s r effects

-- An observation is answered only when it is what the engine returned in time, it is valid, and its
-- engine state was accepted. Every answer carries the identifier of the request.
pub data Answered (checks : Checks) (outside : Outside) (r : Request) : Response → Type 0 where
  observed :
      (o : Observation)
      → outside.executed ≡ ok o
      → outside.deadline_passed ≡ false
      → (if is_close (kind_of r.act) then validate_closed o else validate_engine checks.is_json o)
        ≡ none
      → Answered checks outside r (success r.request_id o)
  refused :
      (f : Failure) → Answered checks outside r (Response.error (bounded_string r.request_id 128) f)

-- An observation is answered only after the engine was called with the request's action.
pub data Told (r : Request) (effects : List Effect) : Response → Type 0 where
  by_engine :
      (before after : List Effect) (response : Response)
      → effects ≡ before ++ (Effect.execute r.identity r.act ∷ after)
      → Told r effects response
  untold : (id : String) (f : Failure) → Told r effects (Response.error id f)

-- The lease's answers that let a request go on to its admission, and whether it revokes first.
pub data Passed (outside : Outside) (r : Request) : Bool → Type 0 where
  live_action :
      is_close (kind_of r.act) ≡ false → outside.lease_failure ≡ none → Passed outside r false
  closed_before :
      is_close (kind_of r.act) ≡ true → outside.is_revoked ≡ some revoked → Passed outside r false
  live_close :
      is_close (kind_of r.act) ≡ true → outside.lease_failure ≡ none → Passed outside r true

pub leased_of :
    (outside : Outside) (r : Request) (first : Bool)
    → Passed outside r first
    → (outside.lease_failure ≡ none)
      ⊎ ((is_close (kind_of r.act) ≡ true) × (outside.is_revoked ≡ some revoked))
leased_of outside r _ (live_action k l) = inl l
leased_of outside r _ (closed_before k l) = inr (k, l)
leased_of outside r _ (live_close k l) = inl l
