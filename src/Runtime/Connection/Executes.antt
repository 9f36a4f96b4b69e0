-- ===== src/Runtime/Connection/Executes.antt =====
-- What a connection asks the lease and the engine to do, and when it answers with an observation.
use openlinker_plugin.Base.{
  append_assoc, ◌≡◌, refl, ◌∙◌, Bool, true, false, not, Option, none, some, List, [], ◌∷◌, ◌=s=◌,
  if◌then◌else◌, inl, inr, arith, eq_iff,
}
use openlinker_plugin.Protocol.Types.{Failure}
use openlinker_plugin.Protocol.Request.{Request, validate_request}
use openlinker_plugin.Runtime.Admission.{
  Server, RevocationState, unreadable, revoked, live, reserve_request, is_close, kind_of,
}
use openlinker_plugin.Runtime.Connection.{
  Outside, Limits, Checks, Effect, Reply, refuse, execute_request, revoked_first, admitted, admit,
  leased, close_leased, lease_request, validated, handle_request,
}
use openlinker_plugin.Runtime.Connection.Permits.{
  Cleared, Before, Permitted, Answered, Passed, leased_of, idle, revoking, executing, Told,
  by_engine, live_action, closed_before, live_close,
}
use openlinker_plugin.Runtime.Connection.Replies.{
  Extends, execute-Extends, refuse-Answered, execute-Answered, refuse-Told,
}

-- Everything that has to hold before the lease is revoked or the engine is called for a request.
module _ (limits : Limits) (checks : Checks) (outside : Outside) where
  -- All three, for the replies of a request in the state `s`.
  Proper : Server → Request → Reply → Type 0
  Proper s r reply =
      Permitted limits checks outside s r reply.effects
      × (Answered checks outside r reply.response × Told r reply.effects reply.response)

  refuse-Proper :
      (s : Server) (r : Request) (t : Server) (f : Failure)
      → Proper s r (refuse t [] r.request_id f)
  unfolding Proper refuse
  refuse-Proper s r t f = (
    idle refl,
    (
      refuse-Answered limits checks outside r t [] f,
      refuse-Told limits checks outside r t [] [] r.request_id f,
    ),
  )

  execute-Proper :
      (s t : Server) (before : List Effect) (r : Request)
      → Cleared limits checks outside s r
      → Before outside r before
      → Proper s r (execute_request limits checks outside t before r)
  unfolding Proper Extends
  execute-Proper s t before r c b =
      let (after, (a, e)) = execute-Extends limits checks outside t before r in
      let told = e ∙ append_assoc before (Effect.execute r.identity r.act ∷ []) after in
      (
        executing before after c b a told,
        (execute-Answered limits checks outside t before r, by_engine before after _ told),
      )

  revoked-Proper :
      (s t : Server) (r : Request) (o : Option Failure)
      → Cleared limits checks outside s r
      → is_close (kind_of r.act) ≡ true
      → outside.revoke_failure ≡ o
      → Proper s r (revoked_first limits checks outside t r o)
  unfolding revoked_first Proper refuse
  revoked-Proper s t r (some f) c k e =
      let effects = Effect.revoke r.identity ∷ [] in
      (
        revoking c k refl,
        (
          refuse-Answered limits checks outside r t effects f,
          refuse-Told limits checks outside r t effects effects r.request_id f,
        ),
      )
  revoked-Proper s t r none c k e =
      execute-Proper s t (Effect.revoke r.identity ∷ []) r c (inr (inr (e, refl)))

  -- The tests made before the lease is asked.
  record Checked (r : Request) : Type 0 where
    credential : r.channel_credential ≡ limits.channel_credential
    valid :
        validate_request checks.canonical_mutation_origin checks.digest checks.validate_navigate_url
          r outside.now
        ≡ none

  cleared :
      (s : Server) (r : Request) (first : Bool)
      → Checked r
      → Passed outside r first
      → (reserve_request limits.max_requests s r.identity r.request_id r.act).1 ≡ none
      → Cleared limits checks outside s r
  cleared s r first k p a = record {
    credential = k.credential;
    valid = k.valid;
    leased = leased_of outside r first p;
    admitted = a;
  }

  go_on-Proper :
      (s t : Server) (r : Request) (first : Bool)
      → Passed outside r first
      → Cleared limits checks outside s r
      → Proper s r (admitted limits checks outside first r (t, none))
  unfolding admitted
  go_on-Proper s t r _ (live_action k l) c = execute-Proper s t [] r c (inl (k, refl))
  go_on-Proper s t r _ (closed_before k l) c = execute-Proper s t [] r c (inr (inl (l, refl)))
  go_on-Proper s t r _ (live_close k l) c = revoked-Proper s t r outside.revoke_failure c k refl

  admitted-Proper :
      (s t : Server) (r : Request) (first : Bool) (o : Option Failure)
      → Checked r
      → Passed outside r first
      → (reserve_request limits.max_requests s r.identity r.request_id r.act).1 ≡ o
      → Proper s r (admitted limits checks outside first r (t, o))
  unfolding admitted
  admitted-Proper s t r first (some f) k p e = refuse-Proper s r t f
  admitted-Proper s t r first none k p e = go_on-Proper s t r first p (cleared s r first k p e)

  admit-Proper :
      (s : Server) (r : Request) (first : Bool)
      → Checked r
      → Passed outside r first
      → Proper s r (admit limits checks outside s first r)
  unfolding admit
  admit-Proper s r first k p =
      let out = reserve_request limits.max_requests s r.identity r.request_id r.act in
      admitted-Proper s out.0 r first out.1 k p refl

  leased-Proper :
      (s : Server) (r : Request) (first : Bool) (o : Option Failure)
      → Checked r
      → outside.lease_failure ≡ o
      → is_close (kind_of r.act) ≡ first
      → Proper s r (leased limits checks outside s first r o)
  unfolding leased
  leased-Proper s r first (some f) k e c = refuse-Proper s r s f
  leased-Proper s r false none k e c = admit-Proper s r false k (live_action c e)
  leased-Proper s r true none k e c = admit-Proper s r true k (live_close c e)

  close-Proper :
      (s : Server) (r : Request) (o : Option RevocationState)
      → Checked r
      → outside.is_revoked ≡ o
      → is_close (kind_of r.act) ≡ true
      → Proper s r (close_leased limits checks outside s r o)
  unfolding close_leased
  close-Proper s r none k e c = refuse-Proper s r s _
  close-Proper s r (some (unreadable f)) k e c = refuse-Proper s r s f
  close-Proper s r (some revoked) k e c = admit-Proper s r false k (closed_before c e)
  close-Proper s r (some live) k e c = leased-Proper s r true outside.lease_failure k refl c

  pick-Proper :
      (s : Server) (r : Request) (b : Bool) (x y : Reply)
      → (b ≡ true → Proper s r x)
      → (b ≡ false → Proper s r y)
      → Proper s r (if b then x else y)
  pick-Proper s r true x y h k = h refl
  pick-Proper s r false x y h k = k refl

  validated-Proper :
      (s : Server) (r : Request) (o : Option Failure)
      → r.channel_credential ≡ limits.channel_credential
      → validate_request checks.canonical_mutation_origin checks.digest checks.validate_navigate_url
          r outside.now
        ≡ o
      → Proper s r (validated limits checks outside s r o)
  unfolding validated lease_request
  validated-Proper s r (some f) k e = refuse-Proper s r s f
  validated-Proper s r none k e =
      let checked : Checked r = record { credential = k; valid = e } in
      pick-Proper s r (is_close (kind_of r.act)) _ _
        (λ c. close-Proper s r outside.is_revoked checked refl c)
        (λ c. leased-Proper s r false outside.lease_failure checked refl c)

  decoded-Proper :
      (s : Server) (r : Request) (o : Option Failure)
      → Proper s r (handle_request limits checks outside s r o)
  unfolding handle_request
  decoded-Proper s r (some f) = refuse-Proper s r s f
  decoded-Proper s r none =
      pick-Proper s r (not (r.channel_credential =s= limits.channel_credential)) _ _
        (λ h. refuse-Proper s r s _)
        (λ h.
          validated-Proper s r _
            ((eq_iff r.channel_credential limits.channel_credential).0 (ground arith)) refl)

  -- Whatever the lease, the engine and the clock answer, a connection revokes the lease or calls the
  -- engine only for a request with the channel's credential that is valid at its time, whose lease
  -- was validated (or, for a close, was revoked before), and that was admitted. Then it calls the
  -- engine once with the request's action, a close of a live lease only after the lease was revoked;
  -- after that call come at most the revocation and the close that fence a required challenge, and
  -- these only when no human can take over. It answers with an observation only when the engine
  -- returned that observation before the deadline and it is valid: as a closed one for a close, as
  -- an engine's for any other action; and every answer carries the identifier of the request.
  pub handle_request-Permitted :
      (s : Server) (r : Request) (undecoded : Option Failure)
      → Permitted limits checks outside s r
          (handle_request limits checks outside s r undecoded).effects
        × Answered checks outside r (handle_request limits checks outside s r undecoded).response
  unfolding Proper
  handle_request-Permitted s r undecoded =
      let (permitted, (answered, told)) = decoded-Proper s r undecoded in (permitted, answered)

  pub handle_request-Told :
      (s : Server) (r : Request) (undecoded : Option Failure)
      → Told r
          (handle_request limits checks outside s r undecoded).effects
          (handle_request limits checks outside s r undecoded).response
  unfolding Proper
  handle_request-Told s r undecoded =
      let (permitted, (answered, told)) = decoded-Proper s r undecoded in told
