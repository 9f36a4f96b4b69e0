-- ===== src/Client/Builds.antt =====
-- What the client sends: the requests of a client that New built.
use openlinker_plugin.Base.{
  ℕ, ◌+◌, ◌<◌, ◌≤◌, ◌≡◌, refl, ap, sym, String, Bool, true, false, ◌||◌, Option, none, some,
  if◌then◌else◌, arith, some_eq, guarded_some, ℤ, pos, negsuc, pos_part, lt_int,
}
use openlinker_plugin.Protocol.Types.{Action, Observation, Failure}
use openlinker_plugin.Protocol.Failure.{Result}
use openlinker_plugin.Protocol.Action.{validate_for_policy}
use openlinker_plugin.Protocol.Identifiers.{is_valid_uuid}
use openlinker_plugin.Protocol.Request.{
  Request, contract_id, max_action_deadline, validate_request, check_deadline,
}
use openlinker_plugin.Runtime.Connection.{Checks}
use openlinker_plugin.Client.Lease.{ActiveLease, validate_lease, check_expiry}
use openlinker_plugin.Client.{
  Client, Config, ExecuteCall, earlier, within_context, deadline_of, request_of, identity_failure,
  timeout_or_default, timed_client, leased_client, with_lease, with_credential, new_client,
  received, numbered_call, leased_call, allowed_call, execute, valid_credential, credential_of,
}

pos_part-bounded : (z : ℤ) (n : ℕ) → lt_int (pos n) z ≡ false → pos_part z ≤ n
pos_part-bounded (pos m) n h = ground arith
pos_part-bounded (negsuc m) n h = ground arith

or_right : (a b : Bool) → (a || b) ≡ false → b ≡ false
or_right false b h = h
or_right true b h = cc

kept_if :
    {A : Type 0} (b : Bool) (o : Option A) (y : A) → (if b then o else none) ≡ some y → o ≡ some y
kept_if true o y h = h
kept_if false o y h = cc

module _ (checks : Checks) where
  timed-bounded :
      (credential : String) (lease : ActiveLease) (timeout : ℤ) (c : Client)
      → timed_client checks credential lease timeout ≡ some c
      → c.timeout ≤ max_action_deadline
  unfolding timed_client
  timed-bounded credential lease timeout c h =
      let built : Client = record {
        channel_credential = credential;
        lease = lease;
        timeout = pos_part timeout;
      } in
      let (small, same) =
        guarded_some (lt_int timeout (pos 1000000000) || lt_int (pos max_action_deadline) timeout)
          built c h in
      let fits =
        pos_part-bounded timeout max_action_deadline
          (or_right (lt_int timeout (pos 1000000000)) _ small) in
      let kept = ap Client.timeout same in omega (arith, fits, kept)

  leased-bounded :
      (credential : String) (lease : ActiveLease) (timeout : ℤ) (o : Option Failure) (c : Client)
      → leased_client checks credential lease timeout o ≡ some c
      → c.timeout ≤ max_action_deadline
  unfolding leased_client
  leased-bounded credential lease timeout (some f) c h = cc
  leased-bounded credential lease timeout none c h =
      timed-bounded credential lease (timeout_or_default timeout) c h

  lease-bounded :
      (now : ℕ) (config : Config) (credential : String) (o : Option ActiveLease) (c : Client)
      → with_lease checks now config credential o ≡ some c
      → c.timeout ≤ max_action_deadline
  unfolding with_lease
  lease-bounded now config credential none c h = cc
  lease-bounded now config credential (some lease) c h =
      leased-bounded credential lease config.timeout _ c h

  credential-bounded :
      (now : ℕ) (config : Config) (o : Option String) (c : Client)
      → with_credential checks now config o ≡ some c
      → c.timeout ≤ max_action_deadline
  unfolding with_credential
  credential-bounded now config none c h = cc
  credential-bounded now config (some raw) c h =
      lease-bounded now config (credential_of raw) config.lease c
        (kept_if (valid_credential (credential_of raw)) _ c h)

  new_client-bounded :
      (now : ℕ) (config : Config) (c : Client)
      → new_client checks now config ≡ some c
      → c.timeout ≤ max_action_deadline
  unfolding new_client
  new_client-bounded now config c h =
      credential-bounded now config config.credential c (kept_if config.socket_absolute _ c h)

  -- Everything the client has checked when it sends a request, and the result it then has.
  pub record Sent (c : Client) (call : ExecuteCall) (act : Action) (r : Request)
      (x : Result Observation) : Type 0 where
    pub allowed :
        validate_for_policy checks.validate_navigate_url c.lease.identity.browser_interaction_policy
          act
        ≡ none
    pub leased : validate_lease (identity_failure checks) c.lease call.now ≡ none
    pub id : String
    pub same : r ≡ request_of c call id act
    pub result : x ≡ received checks r (call.exchange r)

  numbered-Sent :
      (c : Client) (call : ExecuteCall) (act : Action) (o : Option String) (r : Request)
      → validate_for_policy checks.validate_navigate_url c.lease.identity.browser_interaction_policy
          act
        ≡ none
      → validate_lease (identity_failure checks) c.lease call.now ≡ none
      → (numbered_call checks c call act o).0 ≡ some r
      → Sent c call act r (numbered_call checks c call act o).1
  unfolding numbered_call
  numbered-Sent c call act none r a l h = cc
  numbered-Sent c call act (some id) r a l h =
      let same = some_eq (request_of c call id act) r h in
      record {
        allowed = a;
        leased = l;
        id = id;
        same = sym same;
        result = ap (λ sent. received checks sent (call.exchange sent)) same;
      }

  leased-Sent :
      (c : Client) (call : ExecuteCall) (act : Action) (o : Option Failure) (r : Request)
      → validate_for_policy checks.validate_navigate_url c.lease.identity.browser_interaction_policy
          act
        ≡ none
      → validate_lease (identity_failure checks) c.lease call.now ≡ o
      → (leased_call checks c call act o).0 ≡ some r
      → Sent c call act r (leased_call checks c call act o).1
  unfolding leased_call
  leased-Sent c call act (some f) r a l h = cc
  leased-Sent c call act none r a l h = numbered-Sent c call act call.request_id r a l h

  allowed-Sent :
      (c : Client) (call : ExecuteCall) (act : Action) (o : Option Failure) (r : Request)
      → validate_for_policy checks.validate_navigate_url c.lease.identity.browser_interaction_policy
          act
        ≡ o
      → (allowed_call checks c call act o).0 ≡ some r
      → Sent c call act r (allowed_call checks c call act o).1
  unfolding allowed_call
  allowed-Sent c call act (some f) r a h = cc
  allowed-Sent c call act none r a h = leased-Sent c call act _ r a refl h

  pub execute-Sent :
      (c : Client) (call : ExecuteCall) (act : Action) (r : Request)
      → (execute checks c call act).0 ≡ some r
      → Sent c call act r (execute checks c call act).1
  unfolding execute
  execute-Sent c call act r h = allowed-Sent c call act _ r refl h

  identity_checked :
      (expires now : ℕ) (o : Option Failure)
      → check_expiry (identity_failure checks) expires now o ≡ none
      → o ≡ none
  unfolding check_expiry
  identity_checked expires now (some f) h = cc
  identity_checked expires now none h = refl

  identity-valid :
      (lease : ActiveLease) (now : ℕ)
      → validate_lease (identity_failure checks) lease now ≡ none
      → identity_failure checks lease.identity ≡ none
  unfolding validate_lease
  identity-valid lease now h =
      identity_checked lease.expires_at now (identity_failure checks lease.identity) (ground arith)

earlier-bounded : (a b n : ℕ) → b ≤ n → earlier a b ≤ n
earlier-bounded a b n h = ground (arith, h)

context-bounded : (o : Option ℕ) (d n : ℕ) → d ≤ n → within_context o d ≤ n
unfolding within_context
context-bounded none d n h = h
context-bounded (some limit) d n h = earlier-bounded limit d n h

deadline-bounded : (c : Client) (call : ExecuteCall) → deadline_of c call ≤ call.now + c.timeout
unfolding deadline_of
deadline-bounded c call =
    context-bounded call.context_deadline _ _
      (earlier-bounded c.lease.expires_at (call.now + c.timeout) _ (omega arith))

deadline_accepted :
    (checks : Checks) (deadline t : ℕ)
    → t < deadline
    → deadline ≤ t + max_action_deadline
    → check_deadline checks.canonical_mutation_origin checks.digest deadline t ≡ none
unfolding check_deadline
deadline_accepted checks deadline t h k = ground arith

module _ (checks : Checks) where
  request-Valid :
      (r : Request) (t : ℕ)
      → r.contract ≡ contract_id
      → is_valid_uuid r.request_id ≡ true
      → identity_failure checks r.identity ≡ none
      → t < r.deadline
      → r.deadline ≤ t + max_action_deadline
      → validate_for_policy checks.validate_navigate_url r.identity.browser_interaction_policy r.act
        ≡ none
      → validate_request checks.canonical_mutation_origin checks.digest checks.validate_navigate_url
          r t
        ≡ none
  unfolding validate_request
  request-Valid r t contract uuid identity low high allowed =
      rw (contract, uuid, identity, deadline_accepted checks r.deadline t low high, allowed) refl

  -- Every request that a client built by New sends with a UUID as its identifier carries the
  -- client's credential and the identity of its lease, and is accepted by the server's
  -- Request.Validate at every time from the client's clock reading up to the deadline of the
  -- request.
  pub built_request-Valid :
      (started : ℕ) (config : Config) (c : Client) (call : ExecuteCall) (act : Action) (r : Request)
      (t : ℕ)
      → new_client checks started config ≡ some c
      → (execute checks c call act).0 ≡ some r
      → is_valid_uuid r.request_id ≡ true
      → call.now ≤ t
      → t < r.deadline
      → (r.channel_credential ≡ c.channel_credential)
        × ((r.identity ≡ c.lease.identity)
            × (validate_request checks.canonical_mutation_origin checks.digest
                  checks.validate_navigate_url r t
                ≡ none))
  unfolding request_of
  built_request-Valid started config c call act r t built sent uuid low high =
      let s = execute-Sent checks c call act r sent in
      let short = new_client-bounded checks started config c built in
      let near = deadline-bounded c call in
      let identity = ap Request.identity s.same in
      (
        ap Request.channel_credential s.same,
        (
          identity,
          request-Valid r t (ap Request.contract s.same) uuid
              (rw identity (identity-valid checks c.lease call.now s.leased)) high
              (omega (arith, ap Request.deadline s.same, near, short, low))
              (rw (identity, ap Request.act s.same) s.allowed),
        ),
      )
