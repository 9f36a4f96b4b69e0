-- ===== src/Client.antt =====
-- The client of the Browser Runtime (packages/browser-runtime/browserclient/client.go): New and
-- Execute. What the files hold and what the exchange over the socket returns are arguments; a time
-- counts nanoseconds.
pub mod Lease
pub mod Builds
pub mod Served
use Prim.Native.String.{slice}
use openlinker_plugin.Base.{
  ℕ, suc, ◌-◌, String, Bool, true, false, ◌||◌, ◌&&◌, not, Option, none, some, List, [], ◌∷◌, ltb,
  ◌+◌, ◌==◌, ◌=s=◌, if◌then◌else◌, codes, len, all_codes, ℤ, pos, pos_part, lt_int, eq_int,
}
use openlinker_plugin.Protocol.Types.{Identity, Action, Observation, Failure, ErrorCode}
use openlinker_plugin.Protocol.Failure.{new_failure, Result, ok, failed}
use openlinker_plugin.Protocol.Failure.Validate.{validate_failure}
use openlinker_plugin.Protocol.Action.{validate_for_policy}
use openlinker_plugin.Protocol.Request.{
  Request, Response, success, error, contract_id, max_action_deadline, validate_identity,
}
use openlinker_plugin.Protocol.Observed.{validate_engine, validate_closed}
use openlinker_plugin.Runtime.Admission.{is_close, kind_of}
use openlinker_plugin.Runtime.Connection.{Checks}
use openlinker_plugin.Client.Lease.{ActiveLease, validate_lease}

pub record Client : Type 0 where
  pub channel_credential : String
  pub lease : ActiveLease
  pub timeout : ℕ  -- nanoseconds

-- `Config` after the reading of its files: whether the socket path is absolute, the credential file
-- and the decoded lease.
pub record Config : Type 0 where
  pub socket_absolute : Bool
  pub credential : Option String
  pub lease : Option ActiveLease
  pub timeout : ℤ

last_is : ℕ → List ℕ → Bool
last_is c [] = false
last_is c (x ∷ []) = c == x
last_is c (x ∷ y ∷ rest) = last_is c (y ∷ rest)

-- `strings.TrimSuffix`, for a suffix of one ASCII character
trim_suffix : ℕ → String → String
unfolding last_is
trim_suffix c value = if last_is c (codes value) then slice value 0 (len value - 1) else value

abbrev is_break : ℕ → Bool
is_break c = c == b'\r' || c == b'\n' || c == b'\t' || c == b' '

credential_of : String → String
unfolding trim_suffix
credential_of raw = trim_suffix b'\r' (trim_suffix b'\n' raw)

-- The credential that New takes, if it is valid.
unfoldable pub valid_credential : String → Bool
valid_credential value =
    not (ltb (len value) 32)
    && not (ltb 512 (len value))
    && all_codes (λ c. not (is_break c)) (codes value)

abbrev pub timeout_or_default : ℤ → ℤ
timeout_or_default timeout = if eq_int timeout (pos 0) then pos 20000000000 else timeout

-- The wire form of `Response`.
pub record WireResponse : Type 0 where
  pub contract : String
  pub request_id : String
  pub status : String
  pub observation : Option Observation
  pub error : Option Failure

-- What SuccessResponse and ErrorResponse build.
abbrev pub wire : Response → WireResponse
wire (success id o) = record {
  contract = contract_id;
  request_id = id;
  status = "ok";
  observation = some o;
  error = none;
}
wire (error id f) = record {
  contract = contract_id;
  request_id = id;
  status = "error";
  observation = none;
  error = some f;
}

-- What the calls of one Execute return. A context may have no deadline; the identifier may fail.
pub record ExecuteCall : Type 0 where
  pub now : ℕ
  pub context_deadline : Option ℕ
  pub request_id : Option String
  pub exchange : Request → Result WireResponse

abbrev pub earlier : ℕ → ℕ → ℕ
earlier a b = if ltb a b then a else b

within_context : Option ℕ → ℕ → ℕ
within_context none deadline = deadline
within_context (some limit) deadline = earlier limit deadline

-- The earliest of the deadlines.
unfoldable pub deadline_of : Client → ExecuteCall → ℕ
unfolding within_context
deadline_of c call =
    within_context call.context_deadline (earlier c.lease.expires_at (call.now + c.timeout))

-- The request that Execute sends.
unfoldable pub request_of : Client → ExecuteCall → String → Action → Request
request_of c call id act = record {
  contract = contract_id;
  channel_credential = c.channel_credential;
  request_id = id;
  deadline = deadline_of c call;
  identity = c.lease.identity;
  act = act;
}

abbrev pub output_invalid : String → Failure
output_invalid message = new_failure ErrorCode.output_invalid message false

module _ (checks : Checks) where
  abbrev pub identity_failure : Identity → Option Failure
  identity_failure i = validate_identity checks.canonical_mutation_origin checks.digest i

  timed_client : String → ActiveLease → ℤ → Option Client
  timed_client credential lease timeout =
      if lt_int timeout (pos 1000000000) || lt_int (pos max_action_deadline) timeout
      then none
      else some
          (record { channel_credential = credential; lease = lease; timeout = pos_part timeout })

  leased_client : String → ActiveLease → ℤ → Option Failure → Option Client
  unfolding timed_client
  leased_client credential lease timeout (some failure) = none
  leased_client credential lease timeout none =
      timed_client credential lease (timeout_or_default timeout)

  with_lease : ℕ → Config → String → Option ActiveLease → Option Client
  unfolding leased_client
  with_lease now config credential none = none
  with_lease now config credential (some lease) =
      leased_client credential lease config.timeout (validate_lease identity_failure lease now)

  with_credential : ℕ → Config → Option String → Option Client
  unfolding with_lease credential_of
  with_credential now config none = none
  with_credential now config (some raw) =
      if valid_credential (credential_of raw)
      then with_lease now config (credential_of raw) config.lease
      else none

  -- New, `none` for an error
  unfoldable pub new_client : ℕ → Config → Option Client
  unfolding with_credential
  new_client now config =
      if config.socket_absolute then with_credential now config config.credential else none

  kept_observation : Observation → Option Failure → Result Observation
  kept_observation o (some failure) = failed failure
  kept_observation o none = ok o

  unfoldable pub kept_failure : Failure → Option Failure → Result Observation
  kept_failure f (some invalid) = failed invalid
  kept_failure f none = failed f

  -- The answers with status "ok" and "error".
  unfoldable pub received_ok : Action → Option Failure → Option Observation → Result Observation
  unfolding kept_observation
  received_ok act none (some o) =
      kept_observation o
        (if is_close (kind_of act) then validate_closed o else validate_engine checks.is_json o)
  received_ok act _ _ = failed (output_invalid "browser success response is invalid")

  unfoldable pub received_error : Option Failure → Option Observation → Result Observation
  unfolding kept_failure
  received_error (some f) none =
      kept_failure f (validate_failure checks.canonical_mutation_origin checks.digest f)
  received_error _ _ = failed (output_invalid "browser error response is invalid")

  -- The answer to a request, as Execute reads it.
  unfoldable pub received : Request → Result WireResponse → Result Observation
  unfolding received_ok received_error
  received r (failed failure) = failed failure
  received r (ok w) =
      if not (w.contract =s= contract_id) || not (w.request_id =s= r.request_id)
      then failed (output_invalid "browser response identity is invalid")
      else if w.status =s= "ok"
      then received_ok r.act w.error w.observation
      else if w.status =s= "error"
      then received_error w.error w.observation
      else failed (output_invalid "browser response status is invalid")

  numbered_call :
      Client → ExecuteCall → Action → Option String → Option Request × Result Observation
  unfolding received
  numbered_call c call act none =
      (none, failed (new_failure ErrorCode.internal "generate browser request identifier" true))
  numbered_call c call act (some id) =
      let r = request_of c call id act in (some r, received r (call.exchange r))

  leased_call : Client → ExecuteCall → Action → Option Failure → Option Request × Result Observation
  unfolding numbered_call
  leased_call c call act (some failure) = (none, failed failure)
  leased_call c call act none = numbered_call c call act call.request_id

  allowed_call :
      Client → ExecuteCall → Action → Option Failure → Option Request × Result Observation
  unfolding leased_call
  allowed_call c call act (some failure) = (none, failed failure)
  allowed_call c call act none =
      leased_call c call act (validate_lease identity_failure c.lease call.now)

  -- Execute: the request it sends, if any, and its result.
  unfoldable pub execute : Client → ExecuteCall → Action → Option Request × Result Observation
  unfolding allowed_call
  execute c call act = allowed_call c call act (
      validate_for_policy checks.validate_navigate_url c.lease.identity.browser_interaction_policy
        act)
