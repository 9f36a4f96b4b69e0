-- ===== src/Runtime/Observer.antt =====
-- browserruntime/ops_observer_lease.go: the one lease that every Ops observer connection shares. The
-- methods of OpsObserverLeaseManager run under its lock, so each is one step on the lease.
pub mod Connection
pub mod Holder
pub mod Exclusive
pub mod Frames
pub mod Replays
pub mod Probe
use openlinker_plugin.Base.{
  ℕ, ◌+◌, ◌%◌, String, Bool, true, false, ◌||◌, not, Option, none, some, List, [], ◌∷◌, leb, ltb,
  ◌==◌, ◌=s=◌, if◌then◌else◌, has, length,
}
use openlinker_plugin.Protocol.OpsObserver.{
  OpsRequest, OpsError, OpsErrorCode, new_ops_error, protocol_error,
}

abbrev pub max_ops_observer_requests_per_lease : ℕ
max_ops_observer_requests_per_lease = 4096

-- 2 ^ 64
abbrev pub uint64_range : ℕ
uint64_range = 18446744073709551616

-- opsObserverLease
pub record Lease : Type 0 where
  pub id : String
  pub run_id : String
  pub expires_at : ℕ
  pub sequence : ℕ
  pub seen : List String

-- The `active` lease of the manager.
abbrev pub Manager : Type 0
Manager = Option Lease

-- Admit
unfoldable pub admit : Manager → OpsRequest → Manager × Option OpsError
admit (some lease) r =
    (some lease, some (new_ops_error OpsErrorCode.already_active "another Ops Observer is active"))
admit none r = (
  some (record {
    id = r.observer_lease_id;
    run_id = r.run_id;
    expires_at = r.lease_expires_at;
    sequence = 0;
    seen = [];
  }),
  none,
)

-- Validate, at the time `now` of the manager's clock.
unfoldable pub validate_lease : Manager → ℕ → OpsRequest → Option OpsError
validate_lease none now r = protocol_error "Ops Observer lease is stale"
validate_lease (some lease) now r =
    if not (lease.id =s= r.observer_lease_id)
      || not (lease.run_id =s= r.run_id)
      || not (lease.expires_at == r.lease_expires_at)
      || leb lease.expires_at now
    then protocol_error "Ops Observer lease is stale"
    else none

-- AdmitRequest
unfoldable pub admit_request : Manager → String → String → Manager × Option OpsError
admit_request none lease_id request_id = (none, protocol_error "Ops Observer lease is stale")
admit_request (some lease) lease_id request_id =
    if not (lease.id =s= lease_id)
    then (some lease, protocol_error "Ops Observer lease is stale")
    else if has request_id lease.seen
    then (some lease, protocol_error "Ops Observer request was replayed")
    else if leb max_ops_observer_requests_per_lease (length lease.seen)
    then (some lease, protocol_error "Ops Observer request limit reached")
    else (some (record lease { seen = request_id ∷ lease.seen }), none)

-- The second result of NextSequence, or the first.
pub data Sequenced : Type 0 where
  stale : OpsError → Sequenced
  sequenced : ℕ → Sequenced

-- NextSequence
unfoldable pub next_sequence : Manager → String → Manager × Sequenced
next_sequence none lease_id =
    (none, stale (new_ops_error OpsErrorCode.protocol_invalid "Ops Observer lease is stale"))
next_sequence (some lease) lease_id =
    if not (lease.id =s= lease_id)
    then (
      some lease,
      stale (new_ops_error OpsErrorCode.protocol_invalid "Ops Observer lease is stale"),
    )
    else let n = (lease.sequence + 1) % uint64_range in
      (some (record lease { sequence = n }), sequenced n)

-- Release
unfoldable pub release : Manager → String → Manager
release none lease_id = none
release (some lease) lease_id = if lease.id =s= lease_id then none else some lease
