-- ===== src/Client/Lease.antt =====
-- `Lease` of browserclient/client.go, which the file of an active lease holds. A time counts
-- nanoseconds; the validation of the identity is an argument.
use openlinker_plugin.Base.{
  ℕ, String, false, ◌||◌, not, Option, none, some, ltb, ◌==◌, ◌=s=◌, if◌then◌else◌,
}
use openlinker_plugin.Protocol.Types.{Identity, Failure, ErrorCode}
use openlinker_plugin.Protocol.Failure.{new_failure}

-- browserclient.Lease
pub record ActiveLease : Type 0 where
  pub contract_id : String
  pub expires_at : ℕ
  pub identity : Identity

module _ (validate_identity : Identity → Option Failure) where
  unfoldable pub check_expiry : ℕ → ℕ → Option Failure → Option Failure
  check_expiry expires now (some failure) = some failure
  check_expiry expires now none =
      if expires == 0 || not (ltb now expires)
      then some (new_failure ErrorCode.deadline_exceeded "browser lease has expired" false)
      else none

  -- Lease.Validate of the client
  unfoldable pub validate_lease : ActiveLease → ℕ → Option Failure
  unfolding check_expiry
  validate_lease lease now =
      if not (lease.contract_id =s= "openlinker.browser.lease.v2")
      then some (new_failure ErrorCode.protocol_invalid "browser lease contract is invalid" false)
      else check_expiry lease.expires_at now (validate_identity lease.identity)
