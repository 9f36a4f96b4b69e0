-- ===== src/Runtime/Admission/Requests.antt =====
-- Admission of validated requests: what `request.Validate` gives to `reserveRequest`.
use openlinker_plugin.Base.{◌≤◌, String, ◌≡◌, none, Option, arith}
use openlinker_plugin.Protocol.Types.{Actions, Action, Failure, action, nil, cons}
use openlinker_plugin.Protocol.Action.{validate_for_policy, count_nested}
use openlinker_plugin.Protocol.Action.Bounds.{accepted_count}
use openlinker_plugin.Runtime.Admission.{cost, count_actions}

same_count : (nested : Actions) → count_actions nested ≡ count_nested nested
same_count nil = ground arith
same_count (cons a rest) = ground (arith, same_count rest)

-- An accepted action counts for one to eight actions of the attachment's budget.
accepted_cost :
    (validate_navigate_url : String → Option Failure) (policy : String) (a : Action)
    → validate_for_policy validate_navigate_url policy a ≡ none
    → (1 ≤ cost a) × (cost a ≤ 8)
accepted_cost validate_navigate_url policy (action f nested) h =
    ground (arith, accepted_count validate_navigate_url policy f nested h, same_count nested)
