-- ===== src/Tests/ActionTests.antt =====
-- Actions accepted and refused (browserprotocol/action.go).
use mathlib.Core.Bool.{false≢true}
use openlinker_plugin.Base.{eq_iff, String, ◌≡◌, ◌≢◌, refl, true, Option, none, some, pos, negsuc}
use openlinker_plugin.Protocol.Types.{ActionKind, ActionFields, Failure, action, nil}
use openlinker_plugin.Protocol.Action.{
  validate_for_policy, validate_kind, validate_scroll, validate_coordinates, nested_rule,
  passive_in_batch, validate_observation_mode,
}
use openlinker_plugin.Protocol.Action.Policy.{restricted_policy_is_passive, Every, fields_of}
use openlinker_plugin.Protocol.Action.Bounds.{accepted_batch_is_flat, IsBatchable}
use openlinker_plugin.Tests.Sample.{blank, click_action, batch_fields, two_waits, batch_action}

abbrev no_url_check : String → Option Failure
no_url_check u = none

abbrev scroll_fields : ActionFields
scroll_fields = record (blank ActionKind.scroll) { delta_y = some (pos 300) }

abbrev least_scroll : ActionFields
least_scroll = record (blank ActionKind.scroll) { delta_x = some (negsuc 9223372036854775807) }

click_accepted : validate_for_policy no_url_check "restricted" click_action ≡ none
unfolding validate_for_policy validate_kind validate_coordinates validate_observation_mode
click_accepted = refl

batch_accepted : validate_for_policy no_url_check "restricted" batch_action ≡ none
unfolding validate_for_policy validate_kind nested_rule validate_observation_mode
batch_accepted = refl

scroll_accepted : validate_for_policy no_url_check "restricted" (action scroll_fields nil) ≡ none
unfolding validate_for_policy validate_kind validate_scroll validate_observation_mode
scroll_accepted = refl

not_full : ◌≢◌ {A = String} "restricted" "full"
not_full e = false≢true ((eq_iff "restricted" "full").1 e)

restricted_policy_is_passive_example :
    (batch_fields.kind ≢ ActionKind.select)
    × (batch_fields.kind ≡ ActionKind.keypress → batch_fields.key ≢ "Space")
    × (batch_fields.kind ≡ ActionKind.batch
        → Every (λ a. passive_in_batch (fields_of a).kind ≡ true) two_waits)
restricted_policy_is_passive_example =
    restricted_policy_is_passive no_url_check "restricted" batch_fields two_waits not_full
      batch_accepted

accepted_batch_is_flat_example : Every (IsBatchable no_url_check "restricted") two_waits
accepted_batch_is_flat_example =
    accepted_batch_is_flat no_url_check "restricted" batch_fields two_waits batch_accepted refl
