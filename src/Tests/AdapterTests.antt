-- ===== src/Tests/AdapterTests.antt =====
-- The theorems on leases and the mutation journal at concrete inputs.
use openlinker_plugin.Base.{ℕ, ◌≡◌, ◌↔◌, Option, none, some, List, [], ◌∷◌}
use openlinker_plugin.Adapters.Journal.{Entry}
use openlinker_plugin.Adapters.Journal.Bounds.{Answer}
use openlinker_plugin.Runtime.Lease.{SameIdentity, validate_static, validate_static-SameIdentity}
use openlinker_plugin.Tests.Sample.{identity, click_action, blocked}
use openlinker_plugin.Tests.SelectorTests.{page, rotated_identity}

abbrev size : Entry → Option ℕ
size e = some 100

abbrev answers : List Answer
answers =
    record { act = click_action; observation = page; failure = none; now = "2026-01-01T00:00:00Z" }
    ∷ record {
      act = click_action;
      observation = page;
      failure = some blocked;
      now = "2026-01-01T00:00:01Z";
    }
    ∷ []

validate_static-SameIdentity_example :
    (validate_static identity rotated_identity ≡ none) ↔ SameIdentity rotated_identity identity
validate_static-SameIdentity_example = validate_static-SameIdentity identity rotated_identity
