-- ===== src/Adapters/Journal/Bounds.antt =====
-- The journal stays within its bounds and accounts for every mutation it counts.
use openlinker_plugin.Base.{ℕ, ◌+◌, ◌≤◌, String, ◌≡◌, Option, List, [], ◌∷◌, length}
use openlinker_plugin.Protocol.Types.{Action, Observation, Failure}
use openlinker_plugin.Adapters.Journal.{
  Journal, Entry, record_call, max_browser_mutation_journal_entries,
  max_browser_mutation_journal_bytes,
}

-- The mutations counted: each is an entry or was dropped.
abbrev pub counted : Journal → ℕ
counted j = j.completed + j.failed + j.unknown + j.origin_blocked

pub record Accounts (j : Journal) : Type 0 where
  pub few : length j.entries ≤ max_browser_mutation_journal_entries
  pub small : j.encoded_bytes ≤ max_browser_mutation_journal_bytes
  pub balanced : counted j ≡ length j.entries + j.dropped

-- A call recorded after the answers of earlier ones.
pub record Answer : Type 0 where
  pub act : Action
  pub observation : Observation
  pub failure : Option Failure
  pub now : String

module _ (encode : Entry → Option ℕ) where
  -- One mutation more is counted than there are entries and drops.
  record Pending (j : Journal) : Type 0 where
    few : length j.entries ≤ max_browser_mutation_journal_entries
    small : j.encoded_bytes ≤ max_browser_mutation_journal_bytes
    owed : counted j ≡ length j.entries + j.dropped + 1

  unfoldable pub record_all : Journal → List Answer → Journal
  record_all j [] = j
  record_all j (a ∷ rest) =
      record_all (record_call encode j a.act a.observation a.failure a.now) rest
