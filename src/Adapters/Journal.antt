-- ===== src/Adapters/Journal.antt =====
-- packages/agent-adapters/agentexec/browser_mutation_journal.go: the journal of the mutations that an
-- Agent's browser calls cause. `record` runs under the journal's lock, so it is one step. The length
-- of an entry's JSON (encoding/json; `none` for an error) and the printed time are arguments.
pub mod Bounds
pub mod Counts
use openlinker_plugin.Base.{
  ℕ, suc, ◌+◌, ◌%◌, String, Bool, true, false, ◌||◌, ◌&&◌, not, Option, none, some, List, [], ◌∷◌,
  ◌++◌, ltb, leb, ◌==◌, if◌then◌else◌, length, ℤ, pos, lt_int, eq_int, add_int,
}
use openlinker_plugin.Protocol.Types.{
  ActionKind, Action, Actions, Observation, Failure, ErrorCode, TargetCategory, action, nil, cons,
}
use openlinker_plugin.Protocol.Failure.Validate.{is_some}
use openlinker_plugin.Runtime.Scope.{decimal}

abbrev pub max_browser_mutation_journal_entries : ℕ
max_browser_mutation_journal_entries = 256

abbrev pub max_browser_mutation_journal_bytes : ℕ
max_browser_mutation_journal_bytes = 131072

pub data Outcome : Type 0 where
  completed failed outcome_unknown : Outcome

pub record Entry : Type 0 where
  pub action_id : List ℕ
  pub timestamp : String
  pub origin : String
  pub action_kind : ActionKind
  pub target_category : TargetCategory
  pub page_state_id_before : String
  pub navigation_generation_before : ℕ
  pub result : Outcome

pub record Journal : Type 0 where
  pub entries : List Entry
  pub encoded_bytes : ℕ
  pub next_action_id : ℕ
  pub last_origin : String
  pub last_page_state_id : String
  pub last_navigation : ℕ
  pub completed : ℕ
  pub failed : ℕ
  pub unknown : ℕ
  pub origin_blocked : ℕ
  pub mutation_requests : ℤ
  pub dropped : ℕ
  pub mutation_origins_hash : String

-- newBrowserMutationJournal
abbrev pub new_journal : String → Journal
new_journal hash = record {
  entries = [];
  encoded_bytes = 0;
  next_action_id = 0;
  last_origin = "";
  last_page_state_id = "";
  last_navigation = 0;
  completed = 0;
  failed = 0;
  unknown = 0;
  origin_blocked = 0;
  mutation_requests = pos 0;
  dropped = 0;
  mutation_origins_hash = hash;
}

-- potentialBrowserMutation
unfoldable pub potential_browser_mutation : ActionKind → Bool
potential_browser_mutation ActionKind.click = true
potential_browser_mutation ActionKind.type_non_secret = true
potential_browser_mutation ActionKind.keypress = true
potential_browser_mutation ActionKind.select = true
potential_browser_mutation _ = false

-- The kinds of the actions of a call, in order: those of a batch, or the one action.
abbrev kinds : Actions → List ActionKind
kinds nil = []
kinds (cons (action f inner) rest) = f.kind ∷ kinds rest

abbrev is_batch : ActionKind → Bool
is_batch ActionKind.batch = true
is_batch _ = false

abbrev pub called_kinds : Action → List ActionKind
called_kinds (action f nested) = if is_batch f.kind then kinds nested else f.kind ∷ []

-- What `record` computes once for a call.
pub record Call : Type 0 where
  pub count : ℕ
  pub completed_actions : ℤ
  pub observed : ℤ
  pub category : TargetCategory
  pub failure : Option Failure
  pub now : String

first_given : Option ℤ → Option ℤ → ℤ
first_given (some a) other = a
first_given none (some b) = b
first_given none none = pos 0

abbrev completed_of : ℕ → Option Failure → ℤ
completed_of count none = pos count
completed_of count (some f) = first_given f.completed_actions f.action_index

abbrev observed_of : Observation → Option Failure → ℤ
observed_of o none = o.mutation_requests_observed
observed_of o (some f) = f.mutation_requests_observed

unfoldable pub call_of : Action → Observation → Option Failure → String → Call
unfolding first_given
call_of act o failure now = record {
  count = length (called_kinds act);
  completed_actions = completed_of (length (called_kinds act)) failure;
  observed = observed_of o failure;
  category = o.target_category;
  failure = failure;
  now = now;
}

-- The next action id, a uint64.
abbrev pub count_up : ℕ → ℕ
count_up n = (n + 1) % 18446744073709551616

-- How the journal reads the code of a failure.
pub data Blame : Type 0 where
  uncertain blocked plain : Blame

abbrev pub blame : ErrorCode → Blame
blame ErrorCode.mutation_outcome_unknown = Blame.uncertain
blame ErrorCode.mutation_origin_blocked = Blame.blocked
blame _ = Blame.plain

-- The entry of an action, under the id already counted up.
unfoldable pub journal_entry : Journal → String → ActionKind → TargetCategory → Outcome → Entry
journal_entry j now kind category result = record {
  action_id = decimal j.next_action_id;
  timestamp = now;
  origin = j.last_origin;
  action_kind = kind;
  target_category = category;
  page_state_id_before = j.last_page_state_id;
  navigation_generation_before = j.last_navigation;
  result = result;
}

-- Whether the loop passes over the action at `index`.
unfoldable pub passed_over : Call → ℕ → ActionKind → Bool
passed_over call index kind =
    (not (potential_browser_mutation kind)
      && not (
          is_some call.failure
          && eq_int (pos index) call.completed_actions
          && lt_int (pos 0) call.observed)
      && not (call.count == 1 && lt_int (pos 0) call.observed))
    || (is_some call.failure && lt_int call.completed_actions (pos index))

abbrev any_not_potential : List ActionKind → Bool
any_not_potential [] = false
any_not_potential (kind ∷ rest) = not (potential_browser_mutation kind) || any_not_potential rest

unfoldable pub remember : Journal → Observation → Option Failure → Journal
remember j o (some f) = j
remember j o none = record j {
  last_origin = o.origin;
  last_page_state_id = o.page_state_id;
  last_navigation = o.navigation_generation;
}

-- `summary`, with its fields as they are named there.
pub record Summary : Type 0 where
  pub completed : ℕ
  pub failed : ℕ
  pub outcome_unknown : ℕ
  pub origin_blocked : ℕ
  pub mutation_requests_observed : ℤ
  pub journal_entries : ℕ
  pub journal_entries_dropped : ℕ
  pub journal_plaintext_bytes : ℕ
  pub mutation_origins_hash : String
  pub terminal_outcome : String

unfoldable pub summary : Journal → String → Summary
summary j status = record {
  completed = j.completed;
  failed = j.failed;
  outcome_unknown = j.unknown;
  origin_blocked = j.origin_blocked;
  mutation_requests_observed = j.mutation_requests;
  journal_entries = length j.entries;
  journal_entries_dropped = j.dropped;
  journal_plaintext_bytes = j.encoded_bytes;
  mutation_origins_hash = j.mutation_origins_hash;
  terminal_outcome = status;
}

abbrev pub first_kind : Action → ActionKind
first_kind (action f nested) = f.kind

module _ (encode : Entry → Option ℕ) where
  append_encoded : Journal → Entry → Option ℕ → Journal
  append_encoded j entry none = record j { dropped = j.dropped + 1 }
  append_encoded j entry (some size) =
      if ltb max_browser_mutation_journal_bytes (j.encoded_bytes + size + 1)
      then record j { dropped = j.dropped + 1 }
      else record j {
        entries = j.entries ++ (entry ∷ []);
        encoded_bytes = j.encoded_bytes + (size + 1);
      }

  -- appendBounded
  unfoldable pub append_bounded : Journal → Entry → Journal
  unfolding append_encoded
  append_bounded j entry =
      if leb max_browser_mutation_journal_entries (length j.entries)
      then record j { dropped = j.dropped + 1 }
      else append_encoded j entry (encode entry)

  -- Counts an id and appends its entry.
  unfoldable pub add_entry : Journal → String → ActionKind → TargetCategory → Outcome → Journal
  add_entry j now kind category result =
      let k : Journal = record j { next_action_id = count_up j.next_action_id } in
      append_bounded k (journal_entry k now kind category result)

  -- The action that failed: its result, with the counter it moves.
  unfoldable pub add_blamed : Journal → Call → ActionKind → TargetCategory → Blame → Journal
  add_blamed j call kind category Blame.uncertain =
      add_entry (record j { unknown = j.unknown + 1 }) call.now kind category
        Outcome.outcome_unknown
  add_blamed j call kind category Blame.blocked =
      add_entry (record j { origin_blocked = j.origin_blocked + 1 }) call.now kind category
        Outcome.failed
  add_blamed j call kind category Blame.plain =
      add_entry (record j { failed = j.failed + 1 }) call.now kind category Outcome.failed

  -- The switch on the failure's code.
  unfoldable pub add_failed : Journal → Call → ActionKind → TargetCategory → ErrorCode → Journal
  add_failed j call kind category code = add_blamed j call kind category (blame code)

  unfoldable pub add_completed : Journal → Call → ActionKind → Journal
  add_completed j call kind =
      add_entry (record j { completed = j.completed + 1 }) call.now kind call.category
        Outcome.completed

  unfoldable pub add_result : Journal → Call → ℕ → ActionKind → Option Failure → Journal
  add_result j call index kind none = add_completed j call kind
  add_result j call index kind (some f) =
      if eq_int (pos index) call.completed_actions
      then add_failed j call kind f.target_category f.code
      else add_completed j call kind

  -- One turn of the loop.
  unfoldable pub record_action : Journal → Call → ℕ → ActionKind → Journal
  unfolding add_result
  record_action j call index kind =
      if passed_over call index kind then j else add_result j call index kind call.failure

  unfoldable pub record_actions : Journal → Call → ℕ → List ActionKind → Journal
  record_actions j call index [] = j
  record_actions j call index (kind ∷ rest) =
      record_actions (record_action j call index kind) call (suc index) rest

  -- The entry for the requests that a completed batch's other actions caused.
  unfoldable pub record_batch : Journal → Call → ActionKind → List ActionKind → Journal
  record_batch j call kind nested =
      if is_batch kind
        && not (is_some call.failure)
        && lt_int (pos 0) call.observed
        && any_not_potential nested
      then add_entry (record j { completed = j.completed + 1 }) call.now ActionKind.batch
          TargetCategory.unset Outcome.completed
      else j

  -- record
  unfoldable pub record_call : Journal → Action → Observation → Option Failure → String → Journal
  unfolding remember
  record_call j act o failure now =
      let call = call_of act o failure now in
      let counted : Journal = record j {
        mutation_requests = add_int j.mutation_requests call.observed;
      } in
      remember
        (record_batch (record_actions counted call 0 (called_kinds act)) call (first_kind act)
          (called_kinds act))
        o failure
