-- ===== src/Runtime/ProfileState/Budgets.antt =====
-- `validateOriginBudgetState` of browserruntime/profile_origin_budget.go. `json.Marshal` is an
-- argument; a Go `int64` is an integer.
pub mod Times
pub mod Accepts
use openlinker_plugin.Base.{
  ℕ, ◌^◌, String, Bool, true, false, ◌||◌, ◌&&◌, not, Option, none, some, List, [], ◌∷◌, ltb, leb,
  ◌==◌, ◌=s=◌, if◌then◌else◌, length, has, same_codes, all_codes, is_upper, codes, hex_decode,
  less_text, ℤ, pos, lt_int, le_int, chain, follows, map,
}
use openlinker_plugin.Runtime.ProfileState.Files.{
  FileInfo, Look, missing, unreadable, found, StateFile, Verdict, ◌then◌, is_private_file,
}

abbrev pub max_origin_budget_bytes : ℕ
max_origin_budget_bytes = 262144

abbrev pub max_origin_budget_entries : ℕ
max_origin_budget_entries = 256

abbrev pub max_origin_action_times : ℕ
max_origin_action_times = 600

abbrev pub max_origin_navigation_times : ℕ
max_origin_navigation_times = 60

abbrev pub max_javascript_safe_integer : ℕ
max_javascript_safe_integer = 9007199254740991

pub record BudgetEntry : Type 0 where
  pub key : String
  pub action_ms : Option (List ℤ)  -- a nil slice is `none`
  pub navigation_ms : Option (List ℤ)
  pub backoff_until_ms : Option ℤ
  pub updated_at_ms : ℤ

pub record BudgetDocument : Type 0 where
  pub contract_id : String
  pub entries : List BudgetEntry

-- `compareOriginBudgetEntries(left, right) < 0`
abbrev pub before_entry : BudgetEntry → BudgetEntry → Bool
before_entry left right =
    if lt_int left.updated_at_ms right.updated_at_ms
    then true
    else if lt_int right.updated_at_ms left.updated_at_ms
    then false
    else less_text left.key right.key

-- validJavaScriptTime
abbrev pub valid_javascript_time : ℤ → Bool
valid_javascript_time value = le_int (pos 0) value && le_int value (pos max_javascript_safe_integer)

-- The loop of `validOriginBudgetTimes`, after the value `previous`.
unfoldable pub valid_times_from : Option ℤ → List ℤ → Bool
valid_times_from previous [] = true
valid_times_from previous (value ∷ rest) =
    if not (valid_javascript_time value) || not (follows le_int previous value)
    then false
    else valid_times_from (some value) rest

-- validOriginBudgetTimes
unfoldable pub valid_origin_budget_times : Option (List ℤ) → ℕ → Bool
unfolding valid_times_from
valid_origin_budget_times none maximum = false
valid_origin_budget_times (some values) maximum =
    if ltb maximum (length values) then false else valid_times_from none values

abbrev last_from : ℤ → List ℤ → ℤ
last_from value [] = value
last_from value (next ∷ rest) = last_from next rest

-- lastOriginBudgetTime
abbrev pub last_origin_budget_time : Option (List ℤ) → ℤ
last_origin_budget_time none = pos 0
last_origin_budget_time (some []) = pos 0
last_origin_budget_time (some (value ∷ rest)) = last_from value rest

-- The length test on the decoded key.
abbrev pub is_sha256 : Option (List ℕ) → Bool
is_sha256 none = false
is_sha256 (some bytes) = length bytes == 32

abbrev pub is_budget_key : String → Bool
is_budget_key key =
    is_sha256 (hex_decode (codes key)) && all_codes (λ c. not (is_upper c)) (codes key)

abbrev pub valid_backoff : Option ℤ → Bool
valid_backoff none = true
valid_backoff (some value) = valid_javascript_time value

unfoldable pub has_valid_times : BudgetEntry → Bool
has_valid_times entry =
    valid_origin_budget_times entry.action_ms max_origin_action_times
    && valid_origin_budget_times entry.navigation_ms max_origin_navigation_times
    && valid_javascript_time entry.updated_at_ms
    && valid_backoff entry.backoff_until_ms

unfoldable pub updated_last : BudgetEntry → Bool
updated_last entry =
    not (lt_int entry.updated_at_ms (last_origin_budget_time entry.action_ms))
    && not (lt_int entry.updated_at_ms (last_origin_budget_time entry.navigation_ms))

-- The body of the loop, after the entry `previous`.
unfoldable pub check_budget_entry : List String → Option BudgetEntry → BudgetEntry → Verdict
unfolding has_valid_times updated_last
check_budget_entry seen previous entry =
    if not (is_budget_key entry.key)
    then some "Browser origin-budget key is invalid"
    else if has entry.key seen
    then some "Browser origin-budget key is duplicated"
    else if not (follows before_entry previous entry)
    then some "Browser origin-budget entries are not ordered"
    else if not (has_valid_times entry)
    then some "Browser origin-budget entry is invalid"
    else if not (updated_last entry)
    then some "Browser origin-budget update time is invalid"
    else none

unfoldable pub check_budget_entries : List String → Option BudgetEntry → List BudgetEntry → Verdict
unfolding check_budget_entry
check_budget_entries seen previous [] = none
check_budget_entries seen previous (entry ∷ rest) =
    check_budget_entry seen previous entry
    then check_budget_entries (entry.key ∷ seen) (some entry) rest

-- What is checked of the decoded document.
unfoldable pub check_budget_document : BudgetDocument → Verdict
unfolding check_budget_entries
check_budget_document document =
    if not (document.contract_id =s= "openlinker.browser.origin-budgets.v1")
      || ltb max_origin_budget_entries (length document.entries)
    then some "Browser origin-budget contract is invalid"
    else check_budget_entries [] none document.entries

-- `err != nil || !bytes.Equal(canonical, raw)`, negated.
abbrev is_canonical : Option (List ℕ) → List ℕ → Bool
is_canonical none raw = false
is_canonical (some canonical) raw = same_codes canonical raw

module _ (marshal : BudgetDocument → Option (List ℕ)) where
  check_decoded : StateFile BudgetDocument → List ℕ → Option BudgetDocument → Verdict
  check_decoded file raw none = some "Browser origin-budget payload is invalid"
  check_decoded file raw (some document) =
      if file.trailing
      then some "Browser origin-budget payload has trailing data"
      else if not (is_canonical (marshal document) raw)
      then some "Browser origin-budget payload is not canonical"
      else check_budget_document document

  check_contents : StateFile BudgetDocument → Option (List ℕ) → Verdict
  unfolding check_decoded
  check_contents file none = some "Browser origin-budget file is unreadable"
  check_contents file (some raw) =
      if ltb max_origin_budget_bytes (length raw)
      then some "Browser origin-budget file is unreadable"
      else check_decoded file raw file.decoded

  abbrev is_private_directory : Look → Bool
  is_private_directory (found info) = not (not info.directory || info.symlink || info.shared)
  is_private_directory _ = false

  unfoldable pub validate_budget_look : StateFile BudgetDocument → Look → Verdict
  unfolding check_contents
  validate_budget_look file missing = none
  validate_budget_look file unreadable = some "Browser origin-budget file is unreadable"
  validate_budget_look file (found info) =
      if not (is_private_directory file.directory)
      then some "Browser origin-budget directory is invalid"
      else if not (is_private_file info max_origin_budget_bytes)
      then some "Browser origin-budget file is invalid"
      else check_contents file file.contents

  -- validateOriginBudgetState
  unfoldable pub validate_origin_budget_state : StateFile BudgetDocument → Verdict
  unfolding validate_budget_look
  validate_origin_budget_state file = validate_budget_look file file.file
