-- ===== src/Runtime/ProfileState.antt =====
-- Validation of the state files below a Browser profile
-- (browserruntime/profile_origin_budget.go and browserruntime/page_continuation.go): the files are
-- read back when a profile is attached and refused unless they are what the engine writes.
pub mod Files
pub mod Keys
pub mod Budgets
pub mod Pages
use openlinker_plugin.Base.{ℕ, Option, List}
use openlinker_plugin.Runtime.ProfileState.Files.{StateFile, Verdict, ◌then◌}
use openlinker_plugin.Runtime.ProfileState.Budgets.{BudgetDocument, validate_origin_budget_state}
use openlinker_plugin.Runtime.ProfileState.Pages.{
  Library, PageIndex, validate_page_continuation_state,
}

-- validateBrowserProfileState
abbrev pub validate_browser_profile_state :
    Library
    → (BudgetDocument → Option (List ℕ))
    → StateFile PageIndex
    → StateFile BudgetDocument
    → Verdict
validate_browser_profile_state library marshal pages budgets =
    validate_page_continuation_state library pages then validate_origin_budget_state marshal budgets
