-- ===== src/Runtime/ProfileState/Budgets/Accepts.antt =====
-- The documents that the origin-budget validation accepts, described without its loops.
use openlinker_plugin.Base.{
  ℕ, String, ◌≡◌, ◌↔◌, refl, true, false, Option, none, some, List, [], ◌∷◌, arith, length, has,
  codes, hex_decode, less_codes_trans, All, ℤ, chain, follows, chain-Ordered, Ordered-chain-none,
  and-true, and-intro, eq_iff, map,
}
use openlinker_plugin.Runtime.ProfileState.Files.{then_iff}
use openlinker_plugin.Runtime.ProfileState.Keys.{
  DistinctKeys, Fresh, Fresh-below, not_among, Fresh-with, nothing_seen,
}
use openlinker_plugin.Runtime.ProfileState.Budgets.{
  BudgetEntry, BudgetDocument, before_entry, valid_javascript_time, is_budget_key,
  check_budget_entry, check_budget_entries, check_budget_document, max_origin_action_times,
  max_origin_navigation_times, has_valid_times, updated_last, is_sha256, valid_backoff,
}
use openlinker_plugin.Runtime.ProfileState.Budgets.Times.{
  Backoff, IsBudgetKey, ValidBudget, ValidDocument, valid-Times, Times-valid,
}

-- One entry.
option_length : (xs ys : List ℕ) → some xs ≡ some ys → length xs ≡ length ys
option_length xs ys h = cc

pub sha256_iff :
    (o : Option (List ℕ))
    → (is_sha256 o ≡ true) ↔ ((bytes : List ℕ) × ((o ≡ some bytes) × (length bytes ≡ 32)))
sha256_iff none = (λ h. cc, λ (bytes, (h, l)). ground arith)
sha256_iff (some bytes) = (
  λ h. (bytes, (refl, ground arith)),
  λ (others, (h, l)). ground (arith, option_length bytes others h),
)

IsBudgetKey-iff : (key : String) → (is_budget_key key ≡ true) ↔ IsBudgetKey key
IsBudgetKey-iff key = (
  λ h. let (a, b) = and-true h in ((sha256_iff (hex_decode (codes key))).0 a, b),
  λ (a, b). and-intro ((sha256_iff (hex_decode (codes key))).1 a) b,
)

Backoff-iff : (o : Option ℤ) → (valid_backoff o ≡ true) ↔ Backoff o
Backoff-iff none = (λ h. tt, λ h. refl)
Backoff-iff (some v) = ground arith

budget_tests-Valid :
    (e : BudgetEntry)
    → is_budget_key e.key ≡ true
    → has_valid_times e ≡ true
    → updated_last e ≡ true
    → ValidBudget e
unfolding has_valid_times updated_last
budget_tests-Valid e k t u = record {
  key = (IsBudgetKey-iff e.key).0 k;
  actions = valid-Times max_origin_action_times e.updated_at_ms e.action_ms (ground arith);
  navigations =
      valid-Times max_origin_navigation_times e.updated_at_ms e.navigation_ms (ground arith);
  backoff = (Backoff-iff e.backoff_until_ms).0 (ground arith);
  updated = ground arith;
}

Valid-budget_tests :
    (e : BudgetEntry)
    → ValidBudget e
    → (is_budget_key e.key ≡ true) × ((has_valid_times e ≡ true) × (updated_last e ≡ true))
unfolding has_valid_times updated_last
Valid-budget_tests e v =
    let a = Times-valid max_origin_action_times e.updated_at_ms e.action_ms v.updated v.actions in
    let n =
      Times-valid max_origin_navigation_times e.updated_at_ms e.navigation_ms v.updated
        v.navigations in
    let b = (Backoff-iff e.backoff_until_ms).1 v.backoff in
    let u : valid_javascript_time e.updated_at_ms ≡ true = ground arith in
    ((IsBudgetKey-iff e.key).1 v.key, (and-intro (and-intro (and-intro a.0 n.0) u) b, ground arith))

-- The loop.
entry_accepted_iff :
    (seen : List String) (previous : Option BudgetEntry) (e : BudgetEntry)
    → (check_budget_entry seen previous e ≡ none)
      ↔ (ValidBudget e × ((has e.key seen ≡ false) × (follows before_entry previous e ≡ true)))
unfolding check_budget_entry
entry_accepted_iff seen previous e = (
  λ h. (
    budget_tests-Valid e (ground arith) (ground arith) (ground arith),
    (ground arith, ground arith),
  ),
  λ (v, (n, f)). ground (arith, Valid-budget_tests e v),
)

before_entry_trans :
    (x y z : BudgetEntry)
    → before_entry x y ≡ true
    → before_entry y z ≡ true
    → before_entry x z ≡ true
before_entry_trans x y z h k =
    ground (arith, less_codes_trans (codes x.key) (codes y.key) (codes z.key))

entries_accepted-Valid :
    (seen : List String) (previous : Option BudgetEntry) (es : List BudgetEntry)
    → check_budget_entries seen previous es ≡ none
    → All ValidBudget es
      × ((chain before_entry previous es ≡ true)
          × (Fresh seen (map BudgetEntry.key es) × DistinctKeys (map BudgetEntry.key es)))
unfolding check_budget_entries chain
entries_accepted-Valid seen previous [] h = (tt, (refl, (tt, tt)))
entries_accepted-Valid seen previous (e ∷ es) h =
    let (first, rest) =
      (then_iff (check_budget_entry seen previous e)
          (check_budget_entries (e.key ∷ seen) (some e) es)).0
        h in
    let (valid, (new, after)) = (entry_accepted_iff seen previous e).0 first in
    let (valids, (ordered, (fresh, distinct))) =
      entries_accepted-Valid (e.key ∷ seen) (some e) es rest in
    let keys = map BudgetEntry.key es in
    (
      (valid, valids),
      (
        and-intro after ordered,
        ((new, Fresh-below e.key seen keys fresh), (not_among e.key seen keys fresh, distinct)),
      ),
    )

Valid-entries_accepted :
    (seen : List String) (previous : Option BudgetEntry) (es : List BudgetEntry)
    → All ValidBudget es
    → chain before_entry previous es ≡ true
    → Fresh seen (map BudgetEntry.key es)
    → DistinctKeys (map BudgetEntry.key es)
    → check_budget_entries seen previous es ≡ none
unfolding check_budget_entries chain
Valid-entries_accepted seen previous [] v c f d = refl
Valid-entries_accepted seen previous (e ∷ es) (v, vs) c (n, f) (m, d) =
    let (after, ordered) = and-true c in
    (then_iff (check_budget_entry seen previous e)
        (check_budget_entries (e.key ∷ seen) (some e) es)).1
      (
        (entry_accepted_iff seen previous e).1 (v, (n, after)),
        Valid-entries_accepted (e.key ∷ seen) (some e) es vs ordered
            (Fresh-with e.key seen (map BudgetEntry.key es) f m) d,
      )

-- The validation of a decoded document accepts exactly those with the contract's id and at most 256
-- entries, each entry with a key of 32 bytes in lower-case hexadecimal and with at most 600 action
-- times and 60 navigation times, present, in order, not negative and not after the update time, all
-- within JavaScript's safe integers, no key twice, and every entry strictly before each later one
-- in the order of update time and key.
pub check_budget_document-Valid :
    (document : BudgetDocument) → (check_budget_document document ≡ none) ↔ ValidDocument document
unfolding check_budget_document
check_budget_document-Valid document = (
  λ h.
      let entries : check_budget_entries [] none document.entries ≡ none = ground arith in
      let (valid, (ordered, (fresh, distinct))) =
        entries_accepted-Valid [] none document.entries entries in
      record {
        contract =
            (eq_iff document.contract_id "openlinker.browser.origin-budgets.v1").0 (ground arith);
        few = ground arith;
        budgets = valid;
        distinct = distinct;
        ordered = chain-Ordered before_entry before_entry_trans none document.entries ordered;
      },
  λ v.
      let entries : check_budget_entries [] none document.entries ≡ none =
        Valid-entries_accepted [] none document.entries v.budgets
          (Ordered-chain-none before_entry document.entries v.ordered)
          (nothing_seen (map BudgetEntry.key document.entries)) v.distinct in
      let contract =
        (eq_iff document.contract_id "openlinker.browser.origin-budgets.v1").1 v.contract in
      let few = v.few in ground arith,
)
