-- ===== src/Runtime/ProfileState/Budgets/Times.antt =====
-- The documents of the contract for origin budgets, and the tests on the times of an entry.
use openlinker_plugin.Base.{
  ℕ, ◌≤◌, String, ◌≡◌, ◌↔◌, refl, true, false, not, Option, none, some, List, [], ◌∷◌, arith,
  length, all_codes, is_upper, codes, hex_decode, All, All-map, ℤ, pos, le_int, lt_int, ◌≤ℤ◌, chain,
  Ordered, chain-Ordered, Ordered-chain-none, and-true, map,
}
use openlinker_plugin.Runtime.ProfileState.Keys.{DistinctKeys}
use openlinker_plugin.Runtime.ProfileState.Budgets.{
  BudgetEntry, BudgetDocument, before_entry, valid_javascript_time, max_javascript_safe_integer,
  valid_times_from, valid_origin_budget_times, last_origin_budget_time, max_origin_action_times,
  max_origin_navigation_times, max_origin_budget_entries,
}

abbrev pub IsJavascriptTime : ℤ → Type 0
IsJavascriptTime value = (pos 0 ≤ℤ value) × (value ≤ℤ pos max_javascript_safe_integer)

-- A list of at most `limit` times in order, none of them after `updated`.
abbrev pub Times : ℕ → ℤ → Option (List ℤ) → Type 0
Times limit updated none = ⊥
Times limit updated (some values) =
    (length values ≤ limit)
    × (All (λ v. (pos 0 ≤ℤ v) × (v ≤ℤ updated)) values × Ordered le_int values)

abbrev pub Backoff : Option ℤ → Type 0
Backoff none = Unit
Backoff (some value) = IsJavascriptTime value

-- 32 bytes in hexadecimal, with no upper-case letter.
abbrev pub IsBudgetKey : String → Type 0
IsBudgetKey key =
    ((bytes : List ℕ) × ((hex_decode (codes key) ≡ some bytes) × (length bytes ≡ 32)))
    × (all_codes (λ c. not (is_upper c)) (codes key) ≡ true)

pub record ValidBudget (entry : BudgetEntry) : Type 0 where
  pub key : IsBudgetKey entry.key
  pub actions : Times max_origin_action_times entry.updated_at_ms entry.action_ms
  pub navigations : Times max_origin_navigation_times entry.updated_at_ms entry.navigation_ms
  pub backoff : Backoff entry.backoff_until_ms
  pub updated : IsJavascriptTime entry.updated_at_ms

pub record ValidDocument (document : BudgetDocument) : Type 0 where
  pub contract : document.contract_id ≡ "openlinker.browser.origin-budgets.v1"
  pub few : length document.entries ≤ max_origin_budget_entries
  pub budgets : All ValidBudget document.entries
  pub distinct : DistinctKeys (map BudgetEntry.key document.entries)
  pub ordered : Ordered before_entry document.entries

-- The times.
le_int_trans : (x y z : ℤ) → le_int x y ≡ true → le_int y z ≡ true → le_int x z ≡ true
le_int_trans x y z h k = ground arith

times_loop :
    (previous : Option ℤ) (vs : List ℤ)
    → (valid_times_from previous vs ≡ true)
      ↔ (All (λ v. valid_javascript_time v ≡ true) vs × (chain le_int previous vs ≡ true))
unfolding valid_times_from chain
times_loop previous [] = (λ _. (tt, refl), λ _. refl)
times_loop previous (v ∷ vs) = ground (arith, times_loop (some v) vs)

below : (v w u : ℤ) → le_int v w ≡ true → w ≤ℤ u → v ≤ℤ u
below v w u h k = ground arith

last_bounds :
    (u v : ℤ) (vs : List ℤ)
    → chain le_int (some v) vs ≡ true
    → lt_int u (last_origin_budget_time (some (v ∷ vs))) ≡ false
    → (v ≤ℤ u) × All (λ w. w ≤ℤ u) vs
unfolding chain
last_bounds u v [] h k = (ground arith, tt)
last_bounds u v (w ∷ vs) h k =
    let found = last_bounds u w vs (and-true h).1 k in (below v w u (and-true h).0 found.0, found)

last_bounded :
    (u v : ℤ) (vs : List ℤ)
    → v ≤ℤ u
    → All (λ w. w ≤ℤ u) vs
    → lt_int u (last_origin_budget_time (some (v ∷ vs))) ≡ false
last_bounded u v [] h k = ground arith
last_bounded u v (w ∷ vs) h (k, ks) = last_bounded u w vs k ks

-- The two tests on one list of times: its own, and its last time against the update time.
abbrev TimesTests : ℕ → ℤ → Option (List ℤ) → Type 0
TimesTests limit u o =
    (valid_origin_budget_times o limit ≡ true) × (lt_int u (last_origin_budget_time o) ≡ false)

within_bounds :
    (u : ℤ) (vs : List ℤ)
    → All (λ v. valid_javascript_time v ≡ true) vs
    → All (λ w. w ≤ℤ u) vs
    → All (λ v. (pos 0 ≤ℤ v) × (v ≤ℤ u)) vs
within_bounds u [] h k = tt
within_bounds u (v ∷ vs) (h, hs) (k, ks) = ((ground arith, k), within_bounds u vs hs ks)

below_updated :
    (u : ℤ) (vs : List ℤ)
    → chain le_int none vs ≡ true
    → lt_int u (last_origin_budget_time (some vs)) ≡ false
    → All (λ w. w ≤ℤ u) vs
unfolding chain
below_updated u [] h k = tt
below_updated u (v ∷ vs) h k = last_bounds u v vs (ground arith) k

pub valid-Times : (limit : ℕ) (u : ℤ) (o : Option (List ℤ)) → TimesTests limit u o → Times limit u o
unfolding valid_origin_budget_times
valid-Times limit u none (h, k) = ground arith
valid-Times limit u (some vs) (h, k) =
    let valid : valid_times_from none vs ≡ true = ground arith in
    let (times, ordered) = (times_loop none vs).0 valid in
    (
      ground arith,
      (
        within_bounds u vs times (below_updated u vs ordered k),
        chain-Ordered le_int le_int_trans none vs ordered,
      ),
    )

last_checked :
    (u : ℤ) (vs : List ℤ)
    → pos 0 ≤ℤ u
    → All (λ v. (pos 0 ≤ℤ v) × (v ≤ℤ u)) vs
    → lt_int u (last_origin_budget_time (some vs)) ≡ false
last_checked u [] h k = ground arith
last_checked u (v ∷ vs) h (k, ks) = last_bounded u v vs k.1 (All-map (λ w b. b.1) vs ks)

safe_time :
    (u v : ℤ) → IsJavascriptTime u → (pos 0 ≤ℤ v) × (v ≤ℤ u) → valid_javascript_time v ≡ true
safe_time u v h k = ground arith

pub Times-valid :
    (limit : ℕ) (u : ℤ) (o : Option (List ℤ))
    → IsJavascriptTime u
    → Times limit u o
    → TimesTests limit u o
unfolding valid_origin_budget_times
Times-valid limit u none hu t = ground arith
Times-valid limit u (some vs) hu (few, (bounds, ordered)) =
    let valid : valid_times_from none vs ≡ true =
      (times_loop none vs).1
        (All-map (λ v b. safe_time u v hu b) vs bounds, Ordered-chain-none le_int vs ordered) in
    (ground arith, last_checked u vs hu.0 bounds)
