-- ===== src/Runtime/Admission/Evidence.antt =====
-- What the client makes of the failures that admission builds (connection.go against
-- browserprotocol/validation.go, which browserclient/client.go applies to every error response).
use openlinker_plugin.Base.{
  ℕ, ◌+◌, ◌-◌, ◌≤◌, ◌<◌, String, ◌≡◌, ◌≢◌, eq_iff, refl, ◌∙◌, true, ◌⊎◌, inl, inr, ◌↔◌, Option,
  none, some, List, ◌∷◌, arith, len, pos, trim_space,
}
use openlinker_plugin.Protocol.Types.{action, Identity, ActionKind, Action, Failure, ErrorCode}
use openlinker_plugin.Protocol.Failure.{new_failure, FailsWith}
use openlinker_plugin.Protocol.Failure.Validate.{
  reject, validate_failure, click_evidence, ◌orelse◌, envelope_evidence, click_budget_evidence,
  validate_site_failure_evidence, site_evidence, validate_mutation_failure_evidence,
  human_control_evidence, SiteOutcome, site_outcome_of, valid_error_code, valid_target_category,
}
use openlinker_plugin.Runtime.Admission.{
  Server, prepare_click_scope, enter_scope, reserve_in_scope, reserve_request, accept_engine_state,
  record_blocked_click, count_blocked_click, reset_click_navigation_baseline, click_retry_failure,
  cost, kind_of,
}

-- The server remembers a valid target, a page state and a generation for the last blocked click.
pub record RemembersClick (s : Server) : Type 0 where
  pub target : valid_target_category s.last_blocked_target_category ≡ true
  pub page : s.click_page_state_id ≢ ""
  pub short : len s.click_page_state_id ≤ 256
  pub navigation : 0 < s.click_navigation_generation

evidence_of-RemembersClick :
    (s : Server)
    → RemembersClick s
    → click_evidence ErrorCode.click_retry_exhausted (click_retry_failure s) ≡ none
unfolding click_evidence click_retry_failure new_failure
evidence_of-RemembersClick s h = ground (arith, eq_iff s.click_page_state_id "")

RemembersClick-of_evidence :
    (s : Server)
    → click_evidence ErrorCode.click_retry_exhausted (click_retry_failure s) ≡ none
    → RemembersClick s
unfolding click_evidence click_retry_failure new_failure reject
RemembersClick-of_evidence s h = ground (arith, eq_iff s.click_page_state_id "")

code-retry : (s : Server) → (click_retry_failure s).code ≡ ErrorCode.click_retry_exhausted
unfolding click_retry_failure new_failure
code-retry s = refl

module _ (canonical_mutation_origin : String → Option String) (digest : List String → String) where
  abbrev validate : Failure → Option Failure
  validate = validate_failure canonical_mutation_origin digest

  envelope-retry : (s : Server) → envelope_evidence (click_retry_failure s) ≡ none
  unfolding envelope_evidence click_retry_failure new_failure valid_error_code trim_space
  envelope-retry s = refl

  budget-retry : (s : Server) → click_budget_evidence (click_retry_failure s) ≡ none
  unfolding click_budget_evidence click_retry_failure new_failure
  budget-retry s = ground arith

  site-retry : (s : Server) → validate_site_failure_evidence (click_retry_failure s) ≡ none
  unfolding validate_site_failure_evidence click_retry_failure new_failure
  site-retry s = refl

  mutation-retry :
      (s : Server)
      → validate_mutation_failure_evidence canonical_mutation_origin digest (click_retry_failure s)
        ≡ none
  unfolding validate_mutation_failure_evidence click_retry_failure new_failure
  mutation-retry s = refl

  human-retry : (s : Server) → human_control_evidence (click_retry_failure s) ≡ none
  unfolding human_control_evidence click_retry_failure new_failure
  human-retry s = refl

  validate-retry :
      (s : Server)
      → validate (click_retry_failure s)
        ≡ click_evidence ErrorCode.click_retry_exhausted (click_retry_failure s) orelse none
  unfolding validate_failure
  validate-retry s = rw (
    envelope-retry s,
    budget-retry s,
    site-retry s,
    mutation-retry s,
    human-retry s,
    code-retry s,
  )

  -- The failure of a click whose retry budget is exhausted passes the client's validation exactly
  -- when the server remembers a valid target, a page state of 1 to 256 bytes and a positive
  -- navigation generation.
  pub retry_failure_valid_iff :
      (s : Server) → (validate (click_retry_failure s) ≡ none) ↔ RemembersClick s
  retry_failure_valid_iff s = (
    λ h. RemembersClick-of_evidence s (ground (arith, validate-retry s)),
    λ h. ground (arith, validate-retry s, evidence_of-RemembersClick s h),
  )

-- The click context after a checkpoint, a process reset or a new Session epoch.
generation-reset :
    (s : Server) (i : Identity)
    → (prepare_click_scope
        (enter_scope (reset_click_navigation_baseline s i) i)
        i).click_navigation_generation
      ≡ 0
unfolding reset_click_navigation_baseline prepare_click_scope enter_scope
generation-reset s i = ground arith

in_scope_retry :
    (m : ℕ) (s : Server) (id : String) (f : Failure)
    → (reserve_in_scope m s id ActionKind.click 1).1 ≡ some f
    → f.code ≡ ErrorCode.click_retry_exhausted
    → f ≡ click_retry_failure (record s { seen = id ∷ s.seen; action_count = s.action_count + 1 })
unfolding reserve_in_scope new_failure
in_scope_retry m s id f h c = ground arith

cost-click : (act : Action) → kind_of act ≡ ActionKind.click → cost act ≡ 1
cost-click (action fields nested) e = rw e

module _ (canonical_mutation_origin : String → Option String) (digest : List String → String) where
  forgotten_retry :
      (s : Server)
      → s.click_navigation_generation ≡ 0
      → FailsWith ErrorCode.output_invalid
          (validate canonical_mutation_origin digest (click_retry_failure s))
  unfolding click_evidence click_retry_failure new_failure reject
  forgotten_retry s h = ground (arith, validate-retry canonical_mutation_origin digest s)

  -- After a checkpoint or a reset of the engine process has cleared the navigation baseline, a
  -- click that is refused because the retry budget of its Run is exhausted is answered with a
  -- failure that the client rejects as invalid output.
  pub retry_after_reset_rejected :
      (m : ℕ) (s : Server) (i : Identity) (id : String) (act : Action) (f : Failure)
      → kind_of act ≡ ActionKind.click
      → (reserve_request m (reset_click_navigation_baseline s i) i id act).1 ≡ some f
      → f.code ≡ ErrorCode.click_retry_exhausted
      → FailsWith ErrorCode.output_invalid (validate canonical_mutation_origin digest f)
  unfolding reserve_request
  retry_after_reset_rejected m s i id act f k h c =
      let p = prepare_click_scope (enter_scope (reset_click_navigation_baseline s i) i) i in
      let e = in_scope_retry m p id f (rw (k, cost-click act k) at h) c in
      rw e (
        forgotten_retry (record p { seen = id ∷ p.seen; action_count = p.action_count + 1 })
          (generation-reset s i))

-- What `recordBlockedClick` adds to a failure.
abbrev with_remaining : Failure → ℕ → ℕ → Failure
with_remaining f navigation_left run_left = record f {
  blocked_click_navigation_attempts_remaining = some (pos navigation_left);
  blocked_click_run_attempts_remaining = some (pos run_left);
}

orelse-none : (a b : Option Failure) → (a orelse b) ≡ none → (a ≡ none) × (b ≡ none)
orelse-none none b h = (refl, h)
orelse-none (some f) b h = cc

envelope-remaining :
    (f : Failure) (a b : ℕ) → envelope_evidence (with_remaining f a b) ≡ envelope_evidence f
unfolding envelope_evidence
envelope-remaining f a b = refl

click-remaining :
    (f : Failure) (a b : ℕ)
    → f.code ≡ ErrorCode.high_impact_action_blocked
    → click_evidence f.code (with_remaining f a b) ≡ click_evidence f.code f
unfolding click_evidence
click-remaining f a b e = rw e refl

budget-remaining :
    (f : Failure) (a b : ℕ) → a ≤ 3 → b ≤ 12 → click_budget_evidence (with_remaining f a b) ≡ none
unfolding click_budget_evidence
budget-remaining f a b p q = ground arith

abbrev Counted : Failure → Failure → Type 0
Counted f g =
    FailsWith ErrorCode.output_invalid (some g)
    ⊎ ((a : ℕ) × (b : ℕ) × (g ≡ with_remaining f a b) × (a ≤ 3) × (b ≤ 12))

accept_fails :
    (s : Server) (instance_id generation : ℕ)
    → let out = (accept_engine_state s instance_id generation).1 in
      (out ≡ none) ⊎ FailsWith ErrorCode.output_invalid out
unfolding accept_engine_state new_failure
accept_fails s instance_id generation = ground arith

Counted-cases :
    (f : Failure) (s : Server) (out : Option Failure)
    → (out ≡ none) ⊎ FailsWith ErrorCode.output_invalid out
    → Counted f (count_blocked_click f (s, out)).1
unfolding count_blocked_click
Counted-cases f s none h = inr (
  3 - (s.blocked_click_navigation_count + 1),
  12 - (s.blocked_click_run_count + 1),
  refl,
  omega arith,
  omega arith,
)
Counted-cases f s (some g) h = ground arith

blocked_cases : (s : Server) (i : Identity) (f : Failure) → Counted f (record_blocked_click s i f).1
unfolding record_blocked_click
blocked_cases s i f =
    let (t, out) =
      accept_engine_state (prepare_click_scope s i) f.engine_instance_id f.navigation_generation in
    Counted-cases f t out
      (accept_fails (prepare_click_scope s i) f.engine_instance_id f.navigation_generation)

site-remaining :
    (o : SiteOutcome) (f : Failure) (a b : ℕ)
    → site_evidence o (with_remaining f a b) ≡ site_evidence o f
unfolding site_evidence
site-remaining SiteOutcome.absent f a b = refl
site-remaining _ f a b = refl

module _ (canonical_mutation_origin : String → Option String) (digest : List String → String) where
  rest_of_validate : Failure → Option Failure
  rest_of_validate f =
      validate_site_failure_evidence f
      orelse validate_mutation_failure_evidence canonical_mutation_origin digest f
      orelse human_control_evidence f

  rest-remaining :
      (f : Failure) (a b : ℕ)
      → f.code ≡ ErrorCode.high_impact_action_blocked
      → rest_of_validate (with_remaining f a b) ≡ rest_of_validate f
  unfolding rest_of_validate validate_site_failure_evidence validate_mutation_failure_evidence
      human_control_evidence
  rest-remaining f a b e = rw (site-remaining (site_outcome_of f.site_outcome) f a b) (rw e refl)

  validate-remaining :
      (f : Failure) (a b : ℕ)
      → f.code ≡ ErrorCode.high_impact_action_blocked
      → validate canonical_mutation_origin digest f ≡ none
      → a ≤ 3
      → b ≤ 12
      → validate canonical_mutation_origin digest (with_remaining f a b) ≡ none
  unfolding validate_failure rest_of_validate
  validate-remaining f a b e h p q =
      let (envelope, h₁) = orelse-none (envelope_evidence f) _ h in
      let (click, h₂) = orelse-none (click_evidence f.code f) _ h₁ in
      let (budget, rest) = orelse-none (click_budget_evidence f) _ h₂ in
      rw
        (
          envelope-remaining f a b,
          click-remaining f a b e,
          budget-remaining f a b p q,
          envelope,
          click,
        )
        (rest-remaining f a b e ∙ rest)

  -- When the engine's blocked-click failure is valid, the failure that the server answers after
  -- counting the click, with the attempts left filled in, is valid too, unless the engine state was
  -- refused; then it is an invalid-output failure.
  pub blocked_click_answer_valid :
      (s : Server) (i : Identity) (f : Failure)
      → f.code ≡ ErrorCode.high_impact_action_blocked
      → validate canonical_mutation_origin digest f ≡ none
      → ((record_blocked_click s i f).1.code ≡ ErrorCode.output_invalid)
        ⊎ (validate canonical_mutation_origin digest (record_blocked_click s i f).1 ≡ none)
  blocked_click_answer_valid s i f e h = elim (blocked_cases s i f) [
    | inl refused ↦ inl refused
    | inr (a, b, same, p, q) ↦ inr (rw same (validate-remaining f a b e h p q))
  ]
