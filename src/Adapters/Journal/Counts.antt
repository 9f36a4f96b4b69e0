-- ===== src/Adapters/Journal/Counts.antt =====
-- What the journal counts for a call that succeeds.
use openlinker_plugin.Base.{
  ℕ, suc, ◌+◌, String, false, ◌≡◌, refl, ap, ◌∙◌, Option, none, List, [], ◌∷◌, arith, if◌then◌else◌,
  pos, lt_int,
}
use openlinker_plugin.Protocol.Types.{ActionKind, Action, Observation}
use openlinker_plugin.Adapters.Journal.{
  Journal, Entry, Call, append_bounded, add_entry, add_completed, add_result, passed_over,
  potential_browser_mutation, record_action, record_actions, record_batch, record_call, remember,
  call_of, called_kinds, first_kind,
}
use openlinker_plugin.Adapters.Journal.Bounds.{counted}

-- How many of the actions may change a page.
abbrev pub potentials : List ActionKind → ℕ
potentials [] = 0
potentials (kind ∷ rest) =
    if potential_browser_mutation kind then potentials rest + 1 else potentials rest

module _ (encode : Entry → Option ℕ) where
  append-counted : (j : Journal) (e : Entry) → counted (append_bounded encode j e) ≡ counted j
  unfolding append_bounded
  append-counted j e = ground arith

  completed-counted :
      (j : Journal) (call : Call) (kind : ActionKind)
      → counted (add_completed encode j call kind) ≡ counted j + 1
  unfolding add_completed add_entry
  completed-counted j call kind = append-counted _ _ ∙ omega arith

  action-counted :
      (j : Journal) (call : Call) (index : ℕ) (kind : ActionKind)
      → call.failure ≡ none
      → lt_int (pos 0) call.observed ≡ false
      → counted (record_action encode j call index kind)
        ≡ counted j + (if potential_browser_mutation kind then 1 else 0)
  unfolding record_action passed_over add_result
  action-counted j call index kind f o = ground (arith, completed-counted j call kind)

  actions-counted :
      (call : Call) (index : ℕ) (ks : List ActionKind) (j : Journal)
      → call.failure ≡ none
      → lt_int (pos 0) call.observed ≡ false
      → counted (record_actions encode j call index ks) ≡ counted j + potentials ks
  unfolding record_actions
  actions-counted call index [] j f o = omega arith
  actions-counted call index (k ∷ ks) j f o = ground (
    arith,
    actions-counted call (suc index) ks (record_action encode j call index k) f o,
    action-counted j call index k f o,
  )

  batch-counted :
      (j : Journal) (call : Call) (kind : ActionKind) (ks : List ActionKind)
      → lt_int (pos 0) call.observed ≡ false
      → record_batch encode j call kind ks ≡ j
  unfolding record_batch
  batch-counted j call kind ks o = ground arith

  -- A call that succeeds, during which no mutation request was observed, adds exactly the number of
  -- its actions that may change a page to the mutations counted; those of a batch are its nested
  -- actions.
  quiet_call_counted :
      (j : Journal) (act : Action) (o : Observation) (now : String)
      → lt_int (pos 0) o.mutation_requests_observed ≡ false
      → counted (record_call encode j act o none now) ≡ counted j + potentials (called_kinds act)
  unfolding record_call remember call_of
  quiet_call_counted j act o now h =
      ap counted (batch-counted _ (call_of act o none now) (first_kind act) (called_kinds act) h)
      ∙ actions-counted (call_of act o none now) 0 (called_kinds act) _ refl h
