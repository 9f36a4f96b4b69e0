-- ===== src/Protocol/Action/Policy.antt =====
-- What the interaction policy allows (action.go).
use openlinker_plugin.Base.{
  String, ◌≡◌, ◌≢◌, refl, true, Option, none, some, [], ◌∷◌, arith, eq_iff, eq_refl,
}
use openlinker_plugin.Protocol.Types.{
  ActionKind, ActionFields, Action, Actions, Failure, action, nil, cons,
}
use openlinker_plugin.Protocol.Failure.Validate.{◌orelse◌}
use openlinker_plugin.Protocol.Action.{
  Field, invalid, require_only, validate_key, nested_rule, passive_in_batch, validate_kind,
  validate_for_policy, validate_nested, validate_observation_mode,
}

pub orelse-none : (a b : Option Failure) → (a orelse b) ≡ none → (a ≡ none) × (b ≡ none)
orelse-none none b h = (refl, h)
orelse-none (some f) b h = cc

key_mono :
    (policy name : String) → validate_key policy name ≡ none → validate_key "full" name ≡ none
unfolding validate_key invalid
key_mono policy name h = ground (arith, eq_refl "full")

rule_mono :
    (policy : String) (f : ActionFields) → nested_rule policy f ≡ none → nested_rule "full" f ≡ none
unfolding nested_rule invalid
rule_mono policy f h = ground (arith, eq_refl "full")

-- Every action of the list satisfies `P`.
abbrev pub Every : (Action → Type 0) → Actions → Type 0
Every P nil = Unit {0}
Every P (cons a rest) = P a × Every P rest

abbrev pub fields_of : Action → ActionFields
fields_of (action f nested) = f

module _ (validate_navigate_url : String → Option Failure) where
  kind_mono :
      (kind : ActionKind) (policy : String) (f : ActionFields) (nested : Actions)
      (within full_within : Option Failure)
      → (within ≡ none → full_within ≡ none)
      → validate_kind validate_navigate_url kind policy f nested within ≡ none
      → validate_kind validate_navigate_url kind "full" f nested full_within ≡ none
  unfolding validate_kind
  kind_mono ActionKind.keypress policy f nested w w' more h =
      let (fields, rule) = orelse-none (require_only f nested (Field.key ∷ [])) _ h in
      rw fields (key_mono policy f.key rule)
  kind_mono ActionKind.select policy f nested w w' more h = ground (arith, eq_refl "full")
  kind_mono ActionKind.batch policy f nested w w' more h = ground arith
  kind_mono _ policy f nested w w' more h = h

  mutual
    unfolding validate_for_policy validate_nested

    action_mono :
        (policy : String) (a : Action)
        → validate_for_policy validate_navigate_url policy a ≡ none
        → validate_for_policy validate_navigate_url "full" a ≡ none
    action_mono policy (action f nested) h =
        let (mode, rest) = orelse-none (validate_observation_mode f.observation) _ h in
        rw mode (
          kind_mono f.kind policy f nested (validate_nested validate_navigate_url policy nested)
            (validate_nested validate_navigate_url "full" nested) (nested_mono policy nested) rest)

    nested_mono :
        (policy : String) (nested : Actions)
        → validate_nested validate_navigate_url policy nested ≡ none
        → validate_nested validate_navigate_url "full" nested ≡ none
    nested_mono policy nil h = refl
    nested_mono policy (cons (action f inner) rest) h =
        let (rule, more) = orelse-none (nested_rule policy f) _ h in
        let (own, others) =
          orelse-none (validate_for_policy validate_navigate_url policy (action f inner)) _ more in
        rw (rule_mono policy f rule)
          (rw (action_mono policy (action f inner) own) (nested_mono policy rest others))

  -- What any policy accepts, the `full` policy accepts.
  full_policy_accepts_all :
      (policy : String) (a : Action)
      → validate_for_policy validate_navigate_url policy a ≡ none
      → validate_for_policy validate_navigate_url "full" a ≡ none
  full_policy_accepts_all policy a h = action_mono policy a h

  restricted_rule :
      (policy : String) (f : ActionFields)
      → policy ≢ "full"
      → nested_rule policy f ≡ none
      → passive_in_batch f.kind ≡ true
  unfolding nested_rule invalid
  restricted_rule policy f r h = ground (arith, eq_iff policy "full")

  nested_passive :
      (policy : String) (nested : Actions)
      → policy ≢ "full"
      → validate_nested validate_navigate_url policy nested ≡ none
      → Every (λ a. passive_in_batch (fields_of a).kind ≡ true) nested
  unfolding validate_nested
  nested_passive policy nil r h = tt
  nested_passive policy (cons (action f inner) rest) r h =
      let (rule, more) = orelse-none (nested_rule policy f) _ h in
      let (own, others) =
        orelse-none (validate_for_policy validate_navigate_url policy (action f inner)) _ more in
      (restricted_rule policy f r rule, nested_passive policy rest r others)

  restricted_kind :
      (kind : ActionKind) (policy : String) (f : ActionFields) (nested : Actions)
      (within : Option Failure)
      → policy ≢ "full"
      → validate_kind validate_navigate_url kind policy f nested within ≡ none
      → (kind ≢ ActionKind.select)
        × (kind ≡ ActionKind.keypress → f.key ≢ "Space")
        × (kind ≡ ActionKind.batch → within ≡ none)
  unfolding validate_kind validate_key invalid
  restricted_kind ActionKind.keypress policy f nested w r h =
      let (fields, rule) = orelse-none (require_only f nested (Field.key ∷ [])) _ h in
      (λ e. cc, λ e. ground (arith, eq_iff policy "full", eq_iff f.key "Space"), λ e. cc)
  restricted_kind ActionKind.select policy f nested w r h = ground (arith, eq_iff policy "full")
  restricted_kind ActionKind.batch policy f nested w r h = (λ e. cc, λ e. cc, λ e. ground arith)
  restricted_kind _ policy f nested w r h = (λ e. cc, λ e. cc, λ e. cc)

  -- Under any policy but `full`, an accepted action is no `select`, presses no Space, and if it is a
  -- batch, holds only scrolls, waits and screenshots.
  pub restricted_policy_is_passive :
      (policy : String) (f : ActionFields) (nested : Actions)
      → policy ≢ "full"
      → validate_for_policy validate_navigate_url policy (action f nested) ≡ none
      → (f.kind ≢ ActionKind.select)
        × (f.kind ≡ ActionKind.keypress → f.key ≢ "Space")
        × (f.kind ≡ ActionKind.batch
            → Every (λ a. passive_in_batch (fields_of a).kind ≡ true) nested)
  unfolding validate_for_policy
  restricted_policy_is_passive policy f nested r h =
      let (mode, rest) = orelse-none (validate_observation_mode f.observation) _ h in
      let (a, b, c) =
        restricted_kind f.kind policy f nested (validate_nested validate_navigate_url policy nested)
          r rest in
      (a, b, λ e. nested_passive policy nested r (c e))
