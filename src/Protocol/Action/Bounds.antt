-- ===== src/Protocol/Action/Bounds.antt =====
-- Bounds on what an accepted action carries (action.go).
use openlinker_plugin.Base.{
  suc, zero, ◌∷◌, [], eq_int, ◌≤◌, String, ◌≡◌, ◌≢◌, Bool, true, false, ◌&&◌, ◌⊎◌, inl, inr, Option,
  none, some, arith, ℤ, pos, negsuc, ◌≤ℤ◌, ◌<ℤ◌, lt_int, min_int_magnitude, pos_part, neg_part,
}
use openlinker_plugin.Protocol.Types.{
  ActionKind, ObservationMode, ActionFields, Action, Actions, Failure, action, nil, cons,
}
use openlinker_plugin.Protocol.Action.{
  Field, invalid, allow_only, require_only, validate_scroll, nested_rule, barred_in_batch,
  validate_kind, validate_for_policy, validate_nested, validate_observation_mode,
  validate_coordinates, count_nested, abs, value_or_zero, viewport_width, viewport_height,
}
use openlinker_plugin.Protocol.Action.Policy.{orelse-none, Every, fields_of}

abbrev is_batch : ActionKind → Bool
is_batch ActionKind.batch = true
is_batch _ = false

-- A point of the viewport.
abbrev pub InViewport : Option ℤ → Option ℤ → Type 0
InViewport (some left) (some top) =
    (pos 0 ≤ℤ left) × (left <ℤ pos viewport_width) × (pos 0 ≤ℤ top) × (top <ℤ pos viewport_height)
InViewport _ _ = ⊥

coordinates-InViewport : (x y : Option ℤ) → validate_coordinates x y ≡ none → InViewport x y
unfolding validate_coordinates invalid
coordinates-InViewport (some (pos a)) (some (pos b)) h = ground arith
coordinates-InViewport (some (pos a)) (some (negsuc b)) h = ground arith
coordinates-InViewport (some (negsuc a)) (some b) h = ground arith
coordinates-InViewport (some a) none h = ground arith
coordinates-InViewport none y h = ground arith

-- A scroll distance: within 32768 either way, or the least 64-bit integer.
abbrev pub IsScrollDistance : ℤ → Type 0
IsScrollDistance v =
    ((pos_part v ≤ 32768) × (neg_part v ≤ 32768)) ⊎ (neg_part v ≡ min_int_magnitude)

abs_distance : (v : ℤ) → lt_int (pos 32768) (abs v) ≡ false → IsScrollDistance v
abs_distance (pos n) h = ground arith
abs_distance (negsuc n) h = ground arith

scroll_tests :
    (f : ActionFields)
    → validate_scroll f ≡ none
    → (lt_int (pos 32768) (abs (value_or_zero f.delta_x)) ≡ false)
      × (lt_int (pos 32768) (abs (value_or_zero f.delta_y)) ≡ false)
      × ((eq_int (value_or_zero f.delta_x) (pos 0) && eq_int (value_or_zero f.delta_y) (pos 0))
          ≡ false)
unfolding validate_scroll invalid
scroll_tests f h = ground arith

nonzero_delta :
    (v w : ℤ) → (eq_int v (pos 0) && eq_int w (pos 0)) ≡ false → (v ≢ pos 0) ⊎ (w ≢ pos 0)
nonzero_delta (pos zero) w h = inr (λ e. ground arith)
nonzero_delta (pos (suc n)) w h = inl (λ e. ground arith)
nonzero_delta (negsuc n) w h = inl (λ e. cc)

scroll_distances :
    (f : ActionFields)
    → validate_scroll f ≡ none
    → IsScrollDistance (value_or_zero f.delta_x)
      × IsScrollDistance (value_or_zero f.delta_y)
      × ((value_or_zero f.delta_x ≢ pos 0) ⊎ (value_or_zero f.delta_y ≢ pos 0))
scroll_distances f h =
    let (a, b, c) = scroll_tests f h in
    (
      abs_distance (value_or_zero f.delta_x) a,
      abs_distance (value_or_zero f.delta_y) b,
      nonzero_delta (value_or_zero f.delta_x) (value_or_zero f.delta_y) c,
    )

module _ (validate_navigate_url : String → Option Failure) where
  kind_count :
      (kind : ActionKind) (policy : String) (f : ActionFields) (nested : Actions)
      (within : Option Failure)
      → validate_kind validate_navigate_url kind policy f nested within ≡ none
      → ((kind ≡ ActionKind.batch)
          × (2 ≤ count_nested nested)
          × (count_nested nested ≤ 8)
          × (within ≡ none))
        ⊎ ((is_batch kind ≡ false) × (count_nested nested ≡ 0))
  unfolding validate_kind allow_only require_only invalid
  kind_count ActionKind.batch policy f nested w h = ground arith
  kind_count _ policy f nested w h = ground arith

  kind_of_accepted :
      (policy : String) (f : ActionFields) (nested : Actions)
      → validate_for_policy validate_navigate_url policy (action f nested) ≡ none
      → validate_kind validate_navigate_url f.kind policy f nested
          (validate_nested validate_navigate_url policy nested)
        ≡ none
  unfolding validate_for_policy
  kind_of_accepted policy f nested h = (orelse-none (validate_observation_mode f.observation) _ h).1

  -- Of an accepted action: a batch holds two to eight actions, and nothing else holds any.
  pub accepted_count :
      (policy : String) (f : ActionFields) (nested : Actions)
      → validate_for_policy validate_navigate_url policy (action f nested) ≡ none
      → ((f.kind ≡ ActionKind.batch) × (2 ≤ count_nested nested) × (count_nested nested ≤ 8))
        ⊎ ((f.kind ≢ ActionKind.batch) × (count_nested nested ≡ 0))
  accepted_count policy f nested h = ground (
    arith,
    kind_count f.kind policy f nested (validate_nested validate_navigate_url policy nested)
        (kind_of_accepted policy f nested h),
  )

  -- What a batch may hold: at the default observation, of a kind that is no batch and neither
  -- closes, checkpoints nor preflights, and accepted by itself.
  abbrev pub IsBatchable : String → Action → Type 0
  IsBatchable policy a =
      ((fields_of a).observation ≡ ObservationMode.default)
      × (barred_in_batch (fields_of a).kind ≡ false)
      × (validate_for_policy validate_navigate_url policy a ≡ none)

  rule_facts :
      (policy : String) (f : ActionFields)
      → nested_rule policy f ≡ none
      → (f.observation ≡ ObservationMode.default) × (barred_in_batch f.kind ≡ false)
  unfolding nested_rule invalid
  rule_facts policy f h = ground arith

  nested-IsBatchable :
      (policy : String) (nested : Actions)
      → validate_nested validate_navigate_url policy nested ≡ none
      → Every (IsBatchable policy) nested
  unfolding validate_nested
  nested-IsBatchable policy nil h = tt
  nested-IsBatchable policy (cons (action f inner) rest) h =
      let (rule, more) = orelse-none (nested_rule policy f) _ h in
      let (own, others) =
        orelse-none (validate_for_policy validate_navigate_url policy (action f inner)) _ more in
      let (mode, kind) = rule_facts policy f rule in
      ((mode, kind, own), nested-IsBatchable policy rest others)

  -- An accepted batch is flat: each of its actions is accepted by itself under the same policy,
  -- leaves the observation to the batch, and is no batch, close, checkpoint or preflight.
  pub accepted_batch_is_flat :
      (policy : String) (f : ActionFields) (nested : Actions)
      → validate_for_policy validate_navigate_url policy (action f nested) ≡ none
      → f.kind ≡ ActionKind.batch
      → Every (IsBatchable policy) nested
  accepted_batch_is_flat policy f nested h e = nested-IsBatchable policy nested (
      ground (
        arith,
        kind_count f.kind policy f nested (validate_nested validate_navigate_url policy nested)
            (kind_of_accepted policy f nested h),
      ))

  -- An accepted click is at a point of the viewport.
  accepted_click-InViewport :
      (policy : String) (f : ActionFields) (nested : Actions)
      → validate_for_policy validate_navigate_url policy (action f nested) ≡ none
      → f.kind ≡ ActionKind.click
      → InViewport f.x f.y
  unfolding validate_kind
  accepted_click-InViewport policy f nested h e =
      coordinates-InViewport f.x f.y
        (orelse-none (require_only f nested (Field.x ∷ Field.y ∷ [])) _
          (rw e at (kind_of_accepted policy f nested h))).1

  -- An accepted scroll moves in some direction, and each of its deltas is at most 32768 either way,
  -- or is the least 64-bit integer.
  accepted_scroll_distances :
      (policy : String) (f : ActionFields) (nested : Actions)
      → validate_for_policy validate_navigate_url policy (action f nested) ≡ none
      → f.kind ≡ ActionKind.scroll
      → IsScrollDistance (value_or_zero f.delta_x)
        × IsScrollDistance (value_or_zero f.delta_y)
        × ((value_or_zero f.delta_x ≢ pos 0) ⊎ (value_or_zero f.delta_y ≢ pos 0))
  unfolding validate_kind validate_scroll
  accepted_scroll_distances policy f nested h e =
      scroll_distances f
        (orelse-none (allow_only f nested (Field.delta_x ∷ Field.delta_y ∷ [])) _
          (rw e at (kind_of_accepted policy f nested h))).1
