-- ===== src/Runtime/Selector/Moves.antt =====
-- The moves of the selector: what one call of `Execute` can leave and answer.
pub mod Calls
use openlinker_plugin.Base.{
  String, Bool, ◌≡◌, refl, sym, ap, ◌∙◌, true, false, ◌||◌, ◌&&◌, ◌⊎◌, inl, inr, not, Option, none,
  some, ◌=s=◌, arith, if◌then◌else◌, Bool-cases, eq_iff, and-true,
}
use openlinker_plugin.Protocol.Types.{
  Identity, ActionKind, Action, Observation, Failure, BackendSelectionEvidence,
}
use openlinker_plugin.Protocol.Failure.{Result, ok, failed}
use openlinker_plugin.Protocol.Backend.{
  validate_selection_evidence, backend_official_chrome, mode_openlinker_native_chrome,
  mode_official_chrome_alias, isolated_evidence, ValidReason, valid_backend_fallback_reason,
  reason-valid, isolated-valid,
}
use openlinker_plugin.Runtime.Selector.Backends.{Backend}
use openlinker_plugin.Runtime.Selector.{
  Selector, Options, Outcome, refuse, answer, publish_ops_snapshot, snapshot_of, clear, install,
  bind_if_official, bind-valid, with_selection, matches, is_preflight, same_generation,
  is_equivalent_mode_continuation,
}
use openlinker_plugin.Runtime.Selector.Start.{
  fields_of, after_abort, select_backend, execute_unselected, start_bound, started, fall_back,
  auto_started, select_auto_from, select_auto, select_official, select_mode, unavailable_reason,
  classified, clear_mode,
}
use openlinker_plugin.Runtime.Selector.Execute.{
  rotation_failed, rotation_bound, rotation_done, preflight_bound, continued as go_on, replaced,
  execute_from, execute_rotated, execute_selected, execute_with, execute,
}

pub if-Valid :
    (b : Bool) (x y : String) → ValidReason x → ValidReason y → ValidReason (if b then x else y)
if-Valid true x y h k = h
if-Valid false x y h k = k

module _ {W : Type 0} where
  -- The evidence was validated, or is the one of the backend that was selected.
  abbrev pub Checked : Selector W → BackendSelectionEvidence → Type 0
  Checked s e =
      (validate_selection_evidence e ≡ none)
      ⊎ ((e ≡ s.evidence) × ((b : Backend W) × (s.selected ≡ some b)))

  pub data Move (s : Selector W) (i : Identity) (kind : ActionKind) (out : Outcome W) : Type 0 where
    refused : (w : W) (f : Failure) → out ≡ answer s w (failed f) → Move s i kind out
    cleared :
        (w : W) (f : Failure)
        → is_preflight kind ≡ true
        → out ≡ answer (publish_ops_snapshot (clear s)) w (failed f)
        → Move s i kind out
    dropped :
        (w : W) (f : Failure)
        → is_preflight kind ≡ true
        → s.evidence.selected_backend ≡ backend_official_chrome
        → matches s.scope i ≡ false
        → out ≡ answer (clear s) w (failed f)
        → Move s i kind out
    installed :
        (b : Backend W) (e : BackendSelectionEvidence) (w : W) (o : Observation)
        → is_preflight kind ≡ true
        → Checked s e
        → out ≡ answer (install s b e i) w (ok (with_selection o e))
        → Move s i kind out
    taken_over :
        (b : Backend W) (w : W) (o : Observation)
        → s.selected ≡ some b
        → is_preflight kind ≡ false
        → out ≡ answer (install s b s.evidence i) w (ok o)
        → Move s i kind out
    rebound :
        (b : Backend W) (e : BackendSelectionEvidence) (w : W) (o : Observation)
        → s.selected ≡ some b
        → is_preflight kind ≡ true
        → Checked s e
        → out
          ≡ answer (publish_ops_snapshot (record s { evidence = e })) w (ok (with_selection o e))
        → Move s i kind out
    continued :
        (b : Backend W) (w : W) (o : Observation)
        → s.selected ≡ some b
        → is_preflight kind ≡ false
        → out ≡ answer s w (ok o)
        → Move s i kind out

  -- What `NewBackendSelector` checks of its options, and what a classifier of startup failures
  -- promises: an empty reason or a documented one.
  pub record Trusted (opts : Options W) : Type 0 where
    pub official_name :
        (b : Backend W)
        → opts.official ≡ some b
        → opts.official_evidence.selected_backend ≡ backend_official_chrome
    pub unavailable : ValidReason opts.official_unavailable_reason
    pub classifier :
        (b : Backend W) (classify : Failure → String) (f : Failure)
        → opts.official ≡ some b
        → b.startup_fallback_reason ≡ some classify
        → ValidReason (classify f)

  pub bind_if-Checked :
      (w : W) (b : Backend W) (s : Selector W) (e e' : BackendSelectionEvidence)
      → Checked s e
      → bind_if_official w b e ≡ ok e'
      → Checked s e'
  unfolding bind_if_official
  bind_if-Checked w b s e e' c h = ground (arith, bind-valid w b e e')

  bind_if-failed :
      (w : W) (b : Backend W) (e : BackendSelectionEvidence) (f : Failure)
      → bind_if_official w b e ≡ failed f
      → e.selected_backend ≡ backend_official_chrome
  unfolding bind_if_official
  bind_if-failed w b e f h = ground (arith, eq_iff e.selected_backend backend_official_chrome)

  pub if-Move :
      (s : Selector W) (i : Identity) (kind : ActionKind) (b : Bool) (x y : Outcome W)
      → Move s i kind x
      → Move s i kind y
      → Move s i kind (if b then x else y)
  if-Move s i kind true x y h k = h
  if-Move s i kind false x y h k = k

  pub if_true-Move :
      (s : Selector W) (i : Identity) (kind : ActionKind) (b : Bool) (x y : Outcome W)
      → (b ≡ true → Move s i kind x)
      → Move s i kind y
      → Move s i kind (if b then x else y)
  if_true-Move s i kind true x y h k = h refl
  if_true-Move s i kind false x y h k = k

  rotation_bound-Move :
      (s : Selector W) (b : Backend W) (i : Identity) (kind : ActionKind) (o : Observation) (w : W)
      (r : Result BackendSelectionEvidence)
      → is_preflight kind ≡ true
      → matches s.scope i ≡ false
      → ((e : BackendSelectionEvidence) → r ≡ ok e → Checked s e)
      → ((f : Failure) → r ≡ failed f → s.evidence.selected_backend ≡ backend_official_chrome)
      → Move s i kind (rotation_bound s b i o w r)
  unfolding rotation_bound
  rotation_bound-Move s b i kind o w (ok e) p m good bad = installed b e w o p (good e refl) refl
  rotation_bound-Move s b i kind o w (failed f) p m good bad =
      dropped (b.abort_startup w).0 f p (bad f refl) m refl

  pub after_abort-Move :
      (s u t : Selector W) (i : Identity) (kind : ActionKind) (message : String) (f : Failure)
      (r : W × Bool)
      → ((w : W) (g : Failure) → Move s i kind (answer u w (failed g)))
      → ((w : W) → Move s i kind (answer t w (failed f)))
      → Move s i kind (after_abort u t message f r)
  unfolding refuse
  after_abort-Move s u t i kind message f (w, true) idle h = idle w _
  after_abort-Move s u t i kind message f (w, false) idle h = h w

  pub rotation_done-Move :
      (s : Selector W) (b : Backend W) (i : Identity) (kind : ActionKind)
      (r : W × Result Observation)
      → s.selected ≡ some b
      → matches s.scope i ≡ false
      → Move s i kind (rotation_done s b i kind r)
  unfolding rotation_done rotation_failed
  rotation_done-Move s b i kind (w, failed f) sel m = elim (Bool-cases (is_preflight kind)) [
    | inl p ↦ rw p (
        after_abort-Move s s (publish_ops_snapshot (clear s)) i kind _ f (b.abort_startup w)
          (λ v g. refused v g refl) (λ v. cleared v f p refl))
    | inr p ↦ rw p (refused w f refl)
  ]
  rotation_done-Move s b i kind (w, ok o) sel m = elim (Bool-cases (is_preflight kind)) [
    | inl p ↦ rw p (
        rotation_bound-Move s b i kind o w (bind_if_official w b s.evidence) p m
          (λ e h. bind_if-Checked w b s s.evidence e (inr (refl, (b, sel))) h)
          (λ f h. bind_if-failed w b s.evidence f h))
    | inr p ↦ rw p (taken_over b w o sel p refl)
  ]

  bound-Move :
      (s : Selector W) (b : Backend W) (i : Identity) (kind : ActionKind) (o : Observation) (w : W)
      (r : Result BackendSelectionEvidence)
      → s.selected ≡ some b
      → is_preflight kind ≡ true
      → ((e : BackendSelectionEvidence) → r ≡ ok e → Checked s e)
      → Move s i kind (preflight_bound s o w r)
  unfolding preflight_bound
  bound-Move s b i kind o w (failed f) sel p good = refused w f refl
  bound-Move s b i kind o w (ok e) sel p good = rebound b e w o sel p (good e refl) refl

  pub continued-Move :
      (s : Selector W) (b : Backend W) (i : Identity) (kind : ActionKind)
      (r : W × Result Observation)
      → s.selected ≡ some b
      → Move s i kind (go_on s b kind r)
  unfolding go_on
  continued-Move s b i kind (w, failed f) sel = refused w f refl
  continued-Move s b i kind (w, ok o) sel = elim (Bool-cases (is_preflight kind)) [
    | inl p ↦ rw p (
        bound-Move s b i kind o w (bind_if_official w b s.evidence) sel p
          (λ e h. bind_if-Checked w b s s.evidence e (inr (refl, (b, sel))) h))
    | inr p ↦ rw p (continued b w o sel p refl)
  ]

  pub start_bound-Move :
      (s t : Selector W) (b : Backend W) (i : Identity) (kind : ActionKind) (o : Observation)
      (w : W) (r : Result BackendSelectionEvidence)
      → ((w : W) (f : Failure) → Move s i kind (answer t w (failed f)))
      → is_preflight kind ≡ true
      → t.closed ≡ s.closed
      → ((e : BackendSelectionEvidence) → r ≡ ok e → Checked s e)
      → Move s i kind (start_bound t b i o w r)
  unfolding start_bound install publish_ops_snapshot snapshot_of
  start_bound-Move s t b i kind o w (failed f) idle p c good = idle (b.abort_startup w).0 f
  start_bound-Move s t b i kind o w (ok e) idle p c good =
      installed b e w o p (good e refl) (rw c refl)
