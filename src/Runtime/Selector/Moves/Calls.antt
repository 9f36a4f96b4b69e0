-- ===== src/Runtime/Selector/Moves/Calls.antt =====
-- Every call of Execute is one of the moves.
use openlinker_plugin.Base.{
  String, Bool, ◌≡◌, refl, sym, ap, ◌∙◌, true, false, ◌||◌, ◌&&◌, inl, inr, not, Option, none, some,
  ◌=s=◌, arith, if◌then◌else◌, Bool-cases, eq_iff, and-true,
}
use openlinker_plugin.Protocol.Types.{
  Identity, ActionKind, Action, Observation, Failure, BackendSelectionEvidence,
}
use openlinker_plugin.Protocol.Failure.{Result, ok, failed}
use openlinker_plugin.Protocol.Backend.{
  validate_selection_evidence, backend_official_chrome, mode_openlinker_native_chrome,
  mode_official_chrome_alias, isolated_evidence, ValidReason, valid_backend_fallback_reason,
  reason-valid, isolated-valid,
}
use openlinker_plugin.Runtime.Selector.Backends.{Backend}
use openlinker_plugin.Runtime.Selector.{
  Selector, Options, refuse, answer, publish_ops_snapshot, clear, bind_if_official, bind-valid,
  matches, is_preflight, same_generation, is_equivalent_mode_continuation,
}
use openlinker_plugin.Runtime.Selector.Start.{
  fields_of, select_backend, execute_unselected, started, fall_back, auto_started, select_auto_from,
  select_auto, select_official, select_mode, unavailable_reason, classified, clear_mode,
}
use openlinker_plugin.Runtime.Selector.Execute.{
  replaced, execute_from, execute_rotated, execute_selected, execute_with, execute,
}
use openlinker_plugin.Runtime.Selector.Moves.{
  Checked, Move, refused, cleared, Trusted, if-Move, if_true-Move, after_abort-Move,
  rotation_done-Move, continued-Move, start_bound-Move, bind_if-Checked, if-Valid,
}

module _ {W : Type 0} where
  closed-cleared : (s : Selector W) → (publish_ops_snapshot (clear s)).closed ≡ s.closed
  unfolding publish_ops_snapshot clear
  closed-cleared s = refl

  -- From `t`, where no backend is selected: `s` itself, or `s` with its backend dropped.
  module _ (opts : Options W) (trusted : Trusted opts) (s t : Selector W) (i : Identity)
      (kind : ActionKind) (idle : (w : W) (f : Failure) → Move s i kind (answer t w (failed f)))
      (c : t.closed ≡ s.closed) where
    started-Move :
        (b : Backend W) (e : BackendSelectionEvidence) (r : W × Result Observation)
        → is_preflight kind ≡ true
        → ((w : W) (e' : BackendSelectionEvidence) → bind_if_official w b e ≡ ok e' → Checked s e')
        → Move s i kind (started t b e i r)
    unfolding started
    started-Move b e (w, failed f) p good =
        after_abort-Move s t t i kind _ f (b.abort_startup w) idle (λ v. idle v f)
    started-Move b e (w, ok o) p good =
        start_bound-Move s t b i kind o w (bind_if_official w b e) idle p c (good w)

    isolated-Checked :
        (w : W) (b : Backend W) (mode reason : String) (e : BackendSelectionEvidence)
        → validate_selection_evidence (isolated_evidence mode reason) ≡ none
        → bind_if_official w b (isolated_evidence mode reason) ≡ ok e
        → Checked s e
    isolated-Checked w b mode reason e v h =
        bind_if-Checked w b s (isolated_evidence mode reason) e (inl v) h

    official-Checked :
        (w : W) (b : Backend W) (e e' : BackendSelectionEvidence)
        → e.selected_backend ≡ backend_official_chrome
        → bind_if_official w b e ≡ ok e'
        → Checked s e'
    unfolding bind_if_official
    official-Checked w b e e' v h =
        ground (arith, bind-valid w b e e', eq_iff e.selected_backend backend_official_chrome)

    select_isolated-Move :
        (w : W) (act : Action) (mode reason : String)
        → is_preflight kind ≡ true
        → validate_selection_evidence (isolated_evidence mode reason) ≡ none
        → Move s i kind (select_backend t w i act opts.isolated (isolated_evidence mode reason))
    unfolding select_backend
    select_isolated-Move w act mode reason p v =
        started-Move opts.isolated (isolated_evidence mode reason) (opts.isolated.execute w i act) p
          (λ w' e' h. isolated-Checked w' opts.isolated mode reason e' v h)

    fall_back-Move :
        (act : Action) (reason : String) (r : W × Bool)
        → is_preflight kind ≡ true
        → ValidReason reason
        → Move s i kind (fall_back opts t i act reason r)
    unfolding fall_back refuse
    fall_back-Move act reason (w, true) p v = idle w _
    fall_back-Move act reason (w, false) p v =
        select_isolated-Move w act "auto" reason p (reason-valid reason v)

    classified-Valid :
        (b : Backend W) (f : Failure) (c : Option (Failure → String))
        → ((classify : Failure → String) → c ≡ some classify → ValidReason (classify f))
        → ValidReason (classified c f)
    unfolding valid_backend_fallback_reason
    classified-Valid b f none good = inr refl
    classified-Valid b f (some classify) good =
        if-Valid (classify f =s= "") _ _ (inr refl) (good classify refl)

    auto_started-Move :
        (b : Backend W) (act : Action) (r : W × Result Observation)
        → is_preflight kind ≡ true
        → opts.official ≡ some b
        → Move s i kind (auto_started opts t b i act r)
    unfolding auto_started
    auto_started-Move b act (w, ok o) p sel =
        start_bound-Move s t b i kind o w _ idle p c (λ e h. official-Checked w b _ e refl h)
    auto_started-Move b act (w, failed f) p sel =
        fall_back-Move act (classified b.startup_fallback_reason f) (b.abort_startup w) p (
          classified-Valid b f b.startup_fallback_reason
            (λ classify h. trusted.classifier b classify f sel h))

    unavailable-Valid : ValidReason (unavailable_reason opts.official_unavailable_reason)
    unfolding valid_backend_fallback_reason
    unavailable-Valid =
        if-Valid (opts.official_unavailable_reason =s= "") _ _ (inr refl) trusted.unavailable

    select_auto_from-Move :
        (o : Option (Backend W)) (w : W) (act : Action)
        → is_preflight kind ≡ true
        → opts.official ≡ o
        → Move s i kind (select_auto_from opts o t w i act)
    unfolding select_auto_from
    select_auto_from-Move none w act p e =
        select_isolated-Move w act "auto" _ p (reason-valid _ unavailable-Valid)
    select_auto_from-Move (some b) w act p e = auto_started-Move b act (b.execute w i act) p e

    select_official-Move :
        (o : Option (Backend W)) (w : W) (act : Action)
        → is_preflight kind ≡ true
        → opts.official ≡ o
        → Move s i kind (select_official opts o t w i act)
    unfolding select_official select_backend refuse
    select_official-Move none w act p q = idle w _
    select_official-Move (some b) w act p q =
        started-Move b _ (b.execute w i act) p
          (λ w' e' h. official-Checked w' b _ e' (trusted.official_name b q) h)

    select_mode-Move :
        (w : W) (act : Action) (mode : String)
        → is_preflight kind ≡ true
        → Move s i kind (select_mode opts t w i act mode)
    unfolding select_mode select_auto refuse
    select_mode-Move w act mode p =
        if_true-Move s i kind (mode =s= "isolated") _ _
          (λ e. select_isolated-Move w act mode "" p (isolated-valid mode e))
          (if-Move s i kind
            (mode =s= mode_openlinker_native_chrome || mode =s= mode_official_chrome_alias) _ _
            (select_official-Move opts.official w act p refl)
            (if-Move s i kind (mode =s= "auto") _ _
              (select_auto_from-Move opts.official w act p refl) (idle w _)))

    execute_unselected-Move :
        (w : W) (act : Action)
        → (fields_of act).kind ≡ kind
        → Move s i kind (execute_unselected opts t w i act)
    unfolding execute_unselected refuse
    execute_unselected-Move w act e = elim (Bool-cases (is_preflight (fields_of act).kind)) [
      | inl p ↦ rw p (
          select_mode-Move w (clear_mode act)
            (if (fields_of act).backend_mode =s= ""
              then "isolated"
              else (fields_of act).backend_mode)
            (sym (ap is_preflight e) ∙ p))
      | inr p ↦ rw p (idle w _)
    ]

  module _ (opts : Options W) (trusted : Trusted opts) (s : Selector W) (i : Identity)
      (act : Action) where
    execute_selected-Move :
        (w : W) (b : Backend W)
        → s.selected ≡ some b
        → Move s i (fields_of act).kind (execute_selected s w b i act)
    unfolding execute_selected refuse
    execute_selected-Move w b sel =
        if-Move s i (fields_of act).kind (not (matches s.scope i)) _ _ (refused w _ refl)
          (continued-Move s b i (fields_of act).kind (b.execute w i act) sel)

    replaced-Move :
        (r : W × Bool)
        → is_preflight (fields_of act).kind ≡ true
        → Move s i (fields_of act).kind (replaced opts s i act r)
    unfolding replaced refuse
    replaced-Move (w, true) p = refused w _ refl
    replaced-Move (w, false) p =
        execute_unselected-Move opts trusted s (publish_ops_snapshot (clear s)) i
          (fields_of act).kind (λ v f. cleared v f p refl) (closed-cleared s) w act refl

    execute_with-Move :
        (w : W) (b : Backend W)
        → s.selected ≡ some b
        → Move s i (fields_of act).kind (execute_with opts s w b i act)
    unfolding execute_with execute_rotated refuse
    execute_with-Move w b sel =
        if_true-Move s i (fields_of act).kind
          (((fields_of act).backend_mode =s= ""
              || is_equivalent_mode_continuation s.scope i (fields_of act)
                  s.evidence.requested_mode)
            && not (matches s.scope i))
          _ _
          (λ e. rotation_done-Move s b i (fields_of act).kind (b.execute w i _) sel (ground arith))
          (if-Move s i (fields_of act).kind (not ((fields_of act).backend_mode =s= "")) _ _
            (if_true-Move s i (fields_of act).kind
              (is_preflight (fields_of act).kind && not (same_generation s.scope i)) _ _
              (λ e. replaced-Move (b.abort_startup w) (and-true e).0) (refused w _ refl))
            (execute_selected-Move w b sel))

    execute_from-Move :
        (w : W) (o : Option (Backend W))
        → s.selected ≡ o
        → Move s i (fields_of act).kind (execute_from opts o s w i act)
    unfolding execute_from
    execute_from-Move w none sel =
        execute_unselected-Move opts trusted s s i (fields_of act).kind (λ v f. refused v f refl)
          refl w act refl
    execute_from-Move w (some b) sel = execute_with-Move w b sel

    -- Every call of Execute is one of the moves.
    pub execute-Move : (w : W) → Move s i (fields_of act).kind (execute opts s w i act)
    unfolding execute refuse
    execute-Move w =
        if-Move s i (fields_of act).kind s.closed _ _ (refused w _ refl)
          (execute_from-Move w s.selected refl)
