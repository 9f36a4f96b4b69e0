-- ===== src/Runtime/Selector/Guarantees.antt =====
-- What one call of `Execute` keeps and reports.
use openlinker_plugin.Base.{
  Bool, if◌then◌else◌, ◌≡◌, ◌≢◌, refl, sym, ap, ◌∙◌, true, false, ◌⊎◌, inl, inr, none, some,
}
use openlinker_plugin.Protocol.Types.{
  Identity, Action, Observation, Failure, BackendSelectionEvidence,
}
use openlinker_plugin.Protocol.Failure.{ok, failed}
use openlinker_plugin.Protocol.Backend.{validate_selection_evidence, backend_official_chrome}
use openlinker_plugin.Runtime.Selector.Backends.{Backend}
use openlinker_plugin.Runtime.Selector.{
  Selector, Options, Outcome, publish_ops_snapshot, snapshot_of, new_selector, clear, install,
  is_preflight, with_selection, answer,
}
use openlinker_plugin.Runtime.Selector.Start.{fields_of}
use openlinker_plugin.Runtime.Selector.Execute.{execute, close_selector}
use openlinker_plugin.Runtime.Selector.Moves.Calls.{execute-Move}
use openlinker_plugin.Runtime.Selector.Moves.{
  Trusted, Move, Checked, refused, cleared, dropped, installed, taken_over, rebound, continued,
}

module _ {W : Type 0} where
  -- A selected backend has valid evidence.
  abbrev pub EvidenceValid : Selector W → Type 0
  EvidenceValid s = (s.selected ≡ none) ⊎ (validate_selection_evidence s.evidence ≡ none)

  -- The snapshot that ObserveOps reads is the one of the selection.
  abbrev pub Published : Selector W → Type 0
  Published s = s.ops ≡ snapshot_of s

  Checked-valid :
      (s : Selector W) (e : BackendSelectionEvidence)
      → EvidenceValid s
      → Checked s e
      → validate_selection_evidence e ≡ none
  Checked-valid s e v (inl h) = h
  Checked-valid s e (inl h) (inr (same, (b, sel))) = cc
  Checked-valid s e (inr h) (inr (same, (b, sel))) = rw same h

  move-EvidenceValid :
      (s : Selector W) (i : Identity) (act : Action) (out : Outcome W)
      → EvidenceValid s
      → Move s i (fields_of act).kind out
      → EvidenceValid out.selector
  unfolding clear install publish_ops_snapshot
  move-EvidenceValid s i act out v (refused w f e) = rw e v
  move-EvidenceValid s i act out v (cleared w f p e) = rw e (inl refl)
  move-EvidenceValid s i act out v (dropped w f p o m e) = rw e (inl refl)
  move-EvidenceValid s i act out v (installed b ev w o p c e) = rw e (inr (Checked-valid s ev v c))
  move-EvidenceValid s i act out v (taken_over b w o sel p e) =
      rw e (inr (Checked-valid s s.evidence v (inr (refl, (b, sel)))))
  move-EvidenceValid s i act out v (rebound b ev w o sel p c e) =
      rw e (inr (Checked-valid s ev v c))
  move-EvidenceValid s i act out v (continued b w o sel p e) = rw e v

  move-Published :
      (s : Selector W) (i : Identity) (act : Action) (out : Outcome W)
      → Published s
      → Move s i (fields_of act).kind out
      → Published out.selector
        ⊎ ((out.selector.selected ≡ none) × (s.evidence.selected_backend ≡ backend_official_chrome))
  unfolding clear install publish_ops_snapshot snapshot_of
  move-Published s i act out v (refused w f e) = rw e (inl v)
  move-Published s i act out v (cleared w f p e) = rw e (inl refl)
  move-Published s i act out v (dropped w f p o m e) = rw e (inr (refl, o))
  move-Published s i act out v (installed b ev w o p c e) = rw e (inl refl)
  move-Published s i act out v (taken_over b w o sel p e) = rw e (inl refl)
  move-Published s i act out v (rebound b ev w o sel p c e) = rw e (inl refl)
  move-Published s i act out v (continued b w o sel p e) = rw e (inl v)

  reported :
      (s t : Selector W) (out : Outcome W) (b : Backend W) (e : BackendSelectionEvidence) (w : W)
      (o o' : Observation)
      → t.evidence ≡ e
      → t.selected ≡ some b
      → out.reply ≡ ok o
      → out ≡ answer t w (ok (with_selection o' e))
      → (o.backend_selection ≡ some out.selector.evidence) × (out.selector.selected ≢ none)
  reported s t out b e w o o' ev sel h q = (
    ap (λ x. x.backend_selection) (same (sym h ∙ ap (λ x. x.reply) q))
        ∙ ap some (sym (ap (λ x. x.selector.evidence) q ∙ ev)),
    λ z. cc,
  )
    where
      same : {x y : Observation} → ok x ≡ ok y → x ≡ y
      same h = cc

  move-reported :
      (s : Selector W) (i : Identity) (act : Action) (out : Outcome W) (o : Observation)
      → is_preflight (fields_of act).kind ≡ true
      → out.reply ≡ ok o
      → Move s i (fields_of act).kind out
      → (o.backend_selection ≡ some out.selector.evidence) × (out.selector.selected ≢ none)
  unfolding clear install publish_ops_snapshot
  move-reported s i act out o p h (refused w f e) = cc
  move-reported s i act out o p h (cleared w f q e) = cc
  move-reported s i act out o p h (dropped w f q k m e) = cc
  move-reported s i act out o p h (installed b ev w o' q c e) =
      reported s (install s b ev i) out b ev w o o' refl refl h e
  move-reported s i act out o p h (taken_over b w o' sel q e) = cc
  move-reported s i act out o p h (rebound b ev w o' sel q c e) =
      reported s (publish_ops_snapshot (record s { evidence = ev })) out b ev w o o' refl sel h e
  move-reported s i act out o p h (continued b w o' sel q e) = cc

  move-failure :
      (s : Selector W) (i : Identity) (act : Action) (out : Outcome W) (f : Failure)
      → out.reply ≡ failed f
      → Move s i (fields_of act).kind out
      → (out.selector ≡ s)
        ⊎ ((out.selector.selected ≡ none) × (is_preflight (fields_of act).kind ≡ true))
  unfolding clear publish_ops_snapshot
  move-failure s i act out g h (refused w f e) = rw e (inl refl)
  move-failure s i act out g h (cleared w f q e) = rw e (inr (refl, q))
  move-failure s i act out g h (dropped w f q k m e) = rw e (inr (refl, q))
  move-failure s i act out g h (installed b ev w o' q c e) = cc
  move-failure s i act out g h (taken_over b w o' sel q e) = cc
  move-failure s i act out g h (rebound b ev w o' sel q c e) = cc
  move-failure s i act out g h (continued b w o' sel q e) = cc

  move-keeps :
      (s : Selector W) (i : Identity) (act : Action) (out : Outcome W)
      → is_preflight (fields_of act).kind ≡ false
      → Move s i (fields_of act).kind out
      → (out.selector.selected ≡ s.selected) × (out.selector.evidence ≡ s.evidence)
  unfolding install publish_ops_snapshot
  move-keeps s i act out p (refused w f e) = rw e (refl, refl)
  move-keeps s i act out p (cleared w f q e) = cc
  move-keeps s i act out p (dropped w f q k m e) = cc
  move-keeps s i act out p (installed b ev w o' q c e) = cc
  move-keeps s i act out p (taken_over b w o' sel q e) = rw e (sym sel, refl)
  move-keeps s i act out p (rebound b ev w o' sel q c e) = cc
  move-keeps s i act out p (continued b w o' sel q e) = rw e (refl, refl)

  -- The states that calls of Execute and Close lead to.
  pub data Reachable (opts : Options W) : Selector W → Type 0 where
    start : Reachable opts new_selector
    call :
        {s : Selector W} (w : W) (i : Identity) (act : Action)
        → Reachable opts s
        → Reachable opts (execute opts s w i act).selector
    end : {s : Selector W} (w : W) → Reachable opts s → Reachable opts (close_selector opts s w).0

  if-EvidenceValid :
      (b : Bool) (x y : Selector W × W)
      → EvidenceValid x.0
      → EvidenceValid y.0
      → EvidenceValid (if b then x else y).0
  if-EvidenceValid true x y h k = h
  if-EvidenceValid false x y h k = k

  closed-EvidenceValid :
      (opts : Options W) (s : Selector W) (w : W)
      → EvidenceValid s
      → EvidenceValid (close_selector opts s w).0
  unfolding close_selector clear publish_ops_snapshot
  closed-EvidenceValid opts s w v = if-EvidenceValid s.closed _ _ v (inl refl)

  -- With options that can be trusted, whatever calls of Execute and Close led to a state: a backend that is selected has evidence
  -- that BackendSelectionEvidence.Validate accepts.
  pub selection-EvidenceValid :
      (opts : Options W) (s : Selector W) → Trusted opts → Reachable opts s → EvidenceValid s
  selection-EvidenceValid opts s trusted start = inl refl
  selection-EvidenceValid opts s trusted (call {s = r} w i act h) =
      move-EvidenceValid r i act (execute opts r w i act) (selection-EvidenceValid opts r trusted h)
        (execute-Move opts trusted r i act w)
  selection-EvidenceValid opts s trusted (end {s = r} w h) =
      closed-EvidenceValid opts r w (selection-EvidenceValid opts r trusted h)

  -- With options that can be trusted, a preflight that succeeds reports exactly the evidence that the selector then holds, and a
  -- backend is then selected.
  preflight_reports_selection :
      (opts : Options W) (s : Selector W) (w : W) (i : Identity) (act : Action) (o : Observation)
      → Trusted opts
      → is_preflight (fields_of act).kind ≡ true
      → (execute opts s w i act).reply ≡ ok o
      → (o.backend_selection ≡ some (execute opts s w i act).selector.evidence)
        × ((execute opts s w i act).selector.selected ≢ none)
  preflight_reports_selection opts s w i act o trusted p h =
      move-reported s i act (execute opts s w i act) o p h (execute-Move opts trusted s i act w)

  -- With options that can be trusted, a call of Execute that fails leaves the selector as it was, or was a preflight and leaves no
  -- backend selected.
  pub failure_keeps_or_drops :
      (opts : Options W) (s : Selector W) (w : W) (i : Identity) (act : Action) (f : Failure)
      → Trusted opts
      → (execute opts s w i act).reply ≡ failed f
      → ((execute opts s w i act).selector ≡ s)
        ⊎ (((execute opts s w i act).selector.selected ≡ none)
            × (is_preflight (fields_of act).kind ≡ true))
  failure_keeps_or_drops opts s w i act f trusted h =
      move-failure s i act (execute opts s w i act) f h (execute-Move opts trusted s i act w)

  -- With options that can be trusted, only a preflight selects, changes or drops a backend: any other action leaves the backend and
  -- its evidence.
  only_preflight_selects :
      (opts : Options W) (s : Selector W) (w : W) (i : Identity) (act : Action)
      → Trusted opts
      → is_preflight (fields_of act).kind ≡ false
      → ((execute opts s w i act).selector.selected ≡ s.selected)
        × ((execute opts s w i act).selector.evidence ≡ s.evidence)
  only_preflight_selects opts s w i act trusted p =
      move-keeps s i act (execute opts s w i act) p (execute-Move opts trusted s i act w)

  -- With options that can be trusted, and a snapshot in step before, Execute keeps the snapshot that ObserveOps reads in step with the selection, unless it drops
  -- the official backend.
  snapshot_follows_selection :
      (opts : Options W) (s : Selector W) (w : W) (i : Identity) (act : Action)
      → Trusted opts
      → Published s
      → Published (execute opts s w i act).selector
        ⊎ (((execute opts s w i act).selector.selected ≡ none)
            × (s.evidence.selected_backend ≡ backend_official_chrome))
  snapshot_follows_selection opts s w i act trusted v =
      move-Published s i act (execute opts s w i act) v (execute-Move opts trusted s i act w)
