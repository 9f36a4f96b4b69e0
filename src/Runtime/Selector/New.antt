-- ===== src/Runtime/Selector/New.antt =====
-- `NewBackendSelector` of browserruntime/backend_selector.go: the options it accepts, and what they
-- are afterwards. The isolated backend cannot be missing here.
use openlinker_plugin.Base.{
  ◌≡◌, refl, Bool, true, false, ◌||◌, ◌&&◌, not, Option, none, some, ◌==◌, ◌=s=◌, if◌then◌else◌,
  arith, String, eq_iff,
}
use openlinker_plugin.Protocol.Types.{BackendSelectionEvidence, Failure}
use openlinker_plugin.Protocol.Failure.Validate.{is_some, reject}
use openlinker_plugin.Protocol.Backend.{
  validate_selection_evidence, backend_official_chrome, isolated_evidence,
  mode_openlinker_native_chrome, ValidReason,
}
use openlinker_plugin.Runtime.Selector.Backends.{Backend}
use openlinker_plugin.Runtime.Selector.{Options}
use openlinker_plugin.Runtime.Selector.Moves.{Trusted}

-- `evidence == BackendSelectionEvidence{}`
is_zero_evidence : BackendSelectionEvidence → Bool
is_zero_evidence e =
    e.requested_mode =s= ""
    && e.selected_backend =s= ""
    && e.fallback_reason =s= ""
    && e.asset_manifest_sha256 =s= ""
    && e.extension_id =s= ""
    && e.extension_version =s= ""
    && e.native_host_protocol =s= ""
    && e.profile_generation == 0
    && not e.session_recovered

abbrev named_official : BackendSelectionEvidence → BackendSelectionEvidence
named_official e = record e {
  requested_mode = mode_openlinker_native_chrome;
  selected_backend = backend_official_chrome;
  fallback_reason = "";
}

some_if : {A : Type 0} (b : Bool) (x y : A) → (if b then some x else none) ≡ some y → x ≡ y
some_if true x y h = cc
some_if false x y h = cc

none_if : {A : Type 0} (b : Bool) (x y : A) → (if b then none else some x) ≡ some y → x ≡ y
none_if true x y h = cc
none_if false x y h = cc

none_if_true :
    {A : Type 0} (b : Bool) (o : Option A) (y : A)
    → (if b then none else o) ≡ some y
    → (b ≡ false) × (o ≡ some y)
none_if_true true o y h = cc
none_if_true false o y h = (refl, h)

-- The constructor's check of the reason.
checked_reason :
    (reason : String)
    → (not (reason =s= "")
        && is_some (validate_selection_evidence (isolated_evidence "auto" reason)))
      ≡ false
    → ValidReason reason
unfolding validate_selection_evidence reject
checked_reason reason h = ground (arith, eq_iff reason "")

module _ {W : Type 0} where
  -- The classifier of the official backend, if it has one, gives no reason or a documented one.
  abbrev pub ClassifierValid : Options W → Type 0
  ClassifierValid opts =
      (b : Backend W) (classify : Failure → String) (f : Failure)
      → opts.official ≡ some b
      → b.startup_fallback_reason ≡ some classify
      → ValidReason (classify f)

  accept_official : Options W → Option (Backend W) → Option (Options W)
  unfolding is_zero_evidence
  accept_official opts none = if is_zero_evidence opts.official_evidence then some opts else none
  accept_official opts (some b) =
      if not (opts.official_unavailable_reason =s= "")
        || not (is_some b.profile_selection_evidence)
        || is_some (validate_selection_evidence (named_official opts.official_evidence))
      then none
      else some (record opts { official_evidence = named_official opts.official_evidence })

  -- NewBackendSelector
  unfoldable pub accept_options : Options W → Option (Options W)
  unfolding accept_official
  accept_options opts =
      if not (opts.official_unavailable_reason =s= "")
        && is_some (
            validate_selection_evidence (isolated_evidence "auto" opts.official_unavailable_reason))
      then none
      else accept_official opts opts.official

  accepted-Trusted :
      (opts opts' : Options W) (o : Option (Backend W))
      → opts.official ≡ o
      → ValidReason opts.official_unavailable_reason
      → ClassifierValid opts
      → accept_official opts o ≡ some opts'
      → Trusted opts'
  unfolding accept_official
  accepted-Trusted opts opts' none e v c h =
      rw⁻¹ (some_if (is_zero_evidence opts.official_evidence) opts opts' h)
        (record { official_name = λ b q. cc; unavailable = v; classifier = c })
  accepted-Trusted opts opts' (some b) e v c h =
      rw⁻¹
        (none_if
          (not (opts.official_unavailable_reason =s= "")
            || not (is_some b.profile_selection_evidence)
            || is_some (validate_selection_evidence (named_official opts.official_evidence)))
          (record opts { official_evidence = named_official opts.official_evidence }) opts' h)
        (record { official_name = λ b q. refl; unavailable = v; classifier = c })

  pub accept_options-Trusted :
      (opts opts' : Options W)
      → ClassifierValid opts
      → accept_options opts ≡ some opts'
      → Trusted opts'
  unfolding accept_options
  accept_options-Trusted opts opts' c h =
      let refused =
        not (opts.official_unavailable_reason =s= "")
        && is_some (
            validate_selection_evidence
              (isolated_evidence "auto" opts.official_unavailable_reason)) in
      accepted-Trusted opts opts' opts.official refl
        (checked_reason opts.official_unavailable_reason
          (none_if_true refused (accept_official opts opts.official) opts' h).0)
        c (none_if_true refused (accept_official opts opts.official) opts' h).1
