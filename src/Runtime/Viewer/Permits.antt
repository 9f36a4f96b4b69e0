-- ===== src/Runtime/Viewer/Permits.antt =====
-- What a Viewer connection asks the engine to show, and what it answers.
use openlinker_plugin.Base.{
  ℕ, ◌≡◌, refl, ◌⊎◌, inl, inr, Bool, true, false, not, Option, none, some, [], ◌∷◌, ◌=s=◌,
  if◌then◌else◌, arith, eq_iff,
}
use openlinker_plugin.Protocol.Types.{Controller, human, Failure}
use openlinker_plugin.Protocol.Failure.{Result, ok, failed, bounded_string}
use openlinker_plugin.Protocol.Viewer.{
  ViewerRequest, ViewerFrame, ViewerResponse, viewer_success, viewer_error, viewer_error_response,
  validate_viewer_request, validate_viewer_frame, check_controller_human, is_human,
}
use openlinker_plugin.Runtime.Admission.{Server, reserve_viewer_request}
use openlinker_plugin.Runtime.Connection.{Limits, Checks}
use openlinker_plugin.Runtime.Viewer.{
  ViewerOutside, View, ViewerReply, refuse_viewer, show_frame, judged_frame, judged_viewer_failure,
  answer_view, execute_view, admitted_viewer, leased_viewer, validated_viewer, handle_viewer,
}

is_human-eq : (c : Controller) → is_human c ≡ true → c ≡ human
is_human-eq human h = refl
is_human-eq c h = cc

human_accepted : (c : Controller) → check_controller_human c ≡ none → is_human c ≡ true
unfolding check_controller_human
human_accepted c h = ground arith

module _ (limits : Limits) (checks : Checks) (outside : ViewerOutside) where
  valid-human :
      (r : ViewerRequest) (now : ℕ)
      → validate_viewer_request checks.canonical_mutation_origin checks.digest r now ≡ none
      → r.identity.controller ≡ human
  unfolding validate_viewer_request
  valid-human r now h =
      is_human-eq r.identity.controller (human_accepted r.identity.controller (ground arith))

  -- Everything that has to hold before the engine is called.
  pub record ViewerCleared (s : Server) (r : ViewerRequest) : Type 0 where
    pub credential : r.channel_credential ≡ limits.channel_credential
    pub valid :
        validate_viewer_request checks.canonical_mutation_origin checks.digest r outside.now ≡ none
    pub by_human : r.identity.controller ≡ human
    pub leased : outside.lease_failure ≡ none
    pub admitted : (reserve_viewer_request s r.identity r.request_id).1 ≡ none

  -- A frame is answered only as the engine returned it in time, and valid if there is one.
  pub data Shown (r : ViewerRequest) : ViewerResponse → Type 0 where
    no_frame :
        outside.viewed ≡ some (ok none)
        → outside.deadline_passed ≡ false
        → Shown r (viewer_success r.request_id none)
    one_frame :
        (frame : ViewerFrame)
        → outside.viewed ≡ some (ok (some frame))
        → outside.deadline_passed ≡ false
        → validate_viewer_frame frame ≡ none
        → Shown r (viewer_success r.request_id (some frame))
    not_shown : (f : Failure) → Shown r (viewer_error (bounded_string r.request_id 128) f)

  abbrev view_of : ViewerRequest → View
  view_of r = record { identity = r.identity; operation = r.operation; given = r.given }

  pub data ViewerPermitted (s : Server) (r : ViewerRequest) (reply : ViewerReply) : Type 0 where
    unseen :
        reply.views ≡ []
        → (reply.server ≡ s) ⊎ (reply.server ≡ (reserve_viewer_request s r.identity r.request_id).0)
        → (f : Failure) → reply.response ≡ viewer_error (bounded_string r.request_id 128) f
        → ViewerPermitted s r reply
    seen :
        ViewerCleared s r
        → reply.views ≡ view_of r ∷ []
        → reply.server ≡ (reserve_viewer_request s r.identity r.request_id).0
        → Shown r reply.response
        → ViewerPermitted s r reply

  refused-Permitted :
      (s t : Server) (r : ViewerRequest) (f : Failure)
      → (t ≡ s) ⊎ (t ≡ (reserve_viewer_request s r.identity r.request_id).0)
      → ViewerPermitted s r (refuse_viewer t [] r.request_id f)
  unfolding refuse_viewer viewer_error_response
  refused-Permitted s t r f same = unseen refl same f refl

  -- A reply after the call of the engine.
  record Viewed (t : Server) (r : ViewerRequest) (reply : ViewerReply) : Type 0 where
    views : reply.views ≡ view_of r ∷ []
    server : reply.server ≡ t
    shown : Shown r reply.response

  refused-Viewed :
      (t : Server) (r : ViewerRequest) (f : Failure)
      → Viewed t r (refuse_viewer t (view_of r ∷ []) r.request_id f)
  unfolding refuse_viewer viewer_error_response
  refused-Viewed t r f = record { views = refl; server = refl; shown = not_shown f }

  failure-Viewed :
      (t : Server) (r : ViewerRequest) (f : Failure) (o : Option Failure)
      → Viewed t r (judged_viewer_failure limits checks outside t (view_of r ∷ []) r f o)
  unfolding judged_viewer_failure
  failure-Viewed t r f (some invalid) = refused-Viewed t r invalid
  failure-Viewed t r f none = refused-Viewed t r f

  frame-Viewed :
      (t : Server) (r : ViewerRequest) (frame : ViewerFrame) (o : Option Failure)
      → outside.viewed ≡ some (ok (some frame))
      → outside.deadline_passed ≡ false
      → validate_viewer_frame frame ≡ o
      → Viewed t r (judged_frame limits checks outside t (view_of r ∷ []) r frame o)
  unfolding judged_frame show_frame
  frame-Viewed t r frame (some f) e d v = refused-Viewed t r f
  frame-Viewed t r frame none e d v = record {
    views = refl;
    server = refl;
    shown = one_frame frame e d v;
  }

  answer-Viewed :
      (t : Server) (r : ViewerRequest) (viewed : Result (Option ViewerFrame)) (passed : Bool)
      → outside.viewed ≡ some viewed
      → outside.deadline_passed ≡ passed
      → Viewed t r (answer_view limits checks outside t (view_of r ∷ []) r viewed passed)
  unfolding answer_view show_frame
  answer-Viewed t r (failed f) passed e d = failure-Viewed t r f _
  answer-Viewed t r (ok frame) true e d = failure-Viewed t r _ _
  answer-Viewed t r (ok none) false e d = record {
    views = refl;
    server = refl;
    shown = no_frame e d;
  }
  answer-Viewed t r (ok (some frame)) false e d =
      frame-Viewed t r frame (validate_viewer_frame frame) e d refl

  Viewed-Permitted :
      (s : Server) (r : ViewerRequest) (reply : ViewerReply)
      → ViewerCleared s r
      → Viewed (reserve_viewer_request s r.identity r.request_id).0 r reply
      → ViewerPermitted s r reply
  Viewed-Permitted s r reply c v = seen c v.views v.server v.shown

  execute-Permitted :
      (s : Server) (r : ViewerRequest) (o : Option (Result (Option ViewerFrame)))
      → ViewerCleared s r
      → outside.viewed ≡ o
      → ViewerPermitted s r (
          execute_view limits checks outside
            (reserve_viewer_request s r.identity r.request_id).0
            r
            o)
  unfolding execute_view
  execute-Permitted s r none c e = refused-Permitted s _ r _ (inr refl)
  execute-Permitted s r (some viewed) c e =
      Viewed-Permitted s r _ c (answer-Viewed _ r viewed outside.deadline_passed e refl)

  admitted-Permitted :
      (s : Server) (r : ViewerRequest) (o : Option Failure)
      → ((reserve_viewer_request s r.identity r.request_id).1 ≡ none → ViewerCleared s r)
      → (reserve_viewer_request s r.identity r.request_id).1 ≡ o
      → ViewerPermitted s r (
          admitted_viewer limits checks outside r
            ((reserve_viewer_request s r.identity r.request_id).0, o))
  unfolding admitted_viewer
  admitted-Permitted s r (some f) c e = refused-Permitted s _ r f (inr refl)
  admitted-Permitted s r none c e = execute-Permitted s r outside.viewed (c e) refl

  leased-Permitted :
      (s : Server) (r : ViewerRequest) (o : Option Failure)
      → (outside.lease_failure ≡ none
          → (reserve_viewer_request s r.identity r.request_id).1 ≡ none
          → ViewerCleared s r)
      → outside.lease_failure ≡ o
      → ViewerPermitted s r (leased_viewer limits checks outside s r o)
  unfolding leased_viewer
  leased-Permitted s r (some f) c e = refused-Permitted s s r f (inl refl)
  leased-Permitted s r none c e =
      admitted-Permitted s r (reserve_viewer_request s r.identity r.request_id).1 (c e) refl

  validated-Permitted :
      (s : Server) (r : ViewerRequest) (o : Option Failure)
      → r.channel_credential ≡ limits.channel_credential
      → validate_viewer_request checks.canonical_mutation_origin checks.digest r outside.now ≡ o
      → ViewerPermitted s r (validated_viewer limits checks outside s r o)
  unfolding validated_viewer
  validated-Permitted s r (some f) k v = refused-Permitted s s r f (inl refl)
  validated-Permitted s r none k v =
      leased-Permitted s r outside.lease_failure
        (λ l a. record {
          credential = k;
          valid = v;
          by_human = valid-human r outside.now v;
          leased = l;
          admitted = a;
        })
        refl

  pick-Permitted :
      (s : Server) (r : ViewerRequest) (b : Bool) (x y : ViewerReply)
      → (b ≡ true → ViewerPermitted s r x)
      → (b ≡ false → ViewerPermitted s r y)
      → ViewerPermitted s r (if b then x else y)
  pick-Permitted s r true x y h k = h refl
  pick-Permitted s r false x y h k = k refl

  -- Whatever the lease, the engine and the clock answer, a Viewer connection calls the engine only
  -- for a request with the channel's credential that is valid at its time, whose identity has the
  -- human in control, whose lease was validated and that was admitted; and then once, with the
  -- operation and the input of the request. It changes nothing but by the admission. It answers with
  -- a frame only when the engine returned that frame before the deadline and it is valid, without a
  -- frame only when the engine returned none, and otherwise with a failure under the identifier of
  -- the request.
  pub handle_viewer-Permitted :
      (s : Server) (r : ViewerRequest)
      → ViewerPermitted s r (handle_viewer limits checks outside s (some r))
  unfolding handle_viewer
  handle_viewer-Permitted s r =
      pick-Permitted s r (not (r.channel_credential =s= limits.channel_credential)) _ _
        (λ h. refused-Permitted s s r _ (inl refl))
        (λ h.
          validated-Permitted s r _
            ((eq_iff r.channel_credential limits.channel_credential).0 (ground arith)) refl)
