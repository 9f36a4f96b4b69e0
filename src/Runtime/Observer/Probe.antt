-- ===== src/Runtime/Observer/Probe.antt =====
-- A probe leaves the lease alone.
use openlinker_plugin.Base.{
  String, Bool, true, false, ◌≡◌, refl, Option, none, some, ◌=s=◌, if◌then◌else◌, not,
}
use openlinker_plugin.Protocol.OpsObserver.{
  OpsRequest, OpsError, ParsedUrl, validate_request, is_probe, error_response,
}
use openlinker_plugin.Runtime.Observer.{Manager}
use openlinker_plugin.Runtime.Observer.Connection.{Line, Turn, turn, decoded_turn, validated_turn}

module _ (parse_url : String → Option ParsedUrl) where
  -- A turn that touches nothing and shows nothing of a page.
  abbrev pub Inert : String → Manager → Turn → Type 0
  Inert a m t = (t.manager ≡ m) × ((t.admitted ≡ a) × (t.response.observation ≡ none))

  if-Inert :
      (a : String) (m : Manager) (b : Bool) (t u : Turn)
      → Inert a m t
      → Inert a m u
      → Inert a m (if b then t else u)
  if-Inert a m true t u h k = h
  if-Inert a m false t u h k = k

  validated-Inert :
      (line : Line) (a : String) (r : OpsRequest) (m : Manager) (e : Option OpsError)
      → is_probe r.operation ≡ true
      → Inert a m (validated_turn parse_url line a r m e)
  unfolding validated_turn error_response
  validated-Inert line a r m (some e) p = (refl, (refl, refl))
  validated-Inert line a r m none p = rw p (refl, (refl, refl))

  -- A turn on a probe, whatever else is wrong with it, leaves the lease and the connection's claim
  -- as they were, and its answer holds no observation.
  probe-Inert :
      (credential : String) (line : Line) (a : String) (m : Manager) (r : OpsRequest)
      → line.request ≡ some r
      → is_probe r.operation ≡ true
      → Inert a m (turn parse_url credential line a m)
  unfolding turn decoded_turn error_response
  probe-Inert credential line a m r e p = rw e (
      if-Inert a m (not (r.channel_credential =s= credential)) _ _ (refl, (refl, refl))
        (validated-Inert line a r m (validate_request r line.now) p))
