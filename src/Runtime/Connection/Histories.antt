-- ===== src/Runtime/Connection/Histories.antt =====
-- Connections against the histories of admission: what a connection does to the admission state is
-- what one of a few short histories of calls does.
use openlinker_plugin.Base.{ℕ, ◌≡◌, Option, List, [], ◌∷◌, ◌++◌}
use openlinker_plugin.Protocol.Types.{Failure}
use openlinker_plugin.Protocol.Request.{Request}
use openlinker_plugin.Runtime.Admission.{Server}
use openlinker_plugin.Runtime.Admission.Events.{Event, request, run}
use openlinker_plugin.Runtime.Connection.{Outside, Limits, Checks, handle_request}
use openlinker_plugin.Runtime.Connection.Endings.{History}

module _ (limits : Limits) (checks : Checks) (outside : Outside) where
  abbrev m : ℕ
  m = limits.max_requests

  -- The state is what one of the histories of the request leaves.
  Refined : Server → Request → Server → Type 0
  Refined s r t = (es : List Event) × (History r.identity r.request_id r.act es × (t ≡ run m s es))

-- One connection: the decoded request and what the outside answers.
pub record Connection : Type 0 where
  pub request : Request
  pub undecoded : Option Failure
  pub outside : Outside

-- The histories of a list of connections.
pub data Histories : List Connection → List Event → Type 0 where
  none_served : Histories [] []
  then_served :
      (c : Connection) {cs : List Connection} {es fs : List Event}
      → History c.request.identity c.request.request_id c.request.act es
      → Histories cs fs
      → Histories (c ∷ cs) (es ++ fs)

module _ (limits : Limits) (checks : Checks) where
  -- The state after a list of connections, one after the other.
  unfoldable pub serve_all : Server → List Connection → Server
  serve_all s [] = s
  serve_all s (c ∷ cs) =
      serve_all (handle_request limits checks c.outside s c.request c.undecoded).server cs
