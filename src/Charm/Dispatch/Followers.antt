-- ===== src/Charm/Dispatch/Followers.antt =====
-- What a unit does that is never the leader, over any sequence of events.
use mongodb_k8s_operator.Prelude.{◌≡◌, false, List}
use mongodb_k8s_operator.Core.Call.{Call}
use mongodb_k8s_operator.Core.World.{World, State}
use mongodb_k8s_operator.Core.Safe.{Extends, Extends-trans, same, Emits}
use mongodb_k8s_operator.Core.Retry.{Retries}
use mongodb_k8s_operator.Charm.Dispatch.{
  Occurrence, handler, process_event, restarted, Reaches, start_of, after,
}
use mongodb_k8s_operator.Charm.Dispatch.Work.{UnitMay, Works}
use mongodb_k8s_operator.Charm.Dispatch.Parts.{LeaderParts, handler-Emits}

-- If the handlers make only calls of a kind, then so do all events together.
pub Reaches-Extends :
    {P : Call → Type 0} (w : World) (s t : State)
    → ((e : Occurrence) → Emits P (handler w e))
    → Reaches w s t
    → Extends P s.trace t.trace
unfolding process_event
Reaches-Extends w s t k start_of = same
Reaches-Extends w s t k (after {t = u} e r) =
    Extends-trans (Reaches-Extends w s u k r) ((k e).calls_of (restarted u))

module _ (w : World) (never : (t : List Call) → w.is_leader t ≡ false) where
  follows : Works w ⊥ UnitMay
  follows = record { may = λ c h. h; leading = λ t h. cc (never t) }

  no_parts : LeaderParts w ⊥ UnitMay
  no_parts = record {
    secrets = λ leads. absurd leads;
    initialises = λ leads. absurd leads;
    reconciles = λ leads. absurd leads;
    sets_password = λ leads. absurd leads;
    oversees = λ leads. absurd leads;
  }

  -- A unit that is never the leader, whatever the events are and in whatever order they come, sends
  -- mongod only pings and questions for its status, adds no secret of the application, and writes
  -- neither the application's data nor that of a client relation. The only programs that it runs in
  -- the container are chown and PBM's own, which keeps its configuration in MongoDB, so it runs no
  -- shell of MongoDB. The condition: tenacity makes attempts and nothing else.
  pub followers_only_read :
      (s t : State) → Retries w → Reaches w s t → Extends UnitMay s.trace t.trace
  followers_only_read s t laws r = Reaches-Extends w s t (handler-Emits w laws follows no_parts) r
