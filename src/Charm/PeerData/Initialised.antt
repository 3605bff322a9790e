-- ===== src/Charm/PeerData/Initialised.antt =====
-- The flag "db_initialised" in the application's databag of the peer relation, once it is set.
use mongodb_k8s_operator.Prelude.{true, ◌≡◌, List}
use mongodb_k8s_operator.Config.{peers}
use mongodb_k8s_operator.Core.Call.{Call, app}
use mongodb_k8s_operator.Core.World.{World}
use mongodb_k8s_operator.Core.Dict.{has_key}
use mongodb_k8s_operator.Core.Safe.{Safe, Safe-bind, Safe-asks, Safe-pure}
use mongodb_k8s_operator.Charm.PeerData.{db_initialised, peer_data_or_empty}

abbrev pub InitialisedAlways : World → Type 0
InitialisedAlways w = (t : List Call) → has_key "db_initialised" (w.peer_data t app) ≡ true

pub db_initialised-Safe :
    {P : Call → Type 0} (w : World)
    → ((t : List Call) → w.has_relation t peers ≡ true)
    → InitialisedAlways w
    → Safe P (λ found. found ≡ true) (db_initialised w)
unfolding db_initialised peer_data_or_empty
db_initialised-Safe w related initialised =
    Safe-bind {Q = λ bag. has_key "db_initialised" bag ≡ true} _ _
      (Safe-bind {Q = λ found. found ≡ true} _ _ (Safe-asks _ related)
        λ found e. rw e (Safe-asks _ initialised))
      λ bag e. Safe-pure _ e
