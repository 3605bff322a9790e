-- ===== src/Charm/PeerData.antt =====
-- The databags of the peer relation.
pub mod Initialised
use mongodb_k8s_operator.Prelude.{String, Bool, [], if◌then◌else◌}
use mongodb_k8s_operator.Core.Error.{attribute_error}
use mongodb_k8s_operator.Core.Call.{Scope, app, Content, peer_set}
use mongodb_k8s_operator.Core.World.{World, Exec}
use mongodb_k8s_operator.Core.Exec.{⊤, pure, raise, asks, tell, ◌>>=◌}
use mongodb_k8s_operator.Core.Dict.{has_key}
use mongodb_k8s_operator.Config.{peers}

module _ (w : World) where
  abbrev pub has_peers : Exec Bool
  has_peers = asks (λ t. w.has_relation t peers)

  -- `_peer_data`: without a relation, `None.data` raises.
  unfoldable pub peer_data : Scope → Exec Content
  peer_data scope = do
    found ← has_peers
    if found then asks (λ t. w.peer_data t scope) else raise attribute_error

  -- `app_peer_data` and `unit_peer_data`: without a relation, an empty dictionary.
  unfoldable pub peer_data_or_empty : Scope → Exec Content
  peer_data_or_empty scope = do
    found ← has_peers
    if found then asks (λ t. w.peer_data t scope) else pure []

  -- A write through those properties: without a relation, it is lost.
  unfoldable pub write_peer_data : Scope → String → String → Exec ⊤
  write_peer_data scope key value = do
    found ← has_peers
    if found then tell (peer_set scope key value) else pure tt

  unfoldable pub db_initialised : Exec Bool
  unfolding peer_data_or_empty
  db_initialised = do bag ← peer_data_or_empty app; pure (has_key "db_initialised" bag)

  -- `self.db_initialised = value` for a Boolean, by `str(value)`.
  unfoldable pub set_db_initialised : Bool → Exec ⊤
  unfolding write_peer_data
  set_db_initialised value =
      write_peer_data app "db_initialised" (if value then "True" else "False")
