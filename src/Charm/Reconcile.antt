-- ===== src/Charm/Reconcile.antt =====
-- `_relation_changes_handler`: the replica set is brought in line with the units of the application.
pub mod Calls
pub mod Follower
pub mod Waiting
pub mod Deferred
pub mod Leaving
pub mod Goal
pub mod Members
pub mod Reaches
use mongodb_k8s_operator.Prelude.{
  ℕ, String, Bool, true, false, not, Option, none, some, List, [], ◌∷◌, ◌==◌, if◌then◌else◌,
}
use mongodb_k8s_operator.Text.{join}
use mongodb_k8s_operator.Core.Error.{Error, not_ready, key_error, is_pymongo}
use mongodb_k8s_operator.Core.Call.{
  Connection, unit, Status, active, waiting, set_status, relation_set, defer,
}
use mongodb_k8s_operator.Core.Event.{Event, peer_departed}
use mongodb_k8s_operator.Core.World.{World, Exec}
use mongodb_k8s_operator.Core.Exec.{
  ⊤, pure, raise, lift, catch, asks, tell, when, or_raise, for_each, ◌>>=◌, ◌>>◌,
}
use mongodb_k8s_operator.Core.Dict.{lookup, has_key}
use mongodb_k8s_operator.Core.Sets.{contains, difference, same_set}
use mongodb_k8s_operator.Mongodb.Configuration.{uri}
use mongodb_k8s_operator.Mongodb.Connection.{with_connection, is_ready}
use mongodb_k8s_operator.Mongodb.Names.{get_username_from_relation_id}
use mongodb_k8s_operator.Mongodb.Accounts.{get_users}
use mongodb_k8s_operator.Mongodb.Replset.{
  get_replset_members, add_replset_member, remove_replset_member,
}
use mongodb_k8s_operator.Charm.PeerData.{peer_data_or_empty, write_peer_data, db_initialised}
use mongodb_k8s_operator.Charm.Configs.{hostname_for, mongodb_config}
use mongodb_k8s_operator.Charm.Services.{connect_mongodb_exporter, connect_pbm_agent}
use mongodb_k8s_operator.Charm.Users.{generate_secrets}
use mongodb_k8s_operator.Provider.Users.{get_config}

-- `except NotReadyError`, and after it `except PyMongoError`.
abbrev pub defer_mongo_error : Error → Exec ⊤
defer_mongo_error not_ready = tell defer
defer_mongo_error e = if is_pymongo e then tell defer else raise e

-- `isinstance(status, WaitingStatus) and status.message == …`
abbrev pub is_waiting_to_reconfigure : Status → Bool
is_waiting_to_reconfigure (waiting message) = message == "waiting to reconfigure replica set"
is_waiting_to_reconfigure status = false

module _ (w : World) where
  unfoldable pub set_leader_unit_active_if_needed : Exec ⊤
  set_leader_unit_active_if_needed = do
    status ← asks w.unit_status
    when (is_waiting_to_reconfigure status) (tell (set_status (active "")))

  -- A member that is not ready defers the event.
  unfoldable pub member_is_ready : String → Exec Bool
  member_is_ready member = do
    config ← mongodb_config w
    with_connection w config (some member) true
        λ direct. do ready ← is_ready w direct; when (not ready) (tell defer); pure ready

  -- The first member that is not ready ends the loop.
  unfoldable pub add_units_from_replica_set : Connection → List String → Exec ⊤
  add_units_from_replica_set conn [] = pure tt
  add_units_from_replica_set conn (member ∷ members) =
      let rest = add_units_from_replica_set conn members in
      do
        ready ← member_is_ready member
        if ready then add_replset_member w conn member >> rest else pure tt

  unfoldable pub remove_units_from_replica_set : Connection → List String → Exec ⊤
  remove_units_from_replica_set conn members = for_each members (remove_replset_member w conn)

  unfoldable pub update_relation : List String → ℕ → Exec ⊤
  update_relation database_users relation = do
    bag ← asks (λ t. w.local_data t relation)
    password ← or_raise (lookup "password" bag) key_error
    if contains database_users (get_username_from_relation_id relation)
        then (do
          config ← get_config w (get_username_from_relation_id relation) (some password)
          address ← lift (uri w config)
          tell (relation_set relation "endpoints" (join "," (w.set_order config.hosts)))
          tell (relation_set relation "uris" address))
        else pure tt

  unfoldable pub update_app_relation_data : List String → Exec ⊤
  update_app_relation_data database_users = do
    relations ← asks w.relations
    for_each relations (update_relation database_users)

  -- The hosts without the unit that departs.
  unfoldable pub remaining_hosts : Event → List String → Exec (List String)
  remaining_hosts (peer_departed departing (some gone)) hosts = do
    host ← hostname_for w gone
    pure (difference hosts (host ∷ []))
  remaining_hosts event hosts = pure hosts

  unfoldable pub reconfigure : Event → Connection → List String → List String → Exec ⊤
  reconfigure event conn members hosts = do
    remove_units_from_replica_set conn (w.set_order (difference members hosts))
    remaining ← remaining_hosts event hosts
    add_units_from_replica_set conn (w.set_order (difference remaining members))
    users ← get_users w conn
    update_app_relation_data users

  -- The body of the `try` statement.
  unfoldable pub reconcile_members : Event → Connection → Exec ⊤
  reconcile_members event conn = do
    members ← get_replset_members w conn
    config ← mongodb_config w
    if same_set members config.hosts
        then set_leader_unit_active_if_needed
        else reconfigure event conn members config.hosts

  -- `setdefault("unit_departed", "True")`, if this unit is the one that departs.
  unfoldable pub note_departure : Event → Exec ⊤
  note_departure (peer_departed departing other) =
      if departing == w.unit_name
      then (do
        bag ← peer_data_or_empty w unit
        if has_key "unit_departed" bag
            then pure tt
            else write_peer_data w unit "unit_departed" "True")
      else pure tt
  note_departure event = pure tt

  unfoldable pub reconcile_as_leader : Event → Exec ⊤
  reconcile_as_leader event = do
    generate_secrets w
    initialised ← db_initialised w
    if not initialised then pure tt else do
      config ← mongodb_config w
      with_connection w config none false
          λ conn. catch (reconcile_members event conn) defer_mongo_error

  unfoldable pub relation_changes_handler : Event → Exec ⊤
  relation_changes_handler event = do
    connect_mongodb_exporter w
    connect_pbm_agent w
    note_departure event
    leader ← asks w.is_leader
    if not leader then pure tt else reconcile_as_leader event
