-- ===== src/Charm/Lifecycle.antt =====
-- The start, the stop and the update-status of a unit (src/charm.py).
pub mod Stop
pub mod Calls
pub mod Start
use mongodb_k8s_operator.Prelude.{
  ℕ, zero, suc, ◌+◌, String, Bool, true, false, not, ◌||◌, Option, none, some, ltb, ◌==◌,
  if◌then◌else◌,
}
use mongodb_k8s_operator.Text.{append}
use mongodb_k8s_operator.Core.Error.{Error, change_error, exec_error, is_pymongo, exception}
use mongodb_k8s_operator.Core.Call.{
  Connection, unit, Status, active, waiting, blocked, set_status, defer, can_connect, exists, sleep,
}
use mongodb_k8s_operator.Core.Event.{Event, plain}
use mongodb_k8s_operator.Core.World.{World, Exec}
use mongodb_k8s_operator.Core.Exec.{⊤, pure, raise, catch, ask, asks, tell, when, ◌>>=◌, ◌>>◌}
use mongodb_k8s_operator.Core.Dict.{lookup}
use mongodb_k8s_operator.Core.Sets.{contains}
use mongodb_k8s_operator.Config.{socket_path}
use mongodb_k8s_operator.Mongodb.Configuration.{MongodbConfiguration}
use mongodb_k8s_operator.Mongodb.Connection.{with_connection, is_ready}
use mongodb_k8s_operator.Mongodb.Replset.{init_replset, get_replset_members}
use mongodb_k8s_operator.Helpers.Status.{build_unit_status}
use mongodb_k8s_operator.Charm.PeerData.{
  peer_data_or_empty, write_peer_data, db_initialised, set_db_initialised,
}
use mongodb_k8s_operator.Charm.Configs.{hostname_for, mongodb_config}
use mongodb_k8s_operator.Charm.Services.{connect_mongodb_exporter}
use mongodb_k8s_operator.Charm.Users.{init_operator_user, init_monitor_user, init_backup_user}
use mongodb_k8s_operator.Charm.Reconcile.{relation_changes_handler}
use mongodb_k8s_operator.Provider.Users.{oversee_users}
use mongodb_k8s_operator.Backups.Pbm.{get_pbm_status}
use mongodb_k8s_operator.Backups.Actions.{s3_relation}

-- `except ExecError`, and after it `except PyMongoError`; false if the clause returns.
abbrev pub not_initialised : Error → Exec Bool
not_initialised (exec_error stdout) = tell defer >> pure false
not_initialised e = if is_pymongo e then tell defer >> pure false else raise e

-- `except ChangeError`; false if the clause returns.
abbrev pub exporter_failed : Error → Exec Bool
exporter_failed change_error =
    tell (set_status (blocked "couldn't start mongodb exporter")) >> pure false
exporter_failed e = raise e

-- `except NotReadyError`, and after it `except PyMongoError`: both fall through to `return False`.
abbrev pub not_a_member : Error → Exec Bool
not_a_member e = if is_pymongo e then pure false else raise e

abbrev pub is_active : Status → Bool
is_active (active message) = true
is_active status = false

-- `self.unit_peer_data.get("unit_departed", "False") == "True"`
abbrev pub is_true : Option String → Bool
is_true none = false
is_true (some value) = value == "True"

-- `UNIT_REMOVAL_TIMEOUT`
abbrev pub unit_removal_timeout : ℕ
unit_removal_timeout = 1000

module _ (w : World) where
  unfoldable pub initialise : Event → MongodbConfiguration → Connection → Exec ⊤
  initialise event config direct = do
    init_replset w direct config
    init_operator_user w
    init_backup_user w
    init_monitor_user w
    oversee_users w none event

  -- The body of the `with` statement.
  unfoldable pub initialise_on : Event → MongodbConfiguration → Connection → Exec ⊤
  initialise_on event config direct = do
    done ← catch (initialise event config direct >> pure true) not_initialised
    if done then set_db_initialised w true else pure tt

  -- `_initialise_replica_set`
  unfoldable pub initialise_replica_set : Event → Exec ⊤
  initialise_replica_set event = do
    initialised ← db_initialised w
    if initialised then pure tt else do
      leader ← asks w.is_leader
      if not leader then pure tt else do
        config ← mongodb_config w
        with_connection w config (some "localhost") true (initialise_on event config)

  -- mongod on this unit answers; if not, `otherwise` is done before the connection is closed.
  unfoldable pub local_is_ready : Exec ⊤ → Exec Bool
  local_is_ready otherwise = do
    config ← mongodb_config w
    with_connection w config (some "localhost") true
        λ direct. do ready ← is_ready w direct; when (not ready) otherwise; pure ready

  unfoldable pub start_unit : Event → Exec ⊤
  start_unit event = do
    connected ← catch (connect_mongodb_exporter w >> pure true) exporter_failed
    if not connected
        then pure tt
        else do initialise_replica_set event; tell (set_status (active ""))

  -- The start event is none of a relation.
  unfoldable pub on_start : Exec ⊤
  on_start = do
    reachable ← ask can_connect w.answers
    if not reachable then tell defer else do
      listening ← ask (exists socket_path) w.answers
      if not listening then tell defer else do
        ready ← local_is_ready (tell defer)
        if not ready then pure tt else start_unit plain

  unfoldable pub is_member : Connection → Exec Bool
  is_member conn = do
    members ← get_replset_members w conn
    own ← hostname_for w w.unit_name
    pure (contains members own)

  unfoldable pub is_unit_in_replica_set : Exec Bool
  is_unit_in_replica_set = do
    config ← mongodb_config w
    with_connection w config none false λ conn. catch (is_member conn) not_a_member

  -- The `while` loop; the number is `timeout`, and in the body it is one less.
  unfoldable pub wait_for_removal : ℕ → Exec ⊤
  wait_for_removal zero = pure tt
  wait_for_removal (suc timeout) =
      let rest = wait_for_removal timeout in
      do
        is_in_replica_set ← is_unit_in_replica_set
        tell (sleep 1)
        when (ltb timeout 0) (raise (exception (append w.unit_name ".on_stop timeout exceeded")))
        if is_in_replica_set then rest else pure tt

  unfoldable pub on_stop : Exec ⊤
  on_stop = do
    bag ← peer_data_or_empty w unit
    if is_true (lookup "unit_departed" bag)
        then wait_for_removal unit_removal_timeout >> write_peer_data w unit "unit_departed" ""
        else pure tt

  -- The status of PBM is shown if MongoDB is well, S3 is related, and PBM is not active.
  abbrev pub choose_status : Status → Bool → Status → Status
  choose_status mongodb_status related pbm_status =
      if not (is_active mongodb_status) || not related || is_active pbm_status
      then mongodb_status
      else pbm_status

  unfoldable pub report_status : Exec ⊤
  report_status = do
    config ← mongodb_config w
    own ← hostname_for w w.unit_name
    mongodb_status ← build_unit_status w config own
    pbm_status ← get_pbm_status w
    related ← asks (λ t. w.has_relation t s3_relation)
    tell (set_status (choose_status mongodb_status related pbm_status))

  unfoldable pub on_update_status : Exec ⊤
  on_update_status = do
    initialised ← db_initialised w
    if not initialised then pure tt else do
      ready ← local_is_ready (tell (set_status (waiting "Waiting for MongoDB to start")))
      if not ready then pure tt else do
        leader ← asks w.is_leader
        when leader (relation_changes_handler w plain)
        report_status
