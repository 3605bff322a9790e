-- ===== src/Helpers/Status.antt =====
-- `build_unit_status`: the status of a unit from what mongod says of its member.
use mongodb_k8s_operator.Prelude.{String, false, Option, none, some, ◌==◌, if◌then◌else◌}
use mongodb_k8s_operator.Core.Error.{Error, server_selection_timeout, auto_reconnect}
use mongodb_k8s_operator.Core.Call.{Status, active, waiting, blocked}
use mongodb_k8s_operator.Core.World.{World, Exec}
use mongodb_k8s_operator.Core.Exec.{pure, raise, catch, ◌>>=◌}
use mongodb_k8s_operator.Core.Dict.{lookup}
use mongodb_k8s_operator.Mongodb.Configuration.{MongodbConfiguration}
use mongodb_k8s_operator.Mongodb.Connection.{with_connection}
use mongodb_k8s_operator.Mongodb.Replset.{is_syncing, get_replset_status}

abbrev pub replica_status : Option String → Status
replica_status none = waiting "Member being added.."
replica_status (some state) =
    if state == "PRIMARY"
    then active "Primary"
    else if state == "SECONDARY"
    then active ""
    else if is_syncing state
    then waiting "Member is syncing..."
    else if state == "REMOVED"
    then waiting "Member is removing..."
    else blocked state

abbrev pub no_primary : Error → Exec Status
no_primary server_selection_timeout = pure (waiting "Waiting for primary re-election..")
no_primary auto_reconnect = pure (waiting "Waiting to reconnect to unit..")
no_primary e = raise e

module _ (w : World) where
  unfoldable pub unit_status_from : MongodbConfiguration → String → Exec Status
  unit_status_from config unit_ip = with_connection w config none false λ conn. do
    replset_status ← get_replset_status w conn
    pure (replica_status (lookup unit_ip replset_status))

  unfoldable pub build_unit_status : MongodbConfiguration → String → Exec Status
  unfolding unit_status_from
  build_unit_status config unit_ip = catch (unit_status_from config unit_ip) no_primary
