-- ===== src/Charm/Configs.antt =====
-- The hosts of the application, and the configurations of the charm's users.
pub mod Calls
pub mod Hosts
use mongodb_k8s_operator.Prelude.{String, Option, none, some, List, [], ◌∷◌, if◌then◌else◌}
use mongodb_k8s_operator.Core.Error.{missing_secret}
use mongodb_k8s_operator.Core.Call.{app, unit}
use mongodb_k8s_operator.Core.World.{World, Exec}
use mongodb_k8s_operator.Core.Exec.{pure, raise, lift, asks, map_each, filled, ◌>>=◌}
use mongodb_k8s_operator.Core.Dict.{is_some}
use mongodb_k8s_operator.Core.Sets.{to_set}
use mongodb_k8s_operator.Users.{MongodbUser, operator_user, monitor_user, backup_user}
use mongodb_k8s_operator.Mongodb.Configuration.{MongodbConfiguration}
use mongodb_k8s_operator.Mongodb.Hosts.{get_hostname_for_unit}
use mongodb_k8s_operator.Charm.PeerData.{has_peers}
use mongodb_k8s_operator.Charm.Secrets.{get_secret}
use mongodb_k8s_operator.Tls.Files.{get_tls_files}

module _ (w : World) where
  unfoldable pub hostname_for : String → Exec String
  hostname_for unit_name = lift (get_hostname_for_unit w.app_name unit_name)

  -- `_unit_hosts`
  unfoldable pub unit_hosts : Exec (List String)
  unit_hosts = do
    own ← hostname_for w.unit_name
    found ← has_peers w
    units ← asks w.peer_units
    if found
        then (do others ← map_each units hostname_for; pure (own ∷ others))
        else pure (own ∷ [])

  config_with :
      MongodbUser
      → List String
      → Option String
      → Option String
      → Option String
      → Exec MongodbConfiguration
  config_with user hosts external_ca internal_ca none = raise missing_secret
  config_with user hosts external_ca internal_ca (some password) =
      if filled (some password)
      then pure (record {
        replset = w.app_name;
        database = some user.database_name;
        username = user.username;
        password = password;
        hosts = to_set hosts;
        roles = to_set user.roles;
        tls_external = is_some external_ca;
        tls_internal = is_some internal_ca;
      })
      else raise missing_secret

  -- `_get_mongodb_config_for_user`
  unfoldable pub get_mongodb_config_for_user : MongodbUser → List String → Exec MongodbConfiguration
  unfolding config_with
  get_mongodb_config_for_user user hosts = do
    external ← get_tls_files w unit
    internal ← get_tls_files w app
    password ← get_secret w app user.password_key_name
    config_with user hosts external.0 internal.0 password

  unfoldable pub mongodb_config : Exec MongodbConfiguration
  mongodb_config = do hosts ← unit_hosts; get_mongodb_config_for_user operator_user hosts

  unfoldable pub monitor_config : Exec MongodbConfiguration
  monitor_config = do
    own ← hostname_for w.unit_name
    get_mongodb_config_for_user monitor_user (own ∷ [])

  unfoldable pub backup_config : Exec MongodbConfiguration
  backup_config = do
    own ← hostname_for w.unit_name
    get_mongodb_config_for_user backup_user (own ∷ [])
