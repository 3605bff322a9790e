-- ===== src/Mongodb/Accounts.antt =====
-- Users, roles and databases.
use mongodb_k8s_operator.Prelude.{
  String, Bool, ◌||◌, Option, none, some, List, [], ◌∷◌, ◌++◌, eqb, ◌==◌, if◌then◌else◌,
}
use mongodb_k8s_operator.Core.Error.{Error, Result, ok, err, key_error, operation_failure}
use mongodb_k8s_operator.Core.Call.{
  Grant, Privileges, Connection, Command, update_roles, update_password, users_info,
  list_database_names, mongo,
}
use mongodb_k8s_operator.Core.World.{World, Exec}
use mongodb_k8s_operator.Core.Exec.{⊤, pure, raise, lift, catch, call, ◌>>=◌}
use mongodb_k8s_operator.Core.Sets.{to_set}
use mongodb_k8s_operator.Core.Dict.{is_some}
use mongodb_k8s_operator.Mongodb.Configuration.{MongodbConfiguration}
use mongodb_k8s_operator.Mongodb.Connection.{command}
use mongodb_k8s_operator.Mongodb.Names.{relation_id_of}

abbrev grant : String → String → Grant
grant role db = record { role = role; db = some db; collection = none }

-- `supported_roles[role]`
unfoldable pub supported_roles : Option String → String → Result (List Grant)
supported_roles database role =
    if role == "admin"
    then ok (
        grant "userAdminAnyDatabase" "admin"
        ∷ grant "readWriteAnyDatabase" "admin"
        ∷ grant "userAdmin" "admin"
        ∷ [])
    else if role == "monitor"
    then ok
        (grant "explainRole" "admin" ∷ grant "clusterMonitor" "admin" ∷ grant "read" "local" ∷ [])
    else if role == "backup"
    then ok (
        record { role = "readWrite"; db = some "admin"; collection = some "" }
        ∷ grant "backup" "admin"
        ∷ grant "clusterMonitor" "admin"
        ∷ grant "restore" "admin"
        ∷ grant "pbmAnyAction" "admin"
        ∷ [])
    else if role == "default"
    then ok (record { role = "readWrite"; db = database; collection = none } ∷ [])
    else err key_error

abbrev pub append_grants : Result (List Grant) → Result (List Grant) → Result (List Grant)
append_grants (err e) rest = err e
append_grants (ok grants) (err e) = err e
append_grants (ok grants) (ok rest) = ok (grants ++ rest)

pub grants_of : Option String → List String → Result (List Grant)
grants_of database [] = ok []
grants_of database (role ∷ roles) =
    append_grants (supported_roles database role) (grants_of database roles)

abbrev pub is_system : String → Bool
is_system database = database == "admin" || database == "local" || database == "config"

unfoldable pub relation_users : (String → Bool) → List String → List String
relation_users matches [] = []
relation_users matches (u ∷ users) =
    let rest = relation_users matches users in if matches u then u ∷ rest else rest

unfoldable pub non_system : List String → List String
non_system [] = []
non_system (d ∷ databases) =
    let rest = non_system databases in if is_system d then rest else d ∷ rest

-- Role already exists.
abbrev pub role_exists : Error → Exec ⊤
role_exists (operation_failure (some c)) =
    if eqb c 51002 then pure tt else raise (operation_failure (some c))
role_exists e = raise e

module _ (w : World) where
  -- `_get_roles`
  unfoldable pub get_roles : MongodbConfiguration → Result (List Grant)
  unfolding grants_of
  get_roles config = grants_of config.database (w.set_order config.roles)

  module _ (conn : Connection) where
    unfoldable pub create_user : MongodbConfiguration → Exec ⊤
    create_user config = do
      roles ← lift (get_roles config)
      command w conn
          (Command.create_user config.username config.password roles ("SCRAM-SHA-256" ∷ []))

    unfoldable pub update_user : MongodbConfiguration → Exec ⊤
    update_user config = do
      roles ← lift (get_roles config)
      command w conn (update_roles config.username roles)

    unfoldable pub set_user_password : String → String → Exec ⊤
    set_user_password username password = command w conn (update_password username password)

    unfoldable pub create_role : String → Privileges → Exec ⊤
    create_role role_name privileges =
        catch (command w conn (Command.create_role role_name privileges [])) role_exists

    unfoldable pub drop_user : String → Exec ⊤
    drop_user username = command w conn (Command.drop_user username)

    unfoldable pub get_users : Exec (List String)
    get_users = do
      users ← call (mongo conn users_info) w.users_info
      pure (to_set (relation_users (λ u. is_some (relation_id_of w.decimal u)) users))

    unfoldable pub get_databases : Exec (List String)
    get_databases = do
      databases ← call (mongo conn list_database_names) w.database_names
      pure (to_set (non_system databases))

    unfoldable pub drop_database : String → Exec ⊤
    drop_database database =
        if is_system database then pure tt else command w conn (Command.drop_database database)
