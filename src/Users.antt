-- ===== src/Users.antt =====
-- The charm's own MongoDB users (lib/charms/mongodb/v0/users.py).
use mongodb_k8s_operator.Prelude.{String, ◌==◌, List, [], ◌∷◌, if◌then◌else◌}
use mongodb_k8s_operator.Core.Error.{Result, ok, err, value_error}
use mongodb_k8s_operator.Core.Call.{Privileges, privilege, no_privileges, any_resource, in_database}

-- `class MongoDBUser`: the getters are the fields.
pub record MongodbUser : Type 0 where
  pub username : String
  pub password_key_name : String
  pub database_name : String
  pub roles : List String
  pub privileges : Privileges
  pub mongodb_role : String
  pub hosts : List String

abbrev pub operator_user : MongodbUser
operator_user = record {
  username = "operator";
  password_key_name = "operator-password";
  database_name = "admin";
  roles = "default" ∷ [];
  privileges = no_privileges;
  mongodb_role = "";
  hosts = [];
}

abbrev pub monitor_user : MongodbUser
monitor_user = record {
  username = "monitor";
  password_key_name = "monitor-password";
  database_name = "";
  roles = "monitor" ∷ [];
  privileges =
      privilege (in_database "" "")
        ("listIndexes" ∷ "listCollections" ∷ "dbStats" ∷ "dbHash" ∷ "collStats" ∷ "find" ∷ []);
  mongodb_role = "explainRole";
  hosts = [];
}

abbrev pub backup_user : MongodbUser
backup_user = record {
  username = "backup";
  password_key_name = "backup-password";
  database_name = "";
  roles = "backup" ∷ [];
  privileges = privilege any_resource ("anyAction" ∷ []);
  mongodb_role = "pbmAnyAction";
  hosts = "127.0.0.1" ∷ [];
}

-- `CHARM_USERS`.
abbrev pub charm_users : List String
charm_users = operator_user.username ∷ backup_user.username ∷ monitor_user.username ∷ []

unfoldable pub get_password_key_name_for_user : String → Result String
get_password_key_name_for_user username =
    if username == operator_user.username
    then ok operator_user.password_key_name
    else if username == monitor_user.username
    then ok monitor_user.password_key_name
    else if username == backup_user.username
    then ok backup_user.password_key_name
    else err value_error
