-- ===== src/Tests/Users.antt =====
-- The theorems on the users of client relations, on an application whose mongod keeps its users.
use mongodb_k8s_operator.Helpers.Random.{generate_password}
use mongodb_k8s_operator.Text.Decimal.{show}
use mongodb_k8s_operator.Mongodb.Names.{get_username_from_relation_id, relation_id_of}
use mongodb_k8s_operator.Provider.Relations.{
  get_databases_from_relations, get_roles_from_relation, get_database_from_relation,
  get_relation_from_username, remaining, usernames, get_users_from_relations,
}
use mongodb_k8s_operator.Mongodb.Accounts.{
  drop_database, non_system, get_databases, supported_roles, get_roles, create_user, drop_user,
  relation_users, get_users,
}
use mongodb_k8s_operator.Mongodb.Configuration.{uri}
use mongodb_k8s_operator.Mongodb.Connection.{with_connection}
use mongodb_k8s_operator.Charm.Secrets.{get_secret}
use mongodb_k8s_operator.Tls.Files.{get_tls_files}
use mongodb_k8s_operator.Text.{split}
use mongodb_k8s_operator.Mongodb.Hosts.{get_hostname_for_unit}
use mongodb_k8s_operator.Charm.Configs.{
  get_mongodb_config_for_user, hostname_for, unit_hosts, mongodb_config,
}
use mongodb_k8s_operator.Prelude.{◌≡◌, refl, ◌∙◌, ap, some, List, [], ◌∷◌, String, arith, ◌⊎◌, ℕ}
use mongodb_k8s_operator.Core.Error.{ok}
use mongodb_k8s_operator.Core.Call.{Call, Command, mongo}
use mongodb_k8s_operator.Core.World.{World}
use mongodb_k8s_operator.Core.Event.{relation_broken}
use mongodb_k8s_operator.Core.Exec.{for_each, map_each, ◌>>=◌}
use mongodb_k8s_operator.Core.Sets.{intersection, to_set, contains, difference, contains-difference}
use mongodb_k8s_operator.Mongodb.UserStore.{has_user, ReportsUsers, user_after}
use mongodb_k8s_operator.Provider.Safety.{Orders}
use mongodb_k8s_operator.Provider.Users.{
  drop_databases, set_relation, get_config, create_relation_user, oversee_on, oversee_users,
  on_relation_event,
}
use mongodb_k8s_operator.Provider.Users.Steps.{ShowsOneState}
use mongodb_k8s_operator.Provider.Users.Refines.{user_kept, oversee_users-Refines}
use mongodb_k8s_operator.Provider.Users.Settled.{user_of, on_relation_event-Settles}
use mongodb_k8s_operator.Charm.Reconcile.Deferred.{Deferred}
use mongodb_k8s_operator.Charm.PeerData.{db_initialised, peer_data_or_empty}
use mongodb_k8s_operator.Samples.{old_world, fresh, ascii_digit-ReadsAscii}

abbrev first_users : List String
first_users = "operator" ∷ "relation-7" ∷ []

abbrev after_command : Command → List String → List String
after_command (Command.create_user username password roles mechanisms) users = username ∷ users
after_command (Command.drop_user username) users = difference users (username ∷ [])
after_command command users = users

abbrev users_after : List Call → List String
users_after [] = first_users
users_after (mongo conn command ∷ t) = after_command command (users_after t)
users_after (c ∷ t) = users_after t

abbrev mongod : World
mongod = record old_world {
  users_info = λ t. ok (users_after t);
  peer_data = λ t scope. ("db_initialised", "True") ∷ ("operator-password", "operator-secret") ∷ [];
}

after_command-contains :
    (command : Command) (users : List String) (u : String)
    → contains (after_command command users) u ≡ user_after command u (contains users u)
unfolding contains
after_command-contains (Command.create_user username password roles mechanisms) users u = refl
after_command-contains (Command.drop_user username) users u =
    ground (arith, contains-difference users (username ∷ []) u)
after_command-contains command users u = refl

users_after-contains :
    (t : List Call) (u : String) → contains (users_after t) u ≡ has_user mongod first_users t u
unfolding has_user
users_after-contains [] u = refl
users_after-contains (mongo conn command ∷ t) u =
    after_command-contains command (users_after t) u
    ∙ ap (user_after command u) (users_after-contains t u)
users_after-contains (c ∷ t) u = users_after-contains t u

mongod-ReportsUsers : ReportsUsers mongod first_users
mongod-ReportsUsers = record {
  listed =
      λ t users u e. let same : users ≡ users_after t = cc in rw same (users_after-contains t u);
}

mongod-Orders : Orders mongod
mongod-Orders = record { elements = λ s x. refl }

mongod-ShowsOneState : ShowsOneState mongod (4 ∷ []) (λ id. ("database", "shop") ∷ [])
mongod-ShowsOneState = record { same_relations = λ t. refl; same_data = λ t id. refl }

oversee_users-Refines_example :
    has_user mongod first_users
      (oversee_users mongod (some 7) (relation_broken 7) fresh).1.trace
      "relation-4"
    ≡ user_kept mongod
        (4 ∷ [])
        (λ id. ("database", "shop") ∷ [])
        (some 7)
        "relation-4"
        (has_user mongod first_users [] "relation-4")
unfolding oversee_users ◌>>=◌ mongodb_config unit_hosts hostname_for get_hostname_for_unit split
    map_each get_mongodb_config_for_user get_tls_files get_secret with_connection uri oversee_on
    get_users get_users_from_relations for_each difference to_set relation_users relation_id_of
    contains usernames remaining get_username_from_relation_id show drop_user create_relation_user
    get_config get_relation_from_username generate_password get_database_from_relation
    get_roles_from_relation create_user get_roles supported_roles set_relation intersection
    drop_databases get_databases get_databases_from_relations non_system drop_database
oversee_users-Refines_example =
    oversee_users-Refines mongod first_users mongod-ReportsUsers mongod-Orders (4 ∷ [])
      (λ id. ("database", "shop") ∷ []) mongod-ShowsOneState (some 7) (relation_broken 7) fresh
      "relation-4" ascii_digit-ReadsAscii refl refl

on_relation_event-Settles_example :
    Deferred [] (on_relation_event mongod (relation_broken 7) fresh).1.trace
    ⊎ ((m : ℕ)
        → has_user mongod first_users
            (on_relation_event mongod (relation_broken 7) fresh).1.trace
            (get_username_from_relation_id m)
          ≡ user_of
              (4 ∷ [])
              (λ id. ("database", "shop") ∷ [])
              (relation_broken 7)
              m
              (has_user mongod first_users [] (get_username_from_relation_id m)))
unfolding on_relation_event db_initialised peer_data_or_empty oversee_users ◌>>=◌ mongodb_config
    unit_hosts hostname_for get_hostname_for_unit split map_each get_mongodb_config_for_user
    get_tls_files get_secret with_connection uri oversee_on get_users get_users_from_relations
    for_each difference to_set relation_users relation_id_of contains usernames remaining
    get_username_from_relation_id show drop_user create_relation_user get_config
    get_relation_from_username generate_password get_database_from_relation get_roles_from_relation
    create_user get_roles supported_roles set_relation intersection drop_databases get_databases
    get_databases_from_relations non_system drop_database
on_relation_event-Settles_example =
    on_relation_event-Settles mongod first_users mongod-ReportsUsers mongod-Orders (4 ∷ [])
      (λ id. ("database", "shop") ∷ []) mongod-ShowsOneState ascii_digit-ReadsAscii (λ t. refl)
      (relation_broken 7) fresh (λ t. refl) (λ t. refl) (λ t. refl) refl
