-- ===== src/Provider/Users.antt =====
-- `oversee_users`: the users of the relations are created, updated and removed.
pub mod Steps
pub mod Refines
pub mod Settled
pub mod Stored
pub mod Calls
use mongodb_k8s_operator.Prelude.{
  ℕ, String, Bool, false, not, Option, none, some, ◌==◌, if◌then◌else◌,
}
use mongodb_k8s_operator.Text.{join}
use mongodb_k8s_operator.Core.Error.{Error, is_pymongo, attribute_error}
use mongodb_k8s_operator.Core.Call.{Connection, Content, relation_set, set_status, blocked, defer}
use mongodb_k8s_operator.Core.Event.{Event, relation_broken}
use mongodb_k8s_operator.Core.World.{World, Exec}
use mongodb_k8s_operator.Core.Exec.{
  ⊤, pure, raise, lift, catch, asks, tell, when, for_each, filled, ◌>>=◌, ◌>>◌,
}
use mongodb_k8s_operator.Core.Sets.{difference, intersection}
use mongodb_k8s_operator.Mongodb.Configuration.{MongodbConfiguration, uri}
use mongodb_k8s_operator.Mongodb.Connection.{with_connection}
use mongodb_k8s_operator.Mongodb.Accounts.{
  create_user, update_user, drop_user, get_users, get_databases, drop_database,
}
use mongodb_k8s_operator.Helpers.Random.{generate_password}
use mongodb_k8s_operator.Charm.PeerData.{db_initialised}
use mongodb_k8s_operator.Charm.Configs.{mongodb_config}
use mongodb_k8s_operator.Provider.Relations.{
  get_users_from_relations, get_databases_from_relations, get_relation_from_username,
  get_database_from_relation, get_roles_from_relation, diff,
}

-- `except PyMongoError: event.defer()`
abbrev pub defer_pymongo : Error → Exec ⊤
defer_pymongo e = if is_pymongo e then tell defer else raise e

-- The relation id of a relation-broken event.
abbrev pub departed_relation : Event → Option ℕ
departed_relation (relation_broken id) = some id
departed_relation e = none

-- `MongoDBProvider(self)` leaves `substrate` at its default.
abbrev provider_substrate : String
provider_substrate = "k8s"

module _ (w : World) where
  password_or_new : Option String → Exec String
  password_or_new none = generate_password w
  password_or_new (some password) =
      if filled (some password) then pure password else generate_password w

  -- `_get_config`
  unfoldable pub get_config : String → Option String → Exec MongodbConfiguration
  unfolding password_or_new
  get_config username given = do
    relation ← get_relation_from_username w username
    password ← password_or_new given
    database ← get_database_from_relation w relation
    charm_config ← mongodb_config w
    roles ← get_roles_from_relation w relation
    pure (record {
      replset = w.app_name;
      database = database;
      username = username;
      password = password;
      hosts = charm_config.hosts;
      roles = roles;
      tls_external = false;
      tls_internal = false;
    })

  rewrite_all : ℕ → Content → Exec ⊤
  rewrite_all relation bag = for_each bag (λ entry. tell (relation_set relation entry.0 entry.1))

  -- `_set_relation`, for a configuration with its database; the last line writes the databag over
  -- itself.
  unfoldable pub set_relation : MongodbConfiguration → String → Exec ⊤
  unfolding rewrite_all
  set_relation config database = do
    relation ← get_relation_from_username w config.username
    tell (relation_set relation "username" config.username)
    tell (relation_set relation "password" config.password)
    tell (relation_set relation "database" database)
    tell (relation_set relation "endpoints" (join "," (w.set_order config.hosts)))
    tell (relation_set relation "replset" config.replset)
    address ← lift (uri w config)
    tell (relation_set relation "uris" address)
    bag ← asks (λ t. w.local_data t relation)
    rewrite_all relation bag

  create_with : Connection → MongodbConfiguration → Option String → Exec ⊤
  create_with conn config none = pure tt
  create_with conn config (some database) = do
    create_user w conn config
    set_relation config database

  -- A user is created once the relation names its database.
  unfoldable pub create_relation_user : Connection → String → Exec ⊤
  unfolding create_with
  create_relation_user conn username = do
    config ← get_config username none
    create_with conn config config.database

  unfoldable pub update_relation_user : Connection → Event → String → Exec ⊤
  update_relation_user conn event username = do
    config ← get_config username none
    update_user w conn config
    diff w event
    pure tt

  unfoldable pub drop_databases : Connection → Option ℕ → Exec ⊤
  drop_databases conn departed = do
    database_dbs ← get_databases w conn
    relation_dbs ← get_databases_from_relations w departed
    for_each (w.set_order (difference database_dbs relation_dbs)) (drop_database w conn)

  -- The body of the `with` block.
  unfoldable pub oversee_on : Option ℕ → Event → Connection → Exec ⊤
  oversee_on departed event conn = do
    database_users ← get_users w conn
    relation_users ← get_users_from_relations w departed
    for_each (w.set_order (difference database_users relation_users)) (drop_user w conn)
    for_each (w.set_order (difference relation_users database_users)) (create_relation_user conn)
    for_each (w.set_order (intersection relation_users database_users))
        (update_relation_user conn event)
    if not w.auto_delete then pure tt else drop_databases conn departed

  has_legacy : Exec Bool
  has_legacy = asks (λ t. w.has_relation t "obsolete")

  unfoldable pub oversee_users : Option ℕ → Event → Exec ⊤
  unfolding has_legacy
  oversee_users departed event = do
    legacy ← has_legacy
    if legacy then tell (set_status (blocked "cannot have both legacy and new relations")) else do
      config ← mongodb_config w
      with_connection w config none false (oversee_on departed event)

  -- `_on_relation_event`. On the other substrate the code calls `auth_enabled`, which this charm has not.
  unfoldable pub on_relation_event : Event → Exec ⊤
  unfolding has_legacy
  on_relation_event event = do
    leader ← asks w.is_leader
    if not leader then pure tt else do
      initialised ← db_initialised w
      if not initialised then pure tt else do
        legacy ← has_legacy
        if legacy
            then tell (set_status (blocked "cannot have both legacy and new relations"))
            else do
              when (provider_substrate == "vm") (raise attribute_error)
              catch (oversee_users (departed_relation event) event) defer_pymongo
