-- ===== src/Provider/Users/Steps.antt =====
-- The parts of `oversee_users`, for any kind of calls that allows what they need.
use mongodb_k8s_operator.Prelude.{
  ℕ, String, false, inl, inr, Option-cases, ◌≡◌, refl, Option, none, some, List,
}
use mongodb_k8s_operator.Core.Call.{
  Call, Connection, Grant, Content, draw, relation_set, mongo, list_database_names, update_roles,
  Command,
}
use mongodb_k8s_operator.Mongodb.Connection.{command}
use mongodb_k8s_operator.Mongodb.Names.{relation_id_of}
use mongodb_k8s_operator.Core.Event.{Event}
use mongodb_k8s_operator.Core.World.{World}
use mongodb_k8s_operator.Core.Exec.{pure}
use mongodb_k8s_operator.Core.Dict.{lookup}
use mongodb_k8s_operator.Core.Safe.{
  emits_rules, Safe, Emits, Safe-then, Safe-bind, Safe-pure, Safe-if, Safe-raise, Safe-asks,
  Emits-call, Emits-tell, Emits-for_all, Emits-lift, Emits-pure, Emits-asks, Safe-Emits,
}
use mongodb_k8s_operator.Mongodb.Configuration.{MongodbConfiguration}
use mongodb_k8s_operator.Mongodb.Accounts.{update_user, get_databases, drop_database, is_system}
use mongodb_k8s_operator.Helpers.Random.{generate_password}
use mongodb_k8s_operator.Charm.Configs.Calls.{mongodb_config-Emits}
use mongodb_k8s_operator.Provider.Relations.{
  get_databases_from_relations, get_relation_from_username, get_database_from_relation,
  get_roles_from_relation, diff, relation_of,
}
use mongodb_k8s_operator.Provider.Users.{
  password_or_new, get_config, rewrite_all, set_relation, update_relation_user, drop_databases,
}

-- The database of a relation user's relation, if the name is one's and the relation names one.
abbrev pub database_in : (ℕ → Content) → Option ℕ → Option String
database_in bag none = none
database_in bag (some id) = lookup "database" (bag id)

-- The data of the client relations stays as it is while a handler runs: Juju shows a handler one
-- state of what the other side wrote, and the same relations throughout.
pub record ShowsOneState (w : World) (ids : List ℕ) (bag : ℕ → Content) : Type 0 where
  pub same_relations : (t : List Call) → w.relations t ≡ ids
  pub same_data : (t : List Call) (id : ℕ) → w.remote_data t id ≡ bag id

module _ {P : Call → Type 0} (w : World) where
  relation_of-Safe :
      (username : String)
      → Safe P
          (λ id. relation_id_of w.decimal username ≡ some id)
          (get_relation_from_username w username)
  unfolding get_relation_from_username
  relation_of-Safe username = elim (Option-cases (relation_id_of w.decimal username)) [
    | inl other ↦ rw (other, get_relation_from_username) (Safe-raise _)
    | inr (id, found) ↦ rw (found, get_relation_from_username) (Safe-pure id refl)
  ]

  relation_of-Emits : (username : String) → Emits P (get_relation_from_username w username)
  relation_of-Emits username = Safe-Emits (relation_of-Safe username)

  module _ (draws : P draw) where
    password-Emits : (given : Option String) → Emits P (password_or_new w given)
    unfolding password_or_new generate_password
    password-Emits none = search (emits_rules, Emits-tell, draws) depth 9
    password-Emits (some password) = search (emits_rules, Emits-tell, draws) depth 9

    -- A configuration for the user, and for the database that its relation names.
    pub get_config-Names :
        (ids : List ℕ) (bag : ℕ → Content) (username : String) (given : Option String)
        → ShowsOneState w ids bag
        → Safe P
            (λ config.
              (config.username ≡ username)
              × (config.database ≡ database_in bag (relation_id_of w.decimal username)))
            (get_config w username given)
    unfolding get_config get_database_from_relation get_roles_from_relation
    get_config-Names ids bag username given shown =
        Safe-bind _ _ (relation_of-Safe username) λ relation found.
          Safe-then _ _ (password-Emits given) λ password.
            Safe-bind _ _
              (Safe-asks {Q = λ database. database ≡ lookup "database" (bag relation)} _
                (λ t. rw (shown.same_data t relation)))
              λ database named. Safe-then _ _ (mongodb_config-Emits w) λ charm_config.
                Safe-then _ _ (Emits-asks _) λ roles. Safe-pure _ (refl, rw (found, named))

    pub get_config-Safe :
        (username : String) (given : Option String)
        → Safe P (λ config. config.username ≡ username) (get_config w username given)
    unfolding get_config get_database_from_relation get_roles_from_relation
    get_config-Safe username given = Safe-then _ _ (relation_of-Emits username) λ relation.
        Safe-then _ _ (password-Emits given) λ password. Safe-then _ _ (Emits-asks _) λ database.
          Safe-then _ _ (mongodb_config-Emits w)
            λ charm_config. Safe-then _ _ (Emits-asks _) λ roles. Safe-pure _ refl

  module _
      (writes : (relation : ℕ) (key value : String) → P (relation_set relation key value)) where
    diff-Emits : (event : Event) → Emits P (diff w event)
    unfolding diff
    diff-Emits event = elim (Option-cases (relation_of event)) [
      | inl other ↦ rw other (Safe-raise _)
      | inr (id, found) ↦ rw found (search (emits_rules, Emits-tell, writes) depth 12)
    ]

    rewrite_all-Emits : (relation : ℕ) (bag : Content) → Emits P (rewrite_all w relation bag)
    unfolding rewrite_all
    rewrite_all-Emits relation bag =
        Emits-for_all _ _ λ entry. Emits-tell _ (writes relation entry.0 entry.1)

    pub set_relation-Emits :
        (config : MongodbConfiguration) (database : String)
        → Emits P (set_relation w config database)
    unfolding set_relation
    set_relation-Emits config database =
        search (emits_rules, relation_of-Emits, Emits-tell, writes, rewrite_all-Emits) depth 24

    pub update_relation_user-Emits :
        (conn : Connection) (event : Event) (username : String)
        → P draw
        → ((roles : List Grant) → P (mongo conn (update_roles username roles)))
        → Emits P (update_relation_user w conn event username)
    unfolding update_relation_user update_user
    update_relation_user-Emits conn event username draws updates =
        Safe-bind _ _ (get_config-Safe draws username none) λ config named.
          Safe-then _ _
            (Safe-then _ _ (Emits-lift _) λ roles. Emits-call _ _ (rw named (updates roles)))
            λ _. search (emits_rules, diff-Emits)

  module _ (conn : Connection) (lists : P (mongo conn list_database_names))
      (drops : (d : String) → is_system d ≡ false → P (mongo conn (Command.drop_database d))) where
    drop_database-Emits : (database : String) → Emits P (drop_database w conn database)
    unfolding drop_database
    drop_database-Emits database =
        Safe-if (is_system database) (pure tt) (command w conn (Command.drop_database database))
          (λ _. Emits-pure tt) (λ ordinary. Emits-call _ _ (drops database ordinary))

    get_databases-Emits : Emits P (get_databases w conn)
    unfolding get_databases
    get_databases-Emits = search (emits_rules, Emits-call, lists) depth 8

    pub drop_databases-Emits : (departed : Option ℕ) → Emits P (drop_databases w conn departed)
    unfolding drop_databases get_databases_from_relations
    drop_databases-Emits departed =
        search (emits_rules, get_databases-Emits, Emits-for_all, drop_database-Emits) depth 14
