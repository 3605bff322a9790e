-- ===== src/Charm/Reconcile/Calls.antt =====
-- What the handler of peer events may do to the database and to the charm's data.
use mongodb_k8s_operator.Prelude.{
  ℕ, String, Bool, Option, none, some, List, [], ◌∷◌, ◌≡◌, refl, if◌then◌else◌,
}
use mongodb_k8s_operator.Core.Error.{Error, not_ready, is_pymongo}
use mongodb_k8s_operator.Core.Exec.{tell, raise}
use mongodb_k8s_operator.Core.Call.{
  Call, Connection, Command, app, unit, mongo, close, ping, get_config, get_status, users_info,
  reconfig, step_down, peer_set, peer_delete, relation_set, secret_add, secret_set, set_status,
  defer, draw, can_connect, get_plan, add_layer, replan,
}
use mongodb_k8s_operator.Core.Event.{Event, peer_departed}
use mongodb_k8s_operator.Core.World.{World}
use mongodb_k8s_operator.Core.Safe.{
  emits_rules, Emits, Safe-Emits, Safe-then, Safe-raise, Emits-if, Emits-pure, Emits-tell,
  Emits-call, Emits-asks, Emits-for_all,
}
use mongodb_k8s_operator.Core.Retry.{Retries}
use mongodb_k8s_operator.Mongodb.Calls.{
  with_connection-Safe, is_ready-Emits, get_replset_members-Emits,
}
use mongodb_k8s_operator.Mongodb.Accounts.{get_users}
use mongodb_k8s_operator.Mongodb.Replset.Members.{HasDistinctIds}
use mongodb_k8s_operator.Mongodb.Replset.Calls.{
  ReportsDistinctIds, AllowsMembers, add_replset_member-Emits, remove_replset_member-Emits,
}
use mongodb_k8s_operator.Provider.Users as Users
use mongodb_k8s_operator.Provider.Users.Steps.{get_config-Safe}
use mongodb_k8s_operator.Charm.PeerData.{peer_data_or_empty, write_peer_data}
use mongodb_k8s_operator.Charm.Secrets.Calls.{AllowsSecrets}
use mongodb_k8s_operator.Charm.Configs.Calls.{hostname_for-Emits, mongodb_config-Emits}
use mongodb_k8s_operator.Charm.Services.Calls.{
  AllowsLayers, db_initialised-Emits, connect_mongodb_exporter-Emits, connect_pbm_agent-Emits,
}
use mongodb_k8s_operator.Charm.Users.Calls.{generate_secrets-Emits}
use mongodb_k8s_operator.Charm.Reconcile.{
  set_leader_unit_active_if_needed, member_is_ready, add_units_from_replica_set,
  remove_units_from_replica_set, update_relation, update_app_relation_data, remaining_hosts,
  reconfigure, reconcile_members, note_departure, reconcile_as_leader, relation_changes_handler,
  defer_mongo_error,
}

-- Commands that read, and those that change the members and keep their ids distinct.
abbrev pub ChangesMembers : Command → Type 0
ChangesMembers ping = Unit
ChangesMembers get_config = Unit
ChangesMembers get_status = Unit
ChangesMembers users_info = Unit
ChangesMembers (step_down seconds) = Unit
ChangesMembers (reconfig cfg) = HasDistinctIds cfg.members
ChangesMembers command = ⊥

-- The calls of the handler.
abbrev pub ReconcileMay : Call → Type 0
ReconcileMay (mongo conn command) = ChangesMembers command
ReconcileMay (close conn) = Unit
ReconcileMay (peer_set app key value) = Unit
ReconcileMay (peer_set unit key value) = key ≡ "unit_departed"
ReconcileMay (peer_delete app key) = Unit
ReconcileMay (relation_set relation key value) = Unit
ReconcileMay (secret_add app content) = Unit
ReconcileMay (secret_set id content) = Unit
ReconcileMay (set_status status) = Unit
ReconcileMay defer = Unit
ReconcileMay draw = Unit
ReconcileMay can_connect = Unit
ReconcileMay (get_plan name) = Unit
ReconcileMay (add_layer label name service) = Unit
ReconcileMay replan = Unit
ReconcileMay c = ⊥

secrets_allowed : AllowsSecrets ReconcileMay app
secrets_allowed = record {
  adds = λ c. tt;
  writes = λ id c. tt;
  keeps = λ k v. tt;
  deletes = λ k. tt;
}

layers_allowed : AllowsLayers ReconcileMay
layers_allowed = record {
  asks_container = tt;
  reads_plan = λ name. tt;
  adds = λ label name service. tt;
  replans = tt;
}

members_allowed : AllowsMembers ReconcileMay
members_allowed = record {
  reads_config = λ conn. tt;
  reads_status = λ conn. tt;
  steps_down = λ conn. tt;
  reconfigures = λ conn cfg h. h;
}

module _ {P : Call → Type 0} (w : World) (noted : P (peer_set unit "unit_departed" "True")) where
  pub note_departure-Emits : (event : Event) → Emits P (note_departure w event)
  unfolding note_departure peer_data_or_empty write_peer_data
  note_departure-Emits (peer_departed departing other) =
      search (emits_rules, Emits-tell, noted) depth 14
  note_departure-Emits event = Emits-pure tt

defer_or_raise :
    (caught : Bool) (e : Error) → Emits ReconcileMay (if caught then tell defer else raise e)
defer_or_raise caught e =
    Emits-if caught (tell defer) (raise e) (Emits-tell defer tt) (Safe-raise e)

defer_mongo_error-Emits : (e : Error) → Emits ReconcileMay (defer_mongo_error e)
defer_mongo_error-Emits not_ready = Emits-tell _ tt
defer_mongo_error-Emits e = defer_or_raise (is_pymongo e) e

module _ (w : World) where
  active_if_needed-Emits : Emits ReconcileMay (set_leader_unit_active_if_needed w)
  unfolding set_leader_unit_active_if_needed
  active_if_needed-Emits = search (emits_rules, Emits-tell) depth 9

  update_config-Emits :
      (username : String) (given : Option String)
      → Emits ReconcileMay (Users.get_config w username given)
  update_config-Emits username given = Safe-Emits (get_config-Safe w tt username given)

  update_relation-Emits :
      (users : List String) (relation : ℕ) → Emits ReconcileMay (update_relation w users relation)
  unfolding update_relation
  update_relation-Emits users relation =
      search (emits_rules, Emits-tell, update_config-Emits) depth 16

  update_app_relation_data-Emits :
      (users : List String) → Emits ReconcileMay (update_app_relation_data w users)
  unfolding update_app_relation_data
  update_app_relation_data-Emits users =
      search (emits_rules, Emits-for_all, update_relation-Emits) depth 9

  remaining_hosts-Emits :
      (event : Event) (hosts : List String) → Emits ReconcileMay (remaining_hosts w event hosts)
  unfolding remaining_hosts
  remaining_hosts-Emits (peer_departed departing (some gone)) hosts =
      search (emits_rules, hostname_for-Emits) depth 6
  remaining_hosts-Emits (peer_departed departing none) hosts = Emits-pure _
  remaining_hosts-Emits event hosts = Emits-pure _

  get_users-Emits : (conn : Connection) → Emits ReconcileMay (get_users w conn)
  unfolding get_users
  get_users-Emits conn = search (emits_rules, Emits-call) depth 8

  module _ (laws : Retries w) where
    member_is_ready-Emits : (member : String) → Emits ReconcileMay (member_is_ready w member)
    unfolding member_is_ready
    member_is_ready-Emits member =
        search
          (
            emits_rules, mongodb_config-Emits, with_connection-Safe, is_ready-Emits, laws,
            Emits-tell,
          )
          depth 14

    module _ (ids : ReportsDistinctIds w) (conn : Connection) where
      add_units-Emits :
          (members : List String) → Emits ReconcileMay (add_units_from_replica_set w conn members)
      unfolding add_units_from_replica_set
      add_units-Emits [] = Emits-pure tt
      add_units-Emits (member ∷ members) = Safe-then _ _ (member_is_ready-Emits member) λ ready.
          Emits-if _ _ _
            (Safe-then _ _ (add_replset_member-Emits w ids members_allowed conn member)
              (λ _. add_units-Emits members))
            (Emits-pure tt)

      remove_units-Emits :
          (members : List String)
          → Emits ReconcileMay (remove_units_from_replica_set w conn members)
      unfolding remove_units_from_replica_set
      remove_units-Emits members =
          Emits-for_all _ _
            λ member. remove_replset_member-Emits w ids members_allowed conn member laws

      reconfigure-Emits :
          (event : Event) (members hosts : List String)
          → Emits ReconcileMay (reconfigure w event conn members hosts)
      unfolding reconfigure
      reconfigure-Emits event members hosts =
          search
            (
              emits_rules, remove_units-Emits, remaining_hosts-Emits, add_units-Emits,
              get_users-Emits, update_app_relation_data-Emits,
            )
            depth 12

      reconcile_members-Emits :
          (event : Event) → Emits ReconcileMay (reconcile_members w event conn)
      unfolding reconcile_members
      reconcile_members-Emits event =
          search
            (
              emits_rules, get_replset_members-Emits, mongodb_config-Emits, active_if_needed-Emits,
              reconfigure-Emits,
            )
            depth 12

  pub reconcile_as_leader-Emits :
      Retries w
      → ReportsDistinctIds w
      → (event : Event) → Emits ReconcileMay (reconcile_as_leader w event)
  unfolding reconcile_as_leader
  reconcile_as_leader-Emits laws ids event =
      Safe-then _ _ (generate_secrets-Emits w secrets_allowed tt) λ _.
        search
          (
            emits_rules, db_initialised-Emits, mongodb_config-Emits, with_connection-Safe,
            reconcile_members-Emits, laws, ids, defer_mongo_error-Emits,
          )
          depth 16

  -- The handler of peer events sends mongod only commands that read, step-downs, and configurations
  -- in which no two members have one id; it writes secrets and data only of the application, and of
  -- the unit only "unit_departed". The conditions: tenacity makes attempts of what it is given, and
  -- mongod's own configurations have distinct ids.
  pub relation_changes_handler-Emits :
      Retries w
      → ReportsDistinctIds w
      → (event : Event) → Emits ReconcileMay (relation_changes_handler w event)
  unfolding relation_changes_handler
  relation_changes_handler-Emits laws ids event =
      Safe-then _ _ (connect_mongodb_exporter-Emits w layers_allowed) λ _.
        Safe-then _ _ (connect_pbm_agent-Emits w layers_allowed) λ _.
          Safe-then _ _ (note_departure-Emits w refl event) λ _.
            Safe-then _ _ (Emits-asks _)
              λ leader. Emits-if _ _ _ (Emits-pure tt) (reconcile_as_leader-Emits laws ids event)
