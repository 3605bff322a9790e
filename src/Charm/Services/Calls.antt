-- ===== src/Charm/Services/Calls.antt =====
-- The calls of the code that connects the exporter and the backup agent.
use mongodb_k8s_operator.Prelude.{String, Option}
use mongodb_k8s_operator.Core.Call.{Call, Service, can_connect, get_plan, add_layer, replan}
use mongodb_k8s_operator.Core.World.{World, Exec}
use mongodb_k8s_operator.Core.Safe.{emits_rules, Emits, Emits-call}
use mongodb_k8s_operator.Charm.PeerData.{db_initialised}
use mongodb_k8s_operator.Charm.Secrets.Calls.{get_secret-Emits}
use mongodb_k8s_operator.Charm.Configs.Calls.{monitor_config-Emits, backup_config-Emits}
use mongodb_k8s_operator.Charm.Services.{
  update_service, connect_service, monitor_layer, backup_layer, connect_mongodb_exporter,
  connect_pbm_agent,
}

-- The calls that look at a service of the plan and replace it.
pub record AllowsLayers (P : Call → Type 0) : Type 0 where
  pub asks_container : P can_connect
  pub reads_plan : (name : String) → P (get_plan name)
  pub adds : (label name : String) (service : Service) → P (add_layer label name service)
  pub replans : P replan

module _ {P : Call → Type 0} (w : World) where
  pub db_initialised-Emits : Emits P (db_initialised w)
  unfolding db_initialised
  db_initialised-Emits = search emits_rules depth 10

  module _ (allows : AllowsLayers P) where
    update_service-Emits :
        (name : String) (current : Option Service) (new : Service) (layer : Exec Service)
        → Emits P layer
        → Emits P (update_service w name current new layer)
    unfolding update_service
    update_service-Emits name current new layer k =
        search (emits_rules, Emits-call, allows.adds, allows.replans) depth 8

    connect_service-Emits :
        (name password_key : String) (layer : Exec Service)
        → Emits P layer
        → Emits P (connect_service w name password_key layer)
    unfolding connect_service
    connect_service-Emits name password_key layer k =
        search
          (
            emits_rules, Emits-call, allows.asks_container, allows.reads_plan, db_initialised-Emits,
            get_secret-Emits, update_service-Emits,
          )
          depth 20

    pub connect_mongodb_exporter-Emits : Emits P (connect_mongodb_exporter w)
    unfolding connect_mongodb_exporter monitor_layer
    connect_mongodb_exporter-Emits =
        connect_service-Emits _ _ _ (search (emits_rules, monitor_config-Emits) depth 8)

    pub connect_pbm_agent-Emits : Emits P (connect_pbm_agent w)
    unfolding connect_pbm_agent backup_layer
    connect_pbm_agent-Emits =
        connect_service-Emits _ _ _ (search (emits_rules, backup_config-Emits) depth 8)
