-- ===== src/Charm/Dispatch/Workload.antt =====
-- The calls of the handlers that prepare and start the workload.
use mongodb_k8s_operator.Prelude.{String, refl, inr, none, some, Option, List, [], ◌∷◌}
use mongodb_k8s_operator.Core.Error.{
  Error, path_error, protocol_error, missing_secret, file_exists, change_error,
}
use mongodb_k8s_operator.Core.Call.{Call, Connection, FileInfo}
use mongodb_k8s_operator.Mongodb.Configuration.{MongodbConfiguration}
use mongodb_k8s_operator.Core.World.{World, Exec}
use mongodb_k8s_operator.Core.Exec.{⊤}
use mongodb_k8s_operator.Core.Safe.{
  emits_rules, Emits, Safe-then, Safe-raise, Safe-catch, Emits-pure, Emits-tell, Emits-call,
  Emits-for_all, Emits-if, Emits-when,
}
use mongodb_k8s_operator.Core.Retry.{Retries}
use mongodb_k8s_operator.Mongodb.Calls.{with_connection-Safe, is_ready-Emits}
use mongodb_k8s_operator.Charm.Secrets.Calls.{get_secret-Emits}
use mongodb_k8s_operator.Charm.Configs.Calls.{mongodb_config-Emits}
use mongodb_k8s_operator.Charm.Services.{
  mongod_layer, push_keyfile, push_keyfile_to_workload, push_if_some,
  push_tls_certificate_to_workload,
}
use mongodb_k8s_operator.Charm.Services.Calls.{
  connect_mongodb_exporter-Emits, connect_pbm_agent-Emits, db_initialised-Emits,
}
use mongodb_k8s_operator.Charm.Workload.{
  license_there, not_prepared, not_connected, pull_license, pull_licenses, own_directory,
  set_data_dir_permissions, prepare_workload, start_workload, on_mongod_pebble_ready,
}
use mongodb_k8s_operator.Charm.Lifecycle.{
  exporter_failed, initialise_on, initialise_replica_set, local_is_ready, start_unit, on_start,
}
use mongodb_k8s_operator.Core.Event.{Event, plain}
use mongodb_k8s_operator.Tls.Calls.{get_tls_files-Emits}
use mongodb_k8s_operator.Charm.Dispatch.Work.{UnitMay, Works, layers, Emits-leader}

module _ {P : Call → Type 0} (w : World) (may : (c : Call) → UnitMay c → P c) where
  push_if_some-Emits :
      (file : String) (content : Option String) → Emits P (push_if_some w file content)
  unfolding push_if_some
  push_if_some-Emits file none = Emits-pure tt
  push_if_some-Emits file (some content) = Emits-call _ _ (may _ tt)

  pub push_tls_certificate-Emits : Emits P (push_tls_certificate_to_workload w)
  unfolding push_tls_certificate_to_workload
  push_tls_certificate-Emits =
      search (emits_rules, get_tls_files-Emits, push_if_some-Emits) depth 20

  push_keyfile-Emits : (keyfile : Option String) → Emits P (push_keyfile w keyfile)
  unfolding push_keyfile
  push_keyfile-Emits none = Safe-raise _
  push_keyfile-Emits (some keyfile) = Emits-if _ _ _ (Emits-call _ _ (may _ tt)) (Safe-raise _)

  push_keyfile_to_workload-Emits : Emits P (push_keyfile_to_workload w)
  unfolding push_keyfile_to_workload
  push_keyfile_to_workload-Emits =
      search (emits_rules, get_secret-Emits, push_keyfile-Emits) depth 8

  license_there-Emits : (e : Error) → Emits P (license_there e)
  license_there-Emits file_exists = Emits-pure tt
  license_there-Emits e = Safe-raise _

  pull_license-Emits : (name : String) → Emits P (pull_license w name)
  unfolding pull_license
  pull_license-Emits name =
      Safe-catch _ _ (Safe-then _ _ (Emits-call _ _ (may _ tt)) λ _. Emits-call _ _ (may _ tt))
        license_there-Emits

  own_directory-Emits : (infos : List FileInfo) → Emits P (own_directory w infos)
  unfolding own_directory
  own_directory-Emits [] = Safe-raise _
  own_directory-Emits (info ∷ []) = Emits-when _ _ (Emits-call _ _ (may _ (inr refl)))
  own_directory-Emits (info ∷ other ∷ infos) = Safe-raise _

  prepare_workload-Emits : Emits P (prepare_workload w)
  unfolding prepare_workload pull_licenses set_data_dir_permissions
  prepare_workload-Emits = Safe-then _ _ push_tls_certificate-Emits λ _.
      Safe-then _ _ push_keyfile_to_workload-Emits λ _.
        Safe-then _ _ (Emits-for_all _ _ pull_license-Emits)
          λ _. Safe-then _ _ (Emits-call _ _ (may _ tt)) own_directory-Emits

  not_connected-Emits : (e : Error) → Emits P (not_connected e)
  not_connected-Emits missing_secret = Emits-tell _ (may _ tt)
  not_connected-Emits e = Safe-raise _

  pub mongod_layer-Emits : Emits P (mongod_layer w)
  unfolding mongod_layer
  mongod_layer-Emits = search (emits_rules, mongodb_config-Emits) depth 8

  start_workload-Emits : Emits P (start_workload w)
  unfolding start_workload
  start_workload-Emits = Safe-then _ _ mongod_layer-Emits λ layer.
      Safe-then _ _ (Emits-call _ _ (may _ tt)) λ _. Safe-then _ _ (Emits-call _ _ (may _ tt)) λ _.
        Safe-catch _ _
          (Safe-then _ _ (connect_mongodb_exporter-Emits w (layers may))
            λ _. connect_pbm_agent-Emits w (layers may))
          not_connected-Emits

  not_prepared-Emits : (e : Error) → Emits P (not_prepared e)
  not_prepared-Emits path_error = Safe-then _ _ (Emits-tell _ (may _ tt)) λ _. Emits-pure _
  not_prepared-Emits protocol_error = Safe-then _ _ (Emits-tell _ (may _ tt)) λ _. Emits-pure _
  not_prepared-Emits missing_secret = Safe-then _ _ (Emits-tell _ (may _ tt)) λ _. Emits-pure _
  not_prepared-Emits e = Safe-raise _

  pub on_mongod_pebble_ready-Emits : Emits P (on_mongod_pebble_ready w)
  unfolding on_mongod_pebble_ready
  on_mongod_pebble_ready-Emits = Safe-then _ _ (Emits-call _ _ (may _ tt)) λ reachable.
      Emits-if _ _ _ (Emits-tell _ (may _ tt)) (
        Safe-then _ _
          (Safe-catch _ _ (Safe-then _ _ prepare_workload-Emits λ _. Emits-pure _)
            not_prepared-Emits)
          λ prepared. Emits-if _ _ _ (Emits-pure tt) start_workload-Emits)

  -- The replica set is initialised by a leader.
  module _ (laws : Retries w) where
    pub local_is_ready-Emits :
        (otherwise : Exec ⊤) → Emits P otherwise → Emits P (local_is_ready w otherwise)
    unfolding local_is_ready
    local_is_ready-Emits otherwise k = Safe-then _ _ (mongodb_config-Emits w) λ config.
        with_connection-Safe w config _ _ _ (λ conn. may _ tt)
          λ conn.
            Safe-then _ _ (is_ready-Emits w conn laws (may _ tt))
              λ ready. Safe-then _ _ (Emits-when _ _ k) λ _. Emits-pure _

  exporter_failed-Emits : (e : Error) → Emits P (exporter_failed e)
  exporter_failed-Emits change_error = Safe-then _ _ (Emits-tell _ (may _ tt)) λ _. Emits-pure _
  exporter_failed-Emits e = Safe-raise _

module _ {P : Call → Type 0} {Leads : Type 0} (w : World) (laws : Retries w)
    (works : Works w Leads P) where
  -- What a leader does on the first start.
  abbrev pub Initialises : Type 0
  Initialises =
      Leads
      → (event : Event) (config : MongodbConfiguration) (direct : Connection)
      → Emits P (initialise_on w event config direct)

  initialise_replica_set-Emits :
      (event : Event) → Initialises → Emits P (initialise_replica_set w event)
  unfolding initialise_replica_set
  initialise_replica_set-Emits event leader = Safe-then _ _ (db_initialised-Emits w) λ initialised.
      Emits-if _ _ _ (Emits-pure tt) (
        Emits-leader w _ works
          (λ leads. Safe-then _ _ (mongodb_config-Emits w) λ config.
            with_connection-Safe w config _ _ _ (λ conn. works.may _ tt)
              (leader leads event config))
          (Emits-pure tt))

  start_unit-Emits : (event : Event) → Initialises → Emits P (start_unit w event)
  unfolding start_unit
  start_unit-Emits event leader =
      Safe-then _ _
        (Safe-catch _ _
          (Safe-then _ _ (connect_mongodb_exporter-Emits w (layers works.may)) λ _. Emits-pure _)
          (exporter_failed-Emits w works.may))
        λ connected. Emits-if _ _ _ (Emits-pure tt) (
          Safe-then _ _ (initialise_replica_set-Emits event leader)
            λ _. Emits-tell _ (works.may _ tt))

  pub on_start-Emits : Initialises → Emits P (on_start w)
  unfolding on_start
  on_start-Emits leader = Safe-then _ _ (Emits-call _ _ (works.may _ tt)) λ reachable.
      Emits-if _ _ _ (Emits-tell _ (works.may _ tt)) (
        Safe-then _ _ (Emits-call _ _ (works.may _ tt)) λ listening.
          Emits-if _ _ _ (Emits-tell _ (works.may _ tt)) (
            Safe-then _ _ (local_is_ready-Emits w works.may laws _ (Emits-tell _ (works.may _ tt)))
              λ ready. Emits-if _ _ _ (Emits-pure tt) (start_unit-Emits plain leader)))
