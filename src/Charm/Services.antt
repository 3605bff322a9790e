-- ===== src/Charm/Services.antt =====
-- The services of the workload container, and its files.
pub mod Calls
use mongodb_k8s_operator.Prelude.{
  String, Bool, true, false, not, ◌&&◌, Option, none, some, List, [], ◌∷◌, ◌==◌, if◌then◌else◌,
}
use mongodb_k8s_operator.Text.{append}
use mongodb_k8s_operator.Core.Error.{Error, ok, missing_secret, path_error, exec_error}
use mongodb_k8s_operator.Core.Call.{
  app, unit, Content, Service, Call, can_connect, get_plan, add_layer, replan, stop, start, restart,
  get_service, push, remove_path, exec, wait_output, set_status, blocked,
}
use mongodb_k8s_operator.Core.World.{World, Exec}
use mongodb_k8s_operator.Core.Exec.{
  ⊤, pure, raise, lift, catch, call, ask, tell, for_each, filled, ◌>>=◌, ◌>>◌,
}
use mongodb_k8s_operator.Core.Dict.{lookup}
use mongodb_k8s_operator.Config.{
  service_name, unix_user, unix_group, conf_file, backup_service_name, pbm_path,
  pbm_config_file_path, ext_pem_file, ext_ca_file, int_pem_file, int_ca_file, key_file_name,
  secret_keyfile_name,
}
use mongodb_k8s_operator.Users.{monitor_user, backup_user}
use mongodb_k8s_operator.Mongodb.Configuration.{uri}
use mongodb_k8s_operator.Helpers.Args.{get_mongod_args}
use mongodb_k8s_operator.Helpers.Pbm.{process_pbm_error}
use mongodb_k8s_operator.Charm.PeerData.{db_initialised}
use mongodb_k8s_operator.Charm.Secrets.{get_secret}
use mongodb_k8s_operator.Charm.Configs.{mongodb_config, monitor_config, backup_config}
use mongodb_k8s_operator.Tls.Files.{get_tls_files}

abbrev pub charm_service : String → String → Content → Service
charm_service summary command environment = record {
  override = "replace";
  summary = summary;
  command = command;
  startup = "enabled";
  user = unix_user;
  group = unix_group;
  environment = environment;
}

abbrev same_text : Option String → String → Bool
same_text none value = false
same_text (some other) value = other == value

pub entries_in : Content → Content → Bool
entries_in [] d = true
entries_in ((k, v) ∷ entries) d = same_text (lookup k d) v && entries_in entries d

-- Equality of a service of the plan and a new one.
unfoldable pub same_service : Option Service → Service → Bool
unfolding entries_in
same_service none new = false
same_service (some a) b =
    a.override == b.override
    && a.summary == b.summary
    && a.command == b.command
    && a.startup == b.startup
    && a.user == b.user
    && a.group == b.group
    && entries_in a.environment b.environment
    && entries_in b.environment a.environment

abbrev pub ignore_path_error : Error → Exec ⊤
ignore_path_error path_error = pure tt
ignore_path_error e = raise e

abbrev pub pbm_config_failed : Error → Exec ⊤
pbm_config_failed (exec_error output) = tell (set_status (blocked (process_pbm_error output)))
pbm_config_failed e = raise e

module _ (w : World) where
  abbrev pub do_pebble : Call → Exec ⊤
  do_pebble c = call c w.pebble

  unfoldable pub mongod_layer : Exec Service
  mongod_layer = do
    config ← mongodb_config w
    pure (charm_service "mongod" (append "mongod " (get_mongod_args config true false)) [])

  unfoldable pub monitor_layer : Exec Service
  monitor_layer = do
    config ← monitor_config w
    address ← lift (uri w config)
    pure (
        charm_service "mongodb_exporter"
          "mongodb_exporter --collector.diagnosticdata --compatible-mode"
          (("MONGODB_URI", address) ∷ []))

  unfoldable pub backup_layer : Exec Service
  backup_layer = do
    config ← backup_config w
    address ← lift (uri w config)
    pure (charm_service "pbm" "pbm-agent" (("PBM_MONGODB_URI", address) ∷ []))

  -- The layer is computed once for the comparison, and again to be added.
  update_service : String → Option Service → Service → Exec Service → Exec ⊤
  update_service name current new layer =
      if same_service current new
      then pure tt
      else do again ← layer; do_pebble (add_layer name name again); do_pebble replan

  -- What `_connect_mongodb_exporter` and `_connect_pbm_agent` have in common.
  unfoldable pub connect_service : String → String → Exec Service → Exec ⊤
  unfolding update_service
  connect_service name password_key layer = do
    reachable ← ask can_connect w.answers
    if not reachable then pure tt else do
      initialised ← db_initialised w
      if not initialised then pure tt else do
        password ← get_secret w app password_key
        if not (filled password) then pure tt else do
          current ← call (get_plan name) (λ t. ok (w.service t))
          new ← layer
          update_service name current new layer

  unfoldable pub connect_mongodb_exporter : Exec ⊤
  connect_mongodb_exporter =
      connect_service "mongodb_exporter" monitor_user.password_key_name monitor_layer

  unfoldable pub connect_pbm_agent : Exec ⊤
  connect_pbm_agent = connect_service backup_service_name backup_user.password_key_name backup_layer

  unfoldable pub restart_mongod_service : Exec ⊤
  restart_mongod_service = do
    do_pebble (stop service_name)
    layer ← mongod_layer
    do_pebble (add_layer "mongod" service_name layer)
    do_pebble replan
    connect_mongodb_exporter
    connect_pbm_agent

  unfoldable pub push_keyfile : Option String → Exec ⊤
  push_keyfile none = raise missing_secret
  push_keyfile (some keyfile) =
      if filled (some keyfile)
      then do_pebble (push (conf_file key_file_name) keyfile)
      else raise missing_secret

  unfoldable pub push_keyfile_to_workload : Exec ⊤
  unfolding push_keyfile
  push_keyfile_to_workload = do keyfile ← get_secret w app secret_keyfile_name; push_keyfile keyfile

  unfoldable pub push_if_some : String → Option String → Exec ⊤
  push_if_some file none = pure tt
  push_if_some file (some content) = do_pebble (push (conf_file file) content)

  unfoldable pub push_tls_certificate_to_workload : Exec ⊤
  unfolding push_if_some
  push_tls_certificate_to_workload = do
    external ← get_tls_files w unit
    push_if_some ext_ca_file external.0
    push_if_some ext_pem_file external.1
    internal ← get_tls_files w app
    push_if_some int_ca_file internal.0
    push_if_some int_pem_file internal.1

  unfoldable pub delete_tls_certificate_from_workload : Exec ⊤
  delete_tls_certificate_from_workload =
      for_each (ext_ca_file ∷ ext_pem_file ∷ int_ca_file ∷ int_pem_file ∷ [])
        λ file. catch (do_pebble (remove_path (conf_file file))) ignore_path_error

  unfoldable pub get_backup_service : Exec ⊤
  get_backup_service = do_pebble (get_service backup_service_name)

  unfoldable pub run_pbm_command : List String → Exec String
  run_pbm_command cmd = do
    config ← backup_config w
    address ← lift (uri w config)
    do_pebble (exec (pbm_path ∷ cmd) (("PBM_MONGODB_URI", address) ∷ []) none)
    call wait_output w.stdout

  unfoldable pub set_pbm_config_file : Exec ⊤
  set_pbm_config_file = do
    do_pebble (
        push pbm_config_file_path
          "# this file is to be left empty. Changes in this file will be ignored.\n")
    catch (run_pbm_command ("config" ∷ "--file" ∷ pbm_config_file_path ∷ []) >> pure tt)
        pbm_config_failed

  unfoldable pub start_backup_service : Exec ⊤
  start_backup_service = do_pebble (start backup_service_name)

  unfoldable pub restart_backup_service : Exec ⊤
  restart_backup_service = do_pebble (restart backup_service_name)
