-- ===== src/Charm/Workload.antt =====
-- `_on_mongod_pebble_ready`: the files of the workload container, and its first layer (src/charm.py).
use mongodb_k8s_operator.Prelude.{
  String, Bool, true, false, not, ◌||◌, List, [], ◌∷◌, none, ◌==◌, if◌then◌else◌,
}
use mongodb_k8s_operator.Text.{concat}
use mongodb_k8s_operator.Core.Error.{
  Error, path_error, protocol_error, missing_secret, file_exists, assertion_error,
}
use mongodb_k8s_operator.Core.Call.{
  FileInfo, can_connect, exec, list_files, pull, create_file, add_layer, replan, defer,
}
use mongodb_k8s_operator.Core.World.{World, Exec}
use mongodb_k8s_operator.Core.Exec.{
  ⊤, pure, raise, catch, call, ask, tell, when, for_each, ◌>>=◌, ◌>>◌,
}
use mongodb_k8s_operator.Config.{data_dir, unix_user, unix_group, service_name}
use mongodb_k8s_operator.Charm.Services.{
  do_pebble, mongod_layer, connect_mongodb_exporter, connect_pbm_agent, push_keyfile_to_workload,
  push_tls_certificate_to_workload,
}

abbrev pub licenses : List String
licenses = "snap" ∷ "rock" ∷ "mongodb-exporter" ∷ "percona-backup-mongodb" ∷ "percona-server" ∷ []

-- `Config.get_license_path`
abbrev pub get_license_path : String → String
get_license_path license_name = concat ("/licenses/LICENSE" ∷ "-" ∷ license_name ∷ [])

-- `except FileExistsError`
abbrev pub license_there : Error → Exec ⊤
license_there file_exists = pure tt
license_there e = raise e

-- `except (PathError, ProtocolError, MissingSecretError)`; false if the handler ends there.
abbrev pub not_prepared : Error → Exec Bool
not_prepared path_error = tell defer >> pure false
not_prepared protocol_error = tell defer >> pure false
not_prepared missing_secret = tell defer >> pure false
not_prepared e = raise e

-- `except MissingSecretError`
abbrev pub not_connected : Error → Exec ⊤
not_connected missing_secret = tell defer
not_connected e = raise e

abbrev pub is_foreign : FileInfo → Bool
is_foreign info = not (info.user == unix_user) || not (info.group == unix_group)

module _ (w : World) where
  unfoldable pub pull_license : String → Exec ⊤
  pull_license license_name =
      catch
        (do_pebble w (pull (get_license_path license_name))
          >> call (create_file "LICENSE") w.local_file)
        license_there

  -- `_pull_licenses`
  unfoldable pub pull_licenses : Exec ⊤
  unfolding pull_license
  pull_licenses = for_each licenses pull_license

  -- `list_files` gives the directory itself, and nothing else.
  unfoldable pub own_directory : List FileInfo → Exec ⊤
  own_directory [] = raise assertion_error
  own_directory (info ∷ []) = when (is_foreign info) (
      do_pebble w (
        exec ("chown" ∷ concat (unix_user ∷ ":" ∷ unix_group ∷ []) ∷ "-R" ∷ data_dir ∷ []) [] none))
  own_directory (info ∷ other ∷ infos) = raise assertion_error

  -- `_set_data_dir_permissions`
  unfoldable pub set_data_dir_permissions : Exec ⊤
  unfolding own_directory
  set_data_dir_permissions = do infos ← call (list_files data_dir) w.file_infos; own_directory infos

  unfoldable pub prepare_workload : Exec ⊤
  prepare_workload = do
    push_tls_certificate_to_workload w
    push_keyfile_to_workload w
    pull_licenses
    set_data_dir_permissions

  unfoldable pub start_workload : Exec ⊤
  start_workload = do
    layer ← mongod_layer w
    do_pebble w (add_layer "mongod" service_name layer)
    do_pebble w replan
    catch (connect_mongodb_exporter w >> connect_pbm_agent w) not_connected

  unfoldable pub on_mongod_pebble_ready : Exec ⊤
  on_mongod_pebble_ready = do
    reachable ← ask can_connect w.answers
    if not reachable then tell defer else do
      prepared ← catch (prepare_workload >> pure true) not_prepared
      if not prepared then pure tt else start_workload
