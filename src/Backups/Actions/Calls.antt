-- ===== src/Backups/Actions/Calls.antt =====
-- The calls of the actions on backups.
use mongodb_k8s_operator.Prelude.{String, Option, ◌∷◌, ◌≡◌}
use mongodb_k8s_operator.Core.Error.{Error, model_error, exec_error, called_process_error}
use mongodb_k8s_operator.Core.Call.{
  Call, Status, active, waiting, blocked, maintenance, exec, wait_output, get_service, set_status,
  defer, fail,
}
use mongodb_k8s_operator.Core.World.{World}
use mongodb_k8s_operator.Core.Safe.{
  emits_rules, Emits, Safe-raise, Emits-pure, Emits-tell, Emits-call,
}
use mongodb_k8s_operator.Config.{pbm_path}
use mongodb_k8s_operator.Charm.Configs.Calls.{backup_config-Emits}
use mongodb_k8s_operator.Charm.Services.{get_backup_service, run_pbm_command}
use mongodb_k8s_operator.Backups.Pbm.{
  pbm_status_cmd, failed_status, no_service, has_service, status_of_pbm, get_pbm_status,
}
use mongodb_k8s_operator.Backups.Actions.{
  create_refused, list_refused, restore_refused, with_pbm_status, on_create_backup_action,
  on_list_backups_action, on_restore_action,
}

-- The status command of PBM, a look at its service, and answers.
abbrev pub ActionMay : Call → Type 0
ActionMay (exec command environment stdin) = command ≡ pbm_path ∷ pbm_status_cmd
ActionMay wait_output = Unit
ActionMay (get_service name) = Unit
ActionMay (set_status status) = Unit
ActionMay defer = Unit
ActionMay (fail message) = Unit
ActionMay c = ⊥

no_service-Emits : (e : Error) → Emits ActionMay (no_service e)
no_service-Emits model_error = Emits-pure _
no_service-Emits e = Safe-raise _

failed_status-Emits : (e : Error) → Emits ActionMay (failed_status e)
failed_status-Emits (exec_error stdout) = Emits-pure _
failed_status-Emits (called_process_error output) = Emits-pure _
failed_status-Emits e = Emits-pure _

create_refused-Emits : (status : Status) → Emits ActionMay (create_refused status)
create_refused-Emits (maintenance message) = Emits-tell _ tt
create_refused-Emits (waiting message) = Emits-tell _ tt
create_refused-Emits (blocked message) = Emits-tell _ tt
create_refused-Emits (active message) = Emits-pure tt

list_refused-Emits : (status : Status) → Emits ActionMay (list_refused status)
list_refused-Emits (waiting message) = Emits-tell _ tt
list_refused-Emits (blocked message) = Emits-tell _ tt
list_refused-Emits (maintenance message) = Emits-pure tt
list_refused-Emits (active message) = Emits-pure tt

restore_refused-Emits : (status : Status) → Emits ActionMay (restore_refused status)
restore_refused-Emits (maintenance message) = Emits-tell _ tt
restore_refused-Emits (waiting message) = Emits-tell _ tt
restore_refused-Emits (blocked message) = Emits-tell _ tt
restore_refused-Emits (active message) = Emits-pure tt

module _ (w : World) where
  pub has_service-Emits : Emits ActionMay (has_service w)
  unfolding has_service get_backup_service
  has_service-Emits = search (emits_rules, Emits-call, no_service-Emits) depth 8

  status_of_pbm-Emits : Emits ActionMay (status_of_pbm w)
  unfolding status_of_pbm run_pbm_command
  status_of_pbm-Emits = search (emits_rules, Emits-call, backup_config-Emits) depth 14

  pub get_pbm_status-Emits : Emits ActionMay (get_pbm_status w)
  unfolding get_pbm_status
  get_pbm_status-Emits =
      search (emits_rules, has_service-Emits, status_of_pbm-Emits, failed_status-Emits) depth 9

  -- The actions on backups run no command of PBM but the one for its status, send mongod nothing, and
  -- write no secret and no data: a backup is neither made nor restored by them.
  pub backup_actions-Emits :
      (backup_id : Option String)
      → Emits ActionMay (on_create_backup_action w)
        × Emits ActionMay (on_list_backups_action w)
        × Emits ActionMay (on_restore_action w backup_id)
  unfolding on_create_backup_action on_list_backups_action on_restore_action with_pbm_status
  backup_actions-Emits backup_id = (
    search (emits_rules, Emits-tell, get_pbm_status-Emits, create_refused-Emits) depth 16,
    search (emits_rules, Emits-tell, get_pbm_status-Emits, list_refused-Emits) depth 16,
    search (emits_rules, Emits-tell, get_pbm_status-Emits, restore_refused-Emits) depth 20,
  )
