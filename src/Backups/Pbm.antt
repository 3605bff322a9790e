-- ===== src/Backups/Pbm.antt =====
-- Configuring PBM, waiting for it, and its status.
use mongodb_k8s_operator.Prelude.{String, Bool, true, false, List, [], ◌∷◌, if◌then◌else◌}
use mongodb_k8s_operator.Text.{concat, occurs}
use mongodb_k8s_operator.Core.Error.{
  Error, model_error, exec_error, called_process_error, set_pbm_config, resync, pbm_busy,
  snap_error,
}
use mongodb_k8s_operator.Core.Call.{
  Status, active, waiting, blocked, maintenance, set_status, defer, sleep,
}
use mongodb_k8s_operator.Core.World.{World, Exec, after_attempt}
use mongodb_k8s_operator.Core.Exec.{⊤, pure, raise, lift, catch, asks, tell, for_each, ◌>>=◌, ◌>>◌}
use mongodb_k8s_operator.Helpers.Pbm.{process_pbm_error, process_pbm_status, current_pbm_op}
use mongodb_k8s_operator.Charm.Services.{
  get_backup_service, run_pbm_command, set_pbm_config_file, start_backup_service,
  restart_backup_service,
}
use mongodb_k8s_operator.Backups.Options.{get_pbm_configs}

abbrev pub pbm_status_cmd : List String
pbm_status_cmd = "status" ∷ "-o" ∷ "json" ∷ []

-- The `except` clauses around the status command.
abbrev pub failed_status : Error → Exec Status
failed_status (exec_error stdout) = pure (blocked (process_pbm_error stdout))
failed_status (called_process_error output) = pure (blocked (process_pbm_error output))
failed_status e = pure (blocked "PBM error")

-- `except ModelError`
abbrev pub no_service : Error → Exec Bool
no_service model_error = pure false
no_service e = raise e

-- `except (subprocess.CalledProcessError, ExecError)`
abbrev pub option_failed : Error → Exec ⊤
option_failed (exec_error stdout) = raise set_pbm_config
option_failed (called_process_error output) = raise set_pbm_config
option_failed e = raise e

-- `except ExecError` in `_wait_pbm_status`.
abbrev pub status_failed : Error → Exec ⊤
status_failed (exec_error stdout) = tell (set_status (blocked (process_pbm_error stdout)))
status_failed e = raise e

abbrev pub is_resync : Error → Bool
is_resync resync = true
is_resync e = false

abbrev pub sync_message : String
sync_message = "waiting to sync s3 configurations."

-- The `except` clauses of `_configure_pbm_options`; false if the clause returns.
abbrev pub configuration_failed : Error → Exec Bool
configuration_failed set_pbm_config =
    tell (set_status (blocked "couldn't configure s3 backup options.")) >> pure false
configuration_failed snap_error = tell (set_status (blocked "couldn't start pbm")) >> pure false
configuration_failed resync = tell (set_status (waiting sync_message)) >> tell defer >> pure false
configuration_failed pbm_busy = tell (set_status (waiting sync_message)) >> tell defer >> pure false
configuration_failed (exec_error stdout) =
    tell (set_status (blocked (process_pbm_error stdout))) >> pure false
configuration_failed (called_process_error output) = pure true
configuration_failed e = raise e

module _ (w : World) where
  -- `get_backup_service` did not raise `ModelError`.
  unfoldable pub has_service : Exec Bool
  has_service = catch (get_backup_service w >> pure true) no_service

  unfoldable pub status_of_pbm : Exec Status
  status_of_pbm = do
    pbm_status ← run_pbm_command w pbm_status_cmd
    lift (process_pbm_status pbm_status)

  -- `_get_pbm_status`
  unfoldable pub get_pbm_status : Exec Status
  get_pbm_status = do
    found ← has_service
    if found then catch status_of_pbm failed_status else pure (waiting "waiting for pbm to start")

  unfoldable pub set_option : String × String → Exec ⊤
  set_option option =
      catch
        (run_pbm_command w ("config" ∷ "--set" ∷ concat (option.0 ∷ "=" ∷ option.1 ∷ []) ∷ [])
          >> pure tt)
        option_failed

  -- `_set_config_options`
  unfoldable pub set_config_options : Exec ⊤
  set_config_options = do
    set_pbm_config_file w
    credentials ← asks w.s3_info
    for_each (get_pbm_configs credentials) set_option

  -- A backup or a restore, or a resync, must end first; a resync is ended by a restart.
  unfoldable pub busy_check : Status → Exec ⊤
  busy_check (maintenance message) = raise pbm_busy
  busy_check (waiting message) = do restart_backup_service w; raise pbm_busy
  busy_check (active message) = pure tt
  busy_check (blocked message) = pure tt

  unfoldable pub wait_until_idle : Exec ⊤
  wait_until_idle = do status ← get_pbm_status; busy_check status

  unfoldable pub report_resync : Exec ⊤
  report_resync = do
    pbm_status ← run_pbm_command w pbm_status_cmd
    op ← lift (current_pbm_op pbm_status)
    if occurs "Resync" op then tell (set_status (waiting sync_message)) >> raise resync else pure tt

  -- One attempt of the loop in `_wait_pbm_status`.
  unfoldable pub wait_attempt : Exec ⊤
  wait_attempt = catch report_resync status_failed

  -- `_wait_pbm_status`
  unfoldable pub wait_pbm_status : Exec ⊤
  wait_pbm_status =
      w.retry (after_attempt 20) true is_resync
        (w.retry (after_attempt 3) true (λ _. true) wait_attempt)

  -- `_resync_config_options`
  unfoldable pub resync_config_options : Exec ⊤
  resync_config_options = do
    start_backup_service w
    w.retry (after_attempt 20) true (λ _. true) wait_until_idle
    run_pbm_command w ("config" ∷ "--force-resync" ∷ [])
    tell (sleep 2)
    wait_pbm_status

  -- `_configure_pbm_options`
  unfoldable pub configure_pbm_options : Exec ⊤
  configure_pbm_options = do
    proceed ← catch (set_config_options >> resync_config_options >> pure true) configuration_failed
    if proceed then (do status ← get_pbm_status; tell (set_status status)) else pure tt
