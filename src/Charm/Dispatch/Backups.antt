-- ===== src/Charm/Dispatch/Backups.antt =====
-- The calls of the handlers of backups.
use mongodb_k8s_operator.Prelude.{String, refl, inl, true, false, List}
use mongodb_k8s_operator.Core.Error.{
  Error, exec_error, called_process_error, set_pbm_config, snap_error, resync, pbm_busy,
}
use mongodb_k8s_operator.Core.Call.{
  Call, Status, active, waiting, blocked, maintenance, exec, wait_output, get_service, set_status,
  defer, fail,
}
use mongodb_k8s_operator.Core.World.{World}
use mongodb_k8s_operator.Core.Safe.{
  Emits, Safe-then, Safe-raise, Safe-catch, Safe-weaken, Emits-pure, Emits-tell, Emits-call,
  Emits-for_all, Emits-if, Emits-lift, Emits-when, Emits-asks,
}
use mongodb_k8s_operator.Core.Retry.{Retries, Emits-retry}
use mongodb_k8s_operator.Charm.Configs.Calls.{backup_config-Emits}
use mongodb_k8s_operator.Charm.Services.{
  run_pbm_command, set_pbm_config_file, pbm_config_failed, start_backup_service,
  restart_backup_service,
}
use mongodb_k8s_operator.Charm.Services.Calls.{db_initialised-Emits}
use mongodb_k8s_operator.Backups.Pbm.{
  option_failed, status_failed, configuration_failed, get_pbm_status, set_option,
  set_config_options, busy_check, wait_until_idle, report_resync, wait_attempt, wait_pbm_status,
  resync_config_options, configure_pbm_options,
}
use mongodb_k8s_operator.Backups.Actions.{on_s3_credential_changed}
use mongodb_k8s_operator.Backups.Actions.Calls.{ActionMay, get_pbm_status-Emits, has_service-Emits}
use mongodb_k8s_operator.Charm.Dispatch.Work.{UnitMay}

module _ {P : Call → Type 0} (w : World) (laws : Retries w)
    (may : (c : Call) → UnitMay c → P c) where
  -- What the actions on backups may call, a unit may.
  pub of_action : (c : Call) → ActionMay c → P c
  of_action (exec command environment stdin) h = may _ (rw h (inl refl))
  of_action wait_output h = may _ tt
  of_action (get_service name) h = may _ tt
  of_action (set_status status) h = may _ tt
  of_action defer h = may _ tt
  of_action (fail message) h = may _ tt
  of_action c h = absurd h

  pub pbm_status-Emits : Emits P (get_pbm_status w)
  pbm_status-Emits = Safe-weaken of_action (get_pbm_status-Emits w)

  pbm_command-Emits : (cmd : List String) → Emits P (run_pbm_command w cmd)
  unfolding run_pbm_command
  pbm_command-Emits cmd = Safe-then _ _ (backup_config-Emits w) λ config.
      Safe-then _ _ (Emits-lift _)
        λ address. Safe-then _ _ (Emits-call _ _ (may _ (inl refl))) λ _. Emits-call _ _ (may _ tt)

  option_failed-Emits : (e : Error) → Emits P (option_failed e)
  option_failed-Emits (exec_error output) = Safe-raise _
  option_failed-Emits (called_process_error output) = Safe-raise _
  option_failed-Emits e = Safe-raise _

  pbm_config_failed-Emits : (e : Error) → Emits P (pbm_config_failed e)
  pbm_config_failed-Emits (exec_error output) = Emits-tell _ (may _ tt)
  pbm_config_failed-Emits e = Safe-raise _

  status_failed-Emits : (e : Error) → Emits P (status_failed e)
  status_failed-Emits (exec_error output) = Emits-tell _ (may _ tt)
  status_failed-Emits e = Safe-raise _

  set_config_options-Emits : Emits P (set_config_options w)
  unfolding set_config_options set_pbm_config_file set_option
  set_config_options-Emits =
      Safe-then _ _
        (Safe-then _ _ (Emits-call _ _ (may _ tt)) λ _.
          Safe-catch _ _ (Safe-then _ _ (pbm_command-Emits _) λ _. Emits-pure tt)
            pbm_config_failed-Emits)
        λ _. Safe-then _ _ (Emits-asks _) λ credentials. Emits-for_all _ _ λ option.
          Safe-catch _ _ (Safe-then _ _ (pbm_command-Emits _) λ _. Emits-pure tt)
            option_failed-Emits

  busy_check-Emits : (status : Status) → Emits P (busy_check w status)
  unfolding busy_check restart_backup_service
  busy_check-Emits (maintenance message) = Safe-raise _
  busy_check-Emits (waiting message) = Safe-then _ _ (Emits-call _ _ (may _ tt)) λ _. Safe-raise _
  busy_check-Emits (active message) = Emits-pure tt
  busy_check-Emits (blocked message) = Emits-pure tt

  wait_attempt-Emits : Emits P (wait_attempt w)
  unfolding wait_attempt report_resync
  wait_attempt-Emits =
      Safe-catch _ _
        (Safe-then _ _ (pbm_command-Emits _) λ status. Safe-then _ _ (Emits-lift _) λ op.
          Emits-if _ _ _ (Safe-then _ _ (Emits-tell _ (may _ tt)) λ _. Safe-raise _)
            (Emits-pure tt))
        status_failed-Emits

  resync_config_options-Emits : Emits P (resync_config_options w)
  unfolding resync_config_options start_backup_service wait_until_idle wait_pbm_status
  resync_config_options-Emits = Safe-then _ _ (Emits-call _ _ (may _ tt)) λ _.
      Safe-then _ _ (Emits-retry w laws _ _ _ _ (Safe-then _ _ pbm_status-Emits busy_check-Emits))
        λ _. Safe-then _ _ (pbm_command-Emits _) λ _.
          Safe-then _ _ (Emits-tell _ (may _ tt))
            λ _. Emits-retry w laws _ _ _ _ (Emits-retry w laws _ _ _ _ wait_attempt-Emits)

  configuration_failed-Emits : (e : Error) → Emits P (configuration_failed e)
  configuration_failed-Emits set_pbm_config =
      Safe-then _ _ (Emits-tell _ (may _ tt)) λ _. Emits-pure false
  configuration_failed-Emits snap_error =
      Safe-then _ _ (Emits-tell _ (may _ tt)) λ _. Emits-pure false
  configuration_failed-Emits resync =
      Safe-then _ _ (Safe-then _ _ (Emits-tell _ (may _ tt)) λ _. Emits-tell _ (may _ tt))
        λ _. Emits-pure false
  configuration_failed-Emits pbm_busy =
      Safe-then _ _ (Safe-then _ _ (Emits-tell _ (may _ tt)) λ _. Emits-tell _ (may _ tt))
        λ _. Emits-pure false
  configuration_failed-Emits (exec_error output) =
      Safe-then _ _ (Emits-tell _ (may _ tt)) λ _. Emits-pure false
  configuration_failed-Emits (called_process_error output) = Emits-pure true
  configuration_failed-Emits e = Safe-raise _

  configure_pbm_options-Emits : Emits P (configure_pbm_options w)
  unfolding configure_pbm_options
  configure_pbm_options-Emits =
      Safe-then _ _
        (Safe-catch _ _
          (Safe-then _ _ (Safe-then _ _ set_config_options-Emits λ _. resync_config_options-Emits)
            λ _. Emits-pure true)
          configuration_failed-Emits)
        λ proceed.
          Emits-if _ _ _ (Safe-then _ _ pbm_status-Emits λ status. Emits-tell _ (may _ tt))
            (Emits-pure tt)

  pub on_s3_credential_changed-Emits : Emits P (on_s3_credential_changed w)
  unfolding on_s3_credential_changed
  on_s3_credential_changed-Emits = Safe-then _ _ (db_initialised-Emits w) λ initialised.
      Emits-if _ _ _ (Emits-tell _ (may _ tt)) (
        Safe-then _ _ (Safe-weaken of_action (has_service-Emits w)) λ found.
          Safe-then _ _ (Emits-when _ _ (Emits-tell _ (may _ tt))) λ _. configure_pbm_options-Emits)
