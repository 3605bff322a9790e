-- ===== src/Backups/Actions.antt =====
-- The handlers: credentials that change, and the actions on backups.
pub mod Calls
use mongodb_k8s_operator.Prelude.{String, not, Option, [], ◌∷◌, if◌then◌else◌}
use mongodb_k8s_operator.Text.{concat}
use mongodb_k8s_operator.Core.Call.{
  Status, active, waiting, blocked, maintenance, set_status, defer, fail,
}
use mongodb_k8s_operator.Core.World.{World, Exec}
use mongodb_k8s_operator.Core.Exec.{⊤, pure, asks, tell, when, filled, ◌>>=◌, ◌>>◌}
use mongodb_k8s_operator.Charm.PeerData.{db_initialised}
use mongodb_k8s_operator.Backups.Pbm.{has_service, get_pbm_status, configure_pbm_options}

-- `S3_RELATION`
abbrev pub s3_relation : String
s3_relation = "s3-credentials"

-- The tests of the status in each action.
abbrev pub create_refused : Status → Exec ⊤
create_refused (maintenance message) =
    tell (fail "Can only create one backup at a time, please wait for current backup to finish.")
create_refused (waiting message) = tell defer
create_refused (blocked message) =
    tell (fail (concat ("Cannot create backup " ∷ message ∷ "." ∷ [])))
create_refused (active message) = pure tt

abbrev pub list_refused : Status → Exec ⊤
list_refused (waiting message) = tell defer
list_refused (blocked message) = tell (fail (concat ("Cannot list backups: " ∷ message ∷ "." ∷ [])))
list_refused (maintenance message) = pure tt
list_refused (active message) = pure tt

abbrev pub restore_refused : Status → Exec ⊤
restore_refused (maintenance message) =
    tell (fail "Please wait for current backup/restore to finish.")
restore_refused (waiting message) = tell defer
restore_refused (blocked message) =
    tell (fail (concat ("Cannot restore backup " ∷ message ∷ "." ∷ [])))
restore_refused (active message) = pure tt

module _ (w : World) where
  -- If the service is missing the event is deferred, and the code goes on.
  unfoldable pub on_s3_credential_changed : Exec ⊤
  on_s3_credential_changed = do
    initialised ← db_initialised w
    if not initialised
        then tell defer
        else do found ← has_service w; when (not found) (tell defer); configure_pbm_options w

  -- The status is shown, then tested.
  unfoldable pub with_pbm_status : (Status → Exec ⊤) → Exec ⊤
  with_pbm_status refused = do status ← get_pbm_status w; tell (set_status status); refused status

  unfoldable pub on_create_backup_action : Exec ⊤
  unfolding with_pbm_status
  on_create_backup_action = do
    related ← asks (λ t. w.has_relation t s3_relation)
    if not related
        then tell (fail "Relation with s3-integrator charm missing, cannot create backup.")
        else do
          leader ← asks w.is_leader
          if not leader
              then tell (fail "The action can be run only on leader unit.")
              else with_pbm_status create_refused

  unfoldable pub on_list_backups_action : Exec ⊤
  unfolding with_pbm_status
  on_list_backups_action = do
    related ← asks (λ t. w.has_relation t s3_relation)
    if not related
        then tell (fail "Relation with s3-integrator charm missing, cannot list backups.")
        else with_pbm_status list_refused

  -- `backup_id` is `event.params.get("backup-id")`.
  unfoldable pub on_restore_action : Option String → Exec ⊤
  unfolding with_pbm_status
  on_restore_action backup_id = do
    related ← asks (λ t. w.has_relation t s3_relation)
    if not related
        then tell (fail "Relation with s3-integrator charm missing, cannot restore from a backup.")
        else if not (filled backup_id)
        then tell (fail "Missing backup-id to restore")
        else do
          leader ← asks w.is_leader
          if not leader
              then tell (fail "The action can be run only on leader unit.")
              else with_pbm_status restore_refused
