-- ===== src/Charm/Dispatch.antt =====
-- Which handler runs on which event, as `__init__` of the charm and of its parts observe them.
pub mod Work
pub mod Workload
pub mod Backups
pub mod Handlers
pub mod Parts
pub mod Followers
pub mod Harmless
pub mod FirstStart
pub mod Invariant
pub mod Certificates
use mongodb_k8s_operator.Prelude.{ℕ, String, Option, none}
use mongodb_k8s_operator.Core.World.{World, State, Exec}
use mongodb_k8s_operator.Core.Event.{
  plain, peer_departed, relation_joined, relation_changed, relation_broken,
}
use mongodb_k8s_operator.Core.Exec.{⊤, pure}
use mongodb_k8s_operator.Charm.Workload.{on_mongod_pebble_ready}
use mongodb_k8s_operator.Charm.Lifecycle.{on_start, on_stop, on_update_status}
use mongodb_k8s_operator.Charm.Reconcile.{relation_changes_handler}
use mongodb_k8s_operator.Charm.Actions.{on_get_password, on_set_password, on_secret_changed}
use mongodb_k8s_operator.Provider.Users.{on_relation_event}
use mongodb_k8s_operator.Tls.Events.{
  Certificate, on_set_tls_private_key, on_tls_relation_joined, on_tls_relation_broken,
  on_certificate_available, on_certificate_expiring,
}
use mongodb_k8s_operator.Backups.Actions.{
  on_s3_credential_changed, on_create_backup_action, on_list_backups_action, on_restore_action,
}

-- The events that the charm observes, with what its handlers read of them.
pub data Occurrence : Type 0 where
  mongod_pebble_ready start update_status leader_elected stop : Occurrence
  -- the peer relation
  peers_joined peers_changed : Occurrence
  peers_departed : String → Option String → Occurrence
  -- the actions on passwords, by their parameters, and Juju's secrets, by their ids
  get_password_action : Option String → Occurrence
  set_password_action : Option String → Option String → Occurrence
  secret_remove secret_changed : String → Occurrence
  -- the client relations, by their ids
  client_joined client_changed client_broken : ℕ → Occurrence
  -- certificates
  set_tls_private_key_action : Option String → Option String → Occurrence
  certificates_joined certificates_broken : Occurrence
  certificate_available : Certificate → Occurrence
  certificate_expiring : String → Occurrence
  -- backups
  s3_credentials_changed create_backup_action list_backups_action : Occurrence
  restore_action : Option String → Occurrence

-- `self.secrets = {APP_SCOPE: {}, UNIT_SCOPE: {}}`: the charm is made anew for each event.
abbrev pub restarted : State → State
restarted s = record s {
  app_slot = record { secret = none; cache = none };
  unit_slot = record { secret = none; cache = none };
}

module _ (w : World) where
  -- It writes to the log only.
  abbrev pub on_secret_remove : String → Exec ⊤
  on_secret_remove secret_id = pure tt

  unfoldable pub handler : Occurrence → Exec ⊤
  handler mongod_pebble_ready = on_mongod_pebble_ready w
  handler start = on_start w
  handler update_status = on_update_status w
  handler leader_elected = relation_changes_handler w plain
  handler stop = on_stop w
  handler peers_joined = relation_changes_handler w plain
  handler peers_changed = relation_changes_handler w plain
  handler (peers_departed departing other) =
      relation_changes_handler w (peer_departed departing other)
  handler (get_password_action username) = on_get_password w username
  handler (set_password_action username password) = on_set_password w username password
  handler (secret_remove secret_id) = on_secret_remove secret_id
  handler (secret_changed secret_id) = on_secret_changed w secret_id
  handler (client_joined relation) = on_relation_event w (relation_joined relation)
  handler (client_changed relation) = on_relation_event w (relation_changed relation)
  handler (client_broken relation) = on_relation_event w (relation_broken relation)
  handler (set_tls_private_key_action external internal) =
      on_set_tls_private_key w external internal
  handler certificates_joined = on_tls_relation_joined w
  handler certificates_broken = on_tls_relation_broken w
  handler (certificate_available certificate) = on_certificate_available w certificate
  handler (certificate_expiring certificate) = on_certificate_expiring w certificate
  handler s3_credentials_changed = on_s3_credential_changed w
  handler create_backup_action = on_create_backup_action w
  handler list_backups_action = on_list_backups_action w
  handler (restore_action backup_id) = on_restore_action w backup_id

  -- One event: whether the handler returns or raises, its calls have been made.
  unfoldable pub process_event : Occurrence → State → State
  unfolding handler
  process_event e s = (handler e (restarted s)).1

  -- The states that events lead to, in whatever order they come; an event that was deferred comes
  -- again.
  pub data Reaches (s : State) : State → Type 0 where
    start_of : Reaches s s
    after : {t : State} (e : Occurrence) → Reaches s t → Reaches s (process_event e t)
