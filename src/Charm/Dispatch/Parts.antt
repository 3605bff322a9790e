-- ===== src/Charm/Dispatch/Parts.antt =====
-- The calls of the handler of any event, from those of the parts that only a leader runs.
use mongodb_k8s_operator.Prelude.{ℕ, String, Option, none}
use mongodb_k8s_operator.Core.Error.{Error}
use mongodb_k8s_operator.Core.Call.{
  Call, app, unit, mongo, close, get_status, sleep, peer_set, Connection,
}
use mongodb_k8s_operator.Mongodb.Configuration.{MongodbConfiguration}
use mongodb_k8s_operator.Charm.Lifecycle.{initialise_on}
use mongodb_k8s_operator.Core.Event.{
  Event, plain, peer_departed, relation_joined, relation_changed, relation_broken,
}
use mongodb_k8s_operator.Core.World.{World}
use mongodb_k8s_operator.Core.Safe.{
  Emits, Safe-then, Safe-weaken, Safe-catch, Safe-raise, Emits-asks, Emits-if, Emits-pure,
  Emits-tell,
}
use mongodb_k8s_operator.Core.Retry.{Retries}
use mongodb_k8s_operator.Charm.Secrets.Calls.{AllowsSecrets}
use mongodb_k8s_operator.Charm.Services.Calls.{db_initialised-Emits}
use mongodb_k8s_operator.Charm.Reconcile.{reconcile_as_leader}
use mongodb_k8s_operator.Charm.Reconcile.Follower.{any_secret-Emits}
use mongodb_k8s_operator.Charm.Lifecycle.Calls.{StopMay, on_stop-Emits}
use mongodb_k8s_operator.Charm.Actions.{on_set_password, set_password_of}
use mongodb_k8s_operator.Provider.Users.{
  on_relation_event, oversee_users, defer_pymongo, departed_relation,
}
use mongodb_k8s_operator.Backups.Actions.Calls.{backup_actions-Emits}
use mongodb_k8s_operator.Charm.Dispatch.{
  Occurrence, handler, mongod_pebble_ready, start, update_status, leader_elected, stop,
  peers_joined, peers_changed, peers_departed, get_password_action, set_password_action,
  secret_remove, secret_changed, client_joined, client_changed, client_broken,
  set_tls_private_key_action, certificates_joined, certificates_broken, certificate_available,
  certificate_expiring, s3_credentials_changed, create_backup_action, list_backups_action,
  restore_action,
}
use mongodb_k8s_operator.Charm.Dispatch.Work.{Works, Emits-leader, layers}
use mongodb_k8s_operator.Charm.Dispatch.Workload.{on_mongod_pebble_ready-Emits, on_start-Emits}
use mongodb_k8s_operator.Charm.Dispatch.Certificates.{
  on_tls_relation_joined-Emits, on_tls_relation_broken-Emits, on_set_tls_private_key-Emits,
  on_certificate_available-Emits, on_certificate_expiring-Emits,
}
use mongodb_k8s_operator.Charm.Dispatch.Backups.{of_action, on_s3_credential_changed-Emits}
use mongodb_k8s_operator.Charm.Dispatch.Handlers.{
  get_user-Emits, on_get_password-Emits, relation_changes-Works, on_update_status-Emits,
}

-- What only a leader does.
pub record LeaderParts (w : World) (Leads : Type 0) (P : Call → Type 0) : Type 0 where
  pub secrets : Leads → AllowsSecrets P app
  pub initialises :
      Leads
      → (event : Event) (config : MongodbConfiguration) (direct : Connection)
      → Emits P (initialise_on w event config direct)
  pub reconciles : Leads → (event : Event) → Emits P (reconcile_as_leader w event)
  pub sets_password :
      Leads → (user password : Option String) → Emits P (set_password_of w user password)
  pub oversees :
      Leads → (departed : Option ℕ) (event : Event) → Emits P (oversee_users w departed event)

module _ {P : Call → Type 0} {Leads : Type 0} (w : World) (laws : Retries w)
    (works : Works w Leads P) (parts : LeaderParts w Leads P) where
  of_stop : (c : Call) → StopMay c → P c
  of_stop (mongo conn get_status) h = works.may _ tt
  of_stop (close conn) h = works.may _ tt
  of_stop (sleep seconds) h = works.may _ tt
  of_stop (peer_set unit key value) h = works.may _ tt
  of_stop c h = absurd h

  on_set_password-Emits :
      (username password : Option String) → Emits P (on_set_password w username password)
  unfolding on_set_password
  on_set_password-Emits username password =
      Emits-leader w _ works
        (λ leads.
          Safe-then _ _ (get_user-Emits w laws works.may username _)
            λ user. parts.sets_password leads user password)
        (Emits-tell _ (works.may _ tt))

  defer_pymongo-Emits : (e : Error) → Emits P (defer_pymongo e)
  defer_pymongo-Emits e = Emits-if _ _ _ (Emits-tell _ (works.may _ tt)) (Safe-raise _)

  on_relation_event-Emits : (event : Event) → Emits P (on_relation_event w event)
  unfolding on_relation_event
  on_relation_event-Emits event =
      Emits-leader w _ works
        (λ leads. Safe-then _ _ (db_initialised-Emits w) λ initialised.
          Emits-if _ _ _ (Emits-pure tt) (
            Safe-then _ _ (Emits-asks _) λ legacy. Emits-if _ _ _ (Emits-tell _ (works.may _ tt)) (
              Safe-then _ _ (Emits-pure tt) λ _.
                Safe-catch _ _ (parts.oversees leads (departed_relation event) event)
                  defer_pymongo-Emits)))
        (Emits-pure tt)

  pub handler-Emits : (e : Occurrence) → Emits P (handler w e)
  unfolding handler
  handler-Emits mongod_pebble_ready = on_mongod_pebble_ready-Emits w works.may
  handler-Emits start = on_start-Emits w laws works parts.initialises
  handler-Emits update_status = on_update_status-Emits w laws works parts.reconciles
  handler-Emits leader_elected = relation_changes-Works w laws works parts.reconciles plain
  handler-Emits stop = Safe-weaken of_stop (on_stop-Emits w)
  handler-Emits peers_joined = relation_changes-Works w laws works parts.reconciles plain
  handler-Emits peers_changed = relation_changes-Works w laws works parts.reconciles plain
  handler-Emits (peers_departed departing other) =
      relation_changes-Works w laws works parts.reconciles (peer_departed departing other)
  handler-Emits (get_password_action username) = on_get_password-Emits w laws works.may username
  handler-Emits (set_password_action username password) = on_set_password-Emits username password
  handler-Emits (secret_remove secret_id) = Emits-pure tt
  handler-Emits (secret_changed secret_id) = any_secret-Emits w secret_id (layers works.may)
  handler-Emits (client_joined relation) = on_relation_event-Emits (relation_joined relation)
  handler-Emits (client_changed relation) = on_relation_event-Emits (relation_changed relation)
  handler-Emits (client_broken relation) = on_relation_event-Emits (relation_broken relation)
  handler-Emits (set_tls_private_key_action external internal) =
      on_set_tls_private_key-Emits w works parts.secrets external internal
  handler-Emits certificates_joined = on_tls_relation_joined-Emits w works parts.secrets
  handler-Emits certificates_broken = on_tls_relation_broken-Emits w works parts.secrets
  handler-Emits (certificate_available certificate) =
      on_certificate_available-Emits w works parts.secrets certificate
  handler-Emits (certificate_expiring certificate) =
      on_certificate_expiring-Emits w works parts.secrets certificate
  handler-Emits s3_credentials_changed = on_s3_credential_changed-Emits w laws works.may
  handler-Emits create_backup_action =
      Safe-weaken (of_action w laws works.may) (backup_actions-Emits w none).0
  handler-Emits list_backups_action =
      Safe-weaken (of_action w laws works.may) (backup_actions-Emits w none).1
  handler-Emits (restore_action backup_id) =
      Safe-weaken (of_action w laws works.may) (backup_actions-Emits w backup_id).2
