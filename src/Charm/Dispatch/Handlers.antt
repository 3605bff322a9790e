-- ===== src/Charm/Dispatch/Handlers.antt =====
-- The calls of the handlers of the actions on passwords, of the peer relation and of the unit's status.
use mongodb_k8s_operator.Prelude.{String, none, some, Option}
use mongodb_k8s_operator.Core.Error.{Error, server_selection_timeout, auto_reconnect}
use mongodb_k8s_operator.Core.Call.{Call, app}
use mongodb_k8s_operator.Core.Event.{Event, plain}
use mongodb_k8s_operator.Core.World.{World}
use mongodb_k8s_operator.Core.Safe.{
  Emits, Safe-then, Safe-raise, Safe-catch, Emits-pure, Emits-tell, Emits-if, Emits-lift,
  Emits-asks,
}
use mongodb_k8s_operator.Core.Retry.{Retries}
use mongodb_k8s_operator.Charm.Secrets.Calls.{get_secret-Emits}
use mongodb_k8s_operator.Charm.Configs.Calls.{hostname_for-Emits, mongodb_config-Emits}
use mongodb_k8s_operator.Mongodb.Calls.{with_connection-Safe, get_replset_status-Emits}
use mongodb_k8s_operator.Mongodb.Configuration.{MongodbConfiguration}
use mongodb_k8s_operator.Helpers.Status.{build_unit_status, no_primary}
use mongodb_k8s_operator.Charm.Reconcile.{reconcile_as_leader, relation_changes_handler}
use mongodb_k8s_operator.Charm.Reconcile.Calls.{note_departure-Emits}
use mongodb_k8s_operator.Charm.Services.Calls.{
  db_initialised-Emits, connect_mongodb_exporter-Emits, connect_pbm_agent-Emits,
}
use mongodb_k8s_operator.Charm.Actions.{on_get_password, get_password_of, get_user_or_fail_event}
use mongodb_k8s_operator.Charm.Lifecycle.{report_status, on_update_status}
use mongodb_k8s_operator.Charm.Dispatch.Backups.{pbm_status-Emits}
use mongodb_k8s_operator.Charm.Dispatch.Work.{UnitMay, Works, Emits-leader, layers}
use mongodb_k8s_operator.Charm.Dispatch.Workload.{local_is_ready-Emits}

module _ {P : Call → Type 0} (w : World) (laws : Retries w)
    (may : (c : Call) → UnitMay c → P c) where
  pub get_user-Emits :
      (username : Option String) (default : String)
      → Emits P (get_user_or_fail_event username default)
  unfolding get_user_or_fail_event
  get_user-Emits username default =
      Emits-if _ _ _ (Emits-pure _) (Safe-then _ _ (Emits-tell _ (may _ tt)) λ _. Emits-pure _)

  get_password_of-Emits : (user : Option String) → Emits P (get_password_of w user)
  unfolding get_password_of
  get_password_of-Emits none = Emits-pure tt
  get_password_of-Emits (some username) =
      Safe-then _ _ (Emits-lift _)
        λ key. Safe-then _ _ (get_secret-Emits w app key) λ password. Emits-tell _ (may _ tt)

  pub on_get_password-Emits : (username : Option String) → Emits P (on_get_password w username)
  unfolding on_get_password
  on_get_password-Emits username =
      Safe-then _ _ (get_user-Emits username _) λ user. get_password_of-Emits user

  no_primary-Emits : (e : Error) → Emits P (no_primary e)
  no_primary-Emits server_selection_timeout = Emits-pure _
  no_primary-Emits auto_reconnect = Emits-pure _
  no_primary-Emits e = Safe-raise _

  build_unit_status-Emits :
      (config : MongodbConfiguration) (own : String) → Emits P (build_unit_status w config own)
  unfolding build_unit_status
  build_unit_status-Emits config own =
      Safe-catch _ _
        (with_connection-Safe w config _ _ _ (λ conn. may _ tt)
          λ conn. Safe-then _ _ (get_replset_status-Emits w conn (may _ tt)) λ status. Emits-pure _)
        no_primary-Emits

  pub report_status-Emits : Emits P (report_status w)
  unfolding report_status
  report_status-Emits = Safe-then _ _ (mongodb_config-Emits w) λ config.
      Safe-then _ _ (hostname_for-Emits w _) λ own.
        Safe-then _ _ (build_unit_status-Emits config own) λ mongodb_status.
          Safe-then _ _ (pbm_status-Emits w laws may)
            λ pbm_status. Safe-then _ _ (Emits-asks _) λ related. Emits-tell _ (may _ tt)

module _ {P : Call → Type 0} {Leads : Type 0} (w : World) (laws : Retries w)
    (works : Works w Leads P)
    (reconciles : Leads → (event : Event) → Emits P (reconcile_as_leader w event)) where
  pub relation_changes-Works : (event : Event) → Emits P (relation_changes_handler w event)
  unfolding relation_changes_handler
  relation_changes-Works event =
      Safe-then _ _ (connect_mongodb_exporter-Emits w (layers works.may)) λ _.
        Safe-then _ _ (connect_pbm_agent-Emits w (layers works.may)) λ _.
          Safe-then _ _ (note_departure-Emits w (works.may _ tt) event)
            λ _. Emits-leader w _ works (λ leads. reconciles leads event) (Emits-pure tt)

  pub on_update_status-Emits : Emits P (on_update_status w)
  unfolding on_update_status
  on_update_status-Emits =
      let reported : Emits P (report_status w) = report_status-Emits w laws works.may in
      Safe-then _ _ (db_initialised-Emits w) λ initialised. Emits-if _ _ _ (Emits-pure tt) (
        Safe-then _ _ (local_is_ready-Emits w works.may laws _ (Emits-tell _ (works.may _ tt)))
          λ ready. Emits-if _ _ _ (Emits-pure tt) (
            Emits-leader w _ works
              (λ leads. Safe-then _ _ (relation_changes-Works plain) λ _. reported)
              (Safe-then _ _ (Emits-pure tt) λ _. reported)))
