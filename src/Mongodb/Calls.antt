-- ===== src/Mongodb/Calls.antt =====
-- Which calls the operations on mongod make, from what is allowed of each.
use mongodb_k8s_operator.Prelude.{String, Bool, true, false, Option, none, some}
use mongodb_k8s_operator.Core.Error.{Error, retry_error}
use mongodb_k8s_operator.Core.Call.{Call, Connection, mongo, close, ping, get_status}
use mongodb_k8s_operator.Core.World.{World, Exec}
use mongodb_k8s_operator.Core.Safe.{
  emits_rules, Safe, Emits, Safe-then, Safe-finally, Safe-raise, Safe-catch, Emits-call, Emits-pure,
}
use mongodb_k8s_operator.Core.Retry.{Emits-retry, Retries}
use mongodb_k8s_operator.Mongodb.Configuration.{MongodbConfiguration}
use mongodb_k8s_operator.Mongodb.Connection.{connect, with_connection, is_ready, not_in_time}
use mongodb_k8s_operator.Mongodb.Replset.{get_replset_members, get_replset_status}

module _ {P : Call → Type 0} (w : World) where
  pub connect-Emits :
      (config : MongodbConfiguration) (host : Option String) (direct : Bool)
      → Emits P (connect w config host direct)
  unfolding connect
  connect-Emits config none direct = search emits_rules
  connect-Emits config (some host) direct = search emits_rules

  pub with_connection-Safe :
      {A : Type 0} {Q : A → Type 0} (config : MongodbConfiguration) (host : Option String)
      (direct : Bool) (body : Connection → Exec A)
      → ((conn : Connection) → P (close conn))
      → ((conn : Connection) → Safe P Q (body conn))
      → Safe P Q (with_connection w config host direct body)
  unfolding with_connection
  with_connection-Safe config host direct body closes k =
      Safe-then _ _ (connect-Emits config host direct)
        λ conn. Safe-finally _ _ (k conn) (closes conn)

  not_in_time-Emits : (e : Error) → Emits P (not_in_time e)
  not_in_time-Emits retry_error = Emits-pure false
  not_in_time-Emits e = Safe-raise _

  pub is_ready-Emits :
      (conn : Connection) → Retries w → P (mongo conn ping) → Emits P (is_ready w conn)
  unfolding is_ready
  is_ready-Emits conn laws p =
      Safe-catch _ _
        (Safe-then _ _ (Emits-retry w laws _ _ _ _ (Emits-call _ _ p)) λ _. Emits-pure true)
        not_in_time-Emits

  pub get_replset_members-Emits :
      (conn : Connection) → P (mongo conn get_status) → Emits P (get_replset_members w conn)
  unfolding get_replset_members
  get_replset_members-Emits conn p = search (emits_rules, Emits-call) depth 8

  pub get_replset_status-Emits :
      (conn : Connection) → P (mongo conn get_status) → Emits P (get_replset_status w conn)
  unfolding get_replset_status
  get_replset_status-Emits conn p = search (emits_rules, Emits-call) depth 8
