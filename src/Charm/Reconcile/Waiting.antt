-- ===== src/Charm/Reconcile/Waiting.antt =====
-- Adding and removing units while the replica set is still busy with an earlier change.
use mongodb_k8s_operator.Prelude.{String, Bool, true, List, [], ◌∷◌, ◌≡◌, arith}
use mongodb_k8s_operator.Core.Error.{ok, not_ready}
use mongodb_k8s_operator.Core.Call.{
  Call, Connection, MemberStatus, mongo, close, defer, ping, get_config, get_status,
}
use mongodb_k8s_operator.Core.World.{World, Exec}
use mongodb_k8s_operator.Core.Exec.{⊤, raise, when, ◌>>=◌}
use mongodb_k8s_operator.Core.Safe.{
  emits_rules, same, Safe, Emits, Good-of_eq, Safe-then, Safe-bind, Safe-call, Safe-Emits, Emits-if,
  Emits-pure, Emits-tell, Emits-call, Emits-for_all,
}
use mongodb_k8s_operator.Core.Retry.{Retries, Emits-retry}
use mongodb_k8s_operator.Mongodb.Calls.{with_connection-Safe, is_ready-Emits}
use mongodb_k8s_operator.Mongodb.Replset.{
  is_any_sync, is_any_removing, add_replset_member, remove_attempt, remove_replset_member,
}
use mongodb_k8s_operator.Charm.Configs.Calls.{mongodb_config-Emits}
use mongodb_k8s_operator.Charm.Reconcile.{
  member_is_ready, add_units_from_replica_set, remove_units_from_replica_set,
}

-- Commands that read, and no other to mongod.
abbrev pub WaitMay : Call → Type 0
WaitMay (mongo conn ping) = Unit
WaitMay (mongo conn get_config) = Unit
WaitMay (mongo conn get_status) = Unit
WaitMay (close conn) = Unit
WaitMay defer = Unit
WaitMay c = ⊥

-- What raises before anything else is done.
raise_first :
    {B : Type 0} (busy : Bool) (f : ⊤ → Exec B)
    → busy ≡ true
    → Safe WaitMay (λ _. ⊥) (when busy (raise not_ready) >>= f)
unfolding ◌>>=◌
raise_first true f h = record { calls_of = λ s. same; returns = λ s. tt }
raise_first Bool.false f h = ground arith

-- Every status that mongod reports has a property.
abbrev pub AlwaysReports : World → (List MemberStatus → Bool) → Type 0
AlwaysReports w busy =
    (t : List Call) (members : List MemberStatus) → w.rs_status t ≡ ok members → busy members ≡ true

module _ (w : World) (conn : Connection) where
  add-refused :
      (hostname : String)
      → AlwaysReports w is_any_sync
      → Safe WaitMay (λ _. ⊥) (add_replset_member w conn hostname)
  unfolding add_replset_member
  add-refused hostname syncing = Safe-then _ _ (Emits-call _ _ tt) λ cfg.
      Safe-bind {Q = λ members. is_any_sync members ≡ true} _ _
        (Safe-call _ _ tt (λ t. Good-of_eq _ (w.rs_status t) (syncing t)))
        λ members busy. raise_first (is_any_sync members) _ busy

  remove-refused :
      (hostname : String)
      → AlwaysReports w is_any_removing
      → Safe WaitMay (λ _. ⊥) (remove_attempt w conn hostname)
  unfolding remove_attempt
  remove-refused hostname removing = Safe-then _ _ (Emits-call _ _ tt) λ cfg.
      Safe-bind {Q = λ members. is_any_removing members ≡ true} _ _
        (Safe-call _ _ tt (λ t. Good-of_eq _ (w.rs_status t) (removing t)))
        λ members busy. raise_first (is_any_removing members) _ busy

  member_is_ready-waits : (member : String) → Retries w → Emits WaitMay (member_is_ready w member)
  unfolding member_is_ready
  member_is_ready-waits member laws =
      search
        (emits_rules, mongodb_config-Emits, with_connection-Safe, is_ready-Emits, laws, Emits-tell)
        depth 14

  -- As long as mongod reports a member that syncs, adding any units, however many, sends mongod
  -- nothing but pings and reads, and so no new configuration. The condition: tenacity makes attempts
  -- of what it is given.
  pub add_units_while_syncing :
      (members : List String)
      → Retries w
      → AlwaysReports w is_any_sync
      → Emits WaitMay (add_units_from_replica_set w conn members)
  unfolding add_units_from_replica_set
  add_units_while_syncing [] laws syncing = Emits-pure tt
  add_units_while_syncing (member ∷ members) laws syncing =
      Safe-then _ _ (member_is_ready-waits member laws) λ ready.
        Emits-if _ _ _
          (Safe-then _ _ (Safe-Emits (add-refused member syncing))
            (λ _. add_units_while_syncing members laws syncing))
          (Emits-pure tt)

  -- As long as mongod reports a member that is being removed, removing any units sends mongod only
  -- reads, in every attempt: neither a step-down nor a new configuration. The condition: tenacity makes
  -- attempts of what it is given.
  pub remove_units_while_removing :
      (members : List String)
      → Retries w
      → AlwaysReports w is_any_removing
      → Emits WaitMay (remove_units_from_replica_set w conn members)
  unfolding remove_units_from_replica_set remove_replset_member
  remove_units_while_removing members laws removing =
      Emits-for_all _ _
        λ member. Emits-retry w laws _ _ _ _ (Safe-Emits (remove-refused member removing))
