-- ===== src/Charm/Lifecycle/Calls.antt =====
-- The calls of a unit that stops.
use mongodb_k8s_operator.Prelude.{ℕ, zero, suc, ◌≡◌, refl}
use mongodb_k8s_operator.Core.Error.{Error}
use mongodb_k8s_operator.Core.Call.{
  Call, Connection, unit, mongo, close, get_status, peer_set, sleep,
}
use mongodb_k8s_operator.Core.World.{World}
use mongodb_k8s_operator.Core.Safe.{
  emits_rules, Emits, Safe-then, Safe-catch, Safe-raise, Emits-if, Emits-pure, Emits-tell,
  Emits-when,
}
use mongodb_k8s_operator.Charm.PeerData.{peer_data_or_empty, write_peer_data}
use mongodb_k8s_operator.Charm.Configs.Calls.{hostname_for-Emits, mongodb_config-Emits}
use mongodb_k8s_operator.Mongodb.Calls.{with_connection-Safe, get_replset_members-Emits}
use mongodb_k8s_operator.Charm.Lifecycle.{
  not_a_member, is_member, is_unit_in_replica_set, wait_for_removal, on_stop,
}

-- A look at the replica set, a pause, and the mark that is taken back.
abbrev pub StopMay : Call → Type 0
StopMay (mongo conn get_status) = Unit
StopMay (close conn) = Unit
StopMay (sleep seconds) = seconds ≡ 1
StopMay (peer_set unit key value) = (key ≡ "unit_departed") × (value ≡ "")
StopMay c = ⊥

module _ (w : World) where
  is_member-Emits : (conn : Connection) → Emits StopMay (is_member w conn)
  unfolding is_member
  is_member-Emits conn = search (emits_rules, get_replset_members-Emits, hostname_for-Emits) depth 8

  not_a_member-Emits : (e : Error) → Emits StopMay (not_a_member e)
  not_a_member-Emits e = search emits_rules depth 6

  is_unit_in_replica_set-Emits : Emits StopMay (is_unit_in_replica_set w)
  unfolding is_unit_in_replica_set
  is_unit_in_replica_set-Emits = Safe-then _ _ (mongodb_config-Emits w) λ config.
      with_connection-Safe w config _ _ _ (λ conn. tt)
        λ conn. Safe-catch _ _ (is_member-Emits conn) not_a_member-Emits

  wait_for_removal-Emits : (timeout : ℕ) → Emits StopMay (wait_for_removal w timeout)
  unfolding wait_for_removal
  wait_for_removal-Emits zero = Emits-pure tt
  wait_for_removal-Emits (suc timeout) = Safe-then _ _ is_unit_in_replica_set-Emits λ member.
      Safe-then _ _ (Emits-tell _ refl) λ _.
        Safe-then _ _ (Emits-when _ _ (Safe-raise _))
          λ _. Emits-if _ _ _ (wait_for_removal-Emits timeout) (Emits-pure tt)

  -- A unit that stops only reads the status of the replica set, pauses a second at a time, and takes
  -- its mark "unit_departed" back.
  pub on_stop-Emits : Emits StopMay (on_stop w)
  unfolding on_stop peer_data_or_empty write_peer_data
  on_stop-Emits = search (emits_rules, wait_for_removal-Emits, Emits-tell) depth 14
