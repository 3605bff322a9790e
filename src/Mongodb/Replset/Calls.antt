-- ===== src/Mongodb/Replset/Calls.antt =====
-- The calls that add and remove members: whatever is sent keeps the members' ids distinct.
use mongodb_k8s_operator.Prelude.{String, some, List, ◌≡◌}
use mongodb_k8s_operator.Core.Error.{ok}
use mongodb_k8s_operator.Core.Call.{
  Call, Connection, RsConfig, mongo, get_config, get_status, reconfig, step_down,
}
use mongodb_k8s_operator.Core.World.{World}
use mongodb_k8s_operator.Core.Safe.{
  Emits, Good-of_eq, Safe-then, Safe-bind, Safe-call, Safe-raise, Safe-or_raise, Emits-call,
  Emits-when,
}
use mongodb_k8s_operator.Core.Retry.{Emits-retry, Retries}
use mongodb_k8s_operator.Mongodb.Replset.{
  max_id, add_replset_member, remove_attempt, remove_replset_member,
}
use mongodb_k8s_operator.Mongodb.Replset.Members.{
  HasDistinctIds, HasDistinctIds-others, reconfig-HasDistinctIds,
}

-- mongod never reports two members with one id.
pub record ReportsDistinctIds (w : World) : Type 0 where
  pub config_ids :
      (t : List Call) (cfg : RsConfig) → w.rs_config t ≡ ok cfg → HasDistinctIds cfg.members

-- The commands that change the members.
pub record AllowsMembers (P : Call → Type 0) : Type 0 where
  pub reads_config : (conn : Connection) → P (mongo conn get_config)
  pub reads_status : (conn : Connection) → P (mongo conn get_status)
  pub steps_down : (conn : Connection) → P (mongo conn (step_down "60"))
  pub reconfigures :
      (conn : Connection) (cfg : RsConfig)
      → HasDistinctIds cfg.members
      → P (mongo conn (reconfig cfg))

module _ {P : Call → Type 0} (w : World) (ids : ReportsDistinctIds w) (allows : AllowsMembers P)
    (conn : Connection) (hostname : String) where
  pub add_replset_member-Emits : Emits P (add_replset_member w conn hostname)
  unfolding add_replset_member
  add_replset_member-Emits =
      Safe-bind {Q = λ cfg. HasDistinctIds cfg.members} _ _
        (Safe-call _ _ (allows.reads_config conn)
          (λ t. Good-of_eq (λ cfg. HasDistinctIds cfg.members) (w.rs_config t) (ids.config_ids t)))
        λ cfg distinct. Safe-then _ _ (Emits-call _ _ (allows.reads_status conn)) λ members.
          Safe-then _ _ (Emits-when _ _ (Safe-raise _)) λ _.
            Safe-bind {Q = λ i. max_id cfg.members ≡ some i} _ _ (Safe-or_raise _ _ (λ i e. e))
              λ i top.
                Emits-call _ _ (
                  allows.reconfigures conn _
                    (reconfig-HasDistinctIds cfg i hostname distinct top).0)

  remove_attempt-Emits : Emits P (remove_attempt w conn hostname)
  unfolding remove_attempt
  remove_attempt-Emits =
      Safe-bind {Q = λ cfg. HasDistinctIds cfg.members} _ _
        (Safe-call _ _ (allows.reads_config conn)
          (λ t. Good-of_eq (λ cfg. HasDistinctIds cfg.members) (w.rs_config t) (ids.config_ids t)))
        λ cfg distinct. Safe-then _ _ (Emits-call _ _ (allows.reads_status conn)) λ members.
          Safe-then _ _ (Emits-when _ _ (Safe-raise _)) λ _.
            Safe-then _ _ (Emits-when _ _ (Emits-call _ _ (allows.steps_down conn))) λ _.
              Emits-call _ _
                (allows.reconfigures conn _ (HasDistinctIds-others hostname cfg.members distinct))

  pub remove_replset_member-Emits : Retries w → Emits P (remove_replset_member w conn hostname)
  unfolding remove_replset_member
  remove_replset_member-Emits laws = Emits-retry w laws _ _ _ _ remove_attempt-Emits
