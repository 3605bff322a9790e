-- ===== src/Tests/Cluster.antt =====
-- The theorems on the replica set, the secrets and the relations, on the small application.
use mongodb_k8s_operator.Prelude.{arith, ◌≡◌, refl, true, some, none, map, not, ◌||◌, List, [], ◌∷◌}
use mongodb_k8s_operator.Text.{split}
use mongodb_k8s_operator.Core.Error.{ok}
use mongodb_k8s_operator.Core.Call.{MemberStatus, app}
use mongodb_k8s_operator.Core.World.{World}
use mongodb_k8s_operator.Core.Exec.{◌>>=◌}
use mongodb_k8s_operator.Core.Event.{peer_departed, relation_broken}
use mongodb_k8s_operator.Core.Safe.{Emits}
use mongodb_k8s_operator.Core.Retry.{Retries, Attempts}
use mongodb_k8s_operator.Samples.{
  conn, world, fresh, holding, stored, holding-Held, configuration, statuses, host_0, host_1,
  world-Retries, world-ReportsDistinctIds, world-Orders, ascii_digit-ReadsAscii,
  world-KeepsPeerData,
}
use mongodb_k8s_operator.Provider.Safety.{ProviderMay}
use mongodb_k8s_operator.Provider.Users.{oversee_users}
use mongodb_k8s_operator.Provider.Users.Calls.{oversee_users-Emits}
use mongodb_k8s_operator.Charm.Reconcile.{
  relation_changes_handler, add_units_from_replica_set, remove_units_from_replica_set,
}
use mongodb_k8s_operator.Charm.Reconcile.Waiting.{
  WaitMay, AlwaysReports, add_units_while_syncing, remove_units_while_removing,
}
use mongodb_k8s_operator.Charm.Users.{
  generate_secrets, check_or_set_user_password, check_or_set_keyfile,
}
use mongodb_k8s_operator.Helpers.Random.{generate_password}
use mongodb_k8s_operator.Charm.Users.Once.{generate_secrets-keeps}
use mongodb_k8s_operator.Charm.Reconcile.Calls.{ReconcileMay, relation_changes_handler-Emits}
use mongodb_k8s_operator.Charm.Secrets.{
  get_secret, set_secret, set_value, juju_secret_set, set_in_slot,
}
use mongodb_k8s_operator.Mongodb.Replset.{
  add_replset_member, remove_attempt, is_any_sync, is_any_removing, is_primary, max_id, with_member,
  without_member, status_dict, last_primary, get_replset_status, get_replset_members, primary,
}
use mongodb_k8s_operator.Mongodb.Replset.Changes.{Added, Removed, add-Added, remove-Removed}
use mongodb_k8s_operator.Mongodb.Replset.Members.{HasDistinctIds, reconfig-HasDistinctIds}
use mongodb_k8s_operator.Mongodb.Replset.Views.{host_of, has_text, status_views}
use mongodb_k8s_operator.Core.Dict.{has_key, lookup}
use mongodb_k8s_operator.Core.Sets.{contains, to_set}
use mongodb_k8s_operator.Mongodb.Hosts.{hostname_from_hostport}

oversee_users-Emits_example :
    Emits (ProviderMay world) (oversee_users world (some 7) (relation_broken 7))
oversee_users-Emits_example =
    oversee_users-Emits world world-Orders ascii_digit-ReadsAscii (some 7) (relation_broken 7)

relation_changes_handler-Emits_example :
    Emits ReconcileMay
      (relation_changes_handler world (peer_departed "mongodb-k8s/1" (some "mongodb-k8s/1")))
relation_changes_handler-Emits_example =
    relation_changes_handler-Emits world world-Retries world-ReportsDistinctIds
      (peer_departed "mongodb-k8s/1" (some "mongodb-k8s/1"))

generate_secrets-keeps_example :
    (get_secret world app "keyfile" (generate_secrets world holding).1).0
    ≡ (get_secret world app "keyfile" holding).0
unfolding generate_secrets ◌>>=◌ check_or_set_user_password get_secret generate_password set_secret
    set_value juju_secret_set set_in_slot check_or_set_keyfile
generate_secrets-keeps_example =
    generate_secrets-keeps world world-KeepsPeerData refl (λ t i. omega arith) stored holding
      "keyfile" holding-Held refl (λ h. cc) refl

add-Added_example : Added world conn "c" [] (add_replset_member world conn "c" fresh).1.trace
unfolding add_replset_member ◌>>=◌ is_any_sync max_id
add-Added_example = add-Added world conn "c" fresh refl

remove-Removed_example :
    Removed world conn host_0 [] (remove_attempt world conn host_0 fresh).1.trace
unfolding remove_attempt ◌>>=◌ is_any_removing is_primary hostname_from_hostport split
remove-Removed_example = remove-Removed world conn host_0 fresh refl

abbrev syncing : List MemberStatus
syncing = record { name = "b:27017"; state_str = "STARTUP2" } ∷ statuses

abbrev syncing_world : World
syncing_world = record world { rs_status = λ t. ok syncing }

syncing_world-Retries : Retries syncing_world
syncing_world-Retries = record {
  attempts =
      λ stop reraise retried body s. (body s, Attempts.last refl, refl, λ done. done, λ done. done);
}

syncing_world-AlwaysReports : AlwaysReports syncing_world is_any_sync
unfolding is_any_sync
syncing_world-AlwaysReports t members h = let e : members ≡ syncing = cc in rw e

add_units_while_syncing_example :
    Emits WaitMay (add_units_from_replica_set syncing_world conn (host_1 ∷ "c" ∷ []))
add_units_while_syncing_example =
    add_units_while_syncing syncing_world conn (host_1 ∷ "c" ∷ []) syncing_world-Retries
      syncing_world-AlwaysReports

abbrev removing : List MemberStatus
removing = record { name = "b:27017"; state_str = "REMOVED" } ∷ statuses

abbrev removing_world : World
removing_world = record world { rs_status = λ t. ok removing }

removing_world-Retries : Retries removing_world
removing_world-Retries = record {
  attempts =
      λ stop reraise retried body s. (body s, Attempts.last refl, refl, λ done. done, λ done. done);
}

removing_world-AlwaysReports : AlwaysReports removing_world is_any_removing
unfolding is_any_removing
removing_world-AlwaysReports t members h = let e : members ≡ removing = cc in rw e

remove_units_while_removing_example :
    Emits WaitMay (remove_units_from_replica_set removing_world conn (host_1 ∷ []))
remove_units_while_removing_example =
    remove_units_while_removing removing_world conn (host_1 ∷ []) removing_world-Retries
      removing_world-AlwaysReports

reconfig-HasDistinctIds_example :
    HasDistinctIds (with_member configuration 1 host_0).members
    × HasDistinctIds (without_member configuration host_0).members
unfolding max_id
reconfig-HasDistinctIds_example =
    reconfig-HasDistinctIds configuration 1 host_0 ((λ h. cc, tt), (tt, tt)) refl

status_views_example :
    (has_key host_0 (status_dict statuses []) ≡ contains (to_set (map host_of statuses)) host_0)
    × (is_primary statuses host_0 ≡ has_text "PRIMARY" (lookup host_0 (status_dict statuses [])))
    × ((not (has_text host_0 (last_primary none statuses)) || is_primary statuses host_0) ≡ true)
unfolding contains hostname_from_hostport split get_replset_status get_replset_members primary ◌>>=◌
status_views_example =
    status_views world conn fresh statuses (status_dict statuses []) (to_set (map host_of statuses))
      (last_primary none statuses) host_0 refl (refl, (refl, tt)) refl refl refl
