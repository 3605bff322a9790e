-- ===== src/Tests/Unit.antt =====
-- The theorems on the life of a unit and on backups, on the small application.
use mongodb_k8s_operator.Mongodb.Accounts.{set_user_password}
use mongodb_k8s_operator.Users.{get_password_key_name_for_user}
use mongodb_k8s_operator.Helpers.Random.{generate_password}
use mongodb_k8s_operator.Prelude.{List, arith, ◌≡◌, ◌≢◌, refl, true, some, ◌⊎◌, [], ◌∷◌}
use mongodb_k8s_operator.Text.{split}
use mongodb_k8s_operator.Core.Error.{ok, err, missing_secret, exec_error, model_error, pymongo}
use mongodb_k8s_operator.Core.Call.{Call, app, unit, peer_set, active}
use mongodb_k8s_operator.Core.World.{World, State, SecretSlot}
use mongodb_k8s_operator.Core.Exec.{map_each, ◌>>=◌}
use mongodb_k8s_operator.Core.Event.{plain}
use mongodb_k8s_operator.Core.Sets.{contains, to_set}
use mongodb_k8s_operator.Samples.{stored, conn, world, old_world, fresh}
use mongodb_k8s_operator.Provider.Users.{update_relation_user}
use mongodb_k8s_operator.Charm.Secrets.{set_value, set_secret, get_secret}
use mongodb_k8s_operator.Charm.PeerData.{peer_data_or_empty, db_initialised}
use mongodb_k8s_operator.Mongodb.Replset.{get_replset_members}
use mongodb_k8s_operator.Mongodb.Configuration.{uri}
use mongodb_k8s_operator.Mongodb.Hosts.{get_hostname_for_unit, hostname_from_hostport}
use mongodb_k8s_operator.Helpers.Pbm.{process_pbm_status, process_pbm_status-no_marker}
use mongodb_k8s_operator.Text.Lines.{splitlines}
use mongodb_k8s_operator.Charm.Lifecycle.Calls.{StopMay, on_stop-Emits}
use mongodb_k8s_operator.Core.Safe.{Emits, Extends}
use mongodb_k8s_operator.Core.Retry.{Retries, Attempts}
use mongodb_k8s_operator.Backups.Actions.Calls.{ActionMay, backup_actions-Emits}
use mongodb_k8s_operator.Charm.Actions.{
  keep_password, change_in_mongodb, change_password, set_password_of, get_user_or_fail_event,
  on_set_password,
}
use mongodb_k8s_operator.Charm.Actions.Accepted.{Taken, on_set_password-accepted}
use mongodb_k8s_operator.Charm.Actions.Refused.{RefusedMay, on_set_password-refused}
use mongodb_k8s_operator.Backups.Actions.{
  on_create_backup_action, on_list_backups_action, on_restore_action,
}
use mongodb_k8s_operator.Charm.Services.{connect_mongodb_exporter, connect_service}
use mongodb_k8s_operator.Charm.Lifecycle.{
  is_unit_in_replica_set, on_stop, wait_for_removal, unit_removal_timeout, is_member,
}
use mongodb_k8s_operator.Charm.Lifecycle.Stop.{
  StaysMember, rested, on_stop-err, on_stop_still_member,
}
use mongodb_k8s_operator.Charm.Lifecycle.Start.{update_at_start}
use mongodb_k8s_operator.Config.{secret_internal_label}
use mongodb_k8s_operator.Charm.Configs.{
  mongodb_config, unit_hosts, hostname_for, get_mongodb_config_for_user,
}
use mongodb_k8s_operator.Tls.Files.{get_tls_files}
use mongodb_k8s_operator.Mongodb.Connection.{with_connection}

-- No password is there, and the unit departs.
abbrev bare_world : World
bare_world = record old_world {
  peer_data = λ t scope. elim scope [ app ↦ [] | unit ↦ ("unit_departed", "True") ∷ [] ];
}

on_stop-err_example : (t : State) × ((is_unit_in_replica_set bare_world t).0 ≡ err missing_secret)
unfolding on_stop ◌>>=◌ peer_data_or_empty wait_for_removal is_unit_in_replica_set mongodb_config
    unit_hosts hostname_for get_hostname_for_unit split map_each get_mongodb_config_for_user
    get_tls_files get_secret
on_stop-err_example = on_stop-err bare_world fresh missing_secret refl

-- The databags stay as they are, whatever is called, and mongod goes on to report the unit; Juju
-- keeps the passwords.
abbrev steady_world : World
steady_world = record world {
  peer_data = λ t scope. (secret_internal_label, "secret:abc") ∷ ("unit_departed", "True") ∷ [];
}

abbrev kept_slot : SecretSlot
kept_slot = record { secret = some "secret:abc"; cache = some stored }

abbrev steady_state : List Call → State
steady_state t = record { trace = t; app_slot = kept_slot; unit_slot = kept_slot }

-- The secrets are in memory throughout.
data Steady : State → Type 0 where
  steady : (t : List Call) → Steady (steady_state t)

Steady-StaysMember : StaysMember steady_world Steady
unfolding is_unit_in_replica_set ◌>>=◌ mongodb_config unit_hosts hostname_for get_hostname_for_unit
    split map_each get_mongodb_config_for_user get_tls_files get_secret with_connection uri
    is_member get_replset_members contains to_set hostname_from_hostport
Steady-StaysMember = record { reported = reported_so; next = next_so }
  where
    reported_so : (t : State) → Steady t → (is_unit_in_replica_set steady_world t).0 ≡ ok true
    reported_so s (steady t) = refl

    next_so : (t : State) → Steady t → Steady (rested (is_unit_in_replica_set steady_world t).1)
    next_so s (steady t) = steady _

on_stop_still_member_example :
    ((on_stop steady_world (steady_state [])).0 ≡ ok tt)
    × ((on_stop steady_world (steady_state [])).1.trace
        ≡ peer_set unit "unit_departed" ""
          ∷ (wait_for_removal steady_world unit_removal_timeout (steady_state [])).1.trace)
on_stop_still_member_example =
    on_stop_still_member steady_world Steady (steady_state []) Steady-StaysMember (steady [])
      (λ t. refl) refl

-- mongod refuses every command.
abbrev down_world : World
down_world = record old_world { run = λ t. err (pymongo "down") }

update_at_start_example : (update_relation_user world conn plain "relation-4" fresh).0 ≢ ok tt
update_at_start_example = update_at_start world conn "relation-4" fresh

-- The backup user has a password, and the status command of PBM fails.
abbrev failing_pbm : World
failing_pbm = record old_world {
  peer_data = λ t scope. ("db_initialised", "True") ∷ ("backup-password", "pw") ∷ [];
  stdout = λ t. err (exec_error (some "status code: 403"));
}

failing_pbm-Retries : Retries failing_pbm
failing_pbm-Retries = record {
  attempts =
      λ stop reraise retried body s. (body s, Attempts.last refl, refl, λ done. done, λ done. done);
}

abbrev no_agent : World
no_agent = record failing_pbm { pebble = λ t. err model_error }

process_pbm_status-no_marker_example : process_pbm_status "{}" ≡ ok (active "")
unfolding splitlines contains
process_pbm_status-no_marker_example = process_pbm_status-no_marker "{}" refl

on_stop-Emits_example : Emits StopMay (on_stop steady_world)
on_stop-Emits_example = on_stop-Emits steady_world

backup_actions-Emits_example :
    Emits ActionMay (on_create_backup_action failing_pbm)
    × Emits ActionMay (on_list_backups_action failing_pbm)
    × Emits ActionMay (on_restore_action failing_pbm (some "2023-01-01"))
backup_actions-Emits_example = backup_actions-Emits failing_pbm (some "2023-01-01")

refused : (t : List Call) → down_world.run t ≢ ok tt
refused t h = ground arith

on_set_password-refused_example :
    Emits RefusedMay (on_set_password down_world (some "monitor") (some "new"))
on_set_password-refused_example =
    on_set_password-refused down_world (some "monitor") (some "new") refused

on_set_password-accepted_example :
    Extends RefusedMay [] (on_set_password old_world (some "monitor") (some "new") fresh).1.trace
    ⊎ Taken old_world
        (some "monitor")
        (some "new")
        []
        (on_set_password old_world (some "monitor") (some "new") fresh).1.trace
unfolding on_set_password ◌>>=◌ get_user_or_fail_event set_password_of generate_password
    change_password get_password_key_name_for_user get_secret change_in_mongodb mongodb_config
    unit_hosts hostname_for get_hostname_for_unit split map_each get_mongodb_config_for_user
    get_tls_files with_connection uri set_user_password keep_password set_secret set_value
    connect_mongodb_exporter connect_service db_initialised
on_set_password-accepted_example =
    on_set_password-accepted old_world (some "monitor") (some "new") fresh refl
