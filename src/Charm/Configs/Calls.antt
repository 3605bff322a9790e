-- ===== src/Charm/Configs/Calls.antt =====
-- Making a configuration calls nothing, of whatever kind.
use mongodb_k8s_operator.Prelude.{String, Option, none, some, List}
use mongodb_k8s_operator.Core.Call.{Call}
use mongodb_k8s_operator.Core.World.{World}
use mongodb_k8s_operator.Core.Safe.{emits_rules, Emits, Safe-raise, Emits-map_each}
use mongodb_k8s_operator.Users.{MongodbUser}
use mongodb_k8s_operator.Charm.Secrets.Calls.{get_secret-Emits}
use mongodb_k8s_operator.Charm.Configs.{
  hostname_for, unit_hosts, config_with, get_mongodb_config_for_user, mongodb_config,
  monitor_config, backup_config,
}
use mongodb_k8s_operator.Tls.Calls.{get_tls_files-Emits}

module _ {P : Call → Type 0} (w : World) where
  pub hostname_for-Emits : (unit_name : String) → Emits P (hostname_for w unit_name)
  unfolding hostname_for
  hostname_for-Emits unit_name = search emits_rules

  unit_hosts-Emits : Emits P (unit_hosts w)
  unfolding unit_hosts
  unit_hosts-Emits = search (emits_rules, hostname_for-Emits, Emits-map_each) depth 14

  config_with-Emits :
      (user : MongodbUser) (hosts : List String) (external internal password : Option String)
      → Emits P (config_with w user hosts external internal password)
  unfolding config_with
  config_with-Emits user hosts external internal none = Safe-raise _
  config_with-Emits user hosts external internal (some password) = search emits_rules depth 6

  user_config-Emits :
      (user : MongodbUser) (hosts : List String)
      → Emits P (get_mongodb_config_for_user w user hosts)
  unfolding get_mongodb_config_for_user
  user_config-Emits user hosts =
      search (emits_rules, get_tls_files-Emits, get_secret-Emits, config_with-Emits) depth 14

  -- The three configurations of the charm's users are read from secrets and from the databag.
  pub mongodb_config-Emits : Emits P (mongodb_config w)
  unfolding mongodb_config
  mongodb_config-Emits = search (emits_rules, unit_hosts-Emits, user_config-Emits) depth 8

  pub monitor_config-Emits : Emits P (monitor_config w)
  unfolding monitor_config
  monitor_config-Emits = search (emits_rules, hostname_for-Emits, user_config-Emits) depth 8

  pub backup_config-Emits : Emits P (backup_config w)
  unfolding backup_config
  backup_config-Emits = search (emits_rules, hostname_for-Emits, user_config-Emits) depth 8
