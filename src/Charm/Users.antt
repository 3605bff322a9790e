-- ===== src/Charm/Users.antt =====
-- The charm's own users: their passwords, the keyfile, and their creation in MongoDB (src/charm.py).
pub mod Calls
pub mod Once
use mongodb_k8s_operator.Prelude.{
  String, Bool, true, not, Option, none, some, [], if◌then◌else◌, false,
}
use mongodb_k8s_operator.Text.{append}
use mongodb_k8s_operator.Core.Error.{Error, admin_user_creation}
use mongodb_k8s_operator.Core.Call.{app, exists, exec, wait_output}
use mongodb_k8s_operator.Core.World.{World, Exec, after_attempt}
use mongodb_k8s_operator.Core.Exec.{⊤, pure, raise, catch, call, ask, filled, ◌>>=◌, ◌>>◌}
use mongodb_k8s_operator.Core.Dict.{has_key}
use mongodb_k8s_operator.Config.{secret_keyfile_name}
use mongodb_k8s_operator.Users.{MongodbUser, operator_user, monitor_user, backup_user}
use mongodb_k8s_operator.Mongodb.Connection.{with_connection}
use mongodb_k8s_operator.Mongodb.Accounts.{create_user, create_role}
use mongodb_k8s_operator.Helpers.Args.{get_create_user_cmd}
use mongodb_k8s_operator.Helpers.Random.{generate_password, generate_keyfile}
use mongodb_k8s_operator.Charm.PeerData.{peer_data_or_empty, write_peer_data}
use mongodb_k8s_operator.Charm.Secrets.{get_secret, set_secret}
use mongodb_k8s_operator.Charm.Configs.{mongodb_config, monitor_config, backup_config}
use mongodb_k8s_operator.Charm.Services.{do_pebble, connect_mongodb_exporter}

-- The key in the databag under which a user's creation is noted.
abbrev pub created_key : MongodbUser → String
created_key user = append user.username "-user-created"

-- `except Exception`
abbrev pub creation_failed : Error → Exec ⊤
creation_failed e = raise admin_user_creation

module _ (w : World) where
  -- A secret of the application is made if it is missing or empty.
  unfoldable pub check_or_set : String → Exec String → Exec ⊤
  check_or_set key generate = do
    value ← get_secret w app key
    if filled value then pure tt else do new ← generate; set_secret w app key (some new); pure tt

  unfoldable pub check_or_set_user_password : MongodbUser → Exec ⊤
  unfolding check_or_set
  check_or_set_user_password user = check_or_set user.password_key_name (generate_password w)

  unfoldable pub check_or_set_keyfile : Exec ⊤
  unfolding check_or_set
  check_or_set_keyfile = check_or_set secret_keyfile_name (generate_keyfile w)

  -- `_generate_secrets`
  unfoldable pub generate_secrets : Exec ⊤
  generate_secrets = do
    check_or_set_user_password operator_user
    check_or_set_user_password monitor_user
    check_or_set_keyfile

  unfoldable pub is_user_created : MongodbUser → Exec Bool
  unfolding peer_data_or_empty
  is_user_created user = do bag ← peer_data_or_empty w app; pure (has_key (created_key user) bag)

  unfoldable pub set_user_created : MongodbUser → Exec ⊤
  unfolding write_peer_data
  set_user_created user = write_peer_data w app (created_key user) "True"

  -- One attempt of each of the three `_init_…_user`; `once` skips it if the user is there.
  unfoldable pub once : MongodbUser → Exec ⊤ → Exec ⊤
  once user create = do created ← is_user_created user; if created then pure tt else create

  unfoldable pub create_operator_user : Exec ⊤
  create_operator_user = do
    mongosh ← ask (exists "/usr/bin/mongosh") w.answers
    config ← mongodb_config w
    again ← mongodb_config w
    do_pebble w (
        exec (get_create_user_cmd config (if mongosh then "/usr/bin/mongosh" else "/usr/bin/mongo"))
          [] (some again.password))
    catch (call wait_output w.stdout >> pure tt) creation_failed
    set_user_created operator_user

  unfoldable pub create_monitor_user : Exec ⊤
  create_monitor_user = do
    config ← mongodb_config w
    with_connection w config none false λ conn. do
      create_role w conn monitor_user.mongodb_role monitor_user.privileges
      monitor ← monitor_config w
      create_user w conn monitor
      set_user_created monitor_user
    connect_mongodb_exporter w

  unfoldable pub create_backup_user : Exec ⊤
  create_backup_user = do
    config ← mongodb_config w
    with_connection w config none false λ conn. do
      create_role w conn backup_user.mongodb_role backup_user.privileges
      check_or_set_user_password backup_user
      backup ← backup_config w
      create_user w conn backup
      set_user_created backup_user

  unfoldable pub init_operator_user : Exec ⊤
  init_operator_user =
      w.retry (after_attempt 3) true (λ _. true) (once operator_user create_operator_user)

  unfoldable pub init_monitor_user : Exec ⊤
  init_monitor_user =
      w.retry (after_attempt 3) true (λ _. true) (once monitor_user create_monitor_user)

  unfoldable pub init_backup_user : Exec ⊤
  init_backup_user =
      w.retry (after_attempt 3) true (λ _. true) (once backup_user create_backup_user)
