-- ===== src/Charm/Actions.antt =====
-- The actions on passwords, and the handler of changed secrets (src/charm.py).
pub mod Refused
pub mod Attempt
pub mod Accepted
use mongodb_k8s_operator.Prelude.{
  String, Bool, true, false, not, Option, none, some, [], ◌∷◌, ◌==◌, if◌then◌else◌,
}
use mongodb_k8s_operator.Text.{append, concat, join}
use mongodb_k8s_operator.Core.Error.{Error, not_ready, is_pymongo}
use mongodb_k8s_operator.Core.Call.{Scope, app, unit, fail, log, set_results}
use mongodb_k8s_operator.Core.World.{World, Exec}
use mongodb_k8s_operator.Core.Exec.{⊤, pure, raise, lift, catch, asks, tell, when, ◌>>=◌, ◌>>◌}
use mongodb_k8s_operator.Core.Dict.{lookup}
use mongodb_k8s_operator.Core.Sets.{contains}
use mongodb_k8s_operator.Config.{secret_internal_label}
use mongodb_k8s_operator.Users.{
  operator_user, monitor_user, backup_user, charm_users, get_password_key_name_for_user,
}
use mongodb_k8s_operator.Mongodb.Connection.{with_connection}
use mongodb_k8s_operator.Mongodb.Accounts.{set_user_password}
use mongodb_k8s_operator.Helpers.Random.{generate_password}
use mongodb_k8s_operator.Charm.PeerData.{peer_data_or_empty}
use mongodb_k8s_operator.Charm.Secrets.{get_secret, set_secret, juju_secrets_get}
use mongodb_k8s_operator.Charm.SecretIds.{compare_secret_ids}
use mongodb_k8s_operator.Charm.Configs.{mongodb_config}
use mongodb_k8s_operator.Charm.Services.{connect_mongodb_exporter, connect_pbm_agent}

-- `event.params.get(name, default)`
abbrev pub param_or : String → Option String → String
param_or default none = default
param_or default (some value) = value

abbrev pub is_text : Option String → String → Bool
is_text none value = false
is_text (some other) value = value == other

-- `_get_user_or_fail_event`, from the parameter "username".
unfoldable pub get_user_or_fail_event : Option String → String → Exec (Option String)
unfolding contains
get_user_or_fail_event username default_username =
    let name = param_or default_username username in
    if contains charm_users name then pure (some name) else do
      tell (
          fail (
            concat (
              "The action can be run only for users used by the charm:"
              ∷ " "
              ∷ join ", " charm_users
              ∷ " not "
              ∷ name
              ∷ [])))
      pure none

module _ (w : World) where
  -- `except NotReadyError`, and after it `except PyMongoError`; false as both return.
  unfoldable pub password_not_set : Error → Exec Bool
  password_not_set not_ready = do
    tell (fail "Failed to change the password: Not all members healthy or finished initial sync.")
    pure false
  password_not_set e =
      if is_pymongo e
      then tell (fail (append "Failed changing the password: " (w.str_of e))) >> pure false
      else raise e

  unfoldable pub change_in_mongodb : String → String → Exec Bool
  unfolding password_not_set
  change_in_mongodb username new_password = do
    config ← mongodb_config w
    with_connection w config none false
        λ conn. catch (set_user_password w conn username new_password >> pure true) password_not_set

  unfoldable pub keep_password : String → String → Exec ⊤
  keep_password username new_password = do
    key ← lift (get_password_key_name_for_user username)
    secret_id ← set_secret w app key (some new_password)
    when (username == backup_user.username) (connect_pbm_agent w)
    when (username == monitor_user.username) (connect_mongodb_exporter w)
    tell (set_results (("password", some new_password) ∷ ("secret-id", secret_id) ∷ []))

  unfoldable pub change_password : String → String → Exec ⊤
  change_password username new_password = do
    key ← lift (get_password_key_name_for_user username)
    old ← get_secret w app key
    if is_text old new_password
        then (do
          tell (log "The old and new passwords are equal.")
          tell (set_results (("password", some new_password) ∷ [])))
        else do
          changed ← change_in_mongodb username new_password
          if changed then keep_password username new_password else pure tt

  -- A password is generated in any case.
  unfoldable pub set_password_of : Option String → Option String → Exec ⊤
  set_password_of none password = pure tt
  set_password_of (some username) password = do
    generated ← generate_password w
    change_password username (param_or generated password)

  -- From the parameters "username" and "password".
  unfoldable pub on_set_password : Option String → Option String → Exec ⊤
  on_set_password username password = do
    leader ← asks w.is_leader
    if not leader then tell (fail "The action can be run only on leader unit.") else do
      user ← get_user_or_fail_event username operator_user.username
      set_password_of user password

  unfoldable pub get_password_of : Option String → Exec ⊤
  get_password_of none = pure tt
  get_password_of (some username) = do
    key ← lift (get_password_key_name_for_user username)
    password ← get_secret w app key
    tell (set_results (("password", password) ∷ []))

  unfoldable pub on_get_password : Option String → Exec ⊤
  unfolding get_password_of
  on_get_password username = do
    user ← get_user_or_fail_event username operator_user.username
    get_password_of user

  unfoldable pub refresh_secret : Scope → Exec ⊤
  refresh_secret scope = do
    juju_secrets_get w scope
    connect_mongodb_exporter w
    connect_pbm_agent w

  -- From the id of the event's secret.
  unfoldable pub on_secret_changed : String → Exec ⊤
  on_secret_changed secret_id = do
    app_bag ← peer_data_or_empty w app
    if compare_secret_ids secret_id (lookup secret_internal_label app_bag)
        then refresh_secret app
        else do
          unit_bag ← peer_data_or_empty w unit
          if compare_secret_ids secret_id (lookup secret_internal_label unit_bag)
              then refresh_secret unit
              else pure tt
