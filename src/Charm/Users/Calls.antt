-- ===== src/Charm/Users/Calls.antt =====
-- The calls that generate the charm's secrets.
use mongodb_k8s_operator.Prelude.{String}
use mongodb_k8s_operator.Core.Call.{Call, app, draw}
use mongodb_k8s_operator.Core.World.{World, Exec}
use mongodb_k8s_operator.Core.Safe.{emits_rules, Emits, Emits-tell}
use mongodb_k8s_operator.Users.{MongodbUser}
use mongodb_k8s_operator.Helpers.Random.{generate_password, generate_keyfile}
use mongodb_k8s_operator.Charm.Secrets.Calls.{AllowsSecrets, get_secret-Emits, set_secret-Emits}
use mongodb_k8s_operator.Charm.Users.{
  check_or_set, check_or_set_user_password, check_or_set_keyfile, generate_secrets,
}

module _ {P : Call → Type 0} (w : World) (allows : AllowsSecrets P app) (draws : P draw) where
  check_or_set-Emits :
      (key : String) (generate : Exec String)
      → Emits P generate
      → Emits P (check_or_set w key generate)
  unfolding check_or_set
  check_or_set-Emits key generate k =
      search (emits_rules, get_secret-Emits, set_secret-Emits, allows) depth 14

  pub generate_password-Emits : Emits P (generate_password w)
  unfolding generate_password
  generate_password-Emits = search (emits_rules, Emits-tell, draws) depth 9

  generate_keyfile-Emits : Emits P (generate_keyfile w)
  unfolding generate_keyfile
  generate_keyfile-Emits = search (emits_rules, Emits-tell, draws) depth 9

  pub password_set-Emits : (user : MongodbUser) → Emits P (check_or_set_user_password w user)
  unfolding check_or_set_user_password
  password_set-Emits user = check_or_set-Emits _ _ generate_password-Emits

  pub generate_secrets-Emits : Emits P (generate_secrets w)
  unfolding generate_secrets check_or_set_keyfile
  generate_secrets-Emits =
      search (emits_rules, password_set-Emits, check_or_set-Emits, generate_keyfile-Emits) depth 9
