-- ===== src/Charm/Actions/Refused.antt =====
-- A change of password that mongod refuses.
use mongodb_k8s_operator.Prelude.{
  String, Bool, false, Option, none, some, List, ◌≡◌, ◌≢◌, refl, if◌then◌else◌,
}
use mongodb_k8s_operator.Text.{append}
use mongodb_k8s_operator.Core.Error.{Error, not_ready, is_pymongo, ok}
use mongodb_k8s_operator.Core.Call.{
  Call, Connection, mongo, close, update_password, fail, log, set_results, draw,
}
use mongodb_k8s_operator.Core.World.{World}
use mongodb_k8s_operator.Core.Exec.{pure, raise, tell, ◌>>◌}
use mongodb_k8s_operator.Core.Safe.{
  emits_rules, Safe, Emits, Good-of_eq, Safe-then, Safe-bind, Safe-if, Safe-pure, Safe-raise,
  Safe-call, Safe-catch, Emits-if, Emits-pure, Emits-tell, Emits-lift,
}
use mongodb_k8s_operator.Mongodb.Accounts.{set_user_password}
use mongodb_k8s_operator.Mongodb.Calls.{with_connection-Safe}
use mongodb_k8s_operator.Helpers.Random.{generate_password}
use mongodb_k8s_operator.Charm.Secrets.Calls.{get_secret-Emits}
use mongodb_k8s_operator.Charm.Configs.Calls.{mongodb_config-Emits}
use mongodb_k8s_operator.Charm.Actions.{
  password_not_set, change_in_mongodb, change_password, set_password_of, get_user_or_fail_event,
  on_set_password,
}

-- Commands that change a password, answers to the action, and nothing that is kept.
abbrev pub RefusedMay : Call → Type 0
RefusedMay (mongo conn (update_password username password)) = Unit
RefusedMay (close conn) = Unit
RefusedMay (fail message) = Unit
RefusedMay (log message) = Unit
RefusedMay (set_results results) = Unit
RefusedMay draw = Unit
RefusedMay c = ⊥

unfoldable pub IsFalse : Bool → Type 0
IsFalse b = b ≡ false

module _ (w : World) where
  failed_or_raised :
      (caught : Bool) (e : Error) (message : String)
      → Safe RefusedMay IsFalse (if caught then tell (fail message) >> pure false else raise e)
  unfolding IsFalse
  failed_or_raised caught e message =
      Safe-if caught _ _ (λ _. Safe-then _ _ (Emits-tell _ tt) (λ _. Safe-pure false refl))
        (λ _. Safe-raise e)

  pub password_not_set-Safe : (e : Error) → Safe RefusedMay IsFalse (password_not_set w e)
  unfolding password_not_set IsFalse
  password_not_set-Safe not_ready = Safe-then _ _ (Emits-tell _ tt) (λ _. Safe-pure false refl)
  password_not_set-Safe e =
      failed_or_raised (is_pymongo e) e (append "Failed changing the password: " (w.str_of e))

  module _ (refuses : (t : List Call) → w.run t ≢ ok tt) where
    set_user_password-Safe :
        (conn : Connection) (username password : String)
        → Safe RefusedMay (λ _. ⊥) (set_user_password w conn username password)
    unfolding set_user_password
    set_user_password-Safe conn username password =
        Safe-call _ _ tt (λ t. Good-of_eq (λ _. ⊥) (w.run t) (λ done e. refuses t e))

    change_in_mongodb-Safe :
        (username password : String)
        → Safe RefusedMay IsFalse (change_in_mongodb w username password)
    unfolding change_in_mongodb
    change_in_mongodb-Safe username password = Safe-then _ _ (mongodb_config-Emits w) λ config.
        with_connection-Safe w config none false _ (λ conn. tt)
          λ conn.
            Safe-catch _ _
              (Safe-bind _ _ (set_user_password-Safe conn username password)
                (λ done never. elim never [ ]))
              password_not_set-Safe

    change_password-Emits :
        (username password : String) → Emits RefusedMay (change_password w username password)
    unfolding change_password IsFalse
    change_password-Emits username password = Safe-then _ _ (Emits-lift _) λ key.
        Safe-then _ _ (get_secret-Emits w _ key) λ old.
          Emits-if _ _ _ (Safe-then _ _ (Emits-tell _ tt) λ _. Emits-tell _ tt) (
            Safe-bind _ _ (change_in_mongodb-Safe username password)
              λ changed refused. rw refused (Emits-pure tt))

  pub generate_password-Emits : Emits RefusedMay (generate_password w)
  unfolding generate_password
  generate_password-Emits = search (emits_rules, Emits-tell) depth 9

  pub get_user_or_fail_event-Emits :
      (username : Option String) (default_username : String)
      → Emits RefusedMay (get_user_or_fail_event username default_username)
  unfolding get_user_or_fail_event
  get_user_or_fail_event-Emits username default_username = search (emits_rules, Emits-tell) depth 9

  set_password_of-Emits :
      (username password : Option String)
      → ((t : List Call) → w.run t ≢ ok tt)
      → Emits RefusedMay (set_password_of w username password)
  unfolding set_password_of
  set_password_of-Emits none password refuses = Emits-pure tt
  set_password_of-Emits (some username) password refuses =
      Safe-then _ _ generate_password-Emits λ generated. change_password-Emits refuses username _

  -- If mongod refuses every command, the set-password action writes no secret and no data, and starts
  -- no service: what it does is to try the change, to answer the action, and to draw a password.
  pub on_set_password-refused :
      (username password : Option String)
      → ((t : List Call) → w.run t ≢ ok tt)
      → Emits RefusedMay (on_set_password w username password)
  unfolding on_set_password
  on_set_password-refused username password refuses =
      search (emits_rules, Emits-tell, get_user_or_fail_event-Emits, set_password_of-Emits, refuses)
        depth 14
