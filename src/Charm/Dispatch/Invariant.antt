-- ===== src/Charm/Dispatch/Invariant.antt =====
-- The calls of any unit over any sequence of events.
use mongodb_k8s_operator.Prelude.{String, true, false, Option, none, some}
use mongodb_k8s_operator.Text.{append}
use mongodb_k8s_operator.Text.Decimal.{ReadsAscii}
use mongodb_k8s_operator.Core.Error.{Error, not_ready, is_pymongo}
use mongodb_k8s_operator.Core.Call.{app, fail}
use mongodb_k8s_operator.Core.World.{World, State}
use mongodb_k8s_operator.Core.Safe.{
  Emits, Extends, Safe-then, Safe-weaken, Safe-catch, Emits-if, Emits-pure, Emits-tell, Emits-call,
  Emits-lift,
}
use mongodb_k8s_operator.Core.Retry.{Retries}
use mongodb_k8s_operator.Mongodb.Accounts.{set_user_password}
use mongodb_k8s_operator.Mongodb.Calls.{with_connection-Safe}
use mongodb_k8s_operator.Mongodb.Replset.Calls.{ReportsDistinctIds}
use mongodb_k8s_operator.Provider.Safety.{Orders}
use mongodb_k8s_operator.Charm.Secrets.Calls.{get_secret-Emits}
use mongodb_k8s_operator.Charm.Configs.Calls.{mongodb_config-Emits}
use mongodb_k8s_operator.Charm.Users.Calls.{generate_password-Emits}
use mongodb_k8s_operator.Charm.Reconcile.Calls.{reconcile_as_leader-Emits}
use mongodb_k8s_operator.Charm.Actions.{
  set_password_of, change_password, change_in_mongodb, password_not_set,
}
use mongodb_k8s_operator.Charm.Dispatch.{Reaches}
use mongodb_k8s_operator.Charm.Actions.Attempt.{keep_password-Emits}
use mongodb_k8s_operator.Charm.Dispatch.Work.{layers}
use mongodb_k8s_operator.Charm.Dispatch.Parts.{handler-Emits}
use mongodb_k8s_operator.Charm.Dispatch.Followers.{Reaches-Extends}
use mongodb_k8s_operator.Charm.Dispatch.Harmless.{
  CharmMay, of_unit, of_reconcile, app_secrets, leads, told_or_raised,
}
use mongodb_k8s_operator.Charm.Dispatch.FirstStart.{oversees-Emits, initialise_on-Emits}

module _ (w : World) where
  -- A password that is set.
  password_not_set-Emits : (e : Error) → Emits (CharmMay w) (password_not_set w e)
  unfolding password_not_set
  password_not_set-Emits not_ready = Safe-then _ _ (Emits-tell _ tt) λ _. Emits-pure false
  password_not_set-Emits e =
      told_or_raised w (is_pymongo e) (fail (append "Failed changing the password: " (w.str_of e)))
        e tt

  change_in_mongodb-Emits :
      (username password : String) → Emits (CharmMay w) (change_in_mongodb w username password)
  unfolding change_in_mongodb set_user_password
  change_in_mongodb-Emits username password = Safe-then _ _ (mongodb_config-Emits w) λ config.
      with_connection-Safe w config _ _ _ (λ conn. tt)
        λ conn.
          Safe-catch _ _ (Safe-then _ _ (Emits-call _ _ tt) λ _. Emits-pure true)
            password_not_set-Emits

  sets_password-Emits :
      (user password : Option String) → Emits (CharmMay w) (set_password_of w user password)
  unfolding set_password_of change_password
  sets_password-Emits none password = Emits-pure tt
  sets_password-Emits (some username) password =
      Safe-then _ _ (generate_password-Emits w (app_secrets w) tt) λ generated.
        Safe-then _ _ (Emits-lift _) λ key. Safe-then _ _ (get_secret-Emits w app key) λ old.
          Emits-if _ _ _ (Safe-then _ _ (Emits-tell _ tt) λ _. Emits-tell _ tt) (
            Safe-then _ _ (change_in_mongodb-Emits username _) λ changed.
              Emits-if _ _ _
                (keep_password-Emits w username _ (app_secrets w) (layers (of_unit w)) (λ _. tt))
                (Emits-pure tt))

  -- Over any sequence of events, a unit drops, and gives other roles to, only users of client
  -- relations; it drops no database of MongoDB itself; and no two members of a configuration that it
  -- sends to mongod, the first one included, have one id. The conditions: tenacity makes attempts
  -- and nothing else, mongod's own configurations have distinct ids, iterating a set visits its
  -- elements, and ASCII's digits have their values.
  pub events-Harmless :
      (s t : State)
      → Retries w
      → ReportsDistinctIds w
      → Orders w
      → ReadsAscii w.decimal
      → Reaches w s t
      → Extends (CharmMay w) s.trace t.trace
  events-Harmless s t laws ids orders ascii r =
      Reaches-Extends w s t
        (handler-Emits w laws (leads w) (record {
          secrets = λ _. (app_secrets w);
          initialises = λ _. initialise_on-Emits w laws orders ascii;
          reconciles =
              λ _ event. Safe-weaken (of_reconcile w) (reconcile_as_leader-Emits w laws ids event);
          sets_password = λ _. sets_password-Emits;
          oversees = λ _. oversees-Emits w laws orders ascii;
        }))
        r
