-- ===== src/Charm/Dispatch/FirstStart.antt =====
-- The calls of a leader that initialises the replica set.
use mongodb_k8s_operator.Prelude.{
  ℕ, ◌+◌, ◌≤◌, String, true, false, Option, none, some, List, [], ◌∷◌, arith,
}
use mongodb_k8s_operator.Text.Decimal.{ReadsAscii}
use mongodb_k8s_operator.Core.Error.{Error, exec_error, operation_failure, is_pymongo}
use mongodb_k8s_operator.Core.Call.{Connection, Privileges, Member, Scope, app, defer}
use mongodb_k8s_operator.Core.Event.{Event}
use mongodb_k8s_operator.Core.World.{World, Exec, after_attempt}
use mongodb_k8s_operator.Core.Exec.{⊤}
use mongodb_k8s_operator.Core.Safe.{
  emits_rules, Emits, Safe-then, Safe-weaken, Safe-catch, Safe-raise, Emits-if, Emits-pure,
  Emits-tell, Emits-call,
}
use mongodb_k8s_operator.Core.Retry.{Retries, Emits-retry}
use mongodb_k8s_operator.Mongodb.Accounts.{create_role, role_exists, create_user}
use mongodb_k8s_operator.Mongodb.Configuration.{MongodbConfiguration}
use mongodb_k8s_operator.Mongodb.Calls.{with_connection-Safe}
use mongodb_k8s_operator.Mongodb.Replset.{enumerate, init_replset, already_initiated}
use mongodb_k8s_operator.Mongodb.Replset.Members.{HasDistinctIds, NoId}
use mongodb_k8s_operator.Provider.Safety.{Orders}
use mongodb_k8s_operator.Provider.Users.{oversee_users}
use mongodb_k8s_operator.Provider.Users.Calls.{oversee_users-Emits}
use mongodb_k8s_operator.Charm.Configs.Calls.{
  mongodb_config-Emits, monitor_config-Emits, backup_config-Emits,
}
use mongodb_k8s_operator.Charm.Services.Calls.{connect_mongodb_exporter-Emits}
use mongodb_k8s_operator.Users.{MongodbUser}
use mongodb_k8s_operator.Charm.Users.{
  once, init_operator_user, init_monitor_user, init_backup_user, create_operator_user,
  create_monitor_user, create_backup_user, is_user_created, set_user_created,
}
use mongodb_k8s_operator.Charm.Users.Calls.{password_set-Emits}
use mongodb_k8s_operator.Charm.PeerData.{set_db_initialised, write_peer_data, peer_data_or_empty}
use mongodb_k8s_operator.Charm.Lifecycle.{initialise, initialise_on, not_initialised}
use mongodb_k8s_operator.Charm.Dispatch.Work.{layers}
use mongodb_k8s_operator.Charm.Dispatch.Harmless.{
  CharmMay, of_unit, of_provider, app_secrets, told_or_raised,
}

AllAtLeast : ℕ → List Member → Type 0
AllAtLeast n [] = Unit
AllAtLeast n (m ∷ members) = (n ≤ m.id) × AllAtLeast n members

enumerate-AllAtLeast : (n i : ℕ) (hosts : List String) → n ≤ i → AllAtLeast n (enumerate i hosts)
unfolding enumerate AllAtLeast
enumerate-AllAtLeast n i [] h = tt
enumerate-AllAtLeast n i (host ∷ hosts) h = (h, enumerate-AllAtLeast n (i + 1) hosts (omega arith))

NoId-of_AllAtLeast : (i : ℕ) (members : List Member) → AllAtLeast (i + 1) members → NoId i members
unfolding AllAtLeast
NoId-of_AllAtLeast i [] h = tt
NoId-of_AllAtLeast i (m ∷ members) h = (omega arith, NoId-of_AllAtLeast i members h.1)

-- The members that `init_replset` sends.
enumerate-HasDistinctIds : (i : ℕ) (hosts : List String) → HasDistinctIds (enumerate i hosts)
unfolding enumerate
enumerate-HasDistinctIds i [] = tt
enumerate-HasDistinctIds i (host ∷ hosts) = (
  NoId-of_AllAtLeast i _ (enumerate-AllAtLeast (i + 1) (i + 1) hosts (omega arith)),
  enumerate-HasDistinctIds (i + 1) hosts,
)

module _ (w : World) where
  -- The first start.
  module _ (laws : Retries w) where
    peer_write-Emits :
        (scope : Scope) (key value : String)
        → Emits (CharmMay w) (write_peer_data w scope key value)
    unfolding write_peer_data
    peer_write-Emits scope key value = search (emits_rules, Emits-tell) depth 8

    already_initiated-Emits : (e : Error) → Emits (CharmMay w) (already_initiated e)
    already_initiated-Emits (operation_failure (some c)) = search emits_rules
    already_initiated-Emits e = Safe-raise _

    init_replset-Emits :
        (conn : Connection) (config : MongodbConfiguration)
        → Emits (CharmMay w) (init_replset w conn config)
    unfolding init_replset
    init_replset-Emits conn config =
        Emits-retry w laws _ _ _ _
          (Safe-catch _ _ (Emits-call _ _ (enumerate-HasDistinctIds 0 _)) already_initiated-Emits)

    role_exists-Emits : (e : Error) → Emits (CharmMay w) (role_exists e)
    role_exists-Emits (operation_failure (some c)) = search emits_rules
    role_exists-Emits e = Safe-raise _

    create_role-Emits :
        (conn : Connection) (name : String) (allowed : Privileges)
        → Emits (CharmMay w) (create_role w conn name allowed)
    unfolding create_role
    create_role-Emits conn name allowed = Safe-catch _ _ (Emits-call _ _ tt) role_exists-Emits

    create_user-Emits :
        (conn : Connection) (config : MongodbConfiguration)
        → Emits (CharmMay w) (create_user w conn config)
    unfolding create_user
    create_user-Emits conn config = search (emits_rules, Emits-call)

    once-Emits :
        (user : MongodbUser) (create : Exec ⊤)
        → Emits (CharmMay w) create
        → Emits (CharmMay w) (w.retry (after_attempt 3) true (λ _. true) (once w user create))
    unfolding once is_user_created peer_data_or_empty
    once-Emits user create k = Emits-retry w laws _ _ _ _ (search emits_rules depth 16)

    created-Emits : (user : MongodbUser) → Emits (CharmMay w) (set_user_created w user)
    unfolding set_user_created
    created-Emits user = peer_write-Emits app _ _

    operator-Emits : Emits (CharmMay w) (init_operator_user w)
    unfolding init_operator_user create_operator_user
    operator-Emits = once-Emits _ _ (
        Safe-then _ _ (Emits-call _ _ tt) λ mongosh.
          Safe-then _ _ (mongodb_config-Emits w) λ config.
            Safe-then _ _ (mongodb_config-Emits w) λ again. Safe-then _ _ (Emits-call _ _ tt) λ _.
              Safe-then _ _
                (Safe-catch _ _ (Safe-then _ _ (Emits-call _ _ tt) λ _. Emits-pure tt)
                  (λ e. Safe-raise _))
                λ _. created-Emits _)

    monitor-Emits : Emits (CharmMay w) (init_monitor_user w)
    unfolding init_monitor_user create_monitor_user
    monitor-Emits = once-Emits _ _ (
        Safe-then _ _ (mongodb_config-Emits w) λ config.
          Safe-then _ _
            (with_connection-Safe w config _ _ _ (λ conn. tt)
              λ conn. Safe-then _ _ (create_role-Emits conn _ _) λ _.
                Safe-then _ _ (monitor_config-Emits w)
                  λ monitor. Safe-then _ _ (create_user-Emits conn monitor) λ _. created-Emits _)
            λ _. connect_mongodb_exporter-Emits w (layers (of_unit w)))

    backup-Emits : Emits (CharmMay w) (init_backup_user w)
    unfolding init_backup_user create_backup_user
    backup-Emits = once-Emits _ _ (
        Safe-then _ _ (mongodb_config-Emits w) λ config.
          with_connection-Safe w config _ _ _ (λ conn. tt)
            λ conn. Safe-then _ _ (create_role-Emits conn _ _) λ _.
              Safe-then _ _ (password_set-Emits w (app_secrets w) tt _) λ _.
                Safe-then _ _ (backup_config-Emits w)
                  λ backup. Safe-then _ _ (create_user-Emits conn backup) λ _. created-Emits _)

    not_initialised-Emits : (e : Error) → Emits (CharmMay w) (not_initialised e)
    not_initialised-Emits (exec_error stdout) =
        Safe-then _ _ (Emits-tell _ tt) λ _. Emits-pure false
    not_initialised-Emits e = told_or_raised w (is_pymongo e) defer e tt

    module _ (orders : Orders w) (ascii : ReadsAscii w.decimal) where
      pub oversees-Emits :
          (departed : Option ℕ) (event : Event)
          → Emits (CharmMay w) (oversee_users w departed event)
      oversees-Emits departed event =
          Safe-weaken (of_provider w) (oversee_users-Emits w orders ascii departed event)

      pub initialise_on-Emits :
          (event : Event) (config : MongodbConfiguration) (direct : Connection)
          → Emits (CharmMay w) (initialise_on w event config direct)
      unfolding initialise_on initialise set_db_initialised
      initialise_on-Emits event config direct =
          Safe-then _ _
            (Safe-catch _ _
              (Safe-then _ _
                (Safe-then _ _ (init_replset-Emits direct config) λ _.
                  Safe-then _ _ operator-Emits λ _.
                    Safe-then _ _ backup-Emits
                      λ _. Safe-then _ _ monitor-Emits λ _. oversees-Emits none event)
                λ _. Emits-pure true)
              not_initialised-Emits)
            λ done. Emits-if _ _ _ (peer_write-Emits app _ _) (Emits-pure tt)
