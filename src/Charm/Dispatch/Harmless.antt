-- ===== src/Charm/Dispatch/Harmless.antt =====
-- What any unit may do to mongod, the leader included.
use mongodb_k8s_operator.Prelude.{Bool, false, ◌≡◌, if◌then◌else◌}
use mongodb_k8s_operator.Core.Error.{Error}
use mongodb_k8s_operator.Core.Call.{
  Call, Command, app, mongo, initiate, reconfig, update_roles, ping, get_config, get_status,
  users_info, list_database_names, step_down,
}
use mongodb_k8s_operator.Core.World.{World}
use mongodb_k8s_operator.Core.Exec.{pure, raise, tell, ◌>>◌}
use mongodb_k8s_operator.Core.Safe.{Emits, Safe-then, Safe-raise, Emits-if, Emits-pure, Emits-tell}
use mongodb_k8s_operator.Mongodb.Accounts.{is_system}
use mongodb_k8s_operator.Mongodb.Replset.Members.{HasDistinctIds}
use mongodb_k8s_operator.Provider.Safety.{IsRelationUser, ProviderMay}
use mongodb_k8s_operator.Charm.Secrets.Calls.{AllowsSecrets}
use mongodb_k8s_operator.Charm.Reconcile.Calls.{ReconcileMay}
use mongodb_k8s_operator.Charm.Dispatch.Work.{UnitMay, Works}

-- Users are dropped, and given other roles, only if they are a client relation's; no database of
-- MongoDB itself is dropped; and no two members of a configuration that is sent have one id.
abbrev pub IsHarmless : World → Command → Type 0
IsHarmless w (Command.drop_user username) = IsRelationUser w username
IsHarmless w (update_roles username roles) = IsRelationUser w username
IsHarmless w (Command.drop_database database) = is_system database ≡ false
IsHarmless w (initiate replset members) = HasDistinctIds members
IsHarmless w (reconfig cfg) = HasDistinctIds cfg.members
IsHarmless w command = Unit

abbrev pub CharmMay : World → Call → Type 0
CharmMay w (mongo conn command) = IsHarmless w command
CharmMay w c = Unit

module _ (w : World) where
  pub of_unit : (c : Call) → UnitMay c → CharmMay w c
  of_unit (mongo conn ping) h = tt
  of_unit (mongo conn get_status) h = tt
  of_unit (mongo conn command) h = absurd h
  of_unit c h = tt

  pub of_provider : (c : Call) → ProviderMay w c → CharmMay w c
  of_provider (mongo conn users_info) h = tt
  of_provider (mongo conn list_database_names) h = tt
  of_provider (mongo conn (Command.create_user username password roles mechanisms)) h = tt
  of_provider (mongo conn (update_roles username roles)) h = h
  of_provider (mongo conn (Command.drop_user username)) h = h
  of_provider (mongo conn (Command.drop_database database)) h = h
  of_provider (mongo conn command) h = absurd h
  of_provider c h = tt

  pub of_reconcile : (c : Call) → ReconcileMay c → CharmMay w c
  of_reconcile (mongo conn (reconfig cfg)) h = h
  of_reconcile (mongo conn ping) h = tt
  of_reconcile (mongo conn get_config) h = tt
  of_reconcile (mongo conn get_status) h = tt
  of_reconcile (mongo conn users_info) h = tt
  of_reconcile (mongo conn (step_down seconds)) h = tt
  of_reconcile (mongo conn command) h = absurd h
  of_reconcile c h = tt

  pub app_secrets : AllowsSecrets (CharmMay w) app
  app_secrets = record { adds = λ c. tt; writes = λ id c. tt; keeps = λ k v. tt; deletes = λ k. tt }

  pub leads : Works w Unit (CharmMay w)
  leads = record { may = of_unit; leading = λ t h. tt }

  pub told_or_raised :
      (b : Bool) (c : Call) (e : Error)
      → CharmMay w c
      → Emits (CharmMay w) (if b then tell c >> pure false else raise e)
  told_or_raised b c e h =
      Emits-if b (tell c >> pure false) (raise e)
        (Safe-then _ _ (Emits-tell c h) λ _. Emits-pure false) (Safe-raise e)
