-- ===== src/Charm/Configs/Hosts.antt =====
-- The hosts of a configuration: those of the units of the application.
use mongodb_k8s_operator.Prelude.{
  String, Bool-cases, inl, inr, true, ◌==◌, ◌≡◌, refl, Option, none, some, List, [], ◌∷◌,
}
use mongodb_k8s_operator.Core.Error.{ok}
use mongodb_k8s_operator.Core.Call.{Call}
use mongodb_k8s_operator.Core.World.{World}
use mongodb_k8s_operator.Core.Exec.{map_each}
use mongodb_k8s_operator.Core.Sets.{to_set}
use mongodb_k8s_operator.Core.Safe.{
  Safe, Safe-bind, Safe-then, Safe-pure, Safe-raise, Safe-lift, Safe-asks,
}
use mongodb_k8s_operator.Users.{MongodbUser, operator_user}
use mongodb_k8s_operator.Config.{peers}
use mongodb_k8s_operator.Mongodb.Hosts.{get_hostname_for_unit}
use mongodb_k8s_operator.Charm.Secrets.Calls.{get_secret-Emits}
use mongodb_k8s_operator.Tls.Calls.{get_tls_files-Emits}
use mongodb_k8s_operator.Charm.Configs.{
  hostname_for, unit_hosts, config_with, get_mongodb_config_for_user, mongodb_config,
}

-- The hosts of units, one by one.
abbrev pub AreHosts : String → List String → List String → Type 0
AreHosts app [] [] = Unit
AreHosts app [] (h ∷ hosts) = ⊥
AreHosts app (u ∷ units) [] = ⊥
AreHosts app (u ∷ units) (h ∷ hosts) =
    (get_hostname_for_unit app u ≡ ok h) × AreHosts app units hosts

-- Juju shows a handler the same other units throughout; the hosts are the unit's own and theirs.
pub record ShowsUnits (w : World) (units hosts : List String) : Type 0 where
  pub related : (t : List Call) → w.has_relation t peers ≡ true
  pub shown : (t : List Call) → w.peer_units t ≡ units
  pub named : AreHosts w.app_name (w.unit_name ∷ units) hosts

module _ {P : Call → Type 0} (w : World) where
  hostname_for-Safe :
      (u h : String)
      → get_hostname_for_unit w.app_name u ≡ ok h
      → Safe P (λ r. r ≡ h) (hostname_for w u)
  unfolding hostname_for
  hostname_for-Safe u h named = Safe-lift _ (rw named refl)

  hosts-Safe :
      (units hosts : List String)
      → AreHosts w.app_name units hosts
      → Safe P (λ r. r ≡ hosts) (map_each units (hostname_for w))
  unfolding map_each
  hosts-Safe [] [] named = Safe-pure _ refl
  hosts-Safe [] (h ∷ hosts) named = absurd named
  hosts-Safe (u ∷ units) [] named = absurd named
  hosts-Safe (u ∷ units) (h ∷ hosts) named = Safe-bind _ _ (hostname_for-Safe u h named.0) λ own e.
      Safe-bind _ _ (hosts-Safe units hosts named.1) λ others es. Safe-pure _ (rw (e, es) refl)

  unit_hosts-Safe :
      (units : List String) (own : String) (hosts : List String)
      → ShowsUnits w units (own ∷ hosts)
      → Safe P (λ r. r ≡ own ∷ hosts) (unit_hosts w)
  unfolding unit_hosts
  unit_hosts-Safe units own hosts shows =
      Safe-bind _ _ (hostname_for-Safe w.unit_name own shows.named.0) λ mine e.
        Safe-bind {Q = λ found. found ≡ true} _ _ (Safe-asks _ shows.related) λ found there.
          Safe-bind {Q = λ others. others ≡ units} _ _ (Safe-asks _ shows.shown) λ others same.
            let rest : Safe P (λ r. r ≡ hosts) (map_each others (hostname_for w)) =
              rw same (hosts-Safe units hosts shows.named.1) in
            rw there (Safe-bind _ _ rest λ r es. Safe-pure _ (ap2_cons mine own r hosts e es))
    where
      ap2_cons :
          (a b : String) (x y : List String) → a ≡ b → x ≡ y → ◌≡◌ {A = List String} (a ∷ x) (b ∷ y)
      ap2_cons a b x y p q = cc

  config_with-Safe :
      (user : MongodbUser) (hosts : List String) (external internal password : Option String)
      → Safe P
          (λ config. config.hosts ≡ to_set hosts)
          (config_with w user hosts external internal password)
  unfolding config_with
  config_with-Safe user hosts external internal none = Safe-raise _
  config_with-Safe user hosts external internal (some password) =
      elim (Bool-cases (password == "")) [
        | inl e ↦ rw e (Safe-raise _)
        | inr e ↦ rw e (Safe-pure _ refl)
      ]

  -- The configuration of the operator has the hosts of all units.
  pub mongodb_config-Hosts :
      (units : List String) (own : String) (hosts : List String)
      → ShowsUnits w units (own ∷ hosts)
      → Safe P (λ config. config.hosts ≡ to_set (own ∷ hosts)) (mongodb_config w)
  unfolding mongodb_config get_mongodb_config_for_user
  mongodb_config-Hosts units own hosts shows =
      Safe-bind _ _ (unit_hosts-Safe units own hosts shows) λ found e.
        Safe-then _ _ (get_tls_files-Emits w _) λ external.
          Safe-then _ _ (get_tls_files-Emits w _) λ internal.
            Safe-then _ _ (get_secret-Emits w _ _) λ password.
              rw (← e) (config_with-Safe operator_user found external.0 internal.0 password)
