-- ===== src/Charm/Reconcile/Leaving.antt =====
-- The hosts that are left when a unit departs.
use mongodb_k8s_operator.Prelude.{
  String, Bool, false, not, ◌&&◌, ◌==◌, ◌≡◌, refl, ◌∙◌, some, none, List, [], ◌∷◌, arith,
}
use mongodb_k8s_operator.Core.Call.{Call}
use mongodb_k8s_operator.Core.Error.{ok, err, Result}
use mongodb_k8s_operator.Mongodb.Hosts.{get_hostname_for_unit}
use mongodb_k8s_operator.Charm.Configs.{hostname_for}
use mongodb_k8s_operator.Core.Event.{
  Event, plain, peer_departed, relation_joined, relation_changed, relation_broken,
}
use mongodb_k8s_operator.Core.World.{World}
use mongodb_k8s_operator.Core.Exec.{lift}
use mongodb_k8s_operator.Core.Sets.{contains, contains-difference}
use mongodb_k8s_operator.Core.Safe.{Safe, Safe-bind, Safe-pure, Safe-lift}
use mongodb_k8s_operator.Charm.Reconcile.{remaining_hosts}

abbrev is_host : Result String → String → Bool
is_host (ok host) x = host == x
is_host (err e) x = false

-- The host is that of the unit that departs.
unfoldable pub is_leaving : World → Event → String → Bool
is_leaving w (peer_departed departing (some gone)) x =
    is_host (get_hostname_for_unit w.app_name gone) x
is_leaving w event x = false

lift-Safe :
    {P : Call → Type 0} (r : Result String)
    → Safe P (λ host. (x : String) → is_host r x ≡ (host == x)) (lift r)
lift-Safe (ok host) = Safe-lift _ (λ x. refl)
lift-Safe (err e) = Safe-lift _ tt

-- The hosts that may be added: a departing unit's is not among them.
abbrev pub AreRemaining : World → Event → List String → List String → Type 0
AreRemaining w event hosts remaining =
    (x : String) → contains remaining x ≡ (contains hosts x && not (is_leaving w event x))

pub remaining_hosts-Safe :
    {P : Call → Type 0} (w : World) (event : Event) (hosts : List String)
    → Safe P (AreRemaining w event hosts) (remaining_hosts w event hosts)
unfolding remaining_hosts is_leaving contains hostname_for
remaining_hosts-Safe w (peer_departed departing (some gone)) hosts =
    Safe-bind _ _ (lift-Safe (get_hostname_for_unit w.app_name gone)) λ host leaves.
      Safe-pure _ λ x. contains-difference hosts (host ∷ []) x ∙ ground (arith, leaves x)
remaining_hosts-Safe w (peer_departed departing none) hosts = Safe-pure _ λ x. ground arith
remaining_hosts-Safe w plain hosts = Safe-pure _ λ x. ground arith
remaining_hosts-Safe w (relation_joined id) hosts = Safe-pure _ λ x. ground arith
remaining_hosts-Safe w (relation_changed id) hosts = Safe-pure _ λ x. ground arith
remaining_hosts-Safe w (relation_broken id) hosts = Safe-pure _ λ x. ground arith
