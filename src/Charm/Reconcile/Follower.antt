-- ===== src/Charm/Reconcile/Follower.antt =====
-- What a unit that is not the leader does on events of the peer relation and of secrets.
use mongodb_k8s_operator.Prelude.{String, true, false, ◌||◌, ◌≡◌, refl, List}
use mongodb_k8s_operator.Core.Call.{
  Call, Scope, Content, app, unit, peer_set, can_connect, get_plan, add_layer, replan,
}
use mongodb_k8s_operator.Core.Event.{Event}
use mongodb_k8s_operator.Core.World.{World}
use mongodb_k8s_operator.Core.Safe.{
  emits_rules, Safe, Safe-if, Emits, Safe-then, Safe-bind, Safe-asks, Emits-pure,
}
use mongodb_k8s_operator.Config.{peers, secret_internal_label}
use mongodb_k8s_operator.Core.Dict.{lookup}
use mongodb_k8s_operator.Charm.SecretIds.{compare_secret_ids}
use mongodb_k8s_operator.Charm.PeerData.{peer_data_or_empty}
use mongodb_k8s_operator.Charm.Secrets.Calls.{juju_secrets_get-Emits}
use mongodb_k8s_operator.Charm.Services.Calls.{
  AllowsLayers, connect_mongodb_exporter-Emits, connect_pbm_agent-Emits,
}
use mongodb_k8s_operator.Charm.Reconcile.{relation_changes_handler}
use mongodb_k8s_operator.Charm.Reconcile.Calls.{note_departure-Emits}
use mongodb_k8s_operator.Charm.Actions.{on_secret_changed, refresh_secret}

-- Services of the container, and the note that the unit departs.
abbrev pub FollowerMay : Call → Type 0
FollowerMay (peer_set unit key value) = (key ≡ "unit_departed") × (value ≡ "True")
FollowerMay can_connect = Unit
FollowerMay (get_plan name) = Unit
FollowerMay (add_layer label name service) = Unit
FollowerMay replan = Unit
FollowerMay c = ⊥

layers_allowed : AllowsLayers FollowerMay
layers_allowed = record {
  asks_container = tt;
  reads_plan = λ name. tt;
  adds = λ label name service. tt;
  replans = tt;
}

-- A unit that is never the leader sends nothing to mongod on a peer event, and writes no secret and
-- no data but its own "unit_departed"; all else is the exporter's and the backup agent's service.
pub relation_changes-follower :
    (w : World) (event : Event)
    → ((t : List Call) → w.is_leader t ≡ false)
    → Emits FollowerMay (relation_changes_handler w event)
unfolding relation_changes_handler
relation_changes-follower w event never =
    Safe-then _ _ (connect_mongodb_exporter-Emits w layers_allowed) λ _.
      Safe-then _ _ (connect_pbm_agent-Emits w layers_allowed) λ _.
        Safe-then _ _ (note_departure-Emits w (refl, refl) event) λ _.
          Safe-bind {Q = λ leader. leader ≡ false} _ _ (Safe-asks _ never)
            λ leader follows. rw follows (Emits-pure tt)

-- Calls on services of the container.
abbrev pub ServiceMay : Call → Type 0
ServiceMay can_connect = Unit
ServiceMay (get_plan name) = Unit
ServiceMay (add_layer label name service) = Unit
ServiceMay replan = Unit
ServiceMay c = ⊥

module _ {P : Call → Type 0} (w : World) where
  refresh_secret-Emits : (scope : Scope) → AllowsLayers P → Emits P (refresh_secret w scope)
  unfolding refresh_secret
  refresh_secret-Emits scope allowed = Safe-then _ _ (juju_secrets_get-Emits w scope) λ _.
      Safe-then _ _ (connect_mongodb_exporter-Emits w allowed)
        λ _. connect_pbm_agent-Emits w allowed

  -- Whatever the id is.
  pub any_secret-Emits :
      (secret_id : String) → AllowsLayers P → Emits P (on_secret_changed w secret_id)
  unfolding on_secret_changed peer_data_or_empty
  any_secret-Emits secret_id allowed = search (emits_rules, refresh_secret-Emits, allowed) depth 16

-- The id is that of the application's or of the unit's secret, as the databags have them.
abbrev pub IsKnown : (Scope → Content) → String → Type 0
IsKnown bag secret_id =
    (compare_secret_ids secret_id (lookup secret_internal_label (bag app))
      || compare_secret_ids secret_id (lookup secret_internal_label (bag unit)))
    ≡ true

-- Calls on services of the container, for a known secret.
abbrev pub RefreshMay : (Scope → Content) → String → Call → Type 0
RefreshMay bag secret_id c = IsKnown bag secret_id × ServiceMay c

peer_data_or_empty-Safe :
    {P : Call → Type 0} {bag : Content} (w : World) (scope : Scope)
    → ((t : List Call) → w.has_relation t peers ≡ true)
    → ((t : List Call) → w.peer_data t scope ≡ bag)
    → Safe P (λ b. b ≡ bag) (peer_data_or_empty w scope)
unfolding peer_data_or_empty
peer_data_or_empty-Safe w scope related shown =
    Safe-bind {Q = λ found. found ≡ true} _ _ (Safe-asks _ related)
      λ found there. rw there (Safe-asks _ shown)

module _ (w : World) (bag : Scope → Content) (secret_id : String) where
  known_layers : IsKnown bag secret_id → AllowsLayers (RefreshMay bag secret_id)
  known_layers known = record {
    asks_container = (known, tt);
    reads_plan = λ name. (known, tt);
    adds = λ label name service. (known, tt);
    replans = (known, tt);
  }

  -- A changed secret whose id is neither that of the application's secret nor that of the unit's, as
  -- the databags have them, makes the handler call nothing. For one of these two it changes services
  -- of the container and nothing else: no secret and no data is written, and mongod is sent nothing.
  -- The conditions: the peer relation is there, and Juju shows the handler one state of its databags.
  pub on_secret_changed-Emits :
      ((t : List Call) → w.has_relation t peers ≡ true)
      → ((t : List Call) (scope : Scope) → w.peer_data t scope ≡ bag scope)
      → Emits (RefreshMay bag secret_id) (on_secret_changed w secret_id)
  unfolding on_secret_changed
  on_secret_changed-Emits related shown = Safe-bind _ _ (bag_is app) λ app_bag ours. rw ours (
      Safe-if (compare_secret_ids secret_id (lookup secret_internal_label (bag app))) _ _
        (λ same. refresh_secret-Emits w app (known_layers (rw same refl)))
        (λ differs. Safe-bind _ _ (bag_is unit) λ unit_bag own. rw own (
          Safe-if (compare_secret_ids secret_id (lookup secret_internal_label (bag unit))) _ _
            (λ same. refresh_secret-Emits w unit (known_layers (rw (same, differs) refl)))
            (λ other. Emits-pure tt))))
    where
      bag_is :
          (scope : Scope)
          → Safe (RefreshMay bag secret_id) (λ b. b ≡ bag scope) (peer_data_or_empty w scope)
      bag_is scope = peer_data_or_empty-Safe w scope related (λ t. shown t scope)
