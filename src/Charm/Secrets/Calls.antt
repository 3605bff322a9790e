-- ===== src/Charm/Secrets/Calls.antt =====
-- The calls that secrets make: reading one makes none, and writing one makes those of its scope.
use mongodb_k8s_operator.Prelude.{String, ◌≡◌, refl, Option, none, some}
use mongodb_k8s_operator.Core.Error.{Error, secret_not_found, os_error}
use mongodb_k8s_operator.Core.Call.{
  Call, Scope, Content, peer_set, peer_delete, secret_add, secret_set,
}
use mongodb_k8s_operator.Core.World.{World, State, SecretSlot}
use mongodb_k8s_operator.Core.Safe.{
  emits_rules, Emits, Safe-then, Safe-raise, Emits-pure, Emits-modify, Emits-gets, Emits-if,
  Emits-call, Emits-tell,
}
use mongodb_k8s_operator.Charm.PeerData.{peer_data}
use mongodb_k8s_operator.Charm.Secrets.{
  put_slot, set_slot, not_found, not_written, keep_secret, download, cached_or_download, labelled,
  juju_secrets_get, juju_secret_get_key, get_secret, update_secret, create_secret, set_in_slot,
  juju_secret_set, mark_deleted, remove_from_slot, juju_secret_remove, remove_secret, set_value,
  set_secret,
}

put_slot-trace :
    (scope : Scope) (slot : SecretSlot) (s : State) → (put_slot scope slot s).trace ≡ s.trace
put_slot-trace scope slot s = refl

module _ {P : Call → Type 0} where
  set_slot-Emits : (scope : Scope) (slot : SecretSlot) → Emits P (set_slot scope slot)
  set_slot-Emits scope slot = Emits-modify (put_slot scope slot) (put_slot-trace scope slot)

  not_found-Emits : (e : Error) → Emits P (not_found e)
  not_found-Emits secret_not_found = Emits-pure none
  not_found-Emits e = Safe-raise _

  module _ (w : World) (scope : Scope) where
    pub peer_data-Emits : Emits P (peer_data w scope)
    unfolding peer_data
    peer_data-Emits = search emits_rules depth 9

    keep_secret-Emits : (id : Option String) → Emits P (keep_secret w scope id)
    unfolding keep_secret
    keep_secret-Emits none = search emits_rules
    keep_secret-Emits (some id) = search (emits_rules, set_slot-Emits) depth 12

    cached-Emits :
        (label : String) (cache : Option Content) → Emits P (cached_or_download w scope label cache)
    unfolding cached_or_download
    cached-Emits label none =
        unfold download in search (emits_rules, keep_secret-Emits, not_found-Emits) depth 12
    cached-Emits label (some content) = search emits_rules

    labelled-Emits : (label : Option String) → Emits P (labelled w scope label)
    unfolding labelled
    labelled-Emits none = search emits_rules
    labelled-Emits (some label) = search (emits_rules, cached-Emits) depth 9

    pub juju_secrets_get-Emits : Emits P (juju_secrets_get w scope)
    unfolding juju_secrets_get
    juju_secrets_get-Emits = search (emits_rules, peer_data-Emits, labelled-Emits) depth 9

    -- Reading a secret calls nothing, of whatever kind.
    pub get_secret-Emits : (key : String) → Emits P (get_secret w scope key)
    unfolding get_secret juju_secret_get_key
    get_secret-Emits key = search (emits_rules, peer_data-Emits, juju_secrets_get-Emits) depth 14

-- The calls that write the secrets of a scope, with and without Juju secrets.
pub record AllowsSecrets (P : Call → Type 0) (scope : Scope) : Type 0 where
  pub adds : (c : Content) → P (secret_add scope c)
  pub writes : (id : String) (c : Content) → P (secret_set id c)
  pub keeps : (k v : String) → P (peer_set scope k v)
  pub deletes : (k : String) → P (peer_delete scope k)

module _ {P : Call → Type 0} (w : World) (scope : Scope) (allows : AllowsSecrets P scope) where
  not_written-Emits : (e : Error) → Emits P (not_written e)
  not_written-Emits os_error = Emits-pure tt
  not_written-Emits e = Safe-raise _

  update_secret-Emits :
      (key value id : String) (content : Content)
      → Emits P (update_secret w scope key value id content)
  unfolding update_secret
  update_secret-Emits key value id content =
      search (emits_rules, set_slot-Emits, not_written-Emits, Emits-call, allows.writes) depth 12

  create_secret-Emits : (key value : String) → Emits P (create_secret w scope key value)
  unfolding create_secret
  create_secret-Emits key value =
      search (emits_rules, set_slot-Emits, Emits-call, Emits-tell, allows.adds, allows.keeps) depth
        14

  set_in_slot-Emits :
      (key value : String) (secret : Option String) (cache : Option Content)
      → Emits P (set_in_slot w scope key value (record { secret = secret; cache = cache }))
  unfolding set_in_slot
  set_in_slot-Emits key value none cache = create_secret-Emits key value
  set_in_slot-Emits key value (some id) cache = search (emits_rules, update_secret-Emits) depth 8

  mark_deleted-Emits :
      (key id : String) (content : Content) → Emits P (mark_deleted w scope key id content)
  unfolding mark_deleted
  mark_deleted-Emits key id content =
      search (emits_rules, set_slot-Emits, Emits-call, allows.writes) depth 9

  remove_from_slot-Emits :
      (key : String) (secret : Option String) (cache : Option Content)
      → Emits P (remove_from_slot w scope key (record { secret = secret; cache = cache }))
  unfolding remove_from_slot
  remove_from_slot-Emits key none cache = Emits-pure tt
  remove_from_slot-Emits key (some id) none = Emits-pure tt
  remove_from_slot-Emits key (some id) (some content) =
      Emits-if _ _ _ (unfold remove_from_slot in mark_deleted-Emits key id content) (Emits-pure tt)

  juju_secret_set-Emits : (key value : String) → Emits P (juju_secret_set w scope key value)
  unfolding juju_secret_set
  juju_secret_set-Emits key value = Safe-then _ _ (peer_data-Emits w scope) λ _.
      Safe-then _ _ (juju_secrets_get-Emits w scope)
        λ _. Safe-then _ _ (Emits-gets _) λ slot. set_in_slot-Emits key value slot.secret slot.cache

  remove_secret-Emits : (key : String) → Emits P (remove_secret w scope key)
  unfolding remove_secret juju_secret_remove
  remove_secret-Emits key =
      Emits-if _ _ _
        (Safe-then _ _ (juju_secrets_get-Emits w scope) λ _.
          Safe-then _ _ (Emits-gets _) λ slot. remove_from_slot-Emits key slot.secret slot.cache)
        (Safe-then _ _ (peer_data-Emits w scope) λ _. Emits-tell _ (allows.deletes key))

  pub set_secret-Emits :
      (key : String) (value : Option String) → Emits P (set_secret w scope key value)
  unfolding set_secret set_value
  set_secret-Emits key none = search (emits_rules, remove_secret-Emits) depth 8
  set_secret-Emits key (some value) =
      search
        (
          emits_rules, remove_secret-Emits, juju_secret_set-Emits, peer_data-Emits, Emits-tell,
          allows.keeps,
        )
        depth 14
