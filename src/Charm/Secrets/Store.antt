-- ===== src/Charm/Secrets/Store.antt =====
-- The content of a secret that is held, after a value is set.
use mongodb_k8s_operator.Prelude.{
  String, ◌≡◌, ◌≢◌, inl, inr, true, Option, some, arith, ◌==◌, eq_iff, if◌then◌else◌,
}
use mongodb_k8s_operator.Core.Error.{ok, Result-cases}
use mongodb_k8s_operator.Core.Call.{Scope, Content}
use mongodb_k8s_operator.Core.World.{World, State}
use mongodb_k8s_operator.Core.Exec.{◌>>=◌}
use mongodb_k8s_operator.Core.Dict.{lookup}
use mongodb_k8s_operator.Charm.PeerData.{peer_data}
use mongodb_k8s_operator.Charm.Secrets.{
  juju_secrets_get, update_secret, set_in_slot, juju_secret_set, set_value, set_secret,
}
use mongodb_k8s_operator.Charm.Secrets.Held.{KeepsPeerData, Held, update_secret-Held}

module _ (w : World) (laws : KeepsPeerData w) (scope : Scope) (key value : String)
    (content : Content) (s : State) where
  juju_secret_set-update :
      (held : Held w scope content s)
      → juju_secret_set w scope key value s ≡ update_secret w scope key value held.id content s
  unfolding juju_secret_set set_in_slot juju_secrets_get peer_data ◌>>=◌
  juju_secret_set-update held = ground (arith, held.slot, held.labelled, held.related)

  pub set_secret-state :
      w.has_secrets ≡ true
      → value ≢ ""
      → (set_secret w scope key (some value) s).1 ≡ (juju_secret_set w scope key value s).1
  unfolding set_secret set_value ◌>>=◌
  set_secret-state juju filled = elim (Result-cases (juju_secret_set w scope key value s).0) [
    | inl (e, ee) ↦ ground (arith, eq_iff value "")
    | inr (r, er) ↦ ground (arith, eq_iff value "")
  ]

  pub set_secret-ok :
      (r : Option String)
      → w.has_secrets ≡ true
      → value ≢ ""
      → (set_secret w scope key (some value) s).0 ≡ ok r
      → (id : String) × ((juju_secret_set w scope key value s).0 ≡ ok id)
  unfolding set_secret set_value ◌>>=◌
  set_secret-ok r juju filled h = elim (Result-cases (juju_secret_set w scope key value s).0) [
    | inl (e, ee) ↦ ground (arith, eq_iff value "")
    | inr (id, er) ↦ (id, er)
  ]

  -- The content after a value is set.
  pub set_secret-Held :
      (r : Option String)
      → w.has_secrets ≡ true
      → Held w scope content s
      → value ≢ ""
      → (set_secret w scope key (some value) s).0 ≡ ok r
      → (new : Content) × Held w scope new (set_secret w scope key (some value) s).1
        × ((j : String) → lookup j new ≡ (if key == j then some value else lookup j content))
  set_secret-Held r juju held filled h =
      let (id, done) = set_secret-ok r juju filled h in
      rw (set_secret-state juju filled) (
        rw (juju_secret_set-update held) (
          update_secret-Held w laws scope key value s content held.id id held
            (rw (juju_secret_set-update held) at done)))
