-- ===== src/Charm/Secrets/Writes.antt =====
-- What writing a secret leaves in memory and in Juju.
use mongodb_k8s_operator.Prelude.{
  String, ◌≡◌, inl, inr, true, some, List, [], ◌∷◌, arith, ◌==◌, eq_iff, Bool-cases, Option-cases,
  if◌then◌else◌,
}
use mongodb_k8s_operator.Core.Error.{ok}
use mongodb_k8s_operator.Core.Call.{Call, Scope, Content, peer_set, secret_set, secret_add}
use mongodb_k8s_operator.Core.Exec.{◌>>=◌}
use mongodb_k8s_operator.Core.World.{World, State}
use mongodb_k8s_operator.Core.Dict.{lookup, insert, lookup-insert}
use mongodb_k8s_operator.Config.{peers, secret_internal_label}
use mongodb_k8s_operator.Charm.Secrets.{same_value, create_secret, update_secret}
use mongodb_k8s_operator.Charm.Secrets.Held.{KeepsPeerData, same_value_eq}
use mongodb_k8s_operator.Charm.Secrets.Backed.{KeepsSecrets, Backed}

module _ (w : World) (laws : KeepsPeerData w) (juju : KeepsSecrets w) (scope : Scope)
    (key value : String) (s : State) where
  pub create_secret-Backed :
      (id : String)
      → w.has_relation s.trace peers ≡ true
      → (create_secret w scope key value s).0 ≡ ok id
      → Backed w scope ((key, value) ∷ []) (create_secret w scope key value s).1
  unfolding create_secret ◌>>=◌
  create_secret-Backed id related h =
      let t : List Call = secret_add scope ((key, value) ∷ []) ∷ s.trace in
      elim (Option-cases (w.secret_added t)) [
        | inl refused ↦ ground arith
        | inr (new, added) ↦ record {
          id = new;
          label = new;
          slot = ground arith;
          labelled = ground (
            arith,
            laws.written scope secret_internal_label new secret_internal_label t
                (laws.added_named t new added),
            laws.added_named t new added,
            eq_iff new "",
          );
          related = ground (
            arith,
            laws.relation_stays (peer_set scope secret_internal_label new) t,
            laws.relation_stays (secret_add scope ((key, value) ∷ [])) s.trace,
          );
          named = ground (
            arith,
            juju.name_stays scope secret_internal_label new new t,
            juju.found scope ((key, value) ∷ []) s.trace new added,
          );
          there = ground (
            arith,
            juju.content_stays scope secret_internal_label new new t,
            juju.added scope ((key, value) ∷ []) s.trace new added,
          );
        }
      ]

  pub update_secret-Backed :
      (content : Content) (held : Backed w scope content s)
      → (new : Content) × Backed w scope new (update_secret w scope key value held.id content s).1
        × ((j : String) → lookup j new ≡ (if key == j then some value else lookup j content))
  unfolding update_secret ◌>>=◌
  update_secret-Backed content held = elim (Bool-cases (same_value (lookup key content) value)) [
    | inl old ↦ (
      content,
      rw old held,
      λ j. ground (arith, eq_iff key j, same_value_eq (lookup key content) value old),
    )
    | inr changed ↦
        let t : List Call = secret_set held.id (insert key value content) ∷ s.trace in
        (
          insert key value content,
          record {
            id = held.id;
            label = held.label;
            slot = ground (arith, juju.accepts t);
            labelled = ground (
              arith,
              juju.accepts t,
              held.labelled,
              laws.after_secret_set held.id (insert key value content) s.trace scope,
            );
            related = ground (
              arith,
              juju.accepts t,
              held.related,
              laws.relation_stays (secret_set held.id (insert key value content)) s.trace,
            );
            named = ground (
              arith,
              juju.accepts t,
              held.named,
              juju.name_kept held.id (insert key value content) held.label s.trace,
            );
            there = ground (
              arith,
              juju.accepts t,
              juju.written held.id (insert key value content) s.trace (juju.accepts t),
            );
          },
          λ j. lookup-insert key j value content,
        )
  ]
