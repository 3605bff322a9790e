-- ===== src/Charm/Secrets/Held.antt =====
-- What `set_secret` leaves behind, with Juju secrets: the value in the cache of its scope, under a
-- secret whose label stands in the databag. From there `get_secret` reads it.
use mongodb_k8s_operator.Prelude.{
  String, ◌≡◌, ◌≢◌, ◌⊎◌, inl, inr, ap, Bool, true, Option, none, some, List, [], ◌∷◌, arith, ◌==◌,
  eq_iff, Bool-cases, Option-cases, if◌then◌else◌,
}
use mongodb_k8s_operator.Core.Error.{ok, Result-cases}
use mongodb_k8s_operator.Core.Call.{Call, Scope, Content, peer_set, secret_set, draw, secret_add}
use mongodb_k8s_operator.Core.Exec.{◌>>=◌}
use mongodb_k8s_operator.Core.World.{World, State}
use mongodb_k8s_operator.Core.Dict.{lookup, insert, lookup-insert}
use mongodb_k8s_operator.Config.{peers, secret_internal_label}
use mongodb_k8s_operator.Charm.Secrets.{
  slot_of, label_of, live, juju_secrets_get, same_value, create_secret, update_secret, get_secret,
}

-- What the charm relies on in Juju: a databag keeps what is written to it, a secret that is added has
-- an id, and neither writing secrets nor drawing random numbers changes a databag.
pub record KeepsPeerData (w : World) : Type 0 where
  pub written :
      (scope : Scope) (k v j : String) (t : List Call)
      → v ≢ ""
      → lookup j (w.peer_data (peer_set scope k v ∷ t) scope)
        ≡ (if k == j then some v else lookup j (w.peer_data t scope))
  pub after_secret_set :
      (id : String) (c : Content) (t : List Call) (scope : Scope)
      → w.peer_data (secret_set id c ∷ t) scope ≡ w.peer_data t scope
  pub after_draw :
      (t : List Call) (scope : Scope) → w.peer_data (draw ∷ t) scope ≡ w.peer_data t scope
  pub relation_stays :
      (c : Call) (t : List Call) → w.has_relation (c ∷ t) peers ≡ w.has_relation t peers
  pub added_named : (t : List Call) (id : String) → w.secret_added t ≡ some id → id ≢ ""

-- The scope has a secret in memory, with its content, and its label is in the databag.
pub record Held (w : World) (scope : Scope) (content : Content) (s : State) : Type 0 where
  pub id : String
  pub label : String
  pub slot : slot_of scope s ≡ record { secret = some id; cache = some content }
  pub labelled : label_of (w.peer_data s.trace scope) ≡ some label
  pub related : w.has_relation s.trace peers ≡ true

-- The scope is as the charm keeps it: nothing is in memory, or a secret is held.
abbrev pub IsSynced : World → Scope → State → Type 0
IsSynced w scope s =
    (slot_of scope s ≡ record { secret = none; cache = none })
    ⊎ ((content : Content) × Held w scope content s)

module _ (w : World) (scope : Scope) (key : String) (s : State) where
  -- A secret that is held is read from the cache, and nothing is called.
  pub get_secret-Held :
      (content : Content)
      → w.has_secrets ≡ true
      → key ≢ ""
      → Held w scope content s
      → get_secret w scope key s ≡ (ok (live (lookup key content)), s)
  unfolding get_secret ◌>>=◌
  get_secret-Held [] juju named h = ground (arith, h.slot, h.labelled, h.related, eq_iff key "")
  get_secret-Held (e ∷ rest) juju named h =
      ground (arith, h.slot, h.labelled, h.related, eq_iff key "")

-- Looking a secret up keeps the scope as it should be, and calls nothing.
pub record Looked (w : World) (scope : Scope) (before after : State) : Type 0 where
  pub synced : IsSynced w scope after
  pub same_trace : after.trace ≡ before.trace

module _ (w : World) where
  download-Looked :
      (scope : Scope) (s : State) (b : Bool) (label : String)
      → w.has_relation s.trace peers ≡ true
      → label_of (w.peer_data s.trace scope) ≡ some label
      → slot_of scope s ≡ record { secret = none; cache = none }
      → (juju_secrets_get w scope s).0 ≡ ok b
      → Looked w scope s (juju_secrets_get w scope s).1
  unfolding juju_secrets_get ◌>>=◌
  download-Looked scope s b label related labelled empty h =
      elim (Result-cases (w.secret_id s.trace label)) [
        | inl (e, ei) ↦ record { synced = inl (ground arith); same_trace = ground arith }
        | inr (id, ei) ↦ elim (Result-cases (w.secret_content s.trace id)) [
          | inl (e, ec) ↦ ground arith
          | inr (content, ec) ↦ record {
            synced = inr (
              content,
              record {
                id = id;
                label = label;
                slot = ground arith;
                labelled = ground arith;
                related = ground arith;
              },
            );
            same_trace = ground arith;
          }
        ]
      ]

  pub juju_secrets_get-Looked :
      (scope : Scope) (s : State) (b : Bool)
      → w.has_relation s.trace peers ≡ true
      → IsSynced w scope s
      → (juju_secrets_get w scope s).0 ≡ ok b
      → Looked w scope s (juju_secrets_get w scope s).1
  juju_secrets_get-Looked scope s b related (inl empty) h =
      elim (Option-cases (label_of (w.peer_data s.trace scope))) [
        | inl missing ↦
            unfold juju_secrets_get ◌>>=◌ in
            record { synced = inl (ground arith); same_trace = ground arith }
        | inr (label, labelled) ↦ download-Looked scope s b label related labelled empty h
      ]
  juju_secrets_get-Looked scope s b related (inr (content, held)) h =
      unfold juju_secrets_get ◌>>=◌ in
      let same : (juju_secrets_get w scope s).1 ≡ s =
        ground (arith, held.slot, held.labelled, held.related) in
      record { synced = rw same (inr (content, held)); same_trace = rw same }

pub same_value_eq : (o : Option String) (v : String) → same_value o v ≡ true → o ≡ some v
same_value_eq none v h = cc
same_value_eq (some u) v h = ap some ((eq_iff u v).0 h)

module _ (w : World) (laws : KeepsPeerData w) (scope : Scope) (key value : String) (s : State) where
  pub create_secret-Held :
      (id : String)
      → w.has_relation s.trace peers ≡ true
      → (create_secret w scope key value s).0 ≡ ok id
      → Held w scope ((key, value) ∷ []) (create_secret w scope key value s).1
  unfolding create_secret ◌>>=◌
  create_secret-Held id related h =
      let t : List Call = secret_add scope ((key, value) ∷ []) ∷ s.trace in
      elim (Option-cases (w.secret_added t)) [
        | inl refused ↦ ground arith
        | inr (new, added) ↦ record {
          id = new;
          label = new;
          slot = ground arith;
          labelled = ground (
            arith,
            laws.written scope secret_internal_label new secret_internal_label t
                (laws.added_named t new added),
            laws.added_named t new added,
            eq_iff new "",
          );
          related = ground (
            arith,
            laws.relation_stays (peer_set scope secret_internal_label new) t,
            laws.relation_stays (secret_add scope ((key, value) ∷ [])) s.trace,
          );
        }
      ]

  pub update_secret-Held :
      (content : Content) (id r : String)
      → Held w scope content s
      → (update_secret w scope key value id content s).0 ≡ ok r
      → (new : Content) × Held w scope new (update_secret w scope key value id content s).1
        × ((j : String) → lookup j new ≡ (if key == j then some value else lookup j content))
  unfolding update_secret ◌>>=◌
  update_secret-Held content id r held h =
      elim (Bool-cases (same_value (lookup key content) value)) [
        | inl old ↦ (
          content,
          rw old held,
          λ j. ground (arith, eq_iff key j, same_value_eq (lookup key content) value old),
        )
        | inr changed ↦ (
          insert key value content,
          record {
            id = id;
            label = held.label;
            slot = ground arith;
            labelled = ground (
              arith,
              held.labelled,
              laws.after_secret_set id (insert key value content) s.trace scope,
            );
            related = ground (
              arith,
              held.related,
              laws.relation_stays (secret_set id (insert key value content)) s.trace,
            );
          },
          λ j. lookup-insert key j value content,
        )
      ]
