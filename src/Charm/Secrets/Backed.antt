-- ===== src/Charm/Secrets/Backed.antt =====
-- Secrets in memory and in Juju: what the charm holds is what a charm made anew finds in Juju.
use mongodb_k8s_operator.Prelude.{
  String, ◌≡◌, ◌≢◌, ◌⊎◌, inl, inr, ap, refl, Bool, true, Option, none, some, List, [], ◌∷◌, arith,
  eq_iff, Option-cases,
}
use mongodb_k8s_operator.Core.Error.{Result, ok, Result-cases}
use mongodb_k8s_operator.Core.Call.{
  Call, Scope, Content, app, unit, peer_set, secret_set, secret_add,
}
use mongodb_k8s_operator.Core.Exec.{◌>>=◌}
use mongodb_k8s_operator.Core.World.{World, State}
use mongodb_k8s_operator.Core.Dict.{lookup}
use mongodb_k8s_operator.Config.{peers}
use mongodb_k8s_operator.Charm.Dispatch.{restarted}
use mongodb_k8s_operator.Charm.Secrets.{slot_of, label_of, live, juju_secrets_get, get_secret}
use mongodb_k8s_operator.Charm.Secrets.Held.{Held, get_secret-Held}

-- What the charm relies on in Juju: it accepts each write to a secret, a secret has the content that
-- was last written to it, and the id of a secret that was added finds it.
pub record KeepsSecrets (w : World) : Type 0 where
  pub accepts : (t : List Call) → w.secret_written t ≡ ok tt
  pub written :
      (id : String) (c : Content) (t : List Call)
      → w.secret_written (secret_set id c ∷ t) ≡ ok tt
      → w.secret_content (secret_set id c ∷ t) id ≡ ok c
  pub added :
      (scope : Scope) (c : Content) (t : List Call) (id : String)
      → w.secret_added (secret_add scope c ∷ t) ≡ some id
      → w.secret_content (secret_add scope c ∷ t) id ≡ ok c
  pub found :
      (scope : Scope) (c : Content) (t : List Call) (id : String)
      → w.secret_added (secret_add scope c ∷ t) ≡ some id
      → w.secret_id (secret_add scope c ∷ t) id ≡ ok id
  -- Writing a databag changes no secret, and writing a secret changes no name.
  pub content_stays :
      (scope : Scope) (k v id : String) (t : List Call)
      → w.secret_content (peer_set scope k v ∷ t) id ≡ w.secret_content t id
  pub name_stays :
      (scope : Scope) (k v label : String) (t : List Call)
      → w.secret_id (peer_set scope k v ∷ t) label ≡ w.secret_id t label
  pub name_kept :
      (id : String) (c : Content) (label : String) (t : List Call)
      → w.secret_id (secret_set id c ∷ t) label ≡ w.secret_id t label

-- The scope has a secret in memory, with its content; its label is in the databag, and by it Juju
-- finds the same secret with the same content.
pub record Backed (w : World) (scope : Scope) (content : Content) (s : State) : Type 0 where
  pub id : String
  pub label : String
  pub slot : slot_of scope s ≡ record { secret = some id; cache = some content }
  pub labelled : label_of (w.peer_data s.trace scope) ≡ some label
  pub related : w.has_relation s.trace peers ≡ true
  pub named : w.secret_id s.trace label ≡ ok id
  pub there : w.secret_content s.trace id ≡ ok content

-- The scope is as the charm keeps it: nothing is in memory, or a secret that Juju has too.
abbrev pub IsBacked : World → Scope → State → Type 0
IsBacked w scope s =
    (slot_of scope s ≡ record { secret = none; cache = none })
    ⊎ ((content : Content) × Backed w scope content s)

-- What a key reads as, for the charm as it goes on, and for the charm that is made anew.
abbrev pub ReadsAs : World → Scope → String → State → Result (Option String) → Type 0
ReadsAs w scope key s value =
    ((get_secret w scope key s).0 ≡ value) × ((get_secret w scope key (restarted s)).0 ≡ value)

restarted-slot :
    (scope : Scope) (s : State)
    → slot_of scope (restarted s) ≡ record { secret = none; cache = none }
restarted-slot app s = refl
restarted-slot unit s = refl

module _ (w : World) (scope : Scope) where
  Backed-Held : {content : Content} {s : State} → Backed w scope content s → Held w scope content s
  Backed-Held b = record {
    id = b.id;
    label = b.label;
    slot = b.slot;
    labelled = b.labelled;
    related = b.related;
  }

  -- A secret that Juju has is read from there.
  get_secret-anew :
      (key : String) (content : Content) (s : State)
      → w.has_secrets ≡ true
      → key ≢ ""
      → Backed w scope content s
      → (get_secret w scope key (restarted s)).0 ≡ ok (live (lookup key content))
  unfolding get_secret ◌>>=◌
  get_secret-anew key [] s juju named b =
      ground (
        arith,
        juju,
        b.labelled,
        b.related,
        b.named,
        b.there,
        restarted-slot scope s,
        eq_iff key "",
      )
  get_secret-anew key (e ∷ rest) s juju named b =
      ground (
        arith,
        juju,
        b.labelled,
        b.related,
        b.named,
        b.there,
        restarted-slot scope s,
        eq_iff key "",
      )

  pub get_secret-Backed :
      (key : String) (content : Content) (s : State)
      → w.has_secrets ≡ true
      → key ≢ ""
      → Backed w scope content s
      → ReadsAs w scope key s (ok (live (lookup key content)))
  get_secret-Backed key content s juju named b = (
    ap (λ out. out.0) (get_secret-Held w scope key s content juju named (Backed-Held b)),
    get_secret-anew key content s juju named b,
  )

  -- Looking a secret up, with what Juju has of it.
  download-Backed :
      (s : State) (b : Bool) (label : String)
      → w.has_relation s.trace peers ≡ true
      → label_of (w.peer_data s.trace scope) ≡ some label
      → slot_of scope s ≡ record { secret = none; cache = none }
      → (juju_secrets_get w scope s).0 ≡ ok b
      → IsBacked w scope (juju_secrets_get w scope s).1
        × ((juju_secrets_get w scope s).1.trace ≡ s.trace)
  unfolding juju_secrets_get ◌>>=◌
  download-Backed s b label related labelled empty h =
      elim (Result-cases (w.secret_id s.trace label)) [
        | inl (e, ei) ↦ (inl (ground arith), ground arith)
        | inr (id, ei) ↦ elim (Result-cases (w.secret_content s.trace id)) [
          | inl (e, ec) ↦ ground arith
          | inr (content, ec) ↦ (
            inr (
              content,
              record {
                id = id;
                label = label;
                slot = ground arith;
                labelled = ground arith;
                related = ground arith;
                named = ground arith;
                there = ground arith;
              },
            ),
            ground arith,
          )
        ]
      ]

  pub juju_secrets_get-Backed :
      (s : State) (b : Bool)
      → w.has_relation s.trace peers ≡ true
      → IsBacked w scope s
      → (juju_secrets_get w scope s).0 ≡ ok b
      → IsBacked w scope (juju_secrets_get w scope s).1
        × ((juju_secrets_get w scope s).1.trace ≡ s.trace)
  juju_secrets_get-Backed s b related (inl empty) h =
      elim (Option-cases (label_of (w.peer_data s.trace scope))) [
        | inl missing ↦ unfold juju_secrets_get ◌>>=◌ in (inl (ground arith), ground arith)
        | inr (label, labelled) ↦ download-Backed s b label related labelled empty h
      ]
  juju_secrets_get-Backed s b related (inr (content, held)) h =
      unfold juju_secrets_get ◌>>=◌ in
      let same : (juju_secrets_get w scope s).1 ≡ s =
        ground (arith, held.slot, held.labelled, held.related) in
      (rw same (inr (content, held)), rw same refl)
