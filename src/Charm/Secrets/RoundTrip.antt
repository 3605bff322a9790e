-- ===== src/Charm/Secrets/RoundTrip.antt =====
-- Reading back what `set_secret` and `remove_secret` wrote, with Juju secrets: from memory, and from
-- Juju once the charm is made anew.
use mongodb_k8s_operator.Prelude.{
  String, ◌≡◌, ◌≢◌, inl, inr, ap, ◌∙◌, Bool, true, false, Option, none, some, List, [], ◌∷◌, arith,
  ◌==◌, eq_iff, eq_refl, Bool-cases, if◌then◌else◌,
}
use mongodb_k8s_operator.Core.Error.{ok, Result-cases}
use mongodb_k8s_operator.Core.Call.{Call, Scope, Content, secret_set}
use mongodb_k8s_operator.Core.Exec.{◌>>=◌}
use mongodb_k8s_operator.Core.World.{World, State}
use mongodb_k8s_operator.Core.Dict.{lookup, insert, lookup-insert, has_key}
use mongodb_k8s_operator.Config.{peers, secret_deleted_label}
use mongodb_k8s_operator.Charm.PeerData.{peer_data}
use mongodb_k8s_operator.Charm.Secrets.{
  slot_of, live, is_filled, juju_secrets_get, set_in_slot, get_secret, juju_secret_set, set_secret,
  update_secret, remove_from_slot, mark_deleted, juju_secret_remove, remove_secret,
}
use mongodb_k8s_operator.Charm.Secrets.Held.{KeepsPeerData}
use mongodb_k8s_operator.Charm.Secrets.Store.{set_secret-state, set_secret-ok}
use mongodb_k8s_operator.Charm.Secrets.Backed.{
  KeepsSecrets, Backed, IsBacked, ReadsAs, get_secret-Backed, juju_secrets_get-Backed,
}
use mongodb_k8s_operator.Charm.Secrets.Writes.{create_secret-Backed, update_secret-Backed}

-- A content in memory and in Juju, in which a key has a value.
abbrev HasValue : World → Scope → String → String → State → Type 0
HasValue w scope key value s =
    (content : Content) × Backed w scope content s × (lookup key content ≡ some value)

module _ (w : World) (laws : KeepsPeerData w) (keeps : KeepsSecrets w) (scope : Scope)
    (key : String) where
  module _ (value : String) where
    set_in_slot-HasValue :
        (s : State) (r : String)
        → w.has_relation s.trace peers ≡ true
        → IsBacked w scope s
        → (set_in_slot w scope key value (slot_of scope s) s).0 ≡ ok r
        → HasValue w scope key value (set_in_slot w scope key value (slot_of scope s) s).1
    unfolding set_in_slot ◌>>=◌
    set_in_slot-HasValue s r related (inl empty) h = rw empty (
      (key, value) ∷ [],
      create_secret-Backed w laws keeps scope key value s r related (rw empty at h),
      rw (eq_refl key),
    )
    set_in_slot-HasValue s r related (inr (content, held)) h =
        let (new, kept, found) = update_secret-Backed w laws keeps scope key value s content held in
        rw held.slot (new, kept, found key ∙ rw (eq_refl key))

    juju_secret_set-HasValue :
        (s : State) (r : String)
        → w.has_relation s.trace peers ≡ true
        → IsBacked w scope s
        → (juju_secret_set w scope key value s).0 ≡ ok r
        → HasValue w scope key value (juju_secret_set w scope key value s).1
    juju_secret_set-HasValue s r related backed h =
        elim (Result-cases (juju_secrets_get w scope s).0) [
          | inl (e, el) ↦ unfold juju_secret_set peer_data ◌>>=◌ in ground arith
          | inr (b, el) ↦
              let t : State = (juju_secrets_get w scope s).1 in
              let (synced, same_trace) = juju_secrets_get-Backed w scope s b related backed el in
              let same : juju_secret_set w scope key value s
                  ≡ set_in_slot w scope key value (slot_of scope t) t =
                unfold juju_secret_set peer_data ◌>>=◌ in ground (arith, related, el) in
              rw same (set_in_slot-HasValue t r (rw same_trace related) synced (rw same at h))
        ]

    read_value :
        value ≢ ""
        → live (some value) ≡ (if value == secret_deleted_label then none else some value)
    read_value filled = ground (arith, eq_iff value "")

    -- With Juju secrets, a value that is set without an error is read back, by the charm as it
    -- goes on and from Juju by the charm that is made anew for the next event; only the text
    -- "None", the mark of a deleted entry, reads as no value at all. The conditions: Juju accepts
    -- each write to a secret, databags and secrets keep what is written to them, the peer
    -- relation is there, nothing is in memory or what is there is what Juju has, and neither the
    -- key nor the value is empty.
    pub set-get :
        (s : State) (r : Option String)
        → w.has_secrets ≡ true
        → w.has_relation s.trace peers ≡ true
        → IsBacked w scope s
        → key ≢ ""
        → value ≢ ""
        → (set_secret w scope key (some value) s).0 ≡ ok r
        → ReadsAs w scope key
            (set_secret w scope key (some value) s).1
            (ok (if value == secret_deleted_label then none else some value))
    set-get s r juju related backed named filled h =
        let (id, done) = set_secret-ok w laws scope key value [] s r juju filled h in
        let (content, held, found) = juju_secret_set-HasValue s id related backed done in
        let expected : live (lookup key content)
            ≡ (if value == secret_deleted_label then none else some value) =
          ap live found ∙ read_value filled in
        rw (set_secret-state w laws scope key value [] s juju filled)
          (rw (← expected) (get_secret-Backed w scope key content _ juju named held))

  module _ (content : Content) (s : State) where
    juju_secret_set-Backed :
        (value : String) (held : Backed w scope content s)
        → juju_secret_set w scope key value s ≡ update_secret w scope key value held.id content s
    unfolding juju_secret_set set_in_slot juju_secrets_get peer_data ◌>>=◌
    juju_secret_set-Backed value held = ground (arith, held.slot, held.labelled, held.related)

    -- With Juju secrets and a secret that is held, a value that is set without an error changes
    -- what its own key reads as and no other key of the scope, for the charm as it goes on and,
    -- from Juju, for the charm that is made anew: a store of keys and values, but for the text
    -- "None", the mark of a deleted entry. The conditions: Juju accepts each write to a secret,
    -- databags and secrets keep what is written to them, what is in memory is what Juju has, and
    -- neither the keys nor the value is empty.
    pub set-get-others :
        (value j : String) (r : Option String)
        → w.has_secrets ≡ true
        → Backed w scope content s
        → j ≢ ""
        → value ≢ ""
        → (set_secret w scope key (some value) s).0 ≡ ok r
        → ReadsAs w scope j (set_secret w scope key (some value) s).1 (
            if key == j
            then ok (if value == secret_deleted_label then none else some value)
            else (get_secret w scope j s).0)
    set-get-others value j r juju held named filled h =
        let (new, kept, found) = update_secret-Backed w laws keeps scope key value s content held in
        let before = (get_secret-Backed w scope j content s juju named held).0 in
        let expected : ok (live (lookup j new)) ≡ (
            if key == j
            then ok (if value == secret_deleted_label then none else some value)
            else (get_secret w scope j s).0) =
          rw before (ground (arith, found j, eq_iff value "")) in
        rw (set_secret-state w laws scope key value content s juju filled) (
          rw (juju_secret_set-Backed value held)
            (rw (← expected) (get_secret-Backed w scope j new _ juju named kept)))

    juju_secrets_get-kept :
        Backed w scope content s → (b : Bool) × (juju_secrets_get w scope s ≡ (ok b, s))
    unfolding juju_secrets_get ◌>>=◌
    juju_secrets_get-kept held =
        (is_filled (some content), ground (arith, held.slot, held.labelled, held.related))

    remove-Backed :
        w.has_secrets ≡ true
        → has_key key content ≡ true
        → Backed w scope content s
        → Backed w scope (insert key secret_deleted_label content) (remove_secret w scope key s).1
    unfolding remove_secret juju_secret_remove remove_from_slot mark_deleted ◌>>=◌
    remove-Backed juju there held =
        let (b, kept) = juju_secrets_get-kept held in
        let new : Content = insert key secret_deleted_label content in
        let t : List Call = secret_set held.id new ∷ s.trace in
        record {
          id = held.id;
          label = held.label;
          slot = ground (arith, held.slot, kept);
          labelled = ground (
            arith,
            held.slot,
            kept,
            held.labelled,
            laws.after_secret_set held.id new s.trace scope,
          );
          related = ground (
            arith,
            held.slot,
            kept,
            held.related,
            laws.relation_stays (secret_set held.id new) s.trace,
          );
          named =
              ground (
                arith,
                held.slot,
                kept,
                held.named,
                keeps.name_kept held.id new held.label s.trace,
              );
          there =
              ground (arith, held.slot, kept, keeps.written held.id new s.trace (keeps.accepts t));
        }

    remove-absent :
        w.has_secrets ≡ true
        → has_key key content ≡ false
        → Backed w scope content s
        → (remove_secret w scope key s).1 ≡ s
    unfolding remove_secret juju_secret_remove remove_from_slot ◌>>=◌
    remove-absent juju absent held =
        let (b, kept) = juju_secrets_get-kept held in ground (arith, held.slot, kept)

    -- With Juju secrets and a secret that is held, a key that is removed reads as none, and every
    -- other key of its scope reads as it did, for the charm as it goes on and, from Juju, for the
    -- charm that is made anew. The conditions: Juju accepts each write to a secret, databags and
    -- secrets keep what is written to them, what is in memory is what Juju has, and the key that
    -- is read is not empty.
    pub remove-get :
        (j : String)
        → w.has_secrets ≡ true
        → Backed w scope content s
        → j ≢ ""
        → ReadsAs w scope j
            (remove_secret w scope key s).1
            (if key == j then ok none else (get_secret w scope j s).0)
    remove-get j juju held named =
        let before = (get_secret-Backed w scope j content s juju named held).0 in
        elim (Bool-cases (has_key key content)) [
          | inl there ↦
              let expected : ok (live (lookup j (insert key secret_deleted_label content)))
                  ≡ (if key == j then ok none else (get_secret w scope j s).0) =
                rw before (ground (arith, lookup-insert key j secret_deleted_label content)) in
              rw (← expected)
                (get_secret-Backed w scope j _ _ juju named (remove-Backed juju there held))
          | inr absent ↦
              let expected : ok (live (lookup j content))
                  ≡ (if key == j then ok none else (get_secret w scope j s).0) =
                rw before (ground (arith, eq_iff key j)) in
              rw (remove-absent juju absent held, ← expected)
                (get_secret-Backed w scope j content s juju named held)
        ]
