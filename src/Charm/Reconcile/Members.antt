-- ===== src/Charm/Reconcile/Members.antt =====
-- Bringing the members of the replica set in line with the hosts of the application.
use mongodb_k8s_operator.Prelude.{
  String, Bool, true, not, ◌&&◌, ◌||◌, ◌≡◌, refl, sym, ◌∙◌, ap, ◌⊎◌, inl, inr, List, ◌∷◌, map,
  arith, if◌then◌else◌,
}
use mongodb_k8s_operator.Charm.Secrets.Calls.{AllowsSecrets}
use mongodb_k8s_operator.Charm.Services.Calls.{AllowsLayers}
use mongodb_k8s_operator.Core.Call.{Call, Connection, Member, app, mongo, get_status}
use mongodb_k8s_operator.Mongodb.Hosts.{hostname_from_hostport}
use mongodb_k8s_operator.Core.Event.{Event}
use mongodb_k8s_operator.Core.World.{World}
use mongodb_k8s_operator.Core.Exec.{⊤}
use mongodb_k8s_operator.Core.Sets.{contains, same_set, contains-to_set, contains-subset, to_set}
use mongodb_k8s_operator.Core.Safe.{emits_rules, Extends, Emits, Emits-tell, same, more}
use mongodb_k8s_operator.Core.Ensures.{
  Post, Ensures, Ensures-bind, Ensures-call, Ensures-Safe, Ensures-both, Ensures-pure, Ensures-if,
  Ensures-weaken, Ensures-after,
}
use mongodb_k8s_operator.Core.Retry.{Retries}
use mongodb_k8s_operator.Mongodb.Replset.{get_replset_members}
use mongodb_k8s_operator.Mongodb.Calls.{get_replset_members-Emits}
use mongodb_k8s_operator.Mongodb.MemberStore.{
  LeavesMembers, ReportsMembers, members_after, has_host, members_after-Extends,
}
use mongodb_k8s_operator.Mongodb.MemberStore.Steps.{HasNoPort}
use mongodb_k8s_operator.Provider.Safety.{Orders, Every}
use mongodb_k8s_operator.Charm.Configs.Hosts.{ShowsUnits, mongodb_config-Hosts}
use mongodb_k8s_operator.Charm.Reconcile.Leaving.{is_leaving}
use mongodb_k8s_operator.Charm.Reconcile.Goal.{replaced, reconfigure-Reaches}
use mongodb_k8s_operator.Charm.Reconcile.Deferred.{Deferred, Extends-Deferred, Extends-any}
use mongodb_k8s_operator.Charm.Reconcile.{
  reconfigure, reconcile_members, set_leader_unit_active_if_needed,
}

-- A unit's host is in the replica set, if it was or the unit does not depart; no other host is.
abbrev pub IsReached : World → List Member → Event → List String → Post ⊤
IsReached w base event hosts t a t' =
    Deferred t t'
    ⊎ ((x : String)
        → has_host (members_after w base t') x ≡ (
            contains hosts x
            && (has_host (members_after w base t) x || not (is_leaving w event x))))

pub secrets_leave : AllowsSecrets LeavesMembers app
secrets_leave = record { adds = λ c. tt; writes = λ id c. tt; keeps = λ k v. tt; deletes = λ k. tt }

pub layers_leave : AllowsLayers LeavesMembers
layers_leave = record {
  asks_container = tt;
  reads_plan = λ name. tt;
  adds = λ label name service. tt;
  replans = tt;
}

module _ (w : World) (base : List Member) (reports : ReportsMembers w base) (laws : Retries w) where
  replaced-all :
      (event : Event) (members hosts : List String) (x : String) (b : Bool)
      → contains members x ≡ b
      → replaced w base reports laws event members hosts x b
        ≡ (contains hosts x && (b || not (is_leaving w event x)))
  replaced-all event members hosts x b known = ground (arith, known)

  -- The hosts that the replica set reports are those of its members.
  get_members-known :
      (conn : Connection)
      → Ensures
          (λ t members t'.
            (x : String)
            → (contains members x ≡ has_host (members_after w base t') x)
              × (has_host (members_after w base t') x ≡ has_host (members_after w base t) x))
          (get_replset_members w conn)
  unfolding get_replset_members
  get_members-known conn =
      Ensures-bind
        {R = λ statuses t members t'.
          (t' ≡ t)
          × ((x : String)
              → contains members x
                ≡ contains (map (λ m. hostname_from_hostport m.name) statuses) x)}
        _ _
        (Ensures-call
          {Q = λ t statuses t'.
            (x : String)
            → (contains (map (λ m. hostname_from_hostport m.name) statuses) x
                ≡ has_host (members_after w base t') x)
              × (has_host (members_after w base t') x ≡ has_host (members_after w base t) x)}
          _ _
          λ t statuses e x.
            let kept =
              members_after-Extends w base t (mongo conn get_status ∷ t) (more refl same) in
            (reports.listed _ statuses x e, ap (λ members. has_host members x) kept))
        (λ statuses. Ensures-pure _ λ t. (refl, λ x. contains-to_set _ x))
        λ t u v statuses members read made x.
          let same_calls : v ≡ u = made.0 in rw same_calls (made.1 x ∙ (read x).0, (read x).1)

  pub IsReached-before :
      (event : Event) (hosts : List String) {t u v : List Call} {a : ⊤}
      → Extends LeavesMembers t u
      → IsReached w base event hosts u a v
      → IsReached w base event hosts t a v
  IsReached-before event hosts x (inl d) = inl (Extends-Deferred (Extends-any x) d)
  IsReached-before event hosts {t} {u} x (inr f) = inr λ y.
      f y
      ∙ ap (λ members. contains hosts y && (has_host members y || not (is_leaving w event y)))
          (members_after-Extends w base t u x)

  same_hosts :
      (members hosts : List String) (x : String)
      → same_set members hosts ≡ true
      → contains members x ≡ contains hosts x
  unfolding same_set
  same_hosts members hosts x h =
      ground (arith, h, contains-subset members hosts x, contains-subset hosts members x)

  pub reads_members : (conn : Connection) → Emits LeavesMembers (get_replset_members w conn)
  reads_members conn = get_replset_members-Emits w conn refl

  pub active_if_needed-leaves : Emits LeavesMembers (set_leader_unit_active_if_needed w)
  unfolding set_leader_unit_active_if_needed
  active_if_needed-leaves = search (emits_rules, Emits-tell) depth 9

  module _ (orders : Orders w) (units : List String) (own : String) (others : List String)
      (shows : ShowsUnits w units (own ∷ others)) (bare : Every HasNoPort (own ∷ others)) where
    -- Once the members are known.
    brought_in_line :
        (event : Event) (conn : Connection) (members hosts : List String)
        → hosts ≡ to_set (own ∷ others)
        → Ensures
            (λ t a t'.
              ((x : String) → contains members x ≡ has_host (members_after w base t) x)
              → IsReached w base event (own ∷ others) t a t')
            (if same_set members hosts
              then set_leader_unit_active_if_needed w
              else reconfigure w event conn members hosts)
    brought_in_line event conn members hosts e =
        let listed : (x : String) → contains hosts x ≡ contains (own ∷ others) x =
          λ x. ap (λ s. contains s x) e ∙ contains-to_set (own ∷ others) x in
        Ensures-if _ _ _
          (λ same_members.
            Ensures-Safe
              (λ t a t' _ kept known. inr (λ x.
                let here : has_host (members_after w base t) x ≡ contains (own ∷ others) x =
                  sym (known x) ∙ same_hosts members hosts x same_members ∙ listed x in
                ap (λ ms. has_host ms x) (members_after-Extends w base t t' kept)
                ∙ all_there (has_host (members_after w base t) x) (contains (own ∷ others) x)
                    (is_leaving w event x) here))
              active_if_needed-leaves)
          (λ differ.
            Ensures-weaken
              (λ t a t' reached known. elim reached [
                | inl d ↦ inl d
                | inr f ↦ inr (λ x.
                    f x
                    ∙ replaced-all event members hosts x _ (known x)
                    ∙ ap
                        (λ c.
                          c && (has_host (members_after w base t) x || not (is_leaving w event x)))
                        (listed x))
              ])
              (reconfigure-Reaches w base reports laws event conn members hosts orders
                (λ x m. bare x (sym (listed x) ∙ m))))
      where
        all_there : (b c d : Bool) → b ≡ c → b ≡ (c && (b || not d))
        all_there b c d e = ground arith

    pub reconcile_members-Reaches :
        (event : Event) (conn : Connection)
        → Ensures (IsReached w base event (own ∷ others)) (reconcile_members w event conn)
    unfolding reconcile_members
    reconcile_members-Reaches event conn =
        Ensures-bind
          {R = λ members t a t'.
            ((x : String) → contains members x ≡ has_host (members_after w base t) x)
            → IsReached w base event (own ∷ others) t a t'}
          _ _ (Ensures-both (reads_members conn) (get_members-known conn))
          (λ members.
            Ensures-after _ _ (mongodb_config-Hosts w units own others shows)
              (λ config e. brought_in_line event conn members config.hosts e)
              λ t u v a x reached known. IsReached-before event (own ∷ others) x (
                reached (λ y.
                  known y ∙ sym (ap (λ ms. has_host ms y) (members_after-Extends w base t u x)))))
          λ t u v members a read done.
            IsReached-before event (own ∷ others) read.1 (done (λ x. (read.2 x).0))
