-- ===== src/Charm/Reconcile/Goal.antt =====
-- What reconciling reaches: the members of the replica set are the hosts of the application.
use mongodb_k8s_operator.Prelude.{
  ℕ, String, Bool, false, not, ◌&&◌, ◌||◌, ◌==◌, ◌≡◌, refl, ◌∙◌, ap, ◌⊎◌, inl, inr, Option, List,
  [], ◌∷◌, arith,
}
use mongodb_k8s_operator.Core.Call.{Call, Connection, Member}
use mongodb_k8s_operator.Core.Event.{Event}
use mongodb_k8s_operator.Core.World.{World}
use mongodb_k8s_operator.Core.Exec.{⊤, ◌>>=◌}
use mongodb_k8s_operator.Core.Sets.{contains, difference, contains-difference}
use mongodb_k8s_operator.Core.Safe.{
  emits_rules, All, Extends, Emits, Safe-weaken, Emits-call, Emits-pure, Emits-tell, Emits-for_all,
  Emits-if, Safe-then, Safe-Emits, same,
}
use mongodb_k8s_operator.Core.Ensures.{
  Post, Ensures, Ensures-bind, Ensures-Safe, Ensures-both, Ensures-pure, Ensures-if, Ensures-weaken,
  Ensures-after,
}
use mongodb_k8s_operator.Core.Retry.{Retries, Emits-retry}
use mongodb_k8s_operator.Mongodb.Replset.{add_replset_member, remove_attempt, remove_replset_member}
use mongodb_k8s_operator.Mongodb.MemberStore.{
  LeavesMembers, ReportsMembers, members_after, has_host, members_after-Extends,
}
use mongodb_k8s_operator.Mongodb.MemberStore.Steps.{
  HasNoPort, add-ChangesHosts, remove_each-ChangesHosts,
}
use mongodb_k8s_operator.Provider.Safety.{Orders, Every, All-set_order}
use mongodb_k8s_operator.Charm.Reconcile.Deferred.{
  Deferred, Deferred-Extends, Extends-Deferred, Extends-any, member_is_ready-leaves,
  member_is_ready-Deferred,
}
use mongodb_k8s_operator.Mongodb.Accounts.{get_users}
use mongodb_k8s_operator.Provider.Users.{get_config}
use mongodb_k8s_operator.Provider.Users.Calls.{Every-difference}
use mongodb_k8s_operator.Provider.Users.Steps.{get_config-Safe}
use mongodb_k8s_operator.Charm.Reconcile.{
  add_units_from_replica_set, remove_units_from_replica_set, reconfigure, update_relation,
  update_app_relation_data,
}
use mongodb_k8s_operator.Charm.Reconcile.Leaving.{is_leaving, AreRemaining, remaining_hosts-Safe}

module _ (w : World) (base : List Member) (reports : ReportsMembers w base) (laws : Retries w) where
  -- A host is there as the function says, or the event was deferred.
  abbrev pub ReachesOrDefers : (String → Bool → Bool) → Post ⊤
  ReachesOrDefers f t a t' =
      Deferred t t'
      ⊎ ((x : String)
          → has_host (members_after w base t') x ≡ f x (has_host (members_after w base t) x))

  ReachesOrDefers-before :
      (f : String → Bool → Bool) {t u v : List Call} {a : ⊤}
      → Extends LeavesMembers t u
      → ReachesOrDefers f u a v
      → ReachesOrDefers f t a v
  ReachesOrDefers-before f x (inl d) = inl (Extends-Deferred (Extends-any x) d)
  ReachesOrDefers-before f {t} {u} x (inr g) =
      inr λ y. g y ∙ ap (λ members. f y (has_host members y)) (members_after-Extends w base t u x)

  abbrev pub joined : List String → String → Bool → Bool
  joined hosts x b = contains hosts x || b

  module _ (conn : Connection) where
    add_member-Emits : (h : String) → Emits (λ c. Unit) (add_replset_member w conn h)
    unfolding add_replset_member
    add_member-Emits h = search (emits_rules, Emits-call) depth 16

    add_units-Reaches :
        (hosts : List String)
        → All HasNoPort hosts
        → Ensures (ReachesOrDefers (joined hosts)) (add_units_from_replica_set w conn hosts)
    unfolding add_units_from_replica_set contains
    add_units-Reaches [] bare = Ensures-pure tt (λ t. inr (λ x. refl))
    add_units-Reaches (h ∷ hosts) bare =
        Ensures-bind
          {R = λ ready t a t'.
            ((ready ≡ false) × Extends (λ c. Unit) t t')
            ⊎ ReachesOrDefers (joined (h ∷ hosts)) t a t'}
          _ _ (Ensures-both (member_is_ready-leaves w laws h) (member_is_ready-Deferred w laws h))
          (λ ready.
            Ensures-if _ _ _
              (λ e.
                Ensures-weaken (λ t a t' r. inr r)
                  (Ensures-bind _ _
                    (Ensures-both (add_member-Emits h)
                      (add-ChangesHosts w base reports conn h bare.0))
                    (λ _. add_units-Reaches hosts bare.1)
                    λ t u v a b first rest. elim rest [
                      | inl d ↦ inl (Extends-Deferred first.1 d)
                      | inr f ↦ inr (λ x. ground (arith, f x, first.2 x))
                    ]))
              (λ e. Ensures-pure tt (λ t. inl (e, same))))
          λ t u v ready b first rest. elim rest [
            | inl ended ↦ inl (Deferred-Extends (first.2 ended.0) ended.1)
            | inr (inl d) ↦ inl (Extends-Deferred (Extends-any first.1) d)
            | inr (inr f) ↦ inr (λ x.
                f x
                ∙ ap (λ members. h == x || contains hosts x || has_host members x)
                    (members_after-Extends w base t u first.1))
          ]

    remove_units-Emits :
        (hosts : List String) → Emits (λ c. Unit) (remove_units_from_replica_set w conn hosts)
    unfolding remove_units_from_replica_set remove_replset_member remove_attempt
    remove_units-Emits hosts =
        Emits-for_all _ _
          λ h. Emits-retry w laws _ _ _ _ (search (emits_rules, Emits-call) depth 16)

  update_config-leaves :
      (username : String) (given : Option String)
      → Emits LeavesMembers (get_config w username given)
  update_config-leaves username given = Safe-Emits (get_config-Safe w tt username given)

  update_relation-leaves :
      (users : List String) (relation : ℕ) → Emits LeavesMembers (update_relation w users relation)
  unfolding update_relation
  update_relation-leaves users relation =
      search (emits_rules, Emits-tell, update_config-leaves) depth 16

  -- What follows the changes of members.
  relations-leave :
      (conn : Connection)
      → Emits LeavesMembers (get_users w conn >>= λ users. update_app_relation_data w users)
  unfolding get_users update_app_relation_data
  relations-leave conn =
      search (emits_rules, Emits-call, Emits-for_all, update_relation-leaves) depth 16

  add_units-Emits :
      (conn : Connection) (hosts : List String)
      → Emits (λ c. Unit) (add_units_from_replica_set w conn hosts)
  unfolding add_units_from_replica_set
  add_units-Emits conn [] = Emits-pure tt
  add_units-Emits conn (h ∷ hosts) =
      Safe-then _ _ (Safe-weaken (λ c p. tt) (member_is_ready-leaves w laws h)) λ ready.
        Emits-if _ _ _ (Safe-then _ _ (add_member-Emits conn h) λ _. add_units-Emits conn hosts)
          (Emits-pure tt)

  pub reconfigure-Emits :
      (event : Event) (conn : Connection) (members hosts : List String)
      → Emits (λ c. Unit) (reconfigure w event conn members hosts)
  unfolding reconfigure
  reconfigure-Emits event conn members hosts = Safe-then _ _ (remove_units-Emits conn _) λ _.
      Safe-then _ _ (Safe-Emits (remaining_hosts-Safe w event hosts)) λ remaining.
        Safe-then _ _ (add_units-Emits conn _) λ _. Safe-weaken (λ c p. tt) (relations-leave conn)

  -- The members that go are no hosts, and the hosts that come are no members and do not depart.
  abbrev pub replaced : Event → List String → List String → String → Bool → Bool
  replaced event members hosts x b =
      contains hosts x && not (is_leaving w event x) && not (contains members x)
      || not (contains members x && not (contains hosts x)) && b

  -- What follows the removals.
  add_remaining-Reaches :
      (event : Event) (conn : Connection) (members hosts remaining : List String)
      → Orders w
      → Every HasNoPort hosts
      → AreRemaining w event hosts remaining
      → Ensures
          (ReachesOrDefers (λ x b.
            contains hosts x && not (is_leaving w event x) && not (contains members x) || b))
          (add_units_from_replica_set w conn (w.set_order (difference remaining members)) >>= λ _.
            get_users w conn >>= λ users. update_app_relation_data w users)
  add_remaining-Reaches event conn members hosts remaining orders bare known =
      Ensures-bind {R = λ _ t a t'. Extends LeavesMembers t t'} _ _
        (add_units-Reaches conn _ (
          All-set_order w orders HasNoPort (difference remaining members)
            (Every-difference remaining members (λ x m. bare x (ground (arith, known x, m))))))
        (λ _. Ensures-Safe (λ t a t' _ x. x) (relations-leave conn))
        λ t u v a b reached after. elim reached [
          | inl d ↦ inl (Deferred-Extends d after)
          | inr f ↦ inr (λ x.
              ap (λ members. has_host members x) (members_after-Extends w base u v after)
              ∙ f x
              ∙ ground (
                arith,
                orders.elements (difference remaining members) x,
                contains-difference remaining members x,
                known x,
              ))
        ]

  pub reconfigure-Reaches :
      (event : Event) (conn : Connection) (members hosts : List String)
      → Orders w
      → Every HasNoPort hosts
      → Ensures
          (ReachesOrDefers (replaced event members hosts))
          (reconfigure w event conn members hosts)
  unfolding reconfigure remove_units_from_replica_set
  reconfigure-Reaches event conn members hosts orders bare =
      Ensures-bind
        {R = λ _.
          ReachesOrDefers (λ x b.
            contains hosts x && not (is_leaving w event x) && not (contains members x) || b)}
        _ _
        (Ensures-both (remove_units-Emits conn (w.set_order (difference members hosts)))
          (remove_each-ChangesHosts w base reports conn laws _))
        (λ _.
          Ensures-after {P = LeavesMembers} _ _ (remaining_hosts-Safe w event hosts)
            (λ remaining known.
              add_remaining-Reaches event conn members hosts remaining orders bare known)
            λ t u v a x r.
              ReachesOrDefers-before
                (λ y b.
                  contains hosts y && not (is_leaving w event y) && not (contains members y) || b)
                x r)
        λ t u v a b removed rest. elim rest [
          | inl d ↦ inl (Extends-Deferred removed.1 d)
          | inr f ↦ inr (λ x.
              f x
              ∙ ground (
                arith,
                removed.2 x,
                orders.elements (difference members hosts) x,
                contains-difference members hosts x,
              ))
        ]
