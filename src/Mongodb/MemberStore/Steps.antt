-- ===== src/Mongodb/MemberStore/Steps.antt =====
-- How adding and removing a member change the hosts of the replica set.
use mongodb_k8s_operator.Prelude.{
  ◌+◌, String, Bool, true, not, ◌&&◌, ◌||◌, ◌==◌, ◌≡◌, refl, ◌∙◌, ap, inl, inr, List, [], ◌∷◌,
  arith, Bool-cases,
}
use mongodb_k8s_operator.Core.Error.{Error, err, Result-cases}
use mongodb_k8s_operator.Core.Call.{
  Call, Connection, Member, RsConfig, mongo, get_config, reconfig, step_down,
}
use mongodb_k8s_operator.Core.World.{World, State, Exec}
use mongodb_k8s_operator.Core.Exec.{call, ◌>>=◌, for_each}
use mongodb_k8s_operator.Core.Sets.{contains}
use mongodb_k8s_operator.Core.Ensures.{
  Ensures, Ensures-bind, Ensures-call, Ensures-then, Ensures-pure,
}
use mongodb_k8s_operator.Core.Retry.{Retries, Ensures-retry}
use mongodb_k8s_operator.Mongodb.Hosts.{hostname_from_hostport}
use mongodb_k8s_operator.Mongodb.Replset.{
  add_replset_member, remove_attempt, remove_replset_member, is_any_removing, is_primary,
  without_member,
}
use mongodb_k8s_operator.Mongodb.Replset.Changes.{asked, stepped_down}
use mongodb_k8s_operator.Mongodb.MemberStore.{
  members_after, has_host, ReportsMembers, has_host-append, has_host-others,
}

-- The name of a host without a port.
abbrev pub HasNoPort : String → Type 0
HasNoPort h = hostname_from_hostport h ≡ h

module _ (w : World) (base : List Member) where
  -- After code that returns, a host is there as the function says, from whether it was before.
  abbrev pub ChangesHosts : {A : Type 0} → (String → Bool → Bool) → Exec A → Type 0
  ChangesHosts {A} f m =
      Ensures {A = A}
        (λ t a t'.
          (x : String)
          → has_host (members_after w base t') x ≡ f x (has_host (members_after w base t) x))
        m

  -- The configuration that was read is the one in force.
  abbrev IsInForce : List Call → RsConfig → List Call → Type 0
  IsInForce t cfg t' = cfg.members ≡ members_after w base t

  module _ (reports : ReportsMembers w base) (conn : Connection) (h : String) where
    config-IsInForce : Ensures IsInForce (call (mongo conn get_config) w.rs_config)
    unfolding members_after
    config-IsInForce = Ensures-call _ _ λ t cfg e. reports.configured _ cfg e

    pub add-ChangesHosts :
        HasNoPort h → ChangesHosts (λ x b. h == x || b) (add_replset_member w conn h)
    unfolding add_replset_member members_after
    add-ChangesHosts bare =
        Ensures-bind
          {R = λ cfg t a t'.
            (x : String)
            → has_host (members_after w base t') x ≡ (h == x || has_host cfg.members x)}
          _ _ config-IsInForce
          (λ cfg.
            Ensures-then _ _ (λ t u v b r. r)
              λ statuses.
                Ensures-then _ _ (λ t u v b r. r)
                  λ _.
                    Ensures-then _ _ (λ t u v b r. r)
                      λ i. Ensures-call _ _ λ t a e x. rw e (
                        let new : Member = record { id = i + 1; host = h; options = "" } in
                        let named : hostname_from_hostport h ≡ h = bare in
                        ground (arith, has_host-append cfg.members new x, ap (λ y. y == x) named)))
          λ t u v cfg b read after x. after x ∙ ap (λ members. h == x || has_host members x) read

    removed-ChangesHosts : ChangesHosts (λ x b. not (h == x) && b) (remove_attempt w conn h)
    unfolding remove_attempt members_after
    removed-ChangesHosts =
        Ensures-bind
          {R = λ cfg t a t'.
            (x : String)
            → has_host (members_after w base t') x ≡ (not (h == x) && has_host cfg.members x)}
          _ _ config-IsInForce
          (λ cfg.
            Ensures-then _ _ (λ t u v b r. r)
              λ statuses.
                Ensures-then _ _ (λ t u v b r. r)
                  λ _.
                    Ensures-then _ _ (λ t u v b r. r)
                      λ _.
                        Ensures-call _ _
                          λ t a e x. rw e (ground (arith, has_host-others h cfg.members x)))
          λ t u v cfg b read after x.
            after x ∙ ap (λ members. not (h == x) && has_host members x) read

    -- An attempt of a removal that raises leaves the members as they are.
    failed_attempt-same :
        (s : State) (e : Error)
        → (remove_attempt w conn h s).0 ≡ err e
        → members_after w base (remove_attempt w conn h s).1.trace ≡ members_after w base s.trace
    unfolding remove_attempt members_after ◌>>=◌
    failed_attempt-same s e failed =
        elim (Result-cases (w.rs_config (mongo conn get_config ∷ s.trace))) [
          | inl (x, ec) ↦ ground (arith, ec)
          | inr (cfg, ec) ↦ elim (Result-cases (w.rs_status (asked conn s.trace))) [
            | inl (x, em) ↦ ground (arith, ec, em)
            | inr (members, em) ↦ elim (Bool-cases (is_any_removing members)) [
              | inl busy ↦ ground (arith, ec, em, busy)
              | inr settled ↦ elim (Bool-cases (is_primary members h)) [
                | inl primary ↦
                    elim (Result-cases (w.run (mongo conn (step_down "60") ∷ asked conn s.trace))) [
                      | inl (x, es) ↦ ground (arith, ec, em, settled, primary, es)
                      | inr (done, es) ↦
                          elim (Result-cases (
                            w.run (
                              mongo conn (reconfig (without_member cfg h))
                              ∷ stepped_down conn true (asked conn s.trace)))) [
                                | inl (x, er) ↦ ground (arith, ec, em, settled, primary, es, er)
                                | inr (done, er) ↦
                                    ground (arith, ec, em, settled, primary, es, er, failed)
                              ]
                    ]
                | inr other ↦
                    elim (Result-cases
                      (w.run (mongo conn (reconfig (without_member cfg h)) ∷ asked conn s.trace))) [
                        | inl (x, er) ↦ ground (arith, ec, em, settled, other, er)
                        | inr (done, er) ↦ ground (arith, ec, em, settled, other, er, failed)
                      ]
              ]
            ]
          ]
        ]

    remove-ChangesHosts :
        Retries w → ChangesHosts (λ x b. not (h == x) && b) (remove_replset_member w conn h)
    unfolding remove_replset_member
    remove-ChangesHosts laws =
        Ensures-retry w laws _ _ _ _
          (λ s e v failed later x.
            later x
            ∙ ap (λ members. not (h == x) && has_host members x) (failed_attempt-same s e failed))
          removed-ChangesHosts

  module _ (reports : ReportsMembers w base) (conn : Connection) (laws : Retries w) where
    pub remove_each-ChangesHosts :
        (hosts : List String)
        → ChangesHosts
            (λ x b. not (contains hosts x) && b)
            (for_each hosts (remove_replset_member w conn))
    unfolding for_each contains
    remove_each-ChangesHosts [] = Ensures-pure tt (λ t x. refl)
    remove_each-ChangesHosts (h ∷ hosts) =
        Ensures-bind _ _ (remove-ChangesHosts reports conn h laws)
          (λ _. remove_each-ChangesHosts hosts)
          λ t u v a b first others x. ground (arith, first x, others x)
