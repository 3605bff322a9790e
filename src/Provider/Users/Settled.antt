-- ===== src/Provider/Users/Settled.antt =====
-- `_on_relation_event` against its purpose: a user of MongoDB for each client relation.
use mongodb_k8s_operator.Prelude.{
  ℕ, String, Bool, true, false, not, ◌&&◌, ◌||◌, ◌≡◌, refl, sym, ◌∙◌, ap, ◌⊎◌, inl, inr, eqb, List,
  arith,
}
use mongodb_k8s_operator.Text.Decimal.{ReadsAscii}
use mongodb_k8s_operator.Config.{peers}
use mongodb_k8s_operator.Core.Error.{Error, ok, is_pymongo}
use mongodb_k8s_operator.Core.Call.{Call, Content}
use mongodb_k8s_operator.Core.Event.{Event, relation_broken}
use mongodb_k8s_operator.Core.World.{World, State}
use mongodb_k8s_operator.Core.Exec.{⊤}
use mongodb_k8s_operator.Core.Dict.{has_key}
use mongodb_k8s_operator.Core.Sets.{contains-to_set}
use mongodb_k8s_operator.Core.Safe.{Good-of_eq, Extends, Safe-weaken, Safe-asks}
use mongodb_k8s_operator.Core.Ensures.{
  Post, Ensures, Ensures-after, Ensures-catch, Ensures-known, returned-Ensures,
}
use mongodb_k8s_operator.Charm.PeerData.Initialised.{InitialisedAlways, db_initialised-Safe}
use mongodb_k8s_operator.Charm.Reconcile.Deferred.{
  Deferred, Extends-Deferred, Extends-any, told_or_raised,
}
use mongodb_k8s_operator.Mongodb.Names.{get_username_from_relation_id, relation_id_of-username}
use mongodb_k8s_operator.Mongodb.UserStore.{has_user, LeavesUsers, ReportsUsers, has_user-Extends}
use mongodb_k8s_operator.Provider.Relations.{same_id, remaining, usernames}
use mongodb_k8s_operator.Provider.Relations.Departed.{among, wanted_users}
use mongodb_k8s_operator.Provider.Safety.{Orders}
use mongodb_k8s_operator.Provider.Users.Steps.{ShowsOneState}
use mongodb_k8s_operator.Provider.Users.Calls.{oversee_users-Emits}
use mongodb_k8s_operator.Provider.Users.Refines.{user_kept, oversee_users-Refines}
use mongodb_k8s_operator.Provider.Users.{
  departed_relation, defer_pymongo, oversee_users, on_relation_event,
}

-- The relation departs by the event.
abbrev departs : Event → ℕ → Bool
departs (relation_broken id) m = eqb id m
departs event m = false

departs-id : (event : Event) (m : ℕ) → same_id (departed_relation event) m ≡ departs event m
departs-id (relation_broken id) m = refl
departs-id event m = refl

-- A relation has its user if it is there and does not depart, and the user was there or the
-- relation names a database.
unfoldable pub user_of : List ℕ → (ℕ → Content) → Event → ℕ → Bool → Bool
user_of ids bag event m present =
    among m ids && not (departs event m) && (present || has_key "database" (bag m))

module _ (w : World) (base : List String) (reports : ReportsUsers w base) (laws : Orders w)
    (ids : List ℕ) (bag : ℕ → Content) (shown : ShowsOneState w ids bag)
    (ascii : ReadsAscii w.decimal) where
  -- The event was deferred, or each relation has its user, of the users that were there.
  abbrev IsSettled : Event → Post ⊤
  IsSettled event t a t' =
      Deferred t t'
      ⊎ ((m : ℕ)
          → has_user w base t' (get_username_from_relation_id m)
            ≡ user_of ids bag event m (has_user w base t (get_username_from_relation_id m)))

  user_kept-relation :
      (event : Event) (m : ℕ) (present : Bool)
      → user_kept w ids bag (departed_relation event) (get_username_from_relation_id m) present
        ≡ user_of ids bag event m present
  unfolding user_kept user_of
  user_kept-relation event m present =
      let wanted =
        sym (
          contains-to_set (usernames (remaining (departed_relation event) ids))
            (get_username_from_relation_id m))
        ∙ wanted_users w.decimal (departed_relation event) ids m ascii in
      rw (relation_id_of-username w.decimal m ascii, wanted, departs-id event m) (ground arith)

  defers : (e : Error) → Ensures (λ t a t'. Deferred t t') (defer_pymongo e)
  defers e = told_or_raised (is_pymongo e) e

  before :
      (event : Event) {t u v : List Call} {a : ⊤}
      → Extends LeavesUsers t u
      → IsSettled event u a v
      → IsSettled event t a v
  before event x (inl d) = inl (Extends-Deferred (Extends-any x) d)
  before event {t} {u} x (inr f) = inr λ m.
      f m
      ∙ ap (user_of ids bag event m)
          (has_user-Extends w base t u (get_username_from_relation_id m) x)

  module _ (modern : (t : List Call) → w.has_relation t "obsolete" ≡ false) where
    overseen :
        (event : Event)
        → Ensures (IsSettled event) (oversee_users w (departed_relation event) event)
    overseen event = record {
      after = λ s. Good-of_eq _ _ λ done e. inr λ m.
          oversee_users-Refines w base reports laws ids bag shown (departed_relation event) event s
            (get_username_from_relation_id m) ascii (modern s.trace) e
          ∙ user_kept-relation event m _;
    }

    settles :
        (event : Event)
        → ((t : List Call) → w.is_leader t ≡ true)
        → ((t : List Call) → w.has_relation t peers ≡ true)
        → InitialisedAlways w
        → Ensures (IsSettled event) (on_relation_event w event)
    unfolding on_relation_event
    settles event leads related initialised =
        Ensures-after {F = λ leader. leader ≡ true} _ _ (Safe-asks {P = LeavesUsers} _ leads)
          (λ leader led. rw led (
            Ensures-after _ _ (db_initialised-Safe {P = LeavesUsers} w related initialised)
              (λ found there. rw there (
                Ensures-after {F = λ legacy. legacy ≡ false} _ _
                  (Safe-asks {P = LeavesUsers} _ modern)
                  (λ legacy none_there. rw none_there (
                    Ensures-known _ _ (
                      Ensures-catch _ _
                        (Safe-weaken (λ c p. tt)
                          (oversee_users-Emits w laws ascii (departed_relation event) event))
                        (overseen event) defers λ t u v a x d. inl (Extends-Deferred x d))))
                  λ t u v a x r. before event x r))
              λ t u v a x r. before event x r))
          λ t u v a x r. before event x r

    -- If the handler of a client relation's event returns on the leader, the database is initialised
    -- and there is no legacy relation, then the event was deferred, or each relation that is there
    -- and does not depart by this event has its user in MongoDB if it names a database or had it
    -- before, and no other relation has one. The conditions: mongod lists the users that were created
    -- and not dropped, Juju shows the handler one state of the relations and the peer relation is
    -- there, iterating a set visits its elements, and ASCII's digits have their values.
    pub on_relation_event-Settles :
        (event : Event) (s : State)
        → ((t : List Call) → w.is_leader t ≡ true)
        → ((t : List Call) → w.has_relation t peers ≡ true)
        → InitialisedAlways w
        → (on_relation_event w event s).0 ≡ ok tt
        → Deferred s.trace (on_relation_event w event s).1.trace
          ⊎ ((m : ℕ)
              → has_user w base
                  (on_relation_event w event s).1.trace
                  (get_username_from_relation_id m)
                ≡ user_of ids bag event m
                    (has_user w base s.trace (get_username_from_relation_id m)))
    on_relation_event-Settles event s leads related initialised done =
        returned-Ensures s tt (settles event leads related initialised) done
