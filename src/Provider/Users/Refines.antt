-- ===== src/Provider/Users/Refines.antt =====
-- `oversee_users` against its purpose: the users of the client relations that mongod has afterwards.
use mongodb_k8s_operator.Prelude.{
  ℕ, String, Bool, true, false, not, ◌&&◌, ◌||◌, ◌≡◌, refl, sym, ◌∙◌, ap, Option, none, List, [],
  ◌∷◌, arith, eq_iff, if◌then◌else◌,
}
use mongodb_k8s_operator.Text.Decimal.{ReadsAscii}
use mongodb_k8s_operator.Core.Error.{ok}
use mongodb_k8s_operator.Core.Call.{Call, Connection, Content, mongo, users_info}
use mongodb_k8s_operator.Core.Event.{Event}
use mongodb_k8s_operator.Core.World.{World, State}
use mongodb_k8s_operator.Core.Exec.{for_each, pure, ◌>>=◌}
use mongodb_k8s_operator.Core.Dict.{is_some}
use mongodb_k8s_operator.Core.Sets.{
  contains, difference, intersection, contains-to_set, contains-difference,
}
use mongodb_k8s_operator.Core.Safe.{
  Safe, Emits, Safe-bind, Safe-pure, Safe-asks, Safe-then, Emits-for_all, Emits-if, Emits-pure,
  more, same,
}
use mongodb_k8s_operator.Core.Ensures.{
  Ensures, Ensures-pure, Ensures-bind, Ensures-call, Ensures-Safe, Ensures-weaken, Ensures-finally,
  returned-Ensures,
}
use mongodb_k8s_operator.Charm.Configs.{mongodb_config}
use mongodb_k8s_operator.Charm.Configs.Calls.{mongodb_config-Emits}
use mongodb_k8s_operator.Mongodb.Connection.{with_connection}
use mongodb_k8s_operator.Mongodb.Calls.{connect-Emits}
use mongodb_k8s_operator.Mongodb.Accounts.{get_users, relation_users}
use mongodb_k8s_operator.Mongodb.Names.{relation_id_of}
use mongodb_k8s_operator.Mongodb.UserStore.{has_user, LeavesUsers, ReportsUsers, has_user-Extends}
use mongodb_k8s_operator.Provider.Relations.{remaining, usernames, get_users_from_relations}
use mongodb_k8s_operator.Provider.Safety.{Orders, Every-usernames}
use mongodb_k8s_operator.Provider.Users.Steps.{
  ShowsOneState, update_relation_user-Emits, drop_databases-Emits,
}
use mongodb_k8s_operator.Provider.Users.Stored.{
  Changes, Changes-leaves, Changes-bind, without, drop_users-Changes, with_users,
  create_users-Changes, names_database,
}
use mongodb_k8s_operator.Provider.Users.{
  update_relation_user, drop_databases, oversee_on, oversee_users,
}

-- A relation user is to be there if its relation remains, and it was there or the relation names a
-- database; every other user stays as it is.
unfoldable pub user_kept : World → List ℕ → (ℕ → Content) → Option ℕ → String → Bool → Bool
user_kept w ids bag departed u present =
    if is_some (relation_id_of w.decimal u)
    then contains (usernames (remaining departed ids)) u && (present || names_database w bag u)
    else present

contains-matching :
    (matches : String → Bool) (users : List String) (x : String)
    → contains (relation_users matches users) x ≡ (matches x && contains users x)
unfolding relation_users contains
contains-matching matches [] x = ground arith
contains-matching matches (u ∷ users) x =
    ground (arith, eq_iff u x, contains-matching matches users x)

module _ (w : World) (base : List String) (reports : ReportsUsers w base) where
  abbrev is_relation_user : String → Bool
  is_relation_user u = is_some (relation_id_of w.decimal u)

  -- The users that mongod has, as far as they are relations'.
  abbrev Listed : List Call → List String → List Call → Type 0
  Listed t us t' =
      (u : String)
      → (contains us u ≡ (is_relation_user u && has_user w base t u))
        × (has_user w base t' u ≡ has_user w base t u)

  get_users-Listed : (conn : Connection) → Ensures Listed (get_users w conn)
  unfolding get_users
  get_users-Listed conn =
      Ensures-bind
        {Q = λ t users t'.
          (u : String)
          → (contains users u ≡ has_user w base t u) × (has_user w base t' u ≡ has_user w base t u)}
        {R = λ users t us t'.
          (u : String)
          → (contains us u ≡ (is_relation_user u && contains users u))
            × (has_user w base t' u ≡ has_user w base t u)}
        _ _
        (Ensures-call _ _ λ t users e u.
          let kept = has_user-Extends w base t (mongo conn users_info ∷ t) u (more refl same) in
          (reports.listed (mongo conn users_info ∷ t) users u e ∙ kept, kept))
        (λ users.
          Ensures-pure _
            λ t u. (contains-to_set _ u ∙ contains-matching is_relation_user users u, refl))
        λ t t1 t2 users us read known u.
          ((known u).0 ∙ ap (λ b. is_relation_user u && b) (read u).0, (known u).1 ∙ (read u).1)

  module _ (laws : Orders w) (ids : List ℕ) (bag : ℕ → Content) (shown : ShowsOneState w ids bag)
      (departed : Option ℕ) where
    abbrev IsWanted : List String → Type 0
    IsWanted rs = (u : String) → contains rs u ≡ contains (usernames (remaining departed ids)) u

    relation_users-Safe : Safe LeavesUsers IsWanted (get_users_from_relations w departed)
    unfolding get_users_from_relations
    relation_users-Safe =
        Safe-bind _ _ (Safe-asks {Q = λ found. found ≡ ids} _ (λ t. shown.same_relations t))
          λ found e. Safe-pure _ λ u.
            contains-to_set (usernames (remaining departed found)) u
            ∙ ap (λ found. contains (usernames (remaining departed found)) u) e

    -- What the three loops do, from the users that were listed and those that are wanted.
    abbrev managed : List String → List String → String → Bool → Bool
    managed us rs u b =
        with_users (names_database w bag) (w.set_order (difference rs us)) u
          (without (w.set_order (difference us rs)) u b)

    fits :
        (us rs : List String) (u : String) (b : Bool)
        → ReadsAscii w.decimal
        → contains us u ≡ (is_relation_user u && b)
        → IsWanted rs
        → managed us rs u b ≡ user_kept w ids bag departed u b
    unfolding user_kept
    fits us rs u b ascii listed wanted =
        let dropped : contains (w.set_order (difference us rs)) u
            ≡ (contains us u && not (contains rs u)) =
          laws.elements (difference us rs) u ∙ contains-difference us rs u in
        let created : contains (w.set_order (difference rs us)) u
            ≡ (contains rs u && not (contains us u)) =
          laws.elements (difference rs us) u ∙ contains-difference rs us u in
        let ours : contains rs u ≡ true → is_relation_user u ≡ true =
          λ m. Every-usernames w ascii (remaining departed ids) u (sym (wanted u) ∙ m) in
        let needed : contains rs u ≡ contains (usernames (remaining departed ids)) u = wanted u in
        ground (arith, dropped, created, ours, needed, listed)

    updates :
        (conn : Connection) (event : Event) (gone : Option ℕ) (xs : List String)
        → Emits LeavesUsers (
            for_each xs (update_relation_user w conn event) >>= λ _.
            if not w.auto_delete then pure tt else drop_databases w conn gone)
    updates conn event gone xs =
        Safe-then _ _
          (Emits-for_all _ _
            (λ u. update_relation_user-Emits w (λ _ _ _. tt) conn event u tt (λ _. refl)))
          (λ _.
            Emits-if _ _ _ (Emits-pure tt) (drop_databases-Emits w conn refl (λ _ _. refl) gone))

    oversee_on-Changes :
        (conn : Connection) (event : Event)
        → ReadsAscii w.decimal
        → Changes w base (user_kept w ids bag departed) (oversee_on w departed event conn)
    unfolding oversee_on
    oversee_on-Changes conn event ascii =
        Ensures-bind {Q = Listed}
          {R = λ us t done t'.
            (u : String)
            → contains us u ≡ (is_relation_user u && has_user w base t u)
            → has_user w base t' u ≡ user_kept w ids bag departed u (has_user w base t u)}
          _ _ (get_users-Listed conn)
          (λ us.
            Ensures-bind
              {Q = λ t rs t'.
                IsWanted rs × ((u : String) → has_user w base t' u ≡ has_user w base t u)}
              {R = λ rs t done t'.
                (u : String) → has_user w base t' u ≡ managed us rs u (has_user w base t u)}
              _ _
              (Ensures-Safe (λ t rs t' known e. (known, λ u. has_user-Extends w base t t' u e))
                relation_users-Safe)
              (λ rs.
                Changes-bind w base (without (w.set_order (difference us rs)))
                  (with_users (names_database w bag) (w.set_order (difference rs us)))
                  (managed us rs) _ _ (λ u b. refl) (drop_users-Changes w base conn _)
                  λ _.
                    Changes-bind w base
                      (with_users (names_database w bag) (w.set_order (difference rs us)))
                      (λ u b. b)
                      (with_users (names_database w bag) (w.set_order (difference rs us))) _ _
                      (λ u b. refl) (create_users-Changes w base ids bag shown conn _)
                      λ _.
                        Changes-leaves w base
                          (updates conn event departed (w.set_order (intersection rs us))))
              λ t t1 t2 rs done before after u listed.
                after u
                ∙ fits us rs u (has_user w base t1 u) ascii
                    (listed ∙ ap (λ b. is_relation_user u && b) (sym (before.1 u))) before.0
                ∙ ap (user_kept w ids bag departed u) (before.1 u))
          λ t t1 t2 us done before after u.
            after u ((before u).0 ∙ ap (λ b. is_relation_user u && b) (sym (before u).1))
            ∙ ap (user_kept w ids bag departed u) (before u).1

    connected-Changes :
        (event : Event)
        → ReadsAscii w.decimal
        → Changes w base (user_kept w ids bag departed) (
            mongodb_config w >>= λ config.
            with_connection w config none false (oversee_on w departed event))
    unfolding with_connection has_user
    connected-Changes event ascii =
        Changes-bind w base (λ u b. b) (user_kept w ids bag departed) (user_kept w ids bag departed)
          _ _ (λ u b. refl) (Changes-leaves w base (mongodb_config-Emits w))
          λ config.
            Changes-bind w base (λ u b. b) (user_kept w ids bag departed)
              (user_kept w ids bag departed) _ _ (λ u b. refl)
              (Changes-leaves w base (connect-Emits w config none false))
              λ conn.
                Ensures-finally _ _
                  (Ensures-weaken (λ t a t' h u. h u) (oversee_on-Changes conn event ascii))

    -- If `oversee_users` returns and there is no legacy relation, then mongod has a user of the
    -- form `relation-N` exactly if relation N remains, and the user was there or the relation
    -- names a database; and every other user is there exactly if it was before. The conditions:
    -- mongod lists the users that were created and not dropped, Juju shows the handler one state of
    -- the relations, iterating a set visits its elements, and ASCII's digits have their values.
    pub oversee_users-Refines :
        (event : Event) (s : State) (u : String)
        → ReadsAscii w.decimal
        → w.has_relation s.trace "obsolete" ≡ false
        → (oversee_users w departed event s).0 ≡ ok tt
        → has_user w base (oversee_users w departed event s).1.trace u
          ≡ user_kept w ids bag departed u (has_user w base s.trace u)
    unfolding oversee_users ◌>>=◌
    oversee_users-Refines event s u ascii modern done =
        let returned = rw modern at done in
        let changed = returned-Ensures s tt (connected-Changes event ascii) returned in
        rw modern (changed u)
