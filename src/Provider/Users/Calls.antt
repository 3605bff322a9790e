-- ===== src/Provider/Users/Calls.antt =====
-- The calls of `oversee_users`, step by step.
use mongodb_k8s_operator.Prelude.{
  ℕ, String, Bool, true, ◌&&◌, not, ◌≡◌, Option, none, some, List, arith,
}
use mongodb_k8s_operator.Text.Decimal.{ReadsAscii}
use mongodb_k8s_operator.Core.Call.{Connection}
use mongodb_k8s_operator.Core.Event.{Event}
use mongodb_k8s_operator.Core.World.{World, Exec}
use mongodb_k8s_operator.Core.Exec.{⊤, for_each}
use mongodb_k8s_operator.Core.Sets.{
  contains, difference, intersection, contains-to_set, contains-difference, contains-intersection,
}
use mongodb_k8s_operator.Core.Safe.{
  emits_rules, Safe, Emits, Safe-then, Safe-bind, Safe-pure, Emits-call, Emits-tell, Emits-for_each,
  Emits-if, Emits-lift, Emits-pure, Emits-asks,
}
use mongodb_k8s_operator.Mongodb.Configuration.{MongodbConfiguration}
use mongodb_k8s_operator.Mongodb.Calls.{with_connection-Safe}
use mongodb_k8s_operator.Mongodb.Accounts.{create_user, drop_user, get_users}
use mongodb_k8s_operator.Charm.Configs.Calls.{mongodb_config-Emits}
use mongodb_k8s_operator.Provider.Relations.{get_users_from_relations, remaining}
use mongodb_k8s_operator.Provider.Safety.{
  IsRelationUser, ProviderMay, Orders, Every, All-set_order, Every-get_users, Every-usernames,
}
use mongodb_k8s_operator.Provider.Users.Steps.{
  get_config-Safe, set_relation-Emits, update_relation_user-Emits, drop_databases-Emits,
}
use mongodb_k8s_operator.Provider.Users.{
  set_relation, create_with, create_relation_user, oversee_on, oversee_users,
}

pub Every-difference :
    {Q : String → Type 0} (s t : List String) → Every Q s → Every Q (difference s t)
Every-difference s t h x m =
    h x (and_left (contains s x) (not (contains t x)) (rw contains-difference at m))
  where
    and_left : (a b : Bool) → (a && b) ≡ true → a ≡ true
    and_left a b e = ground arith

Every-intersection :
    {Q : String → Type 0} (s t : List String) → Every Q s → Every Q (intersection s t)
Every-intersection s t h x m =
    h x (and_left (contains s x) (contains t x) (rw contains-intersection at m))
  where
    and_left : (a b : Bool) → (a && b) ≡ true → a ≡ true
    and_left a b e = ground arith

module _ (w : World) where
  drop_user-Emits :
      (conn : Connection) (u : String)
      → IsRelationUser w u
      → Emits (ProviderMay w) (drop_user w conn u)
  unfolding drop_user
  drop_user-Emits conn u h = Emits-call _ _ h

  create_with-Emits :
      (conn : Connection) (config : MongodbConfiguration) (database : Option String)
      → IsRelationUser w config.username
      → Emits (ProviderMay w) (create_with w conn config database)
  unfolding create_with create_user
  create_with-Emits conn config none relation_user = Emits-pure tt
  create_with-Emits conn config (some database) relation_user =
      let written : Emits (ProviderMay w) (set_relation w config database) =
        set_relation-Emits w (λ _ _ _. tt) config database in
      Safe-then _ _ (Safe-then _ _ (Emits-lift _) λ roles. Emits-call _ _ relation_user)
        λ _. written

  create_relation_user-Emits :
      (conn : Connection) (username : String)
      → IsRelationUser w username
      → Emits (ProviderMay w) (create_relation_user w conn username)
  unfolding create_relation_user
  create_relation_user-Emits conn username relation_user =
      Safe-bind _ _ (get_config-Safe w tt username none)
        λ config named. create_with-Emits conn config config.database (rw named relation_user)

  get_users-Safe :
      (conn : Connection) → Safe (ProviderMay w) (Every (IsRelationUser w)) (get_users w conn)
  unfolding get_users
  get_users-Safe conn =
      Safe-then _ _ (Emits-call _ _ tt) λ users. Safe-pure _ (Every-get_users w users)

  relation_users-Safe :
      ReadsAscii w.decimal
      → (departed : Option ℕ)
      → Safe (ProviderMay w) (Every (IsRelationUser w)) (get_users_from_relations w departed)
  unfolding get_users_from_relations
  relation_users-Safe ascii departed = Safe-then _ _ (Emits-asks _) λ ids.
      Safe-pure _
        (λ x m. Every-usernames w ascii (remaining departed ids) x (rw contains-to_set at m))

module _ (w : World) (laws : Orders w) (ascii : ReadsAscii w.decimal) where
  loop-Emits :
      (s : List String) (body : String → Exec ⊤)
      → Every (IsRelationUser w) s
      → ((u : String) → IsRelationUser w u → Emits (ProviderMay w) (body u))
      → Emits (ProviderMay w) (for_each (w.set_order s) body)
  loop-Emits s body h k =
      Emits-for_each (IsRelationUser w) _ body (All-set_order w laws (IsRelationUser w) s h) k

  oversee_on-Emits :
      (departed : Option ℕ) (event : Event) (conn : Connection)
      → Emits (ProviderMay w) (oversee_on w departed event conn)
  unfolding oversee_on
  oversee_on-Emits departed event conn = Safe-bind _ _ (get_users-Safe w conn) λ database known.
      Safe-bind _ _ (relation_users-Safe w ascii departed) λ relation named.
        Safe-then _ _
          (loop-Emits (difference database relation) _ (Every-difference database relation known)
            (λ u h. drop_user-Emits w conn u h))
          λ _.
            Safe-then _ _
              (loop-Emits (difference relation database) _
                (Every-difference relation database named) (create_relation_user-Emits w conn))
              λ _.
                Safe-then _ _
                  (loop-Emits (intersection relation database) _
                    (Every-intersection relation database named)
                    (λ u h. update_relation_user-Emits w (λ _ _ _. tt) conn event u tt (λ _. h)))
                  λ _.
                    Emits-if _ _ _ (Emits-pure tt)
                      (drop_databases-Emits w conn tt (λ _ h. h) departed)

  -- `oversee_users` creates, updates and drops only users of client relations, and drops no database
  -- of MongoDB itself; of the unit it sets only the status and the data of client relations. The
  -- conditions: iterating a set visits its elements, and ASCII's digits have their values.
  pub oversee_users-Emits :
      (departed : Option ℕ) (event : Event) → Emits (ProviderMay w) (oversee_users w departed event)
  unfolding oversee_users
  oversee_users-Emits departed event =
      search (emits_rules, Emits-tell, mongodb_config-Emits, with_connection-Safe, oversee_on-Emits)
        depth 12
