-- ===== src/Provider/Users/Stored.antt =====
-- How the steps of `oversee_users` change the users that mongod has.
use mongodb_k8s_operator.Prelude.{
  ℕ, String, Bool, true, not, ◌&&◌, ◌||◌, ◌==◌, ◌≡◌, refl, ◌∙◌, ap, Option, none, some, List, [],
  ◌∷◌, arith, eq_iff,
}
use mongodb_k8s_operator.Core.Call.{Connection, Content}
use mongodb_k8s_operator.Core.World.{World, Exec}
use mongodb_k8s_operator.Core.Exec.{⊤, for_each, ◌>>=◌}
use mongodb_k8s_operator.Core.Dict.{is_some}
use mongodb_k8s_operator.Core.Sets.{contains}
use mongodb_k8s_operator.Core.Safe.{Emits, Emits-for_all, Emits-lift}
use mongodb_k8s_operator.Core.Ensures.{
  Ensures, Ensures-pure, Ensures-bind, Ensures-call, Ensures-Safe,
}
use mongodb_k8s_operator.Mongodb.Accounts.{drop_user, create_user}
use mongodb_k8s_operator.Mongodb.Configuration.{MongodbConfiguration}
use mongodb_k8s_operator.Mongodb.Names.{relation_id_of}
use mongodb_k8s_operator.Mongodb.UserStore.{has_user, LeavesUsers, has_user-Extends}
use mongodb_k8s_operator.Provider.Users.Steps.{
  ShowsOneState, database_in, get_config-Names, set_relation-Emits,
}
use mongodb_k8s_operator.Provider.Users.{create_with, create_relation_user}

abbrev pub without : List String → String → Bool → Bool
without xs u b = not (contains xs u) && b

abbrev pub with_user : String → Bool → String → Bool → Bool
with_user x named u b = (x == u && named) || b

abbrev pub with_users : (String → Bool) → List String → String → Bool → Bool
with_users named xs u b = (contains xs u && named u) || b

-- The relation of a relation user names a database.
abbrev pub names_database : World → (ℕ → Content) → String → Bool
names_database w bag u = is_some (database_in bag (relation_id_of w.decimal u))

module _ (w : World) (base : List String) where
  -- After code that returns, a user is there as the function says, from whether it was before.
  abbrev pub Changes : {A : Type 0} → (String → Bool → Bool) → Exec A → Type 0
  Changes {A} f m =
      Ensures {A = A} (λ t a t'. (u : String) → has_user w base t' u ≡ f u (has_user w base t u)) m

  pub Changes-leaves : {A : Type 0} {m : Exec A} → Emits LeavesUsers m → Changes (λ u b. b) m
  Changes-leaves k = Ensures-Safe (λ t a t' _ x u. has_user-Extends w base t t' u x) k

  pub Changes-bind :
      {A B : Type 0} (f g h : String → Bool → Bool) (m : Exec A) (k : A → Exec B)
      → ((u : String) (b : Bool) → g u (f u b) ≡ h u b)
      → Changes f m
      → ((a : A) → Changes g (k a))
      → Changes h (m >>= k)
  Changes-bind f g h m k fits km kk =
      Ensures-bind m k km kk
        (λ t t1 t2 a b q r u. r u ∙ ap (g u) (q u) ∙ fits u (has_user w base t u))

  drop_user-Changes :
      (conn : Connection) (x : String) → Changes (λ u b. not (x == u) && b) (drop_user w conn x)
  unfolding drop_user has_user
  drop_user-Changes conn x = Ensures-call _ _ λ t a e u. rw e

  pub drop_users-Changes :
      (conn : Connection) (xs : List String) → Changes (without xs) (for_each xs (drop_user w conn))
  unfolding for_each contains
  drop_users-Changes conn [] = Ensures-pure tt (λ t u. refl)
  drop_users-Changes conn (x ∷ xs) =
      Changes-bind (λ u b. not (x == u) && b) (without xs) (without (x ∷ xs)) _ _
        (λ u b. ground arith) (drop_user-Changes conn x) (λ _. drop_users-Changes conn xs)

  -- A loop whose body leaves the users as they are.
  pub leaves_each :
      (xs : List String) (body : String → Exec ⊤)
      → ((x : String) → Emits LeavesUsers (body x))
      → Changes (λ u b. b) (for_each xs body)
  leaves_each xs body k = Changes-leaves (Emits-for_all xs body k)

  create_user-Changes :
      (conn : Connection) (config : MongodbConfiguration)
      → Changes (λ u b. config.username == u || b) (create_user w conn config)
  unfolding create_user has_user
  create_user-Changes conn config =
      Changes-bind (λ u b. b) (λ u b. config.username == u || b) _ _ _ (λ u b. refl)
        (Changes-leaves (Emits-lift _)) (λ roles. Ensures-call _ _ λ t a e u. rw e)

  create_with-Changes :
      (conn : Connection) (config : MongodbConfiguration) (database : Option String)
      → Changes (with_user config.username (is_some database)) (create_with w conn config database)
  unfolding create_with
  create_with-Changes conn config none = Ensures-pure tt (λ t u. ground arith)
  create_with-Changes conn config (some database) =
      Changes-bind (λ u b. config.username == u || b) (λ u b. b) (with_user config.username true) _
        _ (λ u b. ground arith) (create_user-Changes conn config)
        (λ _. Changes-leaves (set_relation-Emits w (λ _ _ _. tt) config database))

  module _ (ids : List ℕ) (bag : ℕ → Content) (shown : ShowsOneState w ids bag) where
    create_relation_user-Changes :
        (conn : Connection) (x : String)
        → Changes (with_user x (names_database w bag x)) (create_relation_user w conn x)
    unfolding create_relation_user
    create_relation_user-Changes conn x =
        Ensures-bind
          {Q = λ t config t'.
            ((config.username ≡ x)
              × (config.database ≡ database_in bag (relation_id_of w.decimal x)))
            × ((u : String) → has_user w base t' u ≡ has_user w base t u)}
          _ _
          (Ensures-Safe (λ t config t' named e. (named, λ u. has_user-Extends w base t t' u e))
            (get_config-Names w tt ids bag x none shown))
          (λ config. create_with-Changes conn config config.database)
          λ t t1 t2 config done before after u. after u ∙ rw (before.0.0, before.0.1, before.1 u)

    pub create_users-Changes :
        (conn : Connection) (xs : List String)
        → Changes (with_users (names_database w bag) xs) (for_each xs (create_relation_user w conn))
    unfolding for_each contains
    create_users-Changes conn [] = Ensures-pure tt (λ t u. refl)
    create_users-Changes conn (x ∷ xs) =
        Changes-bind (with_user x (names_database w bag x)) (with_users (names_database w bag) xs)
          (with_users (names_database w bag) (x ∷ xs)) _ _ (λ u b. ground (arith, eq_iff x u))
          (create_relation_user-Changes conn x) (λ _. create_users-Changes conn xs)
