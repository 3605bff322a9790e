-- ===== src/Provider/Safety.antt =====
-- What `oversee_users` may do to the database: it manages the users of client relations, and no
-- others, and never drops a database of MongoDB itself.
use mongodb_k8s_operator.Prelude.{
  ℕ, String, Bool, true, false, ◌≡◌, ap, List, [], ◌∷◌, arith, ◌==◌, eq_iff, eq_refl, Bool-cases,
  inl, inr,
}
use mongodb_k8s_operator.Text.Decimal.{ReadsAscii}
use mongodb_k8s_operator.Core.Call.{
  Call, Command, mongo, close, users_info, list_database_names, create_user, update_roles,
  drop_user, drop_database, relation_set, set_status, defer, draw,
}
use mongodb_k8s_operator.Core.World.{World}
use mongodb_k8s_operator.Core.Dict.{is_some}
use mongodb_k8s_operator.Core.Sets.{contains, to_set, contains-to_set}
use mongodb_k8s_operator.Core.Safe.{All}
use mongodb_k8s_operator.Mongodb.Names.{
  relation_id_of, get_username_from_relation_id, relation_id_of-username,
}
use mongodb_k8s_operator.Mongodb.Accounts.{relation_users, is_system}
use mongodb_k8s_operator.Provider.Relations.{usernames}

-- A name of the form `relation-N`.
abbrev pub IsRelationUser : World → String → Type 0
IsRelationUser w username = is_some (relation_id_of w.decimal username) ≡ true

-- Commands to mongod: reading, and changes of relation users and of ordinary databases.
abbrev pub ManagesRelations : World → Command → Type 0
ManagesRelations w users_info = Unit
ManagesRelations w list_database_names = Unit
ManagesRelations w (create_user username password roles mechanisms) = IsRelationUser w username
ManagesRelations w (update_roles username roles) = IsRelationUser w username
ManagesRelations w (drop_user username) = IsRelationUser w username
ManagesRelations w (drop_database database) = is_system database ≡ false
ManagesRelations w command = ⊥

-- The calls of the provider.
abbrev pub ProviderMay : World → Call → Type 0
ProviderMay w (mongo conn command) = ManagesRelations w command
ProviderMay w (close conn) = Unit
ProviderMay w (relation_set relation key value) = Unit
ProviderMay w (set_status status) = Unit
ProviderMay w defer = Unit
ProviderMay w draw = Unit
ProviderMay w c = ⊥

-- The order in which Python iterates a set has the set's elements.
pub record Orders (w : World) : Type 0 where
  pub elements : (s : List String) (x : String) → contains (w.set_order s) x ≡ contains s x

-- Every element of a set has a property.
abbrev pub Every : (String → Type 0) → List String → Type 0
Every Q s = (x : String) → contains s x ≡ true → Q x

pub All-of_Every : (Q : String → Type 0) (xs : List String) → Every Q xs → All Q xs
unfolding contains
All-of_Every Q [] h = tt
All-of_Every Q (x ∷ xs) h =
    (h x (ground (arith, eq_refl x)), All-of_Every Q xs (λ y m. h y (ground (arith, m))))

module _ (w : World) (laws : Orders w) where
  -- A loop over a set.
  pub All-set_order : (Q : String → Type 0) (s : List String) → Every Q s → All Q (w.set_order s)
  All-set_order Q s h = All-of_Every Q (w.set_order s) (λ x m. h x (sym_elements x m))
    where
      sym_elements : (x : String) → contains (w.set_order s) x ≡ true → contains s x ≡ true
      sym_elements x m = rw (laws.elements s x) at m

contains-relation_users :
    (matches : String → Bool) (users : List String) (x : String)
    → contains (relation_users matches users) x ≡ true
    → matches x ≡ true
unfolding relation_users contains
contains-relation_users matches [] x m = cc
contains-relation_users matches (u ∷ users) x m =
    ground (arith, eq_iff u x, contains-relation_users matches users x)

pub Every-get_users :
    (w : World) (users : List String)
    → Every
        (IsRelationUser w)
        (to_set (relation_users (λ u. is_some (relation_id_of w.decimal u)) users))
Every-get_users w users x m =
    contains-relation_users (λ u. is_some (relation_id_of w.decimal u)) users x
      (rw contains-to_set at m)

-- The names that the provider makes for its relations.
pub Every-usernames :
    (w : World) → ReadsAscii w.decimal → (ids : List ℕ) → Every (IsRelationUser w) (usernames ids)
unfolding usernames contains
Every-usernames w ascii [] x m = cc
Every-usernames w ascii (id ∷ ids) x m = elim (Bool-cases (get_username_from_relation_id id == x)) [
  | inl same ↦
      rw (← (eq_iff (get_username_from_relation_id id) x).0 same)
        (ap is_some (relation_id_of-username w.decimal id ascii))
  | inr other ↦ Every-usernames w ascii ids x (ground (arith, other, m))
]
