-- ===== src/Provider/Relations.antt =====
-- What the provider reads from its relations.
pub mod Changes
pub mod Departed
use mongodb_k8s_operator.Prelude.{
  ℕ, String, Bool, false, not, ◌&&◌, Option, none, some, List, [], ◌∷◌, eqb, ◌==◌, if◌then◌else◌,
}
use mongodb_k8s_operator.Text.{split}
use mongodb_k8s_operator.Core.Error.{assertion_error, attribute_error}
use mongodb_k8s_operator.Core.Call.{Content, relation_set}
use mongodb_k8s_operator.Core.Event.{
  Event, relation_joined, relation_changed, relation_broken, peer_departed, plain,
}
use mongodb_k8s_operator.Core.World.{World, Exec}
use mongodb_k8s_operator.Core.Exec.{pure, raise, lift, asks, tell, ◌>>=◌, ◌>>◌}
use mongodb_k8s_operator.Core.Dict.{lookup, has_key}
use mongodb_k8s_operator.Core.Sets.{to_set, difference}
use mongodb_k8s_operator.Mongodb.Names.{get_username_from_relation_id, relation_id_of}

abbrev pub same_id : Option ℕ → ℕ → Bool
same_id none id = false
same_id (some departed) id = eqb departed id

-- The ids of the relations but the departed one.
unfoldable pub remaining : Option ℕ → List ℕ → List ℕ
remaining departed [] = []
remaining departed (id ∷ ids) =
    let rest = remaining departed ids in if same_id departed id then rest else id ∷ rest

unfoldable pub usernames : List ℕ → List String
usernames [] = []
usernames (id ∷ ids) = get_username_from_relation_id id ∷ usernames ids

-- `roles.split(",")`, or the default.
abbrev pub roles_from : Option String → List String
roles_from none = "default" ∷ []
roles_from (some roles) = to_set (split b',' roles)

unfoldable pub without_key : String → Content → Content
without_key key [] = []
without_key key ((k, v) ∷ d) =
    let rest = without_key key d in if k == key then rest else (k, v) ∷ rest

unfoldable pub keys : Content → List String
keys [] = []
keys ((k, v) ∷ d) = k ∷ keys d

abbrev pub same_value : Option String → Option String → Bool
same_value none other = false
same_value (some v) none = false
same_value (some v) (some u) = v == u

-- The keys of `old` that `new` has with another value.
unfoldable pub changed_keys : Content → Content → List String
changed_keys [] new = []
changed_keys ((k, v) ∷ old) new =
    let rest = changed_keys old new in
    if has_key k new && not (same_value (some v) (lookup k new)) then k ∷ rest else rest

pub record Diff : Type 0 where
  pub added : List String
  pub changed : List String
  pub deleted : List String

unfoldable pub diff_of : Content → Content → Diff
diff_of old new = record {
  added = difference (keys new) (keys old);
  changed = changed_keys old new;
  deleted = difference (keys old) (keys new);
}

-- `event.relation`: only an event of a relation has one.
abbrev pub relation_of : Event → Option ℕ
relation_of (relation_joined id) = some id
relation_of (relation_changed id) = some id
relation_of (relation_broken id) = some id
relation_of (peer_departed departing event_unit) = none
relation_of plain = none

abbrev pub databases_in : (ℕ → Content) → List ℕ → List String
databases_in bag [] = []
databases_in bag (id ∷ ids) = elim (lookup "database" (bag id)) [
  | none ↦ databases_in bag ids
  | some database ↦ database ∷ databases_in bag ids
]

module _ (w : World) where
  unfoldable pub get_users_from_relations : Option ℕ → Exec (List String)
  get_users_from_relations departed = do
    ids ← asks w.relations
    pure (to_set (usernames (remaining departed ids)))

  unfoldable pub get_databases_from_relations : Option ℕ → Exec (List String)
  get_databases_from_relations departed = do
    ids ← asks w.relations
    bag ← asks w.remote_data
    pure (to_set (databases_in bag (remaining departed ids)))

  unfoldable pub get_relation_from_username : String → Exec ℕ
  get_relation_from_username username = elim (relation_id_of w.decimal username) [
    | none ↦ raise assertion_error
    | some id ↦ pure id
  ]

  unfoldable pub get_database_from_relation : ℕ → Exec (Option String)
  get_database_from_relation id = asks (λ t. lookup "database" (w.remote_data t id))

  unfoldable pub get_roles_from_relation : ℕ → Exec (List String)
  get_roles_from_relation id =
      asks (λ t. roles_from (lookup "extra-user-roles" (w.remote_data t id)))

  -- `_diff` of the databag of a relation's application, which is saved for the next time.
  diff_of_relation : Option ℕ → Exec Diff
  diff_of_relation none = raise attribute_error
  diff_of_relation (some id) = do
    saved ← asks (λ t. lookup "data" (w.local_data t id))
    old ← lift (w.json_loads (elim saved [ none ↦ "{}" | some text ↦ text ]))
    bag ← asks (λ t. w.remote_data t id)
    tell (relation_set id "data" (w.json_dumps (without_key "data" bag)))
    pure (diff_of old (without_key "data" bag))

  unfoldable pub diff : Event → Exec Diff
  unfolding diff_of_relation
  diff event = diff_of_relation (relation_of event)
