-- ===== src/Provider/Relations/Departed.antt =====
-- The users that the provider derives from its relations.
use mongodb_k8s_operator.Prelude.{
  ℕ, Char, ◌≡◌, refl, sym, ◌∙◌, ap, Bool, false, ◌&&◌, ◌||◌, not, Option, none, some, List, [], ◌∷◌,
  arith, eqb, eqb_iff, ◌==◌, eq_iff, Bool-cases, inl, inr,
}
use mongodb_k8s_operator.Text.Decimal.{ReadsAscii}
use mongodb_k8s_operator.Core.Sets.{contains, to_set, contains-to_set}
use mongodb_k8s_operator.Mongodb.Names.{
  get_username_from_relation_id, relation_id_of, relation_id_of-username,
}
use mongodb_k8s_operator.Provider.Relations.{same_id, remaining, usernames}

-- `n in ids`
unfoldable pub among : ℕ → List ℕ → Bool
among n [] = false
among n (id ∷ ids) = eqb id n || among n ids

module _ (decimal : Char → Option ℕ) (ascii : ReadsAscii decimal) where
  username_injective :
      (a b : ℕ) → get_username_from_relation_id a ≡ get_username_from_relation_id b → a ≡ b
  username_injective a b e =
      let both : some a ≡ some b =
        sym (relation_id_of-username decimal a ascii)
        ∙ ap (relation_id_of decimal) e
        ∙ relation_id_of-username decimal b ascii in
      cc

  same_username :
      (a b : ℕ) → (get_username_from_relation_id a == get_username_from_relation_id b) ≡ eqb a b
  same_username a b = elim (Bool-cases (eqb a b)) [
    | inl same ↦ rw same (
        (eq_iff (get_username_from_relation_id a) (get_username_from_relation_id b)).1
          (ap get_username_from_relation_id ((eqb_iff a b).0 same)))
    | inr other ↦
        elim (Bool-cases (get_username_from_relation_id a == get_username_from_relation_id b)) [
          | inr differ ↦ rw (differ, other)
          | inl equal ↦
              let e : a ≡ b = username_injective a b (
                (eq_iff (get_username_from_relation_id a) (get_username_from_relation_id b)).0
                  equal) in
              cc ((eqb_iff a b).1 e)
        ]
  ]

  contains-usernames :
      (ids : List ℕ) (n : ℕ)
      → contains (usernames ids) (get_username_from_relation_id n) ≡ among n ids
  unfolding contains usernames among
  contains-usernames [] n = refl
  contains-usernames (id ∷ ids) n = ground (arith, same_username id n, contains-usernames ids n)

among-remaining :
    (departed : Option ℕ) (ids : List ℕ) (n : ℕ)
    → among n (remaining departed ids) ≡ (among n ids && not (same_id departed n))
unfolding among remaining
among-remaining departed [] n = refl
among-remaining none (id ∷ ids) n = ground (arith, among-remaining none ids n)
among-remaining (some d) (id ∷ ids) n = ground (arith, among-remaining (some d) ids n)

-- A relation's user is wanted exactly if the relation is there and is not the one that departs, so
-- a relation that breaks loses its user and no other relation does. ASCII's digits have their values.
pub wanted_users :
    (decimal : Char → Option ℕ) (departed : Option ℕ) (ids : List ℕ) (n : ℕ)
    → ReadsAscii decimal
    → contains (to_set (usernames (remaining departed ids))) (get_username_from_relation_id n)
      ≡ (among n ids && not (same_id departed n))
wanted_users decimal departed ids n ascii =
    contains-to_set (usernames (remaining departed ids)) (get_username_from_relation_id n)
    ∙ contains-usernames decimal ascii (remaining departed ids) n
    ∙ among-remaining departed ids n
