-- ===== src/Mongodb/Names.antt =====
-- The names of the users of client relations: `relation-7` for relation 7. They are printed by the
-- provider, and recognised by `^relation-(\d+)$` there and in `get_users`.
use mongodb_k8s_operator.Prelude.{
  ℕ, ◌+◌, ◌*◌, Char, code, String, ◌≡◌, Bool, true, false, Option, none, some, arith, eqb,
  Option-cases, inl, inr, if◌then◌else◌,
}
use mongodb_k8s_operator.Text.{append}
use mongodb_k8s_operator.Text.Decimal.{
  show, read, ReadsAscii, read-show, is_nonempty, is_nonempty-show,
}

-- `f"relation-{relation_id}"`
unfoldable pub get_username_from_relation_id : ℕ → String
get_username_from_relation_id relation_id = append "relation-" (show relation_id)

abbrev pub drop_prefix : String → String → Option String
drop_prefix String.[] t = some t
drop_prefix (String.◌∷◌ c s) String.[] = none
drop_prefix (String.◌∷◌ c s) (String.◌∷◌ d t) =
    if eqb (code c) (code d) then drop_prefix s t else none

-- `(\d+)$` after the prefix, with the value of the group; `$` also stands before a last line feed.
-- The flag says that a digit was read.
module _ (decimal : Char → Option ℕ) where
  abbrev pub at_end : Char → String → Bool → ℕ → Option ℕ
  at_end c String.[] true acc = if eqb (code c) 10 then some acc else none
  at_end c s seen acc = none

  pub match_digits : Bool → ℕ → String → Option ℕ
  match_digits seen acc String.[] = if seen then some acc else none
  match_digits seen acc (String.◌∷◌ c s) = elim (decimal c) [
    | some d ↦ match_digits true (acc * 10 + d) s
    | none ↦ at_end c s seen acc
  ]

  abbrev after_prefix : Option String → Option ℕ
  after_prefix none = none
  after_prefix (some rest) = match_digits false 0 rest

  -- The relation id in a user's name, if the name matches.
  unfoldable pub relation_id_of : String → Option ℕ
  unfolding match_digits
  relation_id_of username = after_prefix (drop_prefix "relation-" username)

  match_seen-read :
      (acc n : ℕ) (s : String) → read decimal acc s ≡ some n → match_digits true acc s ≡ some n
  unfolding match_digits
  match_seen-read acc n String.[] h = h
  match_seen-read acc n (String.◌∷◌ c s) h = elim (Option-cases (decimal c)) [
    | inl other ↦ ground arith
    | inr (d, digit) ↦ ground (arith, match_seen-read (acc * 10 + d) n s)
  ]

  match_digits-read :
      (n : ℕ) (s : String)
      → is_nonempty s ≡ true
      → read decimal 0 s ≡ some n
      → match_digits false 0 s ≡ some n
  unfolding match_digits
  match_digits-read n String.[] ne h = cc
  match_digits-read n (String.◌∷◌ c s) ne h = elim (Option-cases (decimal c)) [
    | inl other ↦ ground arith
    | inr (d, digit) ↦ ground (arith, match_seen-read (0 * 10 + d) n s)
  ]

-- The name that is made for a relation is recognised, as that relation's: so distinct relations
-- have distinct users. The digits of ASCII have their values in Unicode.
pub relation_id_of-username :
    (decimal : Char → Option ℕ) (n : ℕ)
    → ReadsAscii decimal
    → relation_id_of decimal (get_username_from_relation_id n) ≡ some n
unfolding relation_id_of get_username_from_relation_id
relation_id_of-username decimal n ascii =
    match_digits-read decimal n (show n) (is_nonempty-show n) (read-show decimal ascii n)
