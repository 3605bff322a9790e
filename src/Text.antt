-- ===== src/Text.antt =====
-- What the charm uses of Python's `str`: concatenation, `join`, `split`, `in`, `splitlines`,
-- `rstrip` and the decimal form of an `int`. A character is its code point.
pub mod Split
pub mod Lines
pub mod Decimal
pub mod Search
use mongodb_k8s_operator.Prelude.{
  ℕ, zero, suc, Char, code, String, Bool, true, false, ◌||◌, ◌&&◌, List, [], ◌∷◌, eqb, leb,
  if◌then◌else◌,
}

-- Concatenation by clauses, so that it computes at texts that are not literals.
abbrev pub append : String → String → String
append String.[] t = t
append (String.◌∷◌ c s) t = String.◌∷◌ c (append s t)

-- The `n`th of a table of texts.
abbrev pub pick : ℕ → List String → String
pick n [] = ""
pick zero (d ∷ texts) = d
pick (suc n) (d ∷ texts) = pick n texts

-- An f-string, as the list of its parts.
abbrev pub concat : List String → String
concat [] = ""
concat (s ∷ parts) = append s (concat parts)

-- `sep.join(parts)`.
unfoldable pub join : String → List String → String
join sep [] = ""
join sep (s ∷ []) = s
join sep (s ∷ t ∷ parts) = append s (append sep (join sep (t ∷ parts)))

-- A character occurs in a text.
abbrev pub has : ℕ → String → Bool
has c String.[] = false
has c (String.◌∷◌ d s) = eqb (code d) c || has c s

-- `s.split(sep)` for a separator of one character: the parts are never none at all.
abbrev pub cons_head : Char → List String → List String
cons_head c [] = String.◌∷◌ c "" ∷ []
cons_head c (p ∷ parts) = String.◌∷◌ c p ∷ parts

unfoldable pub split : ℕ → String → List String
split sep String.[] = "" ∷ []
split sep (String.◌∷◌ c s) =
    let rest = split sep s in if eqb (code c) sep then "" ∷ rest else cons_head c rest

-- `parts[0]` of a list that is not empty.
abbrev pub first : List String → String
first [] = ""
first (p ∷ parts) = p

-- `t` begins with `s`.
unfoldable pub begins : String → String → Bool
begins String.[] t = true
begins (String.◌∷◌ c s) String.[] = false
begins (String.◌∷◌ c s) (String.◌∷◌ d t) = eqb (code c) (code d) && begins s t

-- `s in t` on texts.
unfoldable pub occurs : String → String → Bool
unfolding begins
occurs s String.[] = begins s String.[]
occurs s (String.◌∷◌ d t) = begins s (String.◌∷◌ d t) || occurs s t

-- `str.isspace` of one character.
abbrev pub is_space : ℕ → Bool
is_space c =
    leb 9 c && leb c 13
    || leb 28 c && leb c 32
    || eqb c 0x85
    || eqb c 0xa0
    || eqb c 0x1680
    || leb 0x2000 c && leb c 0x200a
    || eqb c 0x2028
    || eqb c 0x2029
    || eqb c 0x202f
    || eqb c 0x205f
    || eqb c 0x3000

unfoldable pub all_space : String → Bool
all_space String.[] = true
all_space (String.◌∷◌ c s) = is_space (code c) && all_space s

-- `s.rstrip()`.
unfoldable pub rstrip : String → String
unfolding all_space
rstrip String.[] = ""
rstrip (String.◌∷◌ c s) =
    let rest = rstrip s in
    if all_space s then (if is_space (code c) then "" else String.◌∷◌ c "") else String.◌∷◌ c rest
