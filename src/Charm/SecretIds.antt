-- ===== src/Charm/SecretIds.antt =====
-- `_compare_secret_ids`: a secret's id is given as a bare id, or as a URI that ends in it.
pub mod Forms
use mongodb_k8s_operator.Prelude.{
  ℕ, zero, suc, Char, code, String, Bool, true, false, not, ◌&&◌, ◌||◌, Option, none, some, eqb,
  ◌==◌, if◌then◌else◌,
}

-- `[^/][/:]` at the start of a text; what follows the match.
abbrev pub two_chars : Char → String → Option String
two_chars c String.[] = none
two_chars c (String.◌∷◌ d s) =
    if not (eqb (code c) b'/') && (eqb (code d) b'/' || eqb (code d) b':') then some s else none

-- `.*[^/][/:]` at the start of a text, the longest match; `.` is no line feed.
unfoldable pub longest_match : String → Option String
longest_match String.[] = none
longest_match (String.◌∷◌ c s) =
    let further = longest_match s in
    if eqb (code c) 10
    then two_chars c s
    else elim further [ none ↦ two_chars c s | some rest ↦ some rest ]

-- `regex.sub("", text)`, with a fuel that is the text's length: each match and each character that
-- is kept is not empty.
pub remove_matches : ℕ → String → String
remove_matches zero s = s
remove_matches (suc fuel) String.[] = ""
remove_matches (suc fuel) (String.◌∷◌ c s) = elim (longest_match (String.◌∷◌ c s)) [
  | none ↦ String.◌∷◌ c (remove_matches fuel s)
  | some rest ↦ remove_matches fuel rest
]

abbrev pub count_chars : String → ℕ
count_chars String.[] = 0
count_chars (String.◌∷◌ c s) = suc (count_chars s)

unfoldable pub pure_id : String → String
unfolding remove_matches longest_match
pure_id secret_id = remove_matches (count_chars secret_id) secret_id

-- The second id is a value of a databag, which may be missing.
unfoldable pub compare_secret_ids : String → Option String → Bool
unfolding pure_id
compare_secret_ids secret_id1 none = false
compare_secret_ids secret_id1 (some secret_id2) =
    if secret_id1 == "" || secret_id2 == ""
    then false
    else if not (pure_id secret_id1 == "") && not (pure_id secret_id2 == "")
    then pure_id secret_id1 == pure_id secret_id2
    else false
