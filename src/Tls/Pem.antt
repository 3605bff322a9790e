-- ===== src/Tls/Pem.antt =====
-- `_parse_tls_file`: a key is given as plain text with a PEM header, or in base64.
use mongodb_k8s_operator.Prelude.{
  ℕ, code, String, Bool, false, ◌&&◌, ◌||◌, Option, none, some, eqb, leb, if◌then◌else◌,
}
use mongodb_k8s_operator.Text.{begins, rstrip}
use mongodb_k8s_operator.Core.Error.{Result, ok}
use mongodb_k8s_operator.Core.World.{World}
use mongodb_k8s_operator.Mongodb.Names.{drop_prefix}

abbrev pub drop_dashes : String → String
drop_dashes String.[] = ""
drop_dashes (String.◌∷◌ c s) =
    let rest = drop_dashes s in if eqb (code c) b'-' then rest else String.◌∷◌ c s

abbrev pub is_label : ℕ → Bool
is_label c = leb b'A' c && leb c b'Z' || eqb c 0x20

abbrev pub drop_label : String → String
drop_label String.[] = ""
drop_label (String.◌∷◌ c s) =
    let rest = drop_label s in if is_label (code c) then rest else String.◌∷◌ c s

-- ` [A-Z ]+-+` after the word.
abbrev pub label_and_dashes : String → Bool
label_and_dashes String.[] = false
label_and_dashes (String.◌∷◌ c s) = is_label (code c) && begins "-" (drop_label s)

abbrev pub after_word : Option String → Option String → Bool
after_word (some rest) other = label_and_dashes rest
after_word none (some rest) = label_and_dashes rest
after_word none none = false

-- `re.match(r"(-+(BEGIN|END) [A-Z ]+-+)", raw_content)`
unfoldable pub has_pem_header : String → Bool
unfolding begins
has_pem_header s =
    let rest = drop_dashes s in
    begins "-" s && after_word (drop_prefix "BEGIN " rest) (drop_prefix "END " rest)

-- The substitution replaces each match by itself.
unfoldable pub parse_tls_file : World → String → Result String
unfolding has_pem_header rstrip
parse_tls_file w raw_content =
    if has_pem_header raw_content then ok (rstrip raw_content) else w.b64decode raw_content
