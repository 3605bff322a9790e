-- ===== src/Mongodb/Hosts.antt =====
-- Host names: mongod reports them with a port, and Juju's unit names are turned into DNS names.
pub mod Members
use mongodb_k8s_operator.Prelude.{String, ◌≡◌, refl, List, [], ◌∷◌}
use mongodb_k8s_operator.Text.{concat, split, first}
use mongodb_k8s_operator.Core.Error.{Result, ok, err, index_error}

-- `_hostname_from_hostport`
unfoldable pub hostname_from_hostport : String → String
hostname_from_hostport hostname = first (split b':' hostname)

-- `parts[1]`
abbrev pub second : List String → Result String
second [] = err index_error
second (p ∷ []) = err index_error
second (p ∷ q ∷ parts) = ok q

-- `get_hostname_for_unit`, from the names of the application and of the unit.
unfoldable pub get_hostname_for_unit : String → String → Result String
get_hostname_for_unit app_name unit_name = elim (second (split b'/' unit_name)) [
  | err e ↦ err e
  | ok unit_id ↦ ok (concat (app_name ∷ "-" ∷ unit_id ∷ "." ∷ app_name ∷ "-endpoints" ∷ []))
]

hostname_for_unit :
    get_hostname_for_unit "mongodb-k8s" "mongodb-k8s/1" ≡ ok "mongodb-k8s-1.mongodb-k8s-endpoints"
unfolding get_hostname_for_unit split
hostname_for_unit = refl
