-- ===== src/Mongodb/Hosts/Members.antt =====
-- The name of a unit's host, and what is left of it when mongod reports it with a port.
use mongodb_k8s_operator.Prelude.{String, ◌≡◌, refl, ◌∙◌, ap, false, [], ◌∷◌, arith}
use mongodb_k8s_operator.Text.{append, concat, has, split}
use mongodb_k8s_operator.Text.Split.{first-split, split-append, split-lacks}
use mongodb_k8s_operator.Core.Error.{ok}
use mongodb_k8s_operator.Mongodb.Quote.{has-append}
use mongodb_k8s_operator.Mongodb.Hosts.{hostname_from_hostport, get_hostname_for_unit}

abbrev unit_host : String → String → String
unit_host app_name unit_id = concat (app_name ∷ "-" ∷ unit_id ∷ "." ∷ app_name ∷ "-endpoints" ∷ [])

append-nil : (s : String) → append s "" ≡ s
append-nil String.[] = refl
append-nil (String.◌∷◌ c s) = ap (λ t. String.◌∷◌ c t) (append-nil s)

unit_host-lacks :
    (app_name unit_id : String)
    → has b':' app_name ≡ false
    → has b':' unit_id ≡ false
    → has b':' (unit_host app_name unit_id) ≡ false
unit_host-lacks app_name unit_id a u = ground (
  arith,
  has-append b':' app_name
      (append "-" (append unit_id (append "." (append app_name "-endpoints")))),
  has-append b':' unit_id (append "." (append app_name "-endpoints")),
  has-append b':' app_name "-endpoints",
)

-- The host of unit `app/N`, reported by mongod with any port, is read back as the host: so units and
-- members are compared by one name. Neither name holds a slash or a colon.
pub hostname_of_unit :
    (app_name unit_id port : String)
    → has b'/' app_name ≡ false
    → has b'/' unit_id ≡ false
    → has b':' app_name ≡ false
    → has b':' unit_id ≡ false
    → (host : String) × (get_hostname_for_unit app_name (append app_name (append "/" unit_id))
        ≡ ok host)
      × (hostname_from_hostport (append host (append ":" port)) ≡ host)
unfolding get_hostname_for_unit hostname_from_hostport
hostname_of_unit app_name unit_id port slash_a slash_u colon_a colon_u = (
  unit_host app_name unit_id,
  ground (
    arith,
    split-append b'/' app_name "/" unit_id slash_a refl,
    split-lacks b'/' unit_id slash_u,
  ),
  first-split b':' (unit_host app_name unit_id) (append ":" port)
        (unit_host-lacks app_name unit_id colon_a colon_u)
      ∙ (unfold split in append-nil (unit_host app_name unit_id)),
)
