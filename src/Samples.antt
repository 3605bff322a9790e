-- ===== src/Samples.antt =====
-- A small application: two units, one client relation, and worlds that answer its charm.
use mongodb_k8s_operator.Prelude.{
  ℕ, zero, suc, ◌-◌, Char, code, String, ◌≡◌, ◌≢◌, ◌∙◌, refl, Bool, true, false, Option, none, some,
  List, [], ◌∷◌, ◌==◌, ◌&&◌, arith, leb, if◌then◌else◌,
}
use mongodb_k8s_operator.Text.Decimal.{ReadsAscii}
use mongodb_k8s_operator.Core.Error.{ok}
use mongodb_k8s_operator.Core.Call.{
  Call, Scope, Content, MemberStatus, RsConfig, Connection, peer_set, app, unit, active,
}
use mongodb_k8s_operator.Core.World.{World, State}
use mongodb_k8s_operator.Core.Dict.{insert, lookup, lookup-insert}
use mongodb_k8s_operator.Core.Retry.{Retries, Attempts}
use mongodb_k8s_operator.Config.{peers, secret_internal_label}
use mongodb_k8s_operator.Charm.Secrets.Held.{KeepsPeerData, Held}
use mongodb_k8s_operator.Mongodb.Replset.Calls.{ReportsDistinctIds}
use mongodb_k8s_operator.Mongodb.Configuration.{MongodbConfiguration}
use mongodb_k8s_operator.Provider.Safety.{Orders}

abbrev pub host_0 : String
host_0 = "mongodb-k8s-0.mongodb-k8s-endpoints"

abbrev pub host_1 : String
host_1 = "mongodb-k8s-1.mongodb-k8s-endpoints"

abbrev pub conn : Connection
conn = record { uri = "mongodb://host"; direct = false }

abbrev pub statuses : List MemberStatus
statuses =
    record { name = "mongodb-k8s-0.mongodb-k8s-endpoints:27017"; state_str = "PRIMARY" }
    ∷ record { name = "mongodb-k8s-1.mongodb-k8s-endpoints:27017"; state_str = "SECONDARY" }
    ∷ []

abbrev pub configuration : RsConfig
configuration = record {
  version = 3;
  members =
      record { id = 0; host = host_0; options = "" }
      ∷ record { id = 1; host = host_1; options = "" }
      ∷ [];
  settings = "";
}

abbrev pub ascii_digit : Char → Option ℕ
ascii_digit c = if leb 48 (code c) && leb (code c) 57 then some (code c - 48) else none

-- What each databag holds before the charm writes to it.
abbrev first_bag : Scope → Content
first_bag app = ("operator-password", "operator-secret") ∷ []
first_bag unit = ("unit_departed", "True") ∷ []

abbrev same_scope : Scope → Scope → Bool
same_scope app app = true
same_scope app unit = false
same_scope unit app = false
same_scope unit unit = true

abbrev pub bag_after : List Call → Scope → Content
bag_after [] scope = first_bag scope
bag_after (peer_set other k v ∷ t) scope =
    let rest = bag_after t scope in if same_scope other scope then insert k v rest else rest
bag_after (c ∷ t) scope = bag_after t scope

-- Juju keeps the secrets, and tenacity makes one attempt.
abbrev pub world : World
world = record {
  rs_status = λ t. ok statuses;
  rs_config = λ t. ok configuration;
  users_info = λ t. ok ("operator" ∷ "relation-4" ∷ "relation-7" ∷ []);
  database_names = λ t. ok ("admin" ∷ "shop" ∷ "old" ∷ []);
  run = λ t. ok tt;
  has_secrets = true;
  app_name = "mongodb-k8s";
  unit_name = "mongodb-k8s/0";
  substrate = "k8s";
  auto_delete = true;
  is_leader = λ t. true;
  unit_status = λ t. active "";
  has_relation = λ t name. name == peers;
  peer_units = λ t. "mongodb-k8s/1" ∷ [];
  peer_data = bag_after;
  relations = λ t. 4 ∷ [];
  remote_data = λ t id. ("database", "shop") ∷ [];
  local_data = λ t id. ("password", "client-secret") ∷ [];
  secret_id = λ t label. ok label;
  secret_content = λ t id. ok (("operator-password", "operator-secret") ∷ []);
  secret_added = λ t. some "secret:abc";
  secret_written = λ t. ok tt;
  answers = λ t. true;
  service = λ t. none;
  pebble = λ t. ok tt;
  stdout = λ t. ok "{}";
  file_infos = λ t. ok [];
  local_file = λ t. ok tt;
  private_key = λ t. "key";
  csr = λ t request. ok "csr";
  b64decode = ok;
  fqdn = "host";
  bind_address = "10.0.0.1";
  s3_info = λ t. [];
  retry = λ stop reraise retried body. body;
  set_order = λ s. s;
  decimal = ascii_digit;
  choice = λ t i. 7;
  json_loads = λ text. ok [];
  json_dumps = λ content. "{}";
  str_of = λ e. "error";
}

-- An older Juju: the secrets are entries of the databags.
abbrev pub old_world : World
old_world = record world { has_secrets = false }

abbrev pub fresh : State
fresh = record {
  trace = [];
  app_slot = record { secret = none; cache = none };
  unit_slot = record { secret = none; cache = none };
}

-- A secret of the application is in memory, and its id is in the databag.
abbrev pub stored : Content
stored = ("keyfile", "abc") ∷ ("operator-password", "operator-secret") ∷ []

abbrev pub holding : State
holding = record {
  trace = peer_set app secret_internal_label "secret:abc" ∷ [];
  app_slot = record { secret = some "secret:abc"; cache = some stored };
  unit_slot = record { secret = none; cache = none };
}

pub holding-Held : Held world app stored holding
holding-Held = record {
  id = "secret:abc";
  label = "secret:abc";
  slot = refl;
  labelled = refl;
  related = refl;
}

abbrev pub operator_config : MongodbConfiguration
operator_config = record {
  replset = "mongodb-k8s";
  database = some "admin";
  username = "operator";
  password = "operator-secret";
  hosts = host_0 ∷ host_1 ∷ [];
  roles = "default" ∷ [];
  tls_external = false;
  tls_internal = false;
}

pub world-Retries : Retries world
world-Retries = record {
  attempts =
      λ stop reraise retried body s. (body s, Attempts.last refl, refl, λ done. done, λ done. done);
}

pub world-ReportsDistinctIds : ReportsDistinctIds world
world-ReportsDistinctIds = record {
  config_ids =
      λ t cfg h. let e : cfg ≡ configuration = cc in rw e ((λ zero_is_one. cc, tt), (tt, tt));
}

pub world-Orders : Orders world
world-Orders = record { elements = λ s x. refl }

pub ascii_digit-ReadsAscii : ReadsAscii ascii_digit
ascii_digit-ReadsAscii zero acc h = refl
ascii_digit-ReadsAscii (suc zero) acc h = refl
ascii_digit-ReadsAscii (suc (suc zero)) acc h = refl
ascii_digit-ReadsAscii (suc (suc (suc zero))) acc h = refl
ascii_digit-ReadsAscii (suc (suc (suc (suc zero)))) acc h = refl
ascii_digit-ReadsAscii (suc (suc (suc (suc (suc zero))))) acc h = refl
ascii_digit-ReadsAscii (suc (suc (suc (suc (suc (suc zero)))))) acc h = refl
ascii_digit-ReadsAscii (suc (suc (suc (suc (suc (suc (suc zero))))))) acc h = refl
ascii_digit-ReadsAscii (suc (suc (suc (suc (suc (suc (suc (suc zero)))))))) acc h = refl
ascii_digit-ReadsAscii (suc (suc (suc (suc (suc (suc (suc (suc (suc zero))))))))) acc h = refl
ascii_digit-ReadsAscii (suc (suc (suc (suc (suc (suc (suc (suc (suc (suc n)))))))))) acc h =
    ground arith

lookup-bag_after :
    (scope : Scope) (k v j : String) (t : List Call)
    → lookup j (bag_after (peer_set scope k v ∷ t) scope)
      ≡ (if k == j then some v else lookup j (bag_after t scope))
lookup-bag_after app k v j t = lookup-insert k j v (bag_after t app)
lookup-bag_after unit k v j t = lookup-insert k j v (bag_after t unit)

abc_is_filled : ◌≢◌ {A = String} "secret:abc" ""
abc_is_filled = λ h. cc

pub world-KeepsPeerData : KeepsPeerData world
world-KeepsPeerData = record {
  written = λ scope k v j t filled. lookup-bag_after scope k v j t;
  after_secret_set = λ id c t scope. refl;
  after_draw = λ t scope. refl;
  relation_stays = λ c t. refl;
  added_named = λ t id h empty. abc_is_filled (let e : "secret:abc" ≡ id = cc in e ∙ empty);
}
