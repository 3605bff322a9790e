-- ===== src/Core/Call.antt =====
-- The calls that leave the charm: commands to mongod, and requests to Juju, to the event, and to
-- the workload container by Pebble.
use mongodb_k8s_operator.Prelude.{ℕ, String, Bool, Option, List}

-- A member of the replica set as mongod reports its status: `name` is a host with its port.
pub record MemberStatus : Type 0 where
  pub name : String
  pub state_str : String

-- A member of the replica set configuration; `options` are its other fields, which stay as they are.
pub record Member : Type 0 where
  pub id : ℕ
  pub host : String
  pub options : String

-- The document under "config"; `settings` are its other fields.
pub record RsConfig : Type 0 where
  pub version : ℕ
  pub members : List Member
  pub settings : String

-- One entry of `roles` in createUser and updateUser.
pub record Grant : Type 0 where
  pub role : String
  pub db : Option String
  pub collection : Option String

-- The "resource" of a privilege document.
pub data Resource : Type 0 where
  any_resource : Resource
  in_database : String → String → Resource

-- A privilege document; `no_privileges` is the empty one.
pub data Privileges : Type 0 where
  no_privileges : Privileges
  privilege : Resource → List String → Privileges

pub record Connection : Type 0 where
  pub uri : String
  pub direct : Bool

pub data Command : Type 0 where
  ping get_config get_status users_info list_database_names : Command
  initiate : String → List Member → Command
  reconfig : RsConfig → Command
  step_down : String → Command
  create_user : String → String → List Grant → List String → Command
  update_roles : String → List Grant → Command
  update_password : String → String → Command
  create_role : String → Privileges → List String → Command
  drop_user drop_database : String → Command

pub data Scope : Type 0 where
  app unit : Scope

pub data Status : Type 0 where
  active blocked waiting maintenance : String → Status

-- The content of a Juju secret, or of one side of a relation's data.
abbrev pub Content : Type 0
Content = List (String × String)

-- A service of a Pebble layer.
pub record Service : Type 0 where
  pub override : String
  pub summary : String
  pub command : String
  pub startup : String
  pub user : String
  pub group : String
  pub environment : Content

-- What a certificate signing request is made of.
pub record CsrRequest : Type 0 where
  pub private_key : String
  pub subject : String
  pub organization : String
  pub sans : List String
  pub sans_ip : List String

-- The owner of a file.
pub record FileInfo : Type 0 where
  pub user : String
  pub group : String

pub data Call : Type 0 where
  mongo : Connection → Command → Call
  close : Connection → Call
  -- the databags of the peer relation and of the client relations
  peer_set : Scope → String → String → Call
  peer_delete : Scope → String → Call
  relation_set : ℕ → String → String → Call
  -- Juju secrets
  secret_add : Scope → Content → Call
  secret_set : String → Content → Call
  -- the unit and the event
  set_status : Status → Call
  defer : Call
  fail log : String → Call
  set_results : List (String × Option String) → Call
  sleep : ℕ → Call
  -- certificates
  request_certificate : String → Call
  request_renewal : String → String → Call
  -- one run of the random number generator behind a password or a keyfile
  draw : Call
  -- the container
  can_connect : Call
  exists : String → Call
  push : String → String → Call
  remove_path : String → Call
  get_plan : String → Call
  add_layer : String → String → Service → Call
  replan : Call
  stop start restart get_service : String → Call
  exec : List String → Content → Option String → Call
  wait_output : Call
  list_files pull : String → Call
  -- a file of the charm's own container
  create_file : String → Call
