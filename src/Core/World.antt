-- ===== src/Core/World.antt =====
-- The world that answers the charm's calls: mongod, Juju with the `ops` framework, Pebble, tenacity,
-- and what Python leaves open. An answer may depend on all the calls made so far, the latest first.
use mongodb_k8s_operator.Prelude.{ℕ, Char, String, Bool, Option, List}
use mongodb_k8s_operator.Core.Error.{Error, Result}
use mongodb_k8s_operator.Core.Call.{
  CsrRequest, FileInfo, MemberStatus, RsConfig, Scope, Status, Content, Service, Call,
}

-- `self.secrets[scope]`: the secret object, by its id, under "secret", and the content under "cache".
pub record SecretSlot : Type 0 where
  pub secret : Option String
  pub cache : Option Content

-- The calls so far, the latest first, and the charm's own memory of its secrets.
pub record State : Type 0 where
  pub trace : List Call
  pub app_slot : SecretSlot
  pub unit_slot : SecretSlot

abbrev pub Exec {ℓ} : Type ℓ → Type ℓ
Exec A = State → Result A × State

-- When tenacity gives up: after a number of attempts, or of seconds.
pub data Stop : Type 0 where
  after_attempt after_delay : ℕ → Stop

pub record World : Type 0 where
  -- mongod
  pub rs_status : List Call → Result (List MemberStatus)
  pub rs_config : List Call → Result RsConfig
  pub users_info : List Call → Result (List String)
  pub database_names : List Call → Result (List String)
  pub run : List Call → Result (Unit {0})
  -- Juju and `ops`
  pub has_secrets : Bool
  pub app_name : String
  pub unit_name : String
  pub substrate : String
  pub auto_delete : Bool
  pub is_leader : List Call → Bool
  pub unit_status : List Call → Status
  pub has_relation : List Call → String → Bool
  pub peer_units : List Call → List String
  pub peer_data : List Call → Scope → Content
  pub relations : List Call → List ℕ
  pub remote_data : List Call → ℕ → Content
  pub local_data : List Call → ℕ → Content
  pub secret_id : List Call → String → Result String
  pub secret_content : List Call → String → Result Content
  pub secret_added : List Call → Option String
  pub secret_written : List Call → Result (Unit {0})
  -- Pebble
  pub answers : List Call → Bool
  pub service : List Call → Option Service
  pub pebble : List Call → Result (Unit {0})
  pub stdout : List Call → Result String
  pub file_infos : List Call → Result (List FileInfo)
  pub local_file : List Call → Result (Unit {0})
  -- the libraries for certificates and for S3, and the host's network
  pub private_key : List Call → String
  pub csr : List Call → CsrRequest → Result String
  pub b64decode : String → Result String
  pub fqdn : String
  pub bind_address : String
  pub s3_info : List Call → Content
  -- tenacity: `retry stop reraise retried body`, where `retried` says which exceptions are retried
  pub retry : Stop → Bool → (Error → Bool) → Exec (Unit {0}) → Exec (Unit {0})
  -- Python: the order in which a set is iterated, Unicode's decimal digits, random choices, JSON,
  -- and the text of an exception
  pub set_order : List String → List String
  pub decimal : Char → Option ℕ
  pub choice : List Call → ℕ → ℕ
  pub json_loads : String → Result Content
  pub json_dumps : Content → String
  pub str_of : Error → String
