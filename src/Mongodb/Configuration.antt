-- ===== src/Mongodb/Configuration.antt =====
-- `class MongoDBConfiguration`, and the connection URI that it makes.
pub mod Uri
use mongodb_k8s_operator.Prelude.{String, Bool, Option, none, some, List, ◌==◌, if◌then◌else◌}
use mongodb_k8s_operator.Text.{append, join}
use mongodb_k8s_operator.Core.Error.{Result, ok, err, type_error}
use mongodb_k8s_operator.Core.World.{World}
use mongodb_k8s_operator.Mongodb.Quote.{quote_plus}

pub record MongodbConfiguration : Type 0 where
  pub replset : String
  pub database : Option String
  pub username : String
  pub password : String
  pub hosts : List String
  pub roles : List String
  pub tls_external : Bool
  pub tls_internal : Bool

-- `self.database != "admin"`
abbrev pub auth_source : Option String → String
auth_source none = "&authSource=admin"
auth_source (some database) = if database == "admin" then "" else "&authSource=admin"

-- `user:password`, `hosts` and what follows the slash, in the URI.
abbrev pub userinfo : MongodbConfiguration → String
userinfo c = append (quote_plus c.username) (append ":" (quote_plus c.password))

abbrev pub options : MongodbConfiguration → String → String
options c database =
    append (quote_plus database)
      (append "?replicaSet=" (append (quote_plus c.replset) (auth_source c.database)))

module _ (w : World) where
  abbrev pub host_list : MongodbConfiguration → String
  host_list c = join "," (w.set_order c.hosts)

  -- Quoting a database name of `None` raises `TypeError`.
  unfoldable pub uri : MongodbConfiguration → Result String
  uri c = elim c.database [
    | none ↦ err type_error
    | some database ↦ ok (
        append "mongodb://" (
          append (userinfo c)
            (append "@" (append (host_list c) (append "/" (options c database))))))
  ]
