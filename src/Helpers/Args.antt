-- ===== src/Helpers/Args.antt =====
-- The command lines of mongod and of the mongo shell.
use mongodb_k8s_operator.Prelude.{
  String, ◌≡◌, refl, Bool, true, false, not, ◌&&◌, List, [], ◌∷◌, ◌++◌, arith, if◌then◌else◌,
}
use mongodb_k8s_operator.Text.{concat, join, begins}
use mongodb_k8s_operator.Text.Search.{ne_by_begins}
use mongodb_k8s_operator.Core.Sets.{contains}
use mongodb_k8s_operator.Mongodb.Configuration.{MongodbConfiguration}

-- `get_create_user_cmd`
unfoldable pub get_create_user_cmd : MongodbConfiguration → String → List String
get_create_user_cmd config mongo_path =
    mongo_path
    ∷ "mongodb://localhost/admin"
    ∷ "--quiet"
    ∷ "--eval"
    ∷ concat (
        "db.createUser({" ∷ "  user: '" ∷ config.username ∷ "'," ∷ "  pwd: passwordPrompt(),"
        ∷ "  roles:[" ∷ "    {'role': 'userAdminAnyDatabase', 'db': 'admin'}, "
        ∷ "    {'role': 'readWriteAnyDatabase', 'db': 'admin'}, "
        ∷ "    {'role': 'clusterAdmin', 'db': 'admin'}, " ∷ "  ],"
        ∷ "  mechanisms: ['SCRAM-SHA-256']," ∷ "  passwordDigestor: 'server'," ∷ "})" ∷ [])
    ∷ []

abbrev full_data_dir : Bool → String
full_data_dir snap_install =
    if snap_install then "/var/snap/charmed-mongodb/common/var/lib/mongodb" else "/var/lib/mongodb"

abbrev full_conf_dir : Bool → String
full_conf_dir snap_install =
    if snap_install then "/var/snap/charmed-mongodb/current/etc/mongod" else "/etc/mongod"

abbrev logging_options : Bool → String
logging_options snap_install =
    if snap_install
    then ""
    else concat ("--logpath=" ∷ full_data_dir snap_install ∷ "/mongodb.log" ∷ [])

abbrev file_arg : String → Bool → String → String
file_arg option snap_install file = concat (option ∷ full_conf_dir snap_install ∷ file ∷ [])

abbrev key_file_args : Bool → List String
key_file_args snap_install =
    "--clusterAuthMode=keyFile" ∷ file_arg "--keyFile=" snap_install "/keyFile" ∷ []

abbrev external_args : Bool → List String
external_args snap_install =
    file_arg "--tlsCAFile=" snap_install "/external-ca.crt"
    ∷ file_arg "--tlsCertificateKeyFile=" snap_install "/external-cert.pem"
    ∷ "--tlsMode=preferTLS"
    ∷ []

abbrev internal_args : Bool → List String
internal_args snap_install =
    "--clusterAuthMode=x509"
    ∷ "--tlsAllowInvalidCertificates"
    ∷ file_arg "--tlsClusterCAFile=" snap_install "/internal-ca.crt"
    ∷ file_arg "--tlsClusterFile=" snap_install "/internal-cert.pem"
    ∷ []

abbrev extend_if : Bool → List String → List String → List String
extend_if true args rest = args ++ rest
extend_if false args rest = rest

-- The list `cmd`, before it is joined.
unfoldable pub mongod_cmd : MongodbConfiguration → Bool → Bool → List String
mongod_cmd config auth snap_install =
    "--bind_ip_all"
    ∷ concat ("--replSet=" ∷ config.replset ∷ [])
    ∷ concat ("--dbpath=" ∷ full_data_dir snap_install ∷ [])
    ∷ logging_options snap_install
    ∷ extend_if auth ("--auth" ∷ []) (
        extend_if (auth && not config.tls_internal) (key_file_args snap_install) (
          extend_if config.tls_external (external_args snap_install) (
            extend_if (config.tls_internal && config.tls_external) (internal_args snap_install)
              ("\n" ∷ []))))

-- `get_mongod_args`
unfoldable pub get_mongod_args : MongodbConfiguration → Bool → Bool → String
unfolding mongod_cmd
get_mongod_args config auth snap_install = join " " (mongod_cmd config auth snap_install)

-- With authentication the members trust each other by the key file exactly when internal TLS is off,
-- and by x509 certificates exactly when internal and external TLS are on.
pub cluster_auth_mode :
    (config : MongodbConfiguration) (snap_install : Bool)
    → (contains (mongod_cmd config true snap_install) "--clusterAuthMode=keyFile"
        ≡ not config.tls_internal)
      × (contains (mongod_cmd config true snap_install) "--clusterAuthMode=x509"
          ≡ (config.tls_internal && config.tls_external))
unfolding mongod_cmd contains begins
cluster_auth_mode config true = ground (
  arith,
  ne_by_begins "--c" (concat ("--replSet=" ∷ config.replset ∷ [])) "--clusterAuthMode=keyFile" refl
      refl,
  ne_by_begins "--c" (concat ("--replSet=" ∷ config.replset ∷ [])) "--clusterAuthMode=x509" refl
      refl,
)
cluster_auth_mode config false = ground (
  arith,
  ne_by_begins "--c" (concat ("--replSet=" ∷ config.replset ∷ [])) "--clusterAuthMode=keyFile" refl
      refl,
  ne_by_begins "--c" (concat ("--replSet=" ∷ config.replset ∷ [])) "--clusterAuthMode=x509" refl
      refl,
)
