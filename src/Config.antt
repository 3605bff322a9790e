-- ===== src/Config.antt =====
-- The constants of src/config.py that the charm's code reads.
use mongodb_k8s_operator.Prelude.{String}
use mongodb_k8s_operator.Text.{concat}
use mongodb_k8s_operator.Prelude.{[], ◌∷◌}

abbrev pub container_name : String
container_name = "mongod"

abbrev pub service_name : String
service_name = "mongod"

abbrev pub socket_path : String
socket_path = "/tmp/mongodb-27017.sock"

abbrev pub unix_user : String
unix_user = "mongodb"

abbrev pub unix_group : String
unix_group = "mongodb"

abbrev pub conf_dir : String
conf_dir = "/etc/mongod"

abbrev pub data_dir : String
data_dir = "/var/lib/mongodb"

-- `Config.Backup`.
abbrev pub backup_service_name : String
backup_service_name = "pbm-agent"

abbrev pub pbm_path : String
pbm_path = "/usr/bin/pbm"

abbrev pub pbm_config_file_path : String
pbm_config_file_path = "/etc/pbm_config.yaml"

-- `Config.Relations`.
abbrev pub peers : String
peers = "database-peers"

-- `Config.TLS`.
abbrev pub ext_pem_file : String
ext_pem_file = "external-cert.pem"

abbrev pub ext_ca_file : String
ext_ca_file = "external-ca.crt"

abbrev pub int_pem_file : String
int_pem_file = "internal-cert.pem"

abbrev pub int_ca_file : String
int_ca_file = "internal-ca.crt"

abbrev pub key_file_name : String
key_file_name = "keyFile"

abbrev pub tls_peer_relation : String
tls_peer_relation = "certificates"

abbrev pub secret_ca_label : String
secret_ca_label = "ca-secret"

abbrev pub secret_key_label : String
secret_key_label = "key-secret"

abbrev pub secret_cert_label : String
secret_cert_label = "cert-secret"

abbrev pub secret_csr_label : String
secret_csr_label = "csr-secret"

abbrev pub secret_chain_label : String
secret_chain_label = "chain-secret"

-- `Config.Secrets`.
abbrev pub secret_keyfile_name : String
secret_keyfile_name = "keyfile"

abbrev pub secret_internal_label : String
secret_internal_label = "internal-secret"

abbrev pub secret_deleted_label : String
secret_deleted_label = "None"

-- A file in the configuration directory.
abbrev pub conf_file : String → String
conf_file file = concat (conf_dir ∷ "/" ∷ file ∷ [])
