-- ===== src/Tls/Files.antt =====
-- The certificate files, from the secrets.
use mongodb_k8s_operator.Prelude.{String, Bool, true, not, Option, none, some, if◌then◌else◌}
use mongodb_k8s_operator.Text.{append}
use mongodb_k8s_operator.Core.Call.{Scope, app, unit}
use mongodb_k8s_operator.Core.World.{World, Exec}
use mongodb_k8s_operator.Core.Exec.{pure, filled, ◌>>=◌}
use mongodb_k8s_operator.Core.Dict.{is_some}
use mongodb_k8s_operator.Config.{
  secret_ca_label, secret_key_label, secret_cert_label, secret_chain_label,
}
use mongodb_k8s_operator.Charm.Secrets.{get_secret}

-- `chain if chain else ca`
abbrev pub ca_file : Option String → Option String → Option String
ca_file chain ca = if filled chain then chain else ca

-- The private key, a line feed, and the certificate.
abbrev pub join_pem : Option String → Option String → Option String
join_pem none cert = cert
join_pem (some key) none = some key
join_pem (some key) (some cert) =
    if filled (some cert)
    then (if filled (some key) then some (append key (append "\n" cert)) else some cert)
    else some key

abbrev pub pem_file : Option String → Option String → Option String
pem_file key cert = if filled cert then join_pem key cert else key

module _ (w : World) where
  unfoldable pub is_tls_enabled : Scope → Exec Bool
  is_tls_enabled scope = do cert ← get_secret w scope secret_cert_label; pure (is_some cert)

  tls_files : Scope → Exec (Option String × Option String)
  tls_files scope = do
    ca ← get_secret w scope secret_ca_label
    chain ← get_secret w scope secret_chain_label
    key ← get_secret w scope secret_key_label
    cert ← get_secret w scope secret_cert_label
    pure (ca_file chain ca, pem_file key cert)

  unfoldable pub get_tls_files : Scope → Exec (Option String × Option String)
  unfolding is_tls_enabled tls_files
  get_tls_files scope = do
    enabled ← is_tls_enabled scope
    if enabled then tls_files scope else pure (none, none)

  -- `_waiting_for_certs`
  unfoldable pub waiting_for_certs : Exec Bool
  waiting_for_certs = do
    app_cert ← get_secret w app secret_cert_label
    if not (filled app_cert)
        then pure true
        else do unit_cert ← get_secret w unit secret_cert_label; pure (not (filled unit_cert))
