-- ===== src/Tls/Events.antt =====
-- The handlers of `MongoDBTLS`.
use mongodb_k8s_operator.Prelude.{
  String, Bool, false, not, ◌&&◌, Option, none, some, List, [], ◌∷◌, ◌==◌, if◌then◌else◌,
}
use mongodb_k8s_operator.Text.{concat, join, rstrip, split}
use mongodb_k8s_operator.Core.Error.{Error, value_error, attribute_error}
use mongodb_k8s_operator.Core.Call.{
  Scope, app, unit, active, maintenance, set_status, defer, fail, log, request_certificate,
  request_renewal,
}
use mongodb_k8s_operator.Core.World.{World, Exec}
use mongodb_k8s_operator.Core.Exec.{
  ⊤, pure, raise, lift, catch, asks, tell, when, or_raise, filled, ◌>>=◌, ◌>>◌,
}
use mongodb_k8s_operator.Config.{
  tls_peer_relation, secret_ca_label, secret_key_label, secret_cert_label, secret_csr_label,
  secret_chain_label,
}
use mongodb_k8s_operator.Mongodb.Hosts.{second}
use mongodb_k8s_operator.Charm.Secrets.{get_secret, set_secret}
use mongodb_k8s_operator.Charm.Configs.{hostname_for}
use mongodb_k8s_operator.Charm.Services.{
  restart_mongod_service, push_tls_certificate_to_workload, delete_tls_certificate_from_workload,
}
use mongodb_k8s_operator.Tls.Files.{waiting_for_certs}
use mongodb_k8s_operator.Tls.Pem.{parse_tls_file}

-- `CertificateAvailableEvent`
pub record Certificate : Type 0 where
  pub csr : String
  pub chain : Option (List String)
  pub certificate : String
  pub ca : String

-- `secret and text.rstrip() == secret.rstrip()`
abbrev pub is_for : Option String → String → Bool
is_for none text = false
is_for (some secret) text = filled (some secret) && rstrip text == rstrip secret

abbrev pub chain_text : Option (List String) → Option String
chain_text none = none
chain_text (some chain) = some (join "\n" chain)

module _ (w : World) where
  -- `_get_sans`
  unfoldable pub get_sans : Exec (List String)
  get_sans = do
    unit_id ← lift (second (split b'/' w.unit_name))
    pure (
        concat (w.app_name ∷ "-" ∷ unit_id ∷ [])
        ∷ w.fqdn
        ∷ concat (w.app_name ∷ "-" ∷ unit_id ∷ "." ∷ w.app_name ∷ "-endpoints" ∷ [])
        ∷ w.bind_address
        ∷ [])

  -- `get_host`, on Kubernetes.
  unfoldable pub get_host : String → Exec String
  get_host unit_name = hostname_for w unit_name

  unfoldable pub make_csr : String → Exec String
  make_csr key = do
    subject ← get_host w.unit_name
    sans ← get_sans
    answer ← asks (λ t. w.csr t (record {
      private_key = key;
      subject = subject;
      organization = w.app_name;
      sans = sans;
      sans_ip = w.bind_address ∷ [];
    }))
    lift answer

  unfoldable pub key_from : Option String → Exec String
  key_from none = asks w.private_key
  key_from (some param) = lift (parse_tls_file w param)

  -- `_request_certificate`
  unfoldable pub request_certificate_for : Scope → Option String → Exec ⊤
  unfolding key_from
  request_certificate_for scope param = do
    key ← key_from param
    csr ← make_csr key
    set_secret w scope secret_key_label (some key)
    set_secret w scope secret_csr_label (some csr)
    set_secret w scope secret_cert_label none
    related ← asks (λ t. w.has_relation t tls_peer_relation)
    when related (tell (request_certificate csr))

  unfoldable pub fail_value_error : Error → Exec ⊤
  fail_value_error value_error = tell (fail (w.str_of value_error))
  fail_value_error e = raise e

  unfoldable pub request_both : Option String → Option String → Exec ⊤
  request_both external internal = do
    request_certificate_for unit external
    leader ← asks w.is_leader
    if not leader
        then tell (
            log "Only juju leader unit can set private key for the internal certificate. Skipping.")
        else request_certificate_for app internal

  unfoldable pub on_set_tls_private_key : Option String → Option String → Exec ⊤
  unfolding fail_value_error request_both
  on_set_tls_private_key external internal = catch (request_both external internal) fail_value_error

  unfoldable pub on_tls_relation_joined : Exec ⊤
  on_tls_relation_joined = do
    leader ← asks w.is_leader
    when leader (request_certificate_for app none)
    request_certificate_for unit none

  unfoldable pub remove_certificate : Scope → Exec ⊤
  remove_certificate scope = do
    set_secret w scope secret_ca_label none
    set_secret w scope secret_cert_label none
    set_secret w scope secret_chain_label none
    pure tt

  unfoldable pub on_tls_relation_broken : Exec ⊤
  on_tls_relation_broken = do
    remove_certificate unit
    leader ← asks w.is_leader
    when leader (remove_certificate app)
    cert ← get_secret w app secret_cert_label
    if filled cert then tell defer else do
      tell (set_status (maintenance "disabling TLS"))
      delete_tls_certificate_from_workload w
      restart_mongod_service w
      tell (set_status (active ""))

  unfoldable pub store_certificate : Scope → Certificate → Exec ⊤
  store_certificate scope event = do
    set_secret w scope secret_chain_label (chain_text event.chain)
    set_secret w scope secret_cert_label (some event.certificate)
    set_secret w scope secret_ca_label (some event.ca)
    pure tt

  unfoldable pub enable_tls : Exec ⊤
  enable_tls = do
    waiting ← waiting_for_certs w
    if waiting then tell defer else do
      delete_tls_certificate_from_workload w
      push_tls_certificate_to_workload w
      tell (set_status (maintenance "enabling TLS"))
      restart_mongod_service w
      tell (set_status (active ""))

  unfoldable pub accept : Option Scope → Certificate → Exec ⊤
  accept none event = pure tt
  accept (some unit) event = do store_certificate unit event; enable_tls
  accept (some app) event = do
    leader ← asks w.is_leader
    when leader (store_certificate app event)
    enable_tls

  -- The scope whose request a certificate answers.
  unfoldable pub scope_of_csr : Option String → Option String → String → Option Scope
  scope_of_csr unit_csr app_csr csr =
      if is_for unit_csr csr then some unit else if is_for app_csr csr then some app else none

  unfoldable pub on_certificate_available : Certificate → Exec ⊤
  unfolding accept
  on_certificate_available event = do
    unit_csr ← get_secret w unit secret_csr_label
    app_csr ← get_secret w app secret_csr_label
    accept (scope_of_csr unit_csr app_csr event.csr) event

  unfoldable pub renew : Scope → Exec ⊤
  renew scope = do
    key ← get_secret w scope secret_key_label
    key_text ← or_raise key attribute_error
    old ← get_secret w scope secret_csr_label
    old_csr ← or_raise old attribute_error
    new_csr ← make_csr key_text
    tell (request_renewal old_csr new_csr)
    set_secret w scope secret_csr_label (some new_csr)
    pure tt

  unfoldable pub renew_internal : Exec ⊤
  unfolding renew
  renew_internal = do leader ← asks w.is_leader; if not leader then pure tt else renew app

  unfoldable pub on_certificate_expiring : String → Exec ⊤
  unfolding renew renew_internal
  on_certificate_expiring certificate = do
    external ← get_secret w unit secret_cert_label
    unit_cert ← or_raise external attribute_error
    if rstrip certificate == rstrip unit_cert then renew unit else do
      internal ← get_secret w app secret_cert_label
      app_cert ← or_raise internal attribute_error
      if rstrip certificate == rstrip app_cert then renew_internal else pure tt
