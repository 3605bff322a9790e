-- ===== src/Charm/Dispatch/Certificates.antt =====
-- The calls of the handlers of certificates.
use mongodb_k8s_operator.Prelude.{String, none, some, Option}
use mongodb_k8s_operator.Core.Error.{Error, value_error, path_error}
use mongodb_k8s_operator.Core.Call.{Call, Scope, app, unit}
use mongodb_k8s_operator.Core.World.{World}
use mongodb_k8s_operator.Core.Safe.{
  emits_rules, Emits, Safe-then, Safe-raise, Safe-catch, Emits-pure, Emits-tell, Emits-call,
  Emits-for_all, Emits-if, Emits-lift, Emits-asks, Emits-or_raise,
}
use mongodb_k8s_operator.Charm.Secrets.Calls.{AllowsSecrets, get_secret-Emits, set_secret-Emits}
use mongodb_k8s_operator.Config.{secret_cert_label}
use mongodb_k8s_operator.Charm.Configs.Calls.{hostname_for-Emits}
use mongodb_k8s_operator.Charm.Services.{
  ignore_path_error, delete_tls_certificate_from_workload, restart_mongod_service,
}
use mongodb_k8s_operator.Charm.Services.Calls.{
  connect_mongodb_exporter-Emits, connect_pbm_agent-Emits,
}
use mongodb_k8s_operator.Tls.Calls.{waiting_for_certs-Emits}
use mongodb_k8s_operator.Tls.Events.{
  Certificate, get_sans, get_host, make_csr, key_from, request_certificate_for, fail_value_error,
  request_both, on_set_tls_private_key, on_tls_relation_joined, remove_certificate,
  on_tls_relation_broken, store_certificate, enable_tls, accept, on_certificate_available, renew,
  renew_internal, on_certificate_expiring,
}
use mongodb_k8s_operator.Charm.Dispatch.Work.{UnitMay, Works, layers, unit_secrets, Emits-leader}
use mongodb_k8s_operator.Charm.Dispatch.Workload.{mongod_layer-Emits, push_tls_certificate-Emits}

module _ {P : Call → Type 0} (w : World) where
  make_csr-Emits : (key : String) → Emits P (make_csr w key)
  unfolding make_csr get_host get_sans
  make_csr-Emits key = search (emits_rules, hostname_for-Emits) depth 20

  key_from-Emits : (param : Option String) → Emits P (key_from w param)
  unfolding key_from
  key_from-Emits none = Emits-asks _
  key_from-Emits (some param) = Emits-lift _

module _ {P : Call → Type 0} (w : World) (may : (c : Call) → UnitMay c → P c) where
  ignore_path_error-Emits : (e : Error) → Emits P (ignore_path_error e)
  ignore_path_error-Emits path_error = Emits-pure tt
  ignore_path_error-Emits e = Safe-raise _

  restart_mongod-Emits : Emits P (restart_mongod_service w)
  unfolding restart_mongod_service
  restart_mongod-Emits = Safe-then _ _ (Emits-call _ _ (may _ tt)) λ _.
      Safe-then _ _ (mongod_layer-Emits w may) λ layer.
        Safe-then _ _ (Emits-call _ _ (may _ tt)) λ _.
          Safe-then _ _ (Emits-call _ _ (may _ tt)) λ _.
            Safe-then _ _ (connect_mongodb_exporter-Emits w (layers may))
              λ _. connect_pbm_agent-Emits w (layers may)

  delete_tls_certificate-Emits : Emits P (delete_tls_certificate_from_workload w)
  unfolding delete_tls_certificate_from_workload
  delete_tls_certificate-Emits =
      Emits-for_all _ _ λ file. Safe-catch _ _ (Emits-call _ _ (may _ tt)) ignore_path_error-Emits

  enable_tls-Emits : Emits P (enable_tls w)
  unfolding enable_tls
  enable_tls-Emits = Safe-then _ _ (waiting_for_certs-Emits w) λ waiting.
      Emits-if _ _ _ (Emits-tell _ (may _ tt)) (
        Safe-then _ _ delete_tls_certificate-Emits λ _.
          Safe-then _ _ (push_tls_certificate-Emits w may) λ _.
            Safe-then _ _ (Emits-tell _ (may _ tt))
              λ _. Safe-then _ _ restart_mongod-Emits λ _. Emits-tell _ (may _ tt))

  module _ (scope : Scope) (allows : AllowsSecrets P scope) where
    request_certificate-Emits :
        (param : Option String) → Emits P (request_certificate_for w scope param)
    unfolding request_certificate_for
    request_certificate-Emits param =
        let asked : (csr : String) → P (Call.request_certificate csr) = λ csr. may _ tt in
        search
          (emits_rules, key_from-Emits, make_csr-Emits, set_secret-Emits, allows, Emits-tell, asked)
          depth 30

    remove_certificate-Emits : Emits P (remove_certificate w scope)
    unfolding remove_certificate
    remove_certificate-Emits = search (emits_rules, set_secret-Emits, allows) depth 14

    store_certificate-Emits : (event : Certificate) → Emits P (store_certificate w scope event)
    unfolding store_certificate
    store_certificate-Emits event = search (emits_rules, set_secret-Emits, allows) depth 14

    renew-Emits : Emits P (renew w scope)
    unfolding renew
    renew-Emits =
        let asked : (old new : String) → P (Call.request_renewal old new) = λ old new. may _ tt in
        search
          (
            emits_rules, get_secret-Emits, make_csr-Emits, set_secret-Emits, allows, Emits-tell,
            asked,
          )
          depth 30

module _ {P : Call → Type 0} {Leads : Type 0} (w : World) (works : Works w Leads P)
    (app_secrets : Leads → AllowsSecrets P app) where
  own : AllowsSecrets P unit
  own = unit_secrets works.may

  pub on_tls_relation_joined-Emits : Emits P (on_tls_relation_joined w)
  unfolding on_tls_relation_joined
  on_tls_relation_joined-Emits =
      Emits-leader w _ works
        (λ leads.
          Safe-then _ _ (request_certificate-Emits w works.may app (app_secrets leads) none)
            λ _. request_certificate-Emits w works.may unit own none)
        (Safe-then _ _ (Emits-pure tt) λ _. request_certificate-Emits w works.may unit own none)

  fail_value_error-Emits : (e : Error) → Emits P (fail_value_error w e)
  unfolding fail_value_error
  fail_value_error-Emits value_error = Emits-tell _ (works.may _ tt)
  fail_value_error-Emits e = Safe-raise _

  pub on_set_tls_private_key-Emits :
      (external internal : Option String) → Emits P (on_set_tls_private_key w external internal)
  unfolding on_set_tls_private_key request_both
  on_set_tls_private_key-Emits external internal =
      Safe-catch _ _
        (Safe-then _ _ (request_certificate-Emits w works.may unit own external) λ _.
          Emits-leader w _ works
            (λ leads. request_certificate-Emits w works.may app (app_secrets leads) internal)
            (Emits-tell _ (works.may _ tt)))
        fail_value_error-Emits

  pub on_tls_relation_broken-Emits : Emits P (on_tls_relation_broken w)
  unfolding on_tls_relation_broken
  on_tls_relation_broken-Emits =
      let may : (c : Call) → UnitMay c → P c = works.may in
      let disabled = Safe-then _ _ (get_secret-Emits w app secret_cert_label) λ cert.
        Emits-if _ _ _ (Emits-tell _ (may _ tt)) (
          Safe-then _ _ (Emits-tell _ (may _ tt)) λ _.
            Safe-then _ _ (delete_tls_certificate-Emits w may)
              λ _. Safe-then _ _ (restart_mongod-Emits w may) λ _. Emits-tell _ (may _ tt)) in
      Safe-then _ _ (remove_certificate-Emits w works.may unit own) λ _.
        Emits-leader w _ works
          (λ leads.
            Safe-then _ _ (remove_certificate-Emits w works.may app (app_secrets leads))
              λ _. disabled)
          (Safe-then _ _ (Emits-pure tt) λ _. disabled)

  accept-Emits : (scope : Option Scope) (event : Certificate) → Emits P (accept w scope event)
  unfolding accept
  accept-Emits none event = Emits-pure tt
  accept-Emits (some unit) event =
      Safe-then _ _ (store_certificate-Emits w works.may unit own event)
        λ _. enable_tls-Emits w works.may
  accept-Emits (some app) event =
      Emits-leader w _ works
        (λ leads.
          Safe-then _ _ (store_certificate-Emits w works.may app (app_secrets leads) event)
            λ _. enable_tls-Emits w works.may)
        (Safe-then _ _ (Emits-pure tt) λ _. enable_tls-Emits w works.may)

  pub on_certificate_available-Emits :
      (event : Certificate) → Emits P (on_certificate_available w event)
  unfolding on_certificate_available
  on_certificate_available-Emits event =
      search (emits_rules, get_secret-Emits, accept-Emits) depth 9

  renew_internal-Emits : Emits P (renew_internal w)
  unfolding renew_internal
  renew_internal-Emits =
      Emits-leader w _ works (λ leads. renew-Emits w works.may app (app_secrets leads))
        (Emits-pure tt)

  pub on_certificate_expiring-Emits :
      (certificate : String) → Emits P (on_certificate_expiring w certificate)
  unfolding on_certificate_expiring
  on_certificate_expiring-Emits certificate =
      Safe-then _ _ (get_secret-Emits w unit secret_cert_label) λ external.
        Safe-then _ _ (Emits-or_raise external _) λ unit_cert.
          Emits-if _ _ _ (renew-Emits w works.may unit own) (
            Safe-then _ _ (get_secret-Emits w app secret_cert_label) λ internal.
              Safe-then _ _ (Emits-or_raise internal _)
                λ app_cert. Emits-if _ _ _ renew_internal-Emits (Emits-pure tt))
