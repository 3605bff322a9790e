-- ===== src/Tls/Calls.antt =====
-- Reading the certificate files calls nothing.
use mongodb_k8s_operator.Core.Call.{Call, Scope}
use mongodb_k8s_operator.Core.World.{World}
use mongodb_k8s_operator.Core.Safe.{emits_rules, Emits}
use mongodb_k8s_operator.Charm.Secrets.Calls.{get_secret-Emits}
use mongodb_k8s_operator.Tls.Files.{is_tls_enabled, get_tls_files, waiting_for_certs}

module _ {P : Call → Type 0} (w : World) where
  pub get_tls_files-Emits : (scope : Scope) → Emits P (get_tls_files w scope)
  unfolding get_tls_files is_tls_enabled
  get_tls_files-Emits scope = search (emits_rules, get_secret-Emits) depth 20

  pub waiting_for_certs-Emits : Emits P (waiting_for_certs w)
  unfolding waiting_for_certs
  waiting_for_certs-Emits = search (emits_rules, get_secret-Emits) depth 14
