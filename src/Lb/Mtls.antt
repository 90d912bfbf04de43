-- ===== src/Lb/Mtls.antt =====
-- getMtlsFrontendConfig and getMtlsBackendConfig of loadbalancer.go: TLS options from annotations and
-- secrets. The Kubernetes client and base64 are parameters.
pub mod Laws
use kube_loxilb.Api.LbModel.{MtlsBackend, MtlsFrontend, ep_select_eq}
use kube_loxilb.Base.{
  List, Option, String, [], bool_eq, false, if◌then◌else◌, nat_eq, none, some, string_eq, true, ℕ,
  ◌==◌, ◌||◌, ◌∷◌,
}
use kube_loxilb.Base.Assoc.{Assoc, lookup}
use kube_loxilb.Base.Int.{int_eq}
use kube_loxilb.Base.Outcome.{Outcome, err, ok, panic, ◌>>=◌}
use kube_loxilb.Lb.Types.{Service, annotation}
use kube_loxilb.Text.{concat}

-- The data of a secret, by key.
abbrev pub Secret : Type 0
Secret = Assoc (List ℕ)

pub record Secrets : Type 0 where
  pub get_secret : String → String → Outcome Secret
  pub encode : List ℕ → String

-- The value under the first key, or under the second where the first is missing or empty; the
-- second must then be there.
unfoldable pub data_or : String → String → Secret → Option (List ℕ)
data_or key fallback secret = elim (lookup key secret) [
  | some (b ∷ bs) ↦ some (b ∷ bs)
  | _ ↦ elim (lookup fallback secret) [ some (b ∷ bs) ↦ some (b ∷ bs) | _ ↦ none ]
]

abbrev pub secret_error :
    {A : Type 0} → String → Service → String → Outcome Secret → (Secret → Outcome A) → Outcome A
secret_error what svc name (ok s) k = k s
secret_error what svc name (err e) k =
    err (concat ("failed to get " ∷ what ∷ " " ∷ svc.namespace ∷ "/" ∷ name ∷ ": " ∷ e ∷ []))
secret_error what svc name panic k = panic

abbrev pub no_key : {A : Type 0} → Service → String → String → String → Outcome A
no_key svc name a b = err (
    concat (
      "secret " ∷ svc.namespace ∷ "/" ∷ name ∷ " does not contain '" ∷ a ∷ "' or '" ∷ b ∷ "' key"
      ∷ []))

-- CN verification
frontend_cn : Service → String → String → Outcome MtlsFrontend
frontend_cn svc mode ca =
    if annotation svc "loxilb.io/mtls-frontend-require-cn" == "true"
    then (if annotation svc "loxilb.io/mtls-frontend-cn-pattern" == ""
        then err "mtls-frontend-cn-pattern is required when mtls-frontend-require-cn is true"
        else ok (record {
          client_cert_mode = mode;
          client_ca_cert_data = ca;
          require_client_cn = true;
          client_cn_pattern = annotation svc "loxilb.io/mtls-frontend-cn-pattern";
        }))
    else ok (record {
      client_cert_mode = mode;
      client_ca_cert_data = ca;
      require_client_cn = false;
      client_cn_pattern = "";
    })

module _ (secrets : Secrets) where
  open secrets use {get_secret, encode}

  frontend_secret : Service → String → Outcome MtlsFrontend
  unfolding frontend_cn data_or
  frontend_secret svc mode =
      let name = annotation svc "loxilb.io/mtls-frontend-secret" in
      if name == ""
      then err (
          concat
            ("mtls-frontend-secret is required when mtls-frontend-mode is '" ∷ mode ∷ "'" ∷ []))
      else secret_error "secret" svc name (get_secret svc.namespace name) (λ secret.
        elim (data_or "client-ca.crt" "server.crt" secret) [
          | none ↦ no_key svc name "client-ca.crt" "server.crt"
          | some ca ↦ frontend_cn svc mode (encode ca)
        ])

  -- getMtlsFrontendConfig
  unfoldable pub get_mtls_frontend_config : Service → Outcome (Option MtlsFrontend)
  unfolding frontend_secret
  get_mtls_frontend_config svc =
      let mode = annotation svc "loxilb.io/mtls-frontend-mode" in
      if mode == "" || mode == "disabled"
      then ok none
      else if mode == "optional" || mode == "required"
      then (do f ← frontend_secret svc mode; ok (some f))
      else err (
          concat (
            "invalid mtls-frontend-mode: " ∷ mode
            ∷ " (must be 'disabled', 'optional', or 'required')" ∷ []))

  -- The CA secret is checked, and its content not used.
  backend_ca : Service → Outcome (Unit {0})
  unfolding data_or
  backend_ca svc =
      let name = annotation svc "loxilb.io/mtls-backend-ca-secret" in
      if name == ""
      then ok tt
      else secret_error "backend CA secret" svc name (get_secret svc.namespace name) (λ secret.
        elim (data_or "backend-ca.crt" "server.crt" secret) [
          | none ↦ no_key svc name "backend-ca.crt" "server.crt"
          | some ca ↦ ok tt
        ])

  backend_client : Service → Outcome (String × String)
  unfolding data_or
  backend_client svc =
      let name = annotation svc "loxilb.io/mtls-backend-client-secret" in
      if name == ""
      then ok ("", "")
      else secret_error "backend client secret" svc name (get_secret svc.namespace name) (λ secret.
        elim (data_or "tls.crt" "server.crt" secret) [
          | none ↦ no_key svc name "tls.crt" "server.crt"
          | some cert ↦ elim (data_or "tls.key" "server.key" secret) [
            | none ↦ no_key svc name "tls.key" "server.key"
            | some key ↦ ok (encode cert, encode key)
          ]
        ])

  -- getMtlsBackendConfig
  unfoldable pub get_mtls_backend_config : Service → Outcome (Option MtlsBackend)
  unfolding backend_ca backend_client
  get_mtls_backend_config svc =
      if annotation svc "loxilb.io/mtls-backend-verify" == "true"
      then (do
        _ ← backend_ca svc
        (cert, key) ← backend_client svc
        ok (
            some (record {
              verify_server_cert = true;
              client_cert_data = cert;
              client_key_data = key;
            })))
      else ok none
