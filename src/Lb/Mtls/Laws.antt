-- ===== src/Lb/Mtls/Laws.antt =====
-- What the TLS configuration guarantees.
use kube_loxilb.Api.LbModel.{MtlsFrontend, ep_select_eq}
use kube_loxilb.Base.{
  Bool-cases, List, Option, String, [], ap, arith, bool_eq, eq_iff, inl, inr, nat_eq, none, refl,
  some, string_eq, true, ℕ, ◌==◌, ◌||◌, ◌∙◌, ◌∷◌, ◌≡◌, ◌≢◌, ◌⊎◌,
}
use kube_loxilb.Base.Int.{int_eq}
use kube_loxilb.Base.Outcome.{Outcome, err, ok, panic, ◌>>=◌}
use kube_loxilb.Lb.Mtls.{
  Secret, Secrets, data_or, frontend_cn, frontend_secret, get_mtls_frontend_config, no_key,
  secret_error,
}
use kube_loxilb.Lb.Types.{Service, annotation}

-- The mode is one that verifies clients, a certificate authority from a secret stands behind it, and a
-- required common name has a pattern.
pub record IsSound (encode : List ℕ → String) (f : MtlsFrontend) : Type 0 where
  pub mode : (f.client_cert_mode ≡ "optional") ⊎ (f.client_cert_mode ≡ "required")
  pub authority : (b : ℕ) × (bs : List ℕ) × (f.client_ca_cert_data ≡ encode (b ∷ bs))
  pub pattern_of_name : f.require_client_cn ≡ true → f.client_cn_pattern ≢ ""

data_or-cons :
    (key fallback : String) (secret : Secret) (ca : List ℕ)
    → data_or key fallback secret ≡ some ca
    → (b : ℕ) × (bs : List ℕ) × (ca ≡ b ∷ bs)
unfolding data_or
data_or-cons key fallback secret [] h = absurd (ground arith)
data_or-cons key fallback secret (b ∷ bs) h = (b, bs, refl)

frontend_cn_sound :
    (svc : Service) (mode ca : String) (f : MtlsFrontend)
    → frontend_cn svc mode ca ≡ ok f
    → (f.client_cert_mode ≡ mode)
      × (f.client_ca_cert_data ≡ ca)
      × (f.require_client_cn ≡ true → f.client_cn_pattern ≢ "")
unfolding frontend_cn
frontend_cn_sound svc mode ca f h =
    ground (arith, eq_iff (annotation svc "loxilb.io/mtls-frontend-cn-pattern") "")

module _ (secrets : Secrets) where
  open secrets use {get_secret, encode}

  data_step :
      (svc : Service) (name mode : String) (f : MtlsFrontend) (d : Option (List ℕ))
      → ((ca : List ℕ) → d ≡ some ca → (b : ℕ) × (bs : List ℕ) × (ca ≡ b ∷ bs))
      → elim d [
        | none ↦ no_key svc name "client-ca.crt" "server.crt"
        | some ca ↦ frontend_cn svc mode (encode ca)
      ]
        ≡ ok f
      → (f.client_cert_mode ≡ mode)
        × ((b : ℕ) × (bs : List ℕ) × (f.client_ca_cert_data ≡ encode (b ∷ bs)))
        × (f.require_client_cn ≡ true → f.client_cn_pattern ≢ "")
  data_step svc name mode f none k h = absurd (ground arith)
  data_step svc name mode f (some ca) k h =
      let s = frontend_cn_sound svc mode (encode ca) f h in
      let (b, bs, e) = k ca refl in (s.0, (b, bs, s.1 ∙ ap encode e), s.2)

  secret_step :
      (svc : Service) (name mode : String) (f : MtlsFrontend) (r : Outcome Secret)
      → secret_error "secret" svc name r (λ secret.
        elim (data_or "client-ca.crt" "server.crt" secret) [
          | none ↦ no_key svc name "client-ca.crt" "server.crt"
          | some ca ↦ frontend_cn svc mode (encode ca)
        ])
        ≡ ok f
      → (f.client_cert_mode ≡ mode)
        × ((b : ℕ) × (bs : List ℕ) × (f.client_ca_cert_data ≡ encode (b ∷ bs)))
        × (f.require_client_cn ≡ true → f.client_cn_pattern ≢ "")
  secret_step svc name mode f (ok s) h =
      data_step svc name mode f (data_or "client-ca.crt" "server.crt" s)
        (λ ca e. data_or-cons "client-ca.crt" "server.crt" s ca e) h
  secret_step svc name mode f (err e) h = absurd (ground arith)
  secret_step svc name mode f panic h = absurd (ground arith)

  frontend_secret_sound :
      (svc : Service) (mode : String) (f : MtlsFrontend)
      → frontend_secret secrets svc mode ≡ ok f
      → (f.client_cert_mode ≡ mode)
        × ((b : ℕ) × (bs : List ℕ) × (f.client_ca_cert_data ≡ encode (b ∷ bs)))
        × (f.require_client_cn ≡ true → f.client_cn_pattern ≢ "")
  unfolding frontend_secret
  frontend_secret_sound svc mode f h =
      let name = annotation svc "loxilb.io/mtls-frontend-secret" in
      elim (Bool-cases (name == "")) [
        | inl e ↦ absurd (ground arith)
        | inr e ↦ secret_step svc name mode f (get_secret svc.namespace name) (rw e at h)
      ]

  IsSound-step :
      (svc : Service) (mode : String) (f : MtlsFrontend)
      → (mode == "optional" || mode == "required") ≡ true
      → (r : Outcome MtlsFrontend) → frontend_secret secrets svc mode ≡ r
      → (r >>= λ g. ok (some g)) ≡ ok (some f)
      → IsSound encode f
  IsSound-step svc mode f e (ok g) run h =
      let same : g ≡ f = ground arith in
      let s = frontend_secret_sound svc mode f (run ∙ ap ok same) in
      record {
        mode = ground (arith, s.0, eq_iff mode "optional", eq_iff mode "required");
        authority = s.1;
        pattern_of_name = s.2;
      }
  IsSound-step svc mode f e (err m) run h = absurd (ground arith)
  IsSound-step svc mode f e panic run h = absurd (ground arith)

  -- Where getMtlsFrontendConfig gives a configuration, its mode is optional or required, its
  -- certificate authority is the encoding of non-empty data, and it has a pattern if a common name
  -- is required.
  pub get_mtls_frontend_config-IsSound :
      (svc : Service) (f : MtlsFrontend)
      → get_mtls_frontend_config secrets svc ≡ ok (some f)
      → IsSound encode f
  unfolding get_mtls_frontend_config
  get_mtls_frontend_config-IsSound svc f h =
      let mode = annotation svc "loxilb.io/mtls-frontend-mode" in
      elim (Bool-cases (mode == "" || mode == "disabled")) [
        | inl e ↦ absurd (ground arith)
        | inr e ↦ elim (Bool-cases (mode == "optional" || mode == "required")) [
          | inr e' ↦ absurd (ground arith)
          | inl e' ↦
              IsSound-step svc mode f e' (frontend_secret secrets svc mode) refl (rw (e, e') at h)
        ]
      ]
