-- ===== src/Lb/Model/Laws.antt =====
-- The endpoints of the rules: those of makeLoxiLoadBalancerModel, and those that installLB sends.
use kube_loxilb.Api.LbModel.{LbEndpoint, LbModel, ep_select_eq}
use kube_loxilb.Base.{
  Bool, Bool-cases, List, String, [], any_of, any_of-append, ap, arith, bool_eq, false, inl, inr,
  is_empty, keep_if, length, length-append, map, nat_eq, refl, string_eq, subst, suc, sym, true, ℕ,
  ◌&&◌, ◌*◌, ◌++◌, ◌==◌, ◌||◌, ◌∙◌, ◌∷◌, ◌≡◌, ◌≢◌, ◌⊎◌,
}
use kube_loxilb.Base.Int.{int_eq, ℤ}
use kube_loxilb.Base.Outcome.{Outcome, Outcome-cases, err, ok, panic, ◌>>=◌}
use kube_loxilb.Config.{NetworkConfig}
use kube_loxilb.K8s.{Cluster}
use kube_loxilb.Lb.Model.{
  LbArgs, endpoint_at, make_endpoints, make_loxi_lb_model, prefer_local, target_ports,
}
use kube_loxilb.Lb.Types.{Service, ServicePort}
use kube_loxilb.Net.{Net}

any_of-map :
    (p : LbEndpoint → Bool) (f : ℤ → LbEndpoint) (ts : List ℤ)
    → any_of p (map f ts) ≡ any_of (λ t. p (f t)) ts
any_of-map p f [] = refl
any_of-map p f (t ∷ ts) = ground (arith, any_of-map p f ts)

any_of-keep_if :
    (p q : LbEndpoint → Bool) (es : List LbEndpoint)
    → any_of p (keep_if q es) ≡ any_of (λ e. p e && q e) es
any_of-keep_if p q [] = refl
any_of-keep_if p q (e ∷ es) = ground (arith, any_of-keep_if p q es)

length-map : (f : ℤ → LbEndpoint) (ts : List ℤ) → length (map f ts) ≡ length ts
length-map f [] = refl
length-map f (t ∷ ts) = ground (arith, length-map f ts)

ok_inj : {A : Type 0} {x y : A} → ok x ≡ ok y → x ≡ y
ok_inj h = cc

appended_length :
    (ip : String) (ts : List ℤ) (rest es : List LbEndpoint) (n : ℕ)
    → map (endpoint_at ip) ts ++ rest ≡ es
    → length rest ≡ n * length ts
    → length es ≡ suc n * length ts
appended_length ip ts rest es n e h =
    sym (ap length e)
    ∙ length-append (map (endpoint_at ip) ts) rest
    ∙ ground (arith, length-map (endpoint_at ip) ts)

no_rest :
    (f : List LbEndpoint → List LbEndpoint) (es : List LbEndpoint) (r : Outcome (List LbEndpoint))
    → ((a : List LbEndpoint) → r ≢ ok a)
    → (r >>= λ rest. ok (f rest)) ≡ ok es
    → ⊥
no_rest f es (ok a) never h = never a refl
no_rest f es (err t) never h = cc
no_rest f es panic never h = cc

is_empty-keep_if :
    (q : LbEndpoint → Bool) (es : List LbEndpoint)
    → is_empty (keep_if q es) ≡ false
    → is_empty es ≡ false
is_empty-keep_if q [] h = h
is_empty-keep_if q (e ∷ es) h = refl

abbrev endpoints_of : LbModel → List LbEndpoint
endpoints_of lb = lb.endpoints

pub no_model :
    (f : List LbEndpoint → LbModel) (lb : LbModel) (r : Outcome (List LbEndpoint))
    → ((a : List LbEndpoint) → r ≢ ok a)
    → (r >>= λ es. ok (f es)) ≡ ok lb
    → ⊥
no_model f lb (ok a) never h = never a refl
no_model f lb (err t) never h = cc
no_model f lb panic never h = cc

-- Each address with each port, as the length and the contents of the list.
make_endpoints_product :
    (ts : List ℤ) (ips : List String) (es : List LbEndpoint)
    → make_endpoints (ok ts) ips ≡ ok es
    → (length es ≡ length ips * length ts)
      × ((p : LbEndpoint → Bool)
          → any_of p es ≡ any_of (λ ip. any_of (λ t. p (endpoint_at ip t)) ts) ips)
unfolding make_endpoints
make_endpoints_product ts [] es h =
    let e : [] ≡ es = ok_inj h in (sym (ap length e) ∙ omega arith, λ p. sym (ap (any_of p) e))
make_endpoints_product [] (ip ∷ ips) es h = absurd (ground arith)
make_endpoints_product (t ∷ ts) (ip ∷ ips) es h =
    elim (Outcome-cases (make_endpoints (ok (t ∷ ts)) ips)) [
      | inl (rest, e) ↦
          let es_eq : map (endpoint_at ip) (t ∷ ts) ++ rest ≡ es = ok_inj (rw e at h) in
          let (size, tests) = make_endpoints_product (t ∷ ts) ips rest e in
          (
            appended_length ip (t ∷ ts) rest es (length ips) es_eq size,
            λ p.
                sym (ap (any_of p) es_eq)
                ∙ any_of-append p (map (endpoint_at ip) (t ∷ ts)) rest
                ∙ ap (λ b. b || any_of p rest) (any_of-map p (endpoint_at ip) (t ∷ ts))
                ∙ ap (λ b. any_of (λ u. p (endpoint_at ip u)) (t ∷ ts) || b) (tests p),
          )
      | inr e ↦ absurd (
          no_rest (λ rest. map (endpoint_at ip) (t ∷ ts) ++ rest) es
            (make_endpoints (ok (t ∷ ts)) ips) e h)
    ]

-- A rule that is made has one endpoint for each address and each target port of the service: it has
-- that many endpoints, and an endpoint with any given quality is in the rule exactly if it is made of
-- one of the addresses and one of the ports, reduced to 16 bits, with weight 1.
pub make_loxi_lb_model-endpoints :
    (net : Net) (config : NetworkConfig) (cluster : Cluster) (args : LbArgs) (svc : Service)
    (port : ServicePort) (ts : List ℤ) (lb : LbModel)
    → target_ports cluster args svc port ≡ ok ts
    → make_loxi_lb_model net config cluster args svc port ≡ ok lb
    → (length lb.endpoints ≡ length args.endpoint_ips * length ts)
      × ((p : LbEndpoint → Bool)
          → any_of p lb.endpoints
            ≡ any_of (λ ip. any_of (λ t. p (endpoint_at ip t)) ts) args.endpoint_ips)
unfolding make_loxi_lb_model
make_loxi_lb_model-endpoints net config cluster args svc port ts lb e h =
    elim (Outcome-cases (make_endpoints (ok ts) args.endpoint_ips)) [
      | inl (es, q) ↦
          let same : es ≡ lb.endpoints = ap endpoints_of (ok_inj (rw (e, q) at h)) in
          subst
            (λ xs.
              (length xs ≡ length args.endpoint_ips * length ts)
              × ((p : LbEndpoint → Bool)
                  → any_of p xs
                    ≡ any_of (λ ip. any_of (λ t. p (endpoint_at ip t)) ts) args.endpoint_ips))
            same (make_endpoints_product ts args.endpoint_ips es q)
      | inr no_value ↦
          absurd (no_model _ lb (make_endpoints (ok ts) args.endpoint_ips) no_value (rw e at h))
    ]

-- The preference for endpoints on the instance's host only drops endpoints on other hosts, and never
-- leaves a rule without endpoints that had some: what is sent is the rule itself, or the rule with
-- those endpoints that are on the host of the instance, of which there are some.
pub prefer_local-endpoints :
    (host : String) (pref_local : Bool) (lb : LbModel)
    → let sent = prefer_local host pref_local lb in
      (is_empty sent.endpoints ≡ is_empty lb.endpoints)
      × ((sent ≡ lb)
          ⊎ ((pref_local ≡ true)
              × ((sent ≡ record lb { endpoints = sent.endpoints })
                  × ((p : LbEndpoint → Bool)
                      → any_of p sent.endpoints
                        ≡ any_of
                            (λ (ep : LbEndpoint). p ep && (ep.endpoint_ip == host))
                            lb.endpoints))))
unfolding prefer_local
prefer_local-endpoints host true lb =
    elim (Bool-cases
      (is_empty (keep_if (λ (ep : LbEndpoint). ep.endpoint_ip == host) lb.endpoints))) [
        | inl e ↦ (rw e, inl (rw e))
        | inr e ↦ (
          rw e (
              e
              ∙ sym
                  (is_empty-keep_if (λ (ep : LbEndpoint). ep.endpoint_ip == host) lb.endpoints e)),
          inr (
            refl,
            (
              rw e,
              λ p.
                  rw (
                    e,
                    any_of-keep_if p (λ (ep : LbEndpoint). ep.endpoint_ip == host) lb.endpoints,
                  ),
            ),
          ),
        )
      ]
prefer_local-endpoints host false lb = (refl, inl refl)
