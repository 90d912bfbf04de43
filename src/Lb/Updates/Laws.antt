-- ===== src/Lb/Updates/Laws.antt =====
-- When the checks for an update settle.
use kube_loxilb.Api.LbModel.{LbEndpoint, LbModel, ep_select_eq}
use kube_loxilb.Base.{
  All, Bool, Bool-cases, List, Option, String, [], all_of, any_of, ap, arith, bool_eq, elem, eq_iff,
  false, inl, inr, length, nat_eq, none, not, refl, some, string_eq, subst, sym, true, ◌&&◌, ◌++◌,
  ◌==◌, ◌||◌, ◌∙◌, ◌∷◌, ◌≡◌, ◌≢◌, ◌≤◌,
}
use kube_loxilb.Base.Assoc.{Assoc}
use kube_loxilb.Base.Int.{int_eq}
use kube_loxilb.Config.{NetworkConfig}
use kube_loxilb.K8s.{Cluster}
use kube_loxilb.Lb.Types.{Ingress, LbServicePairEntry, SvcPair}
use kube_loxilb.Lb.Updates.{
  add_names, addresses_changed, any_rule, check_service_ingress_ip_exists, check_update_endpoints,
  check_update_external_ip, count_found, ingress_of, published_names, ret_ingress, same_endpoint,
  updated_ingress,
}
use kube_loxilb.Net.{IpAddr, Net}

-- A rule with these endpoints differs in no endpoint from them.
covered :
    (big es : List LbEndpoint)
    → ((p : LbEndpoint → Bool) → any_of p es ≡ true → any_of p big ≡ true)
    → any_of (λ ep. not (any_of (λ old. same_endpoint old ep) big)) es ≡ false
covered big [] h = refl
covered big (e ∷ es) h =
    let here =
      h (λ old. same_endpoint old e)
        (ground (
          arith,
          string_eq.equal_iff e.endpoint_ip e.endpoint_ip,
          nat_eq.equal_iff e.target_port e.target_port,
        )) in
    rw here (covered big es (λ p q. h p (ground (arith, q))))

-- An address is at an endpoint.
abbrev pub at_address : String → List LbEndpoint → Bool
at_address ip old = any_of (λ (ep : LbEndpoint). ip == ep.endpoint_ip) old

count_found-le : (old : List LbEndpoint) (ips : List String) → count_found old ips ≤ length ips
unfolding count_found
count_found-le old [] = omega arith
count_found-le old (ip ∷ ips) = ground (arith, count_found-le old ips)

count_found_all :
    (old : List LbEndpoint) (ips : List String)
    → (count_found old ips == length ips) ≡ all_of (λ ip. at_address ip old) ips
unfolding count_found
count_found_all old [] = refl
count_found_all old (ip ∷ ips) = ground (arith, count_found_all old ips, count_found-le old ips)

-- Without external endpoints, a service needs an update exactly if some rule of some pair has
-- another number of endpoints than there are addresses, or no endpoint at one of the addresses.
pub check_update_endpoints_addresses :
    (cluster : Cluster) (sps : Assoc LbServicePairEntry) (ips : List String)
    → check_update_endpoints cluster sps ips false
      ≡ any_rule
          (λ lb.
            not
              (length ips == length lb.endpoints && all_of (λ ip. at_address ip lb.endpoints) ips))
          sps
unfolding check_update_endpoints addresses_changed
check_update_endpoints_addresses cluster sps ips =
    ap (λ (t : LbModel → Bool). any_rule t sps) (λ k lb. same lb k)
  where
    same :
        (lb : LbModel)
        → addresses_changed ips lb
          ≡ not (length ips == length lb.endpoints && all_of (λ ip. at_address ip lb.endpoints) ips)
    same lb = ground (arith, count_found_all lb.endpoints ips)

-- The existence test and the status.
exists-append :
    (is js : List Ingress) (x : String)
    → check_service_ingress_ip_exists (is ++ js) x
      ≡ (check_service_ingress_ip_exists is x || check_service_ingress_ip_exists js x)
unfolding check_service_ingress_ip_exists
exists-append [] js x = refl
exists-append (i ∷ is) js x = ground (arith, exists-append is js x)

exists-added :
    (net : Net) (ing : List Ingress) (ips : List String) (x : String)
    → check_service_ingress_ip_exists ing x ≡ true
    → check_service_ingress_ip_exists (add_names net ing ips) x ≡ true
unfolding add_names
exists-added net ing [] x h = h
exists-added net ing (ip ∷ ips) x h = elim (Bool-cases (check_service_ingress_ip_exists ing ip)) [
  | inl e ↦ rw e (exists-added net ing ips x h)
  | inr e ↦ rw e (
      exists-added net (ing ++ ret_ingress net ip ∷ []) ips x
        (ground (arith, h, exists-append ing (ret_ingress net ip ∷ []) x)))
]

exists-ingress_of :
    (ip : String) (o : Option IpAddr)
    → ip ≢ ""
    → check_service_ingress_ip_exists (ingress_of ip o ∷ []) ip ≡ true
unfolding check_service_ingress_ip_exists
exists-ingress_of ip none ne = ground (arith, eq_iff ip "", eq_iff ip ip, ne)
exists-ingress_of ip (some a) ne = ground (arith, eq_iff ip "", eq_iff ip ip, ne)

-- Every name that was to be added is there.
abbrev all_there : List Ingress → List String → Bool
all_there ing names = not (any_of (λ ip. not (check_service_ingress_ip_exists ing ip)) names)

all_there_cons :
    (z ing : List Ingress) (ip : String) (ips : List String)
    → z ≡ ing
    → check_service_ingress_ip_exists ing ip ≡ true
    → all_there ing ips ≡ true
    → all_there z (ip ∷ ips) ≡ true
all_there_cons z ing ip ips e h k =
    subst (λ y. all_there y (ip ∷ ips) ≡ true) (sym e) (rw (h, k) refl)

all_there-add_names :
    (net : Net) (ing : List Ingress) (ips : List String)
    → elem "" ips ≡ false
    → all_there (add_names net ing ips) ips ≡ true
unfolding add_names
all_there-add_names net ing [] ne = refl
all_there-add_names net ing (ip ∷ ips) ne =
    elim (Bool-cases (check_service_ingress_ip_exists ing ip)) [
      | inl e ↦
          all_there_cons (add_names net ing (ip ∷ ips)) (add_names net ing ips) ip ips (rw e)
            (exists-added net ing ips ip e) (all_there-add_names net ing ips (ground (arith, ne)))
      | inr e ↦
          let ing' = ing ++ ret_ingress net ip ∷ [] in
          all_there_cons (add_names net ing (ip ∷ ips)) (add_names net ing' ips) ip ips (rw e)
            (exists-added net ing' ips ip (
              exists-append ing (ret_ingress net ip ∷ []) ip
              ∙ ground (
                arith,
                exists-ingress_of ip (net.parse_ip ip) (ground (arith, ne, eq_iff ip "")),
              )))
            (all_there-add_names net ing' ips (ground (arith, ne)))
    ]

all_there_mono :
    (is js : List Ingress) (names : List String)
    → ((x : String)
        → check_service_ingress_ip_exists is x ≡ true
        → check_service_ingress_ip_exists js x ≡ true)
    → all_there is names ≡ true
    → all_there js names ≡ true
all_there_mono is js [] h k = refl
all_there_mono is js (n ∷ names) h k =
    all_there_cons js js n names refl (h n (ground (arith, k)))
      (all_there_mono is js names h (ground (arith, k)))

module _ (net : Net) (config : NetworkConfig) (insts : Assoc IpAddr) where
  updated_ingress-exists :
      (ss : List SvcPair) (ing : List Ingress) (x : String)
      → check_service_ingress_ip_exists ing x ≡ true
      → check_service_ingress_ip_exists (updated_ingress net config insts ing ss) x ≡ true
  unfolding updated_ingress
  updated_ingress-exists [] ing x h = h
  updated_ingress-exists (s ∷ ss) ing x h =
      updated_ingress-exists ss _ x (exists-added net ing (published_names net config insts s) x h)

  -- Against the status that updateService makes for the pairs of a service, checkUpdateExternalIP
  -- finds nothing to update, if no published name of these pairs is empty.
  pub check_update_external_ip-updated_ingress :
      (ss : List SvcPair) (ing : List Ingress)
      → All (λ s. elem "" (published_names net config insts s) ≡ false) ss
      → check_update_external_ip net config insts ss (updated_ingress net config insts ing ss)
        ≡ false
  unfolding check_update_external_ip updated_ingress
  check_update_external_ip-updated_ingress [] ing h = refl
  check_update_external_ip-updated_ingress (s ∷ ss) ing h =
      let names = published_names net config insts s in
      let here =
        all_there_mono (add_names net ing names)
          (updated_ingress net config insts (add_names net ing names) ss) names
          (updated_ingress-exists ss (add_names net ing names))
          (all_there-add_names net ing names h.0) in
      let later = check_update_external_ip-updated_ingress ss (add_names net ing names) h.1 in
      ground (arith, here, later)
