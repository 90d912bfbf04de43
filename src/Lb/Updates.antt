-- ===== src/Lb/Updates.antt =====
-- checkUpdateExternalIP, checkUpdateEndpoints and updateService of loadbalancer.go: whether the rules
-- of a service are out of date, and the addresses in its status.
pub mod Laws
use kube_loxilb.Api.LbModel.{LbEndpoint, LbModel, ep_select_eq}
use kube_loxilb.Base.{
  Bool, List, Option, String, [], any_of, bool_eq, false, if◌then◌else◌, length, map, nat_eq, none,
  not, some, string_eq, true, ℕ, ◌&&◌, ◌++◌, ◌+◌, ◌==◌, ◌||◌, ◌∷◌,
}
use kube_loxilb.Base.Assoc.{Assoc}
use kube_loxilb.Base.Int.{int_eq, ℤ}
use kube_loxilb.Base.Outcome.{err, ok, panic}
use kube_loxilb.Common.{gen_ext_ip_name}
use kube_loxilb.Config.{NetworkConfig}
use kube_loxilb.K8s.{Cluster, get_service_endpoint_ports}
use kube_loxilb.Lb.Model.{endpoint_at}
use kube_loxilb.Lb.Types.{Ingress, LbServicePairEntry, SvcPair}
use kube_loxilb.Net.{IpAddr, Net}

-- checkServiceIngressIPExists
unfoldable pub check_service_ingress_ip_exists : List Ingress → String → Bool
check_service_ingress_ip_exists [] new_ingress = false
check_service_ingress_ip_exists (i ∷ is) new_ingress =
    (not (i.ip == "") && i.ip == new_ingress)
    || ((not (i.hostname == "") && i.hostname == new_ingress)
        || check_service_ingress_ip_exists is new_ingress)

-- The names under which the address of a pair is published; none if it is neither of a pool nor fixed.
unfoldable pub published_names : Net → NetworkConfig → Assoc IpAddr → SvcPair → List String
unfolding gen_ext_ip_name
published_names net config insts s =
    if s.in_range || s.static_ip then gen_ext_ip_name net config.zone insts s.ip_string else []

-- checkUpdateExternalIP
unfoldable pub check_update_external_ip :
    Net → NetworkConfig → Assoc IpAddr → List SvcPair → List Ingress → Bool
unfolding check_service_ingress_ip_exists published_names
check_update_external_ip net config insts pairs ingress =
    any_of
      (λ s.
        any_of (λ ip. not (check_service_ingress_ip_exists ingress ip))
          (published_names net config insts s))
      pairs

abbrev pub same_endpoint : LbEndpoint → LbEndpoint → Bool
same_endpoint a b = a.endpoint_ip == b.endpoint_ip && a.target_port == b.target_port

-- One rule against the endpoints with ports.
abbrev pub ports_changed : List LbEndpoint → LbModel → Bool
ports_changed eps lb =
    not (length eps == length lb.endpoints)
    || any_of (λ ep. not (any_of (λ old. same_endpoint old ep) lb.endpoints)) eps

-- One rule against the addresses: nEps counts up to the first address that is not found.
count_found : List LbEndpoint → List String → ℕ
count_found old [] = 0
count_found old (ip ∷ ips) =
    let rest = count_found old ips in
    if any_of (λ (ep : LbEndpoint). ip == ep.endpoint_ip) old then rest + 1 else 0

unfoldable pub addresses_changed : List String → LbModel → Bool
unfolding count_found
addresses_changed ips lb =
    not (length ips == length lb.endpoints) || not (count_found lb.endpoints ips == length ips)

abbrev pub all_ports : List String → List ℤ → List LbEndpoint
all_ports [] ts = []
all_ports (ip ∷ ips) ts = map (endpoint_at ip) ts ++ all_ports ips ts

abbrev pub any_rule : (LbModel → Bool) → Assoc LbServicePairEntry → Bool
any_rule t sps = any_of (λ (p : String × LbServicePairEntry). any_of t p.1.lb_model_list) sps

-- checkUpdateEndpoints, on the pairs of the cache entry.
unfoldable pub check_update_endpoints :
    Cluster → Assoc LbServicePairEntry → List String → Bool → Bool
unfolding addresses_changed
check_update_endpoints cluster sps ips match_ports =
    if match_ports
    then elim (get_service_endpoint_ports cluster.slices) [
      | ok ts ↦ any_rule (ports_changed (all_ports ips ts)) sps
      | err _ ↦ true
      | panic ↦ true
    ]
    else any_rule (addresses_changed ips) sps

-- An ingress entry of updateService for a published name, which is an address or not.
abbrev pub ingress_of : String → Option IpAddr → Ingress
ingress_of ip none = record { ip = ""; hostname = ip }
ingress_of ip (some _) = record { ip = ip; hostname = "" }

abbrev ret_ingress : Net → String → Ingress
ret_ingress net ip = ingress_of ip (net.parse_ip ip)

add_names : Net → List Ingress → List String → List Ingress
unfolding check_service_ingress_ip_exists
add_names net ing [] = ing
add_names net ing (ip ∷ ips) =
    if check_service_ingress_ip_exists ing ip
    then add_names net ing ips
    else add_names net (ing ++ ret_ingress net ip ∷ []) ips

-- The status that updateService writes.
unfoldable pub updated_ingress :
    Net → NetworkConfig → Assoc IpAddr → List Ingress → List SvcPair → List Ingress
unfolding add_names published_names
updated_ingress net config insts ing [] = ing
updated_ingress net config insts ing (s ∷ ss) =
    updated_ingress net config insts (add_names net ing (published_names net config insts s)) ss
