-- ===== src/Lb/Pairs.antt =====
-- The external addresses of a service: getServiceIngressIPs to getIngressSecSvcPairs of loadbalancer.go.
pub mod Laws
use kube_loxilb.Api.LbModel.{ep_select_eq}
use kube_loxilb.Base.{
  Bool, List, Option, String, [], bool_eq, false, if◌then◌else◌, is_empty, keep_if, map, nat_eq,
  none, not, some, string_eq, true, ◌&&◌, ◌++◌, ◌==◌, ◌||◌, ◌∷◌,
}
use kube_loxilb.Base.Assoc.{Assoc, lookup}
use kube_loxilb.Base.Int.{int_eq, pos, to_u16, to_u32}
use kube_loxilb.Base.Outcome.{Outcome, ok, panic, ◌>>=◌, ◌>>◌}
use kube_loxilb.Common.{parse_ingress_hostname}
use kube_loxilb.Config.{NetworkConfig}
use kube_loxilb.IpPool.{IpPool, check_and_reserve_ip, get_new_ip_addr, ipam_ident}
use kube_loxilb.Lb.Types.{
  Ingress, LbCacheEntry, LbServicePairEntry, Service, ServicePort, SvcPair, annotation, gen_sp_key,
}
use kube_loxilb.Net.{Allocator, IpAddr, Net}
use kube_loxilb.Text.{split, to_lower}

abbrev asks_v6 : String → Bool
asks_v6 lba = lba == "ipv6" || (lba == "ip6" || lba == "nat66")

-- One pool definition "name=cidr": the flag where the loop ends, `has_zero`, or what the rest of the
-- loop gives from the same flag or from a set one.
zero_cidr_def : Net → Service → String → Bool → Bool → Bool → List String → Bool
zero_cidr_def net svc pool has_zero rest rest_zero (name ∷ cidr ∷ []) =
    if not (pool == name) then rest else elim (net.parse_cidr cidr) [
      | none ↦ has_zero
      | some (_, n) ↦
          if net.ip_string n.ip == "0.0.0.0"
          then if asks_v6 (annotation svc "loxilb.io/ipam") then has_zero else rest_zero
          else rest
    ]
zero_cidr_def net svc pool has_zero rest rest_zero _ = has_zero

-- The loop over the definitions: it ends at a malformed one, and at a zero pool that the service
-- asks to use for IPv6.
zero_cidr_loop : Net → Service → String → Bool → List String → Bool
unfolding split zero_cidr_def
zero_cidr_loop net svc pool has_zero [] = has_zero
zero_cidr_loop net svc pool has_zero (d ∷ ds) =
    let rest = zero_cidr_loop net svc pool has_zero ds in
    let rest_zero = zero_cidr_loop net svc pool true ds in
    zero_cidr_def net svc pool has_zero rest rest_zero (split 61 d)

unfoldable pub service_has_zero_cidr_pool : Net → NetworkConfig → Service → Bool
unfolding zero_cidr_loop
service_has_zero_cidr_pool net config svc =
    let pn = annotation svc "loxilb.io/poolSelect" in
    zero_cidr_loop net svc (if pn == "" then "defaultPool" else pn) false
      config.external_cidr_pool_defs

-- The address of one ingress entry; "" where it is skipped.
abbrev pub ingress_ip : Net → NetworkConfig → Bool → Ingress → String
unfolding parse_ingress_hostname
ingress_ip net config has_zero i =
    if not (i.ip == "")
    then if has_zero then "0.0.0.0" else i.ip
    else if i.hostname == ""
    then ""
    else if has_zero
    then "0.0.0.0"
    else parse_ingress_hostname net i.hostname config.zone

unfoldable pub get_service_ingress_ips : Net → NetworkConfig → Service → List String
unfolding service_has_zero_cidr_pool
get_service_ingress_ips net config svc =
    keep_if (λ s. not (s == ""))
      (map (ingress_ip net config (service_has_zero_cidr_pool net config svc)) svc.ingress)

unfoldable pub get_service_loxi_static_ip : Net → Service → String
get_service_loxi_static_ip net svc =
    let s = annotation svc "loxilb.io/staticIP" in
    if s == "" then "" else elim (net.parse_ip s) [ none ↦ "" | some _ ↦ s ]

unfoldable pub get_service_private_ip : Net → NetworkConfig → Service → String
get_service_private_ip net config svc = elim (lookup "loxilb.io/staticIP" svc.annotations) [
  | some _ ↦ ""
  | none ↦
      if config.private_cidr == ""
      then ""
      else elim (net.parse_cidr config.private_cidr) [ none ↦ "" | some (ip, _) ↦ net.ip_string ip ]
]

unfoldable pub get_lb_service_external_ips : Net → NetworkConfig → Service → List String
unfolding get_service_ingress_ips get_service_loxi_static_ip
get_lb_service_external_ips net config svc =
    let static_ip = get_service_loxi_static_ip net svc in
    get_service_ingress_ips net config svc
    ++ svc.external_ips
    ++ (if static_ip == "" then [] else static_ip ∷ [])

-- getLBIngressSvcPairs for one address
ip_pairs : String → List ServicePort → List SvcPair
ip_pairs ip [] = []
ip_pairs ip (p ∷ ps) =
    record {
      ip_string = ip;
      port = p.port;
      protocol = to_lower p.protocol;
      in_range = false;
      static_ip = true;
      ident_ipam = "";
      ip_allocd = false;
      svc_port = p;
    }
    ∷ ip_pairs ip ps

all_pairs : List String → List ServicePort → List SvcPair
unfolding ip_pairs
all_pairs [] ports = []
all_pairs (ip ∷ ips) ports = ip_pairs ip ports ++ all_pairs ips ports

unfoldable pub get_lb_ingress_svc_pairs : Net → NetworkConfig → Service → List SvcPair
unfolding get_lb_service_external_ips all_pairs
get_lb_ingress_svc_pairs net config svc =
    all_pairs (get_lb_service_external_ips net config svc) svc.ports

-- The first pair of the cache that passes a test.
abbrev pub find_pair :
    (LbServicePairEntry → Bool) → Assoc LbServicePairEntry → Option LbServicePairEntry
find_pair t [] = none
find_pair t ((k, sp) ∷ m) = if t sp then some sp else find_pair t m

abbrev pub same_key : SvcPair → LbServicePairEntry → Bool
unfolding gen_sp_key
same_key s sp =
    gen_sp_key s.ip_string (to_u16 s.port) s.protocol
    == gen_sp_key sp.external_ip sp.port sp.protocol

abbrev pub same_port : ServicePort → LbServicePairEntry → Bool
same_port p sp = sp.port == to_u16 p.port && to_lower p.protocol == sp.protocol

abbrev pub old_pair : LbServicePairEntry → ServicePort → SvcPair
old_pair sp port = record {
  ip_string = sp.external_ip;
  port = pos sp.port;
  protocol = sp.protocol;
  in_range = sp.in_range;
  static_ip = sp.static_ip;
  ident_ipam = sp.ident_ipam;
  ip_allocd = false;
  svc_port = port;
}

module _ (A : Allocator) (net : Net) where
  -- The identifier and the range flag of an address that the service has already: the first address
  -- in the pool is reserved there, and later ones only get an identifier.
  unfoldable pub claim : Bool → IpPool A.State → SvcPair → (Bool × String) × IpPool A.State
  claim true p s = ((false, ipam_ident A net p (to_u32 s.port) s.protocol), p)
  claim false p s =
      let ((in_range, ok?, ident), p') =
        check_and_reserve_ip A net p s.ip_string (to_u32 s.port) s.protocol in
      ((in_range, ident), p')

  -- The loop over the addresses that the service has.
  unfoldable pub existing_pairs :
      Assoc LbServicePairEntry
      → Bool
      → IpPool A.State
      → List SvcPair
      → List SvcPair × IpPool A.State
  unfolding claim
  existing_pairs cached reserved p [] = ([], p)
  existing_pairs cached reserved p (s ∷ ss) = elim (find_pair (same_key s) cached) [
    | some sp ↦
        let (rest, p') = existing_pairs cached reserved p ss in (old_pair sp s.svc_port ∷ rest, p')
    | none ↦
        let ((in_range, ident), p₁) = claim reserved p s in
        let (rest, p₂) = existing_pairs cached (reserved || in_range) p₁ ss in
        (
          record s {
            in_range = in_range;
            static_ip = true;
            ident_ipam = ident;
            ip_allocd = not reserved;
          }
              ∷ rest,
          p₂,
        )
  ]

  abbrev pub new_pair : ServicePort → IpAddr → String → Bool → SvcPair
  new_pair port ip ident allocd = record {
    ip_string = net.ip_string ip;
    port = port.port;
    protocol = to_lower port.protocol;
    in_range = true;
    static_ip = false;
    ident_ipam = ident;
    ip_allocd = allocd;
    svc_port = port;
  }

  -- The loop over the ports of a service without an address; the address is given once one of them
  -- got it. Without a free address the process exits, which is a panic here.
  unfoldable pub new_pairs :
      Assoc LbServicePairEntry
      → Option IpAddr
      → IpPool A.State
      → List ServicePort
      → Outcome (List SvcPair × IpPool A.State)
  new_pairs cached new_ip p [] = ok ([], p)
  new_pairs cached new_ip p (port ∷ ports) = elim (find_pair (same_port port) cached) [
    | some sp ↦ (do (rest, p') ← new_pairs cached new_ip p ports; ok (old_pair sp port ∷ rest, p'))
    | none ↦ elim new_ip [
      | some ip ↦ (do
        (rest, p') ← new_pairs cached (some ip) p ports
        ok (
          new_pair port ip (ipam_ident A net p (to_u32 port.port) (to_lower port.protocol)) false
              ∷ rest,
          p',
        ))
      | none ↦
          let r = get_new_ip_addr A net p (to_u32 port.port) (to_lower port.protocol) in
          elim r.0.0 [
            | none ↦ panic
            | some ip ↦ (do
              (rest, p') ← new_pairs cached (some ip) r.1 ports
              ok (new_pair port ip r.0.1 true ∷ rest, p'))
          ]
    ]
  ]

  -- getIngressSvcPairs on the pool of the entry: the pairs, and whether the service had an address.
  unfoldable pub get_ingress_svc_pairs :
      NetworkConfig
      → Service
      → LbCacheEntry
      → IpPool A.State
      → Outcome ((List SvcPair × Bool) × IpPool A.State)
  unfolding existing_pairs new_pairs get_lb_ingress_svc_pairs
  get_ingress_svc_pairs config svc e p =
      let has = get_lb_ingress_svc_pairs net config svc in
      if is_empty has
      then (do (pairs, p') ← new_pairs e.lb_service_pairs none p svc.ports; ok ((pairs, false), p'))
      else (let (pairs, p') = existing_pairs e.lb_service_pairs false p has in
          ok ((pairs, true), p'))
