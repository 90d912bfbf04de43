-- ===== src/K8s.antt =====
-- pkg/k8s (env.go, node.go, servicePort.go) and the node functions of loadbalancer.go: where the
-- endpoints of a service come from. What the Kubernetes API answers is an argument.
pub mod Discover
pub mod Endpoints
pub mod Examples
use kube_loxilb.Api.LbModel.{ep_select_eq}
use kube_loxilb.Base.{
  Bool, List, Option, String, [], any_of, bool_eq, elem, if◌then◌else◌, is_empty, nat_eq, none, not,
  set, some, string_eq, true, ◌&&◌, ◌++◌, ◌==◌, ◌||◌, ◌∷◌,
}
use kube_loxilb.Base.Int.{int_eq, pos, ℤ}
use kube_loxilb.Base.Outcome.{Outcome, err, ok, ◌>>=◌, ◌>>◌}
use kube_loxilb.Net.{Net}
use kube_loxilb.Text.{atoi, concat}

pub record NodeCondition : Type 0 where
  pub type : String
  pub status : String

pub record NodeAddress : Type 0 where
  pub type : String
  pub address : String

pub record Node : Type 0 where
  pub name : String
  pub conditions : List NodeCondition
  pub addresses : List NodeAddress

-- The ports of a container: name and number.
pub record Pod : Type 0 where
  pub host_ip : String
  pub host_ips : List String
  pub container_ports : List (String × ℤ)

-- discoveryv1.EndpointSlice: `ready` and a port may be absent.
pub record SliceEndpoint : Type 0 where
  pub ready : Option Bool
  pub addresses : List String

pub record EndpointSlice : Type 0 where
  pub ports : List (Option ℤ)
  pub endpoints : List SliceEndpoint

-- What the API server and the listers answer about one service.
pub record Cluster : Type 0 where
  pub nodes : Outcome (List Node)
  pub labelled_nodes : String → Outcome (List Node)
  pub pods : Outcome (List Pod)
  pub slices : Outcome (List EndpointSlice)
  pub multus_endpoints : String → Outcome (List String)

module _ (net : Net) where
  open net use {is_ipv4, is_ipv6}

  -- AddrInFamily
  unfoldable pub addr_in_family : String → String → Bool
  addr_in_family addr_type addr =
      ((addr_type == "ipv4" || addr_type == "ipv6to4") && is_ipv4 addr)
      || (addr_type == "ipv6" && is_ipv6 addr)

  not_ready : NodeCondition → Bool
  not_ready c = c.type == "Ready" && not (c.status == "True")

  first_internal : String → List NodeAddress → Option String
  unfolding addr_in_family
  first_internal addr_type [] = none
  first_internal addr_type (a ∷ as') =
      if a.type == "InternalIP" && addr_in_family addr_type a.address
      then some a.address
      else first_internal addr_type as'

  first_address : String → List NodeAddress → Outcome String
  unfolding addr_in_family
  first_address addr_type [] = err "no address found for host"
  first_address addr_type (a ∷ as') =
      if addr_in_family addr_type a.address
      then ok a.address
      else err "no address with family found for host"

  -- getNodeAddress
  unfoldable pub get_node_address : Node → String → Outcome String
  unfolding not_ready first_internal first_address
  get_node_address node addr_type =
      if any_of not_ready node.conditions
      then err (concat ("node " ∷ node.name ∷ " is not ready" ∷ []))
      else elim (first_internal addr_type node.addresses) [
        | some a ↦ ok a
        | none ↦ first_address addr_type node.addresses
      ]

  -- MatchNodeinNodeList, under the guard of its callers: an empty list matches every node.
  unfoldable pub node_listed : String → List String → Bool
  node_listed node node_match_list = is_empty node_match_list || elem node node_match_list

  -- getEndpointsForLB: nodes without a usable address are skipped.
  unfoldable pub get_endpoints_for_lb : List Node → String → List String → List String
  unfolding node_listed
  get_endpoints_for_lb [] addr_type node_match_list = []
  get_endpoints_for_lb (n ∷ ns) addr_type node_match_list =
      let rest = get_endpoints_for_lb ns addr_type node_match_list in
      elim (get_node_address n addr_type) [
        | ok a ↦ if node_listed a node_match_list then a ∷ rest else rest
        | _ ↦ rest
      ]

  first_v6 : List String → Option String
  first_v6 [] = none
  first_v6 (ip ∷ ips) = if is_ipv6 ip then some ip else first_v6 ips

  -- hostIP of a pod, which is an IPv6 address where the service wants one.
  host_ip_of : String → Pod → Option String
  unfolding first_v6
  host_ip_of addr_type pod =
      if pod.host_ip == ""
      then none
      else if addr_type == "ipv6" && not (is_ipv6 pod.host_ip)
      then first_v6 pod.host_ips
      else some pod.host_ip

  local_loop : String → List String → List Pod → List String → List String
  unfolding host_ip_of node_listed
  local_loop addr_type node_match_list [] found = found
  local_loop addr_type node_match_list (p ∷ ps) found =
      local_loop addr_type node_match_list ps (elim (host_ip_of addr_type p) [
        | none ↦ found
        | some ip ↦
            if node_listed ip node_match_list && not (elem ip found)
            then found ++ ip ∷ []
            else found
      ])

  -- GetServiceLocalEndpoints
  unfoldable pub get_service_local_endpoints :
      Outcome (List Pod) → String → List String → Outcome (List String)
  unfolding local_loop
  get_service_local_endpoints pods addr_type node_match_list = do
    ps ← pods
    let found = local_loop addr_type node_match_list ps []
    if is_empty found then err "no active endpoints" else ok found

  abbrev pub add_new : String → List String → List String
  add_new a set = if elem a set then set else set ++ a ∷ []

  -- tk.IsNetIPv6 or tk.IsNetIPv4, by the family
  unfoldable pub in_slice_family : String → String → Bool
  in_slice_family addr_type addr = if addr_type == "ipv6" then is_ipv6 addr else is_ipv4 addr

  addresses_loop : String → List String → List String → List String
  unfolding in_slice_family
  addresses_loop addr_type [] set = set
  addresses_loop addr_type (a ∷ as') set =
      addresses_loop addr_type as' (if in_slice_family addr_type a then add_new a set else set)

  abbrev pub is_ready : SliceEndpoint → Bool
  is_ready e = elim e.ready [ none ↦ true | some r ↦ r ]

  endpoints_loop : String → List SliceEndpoint → List String → List String
  unfolding addresses_loop
  endpoints_loop addr_type [] set = set
  endpoints_loop addr_type (e ∷ es) set =
      endpoints_loop addr_type es
        (if is_ready e then addresses_loop addr_type e.addresses set else set)

  slices_loop : String → List EndpointSlice → List String → List String
  unfolding endpoints_loop
  slices_loop addr_type [] set = set
  slices_loop addr_type (s ∷ ss) set =
      slices_loop addr_type ss (endpoints_loop addr_type s.endpoints set)

  -- GetServiceEndPointsWithLister. The Go set is listed in an order of its own; here it is the order
  -- in which the addresses were met.
  unfoldable pub get_service_endpoints :
      Outcome (List EndpointSlice) → String → Outcome (List String)
  unfolding slices_loop
  get_service_endpoints slices addr_type = do ss ← slices; ok (slices_loop addr_type ss [])

-- GetServiceEndPointsPortsWithLister: the set of the ports of all slices.
ports_loop : List (Option ℤ) → List ℤ → List ℤ
ports_loop [] set = set
ports_loop (none ∷ ps) set = ports_loop ps set
ports_loop (some p ∷ ps) set = ports_loop ps (if elem p set then set else set ++ p ∷ [])

slice_ports_loop : List EndpointSlice → List ℤ → List ℤ
unfolding ports_loop
slice_ports_loop [] set = set
slice_ports_loop (s ∷ ss) set = slice_ports_loop ss (ports_loop s.ports set)

unfoldable pub get_service_endpoint_ports : Outcome (List EndpointSlice) → Outcome (List ℤ)
unfolding slice_ports_loop
get_service_endpoint_ports slices = do ss ← slices; ok (slice_ports_loop ss [])

named_port : String → List (String × ℤ) → Option ℤ
named_port name [] = none
named_port name ((n, p) ∷ ps) = if n == name then some p else named_port name ps

pod_port : String → List Pod → Option ℤ
unfolding named_port
pod_port name [] = none
pod_port name (p ∷ ps) = elim (named_port name p.container_ports) [
  | some n ↦ some n
  | none ↦ pod_port name ps
]

-- IntOrString.IntValue of a target port: its number, or zero where it is a name.
unfoldable pub int_value : String → ℤ
int_value s = elim (atoi s) [ none ↦ pos 0 | some n ↦ n ]

-- GetServicePortIntValue
unfoldable pub get_service_port_int_value : Outcome (List Pod) → String → String → Outcome (List ℤ)
unfolding pod_port int_value
get_service_port_int_value pods svc_name target_port =
    if not (int_value target_port == pos 0) then ok (int_value target_port ∷ []) else (do
      ps ← pods
      elim (pod_port target_port ps) [
        | some p ↦ ok (p ∷ [])
        | none ↦
            err (concat ("not found port name " ∷ target_port ∷ " in service " ∷ svc_name ∷ []))
      ])

-- What GetServicePortIntValue and the node functions need besides: the first failure of the lookup of
-- labelled nodes is that of the whole.
module _ (net : Net) (cluster : Cluster) where
  match_list : String → String → Outcome (List String)
  match_list addr_type label = if label == "" then ok [] else (do
    ns ← cluster.labelled_nodes label
    let found = get_endpoints_for_lb net ns addr_type []
    ok (if is_empty found then "xdeadbeefx" ∷ [] else found))

  -- getEndpoints
  unfoldable pub get_endpoints : Bool → Bool → Bool → Bool → String → String → Outcome (List String)
  unfolding match_list
  get_endpoints local_policy use_pod_net use_external_endpoint use_multus addr_type label =
      if use_multus then cluster.multus_endpoints addr_type else (do
        list ← match_list addr_type label
        (if use_pod_net || use_external_endpoint
            then get_service_endpoints net cluster.slices addr_type
            else if local_policy
            then get_service_local_endpoints net cluster.pods addr_type list
            else (do ns ← cluster.nodes; ok (get_endpoints_for_lb net ns addr_type list))))
