-- ===== src/K8s/Discover.antt =====
-- GetLoxilbServiceEndPointsWithLister of pkg/k8s/servicePort.go: the addresses of the loxilb instances.
use kube_loxilb.Base.{List, String, [], if◌then◌else◌, none, some, ◌∷◌}
use kube_loxilb.Base.Outcome.{Outcome, ok, ◌>>=◌}
use kube_loxilb.K8s.{EndpointSlice, Node, SliceEndpoint, add_new, get_node_address, is_ready}
use kube_loxilb.Net.{Net}

module _ (net : Net) where
  canonical_loop : List String → List String → List String
  canonical_loop [] acc = acc
  canonical_loop (a ∷ as') acc =
      canonical_loop as'
        (elim (net.parse_ip a) [ none ↦ acc | some ip ↦ add_new net (net.ip_string ip) acc ])

  instances_loop : List SliceEndpoint → List String → List String
  unfolding canonical_loop
  instances_loop [] acc = acc
  instances_loop (e ∷ es) acc =
      instances_loop es (if is_ready net e then canonical_loop e.addresses acc else acc)

  instance_slices_loop : List EndpointSlice → List String → List String
  unfolding instances_loop
  instance_slices_loop [] acc = acc
  instance_slices_loop (s ∷ ss) acc = instance_slices_loop ss (instances_loop s.endpoints acc)

  -- GetLoxilbServiceEndPointsWithLister: the node list is not used. The Go set is listed in an order of
  -- its own; here it is the order in which the addresses were met.
  unfoldable pub get_loxilb_service_endpoints :
      Outcome (List EndpointSlice) → List String → Outcome (List String)
  unfolding instance_slices_loop
  get_loxilb_service_endpoints slices node_match_list = do
    ss ← slices
    ok (instance_slices_loop ss [])

  usable_nodes : List Node → List String
  unfolding get_node_address
  usable_nodes [] = []
  usable_nodes (n ∷ ns) =
      let rest = usable_nodes ns in
      elim (get_node_address net n "ipv4") [ ok a ↦ a ∷ rest | _ ↦ rest ]

  -- getNodeEndpointsWithLabelWithKey for the addresses of family ipv4, from the nodes with the label.
  unfoldable pub get_node_endpoints_with_label_with_key :
      Outcome (List Node) → Outcome (List String)
  unfolding usable_nodes
  get_node_endpoints_with_label_with_key nodes = do ns ← nodes; ok (usable_nodes ns)
