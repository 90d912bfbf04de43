-- ===== src/Lb/Discovery.antt =====
-- DiscoverLoxiLBServices and DiscoverLoxiLBPeerServices of loadbalancer.go: the clients follow the
-- addresses of the instances. The peers are a second list of clients.
pub mod Marks
pub mod Laws
pub mod Examples
use kube_loxilb.Api.Client.{LoxiClient, new_loxi_client}
use kube_loxilb.Api.LbModel.{ep_select_eq}
use kube_loxilb.Base.{
  Bool, List, Option, String, [], any_of, bool_eq, elem, false, if◌then◌else◌, is_empty, keep_if,
  map, nat_eq, none, not, some, string_eq, true, ℕ, ◌&&◌, ◌++◌, ◌==◌, ◌∷◌,
}
use kube_loxilb.Base.Int.{int_eq}
use kube_loxilb.Base.Outcome.{Outcome, ok}
use kube_loxilb.Config.{NetworkConfig}
use kube_loxilb.K8s.{EndpointSlice, Node}
use kube_loxilb.K8s.Discover.{get_loxilb_service_endpoints, get_node_endpoints_with_label_with_key}
use kube_loxilb.Net.{Net}
use kube_loxilb.Text.{concat}

abbrev pub instance_url : String → String
unfolding concat
instance_url ip = concat ("http://" ∷ ip ∷ ":11111" ∷ [])

abbrev pub at_host : String → LoxiClient → Bool
at_host ip c = c.host == ip

-- A client is to go if its host is none of the addresses.
unfoldable pub mark_purge : List String → LoxiClient → LoxiClient
mark_purge ips c = record c { purge = not (elem c.host ips) }

-- The result of a discovery: the clients that stay, and those that go to the purge channel.
abbrev pub Discovered : Type 0
Discovered = List LoxiClient × List LoxiClient

-- `host_port` finds the host and the port of a URL, as url.Parse and net.SplitHostPort do.
module _ (host_port : String → Option (String × String)) (config : NetworkConfig) (now : ℕ) where
  -- The clients for the addresses at which there is none; one that cannot be made is left out.
  unfoldable pub missing_clients :
      Bool → (String → Bool) → List LoxiClient → List String → List LoxiClient
  unfolding new_loxi_client
  missing_clients peer no_role cs [] = []
  missing_clients peer no_role cs (ip ∷ ips) =
      let rest = missing_clients peer no_role cs ips in
      if any_of (at_host ip) cs
      then rest
      else elim (new_loxi_client (host_port (instance_url ip)) now (instance_url ip) peer
          (no_role ip) "" config.zone config.num_zone_inst) [ none ↦ rest | some c ↦ c ∷ rest ]

  unfoldable pub discover : Bool → (String → Bool) → List String → List LoxiClient → Discovered
  unfolding mark_purge missing_clients
  discover peer no_role ips cs =
      let all = map (mark_purge ips) cs ++ missing_clients peer no_role cs ips in
      (keep_if (λ (c : LoxiClient). not c.purge) all, keep_if (λ (c : LoxiClient). c.purge) all)

  abbrev pub or_none : Outcome (List String) → List String
  or_none (ok ips) = ips
  or_none _ = []

  -- The nodes of the zone; a zone without nodes has a node that none has.
  unfoldable pub zone_nodes : Net → Outcome (List Node) → List String
  unfolding get_node_endpoints_with_label_with_key
  zone_nodes net nodes =
      if not (config.zone == "") && not (config.zone == "llb")
      then (let own = or_none (get_node_endpoints_with_label_with_key net nodes) in
          if is_empty own then "xdeadbeefx" ∷ [] else own)
      else []

  -- DiscoverLoxiLBServices: an error of the lister counts as no instances.
  unfoldable pub discover_loxilb_services :
      Net
      → Outcome (List Node)
      → Outcome (List EndpointSlice)
      → List String
      → List LoxiClient
      → Discovered
  unfolding discover zone_nodes get_loxilb_service_endpoints
  discover_loxilb_services net nodes slices exclude cs =
      discover false (λ ip. elem ip exclude)
        (or_none (get_loxilb_service_endpoints net slices (zone_nodes net nodes))) cs

  -- DiscoverLoxiLBPeerServices
  unfoldable pub discover_loxilb_peer_services :
      Net → Outcome (List EndpointSlice) → List LoxiClient → Discovered
  unfolding discover get_loxilb_service_endpoints
  discover_loxilb_peer_services net slices cs =
      discover true (λ ip. true) (or_none (get_loxilb_service_endpoints net slices [])) cs
