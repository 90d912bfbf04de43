-- ===== src/Lb/LifeCycle.antt =====
-- The parts of the life cycle of instances in loadbalancer.go that decide: updateAllLoxiLBServiceStatus,
-- checkHandleBGPCfgErrors, and the models that are sent to an instance when it comes up.
pub mod Examples
use kube_loxilb.Api.Client.{LoxiClient}
use kube_loxilb.Api.LbModel.{ep_select_eq}
use kube_loxilb.Base.{
  Bool, List, String, [], bool_eq, false, if◌then◌else◌, map, nat_eq, none, not, some, string_eq,
  true, ℕ, ◌&&◌, ◌++◌, ◌==◌, ◌||◌, ◌∷◌,
}
use kube_loxilb.Base.Assoc.{Assoc, lookup}
use kube_loxilb.Base.Int.{int_eq, pos, ℤ}
use kube_loxilb.Base.Outcome.{Outcome, ok, ◌>>=◌, ◌>>◌}
use kube_loxilb.Common.{gen_ext_ip_name}
use kube_loxilb.Config.{NetworkConfig}
use kube_loxilb.Lb.Pairs.{service_has_zero_cidr_pool}
use kube_loxilb.Lb.Roles.Election.{is_master}
use kube_loxilb.Lb.Types.{Ingress, Service}
use kube_loxilb.Net.{IpAddr, Net}
use kube_loxilb.Text.{contains_text}

-- An update of the status of a service.
pub record StatusWrite : Type 0 where
  pub namespace : String
  pub name : String
  pub ingress : List Ingress

abbrev pub of_class : NetworkConfig → Service → Bool
of_class config svc = elim svc.load_balancer_class [
  | none ↦ false
  | some c ↦ c == config.load_balancer_class
]

-- Every name is published as an address, also one that is none.
abbrev pub address_ingress : String → Ingress
address_ingress ip = record { ip = ip; hostname = "" }

-- The services of one namespace.
unfoldable pub status_of_services :
    Net → NetworkConfig → Assoc IpAddr → List Service → List StatusWrite
unfolding service_has_zero_cidr_pool gen_ext_ip_name
status_of_services net config insts [] = []
status_of_services net config insts (svc ∷ svcs) =
    let rest = status_of_services net config insts svcs in
    if of_class config svc && service_has_zero_cidr_pool net config svc
    then record {
      namespace = svc.namespace;
      name = svc.name;
      ingress = map address_ingress (gen_ext_ip_name net config.zone insts "0.0.0.0");
    }
      ∷ rest
    else rest

-- updateAllLoxiLBServiceStatus, from what the API server lists: a namespace whose services cannot be
-- listed is skipped, and a failed write is logged only.
unfoldable pub status_of_namespaces :
    Net
    → NetworkConfig
    → Assoc IpAddr
    → (String → Outcome (List Service))
    → List String
    → List StatusWrite
unfolding status_of_services
status_of_namespaces net config insts services [] = []
status_of_namespaces net config insts services (ns ∷ nss) =
    let rest = status_of_namespaces net config insts services nss in
    elim (services ns) [ ok svcs ↦ status_of_services net config insts svcs ++ rest | _ ↦ rest ]

unfoldable pub update_all_loxilb_service_status :
    Net
    → NetworkConfig
    → Assoc IpAddr
    → Outcome (List String)
    → (String → Outcome (List Service))
    → Outcome (List StatusWrite)
unfolding status_of_namespaces
update_all_loxilb_service_status net config insts namespaces services = do
  nss ← namespaces
  ok (status_of_namespaces net config insts services nss)

-- api.CIStatusModel
pub record CiStatusModel : Type 0 where
  pub instance_name : String
  pub state : String
  pub vip : String

-- makeLoxiLBCIStatusModel
unfoldable pub make_loxilb_ci_status_model : String → String → LoxiClient → CiStatusModel
make_loxilb_ci_status_model inst vip client = record {
  instance_name = inst;
  state = elim (lookup inst client.inst_roles) [
    | none ↦ "BACKUP"
    | some is_master ↦ if is_master then "MASTER" else "BACKUP"
  ];
  vip = if vip == "" then "0.0.0.0" else vip;
}

-- api.BGPGlobalConfig
pub record BgpGlobalConfig : Type 0 where
  pub local_as : ℤ
  pub router_id : String
  pub set_nh_self : Bool
  pub listen_port : ℕ

-- The standard port of BGP for a port that is not given.
abbrev pub bgp_port : ℕ → ℕ
bgp_port port = if port == 0 then 179 else port

-- makeLoxiLBBGPGlobalModel
unfoldable pub make_loxilb_bgp_global_model : ℤ → String → Bool → ℕ → BgpGlobalConfig
make_loxilb_bgp_global_model local_as self_id set_nh_self port = record {
  local_as = local_as;
  router_id = self_id;
  set_nh_self = set_nh_self;
  listen_port = bgp_port port;
}

-- api.BGPNeigh
pub record BgpNeighModel : Type 0 where
  pub ip_address : String
  pub remote_as : ℤ
  pub remote_port : ℤ
  pub set_multi_hop : Bool

-- makeLoxiLBBGNeighModel
unfoldable pub make_loxilb_bgp_neigh_model : ℤ → String → ℕ → Bool → BgpNeighModel
make_loxilb_bgp_neigh_model remote_as ip port multi_hop = record {
  ip_address = ip;
  remote_as = remote_as;
  remote_port = pos (bgp_port port);
  set_multi_hop = multi_hop;
}

-- checkHandleBGPCfgErrors: whether the instance goes to the channel of live ones again, and its flag.
unfoldable pub check_handle_bgp_cfg_errors : LoxiClient → String → Bool × LoxiClient
check_handle_bgp_cfg_errors client text =
    if (contains_text text "connection refused" || contains_text text "deadline")
      && not client.do_bgp_cfg
    then (true, record client { do_bgp_cfg = true })
    else (false, client)
