-- ===== src/Lb/Desired.antt =====
-- addLoadBalancer of loadbalancer.go up to the cache: whether the service is this agent's, and the
-- settings that it asks for.
use kube_loxilb.Api.LbModel.{EpSelect, MtlsBackend, MtlsFrontend, ep_select_eq}
use kube_loxilb.Base.{
  Bool, List, Option, String, [], bool_eq, false, if◌then◌else◌, is_empty, length, nat_eq, none,
  not, some, string_eq, true, ℕ, ◌&&◌, ◌==◌, ◌||◌, ◌∷◌,
}
use kube_loxilb.Base.Assoc.{Assoc, lookup}
use kube_loxilb.Base.Int.{int_eq, ℤ}
use kube_loxilb.Base.Outcome.{Outcome, err, ok, ◌>>=◌, ◌>>◌}
use kube_loxilb.Config.{NetworkConfig}
use kube_loxilb.Lb.Annotations.{
  addr_type_of, ep_addr_type_of, ep_select_of, lb_mode_of, probe_port_of, probe_retries_of,
  probe_text_of, probe_timeout_of, probe_type_of, sec_ips_of, select_pool, select_sec_pools,
  timeout_of, yes_no,
}
use kube_loxilb.Lb.Mtls.{Secrets, get_mtls_backend_config, get_mtls_frontend_config}
use kube_loxilb.Lb.Types.{Manager, Service, annotation}
use kube_loxilb.Net.{Net}
use kube_loxilb.Text.{concat, split}

-- The local variables of addLoadBalancer that the annotations set.
pub record Desired : Type 0 where
  pub need_multus_ep : Bool
  pub addr_type : String
  pub ep_addr_type : String
  pub ip_pool : ℕ
  pub sip_pools : List ℕ
  pub has_shared_pool : Bool
  pub num_secondary : ℕ
  pub sec_ips : List String
  pub use_pod_net : Bool
  pub use_external_endpoint : Bool
  pub en_proxy_protov2 : Bool
  pub is_egress : Bool
  pub mtls_frontend : Option MtlsFrontend
  pub mtls_backend : Option MtlsBackend
  pub override_zone_inst : String
  pub match_node_label : String
  pub pref_local : Bool
  pub timeout : ℤ
  pub lb_mode : ℤ
  pub liveness_check : Bool
  pub probe_type : String
  pub probe_port : ℤ
  pub probe_req : String
  pub probe_resp : String
  pub probe_timeout : ℕ
  pub probe_retries : ℤ
  pub ep_select : EpSelect

unfoldable pub needs_multus : Service → Bool
needs_multus svc = elim (lookup "loxilb.io/multus-nets" svc.annotations) [
  | none ↦ false
  | some _ ↦ true
]

-- The service names this agent's load-balancer class, or asks for Multus networks.
unfoldable pub class_matches : NetworkConfig → Service → Bool
unfolding needs_multus
class_matches config svc =
    elim svc.load_balancer_class [ none ↦ false | some c ↦ c == config.load_balancer_class ]
    || needs_multus svc

unfoldable pub zone_matches : NetworkConfig → Service → Bool
zone_matches config svc =
    let zone = annotation svc "loxilb.io/zoneselect" in zone == "" || config.zone == zone

-- The checks on secondary addresses.
unfoldable pub check_secondary : String → List ℕ → List String → Outcome (Unit {0})
check_secondary addr_type sip_pools sec_ips =
    if not (addr_type == "ipv4") && not (is_empty sip_pools)
    then err (concat ("SecondaryIP Svc not possible for " ∷ addr_type ∷ []))
    else if not (is_empty sec_ips) && not (is_empty sip_pools)
    then err "SecondaryIP is specified"
    else ok tt

unfoldable pub check_zone_inst : Assoc ℕ → String → Outcome (Unit {0})
check_zone_inst roles zni =
    if zni == ""
    then ok tt
    else elim (lookup zni roles) [ none ↦ err "zone-instance not found" | some _ ↦ ok tt ]

module _ {S : Type 0} (net : Net) (secrets : Secrets) (config : NetworkConfig) where
  -- From the address type on; the errors come in the order of the source.
  unfoldable pub read_desired : Manager S → Service → Outcome Desired
  unfolding check_secondary check_zone_inst
  read_desired m svc = do
    let addr_type = addr_type_of (annotation svc "loxilb.io/ipam")
    let probe_type = probe_type_of (annotation svc "loxilb.io/probetype")
    let spn = annotation svc "loxilb.io/poolSelectSecondary"
    let sec_ips = sec_ips_of net (annotation svc "loxilb.io/secondaryIPs")
    (ip_pool, shared) ← select_pool m addr_type (annotation svc "loxilb.io/poolSelect")
    (sip_pools, sec_shared) ← select_sec_pools m addr_type spn
    check_secondary addr_type sip_pools sec_ips
    frontend ← get_mtls_frontend_config secrets svc
    backend ← get_mtls_backend_config secrets svc
    check_zone_inst m.zone_inst_role_map (annotation svc "loxilb.io/zoneinstance")
    ok (record {
      need_multus_ep = needs_multus svc;
      addr_type = addr_type;
      ep_addr_type = ep_addr_type_of addr_type;
      ip_pool = ip_pool;
      sip_pools = sip_pools;
      has_shared_pool = shared || sec_shared;
      num_secondary = if spn == "" then 0 else length (split 44 spn);
      sec_ips = sec_ips;
      use_pod_net = yes_no (annotation svc "loxilb.io/usepodnetwork") config.use_pod_network;
      use_external_endpoint =
          yes_no (annotation svc "loxilb.io/useExternalEndpoint") config.use_external_endpoint;
      en_proxy_protov2 = yes_no (annotation svc "loxilb.io/useproxyprotov2") false;
      is_egress = yes_no (annotation svc "loxilb.io/egress") false;
      mtls_frontend = frontend;
      mtls_backend = backend;
      override_zone_inst = annotation svc "loxilb.io/zoneinstance";
      match_node_label = annotation svc "loxilb.io/nodelabel";
      pref_local = annotation svc "loxilb.io/prefLocalPod" == "yes";
      timeout = timeout_of (annotation svc "loxilb.io/timeout");
      lb_mode = lb_mode_of (annotation svc "loxilb.io/lbmode");
      liveness_check = annotation svc "loxilb.io/liveness" == "yes";
      probe_type = probe_type;
      probe_port = probe_port_of (annotation svc "loxilb.io/probeport") probe_type;
      probe_req = probe_text_of (annotation svc "loxilb.io/probereq") probe_type;
      probe_resp = probe_text_of (annotation svc "loxilb.io/proberesp") probe_type;
      probe_timeout = probe_timeout_of (annotation svc "loxilb.io/probetimeout");
      probe_retries = probe_retries_of (annotation svc "loxilb.io/proberetries");
      ep_select = ep_select_of (annotation svc "loxilb.io/epselect");
    })

  -- `none` where addLoadBalancer returns without an error because the service is not the agent's.
  unfoldable pub admit_service : Manager S → Service → Outcome (Option Desired)
  unfolding zone_matches class_matches
  admit_service m svc =
      if not (zone_matches config svc)
      then ok none
      else if is_empty m.clients
      then err "service cannot be added because there are no loxilb instances"
      else if not (class_matches config svc)
      then ok none
      else (do d ← read_desired m svc; ok (some d))
