-- ===== src/Lb/Fixture.antt =====
-- A small service, its settings and a manager, for the examples of the load balancer.
use kube_loxilb.Api.Client.{LoxiClient}
use kube_loxilb.Api.LbModel.{LbModel, ep_select_eq, op_add, sel_rr}
use kube_loxilb.Base.{
  Bool, String, [], bool_eq, false, if◌then◌else◌, nat_eq, none, some, string_eq, true, ◌==◌, ◌∷◌,
}
use kube_loxilb.Base.Int.{int_eq, negsuc, pos, ℤ}
use kube_loxilb.Base.Outcome.{ok}
use kube_loxilb.Config.{NetworkConfig}
use kube_loxilb.Fixture.{Taken, v4}
use kube_loxilb.IpPool.{IpPool}
use kube_loxilb.K8s.{Cluster}
use kube_loxilb.Lb.Cache.{new_entry}
use kube_loxilb.Lb.Desired.{Desired}
use kube_loxilb.Lb.Model.{LbArgs}
use kube_loxilb.Lb.Types.{LbCacheEntry, Manager, Rest, Service, ServicePort, SvcPair}

abbrev pub config : NetworkConfig
config = record {
  loxilb_urls = [];
  load_balancer_class = "loxilb.io/loxilb";
  external_cidr_pool_defs = [];
  set_bgp = 0;
  listen_bgp_port = 179;
  set_lb_mode = 0;
  monitor = false;
  append_eps = false;
  set_roles = "";
  zone = "llb";
  private_cidr = "";
  excl_ipam = false;
  num_zone_inst = 1;
  use_pod_network = false;
  use_external_endpoint = false;
}

abbrev pub client : String → LoxiClient
client host = record {
  url = "";
  host = host;
  port = "11111";
  name = host;
  is_alive = true;
  peering_only = false;
  no_role = false;
  do_bgp_cfg = false;
  purge = false;
  dead_sig_ts = 0;
  inst_roles = [];
}

abbrev pub web_port : ServicePort
web_port = record { port = pos 80; protocol = "TCP"; node_port = pos 30080; target_port = "8080" }

abbrev pub tls_port : ServicePort
tls_port = record { port = pos 443; protocol = "TCP"; node_port = pos 30443; target_port = "8443" }

abbrev pub web : Service
web = record {
  namespace = "default";
  name = "web";
  annotations = [];
  load_balancer_class = some "loxilb.io/loxilb";
  ports = web_port ∷ tls_port ∷ [];
  external_ips = [];
  source_ranges = [];
  local_policy = false;
  ingress = [];
}

abbrev pub desired : ℤ → Bool → Desired
desired probe_port egress = record {
  need_multus_ep = false;
  addr_type = "ipv4";
  ep_addr_type = "ipv4";
  ip_pool = 0;
  sip_pools = [];
  has_shared_pool = false;
  num_secondary = 0;
  sec_ips = [];
  use_pod_net = false;
  use_external_endpoint = false;
  en_proxy_protov2 = false;
  is_egress = egress;
  mtls_frontend = none;
  mtls_backend = none;
  override_zone_inst = "";
  match_node_label = "";
  pref_local = false;
  timeout = pos 1800;
  lb_mode = negsuc 0;
  liveness_check = true;
  probe_type = "tcp";
  probe_port = probe_port;
  probe_req = "";
  probe_resp = "";
  probe_timeout = 0;
  probe_retries = pos 0;
  ep_select = sel_rr;
}

unfoldable pub entry : LbCacheEntry
unfolding new_entry
entry = new_entry (desired (pos 8080) false) "llb-inst0"

abbrev pub args : LbArgs
args = record {
  external_ip = "10.0.0.1";
  private_ip = "";
  liveness_check = true;
  lb_mode = negsuc 0;
  timeout = pos 1800;
  sel = sel_rr;
  probe_type = "tcp";
  probe_port = 8080;
  probe_req = "";
  probe_resp = "";
  probe_timeo = 0;
  probe_retries = pos 0;
  sec_ips = [];
  endpoint_ips = "10.1.0.1" ∷ "10.1.0.2" ∷ [];
  need_multus_ep = false;
  use_pod_network = false;
  use_external_endpoint = false;
  inst = "llb-inst0";
  ppv2_en = false;
  egress = false;
  mtls_frontend = none;
  mtls_backend = none;
}

abbrev pub cluster : Cluster
cluster = record {
  nodes = ok [];
  labelled_nodes = λ _. ok [];
  pods = ok [];
  slices = ok [];
  multus_endpoints = λ _. ok [];
}

-- The rule of the service for its first port.
abbrev pub rule : LbModel
rule = record {
  service = record {
    external_ip = "10.0.0.1";
    private_ip = "";
    port = 80;
    protocol = "tcp";
    sel = sel_rr;
    mode = pos 0;
    bgp = false;
    monitor = true;
    timeout = 1800;
    managed = true;
    probe_type = "tcp";
    probe_port = 8080;
    probe_req = "";
    probe_resp = "";
    probe_retries = pos 0;
    probe_timeout = 0;
    name = "default_web:llb-inst0";
    oper = op_add;
    ppv2 = false;
    egress = false;
    mtls_frontend = none;
    mtls_backend = none;
  };
  secondary_ips = [];
  src_ips = [];
  endpoints =
      record { endpoint_ip = "10.1.0.1"; target_port = 30080; weight = 1 }
      ∷ record { endpoint_ip = "10.1.0.2"; target_port = 30080; weight = 1 }
      ∷ [];
}

-- Every request is refused.
abbrev pub refusing : Rest
refusing = record { answer = λ log s. some "connection refused" }

-- The first instance answers that the rule exists, and all others refuse.
abbrev pub knows_rule : Rest
knows_rule = record {
  answer = λ log s. if s.host == "a" then some "lbrule exists" else some "timeout";
}

abbrev pub accepting : Rest
accepting = record { answer = λ log s. none }

abbrev pub pool : Bool → IpPool Taken
pool shared = record {
  cidr = "10.0.0.0/24";
  is_range = false;
  start_ip = [];
  last_ip = [];
  net_cidr = some (record { ip = v4 10 0 0 0; ones = 24 });
  ip_alloc = [];
  shared = shared;
}

-- One service is in the cache, with one pair and its rule.
unfoldable pub manager : Manager Taken
unfolding entry
manager = record {
  lb_cache =
      (
        "default/web",
        record entry {
          lb_service_pairs =
              (
                "10.0.0.1:80:tcp",
                record {
                  external_ip = "10.0.0.1";
                  port = 80;
                  protocol = "tcp";
                  static_ip = false;
                  in_range = true;
                  ident_ipam = "";
                  lb_model_list = rule ∷ [];
                },
              )
              ∷ [];
        },
      )
      ∷ [];
  ip_pool_tbl = ("defaultPool", 0) ∷ [];
  ip6_pool_tbl = [];
  pools = pool false ∷ [];
  zone_inst_role_map = [];
  zone_inst_sel_hint = 0;
  loxi_inst_addr_map = [];
  clients = client "a" ∷ client "b" ∷ [];
  sent = [];
}

abbrev pub web_pair : SvcPair
web_pair = record {
  ip_string = "10.0.0.1";
  port = pos 80;
  protocol = "tcp";
  in_range = true;
  static_ip = false;
  ident_ipam = "";
  ip_allocd = true;
  svc_port = web_port;
}
