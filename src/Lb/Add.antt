-- ===== src/Lb/Add.antt =====
-- addLoadBalancer, syncLoadBalancer and the status of updateService in loadbalancer.go: the steps of the
-- other modules put together.
pub mod Secondary
pub mod Install
pub mod Sync
pub mod Wellformed
pub mod Invariant
pub mod EntryInvariant
pub mod SyncInvariant
pub mod PoolLaws
pub mod Failure
pub mod Examples
use kube_loxilb.Api.LbModel.{LbModel, ep_select_eq}
use kube_loxilb.Base.{
  Bool, List, Option, String, [], bool_eq, if◌then◌else◌, map, nat_eq, none, some, string_eq, suc,
  zero, ℕ, ◌&&◌, ◌+◌, ◌==◌, ◌∷◌,
}
use kube_loxilb.Base.Assoc.{Assoc, insert}
use kube_loxilb.Base.Int.{int_eq, pos, to_u16}
use kube_loxilb.Config.{NetworkConfig}
use kube_loxilb.Lb.Desired.{Desired}
use kube_loxilb.Lb.Model.{LbArgs}
use kube_loxilb.Lb.Types.{Ingress, LbCacheEntry, LbServicePairEntry, Manager, SvcPair, gen_sp_key}
use kube_loxilb.Lb.Updates.{updated_ingress}
use kube_loxilb.Net.{IpAddr, Net}
use kube_loxilb.Text.{concat}

-- A cache entry written back to its key.
abbrev pub put : {S : Type 0} → String → LbCacheEntry → Manager S → Manager S
put key e m = record m { lb_cache = insert key e m.lb_cache }

-- removeAllCacheEndpoints
abbrev pub without_endpoints : LbModel → LbModel
without_endpoints lb = record lb { endpoints = [] }

unfoldable pub remove_endpoints : Assoc LbServicePairEntry → Assoc LbServicePairEntry
remove_endpoints [] = []
remove_endpoints ((k, sp) ∷ sps) =
    (k, record sp { lb_model_list = map without_endpoints sp.lb_model_list }) ∷ remove_endpoints sps

-- The flags of a pair, taken from the cached pair with its address, port and protocol.
abbrev adopt_from : LbServicePairEntry → SvcPair → SvcPair
adopt_from sp s =
    if s.ip_string == sp.external_ip && (s.port == pos sp.port && s.protocol == sp.protocol)
    then record s { in_range = sp.in_range; static_ip = sp.static_ip; ident_ipam = sp.ident_ipam }
    else s

unfoldable pub adopt : Assoc LbServicePairEntry → SvcPair → SvcPair
adopt [] s = s
adopt ((k, sp) ∷ sps) s = adopt sps (adopt_from sp s)

-- LbArgs of one pair
unfoldable pub lb_args : Desired → LbCacheEntry → List String → String → SvcPair → LbArgs
lb_args d e ips private s = record {
  external_ip = s.ip_string;
  private_ip = private;
  liveness_check = e.act_check;
  lb_mode = e.lb_mode;
  timeout = e.timeout;
  sel = e.ep_select;
  probe_type = e.probe_type;
  probe_port = e.probe_port;
  probe_req = e.probe_req;
  probe_resp = e.probe_resp;
  probe_timeo = e.probe_timeo;
  probe_retries = e.probe_retries;
  sec_ips = e.sec_ips;
  endpoint_ips = ips;
  need_multus_ep = d.need_multus_ep;
  use_pod_network = d.use_pod_net;
  use_external_endpoint = d.use_external_endpoint;
  inst = e.inst;
  ppv2_en = e.ppv2_en;
  egress = e.egress;
  mtls_frontend = d.mtls_frontend;
  mtls_backend = d.mtls_backend;
}

-- The cached pair of an installed rule.
unfoldable pub installed_pair : SvcPair → LbModel → LbServicePairEntry
unfolding to_u16
installed_pair s lb = record {
  external_ip = s.ip_string;
  port = to_u16 s.port;
  protocol = s.protocol;
  static_ip = s.static_ip;
  in_range = s.in_range;
  ident_ipam = s.ident_ipam;
  lb_model_list = lb ∷ [];
}

abbrev pub pair_key : LbServicePairEntry → String
unfolding gen_sp_key
pair_key sp = gen_sp_key sp.external_ip sp.port sp.protocol

unfoldable pub add_pair : LbServicePairEntry → LbCacheEntry → LbCacheEntry
unfolding pair_key
add_pair sp e = record e { lb_service_pairs = insert (pair_key sp) sp e.lb_service_pairs }

-- errors.Wrap
unfoldable pub wrap : String → String → String
unfolding concat
wrap e text = concat (text ∷ ": " ∷ e ∷ [])

-- The calls of the Kubernetes API for the status, by the number of the attempt: the status that Get
-- reads, if it reads one, and whether UpdateStatus answers with a conflict.
pub record StatusApi : Type 0 where
  pub read_ingress : ℕ → Option (List Ingress)
  pub conflict : ℕ → Bool

-- The loop around updateService with the attempts left: the statuses that it writes.
unfoldable pub status_writes :
    Net → NetworkConfig → StatusApi → Assoc IpAddr → List SvcPair → ℕ → ℕ → List (List Ingress)
unfolding updated_ingress
status_writes net config api insts pairs zero attempt = []
status_writes net config api insts pairs (suc n) attempt =
    let later = status_writes net config api insts pairs n (attempt + 1) in
    elim (api.read_ingress attempt) [
      | none ↦ []
      | some ing ↦
          updated_ingress net config insts ing pairs ∷ (if api.conflict attempt then later else [])
    ]
