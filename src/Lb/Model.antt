-- ===== src/Lb/Model.antt =====
-- makeLoxiLoadBalancerModel, installLB and the requests to loxilb of loadbalancer.go.
pub mod Laws
pub mod Install
use kube_loxilb.Api.Client.{LoxiClient}
use kube_loxilb.Api.LbModel.{
  EpSelect, LbEndpoint, LbModel, MtlsBackend, MtlsFrontend, ep_select_eq, op_add, op_attach,
}
use kube_loxilb.Base.{
  Bool, List, Option, String, [], bool_eq, false, if◌then◌else◌, is_empty, keep_if, leb, map,
  nat_eq, none, not, some, string_eq, true, ℕ, ◌&&◌, ◌++◌, ◌+◌, ◌==◌, ◌||◌, ◌∷◌,
}
use kube_loxilb.Base.Int.{int_eq, negsuc, pos, to_i32, to_u16, to_u32, ℤ}
use kube_loxilb.Base.Outcome.{Outcome, err, ok, ◌>>=◌, ◌>>◌}
use kube_loxilb.Config.{NetworkConfig}
use kube_loxilb.K8s.{Cluster, get_service_endpoint_ports, get_service_port_int_value}
use kube_loxilb.Lb.Types.{Manager, Rest, Sent, Service, ServicePort, Verb, post}
use kube_loxilb.Net.{Net}
use kube_loxilb.Text.{concat, contains_text, to_lower}

-- LbArgs
pub record LbArgs : Type 0 where
  pub external_ip : String
  pub private_ip : String
  pub liveness_check : Bool
  pub lb_mode : ℤ
  pub timeout : ℤ
  pub sel : EpSelect
  pub probe_type : String
  pub probe_port : ℕ
  pub probe_req : String
  pub probe_resp : String
  pub probe_timeo : ℕ
  pub probe_retries : ℤ
  pub sec_ips : List String
  pub endpoint_ips : List String
  pub need_multus_ep : Bool
  pub use_pod_network : Bool
  pub use_external_endpoint : Bool
  pub inst : String
  pub ppv2_en : Bool
  pub egress : Bool
  pub mtls_frontend : Option MtlsFrontend
  pub mtls_backend : Option MtlsBackend

-- The target ports of one endpoint; they are asked for anew for each endpoint, with the same answer.
unfoldable pub target_ports : Cluster → LbArgs → Service → ServicePort → Outcome (List ℤ)
target_ports cluster args svc port =
    if args.need_multus_ep || args.use_pod_network
    then get_service_port_int_value cluster.pods svc.name port.target_port
    else if args.use_external_endpoint
    then get_service_endpoint_ports cluster.slices
    else ok (port.node_port ∷ [])

abbrev pub endpoint_at : String → ℤ → LbEndpoint
endpoint_at ip tport = record { endpoint_ip = ip; target_port = to_u16 tport; weight = 1 }

-- The endpoints of the rule: each address with each target port.
unfoldable pub make_endpoints : Outcome (List ℤ) → List String → Outcome (List LbEndpoint)
make_endpoints tports [] = ok []
make_endpoints tports (ip ∷ ips) = do
  ts ← tports
  (if is_empty ts
      then err "no endpoints to make lbmodel"
      else (do rest ← make_endpoints tports ips; ok (map (endpoint_at ip) ts ++ rest)))

-- LbMode(setLBMode), unless the service asks for a mode
abbrev pub lb_mode_svc : NetworkConfig → LbArgs → ℤ
lb_mode_svc config args = elim args.lb_mode [ pos n ↦ pos n | negsuc _ ↦ pos config.set_lb_mode ]

-- LbMode(n) is taken at a uint16 or at one of the constants of the annotation, which fit an int32.
unfoldable pub make_loxi_lb_model :
    Net → NetworkConfig → Cluster → LbArgs → Service → ServicePort → Outcome LbModel
unfolding make_endpoints target_ports to_i32
make_loxi_lb_model net config cluster args svc port = do
  eps ← make_endpoints (target_ports cluster args svc port) args.endpoint_ips
  ok (record {
    service = record {
      external_ip = args.external_ip;
      private_ip = args.private_ip;
      port = to_u16 port.port;
      protocol = to_lower port.protocol;
      sel = args.sel;
      mode = lb_mode_svc config args;
      bgp = not (config.set_bgp == 0);
      monitor = config.monitor || args.liveness_check;
      timeout = to_u32 args.timeout;
      managed = true;
      probe_type = args.probe_type;
      probe_port = args.probe_port;
      probe_req = args.probe_req;
      probe_resp = args.probe_resp;
      probe_retries = to_i32 args.probe_retries;
      probe_timeout = args.probe_timeo;
      name = concat (svc.namespace ∷ "_" ∷ svc.name ∷ ":" ∷ args.inst ∷ []);
      oper = if config.append_eps then op_attach else op_add;
      ppv2 = args.ppv2_en;
      egress = args.egress;
      mtls_frontend = args.mtls_frontend;
      mtls_backend = args.mtls_backend;
    };
    secondary_ips = args.sec_ips;
    src_ips =
        keep_if (λ cidr. elim (net.parse_cidr cidr) [ none ↦ false | some _ ↦ true ])
          svc.source_ranges;
    endpoints = eps;
  })

-- The optimisation for local preference: the endpoints on the instance's host, or all of them.
unfoldable pub prefer_local : String → Bool → LbModel → LbModel
prefer_local host pref_local lb =
    let own = keep_if (λ (ep : LbEndpoint). ep.endpoint_ip == host) lb.endpoints in
    if pref_local && not (is_empty own) then record lb { endpoints = own } else lb

-- The last error and the number of errors, from the answer of one instance and those of the later.
abbrev pub tally : Option String → Option String × ℕ → Option String × ℕ
tally none later = later
tally (some t) (none, n) = (some t, n + 1)
tally (some t) (some l, n) = (some l, n + 1)

-- The rule is refused when every instance refuses it.
unfoldable pub refused : ℕ → Option String × ℕ → Option String
refused clients (none, n) = none
refused clients (some t, n) = if leb clients n then some t else none

module _ (rest : Rest) {S : Type 0} where
  -- One request: it is recorded, and its answer is an error or none.
  unfoldable pub send : Verb → String → LbModel → Manager S → Option String × Manager S
  send verb host model m =
      let s : Sent = record { verb = verb; host = host; model = model } in
      (rest.answer m.sent s, record m { sent = s ∷ m.sent })

  -- installLB: an error that says that the rule exists is none.
  unfoldable pub install_lb : LoxiClient → LbModel → Bool → Manager S → Option String × Manager S
  unfolding send prefer_local
  install_lb c lb pref_local m =
      let (e, m') = send post c.host (prefer_local c.host pref_local lb) m in
      (elim e [ none ↦ none | some t ↦ if contains_text t "exist" then none else some t ], m')

  -- The requests to all instances, with the last error and the number of errors.
  unfoldable pub install_all :
      List LoxiClient → LbModel → Bool → Manager S → (Option String × ℕ) × Manager S
  unfolding install_lb
  install_all [] lb pref_local m = ((none, 0), m)
  install_all (c ∷ cs) lb pref_local m =
      let (e, m₁) = install_lb c lb pref_local m in
      let (later, m₂) = install_all cs lb pref_local m₁ in (tally e later, m₂)
