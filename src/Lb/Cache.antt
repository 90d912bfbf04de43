-- ===== src/Lb/Cache.antt =====
-- The cache of loadbalancer.go: the entry of a new service, and what a changed service updates.
pub mod Update
pub mod Laws
pub mod Flags
pub mod Blocks
use kube_loxilb.Api.Client.{gen_zone_inst_name}
use kube_loxilb.Api.LbModel.{ep_select_eq}
use kube_loxilb.Base.{
  Bool, String, [], any_of, bool_eq, false, if◌then◌else◌, is_empty, nat_eq, not, string_eq, ℕ, ◌%◌,
  ◌==◌, ◌||◌,
}
use kube_loxilb.Base.Int.{int_eq, pos, to_u16}
use kube_loxilb.Config.{NetworkConfig}
use kube_loxilb.Lb.Desired.{Desired}
use kube_loxilb.Lb.Types.{LbCacheEntry, LbServicePairEntry}

-- zoneInstName of a new entry
unfoldable pub zone_inst_of : NetworkConfig → ℕ → Desired → String
unfolding gen_zone_inst_name
zone_inst_of config hint d =
    if not (d.override_zone_inst == "")
    then d.override_zone_inst
    else if d.has_shared_pool
    then gen_zone_inst_name config.zone 0
    else gen_zone_inst_name config.zone (hint % config.num_zone_inst)

-- The entry of a new service. It leaves egress at false, and holds no secondary address yet.
unfoldable pub new_entry : Desired → String → LbCacheEntry
unfolding to_u16
new_entry d inst = record {
  lb_mode = d.lb_mode;
  timeout = d.timeout;
  act_check = d.liveness_check;
  pref_local = d.pref_local;
  ppv2_en = d.en_proxy_protov2;
  egress = false;
  inst = inst;
  addr = d.addr_type;
  state = "Added";
  node_label = d.match_node_label;
  probe_type = d.probe_type;
  probe_port = to_u16 d.probe_port;
  probe_req = d.probe_req;
  probe_resp = d.probe_resp;
  probe_timeo = d.probe_timeout;
  probe_retries = d.probe_retries;
  ep_select = d.ep_select;
  ip_pool = d.ip_pool;
  sip_pools = d.sip_pools;
  sec_ips = [];
  lb_service_pairs = [];
}

-- A service pair without rules.
abbrev pub lacks_rules : String × LbServicePairEntry → Bool
lacks_rules p = is_empty p.1.lb_model_list

-- The first test for an update: no pair yet, or one without rules.
unfoldable pub pairs_missing : LbCacheEntry → Bool
pairs_missing e = is_empty e.lb_service_pairs || any_of lacks_rules e.lb_service_pairs

-- Some setting of the entry differs from what the service asks for. The probe port is compared as an
-- int with the 16 bits that the entry holds.
unfoldable pub settings_differ : Desired → LbCacheEntry → Bool
settings_differ d e =
    not (d.addr_type == e.addr)
    || (not (d.match_node_label == e.node_label)
        || (not (d.timeout == e.timeout)
            || (not (d.liveness_check == e.act_check)
                || (not (d.lb_mode == e.lb_mode)
                    || (not (d.probe_type == e.probe_type)
                        || (not (d.probe_port == pos e.probe_port)
                            || (not (d.probe_req == e.probe_req)
                                || (not (d.probe_resp == e.probe_resp)
                                    || (not (d.probe_timeout == e.probe_timeo)
                                        || (not (d.probe_retries == e.probe_retries)
                                            || (not (d.ep_select == e.ep_select)
                                                || (not (d.en_proxy_protov2 == e.ppv2_en)
                                                    || not (d.is_egress == e.egress)))))))))))))

-- The settings of the service in the entry, as the updates together leave it: one that does not differ
-- has the value already.
unfoldable pub apply_settings : Desired → LbCacheEntry → LbCacheEntry
apply_settings d e = record e {
  addr = d.addr_type;
  node_label = d.match_node_label;
  timeout = d.timeout;
  act_check = d.liveness_check;
  lb_mode = d.lb_mode;
  probe_type = d.probe_type;
  probe_port = if d.probe_port == pos e.probe_port then e.probe_port else to_u16 d.probe_port;
  probe_req = d.probe_req;
  probe_resp = d.probe_resp;
  probe_timeo = d.probe_timeout;
  probe_retries = d.probe_retries;
  ep_select = d.ep_select;
  ppv2_en = d.en_proxy_protov2;
  egress = d.is_egress;
}
