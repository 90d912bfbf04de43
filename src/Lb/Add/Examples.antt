-- ===== src/Lb/Add/Examples.antt =====
-- Runs of addLoadBalancer and syncLoadBalancer.
use kube_loxilb.Api.Client.{gen_zone_inst_name}
use kube_loxilb.Api.LbModel.{ep_select_eq}
use kube_loxilb.Base.{
  List, Option, String, [], arith, bool_eq, false, get_elem?, if◌then◌else◌, length, map, nat_eq,
  none, refl, some, string_eq, ◌==◌, ◌∷◌, ◌≡◌,
}
use kube_loxilb.Base.Assoc.{insert, lookup, remove}
use kube_loxilb.Base.Int.{int_eq, pos, to_u16, to_u32}
use kube_loxilb.Base.Outcome.{Outcome, err, ok}
use kube_loxilb.Common.{gen_ext_ip_name, host_address, parse_ingress_hostname}
use kube_loxilb.Fixture.{
  Taken, demo_allocate, demo_allocator, demo_ip_string, demo_is_unspecified, demo_laws, demo_net,
  demo_net_contains, demo_parse_cidr, demo_parse_ip, taken, untake, v4,
}
use kube_loxilb.IpPool.{
  IpPool, check_and_reserve_ip, contains, diff_ip_index, get_new_ip_addr, ipam_ident, range_ends,
  return_ip_addr,
}
use kube_loxilb.K8s.{
  Cluster, addr_in_family, get_endpoints, get_endpoints_for_lb, get_node_address,
  get_service_endpoint_ports, get_service_endpoints, get_service_local_endpoints,
  get_service_port_int_value, in_slice_family, int_value, node_listed,
}
use kube_loxilb.Lb.Add.{
  StatusApi, add_pair, adopt, installed_pair, lb_args, remove_endpoints, status_writes, wrap,
}
use kube_loxilb.Lb.Add.Failure.{HoldsAsBefore, add_entry_failed}
use kube_loxilb.Lb.Add.Install.{conclude, if_made, if_taken, install_pairs, install_service}
use kube_loxilb.Lb.Add.Secondary.{
  deallocate_on_failure, replace_secondary, return_allocated, return_for_pairs, return_sec_ips,
  update_secondary,
}
use kube_loxilb.Lb.Add.Sync.{
  add_entry, add_load_balancer, add_with_pairs, admitted, refresh_service, service_pairs,
  sync_load_balancer, without_service_endpoints,
}
use kube_loxilb.Lb.Add.SyncInvariant.{sync_load_balancer-CacheFits}
use kube_loxilb.Lb.Add.Wellformed.{CacheFits}
use kube_loxilb.Lb.Annotations.{
  addr_type_of, ep_addr_type_of, ep_select_of, is_v6_pool, lb_mode_of, no_probe_data, pool_shared,
  probe_port_of, probe_retries_of, probe_text_of, probe_timeout_of, probe_type_of, sec_ips_of,
  select_pool, select_sec_pools, timeout_of, yes_no,
}
use kube_loxilb.Lb.Cache.{apply_settings, new_entry, pairs_missing, settings_differ, zone_inst_of}
use kube_loxilb.Lb.Cache.Update.{update_settings}
use kube_loxilb.Lb.Delete.{
  delete_entry, delete_load_balancer, finish_delete, remove_pairs, remove_rule, return_pair,
  return_pairs, return_secondary,
}
use kube_loxilb.Lb.Desired.{
  admit_service, check_secondary, check_zone_inst, class_matches, needs_multus, read_desired,
  zone_matches,
}
use kube_loxilb.Lb.Fixture.{
  accepting, cluster, config, desired, manager, pool, tls_port, web, web_port,
}
use kube_loxilb.Lb.Model.{
  install_all, install_lb, make_endpoints, make_loxi_lb_model, prefer_local, refused, send,
  target_ports,
}
use kube_loxilb.Lb.Mtls.{Secrets, data_or, get_mtls_backend_config, get_mtls_frontend_config}
use kube_loxilb.Lb.Pairs.{
  claim, existing_pairs, get_ingress_svc_pairs, get_lb_ingress_svc_pairs,
  get_lb_service_external_ips, get_service_ingress_ips, get_service_loxi_static_ip,
  get_service_private_ip, new_pairs, service_has_zero_cidr_pool,
}
use kube_loxilb.Lb.Types.{
  Ingress, LbCacheEntry, LbServicePairEntry, Manager, Rest, Sent, Service, annotation, gen_key,
  gen_sp_key,
}
use kube_loxilb.Lb.Updates.{
  addresses_changed, check_service_ingress_ip_exists, check_update_endpoints,
  check_update_external_ip, published_names, updated_ingress,
}
use kube_loxilb.Text.{
  atoi, concat, contains_text, decimal, has_prefix, join, path_join, split, to_lower,
}

abbrev no_secrets : Secrets
no_secrets = record { get_secret = λ ns name. err "not found"; encode = λ bs. "" }

abbrev status_api : StatusApi
status_api = record { read_ingress = λ k. some []; conflict = λ k. k == 0 }

-- A cluster of one ready node.
abbrev one_node : Cluster
one_node = record cluster {
  nodes = ok (
      record {
        name = "n1";
        conditions = [];
        addresses = record { type = "InternalIP"; address = "10.1.0.1" } ∷ [];
      }
      ∷ []);
}

abbrev fresh : Manager Taken
unfolding manager
fresh = record manager { lb_cache = [] }

-- The first request is accepted, and all later ones are refused.
abbrev one_accepted : Rest
one_accepted = record { answer = λ log s. if length log == 0 then none else some "timeout" }

abbrev run : Rest → Option Service → Manager Taken → Outcome (List (List Ingress)) × Manager Taken
unfolding sync_load_balancer
run rest =
    sync_load_balancer demo_allocator demo_net rest no_secrets config one_node status_api "default"
      "web"

nothing_cached : CacheFits fresh
unfolding manager lookup
nothing_cached k e found = absurd (ground arith)

-- The result, the hosts that were asked, the keys of the cached pairs, and what the pool holds.
pair_keys : Option LbCacheEntry → List String
pair_keys none = []
pair_keys (some e) = map (λ (p : String × LbServicePairEntry). p.0) e.lb_service_pairs

pool_holds : Option (IpPool Taken) → Taken
pool_holds none = []
pool_holds (some p) = p.ip_alloc

abbrev view :
    Outcome (List (List Ingress)) × Manager Taken
    → Outcome (List (List Ingress)) × List String × List String × Taken
view (r, m) = (
  r,
  map (λ (s : Sent). s.host) m.sent,
  pair_keys (lookup "default/web" m.lb_cache),
  pool_holds (get_elem? m.pools 0),
)

-- A new service gets an address, one rule for each port on each instance, and its status, which is
-- written twice because of a conflict. If the rule of its second port is refused, the address goes back
-- to the pool, while the cache keeps the first pair with it. If the service goes, its rules are deleted
-- and its address goes back.
runs :
    (view (run accepting (some web) fresh) ≡ (
      ok (
          (record { ip = ""; hostname = "llb-10.0.0.1" } ∷ [])
          ∷ (record { ip = ""; hostname = "llb-10.0.0.1" } ∷ [])
          ∷ []),
      "b" ∷ "a" ∷ "b" ∷ "a" ∷ [],
      "10.0.0.1:80:tcp" ∷ "10.0.0.1:443:tcp" ∷ [],
      ("10.0.0.0/24", "", "10.0.0.1") ∷ [],
    ))
    × (view (run one_accepted (some web) fresh) ≡ (
      err "failed to add loxiLB loadBalancer - spair(10.0.0.1:443:tcp). err: timeout",
      "b" ∷ "a" ∷ "b" ∷ "a" ∷ [],
      "10.0.0.1:80:tcp" ∷ [],
      [],
    ))
    × (view (run accepting none (run accepting (some web) fresh).1)
        ≡ (ok [], "b" ∷ "a" ∷ "b" ∷ "a" ∷ "b" ∷ "a" ∷ "b" ∷ "a" ∷ [], [], []))
unfolding run pair_keys pool_holds fresh manager remove_endpoints adopt lb_args installed_pair
    add_pair wrap status_writes refresh_service service_pairs add_with_pairs
    without_service_endpoints add_entry admitted add_load_balancer sync_load_balancer if_made
    if_taken install_pairs conclude install_service return_allocated deallocate_on_failure
    return_for_pairs return_sec_ips replace_secondary update_secondary remove_rule remove_pairs
    return_secondary return_pair return_pairs finish_delete delete_entry delete_load_balancer
    service_has_zero_cidr_pool get_service_ingress_ips get_service_loxi_static_ip
    get_service_private_ip get_lb_service_external_ips get_lb_ingress_svc_pairs claim existing_pairs
    new_pairs get_ingress_svc_pairs target_ports make_endpoints make_loxi_lb_model prefer_local
    refused send install_lb install_all needs_multus class_matches zone_matches check_secondary
    check_zone_inst read_desired admit_service addr_type_of ep_addr_type_of is_v6_pool yes_no
    lb_mode_of timeout_of probe_type_of no_probe_data probe_port_of probe_text_of probe_timeout_of
    probe_retries_of ep_select_of sec_ips_of pool_shared select_pool select_sec_pools data_or
    get_mtls_frontend_config get_mtls_backend_config check_service_ingress_ip_exists published_names
    check_update_external_ip addresses_changed check_update_endpoints updated_ingress zone_inst_of
    new_entry pairs_missing settings_differ apply_settings update_settings diff_ip_index contains
    range_ends ipam_ident get_new_ip_addr return_ip_addr check_and_reserve_ip addr_in_family
    get_node_address node_listed get_endpoints_for_lb get_service_local_endpoints in_slice_family
    get_service_endpoints get_service_endpoint_ports int_value get_service_port_int_value
    get_endpoints gen_ext_ip_name host_address parse_ingress_hostname concat join split has_prefix
    contains_text to_lower decimal atoi path_join demo_parse_ip demo_ip_string demo_net_contains
    demo_parse_cidr demo_is_unspecified taken untake demo_allocate annotation gen_key gen_sp_key
    lookup insert remove gen_zone_inst_name to_u16 to_u32
runs = (refl, refl, refl)

sync_load_balancer-CacheFits_example :
    CacheFits
      (sync_load_balancer demo_allocator demo_net one_accepted no_secrets config one_node status_api
        "default" "web"
        (some web)
        fresh).1
sync_load_balancer-CacheFits_example =
    sync_load_balancer-CacheFits demo_allocator demo_net one_accepted config no_secrets one_node
      status_api "default" "web" (some web) fresh nothing_cached

add_entry_failed_example :
    HoldsAsBefore demo_allocator demo_net one_accepted config demo_laws 0
      (pool false)
      fresh
      (add_entry demo_allocator demo_net one_accepted config one_node status_api
        (desired (pos 8080) false)
        web
        fresh
        (ok ("10.1.0.1" ∷ []))
        none).1
unfolding get_lb_ingress_svc_pairs annotation lookup get_new_ip_addr demo_allocate demo_parse_ip
    contains demo_net_contains fresh add_entry contains_text to_lower
add_entry_failed_example =
    add_entry_failed demo_allocator demo_net one_accepted config demo_laws one_node status_api
      (desired (pos 8080) false) web web_port (tls_port ∷ []) (pool false)
      (record (pool false) { ip_alloc = ("10.0.0.0/24", "", "10.0.0.1") ∷ [] }) (v4 10 0 0 1) ""
      refl refl refl refl refl refl refl fresh ("10.1.0.1" ∷ []) refl
      "failed to add loxiLB loadBalancer - spair(10.0.0.1:443:tcp). err: timeout" refl
