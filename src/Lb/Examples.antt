-- ===== src/Lb/Examples.antt =====
-- Runs of the load balancer's operations, and the theorems about them at concrete states.
use kube_loxilb.Api.LbModel.{LbEndpoint, ep_select_eq}
use kube_loxilb.Base.{
  Bool, String, [], any_of, arith, bool_eq, false, inr, is_empty, leb, length, map, nat_eq, none,
  not, refl, some, string_eq, true, ◌&&◌, ◌+◌, ◌==◌, ◌↔◌, ◌∷◌, ◌≡◌, ◌≢◌, ◌⊎◌,
}
use kube_loxilb.Base.Assoc.{Assoc, insert, lookup}
use kube_loxilb.Base.Int.{int_eq, pos, to_u16, to_u32}
use kube_loxilb.Base.Outcome.{ok}
use kube_loxilb.Common.{gen_ext_ip_name, parse_ingress_hostname}
use kube_loxilb.Common.Laws.{lacks, parse_ingress_hostname-gen_ext_ip_name}
use kube_loxilb.Fixture.{
  demo_allocate, demo_allocator, demo_ip_string, demo_is_unspecified, demo_laws, demo_net,
  demo_parse_cidr, demo_parse_ip, v4,
}
use kube_loxilb.IpPool.{get_new_ip_addr}
use kube_loxilb.Lb.Cache.{apply_settings, new_entry, pairs_missing, settings_differ}
use kube_loxilb.Lb.Cache.Blocks.{progress}
use kube_loxilb.Lb.Cache.Flags.{update_settings_lem}
use kube_loxilb.Lb.Cache.Laws.{settings_differ-apply_settings, settings_differ-new_entry}
use kube_loxilb.Lb.Cache.Update.{update_settings}
use kube_loxilb.Lb.Delete.{delete_load_balancer}
use kube_loxilb.Lb.Delete.Laws.{delete_load_balancer-lookup, delete_load_balancer_keeps}
use kube_loxilb.Lb.Fixture.{
  accepting, args, cluster, config, desired, entry, knows_rule, manager, pool, refusing, rule,
  tls_port, web, web_pair, web_port,
}
use kube_loxilb.Lb.Model.{
  endpoint_at, install_all, make_loxi_lb_model, prefer_local, refused, target_ports,
}
use kube_loxilb.Lb.Model.Install.{has_value, install_all-refused, posted, refusals}
use kube_loxilb.Lb.Model.Laws.{make_loxi_lb_model-endpoints, prefer_local-endpoints}
use kube_loxilb.Lb.Mtls.{Secrets, data_or, get_mtls_frontend_config}
use kube_loxilb.Lb.Mtls.Laws.{IsSound, get_mtls_frontend_config-IsSound}
use kube_loxilb.Lb.Pairs.{new_pair, new_pairs}
use kube_loxilb.Lb.Pairs.Laws.{later_pairs, new_pairs_one_allocation}
use kube_loxilb.Lb.Pools.{add_loxi_cidr_pool, cidr_addr, delete_loxi_cidr_pool, is_v6_addr}
use kube_loxilb.Lb.Pools.Laws.{
  SamePools, add_loxi_cidr_pool_existing, delete_loxi_cidr_pool-add_loxi_cidr_pool,
}
use kube_loxilb.Lb.Signals.{Reachable, Step, System, adder_owns, at_start, sending, start, updating}
use kube_loxilb.Lb.Signals.Deadlock.{Halted, Reachable-Halted, deadlock-Reachable}
use kube_loxilb.Lb.Types.{LbServicePairEntry, Service, annotation, gen_key}
use kube_loxilb.Lb.Updates.{
  check_update_endpoints, check_update_external_ip, published_names, updated_ingress,
}
use kube_loxilb.Lb.Updates.Laws.{
  check_update_endpoints_addresses, check_update_external_ip-updated_ingress,
}
use kube_loxilb.Text.{concat, contains_text, decimal, to_lower}

settings_differ-apply_settings_example :
    settings_differ (desired (pos 70000) false) (apply_settings (desired (pos 70000) false) entry)
    ≡ true
settings_differ-apply_settings_example =
    settings_differ-apply_settings (desired (pos 70000) false) entry (unfold entry in omega arith)

settings_differ-new_entry_example :
    settings_differ (desired (pos 8080) true) (new_entry (desired (pos 8080) true) "llb-inst0")
    ≡ true
settings_differ-new_entry_example = settings_differ-new_entry (desired (pos 8080) true) "llb-inst0"

-- The name of an address
published : gen_ext_ip_name demo_net "llb" [] "10.0.0.1" ≡ "llb-10.0.0.1" ∷ []
unfolding gen_ext_ip_name demo_parse_ip demo_is_unspecified contains_text
published = refl

parse_ingress_hostname-gen_ext_ip_name_example :
    map
      (λ h. parse_ingress_hostname demo_net h "llb")
      (gen_ext_ip_name demo_net "llb" [] "10.0.0.1")
    ≡ "10.0.0.1" ∷ []
unfolding demo_parse_ip demo_is_unspecified contains_text lacks
parse_ingress_hostname-gen_ext_ip_name_example =
    parse_ingress_hostname-gen_ext_ip_name demo_net "llb" "10.0.0.1" [] (v4 10 0 0 1) refl refl refl
      refl refl refl

-- Rules
refused_by_none : refused 2 (install_all knows_rule manager.clients rule false manager).0 ≡ none
unfolding install_all refused contains_text manager
refused_by_none = refl

make_loxi_lb_model-endpoints_example :
    (length rule.endpoints ≡ 2)
    × ((p : LbEndpoint → Bool)
        → any_of p rule.endpoints
          ≡ any_of (λ ip. any_of (λ t. p (endpoint_at ip t)) (pos 30080 ∷ [])) args.endpoint_ips)
unfolding target_ports make_loxi_lb_model to_u16 to_u32 to_lower concat
make_loxi_lb_model-endpoints_example =
    make_loxi_lb_model-endpoints demo_net config cluster args web web_port (pos 30080 ∷ []) rule
      refl refl

prefer_local-endpoints_example :
    let sent = prefer_local "10.1.0.2" true rule in
    (is_empty sent.endpoints ≡ false)
    × ((sent ≡ rule)
        ⊎ ((true ≡ true)
            × ((sent ≡ record rule { endpoints = sent.endpoints })
                × ((p : LbEndpoint → Bool)
                    → any_of p sent.endpoints
                      ≡ any_of
                          (λ (ep : LbEndpoint). p ep && (ep.endpoint_ip == "10.1.0.2"))
                          rule.endpoints))))
prefer_local-endpoints_example = prefer_local-endpoints "10.1.0.2" true rule

install_all-refused_example :
    let (result, m') = install_all refusing manager.clients rule false manager in
    (m'.sent ≡ posted rule false manager.clients manager.sent)
    × ((refusals refusing m'.sent ≡ refusals refusing manager.sent + result.1)
        × (has_value (refused (length manager.clients) result)
            ≡ (not (is_empty manager.clients) && leb (length manager.clients) result.1)))
install_all-refused_example = install_all-refused refusing manager.clients rule false manager

check_update_external_ip-updated_ingress_example :
    check_update_external_ip demo_net config []
      (web_pair ∷ [])
      (updated_ingress demo_net config [] [] (web_pair ∷ []))
    ≡ false
unfolding published_names demo_parse_ip demo_is_unspecified contains_text
check_update_external_ip-updated_ingress_example =
    check_update_external_ip-updated_ingress demo_net config [] (web_pair ∷ []) [] (refl, tt)

delete_load_balancer_keeps_example :
    let m' =
      (delete_load_balancer demo_allocator demo_net refusing config "default" "web" true
        manager).1 in
    m' ≡ record manager { sent = m'.sent }
unfolding delete_load_balancer lookup gen_key manager
delete_load_balancer_keeps_example =
    delete_load_balancer_keeps demo_allocator demo_net refusing config "default" "web" true manager
      (inr (inr (λ q. cc)))

delete_load_balancer-lookup_example :
    lookup "default/web"
      (delete_load_balancer demo_allocator demo_net accepting config "default" "web" true
        manager).1.lb_cache
    ≡ none
unfolding delete_load_balancer lookup gen_key manager
delete_load_balancer-lookup_example =
    delete_load_balancer-lookup demo_allocator demo_net accepting config "default" "web" manager
      refl "default/web"

new_pairs_one_allocation_example :
    let p' = (get_new_ip_addr demo_allocator demo_net (pool true) 80 "tcp").1 in
    (new_pairs demo_allocator demo_net [] none (pool true) (web_port ∷ tls_port ∷ [])
      ≡ ok (
        new_pair demo_allocator demo_net web_port (v4 10 0 0 1) "80/tcp" true
            ∷ later_pairs demo_allocator demo_net p' (v4 10 0 0 1) (tls_port ∷ []),
        p',
      ))
    × ((c i x : String)
        → i ≢ "80/tcp"
        → demo_laws.in_use p'.ip_alloc c i x ≡ demo_laws.in_use (pool true).ip_alloc c i x)
unfolding get_new_ip_addr demo_allocate concat to_u32 to_lower
new_pairs_one_allocation_example =
    new_pairs_one_allocation demo_allocator demo_net demo_laws (pool true) web_port (tls_port ∷ [])
      (v4 10 0 0 1) "80/tcp" (get_new_ip_addr demo_allocator demo_net (pool true) 80 "tcp").1 refl

update_settings_lem_example :
    update_settings (desired (pos 9090) false) true entry
    ≡ progress (apply_settings (desired (pos 9090) false) entry) true true
unfolding entry pairs_missing settings_differ
update_settings_lem_example = update_settings_lem (desired (pos 9090) false) true entry

abbrev pairs : Assoc LbServicePairEntry
pairs =
    (
      "10.0.0.1:80:tcp",
      record {
        external_ip = "10.0.0.1";
        port = 80;
        protocol = "tcp";
        static_ip = false;
        in_range = true;
        ident_ipam = "";
        lb_model_list = rule ∷ [];
      },
    )
    ∷ []

check_update_endpoints_addresses_example :
    check_update_endpoints cluster pairs ("10.1.0.2" ∷ "10.1.0.1" ∷ []) false ≡ false
check_update_endpoints_addresses_example =
    check_update_endpoints_addresses cluster pairs ("10.1.0.2" ∷ "10.1.0.1" ∷ [])

abbrev verifying : Service
verifying = record web {
  annotations =
      ("loxilb.io/mtls-frontend-mode", "required") ∷ ("loxilb.io/mtls-frontend-secret", "ca") ∷ [];
}

abbrev secrets : Secrets
secrets = record {
  get_secret = λ ns name. ok (("client-ca.crt", 1 ∷ 2 ∷ []) ∷ []);
  encode = λ bytes. concat (map decimal bytes);
}

get_mtls_frontend_config-IsSound_example :
    IsSound
      (λ bytes. concat (map decimal bytes))
      (record {
        client_cert_mode = "required";
        client_ca_cert_data = "12";
        require_client_cn = false;
        client_cn_pattern = "";
      })
get_mtls_frontend_config-IsSound_example =
    get_mtls_frontend_config-IsSound secrets verifying
      (record {
        client_cert_mode = "required";
        client_ca_cert_data = "12";
        require_client_cn = false;
        client_cn_pattern = "";
      })
      (unfold get_mtls_frontend_config annotation lookup concat decimal data_or in refl)

add_loxi_cidr_pool_existing_example :
    SamePools demo_allocator demo_net config "defaultPool" "10.9.0.0/24" manager
      (add_loxi_cidr_pool demo_allocator demo_net config "defaultPool" "10.9.0.0/24" manager).1
unfolding cidr_addr demo_parse_cidr demo_parse_ip is_v6_addr demo_ip_string contains_text manager
    lookup
add_loxi_cidr_pool_existing_example =
    (add_loxi_cidr_pool_existing demo_allocator demo_net config "defaultPool" "10.9.0.0/24" manager
      (some (v4 10 9 0 0)) 0 (pool false) refl refl refl).1

delete_loxi_cidr_pool-add_loxi_cidr_pool_example :
    lookup "defaultPool"
      (delete_loxi_cidr_pool demo_allocator demo_net "extra" "10.9.0.0/24"
        (add_loxi_cidr_pool demo_allocator demo_net config "extra" "10.9.0.0/24"
          manager).1).1.ip_pool_tbl
    ≡ some 0
unfolding cidr_addr demo_parse_cidr demo_parse_ip is_v6_addr demo_ip_string contains_text manager
    lookup
delete_loxi_cidr_pool-add_loxi_cidr_pool_example =
    delete_loxi_cidr_pool-add_loxi_cidr_pool demo_allocator demo_net config "extra" "10.9.0.0/24"
      manager (some (v4 10 9 0 0)) refl refl false "defaultPool"

Reachable-Halted_example : ((t : System) → Step (start [] []) t → ⊥) ↔ Halted (start [] [])
Reachable-Halted_example = Reachable-Halted [] [] (start [] []) at_start

deadlock-Reachable_example : Reachable [] (("a", v4 10 0 0 1) ∷ ("b", v4 10 0 0 2) ∷ []) (record {
  owner = adder_owns;
  adder = sending;
  loop = updating 1;
  insts = ("a", v4 10 0 0 1) ∷ ("b", v4 10 0 0 2) ∷ [];
  pending = [];
})
unfolding lookup insert
deadlock-Reachable_example =
    deadlock-Reachable [] "a" "b" (v4 10 0 0 1) (v4 10 0 0 2) [] 0 refl refl
