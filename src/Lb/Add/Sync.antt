-- ===== src/Lb/Add/Sync.antt =====
-- addLoadBalancer from the pairs of the service on, and addLoadBalancer and syncLoadBalancer as a whole.
-- The assignment of nil to the status of the object that the lister gave is left out: it is not written
-- to the cluster.
use kube_loxilb.Base.{
  Bool, List, Option, String, [], false, get_elem?, if◌then◌else◌, none, set, some, true, ◌+◌, ◌||◌,
  ◌∷◌,
}
use kube_loxilb.Base.Assoc.{lookup}
use kube_loxilb.Base.Outcome.{Outcome, err, ok, panic, ◌>>=◌, ◌>>◌}
use kube_loxilb.Config.{NetworkConfig}
use kube_loxilb.K8s.{Cluster, get_endpoints}
use kube_loxilb.Lb.Add.{StatusApi, put, remove_endpoints, wrap}
use kube_loxilb.Lb.Add.Install.{install_service}
use kube_loxilb.Lb.Add.Secondary.{
  cached_sec_ips, deallocate_on_failure, secondary_differ, update_secondary,
}
use kube_loxilb.Lb.Cache.{new_entry, zone_inst_of}
use kube_loxilb.Lb.Cache.Update.{update_settings}
use kube_loxilb.Lb.Delete.{delete_load_balancer}
use kube_loxilb.Lb.Desired.{Desired, admit_service}
use kube_loxilb.Lb.Mtls.{Secrets}
use kube_loxilb.Lb.Pairs.{get_ingress_svc_pairs}
use kube_loxilb.Lb.Types.{Ingress, LbCacheEntry, Manager, Rest, Service, SvcPair, gen_key}
use kube_loxilb.Lb.Updates.{check_update_endpoints, check_update_external_ip}
use kube_loxilb.Net.{Allocator, Net}

module _ (A : Allocator) (net : Net) (rest : Rest) where
  -- After the secondary addresses: whether anything is to be done.
  unfoldable pub refresh_service :
      NetworkConfig
      → Cluster
      → StatusApi
      → Desired
      → Service
      → Bool
      → Bool × Bool
      → List String
      → List SvcPair
      → Outcome LbCacheEntry × Manager A.State
      → Outcome (List (List Ingress)) × Manager A.State
  unfolding install_service check_update_endpoints check_update_external_ip wrap
      deallocate_on_failure
  refresh_service config cluster api d svc added (update, need_delete) ips pairs (err t, m) = (
    err (wrap t "getIngressSecSvcPairs return error"),
    deallocate_on_failure A net rest d
        (cached_sec_ips (lookup (gen_key svc.namespace svc.name) m.lb_cache)) pairs m,
  )
  refresh_service config cluster api d svc added (update, need_delete) ips pairs (panic, m) =
      (panic, m)
  refresh_service config cluster api d svc added (update, need_delete) ips pairs (ok e, m) =
      if update
        || (check_update_endpoints cluster e.lb_service_pairs ips d.use_external_endpoint
            || check_update_external_ip net config m.loxi_inst_addr_map pairs svc.ingress)
      then install_service A net rest config cluster api d svc added need_delete ips pairs e m
      else (ok [], m)

  -- getIngressSvcPairs on the manager
  unfoldable pub service_pairs :
      NetworkConfig
      → Service
      → LbCacheEntry
      → Manager A.State
      → Outcome (List SvcPair × Manager A.State)
  unfolding get_ingress_svc_pairs
  service_pairs config svc e m = elim (get_elem? m.pools e.ip_pool) [
    | none ↦ panic
    | some p ↦ (do
      ((pairs, has), p') ← get_ingress_svc_pairs A net config svc e p
      ok (pairs, record m { pools = set m.pools e.ip_pool p' }))
  ]

  -- From the pairs of the service on, for an entry that is in the cache.
  unfoldable pub add_with_pairs :
      NetworkConfig
      → Cluster
      → StatusApi
      → Desired
      → Service
      → Bool
      → List String
      → LbCacheEntry
      → Manager A.State
      → Outcome (List SvcPair × Manager A.State)
      → Outcome (List (List Ingress)) × Manager A.State
  unfolding update_settings update_secondary refresh_service wrap
  add_with_pairs config cluster api d svc added ips e m (err t) =
      (err (wrap t "getIngressSvcPairs return error"), m)
  add_with_pairs config cluster api d svc added ips e m panic = (panic, m)
  add_with_pairs config cluster api d svc added ips e m (ok (pairs, m₁)) =
      let key = gen_key svc.namespace svc.name in
      let (e₁, update, need_delete) = update_settings d added e in
      refresh_service config cluster api d svc added
        (update || secondary_differ A net rest d e₁, need_delete) ips pairs
        (update_secondary A net rest d svc key added e₁ (put key e₁ m₁))

  -- A service without endpoints whose entry is in the cache: its rules go, and its addresses stay.
  unfoldable pub without_service_endpoints :
      NetworkConfig
      → Service
      → LbCacheEntry
      → Manager A.State
      → Outcome (List (List Ingress)) × Manager A.State
  unfolding delete_load_balancer remove_endpoints wrap
  without_service_endpoints config svc e m =
      let (r, m') = delete_load_balancer A net rest config svc.namespace svc.name false m in
      elim r [
        | ok _ ↦ (
          ok [],
          put (gen_key svc.namespace svc.name)
              (record e { lb_service_pairs = remove_endpoints e.lb_service_pairs }) m',
        )
        | err t ↦ (err (wrap t "deleteLoadBalancer return error"), m')
        | panic ↦ (panic, m')
      ]

  -- addLoadBalancer from the cache on, by the endpoints and the entry that the service has. An error of
  -- getEndpoints counts as no endpoints where the service has an entry.
  unfoldable pub add_entry :
      NetworkConfig
      → Cluster
      → StatusApi
      → Desired
      → Service
      → Manager A.State
      → Outcome (List String)
      → Option LbCacheEntry
      → Outcome (List (List Ingress)) × Manager A.State
  unfolding zone_inst_of new_entry add_with_pairs service_pairs without_service_endpoints wrap
  add_entry config cluster api d svc m panic o = (panic, m)
  add_entry config cluster api d svc m (err t) none = (err (wrap t "getEndpoints return error"), m)
  add_entry config cluster api d svc m (ok []) none = (err "no active endpoints", m)
  add_entry config cluster api d svc m (ok (ip ∷ ips)) none =
      let e = new_entry d (zone_inst_of config m.zone_inst_sel_hint d) in
      let m₁ = record (put (gen_key svc.namespace svc.name) e m) {
        zone_inst_sel_hint = m.zone_inst_sel_hint + 1;
      } in
      add_with_pairs config cluster api d svc false (ip ∷ ips) e m₁ (service_pairs config svc e m₁)
  add_entry config cluster api d svc m (err t) (some e) = without_service_endpoints config svc e m
  add_entry config cluster api d svc m (ok []) (some e) = without_service_endpoints config svc e m
  add_entry config cluster api d svc m (ok (ip ∷ ips)) (some e) =
      add_with_pairs config cluster api d svc true (ip ∷ ips) e m (service_pairs config svc e m)

  unfoldable pub admitted :
      NetworkConfig
      → Cluster
      → StatusApi
      → Service
      → Manager A.State
      → Outcome (Option Desired)
      → Outcome (List (List Ingress)) × Manager A.State
  unfolding get_endpoints add_entry gen_key
  admitted config cluster api svc m (err t) = (err t, m)
  admitted config cluster api svc m panic = (panic, m)
  admitted config cluster api svc m (ok none) = (ok [], m)
  admitted config cluster api svc m (ok (some d)) =
      add_entry config cluster api d svc m
        (get_endpoints net cluster svc.local_policy d.use_pod_net d.use_external_endpoint
          d.need_multus_ep d.ep_addr_type d.match_node_label)
        (lookup (gen_key svc.namespace svc.name) m.lb_cache)

  -- addLoadBalancer: the statuses that it writes, or its error.
  unfoldable pub add_load_balancer :
      Secrets
      → NetworkConfig
      → Cluster
      → StatusApi
      → Service
      → Manager A.State
      → Outcome (List (List Ingress)) × Manager A.State
  unfolding admit_service admitted
  add_load_balancer secrets config cluster api svc m =
      admitted config cluster api svc m (admit_service net secrets config m svc)

  -- syncLoadBalancer, by what the lister finds under the key.
  unfoldable pub sync_load_balancer :
      Secrets
      → NetworkConfig
      → Cluster
      → StatusApi
      → String
      → String
      → Option Service
      → Manager A.State
      → Outcome (List (List Ingress)) × Manager A.State
  unfolding add_load_balancer delete_load_balancer
  sync_load_balancer secrets config cluster api ns name (some svc) m =
      add_load_balancer secrets config cluster api svc m
  sync_load_balancer secrets config cluster api ns name none m =
      let (r, m') = delete_load_balancer A net rest config ns name true m in ((do r; ok []), m')
