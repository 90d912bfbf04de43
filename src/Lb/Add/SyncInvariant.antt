-- ===== src/Lb/Add/SyncInvariant.antt =====
-- The invariant of the cache along addLoadBalancer and syncLoadBalancer.
use kube_loxilb.Api.LbModel.{ep_select_eq}
use kube_loxilb.Base.{
  List, Option, String, [], ap, arith, bool_eq, false, if◌then◌else◌, inr, nat_eq, none, refl, some,
  string_eq, sym, true, ◌+◌, ◌==◌, ◌∙◌, ◌∷◌, ◌≡◌, ◌≢◌,
}
use kube_loxilb.Base.Assoc.{lookup}
use kube_loxilb.Base.Int.{int_eq}
use kube_loxilb.Base.Outcome.{Outcome, err, ok, panic}
use kube_loxilb.Config.{NetworkConfig}
use kube_loxilb.K8s.{Cluster}
use kube_loxilb.Lb.Add.{StatusApi, put}
use kube_loxilb.Lb.Add.EntryInvariant.{
  add_with_pairs-CacheFits, service_pairs-lb_cache, without_service_endpoints-CacheFits,
}
use kube_loxilb.Lb.Add.Invariant.{CacheFits-same}
use kube_loxilb.Lb.Add.Sync.{
  add_entry, add_load_balancer, admitted, service_pairs, sync_load_balancer,
}
use kube_loxilb.Lb.Add.Wellformed.{CacheFits, CacheFits-put, EntryFits-empty}
use kube_loxilb.Lb.Cache.{new_entry, zone_inst_of}
use kube_loxilb.Lb.Delete.{delete_load_balancer}
use kube_loxilb.Lb.Delete.Laws.{delete_load_balancer-lookup, delete_load_balancer_keeps}
use kube_loxilb.Lb.Desired.{Desired, admit_service}
use kube_loxilb.Lb.Mtls.{Secrets}
use kube_loxilb.Lb.Types.{LbCacheEntry, Manager, Rest, Service, gen_key}
use kube_loxilb.Net.{Allocator, Net}

module _ (A : Allocator) (net : Net) (rest : Rest) (config : NetworkConfig) where
  add_entry-CacheFits :
      (cluster : Cluster) (api : StatusApi) (d : Desired) (svc : Service) (m : Manager A.State)
      (ips : Outcome (List String)) (o : Option LbCacheEntry)
      → lookup (gen_key svc.namespace svc.name) m.lb_cache ≡ o
      → CacheFits m
      → CacheFits (add_entry A net rest config cluster api d svc m ips o).1
  unfolding add_entry new_entry
  add_entry-CacheFits cluster api d svc m panic o found fits = fits
  add_entry-CacheFits cluster api d svc m (err t) none found fits = fits
  add_entry-CacheFits cluster api d svc m (ok []) none found fits = fits
  add_entry-CacheFits cluster api d svc m (ok (ip ∷ ips)) none found fits =
      let e = new_entry d (zone_inst_of config m.zone_inst_sel_hint d) in
      let fit = EntryFits-empty "" e in
      let m₁ = record (put (gen_key svc.namespace svc.name) e m) {
        zone_inst_sel_hint = m.zone_inst_sel_hint + 1;
      } in
      add_with_pairs-CacheFits A net rest config cluster api d svc false (ip ∷ ips) e m₁
        (service_pairs A net rest config svc e m₁) fit
        (CacheFits-put (gen_key svc.namespace svc.name) e m fit fits)
        (service_pairs-lb_cache A net rest config svc e m₁)
  add_entry-CacheFits cluster api d svc m (err t) (some e) found fits =
      without_service_endpoints-CacheFits A net rest config svc e m
        (fits (gen_key svc.namespace svc.name) e found) fits
  add_entry-CacheFits cluster api d svc m (ok []) (some e) found fits =
      without_service_endpoints-CacheFits A net rest config svc e m
        (fits (gen_key svc.namespace svc.name) e found) fits
  add_entry-CacheFits cluster api d svc m (ok (ip ∷ ips)) (some e) found fits =
      add_with_pairs-CacheFits A net rest config cluster api d svc true (ip ∷ ips) e m
        (service_pairs A net rest config svc e m) (fits (gen_key svc.namespace svc.name) e found)
        fits (service_pairs-lb_cache A net rest config svc e m)

  admitted-CacheFits :
      (cluster : Cluster) (api : StatusApi) (svc : Service) (m : Manager A.State)
      (o : Outcome (Option Desired))
      → CacheFits m
      → CacheFits (admitted A net rest config cluster api svc m o).1
  unfolding admitted
  admitted-CacheFits cluster api svc m (err t) fits = fits
  admitted-CacheFits cluster api svc m panic fits = fits
  admitted-CacheFits cluster api svc m (ok none) fits = fits
  admitted-CacheFits cluster api svc m (ok (some d)) fits =
      add_entry-CacheFits cluster api d svc m _ (lookup (gen_key svc.namespace svc.name) m.lb_cache)
        refl fits

  deleted-CacheFits :
      (ns name : String) (m : Manager A.State)
      → CacheFits m
      → CacheFits (delete_load_balancer A net rest config ns name true m).1
  deleted-CacheFits ns name m fits =
      by_result (delete_load_balancer A net rest config ns name true m).0 refl
    where
      m' : Manager A.State
      m' = (delete_load_balancer A net rest config ns name true m).1

      kept : (delete_load_balancer A net rest config ns name true m).0 ≢ ok tt → CacheFits m'
      kept failed =
          CacheFits-same A net rest config m m'
            (ap (λ (n : Manager A.State). n.lb_cache)
              (delete_load_balancer_keeps A net rest config ns name true m (inr (inr failed))))
            fits

      gone :
          (delete_load_balancer A net rest config ns name true m).0 ≡ ok tt
          → (j : String)
          → lookup j m'.lb_cache ≡ (if gen_key ns name == j then none else lookup j m.lb_cache)
      gone h j = delete_load_balancer-lookup A net rest config ns name m h j

      still :
          (k : String) (e : LbCacheEntry)
          → (if gen_key ns name == k then none else lookup k m.lb_cache) ≡ some e
          → lookup k m.lb_cache ≡ some e
      still k e h = ground (arith, h)

      by_result :
          (r : Outcome (Unit {0}))
          → (delete_load_balancer A net rest config ns name true m).0 ≡ r
          → CacheFits m'
      by_result (ok done) h = λ k e found. fits k e (still k e (sym (gone h k) ∙ found))
      by_result (err t) h = kept (λ done. absurd (cc))
      by_result panic h = kept (λ done. absurd (cc))

  -- Every run of syncLoadBalancer, with any answers of the API server and of the instances, leaves a cache
  -- in which each pair of each service stands under the key of its address, port and protocol, and has
  -- exactly one rule, which is for its address, if the cache was so before.
  pub sync_load_balancer-CacheFits :
      (secrets : Secrets) (cluster : Cluster) (api : StatusApi) (ns name : String)
      (o : Option Service) (m : Manager A.State)
      → CacheFits m
      → CacheFits (sync_load_balancer A net rest secrets config cluster api ns name o m).1
  unfolding sync_load_balancer add_load_balancer
  sync_load_balancer-CacheFits secrets cluster api ns name (some svc) m fits =
      admitted-CacheFits cluster api svc m (admit_service net secrets config m svc) fits
  sync_load_balancer-CacheFits secrets cluster api ns name none m fits =
      deleted-CacheFits ns name m fits
