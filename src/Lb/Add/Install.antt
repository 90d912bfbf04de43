-- ===== src/Lb/Add/Install.antt =====
-- addLoadBalancer: the rules of a service are made and installed, and its status is written.
use kube_loxilb.Api.LbModel.{LbModel}
use kube_loxilb.Base.{
  Bool, List, Option, String, [], false, if◌then◌else◌, length, map, none, some, ◌∷◌,
}
use kube_loxilb.Base.Int.{to_u16}
use kube_loxilb.Base.Outcome.{Outcome, err, ok, panic}
use kube_loxilb.Config.{NetworkConfig}
use kube_loxilb.K8s.{Cluster}
use kube_loxilb.Lb.Add.{
  StatusApi, add_pair, adopt, installed_pair, lb_args, put, status_writes, wrap,
}
use kube_loxilb.Lb.Add.Secondary.{deallocate_on_failure}
use kube_loxilb.Lb.Delete.{delete_load_balancer}
use kube_loxilb.Lb.Desired.{Desired}
use kube_loxilb.Lb.Model.{install_all, make_loxi_lb_model, refused}
use kube_loxilb.Lb.Pairs.{get_service_private_ip}
use kube_loxilb.Lb.Types.{
  Ingress, LbCacheEntry, Manager, Rest, Service, SvcPair, gen_key, gen_sp_key,
}
use kube_loxilb.Net.{Allocator, Net}
use kube_loxilb.Text.{concat}

module _ (A : Allocator) (net : Net) (rest : Rest) where
  abbrev pub too_few : SvcPair → String → String
  unfolding gen_sp_key to_u16 concat
  too_few s t = concat (
      "failed to add loxiLB loadBalancer - spair("
      ∷ gen_sp_key s.ip_string (to_u16 s.port) s.protocol
      ∷ "). err: "
      ∷ t
      ∷ [])

  abbrev pub Installed : Type 0
  Installed = Outcome LbCacheEntry × Manager A.State

  -- What follows the making of a rule, and the answers to it.
  unfoldable pub if_made : Outcome LbModel → (LbModel → Installed) → Manager A.State → Installed
  unfolding wrap
  if_made (err t) next m = (err (wrap t "makeLoxiLoadBalancerModel return error"), m)
  if_made panic next m = (panic, m)
  if_made (ok lb) next m = next lb

  unfoldable pub if_taken : SvcPair → Option String → Installed → Manager A.State → Installed
  if_taken s (some t) next m = (err (too_few s t), m)
  if_taken s none next m = next

  -- The loop that makes and installs the rule of each pair; the pair joins the entry when an instance
  -- has taken its rule.
  unfoldable pub install_pairs :
      NetworkConfig
      → Cluster
      → Desired
      → Service
      → String
      → List String
      → String
      → List SvcPair
      → LbCacheEntry
      → Manager A.State
      → Outcome LbCacheEntry × Manager A.State
  unfolding lb_args make_loxi_lb_model install_all refused installed_pair add_pair if_made if_taken
  install_pairs config cluster d svc key ips private [] e m = (ok e, m)
  install_pairs config cluster d svc key ips private (s ∷ ss) e m =
      if_made (make_loxi_lb_model net config cluster (lb_args d e ips private s) svc s.svc_port)
        (λ lb.
          let (answers, m') = install_all rest m.clients lb e.pref_local m in
          let e' = add_pair (installed_pair s lb) e in
          if_taken s (refused (length m.clients) answers)
            (install_pairs config cluster d svc key ips private ss e' (put key e' m')) m')
        m

  -- The end of addLoadBalancer, by how the loop ended: the status, or the return of what was allocated.
  unfoldable pub conclude :
      NetworkConfig
      → StatusApi
      → Desired
      → List String
      → List SvcPair
      → Outcome LbCacheEntry × Manager A.State
      → Outcome (List (List Ingress)) × Manager A.State
  unfolding status_writes deallocate_on_failure
  conclude config api d sec_ips pairs (ok e, m) =
      (ok (status_writes net config api m.loxi_inst_addr_map pairs 5 0), m)
  conclude config api d sec_ips pairs (err t, m) =
      (err t, deallocate_on_failure A net rest d sec_ips pairs m)
  conclude config api d sec_ips pairs (panic, m) = (panic, m)

  -- The pairs of the service are made anew: rules go first where a setting changed, and the cached
  -- pairs hand their flags on.
  unfoldable pub install_service :
      NetworkConfig
      → Cluster
      → StatusApi
      → Desired
      → Service
      → Bool
      → Bool
      → List String
      → List SvcPair
      → LbCacheEntry
      → Manager A.State
      → Outcome (List (List Ingress)) × Manager A.State
  unfolding gen_key delete_load_balancer adopt install_pairs conclude get_service_private_ip
  install_service config cluster api d svc added need_delete ips pairs e m =
      let key = gen_key svc.namespace svc.name in
      let m₁ =
        if need_delete
        then (delete_load_balancer A net rest config svc.namespace svc.name false m).1
        else m in
      let pairs' = if added then map (adopt e.lb_service_pairs) pairs else pairs in
      let e' = if added then record e { lb_service_pairs = [] } else e in
      conclude config api d e.sec_ips pairs' (
        install_pairs config cluster d svc key ips (get_service_private_ip net config svc) pairs' e'
          (put key e' m₁))
