-- ===== src/Lb/Add/PoolLaws.antt =====
-- The pools of the manager along the installation of rules, and when newly allocated addresses go back.
use kube_loxilb.Api.Client.{LoxiClient}
use kube_loxilb.Api.LbModel.{LbModel}
use kube_loxilb.Base.{
  Bool, List, String, [], ap, get_elem?, refl, set, some, true, ℕ, ◌∙◌, ◌∷◌, ◌≡◌,
}
use kube_loxilb.Config.{NetworkConfig}
use kube_loxilb.IpPool.{IpPool, return_ip_addr}
use kube_loxilb.K8s.{Cluster}
use kube_loxilb.Lb.Add.{add_pair, installed_pair, put}
use kube_loxilb.Lb.Add.Install.{install_pairs}
use kube_loxilb.Lb.Add.Invariant.{install_pairs_round}
use kube_loxilb.Lb.Add.Secondary.{deallocate_on_failure, return_allocated}
use kube_loxilb.Lb.Delete.{return_secondary}
use kube_loxilb.Lb.Desired.{Desired}
use kube_loxilb.Lb.Model.{install_all, install_lb, send}
use kube_loxilb.Lb.Pairs.{new_pair}
use kube_loxilb.Lb.Pairs.Laws.{later_pairs}
use kube_loxilb.Lb.Types.{LbCacheEntry, Manager, Rest, Service, ServicePort, SvcPair, on_pool}
use kube_loxilb.Net.{Allocator, IpAddr, Net}

on_pool-pools :
    {S : Type 0} (f : IpPool S → IpPool S) (i : ℕ) (m : Manager S) (p : IpPool S)
    → get_elem? m.pools i ≡ some p
    → (on_pool f i m).pools ≡ set m.pools i (f p)
on_pool-pools f i m p h = rw (on_pool, h) refl

module _ (A : Allocator) (net : Net) (rest : Rest) (config : NetworkConfig) where
  install_all-pools :
      (cs : List LoxiClient) (lb : LbModel) (pl : Bool) (m : Manager A.State)
      → (install_all rest cs lb pl m).1.pools ≡ m.pools
  unfolding install_all install_lb send
  install_all-pools [] lb pl m = refl
  install_all-pools (c ∷ cs) lb pl m = install_all-pools cs lb pl (install_lb rest c lb pl m).1

  pub install_pairs-pools :
      (cluster : Cluster) (d : Desired) (svc : Service) (key : String) (ips : List String)
      (private : String) (ss : List SvcPair) (e : LbCacheEntry) (m : Manager A.State)
      → (install_pairs A net rest config cluster d svc key ips private ss e m).1.pools ≡ m.pools
  unfolding install_pairs
  install_pairs-pools cluster d svc key ips private [] e m = refl
  install_pairs-pools cluster d svc key ips private (s ∷ ss) e m =
      install_pairs_round A net rest config (λ r. r.1.pools ≡ m.pools) cluster d svc key ips private
        s ss e m (λ _. refl)
        (λ lb made.
          let sent = install_all-pools m.clients lb e.pref_local m in
          let e' = add_pair (installed_pair s lb) e in
          let m' = (install_all rest m.clients lb e.pref_local m).1 in
          (
            λ _. sent,
            install_pairs-pools cluster d svc key ips private ss e' (put key e' m') ∙ sent,
          ))

  -- The pairs of the later ports have nothing to give back.
  return_allocated-later_pairs :
      (i : ℕ) (p : IpPool A.State) (ip : IpAddr) (qs : List ServicePort) (m : Manager A.State)
      → return_allocated A net rest i (later_pairs A net p ip qs) m ≡ m
  unfolding return_allocated
  return_allocated-later_pairs i p ip [] m = refl
  return_allocated-later_pairs i p ip (q ∷ qs) m = return_allocated-later_pairs i p ip qs m

  pub deallocate-new_pairs :
      (d : Desired) (p p' : IpPool A.State) (ip : IpAddr) (ident : String) (q : ServicePort)
      (qs : List ServicePort) (m : Manager A.State)
      → get_elem? m.pools d.ip_pool ≡ some p'
      → (deallocate_on_failure A net rest d []
          (new_pair A net q ip ident true ∷ later_pairs A net p' ip qs)
          m).pools
        ≡ set m.pools d.ip_pool (return_ip_addr A net p' (net.ip_string ip) ident)
  unfolding deallocate_on_failure return_allocated return_secondary
  deallocate-new_pairs d p p' ip ident q qs m h =
      ap (λ (n : Manager A.State). n.pools) (return_allocated-later_pairs d.ip_pool p' ip qs _)
      ∙ on_pool-pools (λ r. return_ip_addr A net r (net.ip_string ip) ident) d.ip_pool m p' h
