-- ===== src/Lb/Secondary.antt =====
-- getIngressSecSvcPairs of loadbalancer.go: the secondary addresses of a service from its pools.
pub mod Count
pub mod Examples
use kube_loxilb.Base.{
  List, [], get_elem?, if◌then◌else◌, length, ltb, none, set, some, suc, true, zero, ℕ, ◌∷◌,
}
use kube_loxilb.Base.Int.{to_u32}
use kube_loxilb.Base.Outcome.{Outcome, err, ok, panic, ◌>>=◌, ◌>>◌}
use kube_loxilb.IpPool.{get_new_ip_addr}
use kube_loxilb.Lb.Pairs.{new_pair}
use kube_loxilb.Lb.Types.{LbCacheEntry, Manager, Service, ServicePort, SvcPair}
use kube_loxilb.Net.{Allocator, Net}
use kube_loxilb.Text.{to_lower}

module _ (A : Allocator) (net : Net) where
  -- One address for each secondary, from its own pool and for the first port of the service; the later
  -- ports share it. Without a free address the process exits, which is a panic here; a missing pool
  -- is an index out of range.
  unfoldable pub sec_pairs :
      List ServicePort → List ℕ → ℕ → Manager A.State → Outcome (List SvcPair × Manager A.State)
  sec_pairs ports pools zero m = ok ([], m)
  sec_pairs [] [] (suc n) m = ok ([], m)
  sec_pairs [] (i ∷ is) (suc n) m = ok ([], m)
  sec_pairs (q ∷ qs) [] (suc n) m = panic
  sec_pairs (q ∷ qs) (i ∷ is) (suc n) m = elim (get_elem? m.pools i) [
    | none ↦ panic
    | some p ↦
        let r = get_new_ip_addr A net p (to_u32 q.port) (to_lower q.protocol) in
        elim r.0.0 [
          | none ↦ panic
          | some ip ↦ (do
            (rest, m') ← sec_pairs (q ∷ qs) is n (record m { pools = set m.pools i r.1 })
            ok (new_pair A net q ip r.0.1 true ∷ rest, m'))
        ]
  ]

  -- getIngressSecSvcPairs
  unfoldable pub get_ingress_sec_svc_pairs :
      Service → ℕ → LbCacheEntry → Manager A.State → Outcome (List SvcPair × Manager A.State)
  unfolding sec_pairs
  get_ingress_sec_svc_pairs svc num_secondary e m =
      if ltb (length e.sip_pools) num_secondary
      then err "failed to generate external secondary IP. No IP pools"
      else sec_pairs svc.ports e.sip_pools num_secondary m
