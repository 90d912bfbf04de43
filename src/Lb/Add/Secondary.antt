-- ===== src/Lb/Add/Secondary.antt =====
-- addLoadBalancer: the addresses that go back on an error, and the secondary addresses of an entry.
-- The entry of the service is passed on beside the manager and written back where the source changes
-- it, which is through a pointer.
use kube_loxilb.Api.LbModel.{ep_select_eq}
use kube_loxilb.Base.{
  Bool, List, Option, String, [], bool_eq, if◌then◌else◌, is_empty, length, map, nat_eq, none, not,
  some, string_eq, ℕ, ◌&&◌, ◌==◌, ◌∷◌,
}
use kube_loxilb.Base.Assoc.{Assoc}
use kube_loxilb.Base.Int.{int_eq}
use kube_loxilb.Base.Outcome.{Outcome, err, ok, panic}
use kube_loxilb.Lb.Add.{put}
use kube_loxilb.Lb.Delete.{give_back, return_secondary}
use kube_loxilb.Lb.Desired.{Desired}
use kube_loxilb.Lb.Secondary.{get_ingress_sec_svc_pairs}
use kube_loxilb.Lb.Types.{LbCacheEntry, LbServicePairEntry, Manager, Rest, Service, SvcPair}
use kube_loxilb.Net.{Allocator, Net}

abbrev pub cached_sec_ips : Option LbCacheEntry → List String
cached_sec_ips none = []
cached_sec_ips (some e) = e.sec_ips

module _ (A : Allocator) (net : Net) (rest : Rest) where
  -- The return of newly allocated addresses.
  unfoldable pub return_allocated : ℕ → List SvcPair → Manager A.State → Manager A.State
  return_allocated i [] m = m
  return_allocated i (s ∷ ss) m =
      return_allocated i ss
        (if s.in_range && s.ip_allocd then give_back A net rest i s.ip_string s.ident_ipam m else m)

  -- The deferred function, on an error: the addresses of the pairs, and after the first of them the
  -- secondary addresses of the entry.
  unfoldable pub deallocate_on_failure :
      Desired → List String → List SvcPair → Manager A.State → Manager A.State
  unfolding return_allocated
  deallocate_on_failure d sec_ips [] m = m
  deallocate_on_failure d sec_ips (s ∷ ss) m = return_allocated d.ip_pool ss (
      return_secondary A net rest sec_ips d.sip_pools s.ident_ipam
        (return_allocated d.ip_pool (s ∷ []) m))

  unfoldable pub return_for_pairs :
      ℕ → String → Assoc LbServicePairEntry → Manager A.State → Manager A.State
  return_for_pairs i ip [] m = m
  return_for_pairs i ip ((k, sp) ∷ sps) m =
      return_for_pairs i ip sps (give_back A net rest i ip sp.ident_ipam m)

  -- returnSecondaryIPs, and the loop like it before secondary addresses are replaced.
  unfoldable pub return_sec_ips :
      List String → List ℕ → Assoc LbServicePairEntry → Manager A.State → Manager A.State
  unfolding return_for_pairs
  return_sec_ips [] is sps m = m
  return_sec_ips (ip ∷ ips) [] sps m = m
  return_sec_ips (ip ∷ ips) (i ∷ is) sps m = return_sec_ips ips is sps (return_for_pairs i ip sps m)

  unfoldable pub replace_secondary :
      Desired
      → String
      → LbCacheEntry
      → Manager A.State
      → Outcome (List SvcPair × Manager A.State)
      → Outcome LbCacheEntry × Manager A.State
  unfolding return_sec_ips
  replace_secondary d key e m (err t) = (err t, m)
  replace_secondary d key e m panic = (panic, m)
  replace_secondary d key e m (ok (pairs, m')) =
      let e' = record e { sec_ips = map (λ (s : SvcPair). s.ip_string) pairs } in
      (ok e', put key e' (return_sec_ips e.sec_ips d.sip_pools e.lb_service_pairs m'))

  -- The secondary addresses of the entry. Those of the annotation are taken for a new entry only, and
  -- an entry with another number of them gets new ones from the pools.
  unfoldable pub update_secondary :
      Desired
      → Service
      → String
      → Bool
      → LbCacheEntry
      → Manager A.State
      → Outcome LbCacheEntry × Manager A.State
  unfolding return_sec_ips replace_secondary
  update_secondary d svc key added e m =
      if not (is_empty d.sec_ips)
      then if added
        then (ok e, m)
        else (let e' = record e { sec_ips = d.sec_ips } in
            (ok e', put key e' (return_sec_ips e.sec_ips e.sip_pools e.lb_service_pairs m)))
      else if length e.sec_ips == d.num_secondary
      then (ok e, m)
      else replace_secondary d key e m (get_ingress_sec_svc_pairs A net svc d.num_secondary e m)

  -- Whether the number of secondary addresses asks for an update.
  abbrev pub secondary_differ : Desired → LbCacheEntry → Bool
  secondary_differ d e = is_empty d.sec_ips && not (length e.sec_ips == d.num_secondary)
