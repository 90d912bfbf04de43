-- ===== src/Lb/Pairs/Laws.antt =====
-- The allocation of an address for a service with several ports.
use kube_loxilb.Base.{
  List, String, [], arith, eq_iff, false, none, refl, some, true, ◌∙◌, ◌∷◌, ◌≡◌, ◌≢◌,
}
use kube_loxilb.Base.Int.{to_u32}
use kube_loxilb.Base.Outcome.{ok}
use kube_loxilb.IpPool.{IpPool, get_new_ip_addr, ipam_ident}
use kube_loxilb.IpPool.Reserve.{AllocatorLaws, Got, get_new_ip_addr-Got, got, kept_before}
use kube_loxilb.Lb.Pairs.{new_pair, new_pairs}
use kube_loxilb.Lb.Types.{ServicePort, SvcPair}
use kube_loxilb.Net.{Allocator, IpAddr, Net}
use kube_loxilb.Text.{to_lower}

module _ (A : Allocator) (net : Net) where
  -- The pairs of the ports after the first.
  abbrev pub later_pairs : IpPool A.State → IpAddr → List ServicePort → List SvcPair
  later_pairs p ip [] = []
  later_pairs p ip (q ∷ qs) =
      new_pair A net q ip (ipam_ident A net p (to_u32 q.port) (to_lower q.protocol)) false
      ∷ later_pairs p ip qs

  new_pairs_reuse :
      (p : IpPool A.State) (ip : IpAddr) (ports : List ServicePort)
      → new_pairs A net [] (some ip) p ports ≡ ok (later_pairs p ip ports, p)
  unfolding new_pairs
  new_pairs_reuse p ip [] = refl
  new_pairs_reuse p ip (q ∷ qs) = rw (new_pairs_reuse p ip qs)

  pub new_pairs_shared_ip :
      (p : IpPool A.State) (q : ServicePort) (qs : List ServicePort) (ip : IpAddr) (ident : String)
      (p' : IpPool A.State)
      → get_new_ip_addr A net p (to_u32 q.port) (to_lower q.protocol) ≡ ((some ip, ident), p')
      → new_pairs A net [] none p (q ∷ qs)
        ≡ ok (new_pair A net q ip ident true ∷ later_pairs p' ip qs, p')
  unfolding new_pairs
  new_pairs_shared_ip p q qs ip ident p' h = ground (arith, h, new_pairs_reuse p' ip qs)

  module _ (laws : AllocatorLaws A net) where
    taken_under :
        (p p' : IpPool A.State) (ip : IpAddr) (ident c i x : String)
        → Got A net p ip ident p'
        → i ≢ ident
        → laws.in_use p'.ip_alloc c i x ≡ laws.in_use p.ip_alloc c i x
    taken_under p p' ip ident c i x (got st before e same) ne =
        (laws.allocate_some st p'.ip_alloc p.cidr ident ip e).1 c i x
        ∙ ground (arith, eq_iff ident i, ne)
        ∙ kept_before A net laws p st before c i x

    -- For a service without an address and without cached pairs: when the allocation for the first
    -- port gives an address, all ports of the service get that address, the pool is left as this
    -- one allocation leaves it, and under any identifier other than the first port's the allocator
    -- holds what it held before.
    pub new_pairs_one_allocation :
        (p : IpPool A.State) (q : ServicePort) (qs : List ServicePort) (ip : IpAddr)
        (ident : String) (p' : IpPool A.State)
        → get_new_ip_addr A net p (to_u32 q.port) (to_lower q.protocol) ≡ ((some ip, ident), p')
        → (new_pairs A net [] none p (q ∷ qs)
            ≡ ok (new_pair A net q ip ident true ∷ later_pairs p' ip qs, p'))
          × ((c i x : String)
              → i ≢ ident
              → laws.in_use p'.ip_alloc c i x ≡ laws.in_use p.ip_alloc c i x)
    new_pairs_one_allocation p q qs ip ident p' h = (
      new_pairs_shared_ip p q qs ip ident p' h,
      λ c i x.
          taken_under p p' ip ident c i x
            (get_new_ip_addr-Got A net p p' (to_u32 q.port) (to_lower q.protocol) ip ident h),
    )
