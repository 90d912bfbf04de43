-- ===== src/Lb/Add/Failure.antt =====
-- What addLoadBalancer leaves behind when the rules of a new service cannot be installed.
use kube_loxilb.Base.{
  Bool, List, String, [], ap, arith, false, get_elem?, get_elem?-set, none, refl, set, set-get,
  set-set, some, subst, sym, true, ℕ, ◌+◌, ◌||◌, ◌∙◌, ◌∷◌, ◌≡◌,
}
use kube_loxilb.Base.Int.{to_u32}
use kube_loxilb.Base.Outcome.{Outcome, err, ok, panic}
use kube_loxilb.Config.{NetworkConfig}
use kube_loxilb.IpPool.{IpPool, contains, get_new_ip_addr, return_ip_addr}
use kube_loxilb.IpPool.Reserve.{AllocatorLaws, return_ip_addr-get_new_ip_addr}
use kube_loxilb.K8s.{Cluster}
use kube_loxilb.Lb.Add.{StatusApi, put}
use kube_loxilb.Lb.Add.Install.{Installed, conclude, install_pairs, install_service}
use kube_loxilb.Lb.Add.PoolLaws.{deallocate-new_pairs, install_pairs-pools}
use kube_loxilb.Lb.Add.Secondary.{update_secondary}
use kube_loxilb.Lb.Add.Sync.{add_entry, add_with_pairs, refresh_service, service_pairs}
use kube_loxilb.Lb.Cache.{apply_settings, new_entry, pairs_missing, zone_inst_of}
use kube_loxilb.Lb.Cache.Flags.{update_settings_lem}
use kube_loxilb.Lb.Desired.{Desired}
use kube_loxilb.Lb.Pairs.{
  get_ingress_svc_pairs, get_lb_ingress_svc_pairs, get_service_private_ip, new_pair,
}
use kube_loxilb.Lb.Pairs.Laws.{later_pairs, new_pairs_shared_ip}
use kube_loxilb.Lb.Types.{
  Ingress, LbCacheEntry, Manager, Rest, Service, ServicePort, SvcPair, gen_key,
}
use kube_loxilb.Net.{Allocator, IpAddr, Net}
use kube_loxilb.Text.{to_lower}

module _ (A : Allocator) (net : Net) (rest : Rest) (config : NetworkConfig) where
  -- The pool behind an index is the only one that may differ, and it holds what the pool before held.
  abbrev pub HoldsAsBefore :
      AllocatorLaws A net → ℕ → IpPool A.State → Manager A.State → Manager A.State → Type 0
  HoldsAsBefore laws i p m m' =
      (p' : IpPool A.State) × ((m'.pools ≡ set m.pools i p')
        × ((c ident x : String)
            → laws.in_use p'.ip_alloc c ident x ≡ laws.in_use p.ip_alloc c ident x))

  module _ (laws : AllocatorLaws A net) (cluster : Cluster) (api : StatusApi) (d : Desired)
      (svc : Service) (q : ServicePort) (qs : List ServicePort) (p p' : IpPool A.State)
      (ip : IpAddr) (ident : String) (no_secondary : d.sec_ips ≡ [])
      (none_asked : d.num_secondary ≡ 0) (ports : svc.ports ≡ q ∷ qs)
      (no_address : get_lb_ingress_svc_pairs net config svc ≡ [])
      (allocated : get_new_ip_addr A net p (to_u32 q.port) (to_lower q.protocol)
        ≡ ((some ip, ident), p'))
      (parsed : net.parse_ip (net.ip_string ip) ≡ some ip) (inside : contains net p ip ≡ true) where
    -- The pairs of the service: the first port has the new address, and the later ones share it.
    abbrev service_pairs_made : List SvcPair
    service_pairs_made = new_pair A net q ip ident true ∷ later_pairs A net p' ip qs

    concluded :
        (m m₁ : Manager A.State) (x : Installed A net rest) (t : String)
        → get_elem? m.pools d.ip_pool ≡ some p
        → x.1.pools ≡ set m.pools d.ip_pool p'
        → (conclude A net rest config api d [] service_pairs_made x).0 ≡ err t
        → HoldsAsBefore laws d.ip_pool p m
            (conclude A net rest config api d [] service_pairs_made x).1
    unfolding conclude
    concluded m m₁ (ok e, m') t found same h = absurd (ground arith)
    concluded m m₁ (panic, m') t found same h = absurd (ground arith)
    concluded m m₁ (err u, m') t found same h = (
      return_ip_addr A net p' (net.ip_string ip) ident,
      (
        deallocate-new_pairs A net rest config d p p' ip ident q qs m' now
            ∙ ap (λ ps. set ps d.ip_pool (return_ip_addr A net p' (net.ip_string ip) ident)) same
            ∙ set-set m.pools d.ip_pool p' (return_ip_addr A net p' (net.ip_string ip) ident),
        return_ip_addr-get_new_ip_addr A net laws p p' (to_u32 q.port) (to_lower q.protocol) ip
            ident allocated parsed inside,
      ),
    )
      where
        now : get_elem? m'.pools d.ip_pool ≡ some p'
        now =
            subst (λ ps. get_elem? ps d.ip_pool ≡ some p') (sym same)
              (get_elem?-set m.pools d.ip_pool p p' found)

    made_pairs :
        (e : LbCacheEntry) (m : Manager A.State)
        → get_elem? m.pools e.ip_pool ≡ some p
        → e.lb_service_pairs ≡ []
        → service_pairs A net rest config svc e m
          ≡ ok (service_pairs_made, record m { pools = set m.pools e.ip_pool p' })
    unfolding service_pairs get_ingress_svc_pairs
    made_pairs e m found fresh =
        rw
          (
            service_pairs,
            found,
            get_ingress_svc_pairs,
            no_address,
            fresh,
            ports,
            new_pairs_shared_ip A net p q qs ip ident p' allocated,
          )
          refl

    no_update_secondary :
        (key : String) (e : LbCacheEntry) (m : Manager A.State)
        → e.sec_ips ≡ []
        → update_secondary A net rest d svc key false e m ≡ (ok e, m)
    unfolding update_secondary
    no_update_secondary key e m none_yet = rw (no_secondary, none_yet, none_asked) refl

    refresh_new :
        (e : LbCacheEntry) (ips : List String) (m : Manager A.State) (differ : Bool)
        → let key = gen_key svc.namespace svc.name in
          refresh_service A net rest config cluster api d svc false
            (true || differ, false)
            ips
            service_pairs_made
            (ok e, m)
          ≡ conclude A net rest config api d e.sec_ips service_pairs_made (
              install_pairs A net rest config cluster d svc key ips
                (get_service_private_ip net config svc)
                service_pairs_made
                e
                (put key e m))
    unfolding refresh_service install_service
    refresh_new e ips m differ = refl

    abbrev Returned : Manager A.State → Outcome (List (List Ingress)) × Manager A.State → Type 0
    Returned m₀ r = (t : String) → r.0 ≡ err t → HoldsAsBefore laws d.ip_pool p m₀ r.1

    refreshed :
        (e : LbCacheEntry) (ips : List String) (m m₀ : Manager A.State) (differ : Bool)
        → e.sec_ips ≡ []
        → get_elem? m₀.pools d.ip_pool ≡ some p
        → m.pools ≡ set m₀.pools d.ip_pool p'
        → Returned m₀ (
            refresh_service A net rest config cluster api d svc false
              (true || differ, false)
              ips
              service_pairs_made
              (update_secondary A net rest d svc (gen_key svc.namespace svc.name) false e m))
    refreshed e ips m m₀ differ none_yet found same =
        let key = gen_key svc.namespace svc.name in
        let private = get_service_private_ip net config svc in
        let x =
          install_pairs A net rest config cluster d svc key ips private service_pairs_made e
            (put key e m) in
        subst
          (λ u. Returned m₀ (
            refresh_service A net rest config cluster api d svc false (true || differ, false) ips
              service_pairs_made u))
          (sym (no_update_secondary key e m none_yet))
          (subst (Returned m₀)
            (sym (
              refresh_new e ips m differ
              ∙ ap (λ secs. conclude A net rest config api d secs service_pairs_made x) none_yet))
            (λ t. concluded m₀ m x t found (
              install_pairs-pools A net rest config cluster d svc key ips private service_pairs_made
                e (put key e m)
              ∙ same)))

    -- For a new service without an address and without secondary addresses, whose first port is given an
    -- address of the pool: if addLoadBalancer then ends with an error, whichever it is, the pool holds
    -- the addresses that it held before, under the same identifiers, and no other pool differs.
    pub add_entry_failed :
        (m : Manager A.State) (ips : List String)
        → get_elem? m.pools d.ip_pool ≡ some p
        → let (r, m') = add_entry A net rest config cluster api d svc m (ok ips) none in
          (t : String) → r ≡ err t → HoldsAsBefore laws d.ip_pool p m m'
    unfolding add_entry
    add_entry_failed m [] found t h = (p, (set-get m.pools d.ip_pool p found, λ c i x. refl))
    add_entry_failed m (i ∷ ips) found t h =
        let e = new_entry d (zone_inst_of config m.zone_inst_sel_hint d) in
        let key = gen_key svc.namespace svc.name in
        let m₁ = record (put key e m) { zone_inst_sel_hint = m.zone_inst_sel_hint + 1 } in
        subst
          (λ o.
            Returned m (add_with_pairs A net rest config cluster api d svc false (i ∷ ips) e m₁ o))
          (sym (made_pairs e m₁ (unfold new_entry in found) (unfold new_entry in refl)))
          (unfold add_with_pairs pairs_missing new_entry in
            rw (update_settings_lem d false e) (
              refreshed (apply_settings d e) (i ∷ ips)
                (put key (apply_settings d e) (record m₁ { pools = set m.pools d.ip_pool p' })) m
                false (unfold apply_settings new_entry in refl) found refl))
          t h
