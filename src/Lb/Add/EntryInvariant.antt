-- ===== src/Lb/Add/EntryInvariant.antt =====
-- The invariant of the cache along the parts of addLoadBalancer that handle one entry.
use kube_loxilb.Api.LbModel.{ep_select_eq}
use kube_loxilb.Base.{
  Bool, Bool-cases, List, Option-cases, String, [], ap, arith, bool_eq, false, get_elem?, inl, inr,
  is_empty, length, ltb, map, nat_eq, refl, set, string_eq, subst, suc, sym, zero, ℕ, ◌==◌, ◌||◌,
  ◌∙◌, ◌∷◌, ◌≡◌,
}
use kube_loxilb.Base.Assoc.{lookup}
use kube_loxilb.Base.Int.{int_eq}
use kube_loxilb.Base.Outcome.{Outcome, err, ok, panic, ◌>>=◌}
use kube_loxilb.Config.{NetworkConfig}
use kube_loxilb.IpPool.{IpPool}
use kube_loxilb.K8s.{Cluster}
use kube_loxilb.Lb.Add.{StatusApi, put, remove_endpoints, wrap}
use kube_loxilb.Lb.Add.Install.{Installed}
use kube_loxilb.Lb.Add.Invariant.{
  CacheFits-same, deallocate_on_failure-lb_cache, deleted-lb_cache, install_service-CacheFits,
  return_sec_ips-lb_cache,
}
use kube_loxilb.Lb.Add.Secondary.{
  cached_sec_ips, deallocate_on_failure, replace_secondary, return_sec_ips, update_secondary,
}
use kube_loxilb.Lb.Add.Sync.{
  add_with_pairs, refresh_service, service_pairs, without_service_endpoints,
}
use kube_loxilb.Lb.Add.Wellformed.{CacheFits, CacheFits-put, EntryFits, EntryFits-remove_endpoints}
use kube_loxilb.Lb.Cache.{apply_settings}
use kube_loxilb.Lb.Cache.Flags.{update_settings_lem}
use kube_loxilb.Lb.Delete.{delete_load_balancer}
use kube_loxilb.Lb.Desired.{Desired}
use kube_loxilb.Lb.Pairs.{get_ingress_svc_pairs}
use kube_loxilb.Lb.Secondary.{get_ingress_sec_svc_pairs, sec_pairs}
use kube_loxilb.Lb.Secondary.Count.{get_ingress_sec_svc_pairs-Gives}
use kube_loxilb.Lb.Types.{
  Ingress, LbCacheEntry, Manager, Rest, Service, ServicePort, SvcPair, gen_key,
}
use kube_loxilb.Lb.Updates.{check_update_endpoints, check_update_external_ip}
use kube_loxilb.Net.{Allocator, Net}

module _ (A : Allocator) (net : Net) where
  some_manager : (r s : List SvcPair × Manager A.State) → ok r ≡ ok s → r.1.lb_cache ≡ s.1.lb_cache
  some_manager r s h = cc

  secondary-lb_cache :
      (svc : Service) (n : ℕ) (e : LbCacheEntry) (m : Manager A.State)
      (r : List SvcPair × Manager A.State)
      → get_ingress_sec_svc_pairs A net svc n e m ≡ ok r
      → r.1.lb_cache ≡ m.lb_cache
  unfolding sec_pairs get_ingress_sec_svc_pairs
  secondary-lb_cache svc n e m r h = without_ports svc.ports refl
    where
      no_port : (is : List ℕ) (n : ℕ) → sec_pairs A net [] is n m ≡ ok r → m.lb_cache ≡ r.1.lb_cache
      no_port [] zero h = some_manager ([], m) r h
      no_port (i ∷ is) zero h = some_manager ([], m) r h
      no_port [] (suc n) h = some_manager ([], m) r h
      no_port (i ∷ is) (suc n) h = some_manager ([], m) r h

      without_ports : (qs : List ServicePort) → svc.ports ≡ qs → r.1.lb_cache ≡ m.lb_cache
      without_ports [] ports = elim (Bool-cases (ltb (length e.sip_pools) n)) [
        | inl few ↦ absurd (ground (arith, h, few))
        | inr enough ↦ sym (no_port e.sip_pools n (rw (enough, ports) at h))
      ]
      without_ports (q ∷ qs) ports =
          let (_, (_, _, same, _), _) =
            get_ingress_sec_svc_pairs-Gives A net q qs svc n e m r ports h in
          ap (λ (m' : Manager A.State). m'.lb_cache) same

  pub service_pairs-lb_cache :
      (rest : Rest) (config : NetworkConfig) (svc : Service) (e : LbCacheEntry)
      (m : Manager A.State) (r : List SvcPair × Manager A.State)
      → service_pairs A net rest config svc e m ≡ ok r
      → r.1.lb_cache ≡ m.lb_cache
  unfolding service_pairs
  service_pairs-lb_cache rest config svc e m r h =
      elim (Option-cases (get_elem? m.pools e.ip_pool)) [
        | inl q ↦ absurd (ground (arith, h, q))
        | inr (p, q) ↦ ran (get_ingress_svc_pairs A net config svc e p) (rw (service_pairs, q) at h)
      ]
    where
      ran :
          (o : Outcome ((List SvcPair × Bool) × IpPool A.State))
          → (o >>= λ x. ok (x.0.0, record m { pools = set m.pools e.ip_pool x.1 })) ≡ ok r
          → r.1.lb_cache ≡ m.lb_cache
      ran (ok x) k = sym (some_manager (x.0.0, record m { pools = set m.pools e.ip_pool x.1 }) r k)
      ran (err t) k = absurd (ground (arith, k))
      ran panic k = absurd (ground (arith, k))

module _ (A : Allocator) (net : Net) (rest : Rest) (config : NetworkConfig) where
  -- An entry that is passed on fits, and so does the cache.
  abbrev Fits : Installed A net rest → Type 0
  Fits x = CacheFits x.1 × ((e : LbCacheEntry) → x.0 ≡ ok e → EntryFits "" e)

  Fits-ok : (e : LbCacheEntry) (m : Manager A.State) → EntryFits "" e → CacheFits m → Fits (ok e, m)
  Fits-ok e m fit fits = (fits, λ e' same. subst (EntryFits "") (same_entry e e' same) fit)
    where
      same_entry : (e e' : LbCacheEntry) → ok e ≡ ok e' → e ≡ e'
      same_entry e e' same = cc

  replace_secondary-Fits :
      (d : Desired) (key : String) (e : LbCacheEntry) (m : Manager A.State)
      (o : Outcome (List SvcPair × Manager A.State))
      → EntryFits "" e
      → CacheFits m
      → ((r : List SvcPair × Manager A.State) → o ≡ ok r → r.1.lb_cache ≡ m.lb_cache)
      → Fits (replace_secondary A net rest d key e m o)
  unfolding replace_secondary
  replace_secondary-Fits d key e m (err t) fit fits same = (fits, λ e' h. absurd (ground arith))
  replace_secondary-Fits d key e m panic fit fits same = (fits, λ e' h. absurd (ground arith))
  replace_secondary-Fits d key e m (ok (pairs, m')) fit fits same =
      let e' = record e { sec_ips = map (λ (s : SvcPair). s.ip_string) pairs } in
      let m'' = return_sec_ips A net rest e.sec_ips d.sip_pools e.lb_service_pairs m' in
      let kept =
        return_sec_ips-lb_cache A net rest config e.sec_ips d.sip_pools e.lb_service_pairs m'
        ∙ same (pairs, m') refl in
      Fits-ok e' (put key e' m'') fit
        (CacheFits-put key e' m'' fit (CacheFits-same A net rest config m m'' kept fits))

  update_secondary-Fits :
      (d : Desired) (svc : Service) (key : String) (added : Bool) (e : LbCacheEntry)
      (m : Manager A.State)
      → EntryFits "" e
      → CacheFits m
      → Fits (update_secondary A net rest d svc key added e m)
  unfolding update_secondary
  update_secondary-Fits d svc key added e m fit fits = elim (Bool-cases (is_empty d.sec_ips)) [
    | inl none_given ↦ elim (Bool-cases (length e.sec_ips == d.num_secondary)) [
      | inl enough ↦ rw (none_given, enough) (Fits-ok e m fit fits)
      | inr other ↦
          rw (none_given, other)
            (replace_secondary-Fits d key e m _ fit fits
              (secondary-lb_cache A net svc d.num_secondary e m))
    ]
    | inr given ↦ elim (Bool-cases added) [
      | inl old ↦ rw (given, old) (Fits-ok e m fit fits)
      | inr new ↦
          let e' = record e { sec_ips = d.sec_ips } in
          let m' = return_sec_ips A net rest e.sec_ips e.sip_pools e.lb_service_pairs m in
          let kept =
            return_sec_ips-lb_cache A net rest config e.sec_ips e.sip_pools e.lb_service_pairs m in
          rw (given, new)
            (Fits-ok e' (put key e' m') fit
              (CacheFits-put key e' m' fit (CacheFits-same A net rest config m m' kept fits)))
    ]
  ]

  refresh_service-CacheFits :
      (cluster : Cluster) (api : StatusApi) (d : Desired) (svc : Service) (added : Bool)
      (flags : Bool × Bool) (ips : List String) (pairs : List SvcPair) (x : Installed A net rest)
      → Fits x
      → CacheFits (refresh_service A net rest config cluster api d svc added flags ips pairs x).1
  unfolding refresh_service
  refresh_service-CacheFits cluster api d svc added (update, need_delete) ips pairs (err t, m)
        fits =
      let secs = cached_sec_ips (lookup (gen_key svc.namespace svc.name) m.lb_cache) in
      CacheFits-same A net rest config m (deallocate_on_failure A net rest d secs pairs m)
        (deallocate_on_failure-lb_cache A net rest config d secs pairs m) fits.0
  refresh_service-CacheFits cluster api d svc added (update, need_delete) ips pairs (panic, m)
        fits =
      fits.0
  refresh_service-CacheFits cluster api d svc added (update, need_delete) ips pairs (ok e, m) fits =
      elim (Bool-cases (
        update
        || (check_update_endpoints cluster e.lb_service_pairs ips d.use_external_endpoint
            || check_update_external_ip net config m.loxi_inst_addr_map pairs svc.ingress))) [
              | inl due ↦ rw due (
                  install_service-CacheFits A net rest config cluster api d svc added need_delete
                    ips pairs e m (fits.1 e refl) fits.0)
              | inr current ↦ rw current fits.0
            ]

  pub add_with_pairs-CacheFits :
      (cluster : Cluster) (api : StatusApi) (d : Desired) (svc : Service) (added : Bool)
      (ips : List String) (e : LbCacheEntry) (m : Manager A.State)
      (o : Outcome (List SvcPair × Manager A.State))
      → EntryFits "" e
      → CacheFits m
      → ((r : List SvcPair × Manager A.State) → o ≡ ok r → r.1.lb_cache ≡ m.lb_cache)
      → CacheFits (add_with_pairs A net rest config cluster api d svc added ips e m o).1
  unfolding add_with_pairs
  add_with_pairs-CacheFits cluster api d svc added ips e m (err t) fit fits same = fits
  add_with_pairs-CacheFits cluster api d svc added ips e m panic fit fits same = fits
  add_with_pairs-CacheFits cluster api d svc added ips e m (ok (pairs, m₁)) fit fits same =
      let key = gen_key svc.namespace svc.name in
      let e₁ = apply_settings d e in
      let fit₁ : EntryFits "" e₁ = unfold apply_settings in fit in
      rw (update_settings_lem d added e) (
        refresh_service-CacheFits cluster api d svc added _ ips pairs
          (update_secondary A net rest d svc key added e₁ (put key e₁ m₁))
          (update_secondary-Fits d svc key added e₁ (put key e₁ m₁) fit₁ (
            CacheFits-put key e₁ m₁ fit₁
              (CacheFits-same A net rest config m m₁ (same (pairs, m₁) refl) fits))))

  pub without_service_endpoints-CacheFits :
      (svc : Service) (e : LbCacheEntry) (m : Manager A.State)
      → EntryFits "" e
      → CacheFits m
      → CacheFits (without_service_endpoints A net rest config svc e m).1
  unfolding without_service_endpoints
  without_service_endpoints-CacheFits svc e m fit fits =
      by_result (delete_load_balancer A net rest config svc.namespace svc.name false m).0
    where
      m' : Manager A.State
      m' = (delete_load_balancer A net rest config svc.namespace svc.name false m).1

      fits' : CacheFits m'
      fits' =
          CacheFits-same A net rest config m m'
            (deleted-lb_cache A net rest config svc.namespace svc.name m) fits

      e' : LbCacheEntry
      e' = record e { lb_service_pairs = remove_endpoints e.lb_service_pairs }

      by_result :
          (r : Outcome (Unit {0}))
          → CacheFits
              (elim r as (λ _. Outcome (List (List Ingress)) × Manager A.State) [
                | ok _ ↦ (ok [], put (gen_key svc.namespace svc.name) e' m')
                | err t ↦ (err (wrap t "deleteLoadBalancer return error"), m')
                | panic ↦ (panic, m')
              ]).1
      by_result (ok _) =
          CacheFits-put (gen_key svc.namespace svc.name) e' m' (EntryFits-remove_endpoints "" e fit)
            fits'
      by_result (err t) = fits'
      by_result panic = fits'
