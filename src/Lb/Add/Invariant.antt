-- ===== src/Lb/Add/Invariant.antt =====
-- syncLoadBalancer keeps the cache well formed.
use kube_loxilb.Api.Client.{LoxiClient}
use kube_loxilb.Api.LbModel.{LbModel}
use kube_loxilb.Base.{
  Bool, Bool-cases, List, Option, String, [], ap, false, if◌then◌else◌, inl, inr, map, none, refl,
  some, subst, sym, ℕ, ◌&&◌, ◌∙◌, ◌∷◌, ◌≡◌,
}
use kube_loxilb.Base.Assoc.{Assoc}
use kube_loxilb.Base.Outcome.{Outcome, err, ok, panic}
use kube_loxilb.Config.{NetworkConfig}
use kube_loxilb.K8s.{Cluster}
use kube_loxilb.Lb.Add.{StatusApi, add_pair, adopt, installed_pair, lb_args, put}
use kube_loxilb.Lb.Add.Install.{
  Installed, conclude, if_made, if_taken, install_pairs, install_service,
}
use kube_loxilb.Lb.Add.Secondary.{
  deallocate_on_failure, return_allocated, return_for_pairs, return_sec_ips,
}
use kube_loxilb.Lb.Add.Wellformed.{
  CacheFits, CacheFits-put, EntryFits, EntryFits-add_pair, EntryFits-empty, Every,
  make_model-external_ip,
}
use kube_loxilb.Lb.Delete.{delete_load_balancer}
use kube_loxilb.Lb.Delete.Laws.{
  delete_load_balancer_keeps, give_back-lb_cache, return_secondary-lb_cache,
}
use kube_loxilb.Lb.Desired.{Desired}
use kube_loxilb.Lb.Model.{install_all, install_lb, make_loxi_lb_model, send}
use kube_loxilb.Lb.Pairs.{get_service_private_ip}
use kube_loxilb.Lb.Types.{
  LbCacheEntry, LbServicePairEntry, Manager, Rest, Service, SvcPair, gen_key,
}
use kube_loxilb.Net.{Allocator, Net}

module _ {S : Type 0} (rest : Rest) where
  pub install_all-lb_cache :
      (cs : List LoxiClient) (lb : LbModel) (pl : Bool) (m : Manager S)
      → (install_all rest cs lb pl m).1.lb_cache ≡ m.lb_cache
  unfolding install_all install_lb send
  install_all-lb_cache [] lb pl m = refl
  install_all-lb_cache (c ∷ cs) lb pl m =
      install_all-lb_cache cs lb pl (install_lb rest c lb pl m).1

module _ (A : Allocator) (net : Net) (rest : Rest) (config : NetworkConfig) where
  return_allocated-lb_cache :
      (i : ℕ) (ss : List SvcPair) (m : Manager A.State)
      → (return_allocated A net rest i ss m).lb_cache ≡ m.lb_cache
  unfolding return_allocated
  return_allocated-lb_cache i [] m = refl
  return_allocated-lb_cache i (s ∷ ss) m = elim (Bool-cases (s.in_range && s.ip_allocd)) [
    | inl e ↦
        return_allocated-lb_cache i ss _
        ∙ rw e (give_back-lb_cache A net rest config i s.ip_string s.ident_ipam m)
    | inr e ↦ return_allocated-lb_cache i ss _ ∙ rw e
  ]

  pub deallocate_on_failure-lb_cache :
      (d : Desired) (sec_ips : List String) (ss : List SvcPair) (m : Manager A.State)
      → (deallocate_on_failure A net rest d sec_ips ss m).lb_cache ≡ m.lb_cache
  unfolding deallocate_on_failure
  deallocate_on_failure-lb_cache d sec_ips [] m = refl
  deallocate_on_failure-lb_cache d sec_ips (s ∷ ss) m =
      return_allocated-lb_cache d.ip_pool ss _
      ∙ return_secondary-lb_cache A net rest config sec_ips d.sip_pools s.ident_ipam _
      ∙ return_allocated-lb_cache d.ip_pool (s ∷ []) m

  return_for_pairs-lb_cache :
      (i : ℕ) (ip : String) (sps : Assoc LbServicePairEntry) (m : Manager A.State)
      → (return_for_pairs A net rest i ip sps m).lb_cache ≡ m.lb_cache
  unfolding return_for_pairs
  return_for_pairs-lb_cache i ip [] m = refl
  return_for_pairs-lb_cache i ip ((k, sp) ∷ sps) m =
      return_for_pairs-lb_cache i ip sps _
      ∙ give_back-lb_cache A net rest config i ip sp.ident_ipam m

  pub return_sec_ips-lb_cache :
      (ips : List String) (is : List ℕ) (sps : Assoc LbServicePairEntry) (m : Manager A.State)
      → (return_sec_ips A net rest ips is sps m).lb_cache ≡ m.lb_cache
  unfolding return_sec_ips
  return_sec_ips-lb_cache [] is sps m = refl
  return_sec_ips-lb_cache (ip ∷ ips) [] sps m = refl
  return_sec_ips-lb_cache (ip ∷ ips) (i ∷ is) sps m =
      return_sec_ips-lb_cache ips is sps _ ∙ return_for_pairs-lb_cache i ip sps m

  if_made-lem :
      (P : Installed A net rest → Type 0) (o : Outcome LbModel)
      (next : LbModel → Installed A net rest) (m : Manager A.State)
      → ((r : Outcome LbCacheEntry) → P (r, m))
      → ((lb : LbModel) → o ≡ ok lb → P (next lb))
      → P (if_made A net rest o next m)
  unfolding if_made
  if_made-lem P (err t) next m kept f = kept _
  if_made-lem P panic next m kept f = kept _
  if_made-lem P (ok lb) next m kept f = f lb refl

  if_taken-lem :
      (P : Installed A net rest → Type 0) (s : SvcPair) (o : Option String)
      (next : Installed A net rest) (m : Manager A.State)
      → ((r : Outcome LbCacheEntry) → P (r, m))
      → P next
      → P (if_taken A net rest s o next m)
  unfolding if_taken
  if_taken-lem P s (some t) next m kept f = kept _
  if_taken-lem P s none next m kept f = f

  pub CacheFits-same :
      (m m' : Manager A.State) → m'.lb_cache ≡ m.lb_cache → CacheFits m → CacheFits m'
  CacheFits-same m m' same fits = subst (λ c. Every EntryFits c) (sym same) fits

  -- One round of the loop: what holds if it stops before or after the requests, and of the later
  -- rounds, holds of it.
  pub install_pairs_round :
      (P : Installed A net rest → Type 0) (cluster : Cluster) (d : Desired) (svc : Service)
      (key : String) (ips : List String) (private : String) (s : SvcPair) (ss : List SvcPair)
      (e : LbCacheEntry) (m : Manager A.State)
      → ((r : Outcome LbCacheEntry) → P (r, m))
      → ((lb : LbModel)
          → make_loxi_lb_model net config cluster (lb_args d e ips private s) svc s.svc_port ≡ ok lb
          → let m' = (install_all rest m.clients lb e.pref_local m).1 in
            let e' = add_pair (installed_pair s lb) e in
            ((r : Outcome LbCacheEntry) → P (r, m'))
            × P (
                install_pairs A net rest config cluster d svc key ips private ss e'
                  (put key e' m')))
      → P (install_pairs A net rest config cluster d svc key ips private (s ∷ ss) e m)
  unfolding install_pairs
  install_pairs_round P cluster d svc key ips private s ss e m stopped made =
      if_made-lem P _ _ m stopped (λ lb h. if_taken-lem P s _ _ _ (made lb h).0 (made lb h).1)

  install_pairs-CacheFits :
      (cluster : Cluster) (d : Desired) (svc : Service) (key : String) (ips : List String)
      (private : String) (ss : List SvcPair) (e : LbCacheEntry) (m : Manager A.State)
      → EntryFits key e
      → CacheFits m
      → CacheFits (install_pairs A net rest config cluster d svc key ips private ss e m).1
  unfolding install_pairs
  install_pairs-CacheFits cluster d svc key ips private [] e m fit fits = fits
  install_pairs-CacheFits cluster d svc key ips private (s ∷ ss) e m fit fits =
      install_pairs_round (λ r. CacheFits r.1) cluster d svc key ips private s ss e m (λ _. fits)
        (λ lb made.
          let m' = (install_all rest m.clients lb e.pref_local m).1 in
          let fits' =
            CacheFits-same m m' (install_all-lb_cache rest m.clients lb e.pref_local m) fits in
          let own =
            make_model-external_ip net config cluster (lb_args d e ips private s) svc s.svc_port lb
              made in
          let e' = add_pair (installed_pair s lb) e in
          let fit' = EntryFits-add_pair key (installed_pair s lb) e (lb, (refl, own)) fit in
          (
            λ _. fits',
            install_pairs-CacheFits cluster d svc key ips private ss e' (put key e' m') fit'
                (CacheFits-put key e' m' fit' fits'),
          ))

  conclude-lb_cache :
      (api : StatusApi) (d : Desired) (sec_ips : List String) (pairs : List SvcPair)
      (x : Installed A net rest)
      → (conclude A net rest config api d sec_ips pairs x).1.lb_cache ≡ x.1.lb_cache
  unfolding conclude
  conclude-lb_cache api d sec_ips pairs (ok e, m) = refl
  conclude-lb_cache api d sec_ips pairs (err t, m) =
      deallocate_on_failure-lb_cache d sec_ips pairs m
  conclude-lb_cache api d sec_ips pairs (panic, m) = refl

  pub deleted-lb_cache :
      (ns name : String) (m : Manager A.State)
      → (delete_load_balancer A net rest config ns name false m).1.lb_cache ≡ m.lb_cache
  deleted-lb_cache ns name m =
      ap (λ (n : Manager A.State). n.lb_cache)
        (delete_load_balancer_keeps A net rest config ns name false m (inl refl))

  pub install_service-CacheFits :
      (cluster : Cluster) (api : StatusApi) (d : Desired) (svc : Service) (added need_delete : Bool)
      (ips : List String) (pairs : List SvcPair) (e : LbCacheEntry) (m : Manager A.State)
      → EntryFits (gen_key svc.namespace svc.name) e
      → CacheFits m
      → CacheFits
          (install_service A net rest config cluster api d svc added need_delete ips pairs e m).1
  unfolding install_service
  install_service-CacheFits cluster api d svc added need_delete ips pairs e m fit fits =
      let private = get_service_private_ip net config svc in
      let x =
        install_pairs A net rest config cluster d svc key ips private pairs' e' (put key e' m₁) in
      let y = conclude A net rest config api d e.sec_ips pairs' x in
      CacheFits-same x.1 y.1 (conclude-lb_cache api d e.sec_ips pairs' x) (
        install_pairs-CacheFits cluster d svc key ips private pairs' e' (put key e' m₁) fit'
          (CacheFits-put key e' m₁ fit' (CacheFits-same m m₁ same fits)))
    where
      pairs' : List SvcPair
      pairs' = if added then map (adopt e.lb_service_pairs) pairs else pairs

      key : String
      key = gen_key svc.namespace svc.name

      m₁ : Manager A.State
      m₁ =
          if need_delete
          then (delete_load_balancer A net rest config svc.namespace svc.name false m).1
          else m

      e' : LbCacheEntry
      e' = if added then record e { lb_service_pairs = [] } else e

      same : m₁.lb_cache ≡ m.lb_cache
      same = elim (Bool-cases need_delete) [
        | inl h ↦ rw h (deleted-lb_cache svc.namespace svc.name m)
        | inr h ↦ rw h
      ]

      fit' : EntryFits key e'
      fit' = elim (Bool-cases added) [ inl h ↦ rw h (EntryFits-empty key e) | inr h ↦ rw h fit ]
