-- ===== src/Lb/Delete/Laws.antt =====
-- What deleteLoadBalancer does to the cache and to the pools.
use kube_loxilb.Api.Client.{LoxiClient}
use kube_loxilb.Api.LbModel.{LbModel, ep_select_eq}
use kube_loxilb.Base.{
  Bool, Bool-cases, List, Option, String, [], ap, arith, bool_eq, eq_iff, false, get_elem?,
  if◌then◌else◌, inl, inr, nat_eq, none, refl, set, some, string_eq, true, ℕ, ◌==◌, ◌∙◌, ◌∷◌, ◌≡◌,
  ◌≢◌, ◌⊎◌,
}
use kube_loxilb.Base.Assoc.{Assoc, lookup, lookup-remove}
use kube_loxilb.Base.Int.{int_eq}
use kube_loxilb.Base.Outcome.{ok}
use kube_loxilb.Config.{NetworkConfig}
use kube_loxilb.IpPool.{return_ip_addr}
use kube_loxilb.Lb.Delete.{
  delete_entry, delete_load_balancer, finish_delete, give_back, remove_from_all, remove_models,
  remove_pairs, remove_rule, return_pair, return_pairs, return_secondary,
}
use kube_loxilb.Lb.Model.{send}
use kube_loxilb.Lb.Types.{LbCacheEntry, LbServicePairEntry, Manager, Rest, gen_key}
use kube_loxilb.Net.{Allocator, Net}

module _ {S : Type 0} where
  -- Nothing but the log of requests differs.
  abbrev OnlySent : Manager S → Manager S → Type 0
  OnlySent m m' = m' ≡ record m { sent = m'.sent }

  OnlySent-trans : (m₁ m₂ m₃ : Manager S) → OnlySent m₁ m₂ → OnlySent m₂ m₃ → OnlySent m₁ m₃
  OnlySent-trans m₁ m₂ m₃ h k = k ∙ ap (λ (m : Manager S). record m { sent = m₃.sent }) h

module _ (A : Allocator) (net : Net) (rest : Rest) (config : NetworkConfig) where
  remove_rule-OnlySent :
      (c : LoxiClient) (lb : LbModel) (m : Manager A.State)
      → OnlySent m (remove_rule A net rest config c lb m).1
  unfolding remove_rule send
  remove_rule-OnlySent c lb m = elim (Bool-cases config.append_eps) [ inl e ↦ rw e | inr e ↦ rw e ]

  remove_from_all-OnlySent :
      (lb : LbModel) (cs : List LoxiClient) (m : Manager A.State)
      → OnlySent m (remove_from_all A net rest config lb cs m).1
  unfolding remove_from_all
  remove_from_all-OnlySent lb [] m = refl
  remove_from_all-OnlySent lb (c ∷ cs) m =
      OnlySent-trans m _ _ (remove_rule-OnlySent c lb m)
        (remove_from_all-OnlySent lb cs (remove_rule A net rest config c lb m).1)

  remove_models-OnlySent :
      (lbs : List LbModel) (m : Manager A.State)
      → OnlySent m (remove_models A net rest config lbs m).1
  unfolding remove_models
  remove_models-OnlySent [] m = refl
  remove_models-OnlySent (lb ∷ lbs) m =
      OnlySent-trans m _ _ (remove_from_all-OnlySent lb m.clients m)
        (remove_models-OnlySent lbs (remove_from_all A net rest config lb m.clients m).1)

  remove_pairs-OnlySent :
      (sps : Assoc LbServicePairEntry) (m : Manager A.State)
      → OnlySent m (remove_pairs A net rest config sps m).1
  unfolding remove_pairs
  remove_pairs-OnlySent [] m = refl
  remove_pairs-OnlySent ((k, sp) ∷ sps) m =
      OnlySent-trans m _ _ (remove_models-OnlySent sp.lb_model_list m)
        (remove_pairs-OnlySent sps (remove_models A net rest config sp.lb_model_list m).1)

  pub give_back-lb_cache :
      (i : ℕ) (ip ident : String) (m : Manager A.State)
      → (give_back A net rest i ip ident m).lb_cache ≡ m.lb_cache
  give_back-lb_cache i ip ident m =
      elim (get_elem? m.pools i)
        as (λ o.
          (elim o as (λ _. Manager A.State) [
            | none ↦ m
            | some p ↦ record m { pools = set m.pools i (return_ip_addr A net p ip ident) }
          ]).lb_cache
          ≡ m.lb_cache) [ none ↦ refl | some p ↦ refl ]

  pub return_secondary-lb_cache :
      (ips : List String) (is : List ℕ) (ident : String) (m : Manager A.State)
      → (return_secondary A net rest ips is ident m).lb_cache ≡ m.lb_cache
  unfolding return_secondary
  return_secondary-lb_cache [] is ident m = refl
  return_secondary-lb_cache (ip ∷ ips) [] ident m = refl
  return_secondary-lb_cache (ip ∷ ips) (i ∷ is) ident m =
      return_secondary-lb_cache ips is ident (give_back A net rest i ip ident m)
      ∙ give_back-lb_cache i ip ident m

  return_pair-lb_cache :
      (e : LbCacheEntry) (sp : LbServicePairEntry) (m : Manager A.State)
      → (return_pair A net rest e sp m).lb_cache ≡ m.lb_cache
  unfolding return_pair
  return_pair-lb_cache e sp m = elim (Bool-cases sp.in_range) [
    | inl h ↦
        return_secondary-lb_cache e.sec_ips e.sip_pools sp.ident_ipam _
        ∙ rw h (give_back-lb_cache e.ip_pool sp.external_ip sp.ident_ipam m)
    | inr h ↦ return_secondary-lb_cache e.sec_ips e.sip_pools sp.ident_ipam _ ∙ rw h
  ]

  return_pairs-lb_cache :
      (e : LbCacheEntry) (sps : Assoc LbServicePairEntry) (m : Manager A.State)
      → (return_pairs A net rest e sps m).lb_cache ≡ m.lb_cache
  unfolding return_pairs
  return_pairs-lb_cache e [] m = refl
  return_pairs-lb_cache e ((k, sp) ∷ sps) m =
      return_pairs-lb_cache e sps (return_pair A net rest e sp m) ∙ return_pair-lb_cache e sp m

  finish_delete_keeps :
      (release_all : Bool) (key : String) (e : LbCacheEntry) (m : Manager A.State)
      (x : Option String × Manager A.State)
      → OnlySent m x.1
      → (release_all ≡ false) ⊎ ((finish_delete A net rest release_all key e x).0 ≢ ok tt)
      → OnlySent m (finish_delete A net rest release_all key e x).1
  unfolding finish_delete
  finish_delete_keeps release_all key e m (some t, m₁) same h = same
  finish_delete_keeps false key e m (none, m₁) same h = same
  finish_delete_keeps true key e m (none, m₁) same (inl h) = absurd (ground arith)
  finish_delete_keeps true key e m (none, m₁) same (inr h) = absurd (h refl)

  finish_delete-lookup :
      (key : String) (e : LbCacheEntry) (m : Manager A.State) (x : Option String × Manager A.State)
      → OnlySent m x.1
      → (finish_delete A net rest true key e x).0 ≡ ok tt
      → (j : String)
      → lookup j (finish_delete A net rest true key e x).1.lb_cache
        ≡ (if key == j then none else lookup j m.lb_cache)
  unfolding finish_delete
  finish_delete-lookup key e m (some t, m₁) same h j = absurd (ground arith)
  finish_delete-lookup key e m (none, m₁) same h j =
      lookup-remove key j (return_pairs A net rest e e.lb_service_pairs m₁).lb_cache
      ∙ ap (λ c. if key == j then none else lookup j c)
          (return_pairs-lb_cache e e.lb_service_pairs m₁
            ∙ ap (λ (n : Manager A.State). n.lb_cache) same)

  delete_entry_keeps :
      (key : String) (release_all : Bool) (m : Manager A.State) (o : Option LbCacheEntry)
      → let (r, m') = delete_entry A net rest config key release_all m o in
        (release_all ≡ false) ⊎ ((o ≡ none) ⊎ (r ≢ ok tt)) → OnlySent m m'
  unfolding delete_entry
  delete_entry_keeps key release_all m none h = refl
  delete_entry_keeps key release_all m (some e) (inl h) =
      finish_delete_keeps release_all key e m _ (remove_pairs-OnlySent e.lb_service_pairs m) (inl h)
  delete_entry_keeps key release_all m (some e) (inr (inl h)) = absurd (ground arith)
  delete_entry_keeps key release_all m (some e) (inr (inr h)) =
      finish_delete_keeps release_all key e m _ (remove_pairs-OnlySent e.lb_service_pairs m) (inr h)

  delete_entry-lookup :
      (key : String) (m : Manager A.State) (o : Option LbCacheEntry)
      → o ≡ lookup key m.lb_cache
      → let (r, m') = delete_entry A net rest config key true m o in
        r ≡ ok tt
        → (j : String) → lookup j m'.lb_cache ≡ (if key == j then none else lookup j m.lb_cache)
  unfolding delete_entry
  delete_entry-lookup key m none e h j = ground (arith, eq_iff key j)
  delete_entry-lookup key m (some entry) e h j =
      finish_delete-lookup key entry m _ (remove_pairs-OnlySent entry.lb_service_pairs m) h j

  -- deleteLoadBalancer changes nothing but the log of its requests when it returns an error, when it
  -- is told to keep the addresses, and for a service that is not in the cache: the cache entries stay,
  -- and no address goes back to a pool.
  pub delete_load_balancer_keeps :
      (ns name : String) (release_all : Bool) (m : Manager A.State)
      → let (r, m') = delete_load_balancer A net rest config ns name release_all m in
        (release_all ≡ false) ⊎ ((lookup (gen_key ns name) m.lb_cache ≡ none) ⊎ (r ≢ ok tt))
        → m' ≡ record m { sent = m'.sent }
  unfolding delete_load_balancer
  delete_load_balancer_keeps ns name release_all m h =
      delete_entry_keeps (gen_key ns name) release_all m (lookup (gen_key ns name) m.lb_cache) h

  -- A deletion that succeeds and releases takes the entry of the service out of the cache, and leaves
  -- the entries of all other services.
  pub delete_load_balancer-lookup :
      (ns name : String) (m : Manager A.State)
      → let (r, m') = delete_load_balancer A net rest config ns name true m in
        r ≡ ok tt
        → (j : String)
        → lookup j m'.lb_cache ≡ (if gen_key ns name == j then none else lookup j m.lb_cache)
  unfolding delete_load_balancer
  delete_load_balancer-lookup ns name m h j =
      delete_entry-lookup (gen_key ns name) m (lookup (gen_key ns name) m.lb_cache) refl h j
