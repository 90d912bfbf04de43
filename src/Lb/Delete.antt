-- ===== src/Lb/Delete.antt =====
-- deleteLoadBalancer and DeleteAllLoadBalancer of loadbalancer.go.
pub mod Laws
use kube_loxilb.Api.Client.{LoxiClient}
use kube_loxilb.Api.LbModel.{LbModel, op_detach}
use kube_loxilb.Base.{
  Bool, List, Option, String, [], false, if◌then◌else◌, none, some, true, ℕ, ◌∷◌,
}
use kube_loxilb.Base.Assoc.{Assoc, lookup, remove}
use kube_loxilb.Base.Outcome.{Outcome, err, ok}
use kube_loxilb.Config.{NetworkConfig}
use kube_loxilb.IpPool.{return_ip_addr}
use kube_loxilb.Lb.Model.{send}
use kube_loxilb.Lb.Types.{
  LbCacheEntry, LbServicePairEntry, Manager, Rest, delete, gen_key, on_pool, post,
}
use kube_loxilb.Net.{Allocator, Net}
use kube_loxilb.Text.{concat}

module _ (A : Allocator) (net : Net) (rest : Rest) where
  -- Removal of one rule from one instance: a detached rule is posted, any other one is deleted.
  unfoldable pub remove_rule :
      NetworkConfig → LoxiClient → LbModel → Manager A.State → Option String × Manager A.State
  unfolding send
  remove_rule config c lb m =
      if config.append_eps
      then send rest post c.host (record lb { service = record lb.service { oper = op_detach } }) m
      else send rest delete c.host lb m

  -- The first error, of those of a pair's requests.
  abbrev first_error : Option String → Option String → Option String
  first_error none later = later
  first_error (some t) later = some t

  remove_from_all :
      NetworkConfig → LbModel → List LoxiClient → Manager A.State → Option String × Manager A.State
  unfolding remove_rule
  remove_from_all config lb [] m = (none, m)
  remove_from_all config lb (c ∷ cs) m =
      let (e, m₁) = remove_rule config c lb m in
      let (later, m₂) = remove_from_all config lb cs m₁ in (first_error e later, m₂)

  remove_models : NetworkConfig → List LbModel → Manager A.State → Option String × Manager A.State
  unfolding remove_from_all
  remove_models config [] m = (none, m)
  remove_models config (lb ∷ lbs) m =
      let (e, m₁) = remove_from_all config lb m.clients m in
      let (later, m₂) = remove_models config lbs m₁ in (first_error e later, m₂)

  -- The requests of all pairs, which are sent also after an error, and the error of the last pair
  -- that had one.
  unfoldable pub remove_pairs :
      NetworkConfig → Assoc LbServicePairEntry → Manager A.State → Option String × Manager A.State
  unfolding remove_models
  remove_pairs config [] m = (none, m)
  remove_pairs config ((k, sp) ∷ sps) m =
      let (e, m₁) = remove_models config sp.lb_model_list m in
      let (later, m₂) = remove_pairs config sps m₁ in (first_error later e, m₂)

  -- The return of an address to the pool behind a pointer.
  abbrev pub give_back : ℕ → String → String → Manager A.State → Manager A.State
  give_back i ip ident = on_pool (λ p. return_ip_addr A net p ip ident) i

  -- The secondary addresses, as far as there are pools for them.
  unfoldable pub return_secondary :
      List String → List ℕ → String → Manager A.State → Manager A.State
  return_secondary [] pools ident m = m
  return_secondary (ip ∷ ips) [] ident m = m
  return_secondary (ip ∷ ips) (i ∷ is) ident m =
      return_secondary ips is ident (give_back i ip ident m)

  unfoldable pub return_pair : LbCacheEntry → LbServicePairEntry → Manager A.State → Manager A.State
  unfolding return_secondary
  return_pair e sp m =
      let m' = if sp.in_range then give_back e.ip_pool sp.external_ip sp.ident_ipam m else m in
      return_secondary e.sec_ips e.sip_pools sp.ident_ipam m'

  unfoldable pub return_pairs :
      LbCacheEntry → Assoc LbServicePairEntry → Manager A.State → Manager A.State
  unfolding return_pair
  return_pairs e [] m = m
  return_pairs e ((k, sp) ∷ sps) m = return_pairs e sps (return_pair e sp m)

  -- The end of deleteLoadBalancer, by the error of the requests.
  unfoldable pub finish_delete :
      Bool
      → String
      → LbCacheEntry
      → Option String × Manager A.State
      → Outcome (Unit {0}) × Manager A.State
  unfolding return_pairs
  finish_delete release_all key e (some t, m) =
      (err (concat ("failed to delete loxiLB LoadBalancer. err: " ∷ t ∷ [])), m)
  finish_delete false key e (none, m) = (ok tt, m)
  finish_delete true key e (none, m) =
      let m' = return_pairs e e.lb_service_pairs m in
      (ok tt, record m' { lb_cache = remove key m'.lb_cache })

  unfoldable pub delete_entry :
      NetworkConfig
      → String
      → Bool
      → Manager A.State
      → Option LbCacheEntry
      → Outcome (Unit {0}) × Manager A.State
  unfolding remove_pairs finish_delete
  delete_entry config key release_all m none = (ok tt, m)
  delete_entry config key release_all m (some e) =
      finish_delete release_all key e (remove_pairs config e.lb_service_pairs m)

  -- deleteLoadBalancer
  unfoldable pub delete_load_balancer :
      NetworkConfig
      → String
      → String
      → Bool
      → Manager A.State
      → Outcome (Unit {0}) × Manager A.State
  unfolding gen_key delete_entry
  delete_load_balancer config ns name release_all m =
      delete_entry config (gen_key ns name) release_all m (lookup (gen_key ns name) m.lb_cache)

  delete_models : String → List LbModel → Manager A.State → Manager A.State
  unfolding send
  delete_models host [] m = m
  delete_models host (lb ∷ lbs) m = delete_models host lbs (send rest delete host lb m).1

  -- One pair at every instance: the addresses are returned once for each instance.
  delete_pair :
      LbCacheEntry → LbServicePairEntry → List LoxiClient → Manager A.State → Manager A.State
  unfolding delete_models return_pair
  delete_pair e sp [] m = m
  delete_pair e sp (c ∷ cs) m =
      delete_pair e sp cs (return_pair e sp (delete_models c.host sp.lb_model_list m))

  delete_pairs : LbCacheEntry → Assoc LbServicePairEntry → Manager A.State → Manager A.State
  unfolding delete_pair
  delete_pairs e [] m = m
  delete_pairs e ((k, sp) ∷ sps) m = delete_pairs e sps (delete_pair e sp m.clients m)

  delete_entries : Assoc LbCacheEntry → Manager A.State → Manager A.State
  unfolding delete_pairs
  delete_entries [] m = m
  delete_entries ((k, e) ∷ es) m = delete_entries es (delete_pairs e e.lb_service_pairs m)

  -- DeleteAllLoadBalancer: the answers are not looked at, and the cache is emptied.
  unfoldable pub delete_all_load_balancer : Manager A.State → Manager A.State
  unfolding delete_entries
  delete_all_load_balancer m = record (delete_entries m.lb_cache m) { lb_cache = [] }
