-- ===== src/Lb/Pools/Clients.antt =====
-- The operations on address pools leave the clients of instances.
use kube_loxilb.Api.LbModel.{ep_select_eq}
use kube_loxilb.Base.{
  Bool, Bool-cases, Option, String, bool_eq, false, get_elem?, inl, inr, nat_eq, none, not, refl,
  some, string_eq, true, ℕ, ◌==◌, ◌∙◌, ◌≡◌,
}
use kube_loxilb.Base.Assoc.{Assoc, lookup, remove}
use kube_loxilb.Base.Int.{int_eq}
use kube_loxilb.Base.Outcome.{Outcome, err, ok, panic}
use kube_loxilb.Config.{NetworkConfig}
use kube_loxilb.IpPool.{IpPool, new_ip_pool}
use kube_loxilb.Lb.Pools.{
  Copied, add_cidr_pool, add_loxi_cidr_pool, add_to_table, assign_copy, cidr_addr, delete_cidr_pool,
  delete_loxi_cidr_pool, drop_copy, enter_pool, is_v6_addr, table, update_pool, with_table,
}
use kube_loxilb.Lb.Types.{Manager}
use kube_loxilb.Net.{Allocator, IpAddr, Net}

module _ {S : Type 0} where
  with_table-clients :
      (v6 : Bool) (tbl : Assoc ℕ) (m : Manager S) → (with_table v6 tbl m).clients ≡ m.clients
  with_table-clients true tbl m = refl
  with_table-clients false tbl m = refl

module _ (A : Allocator) (net : Net) where
  enter_pool-clients :
      (name : String) (copy : Assoc ℕ) (m : Manager A.State) (p : Outcome (IpPool A.State))
      → (drop_copy A net (enter_pool A net name copy m p)).1.clients ≡ m.clients
  unfolding enter_pool
  enter_pool-clients name copy m (ok p) = refl
  enter_pool-clients name copy m (err e) = refl
  enter_pool-clients name copy m panic = refl

  update_pool-clients :
      (config : NetworkConfig) (name cidr : String) (copy : Assoc ℕ) (m : Manager A.State)
      (o : Option (IpPool A.State))
      → (drop_copy A net (update_pool A net config name cidr copy m o)).1.clients ≡ m.clients
  unfolding update_pool
  update_pool-clients config name cidr copy m none = refl
  update_pool-clients config name cidr copy m (some p) = elim (Bool-cases (p.cidr == cidr)) [
    | inl e ↦ rw e refl
    | inr e ↦
        rw e (enter_pool-clients name copy m (new_ip_pool A net A.new cidr (not config.excl_ipam)))
  ]

  assign_copy-clients :
      (v6 : Bool) (l : Copied A net)
      → (assign_copy A net v6 l).1.clients ≡ (drop_copy A net l).1.clients
  unfolding assign_copy
  assign_copy-clients v6 (ok _, copy, m) = with_table-clients v6 copy m
  assign_copy-clients v6 (err e, copy, m) = refl
  assign_copy-clients v6 (panic, copy, m) = refl

  add_to_table-clients :
      (config : NetworkConfig) (name cidr : String) (v6 : Bool) (m : Manager A.State) (o : Option ℕ)
      → (add_to_table A net config name cidr v6 m o).1.clients ≡ m.clients
  unfolding add_to_table
  add_to_table-clients config name cidr v6 m (some i) =
      update_pool-clients config name cidr (table v6 m) m (get_elem? m.pools i)
  add_to_table-clients config name cidr v6 m none =
      let made = new_ip_pool A net A.new cidr (not config.excl_ipam) in
      assign_copy-clients v6 (enter_pool A net name (table v6 m) m made)
      ∙ enter_pool-clients name (table v6 m) m made

  add_cidr_pool-clients :
      (config : NetworkConfig) (name cidr : String) (m : Manager A.State)
      → (addr : Outcome (Option IpAddr))
      → (add_cidr_pool A net config name cidr m addr).1.clients ≡ m.clients
  unfolding add_cidr_pool
  add_cidr_pool-clients config name cidr m (ok addr) =
      add_to_table-clients config name cidr (is_v6_addr net addr) m
        (lookup name (table (is_v6_addr net addr) m))
  add_cidr_pool-clients config name cidr m (err e) = refl
  add_cidr_pool-clients config name cidr m panic = refl

  delete_cidr_pool-clients :
      (name : String) (m : Manager A.State) (addr : Outcome (Option IpAddr))
      → (delete_cidr_pool A net name m addr).1.clients ≡ m.clients
  unfolding delete_cidr_pool
  delete_cidr_pool-clients name m (ok addr) =
      with_table-clients (is_v6_addr net addr) (remove name (table (is_v6_addr net addr) m)) m
  delete_cidr_pool-clients name m (err e) = refl
  delete_cidr_pool-clients name m panic = refl

  pub add_loxi_cidr_pool-clients :
      (config : NetworkConfig) (name cidr : String) (m : Manager A.State)
      → (add_loxi_cidr_pool A net config name cidr m).1.clients ≡ m.clients
  unfolding add_loxi_cidr_pool
  add_loxi_cidr_pool-clients config name cidr m =
      add_cidr_pool-clients config name cidr m (cidr_addr net cidr)

  pub delete_loxi_cidr_pool-clients :
      (name cidr : String) (m : Manager A.State)
      → (delete_loxi_cidr_pool A net name cidr m).1.clients ≡ m.clients
  unfolding delete_loxi_cidr_pool
  delete_loxi_cidr_pool-clients name cidr m = delete_cidr_pool-clients name m (cidr_addr net cidr)
